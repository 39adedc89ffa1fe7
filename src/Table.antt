-- ===== src/Table.antt =====
-- The parameter that stands for `hashbrown::HashTable`, and a list that meets its laws.
pub mod Items
pub mod Defs
pub mod Model
pub use Defs.{HashTable}
