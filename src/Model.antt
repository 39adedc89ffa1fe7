-- ===== src/Model.antt =====
-- src/model.rs: texts, attributes and their order.
pub mod Order
pub mod Lexicographic
pub mod Sorting
pub mod Value
pub mod Str
pub mod Display
