-- ===== src/Atomic.antt =====
-- src/atomic: what a metric cell does, and the cells of the crate.
pub mod Traits
pub mod Float
pub mod Integers
pub mod Histogram
