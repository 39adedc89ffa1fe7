-- ===== src/BucketMap.antt =====
-- src/bucket_map.rs: the map from attribute lists to buckets. Parts, in the order of the layers:
-- the state, the look-ups and insertions, the public operations, and the proofs about each.
pub mod State
pub mod Lookup
pub mod Ops
pub mod Inv
pub mod Find
pub mod Occupied
pub mod Vacant
pub mod Dup
pub mod Insert
pub mod Create
pub mod Contents
pub mod Drain
pub mod Visit
