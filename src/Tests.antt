-- ===== src/Tests.antt =====
-- Concrete inputs: numbers as attributes, a hasher, and hash tables that are lists. The children
-- apply the theorems to them.
pub mod Maps
pub mod Cells
pub mod Collectors
pub mod Floats
pub mod Scrapes
pub mod Exports
pub mod Loops
use ohnotel.Base.{ℕ, ◌+◌, ◌*◌, ◌%◌, ◌≡◌, Ordering, compare, List, [], ◌∷◌, arith}
use ohnotel.Model.Lexicographic.{number_order}
use ohnotel.Fingerprint.{BuildHasher, AttrFingerprint, u64_mod}
use ohnotel.Table.Model.{list_table}
use ohnotel.Atomic.Integers.{u64, integer, recording, wrapping_add}
use ohnotel.BucketMap.State.{Params, BucketMap, with_storage}
use ohnotel.BucketMap.Ops.{record_with, add}

abbrev pub hasher : BuildHasher ℕ
hasher = record {
  hash_one = λ x. (x * 31 + 7) % u64_mod;
  hash_fingerprint = λ fp. (fp.xor + 3 * fp.sum + 5 * fp.len) % u64_mod;
}

abbrev pub params : Params ℕ ℕ
params = record { build = hasher; canon = list_table _; alias = list_table _; init_bucket = 0 }

abbrev pub fresh_map : BucketMap params
fresh_map = with_storage params

-- An unsorted list that was recorded: a key and an alias.
abbrev pub used_map : BucketMap params
used_map = record_with (wrapping_add 5) (2 ∷ 1 ∷ []) fresh_map
