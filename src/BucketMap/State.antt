-- ===== src/BucketMap/State.antt =====
-- The state of a bucket map (src/bucket_map.rs). A bucket is shared by `Arc`, so it is an address of
-- a heap of cells.
use ohnotel.Base.{ℕ, ◌+◌, Bool, false, List, [], ◌==◌, if◌then◌else◌}
use ohnotel.Table.{HashTable}
use ohnotel.Fingerprint.{AttrFingerprint, BuildHasher}

pub record AliasKey (K : Type 0) : Type 0 where
  pub raw_fp : AttrFingerprint
  pub raw_attrs : List K

pub record CanonicalEntry (K : Type 0) : Type 0 where
  pub attrs : List K
  pub bucket : ℕ
  pub aliases : List (AliasKey K)

pub record AliasEntry (K : Type 0) : Type 0 where
  pub key : AliasKey K
  pub bucket : ℕ

-- The cells behind the `Arc`s; addresses from `next` on are free.
pub record Heap (A : Type 0) : Type 0 where
  pub next : ℕ
  pub cell : ℕ → A

abbrev pub write {ℓ} : {A : Type ℓ} → (ℕ → A) → ℕ → A → ℕ → A
write f b v a = if a == b then v else f a

abbrev pub update_cell : {A : Type 0} → ℕ → (A → A) → Heap A → Heap A
update_cell b f h = record h { cell = write h.cell b (f (h.cell b)) }

-- `Arc::new(init_bucket())`
abbrev pub alloc : {A : Type 0} → A → Heap A → Heap A
alloc a h = record { next = h.next + 1; cell = write h.cell h.next a }

-- What a map is built with: the hasher, the hash tables and what `init_bucket` returns.
pub record Params (K A : Type 0) : Type 1 where
  pub build : BuildHasher K
  pub canon : HashTable (CanonicalEntry K)
  pub alias : HashTable (AliasEntry K)
  pub init_bucket : A

pub record BucketMap {K A : Type 0} (p : Params K A) : Type 0 where
  pub canonical : p.canon.Table
  pub aliases : p.alias.Table
  pub no_attr_entry : CanonicalEntry K
  pub no_attr_touched : Bool
  pub count : ℕ
  pub heap : Heap A

-- `with_storage`, the constructor that the others call: the bucket without attributes is cell 0.
unfoldable pub with_storage : {K A : Type 0} (p : Params K A) → BucketMap p
with_storage p = record {
  canonical = p.canon.new;
  aliases = p.alias.new;
  no_attr_entry = record { attrs = []; bucket = 0; aliases = [] };
  no_attr_touched = false;
  count = 0;
  heap = record { next = 1; cell = λ _. p.init_bucket };
}
