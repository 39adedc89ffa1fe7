-- ===== src/BucketMap/Inv.antt =====
-- The well-formedness of a bucket map (src/bucket_map.rs), and the map that it stands for.
use mathlib.Core.Option
use ohnotel.Base.{ℕ, ◌%◌, ◌≤◌, ◌<◌, ◌≡◌, ◌≢◌, List, [], Option, some, All, ◌==◌, length}
use ohnotel.Model.Order.{Ord}
use ohnotel.Attrs.{normalize, IsCanonical}
use ohnotel.Fingerprint.{AttrFingerprint, eq_fingerprint, commutative_hash, table_hash, u64_mod}
use ohnotel.Table.Items.{count, first}
use ohnotel.BucketMap.State.{CanonicalEntry, AliasEntry, Params, BucketMap}
use ohnotel.BucketMap.Lookup.{has_attrs}

module _ {K A : Type 0} ⦃o : Ord K⦄ {p : Params K A} where
  abbrev pub entries_of : BucketMap p → List (ℕ × CanonicalEntry K)
  entries_of m = p.canon.items m.canonical

  abbrev pub aliases_of : BucketMap p → List (ℕ × AliasEntry K)
  aliases_of m = p.alias.items m.aliases

  -- The bucket of a normalised list, from the entries alone.
  unfoldable pub bucket_for : BucketMap p → List K → Option ℕ
  bucket_for m k =
      Option.map (λ (e : CanonicalEntry K). e.bucket) (first (has_attrs k) (entries_of m))

  -- The bucket of the alias with a fingerprint.
  unfoldable pub alias_for : BucketMap p → AttrFingerprint → Option ℕ
  alias_for m fp =
      Option.map (λ (e : AliasEntry K). e.bucket)
        (first (λ e. eq_fingerprint e.key.raw_fp fp) (aliases_of m))

module _ {K A : Type 0} ⦃o : Ord K⦄ (p : Params K A) where
  -- "Entry labels are always sorted and deduplicated", and the hash is that of the labels.
  pub record EntryOk (x : ℕ × CanonicalEntry K) : Type 0 where
    pub canonical : IsCanonical x.1.attrs
    pub nonempty : x.1.attrs ≢ []
    pub filed : x.0 ≡ table_hash p.build (commutative_hash p.build x.1.attrs)

  -- An alias leads where its list's normal form leads.
  pub record AliasOk (target : List K → Option ℕ) (x : ℕ × AliasEntry K) : Type 0 where
    pub filed : x.0 ≡ table_hash p.build x.1.key.raw_fp
    pub hashed : x.1.key.raw_fp ≡ commutative_hash p.build x.1.key.raw_attrs
    pub leads : target (normalize x.1.key.raw_attrs) ≡ some x.1.bucket

  -- A bucket with attributes is an allocated cell other than cell 0.
  abbrev pub IsOwned : ℕ → ℕ × CanonicalEntry K → Type 0
  IsOwned next x = (0 < x.1.bucket) × (x.1.bucket < next)

module _ {K A : Type 0} ⦃o : Ord K⦄ {p : Params K A} where
  pub record Inv (m : BucketMap p) : Type 0 where
    pub entries : All (EntryOk p) (entries_of m)
    pub unique : (k : List K) → count (has_attrs k) (entries_of m) ≤ 1
    pub alias_entries : All (AliasOk p (bucket_for m)) (aliases_of m)
    pub alias_unique :
        (fp : AttrFingerprint) → count (λ e. eq_fingerprint e.key.raw_fp fp) (aliases_of m) ≤ 1
    pub owned : All (IsOwned p m.heap.next) (entries_of m)
    pub apart : (b : ℕ) → count (λ e. e.bucket == b) (entries_of m) ≤ 1
    pub root : m.no_attr_entry.bucket ≡ 0
    pub started : 0 < m.heap.next

  -- The count that `len` reports is the number of entries, as a machine word.
  abbrev pub IsCounted : BucketMap p → Type 0
  IsCounted m = m.count ≡ length (entries_of m) % u64_mod

  -- No alias has the fingerprint of a list with another normal form.
  abbrev pub NoCollision : BucketMap p → List K → Type 0
  NoCollision m attrs =
      All
        (λ x.
          x.1.key.raw_fp ≡ commutative_hash p.build attrs
          → normalize x.1.key.raw_attrs ≡ normalize attrs)
        (aliases_of m)
