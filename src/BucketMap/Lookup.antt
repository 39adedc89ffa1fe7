-- ===== src/BucketMap/Lookup.antt =====
-- Looking up and inserting buckets (src/bucket_map.rs), as a release build runs them: what the
-- `debug_assert` of `matches` adds is `matches_debug`. Each function is one that the code runs
-- under a lock of its own.
use ohnotel.Base.{
  ℕ, ◌+◌, ◌%◌, Bool, true, false, List, [], ◌∷◌, ◌++◌, Option, none, some, Result, ok, err, ◌==◌,
  if◌then◌else◌, not, length,
}
use mathlib.Core.Option
use ohnotel.Model.Order.{Ord}
use ohnotel.Attrs.{eq_attrs, normalize, is_sorted}
use ohnotel.Fingerprint.{AttrFingerprint, eq_fingerprint, commutative_hash, table_hash, u64_mod}
use ohnotel.BucketMap.State.{AliasKey, CanonicalEntry, AliasEntry, alloc, Params, BucketMap}

-- `AliasKey::matches` without its assertion: the fingerprint alone decides.
abbrev pub matches : {K : Type 0} → AliasKey K → AttrFingerprint → List K → Bool
matches key raw_fp attrs = eq_fingerprint key.raw_fp raw_fp

-- `Option::into_iter` of an alias.
abbrev pub into_list {ℓ} : {A : Type ℓ} → Option A → List A
into_list none = []
into_list (some a) = a ∷ []

module _ {K : Type 0} ⦃o : Ord K⦄ where
  -- With the assertion, `none` is a panic.
  unfoldable pub matches_debug : AliasKey K → AttrFingerprint → List K → Option Bool
  matches_debug key raw_fp attrs =
      if not (eq_fingerprint key.raw_fp raw_fp)
      then some false
      else if eq_attrs key.raw_attrs attrs
      then some true
      else none

  -- The test under which the canonical table is searched.
  abbrev pub has_attrs : List K → CanonicalEntry K → Bool
  has_attrs attrs e = eq_attrs e.attrs attrs

module _ {K A : Type 0} ⦃o : Ord K⦄ {p : Params K A} where
  unfoldable pub lookup_canon : ℕ → List K → BucketMap p → Option ℕ
  lookup_canon hash attrs m =
      Option.map (λ (e : CanonicalEntry K). e.bucket)
        (p.canon.find hash (has_attrs attrs) m.canonical)

  unfoldable pub lookup_dup : AttrFingerprint → List K → BucketMap p → Option ℕ
  lookup_dup raw_fp attrs m =
      Option.map (λ (e : AliasEntry K). e.bucket)
        (p.alias.find (table_hash p.build raw_fp) (λ e. matches e.key raw_fp attrs) m.aliases)

  -- The look-ups in the order that suits the list; the second is made if the first fails.
  unfoldable pub find_bucket : AttrFingerprint → ℕ → List K → BucketMap p → Option ℕ
  unfolding Option.or_else
  find_bucket raw_fp raw_hash attrs m =
      if length attrs == 1
      then lookup_canon raw_hash attrs m
      else if is_sorted attrs
      then Option.or_else (lookup_canon raw_hash attrs m) (lookup_dup raw_fp attrs m)
      else Option.or_else (lookup_dup raw_fp attrs m) (lookup_canon raw_hash attrs m)

  unfoldable pub get_bucket : List K → BucketMap p → Result ℕ (AttrFingerprint × ℕ)
  unfolding find_bucket
  get_bucket [] m = ok m.no_attr_entry.bucket
  get_bucket (a ∷ more) m =
      let raw_fp = commutative_hash p.build (a ∷ more) in
      let raw_hash = table_hash p.build raw_fp in
      elim (find_bucket raw_fp raw_hash (a ∷ more) m) [
        | some bucket ↦ ok bucket
        | none ↦ err (raw_fp, raw_hash)
      ]

  -- The occupied and the vacant arm of `insert_canon`.
  unfoldable pub insert_canon : List K → ℕ → Option (AliasKey K) → BucketMap p → BucketMap p × ℕ
  insert_canon normalized hash alias m =
      elim (p.canon.find hash (has_attrs normalized) m.canonical) [
        | some e ↦ (
          record m {
            canonical =
                p.canon.modify hash (has_attrs normalized)
                  (λ e. record e { aliases = e.aliases ++ into_list alias }) m.canonical;
          },
          e.bucket,
        )
        | none ↦ (
          record m {
            canonical =
                p.canon.insert hash
                  (record { attrs = normalized; bucket = m.heap.next; aliases = into_list alias })
                  m.canonical;
            count = (m.count + 1) % u64_mod;
            heap = alloc p.init_bucket m.heap;
          },
          m.heap.next,
        )
      ]

  unfoldable pub insert_dup : AliasKey K → ℕ → BucketMap p → BucketMap p
  insert_dup key bucket m =
      let hash = table_hash p.build key.raw_fp in
      elim (p.alias.find hash (λ e. matches e.key key.raw_fp key.raw_attrs) m.aliases) [
        | some e ↦ m
        | none ↦ record m {
          aliases = p.alias.insert hash (record { key = key; bucket = bucket }) m.aliases;
        }
      ]

  -- `get_or_create` on a miss.
  unfoldable pub create : AttrFingerprint → ℕ → List K → BucketMap p → BucketMap p × ℕ
  create raw_fp raw_hash attrs m =
      let buf = normalize attrs in
      let canon_hash =
        if length buf == raw_fp.len
        then raw_hash
        else table_hash p.build (commutative_hash p.build buf) in
      if eq_attrs buf attrs
      then insert_canon buf canon_hash none m
      else let key : AliasKey K = record { raw_fp = raw_fp; raw_attrs = attrs } in
        let (m', bucket) = insert_canon buf canon_hash (some key) m in
        (insert_dup key bucket m', bucket)

  unfoldable pub get_or_create : List K → BucketMap p → BucketMap p × ℕ
  get_or_create attrs m = elim (get_bucket attrs m) [
    | ok bucket ↦ (m, bucket)
    | err (raw_fp, raw_hash) ↦ create raw_fp raw_hash attrs m
  ]
