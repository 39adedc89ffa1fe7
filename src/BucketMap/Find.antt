-- ===== src/BucketMap/Find.antt =====
-- `get_bucket` of src/bucket_map.rs reads the entries and the aliases: what it finds is the bucket
-- of the normalised list, and it finds every list that is normalised or has an alias.
use mathlib.Core.Option
use mathlib.Core.Path.{subst}
use native.Mathlib.Nat.{le_trans}
use ohnotel.Base.{
  ℕ, ◌≡◌, ◌≢◌, ◌⊎◌, inl, inr, sym, ap, ◌∙◌, Bool, List, ◌∷◌, none, some, ok, err, ◌==◌, length,
  arith, Option-cases, Bool-cases, if◌then◌else◌,
}
use ohnotel.Model.Order.{Ord}
use ohnotel.Attrs.{normalize, IsCanonical, is_sorted}
use ohnotel.Attrs.Sort.{eq_of_eq_attrs}
use ohnotel.Attrs.Normal.{normalize-canonical}
use ohnotel.Fingerprint.{
  AttrFingerprint, eq_fingerprint, eq_of_eq_fingerprint, commutative_hash, table_hash,
}
use ohnotel.Table.Items.{
  first, count_match-le-count, first_match-eq-first, FiledUnder-of_All, first_passes, All-first,
}
use ohnotel.BucketMap.State.{CanonicalEntry, AliasEntry, Params, BucketMap}
use ohnotel.BucketMap.Lookup.{has_attrs, lookup_canon, lookup_dup, find_bucket, get_bucket}
use ohnotel.BucketMap.Inv.{
  entries_of, aliases_of, bucket_for, alias_for, EntryOk, AliasOk, Inv, NoCollision,
}

module _ {K A : Type 0} ⦃o : Ord K⦄ {p : Params K A} {m : BucketMap p} (inv : Inv m) where
  hash_of : List K → ℕ
  hash_of attrs = table_hash p.build (commutative_hash p.build attrs)

  -- A search of the canonical table under the hash of the labels.
  pub find_canonical :
      (attrs : List K)
      → p.canon.find
          (table_hash p.build (commutative_hash p.build attrs))
          (has_attrs attrs)
          m.canonical
        ≡ first (has_attrs attrs) (entries_of m)
  find_canonical attrs =
      let h = table_hash p.build (commutative_hash p.build attrs) in
      p.canon.find_items h (has_attrs attrs) m.canonical
        (le_trans (count_match-le-count h (has_attrs attrs) (entries_of m)) (inv.unique attrs))
      ∙ first_match-eq-first h (has_attrs attrs) (entries_of m) (
          FiledUnder-of_All (EntryOk p) h (has_attrs attrs) (entries_of m)
            (λ g e good same.
              good.filed
              ∙ ap (λ (xs : List K). table_hash p.build (commutative_hash p.build xs))
                  (eq_of_eq_attrs e.attrs attrs same))
            inv.entries)

  pub lookup_canon_lem :
      (attrs : List K)
      → lookup_canon (table_hash p.build (commutative_hash p.build attrs)) attrs m
        ≡ bucket_for m attrs
  unfolding lookup_canon bucket_for
  lookup_canon_lem attrs =
      ap (Option.map (λ (e : CanonicalEntry K). e.bucket)) (find_canonical attrs)

  pub find_alias :
      (fp : AttrFingerprint)
      → p.alias.find (table_hash p.build fp) (λ e. eq_fingerprint e.key.raw_fp fp) m.aliases
        ≡ first (λ e. eq_fingerprint e.key.raw_fp fp) (aliases_of m)
  find_alias fp =
      let h = table_hash p.build fp in
      let test : AliasEntry K → Bool = λ e. eq_fingerprint e.key.raw_fp fp in
      p.alias.find_items h test m.aliases
        (le_trans (count_match-le-count h test (aliases_of m)) (inv.alias_unique fp))
      ∙ first_match-eq-first h test (aliases_of m) (
          FiledUnder-of_All (AliasOk p (bucket_for m)) h test (aliases_of m)
            (λ g e good same.
              good.filed ∙ ap (table_hash p.build) (eq_of_eq_fingerprint e.key.raw_fp fp same))
            inv.alias_entries)

  pub lookup_dup_lem :
      (fp : AttrFingerprint) (attrs : List K) → lookup_dup fp attrs m ≡ alias_for m fp
  unfolding lookup_dup alias_for
  lookup_dup_lem fp attrs = ap (Option.map (λ (e : AliasEntry K). e.bucket)) (find_alias fp)

  -- Only normalised lists have a bucket of their own.
  pub IsCanonical-of_bucket : (k : List K) (b : ℕ) → bucket_for m k ≡ some b → IsCanonical k
  unfolding bucket_for
  IsCanonical-of_bucket k b h = elim (Option-cases (first (has_attrs k) (entries_of m))) [
    | inl e ↦ absurd (ground arith)
    | inr (e, found) ↦
        let (g, good) = All-first (EntryOk p) (has_attrs k) (entries_of m) e inv.entries found in
        let same = eq_of_eq_attrs e.attrs k (first_passes (has_attrs k) (entries_of m) e found) in
        subst IsCanonical same good.canonical
  ]

  bucket_for-normalize :
      (attrs : List K) (b : ℕ)
      → bucket_for m attrs ≡ some b
      → bucket_for m (normalize attrs) ≡ some b
  bucket_for-normalize attrs b h =
      ap (bucket_for m) (normalize-canonical attrs (IsCanonical-of_bucket attrs b h)) ∙ h

  alias_for_sound :
      (attrs : List K) (b : ℕ)
      → NoCollision m attrs
      → alias_for m (commutative_hash p.build attrs) ≡ some b
      → bucket_for m (normalize attrs) ≡ some b
  unfolding alias_for
  alias_for_sound attrs b apart h =
      let fp = commutative_hash p.build attrs in
      let test : AliasEntry K → Bool = λ e. eq_fingerprint e.key.raw_fp fp in
      elim (Option-cases (first test (aliases_of m))) [
        | inl e ↦ absurd (ground arith)
        | inr (e, found) ↦
            let same =
              eq_of_eq_fingerprint e.key.raw_fp fp (first_passes test (aliases_of m) e found) in
            let (g, good) =
              All-first (AliasOk p (bucket_for m)) test (aliases_of m) e inv.alias_entries found in
            let (h', agree) = All-first _ test (aliases_of m) e apart found in
            let leads = good.leads in
            let forms = agree same in ap (bucket_for m) (sym forms) ∙ leads ∙ ground arith
      ]

  find_bucket_reads :
      (attrs : List K)
      → find_bucket
          (commutative_hash p.build attrs)
          (table_hash p.build (commutative_hash p.build attrs))
          attrs
          m
        ≡ (if length attrs == 1
            then bucket_for m attrs
            else if is_sorted attrs
            then Option.or_else (bucket_for m attrs) (alias_for m (commutative_hash p.build attrs))
            else Option.or_else (alias_for m (commutative_hash p.build attrs)) (bucket_for m attrs))
  unfolding find_bucket
  find_bucket_reads attrs =
      rw (lookup_canon_lem attrs, lookup_dup_lem (commutative_hash p.build attrs) attrs)

  find_bucket_sound :
      (attrs : List K) (b : ℕ)
      → NoCollision m attrs
      → find_bucket
          (commutative_hash p.build attrs)
          (table_hash p.build (commutative_hash p.build attrs))
          attrs
          m
        ≡ some b
      → bucket_for m (normalize attrs) ≡ some b
  unfolding Option.or_else
  find_bucket_sound attrs b apart h =
      ground (
        arith,
        find_bucket_reads attrs,
        bucket_for-normalize attrs b,
        alias_for_sound attrs b apart,
      )

  -- A bucket that `get_bucket` returns for at least one attribute of a well-formed map, if no alias
  -- of the map has the fingerprint of the list and another normal form, is the bucket of the
  -- normalised list.
  pub get_bucket_sound :
      (a : K) (more : List K) (b : ℕ)
      → NoCollision m (a ∷ more)
      → get_bucket (a ∷ more) m ≡ ok b
      → bucket_for m (normalize (a ∷ more)) ≡ some b
  unfolding get_bucket
  get_bucket_sound a more b apart h = ground (arith, find_bucket_sound (a ∷ more) b apart)

  -- `get_bucket` of at least one attribute in a well-formed map misses, with the fingerprint and
  -- the hash of the list, where the list as it is has no bucket, and it is a single attribute or
  -- its fingerprint has no alias.
  pub get_bucket_miss :
      (a : K) (more : List K)
      → bucket_for m (a ∷ more) ≡ none
      → ((length (a ∷ more) ≡ 1) ⊎ (alias_for m (commutative_hash p.build (a ∷ more)) ≡ none))
      → get_bucket (a ∷ more) m
        ≡ err (
          commutative_hash p.build (a ∷ more),
          table_hash p.build (commutative_hash p.build (a ∷ more)),
        )
  unfolding get_bucket Option.or_else
  get_bucket_miss a more h k = ground (arith, find_bucket_reads (a ∷ more))

  find_bucket-some :
      (attrs : List K) (b : ℕ)
      → ((bucket_for m attrs ≡ some b)
          ⊎ ((length attrs ≢ 1) × (alias_for m (commutative_hash p.build attrs) ≡ some b)))
      → find_bucket
          (commutative_hash p.build attrs)
          (table_hash p.build (commutative_hash p.build attrs))
          attrs
          m
        ≢ none
  unfolding Option.or_else
  find_bucket-some attrs b k e = ground (arith, find_bucket_reads attrs)

  -- It finds the bucket of a list that is a key or has an alias.
  pub get_bucket_hit :
      (a : K) (more : List K) (b : ℕ)
      → NoCollision m (a ∷ more)
      → bucket_for m (normalize (a ∷ more)) ≡ some b
      → ((bucket_for m (a ∷ more) ≡ some b)
          ⊎ ((length (a ∷ more) ≢ 1)
              × (alias_for m (commutative_hash p.build (a ∷ more)) ≡ some b)))
      → get_bucket (a ∷ more) m ≡ ok b
  unfolding get_bucket
  get_bucket_hit a more b apart h k =
      let fp = commutative_hash p.build (a ∷ more) in
      elim (Option-cases (find_bucket fp (table_hash p.build fp) (a ∷ more) m)) [
        | inl e ↦ absurd (find_bucket-some (a ∷ more) b k e)
        | inr (b', e) ↦
            let same = find_bucket_sound (a ∷ more) b' apart e in rw (e, get_bucket) (cc same)
      ]

  find_bucket-none :
      (attrs : List K)
      → find_bucket
          (commutative_hash p.build attrs)
          (table_hash p.build (commutative_hash p.build attrs))
          attrs
          m
        ≡ none
      → (length attrs ≡ 1) ⊎ (alias_for m (commutative_hash p.build attrs) ≡ none)
  unfolding Option.or_else
  find_bucket-none attrs e = elim (Bool-cases (length attrs == 1)) [
    | inl one ↦ inl (ground arith)
    | inr more ↦ inr (ground (arith, find_bucket_reads attrs))
  ]

  -- What a miss returns, and that no alias was found.
  pub get_bucket_err :
      (a : K) (more : List K) (x : AttrFingerprint × ℕ)
      → get_bucket (a ∷ more) m ≡ err x
      → ((
        commutative_hash p.build (a ∷ more),
        table_hash p.build (commutative_hash p.build (a ∷ more)),
      )
          ≡ x)
        × ((length (a ∷ more) ≡ 1) ⊎ (alias_for m (commutative_hash p.build (a ∷ more)) ≡ none))
  unfolding get_bucket
  get_bucket_err a more x h =
      let fp = commutative_hash p.build (a ∷ more) in
      elim (Option-cases (find_bucket fp (table_hash p.build fp) (a ∷ more) m)) [
        | inl e ↦ (ground (arith, h, e), find_bucket-none (a ∷ more) e)
        | inr (b, e) ↦ absurd (ground (arith, h, e))
      ]
