-- ===== src/BucketMap/Create.antt =====
-- `get_or_create` of src/bucket_map.rs, from its parts.
use mathlib.Core.Option
use mathlib.Core.Path.{subst}
use ohnotel.Base.{
  ℕ, ◌≡◌, ◌≢◌, ◌⊎◌, refl, sym, ap, ◌∙◌, true, false, List, [], ◌∷◌, Option, none, some, Result, ok,
  err, All, length, arith, if◌then◌else◌, Bool-cases, inl, inr, ◌==◌, ==_iff,
}
use ohnotel.Model.Order.{Ord}
use ohnotel.Attrs.{normalize, eq_attrs}
use ohnotel.Attrs.Sort.{eq_of_eq_attrs, eq_attrs_refl}
use ohnotel.Attrs.Normal.{normalize-IsCanonical, normalize-ne-nil, normalize-canonical}
use ohnotel.Fingerprint.{
  eq_fingerprint, AttrFingerprint, commutative_hash, table_hash, commutative_hash-normalize,
}
use ohnotel.Table.Items.{first}
use ohnotel.BucketMap.State.{AliasKey, AliasEntry, Params, BucketMap}
use ohnotel.BucketMap.Lookup.{get_bucket, insert_canon, insert_dup, create, get_or_create}
use ohnotel.BucketMap.Inv.{bucket_for, alias_for, Inv, NoCollision}
use ohnotel.BucketMap.Find.{get_bucket_sound, get_bucket_hit, get_bucket_err}
use ohnotel.BucketMap.Dup.{insert_dup_lem, aliased-Inv, alias_for-aliased, aliased-NoCollision}
use ohnotel.BucketMap.Insert.{HasBucket, insert_canon-HasBucket, aliased-HasBucket}

-- The hash that `get_or_create` files a new entry under is that of its labels.
canon_hash_lem :
    {K A : Type 0} ⦃o : Ord K⦄ (p : Params K A) (attrs : List K)
    → (if length (normalize attrs) == (commutative_hash p.build attrs).len
        then table_hash p.build (commutative_hash p.build attrs)
        else table_hash p.build (commutative_hash p.build (normalize attrs)))
      ≡ table_hash p.build (commutative_hash p.build (normalize attrs))
unfolding commutative_hash
canon_hash_lem p attrs = elim (Bool-cases (length (normalize attrs) == length attrs)) [
  | inl e ↦
      rw e (
        ap (table_hash p.build) (sym (commutative_hash-normalize p.build attrs ((==_iff _ _).0 e))))
  | inr e ↦ rw e
]

-- A single attribute is its own normal form.
false_of_single :
    {K : Type 0} ⦃o : Ord K⦄ (a : K) (more : List K)
    → length (a ∷ more) ≡ 1
    → eq_attrs (normalize (a ∷ more)) (a ∷ more) ≡ false
    → ⊥
false_of_single a [] one e =
    cc (ap (λ xs. eq_attrs xs (a ∷ [])) (normalize-canonical (a ∷ []) tt), eq_attrs_refl (a ∷ []))
false_of_single a (b ∷ more) one e = absurd (omega arith)

module _ {K A : Type 0} ⦃o : Ord K⦄ {p : Params K A} {m : BucketMap p} (inv : Inv m) (a : K)
    (more : List K) where
  abbrev attrs : List K
  attrs = a ∷ more

  abbrev fp : AttrFingerprint
  fp = commutative_hash p.build attrs

  abbrev key : AliasKey K
  key = record { raw_fp = fp; raw_attrs = attrs }

  abbrev filed : Option (AliasKey K) → BucketMap p × ℕ
  filed alias =
      insert_canon (normalize attrs)
        (table_hash p.build (commutative_hash p.build (normalize attrs))) alias m

  -- `create` is `insert_canon` at the normalised list, then an alias if the list is another.
  create_parts : create fp (table_hash p.build fp) attrs m ≡ (
      if eq_attrs (normalize attrs) attrs
      then filed none
      else (insert_dup key (filed (some key)).1 (filed (some key)).0, (filed (some key)).1))
  unfolding create
  create_parts = rw (canon_hash_lem p attrs)

  -- The result of a miss.
  abbrev Created : BucketMap p × ℕ → Type 0
  Created r =
      HasBucket m (normalize attrs) r × (NoCollision m attrs → get_bucket attrs r.0 ≡ ok r.1)

  inserted :
      (alias : Option (AliasKey K))
      → HasBucket m (normalize attrs) (filed alias) × ((filed alias).0.aliases ≡ m.aliases)
  inserted alias =
      insert_canon-HasBucket inv (normalize attrs) alias (normalize-IsCanonical attrs)
        (normalize-ne-nil a more)

  kept_apart : (n : BucketMap p) → n.aliases ≡ m.aliases → NoCollision m attrs → NoCollision n attrs
  kept_apart n same apart =
      subst
        (λ t.
          All (λ x. x.1.key.raw_fp ≡ fp → normalize x.1.key.raw_attrs ≡ normalize attrs)
            (p.alias.items t))
        (sym same) apart

  kept_alias :
      (n : BucketMap p) → n.aliases ≡ m.aliases → alias_for m fp ≡ none → alias_for n fp ≡ none
  unfolding alias_for
  kept_alias n same h =
      ap
        (λ t.
          Option.map (λ (e : AliasEntry K). e.bucket)
            (first (λ e. eq_fingerprint e.key.raw_fp fp) (p.alias.items t)))
        same
      ∙ h

  create_plain : eq_attrs (normalize attrs) attrs ≡ true → Created (filed none)
  create_plain e =
      let (has, same) = inserted none in
      let form = eq_of_eq_attrs (normalize attrs) attrs e in
      (
        has,
        λ apart.
            get_bucket_hit has.inv a more (filed none).1 (kept_apart (filed none).0 same apart)
              has.at_key (inl (ap (bucket_for (filed none).0) (sym form) ∙ has.at_key)),
      )

  create_aliased :
      eq_attrs (normalize attrs) attrs ≡ false
      → alias_for m fp ≡ none
      → Created (insert_dup key (filed (some key)).1 (filed (some key)).0, (filed (some key)).1)
  create_aliased e absent =
      let n = (filed (some key)).0 in
      let b = (filed (some key)).1 in
      let (has, same) = inserted (some key) in
      let absent' = kept_alias n same absent in
      let inv' = aliased-Inv has.inv key b absent' refl has.at_key in
      let has' = aliased-HasBucket (normalize attrs) b key has inv' in
      let many : length attrs ≢ 1 = λ one. false_of_single a more one e in
      rw (insert_dup_lem has.inv key b absent') (
        has',
        λ apart.
            get_bucket_hit inv' a more b
              (aliased-NoCollision has.inv key b absent' attrs refl (kept_apart n same apart))
              has'.at_key (inr (many, alias_for-aliased has.inv key b absent')),
      )

  created :
      ((length attrs ≡ 1) ⊎ (alias_for m fp ≡ none))
      → Created (create fp (table_hash p.build fp) attrs m)
  created miss = elim (Bool-cases (eq_attrs (normalize attrs) attrs)) [
    | inl e ↦ subst Created (sym (create_parts ∙ rw e)) (create_plain e)
    | inr e ↦ subst Created (sym (create_parts ∙ rw e)) (create_aliased e (no_alias e miss))
  ]
    where
      no_alias :
          eq_attrs (normalize attrs) attrs ≡ false
          → ((length attrs ≡ 1) ⊎ (alias_for m fp ≡ none))
          → alias_for m fp ≡ none
      no_alias e (inl one) = absurd (false_of_single a more one e)
      no_alias e (inr none') = none'

  same-HasBucket :
      (b : ℕ) → bucket_for m (normalize attrs) ≡ some b → HasBucket m (normalize attrs) (m, b)
  same-HasBucket b h = record {
    inv = inv;
    at_key = h;
    elsewhere = λ j _. refl;
    kept = λ b' h'. ground (arith, h, h');
    fresh = λ h'. absurd (ground (arith, h, h'));
    cells = λ c _. refl;
    counted = λ c. c;
    untouched = refl;
    root = refl;
  }

  get_or_create_hit :
      (b : ℕ) → get_bucket attrs m ≡ ok b → NoCollision m attrs → Created (get_or_create attrs m)
  unfolding get_or_create
  get_or_create_hit b e apart =
      let run : get_or_create attrs m ≡ (m, b) = rw (e, get_or_create) in
      subst Created (sym run) (same-HasBucket b (get_bucket_sound inv a more b apart e), λ _. e)

  get_or_create_miss :
      (x : AttrFingerprint × ℕ) → get_bucket attrs m ≡ err x → Created (get_or_create attrs m)
  unfolding get_or_create
  get_or_create_miss x e =
      let (same, miss) = get_bucket_err inv a more x e in
      let run : get_or_create attrs m ≡ create fp (table_hash p.build fp) attrs m =
        rw (e ∙ ap err (sym same), get_or_create) in
      subst Created (sym run) (created miss)

  -- `get_or_create` of at least one attribute in a well-formed map, if no alias of the map has the
  -- fingerprint of the list and another normal form: the bucket that it returns is that of the
  -- normalised list, a new one with the initial contents if there was none; the map stays well
  -- formed and other lists keep their buckets, all as `HasBucket` says; and afterwards `get_bucket`
  -- of the same list finds that bucket.
  pub get_or_create_lem :
      NoCollision m attrs
      → HasBucket m (normalize attrs) (get_or_create attrs m)
        × (get_bucket attrs (get_or_create attrs m).0 ≡ ok (get_or_create attrs m).1)
  get_or_create_lem apart = go (get_bucket attrs m) refl
    where
      finish :
          Created (get_or_create attrs m)
          → HasBucket m (normalize attrs) (get_or_create attrs m)
            × (get_bucket attrs (get_or_create attrs m).0 ≡ ok (get_or_create attrs m).1)
      finish c = (c.0, c.1 apart)

      go :
          (x : Result ℕ (AttrFingerprint × ℕ))
          → get_bucket attrs m ≡ x
          → HasBucket m (normalize attrs) (get_or_create attrs m)
            × (get_bucket attrs (get_or_create attrs m).0 ≡ ok (get_or_create attrs m).1)
      go (ok b) e = finish (get_or_create_hit b e apart)
      go (err x) e = finish (get_or_create_miss x e)
