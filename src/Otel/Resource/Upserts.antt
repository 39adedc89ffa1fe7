-- ===== src/Otel/Resource/Upserts.antt =====
-- The attributes of a resource (src/otel/dto.rs): one for each key, the latest.
use ohnotel.Base.{
  Text, Bool, true, false, List, [], ◌∷◌, ◌++◌, Option, none, some, if◌then◌else◌, ◌≡◌, ◌≢◌, refl,
  sym, ap, ◌∙◌, ◌⊎◌, All, Bool-cases, inl, inr, arith,
}
use ohnotel.Model.Value.{KeyValue}
use ohnotel.Model.Sorting.Distinct.{IsDistinctBy}
use ohnotel.Prometheus.{eq_text}
use ohnotel.Prometheus.Labels.{is_empty}
use ohnotel.Prometheus.Labels.Repeats.{eq_text_iff, eq_text-false}
use ohnotel.Otel.Resource.{
  Resource, key_of, replace_or_push, upsert_key_value, upsert_all, pushed, fields, into_attributes,
}

is_empty-cases : (s : Text) → ((is_empty s ≡ true) × (s ≡ [])) ⊎ ((is_empty s ≡ false) × (s ≢ []))
is_empty-cases [] = inl (refl, refl)
is_empty-cases (c ∷ cs) = inr (refl, λ k. cc)

module _ {F : Type 0} where
  -- The first attribute of a key.
  abbrev pub find : Text → List (KeyValue F) → Option (KeyValue F)
  find key [] = none
  find key (kv ∷ kvs) = if eq_text (key_of kv) key then some kv else find key kvs

  -- The last attribute of a key, or what was found before.
  abbrev pub latest : Text → List (KeyValue F) → Option (KeyValue F) → Option (KeyValue F)
  latest key [] before = before
  latest key (kv ∷ kvs) before =
      latest key kvs (if eq_text (key_of kv) key then some kv else before)

  abbrev pub HasKey : KeyValue F → Type 0
  HasKey kv = key_of kv ≢ []

  not_both :
      (key : Text) (kv x : KeyValue F)
      → eq_text (key_of x) (key_of kv) ≡ false
      → eq_text (key_of x) key ≡ true
      → eq_text (key_of kv) key ≡ false
  not_both key kv x apart here = eq_text-false (key_of kv) key (λ same. ground (
    arith,
    sym apart
        ∙ (eq_text_iff (key_of x) (key_of kv)).1 ((eq_text_iff (key_of x) key).0 here ∙ sym same),
  ))

  either :
      (a x : KeyValue F) (b : Option (KeyValue F)) (c : Bool)
      → (if c then some a else b) ≡ (if c then some a else (if c then some x else b))
  either a x b true = refl
  either a x b false = refl

  find-replace_or_push :
      (key : Text) (kv : KeyValue F) (kvs : List (KeyValue F))
      → find key (replace_or_push kv kvs)
        ≡ (if eq_text (key_of kv) key then some kv else find key kvs)
  unfolding replace_or_push
  find-replace_or_push key kv [] = refl
  find-replace_or_push key kv (x ∷ xs) = elim (Bool-cases (eq_text (key_of x) (key_of kv))) [
    | inl e ↦
        rw (e, (eq_text_iff (key_of x) (key_of kv)).0 e)
          (either kv x (find key xs) (eq_text (key_of kv) key))
    | inr e ↦
        rw (e, find-replace_or_push key kv xs)
          (elim (Bool-cases (eq_text (key_of x) key)) [
            | inr other ↦ rw other refl
            | inl here ↦ rw (here, not_both key kv x e here) refl
          ])
  ]

  away-replace_or_push :
      (key : Text) (kv : KeyValue F) (kvs : List (KeyValue F))
      → key ≢ key_of kv
      → All (λ (x : KeyValue F). key ≢ key_of x) kvs
      → All (λ (x : KeyValue F). key ≢ key_of x) (replace_or_push kv kvs)
  unfolding replace_or_push
  away-replace_or_push key kv [] apart h = (apart, tt)
  away-replace_or_push key kv (x ∷ xs) apart h =
      elim (Bool-cases (eq_text (key_of x) (key_of kv))) [
        | inl e ↦ rw e (apart, h.1)
        | inr e ↦ rw e (h.0, away-replace_or_push key kv xs apart h.1)
      ]

  IsDistinctBy-replace_or_push :
      (kv : KeyValue F) (kvs : List (KeyValue F))
      → IsDistinctBy key_of kvs
      → IsDistinctBy key_of (replace_or_push kv kvs)
  unfolding replace_or_push
  IsDistinctBy-replace_or_push kv [] d = (tt, tt)
  IsDistinctBy-replace_or_push kv (x ∷ xs) d = elim (Bool-cases (eq_text (key_of x) (key_of kv))) [
    | inl e ↦ let same = (eq_text_iff (key_of x) (key_of kv)).0 e in rw e ((rw same at d.0), d.1)
    | inr e ↦
        let apart : key_of x ≢ key_of kv =
          λ same. ground (arith, sym e ∙ (eq_text_iff (key_of x) (key_of kv)).1 same) in
        rw e
          (away-replace_or_push (key_of x) kv xs apart d.0, IsDistinctBy-replace_or_push kv xs d.1)
  ]

  HasKey-replace_or_push :
      (kv : KeyValue F) (kvs : List (KeyValue F))
      → HasKey kv
      → All HasKey kvs
      → All HasKey (replace_or_push kv kvs)
  unfolding replace_or_push
  HasKey-replace_or_push kv [] has h = (has, tt)
  HasKey-replace_or_push kv (x ∷ xs) has h = elim (Bool-cases (eq_text (key_of x) (key_of kv))) [
    | inl e ↦ rw e (has, h.1)
    | inr e ↦ rw e (h.0, HasKey-replace_or_push kv xs has h.1)
  ]

  -- One attribute for each key, and a key for each.
  abbrev pub IsMerged : List (KeyValue F) → Type 0
  IsMerged kvs = IsDistinctBy key_of kvs × All HasKey kvs

  key-cases :
      (kv : KeyValue F)
      → ((is_empty (key_of kv) ≡ true) × (key_of kv ≡ []))
        ⊎ ((is_empty (key_of kv) ≡ false) × HasKey kv)
  key-cases kv = is_empty-cases (key_of kv)

  IsMerged-upsert_key_value :
      (kvs : List (KeyValue F)) (kv : KeyValue F)
      → IsMerged kvs
      → IsMerged (upsert_key_value kvs kv)
  unfolding upsert_key_value
  IsMerged-upsert_key_value kvs kv m = elim (key-cases kv) [
    | inl none_at ↦ rw none_at.0 m
    | inr some_at ↦
        rw some_at.0
          (IsDistinctBy-replace_or_push kv kvs m.0, HasKey-replace_or_push kv kvs some_at.1 m.1)
  ]

  find-upsert_key_value :
      (key : Text) (kvs : List (KeyValue F)) (kv : KeyValue F)
      → key ≢ []
      → find key (upsert_key_value kvs kv)
        ≡ (if eq_text (key_of kv) key then some kv else find key kvs)
  unfolding upsert_key_value
  find-upsert_key_value key kvs kv named = elim (key-cases kv) [
    | inl none_at ↦
        let other = eq_text-false (key_of kv) key (λ same. named (sym same ∙ none_at.1)) in
        rw (none_at.0, other) refl
    | inr some_at ↦ rw some_at.0 (find-replace_or_push key kv kvs)
  ]

  upsert_all_lem :
      (kvs new : List (KeyValue F))
      → IsMerged kvs
      → IsMerged (upsert_all kvs new)
        × ((key : Text) → key ≢ [] → find key (upsert_all kvs new) ≡ latest key new (find key kvs))
  unfolding upsert_all
  upsert_all_lem kvs [] m = (m, λ key named. refl)
  upsert_all_lem kvs (kv ∷ more) m =
      let (merged, found) =
        upsert_all_lem (upsert_key_value kvs kv) more (IsMerged-upsert_key_value kvs kv m) in
      (
        merged,
        λ key named.
            found key named ∙ ap (latest key more) (find-upsert_key_value key kvs kv named),
      )

  latest-append :
      (key : Text) (xs ys : List (KeyValue F)) (before : Option (KeyValue F))
      → latest key ys (latest key xs before) ≡ latest key (xs ++ ys) before
  latest-append key [] ys before = refl
  latest-append key (x ∷ xs) ys before =
      latest-append key xs ys (if eq_text (key_of x) key then some x else before)

  -- The attributes of a resource have keys that are not empty and all different, and under each key
  -- stands the last of the free attributes and the fields that are set, in this order.
  pub into_attributes_lem :
      (r : Resource F)
      → IsMerged (into_attributes r)
        × ((key : Text)
            → key ≢ []
            → find key (into_attributes r) ≡ latest key (r.attributes ++ pushed (fields r)) none)
  unfolding into_attributes
  into_attributes_lem r =
      let (merged, found) = upsert_all_lem [] r.attributes (tt, tt) in
      let (merged', found') =
        upsert_all_lem (upsert_all [] r.attributes) (pushed (fields r)) merged in
      (
        merged',
        λ key named.
            found' key named
            ∙ ap (latest key (pushed (fields r))) (found key named)
            ∙ latest-append key r.attributes (pushed (fields r)) none,
      )
