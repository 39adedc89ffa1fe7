-- ===== src/Prometheus/Names.antt =====
-- Names come out in the alphabet of the format (src/prometheus/dto.rs).
use ohnotel.Base.{
  Text, ℕ, ◌≡◌, ◌≢◌, refl, Bool, true, false, [], ◌∷◌, ◌++◌, map, ok, ok-injective, if◌then◌else◌,
  All, Bool-cases, inl, inr, arith, ◌&&◌, not, sym,
}
use ohnotel.Observe.{Kind}
use ohnotel.Prometheus.{
  underscore, is_label_char, is_metric_char, first_is_digit, clean, clean_all, sanitize_metric_name,
  starts_with_reserved, sanitize_label_name, total, eq_text, ends_with, is_counter, family_name,
}

module _ (allowed : ℕ → Bool) (underscores : allowed underscore ≡ true) where
  clean_allowed : (c : ℕ) → allowed (clean allowed c) ≡ true
  clean_allowed c = elim (Bool-cases (allowed c)) [ inl e ↦ rw e e | inr e ↦ rw e underscores ]

  map_allowed : (cs : Text) → All (λ c. allowed c ≡ true) (map (clean allowed) cs)
  map_allowed [] = tt
  map_allowed (c ∷ cs) = (clean_allowed c, map_allowed cs)

  clean_all_allowed : (name : Text) → All (λ c. allowed c ≡ true) (clean_all allowed name)
  unfolding clean_all
  clean_all_allowed name = elim (Bool-cases (first_is_digit name)) [
    | inl e ↦ rw e (underscores, map_allowed name)
    | inr e ↦ rw e (map_allowed name)
  ]

  first-map :
      (name : Text)
      → first_is_digit name ≡ false
      → first_is_digit (map (clean allowed) name) ≡ false
  first-map [] h = refl
  first-map (c ∷ cs) h = elim (Bool-cases (allowed c)) [ inl e ↦ rw e h | inr e ↦ rw e refl ]

  clean_all_first : (name : Text) → first_is_digit (clean_all allowed name) ≡ false
  unfolding clean_all
  clean_all_first name = elim (Bool-cases (first_is_digit name)) [
    | inl e ↦ rw e refl
    | inr e ↦ rw e (first-map name e)
  ]

  map-clean_same : (cs : Text) → All (λ c. allowed c ≡ true) cs → map (clean allowed) cs ≡ cs
  map-clean_same [] h = refl
  map-clean_same (c ∷ cs) (here, rest) = rw (here, map-clean_same cs rest) refl

  clean_all_same :
      (cs : Text)
      → All (λ c. allowed c ≡ true) cs
      → first_is_digit cs ≡ false
      → clean_all allowed cs ≡ cs
  unfolding clean_all
  clean_all_same cs good first = rw first (map-clean_same cs good)

-- A sanitised metric name holds only characters of the alphabet of metric names and does not start
-- with a digit, and sanitising it again changes nothing.
pub sanitize_metric_name_lem :
    (name : Text)
    → All (λ c. is_metric_char c ≡ true) (sanitize_metric_name name)
      × (first_is_digit (sanitize_metric_name name) ≡ false)
      × (sanitize_metric_name (sanitize_metric_name name) ≡ sanitize_metric_name name)
unfolding sanitize_metric_name
sanitize_metric_name_lem name =
    let good = clean_all_allowed is_metric_char refl name in
    let first = clean_all_first is_metric_char refl name in
    (good, first, clean_all_same is_metric_char refl (clean_all is_metric_char name) good first)

-- A sanitised label name holds only characters of the alphabet of label names, does not start with
-- a digit, and does not start with the reserved two underscores.
pub sanitize_label_name_lem :
    (name : Text)
    → All (λ c. is_label_char c ≡ true) (sanitize_label_name name)
      × (first_is_digit (sanitize_label_name name) ≡ false)
      × (starts_with_reserved (sanitize_label_name name) ≡ false)
unfolding sanitize_label_name
sanitize_label_name_lem name =
    let out = clean_all is_label_char name in
    let good = clean_all_allowed is_label_char refl name in
    elim (Bool-cases (starts_with_reserved out)) [
      | inl e ↦ rw e ((refl, (refl, (refl, (refl, (refl, good))))), refl, refl)
      | inr e ↦ rw e (good, clean_all_first is_label_char refl name, e)
    ]

eq_text_refl : (cs : Text) → eq_text cs cs ≡ true
eq_text_refl [] = refl
eq_text_refl (c ∷ cs) = ground (arith, eq_text_refl cs)

ends_with_whole : (suffix : Text) → ends_with suffix suffix ≡ true
ends_with_whole [] = refl
ends_with_whole (c ∷ cs) = rw (eq_text_refl (c ∷ cs)) refl

ends_with-append : (cs suffix : Text) → ends_with suffix (cs ++ suffix) ≡ true
ends_with-append [] suffix = ends_with_whole suffix
ends_with-append (c ∷ cs) suffix = ground (arith, ends_with-append cs suffix)

suffixed :
    (b : Bool) (name : Text)
    → b ≡ true
    → ends_with total (if b && not (ends_with total name) then name ++ total else name) ≡ true
suffixed b name counts = elim (Bool-cases (ends_with total name)) [
  | inl e ↦ rw (counts, e) e
  | inr e ↦ rw (counts, e) (ends_with-append name total)
]

-- The name of a family: none for an empty name; of a counter it ends in `_total`; of any other kind
-- it is the sanitised name.
pub family_name_lem :
    (kind : Kind) (name out : Text)
    → family_name kind name ≡ ok out
    → (name ≢ [])
      × (is_counter kind ≡ true → ends_with total out ≡ true)
      × (is_counter kind ≡ false → out ≡ sanitize_metric_name name)
unfolding family_name
family_name_lem kind [] out h = ground arith
family_name_lem kind (c ∷ cs) out h =
    let same = sym (ok-injective h) in
    rw same (
      λ empty. ground arith,
      λ counts. suffixed (is_counter kind) (sanitize_metric_name (c ∷ cs)) counts,
      λ other. rw other refl,
    )

-- Any other name gives a family name.
pub family_name_total :
    (kind : Kind) (name : Text) → name ≢ [] → (out : Text) × (family_name kind name ≡ ok out)
unfolding family_name
family_name_total kind [] h = absurd (h refl)
family_name_total kind (c ∷ cs) h = (_, refl)
