-- ===== src/Prometheus/Labels/Repeats.antt =====
-- The search for equal neighbours in src/prometheus/dto.rs, after sorting.
use ohnotel.Base.{
  Text, true, false, List, [], ◌∷◌, none, some, ◌≡◌, ◌≢◌, ◌↔◌, refl, sym, ◌∙◌, Bool-cases, inl, inr,
  arith,
}
use ohnotel.Model.Lexicographic.{number_order, list_order, cmp_list_refl, eq_of_cmp_list}
use ohnotel.Model.Sorting.{
  sort_by, sort_by-IsSortedBy, SortedFrom, IsSortedBy, IncreasingFrom, IsIncreasingBy,
}
use ohnotel.Model.Sorting.Distinct.{
  IsDistinctBy, IsDistinctBy-sort_by, IsIncreasingBy-of_distinct, distinct_of_increasing,
}
use ohnotel.Prometheus.{eq_text}
use ohnotel.Prometheus.Labels.{repeated}

pub eq_text_iff : (s t : Text) → (eq_text s t ≡ true) ↔ (s ≡ t)
eq_text_iff [] [] = (λ h. refl, λ e. refl)
eq_text_iff [] (d ∷ ds) = (λ h. cc, λ e. cc)
eq_text_iff (c ∷ cs) [] = (λ h. cc, λ e. cc)
eq_text_iff (c ∷ cs) (d ∷ ds) =
    let (there, back) = eq_text_iff cs ds in
    (λ h. ground (arith, there (ground arith)), λ e. ground (arith, back (ground arith)))

pub eq_text-false : (s t : Text) → s ≢ t → eq_text s t ≡ false
eq_text-false s t h = elim (Bool-cases (eq_text s t)) [
  | inl e ↦ absurd (h ((eq_text_iff s t).0 e))
  | inr e ↦ e
]

pub eq_text_self : (s : Text) → eq_text s s ≡ true
eq_text_self s = (eq_text_iff s s).1 refl

module _ {ℓ} {A : Type ℓ} (key : A → Text) where
  increasing_of_not_repeated :
      (x : A) (xs : List A)
      → SortedFrom key (key x) xs
      → repeated key (x ∷ xs) ≡ none
      → IncreasingFrom key (key x) xs
  unfolding repeated
  increasing_of_not_repeated x [] s h = tt
  increasing_of_not_repeated x (y ∷ ys) s h = elim (Bool-cases (eq_text (key x) (key y))) [
    | inl e ↦
        let found : repeated key (x ∷ y ∷ ys) ≡ some y = rw e refl in
        absurd (ground (arith, sym found ∙ h))
    | inr e ↦
        let next : repeated key (y ∷ ys) ≡ none = rw e at h in
        (
          ground (arith, s.0, eq_of_cmp_list (key x) (key y), (eq_text_iff (key x) (key y)).1),
          increasing_of_not_repeated y ys s.1 next,
        )
  ]

  not_repeated_of_increasing :
      (x : A) (xs : List A) → IncreasingFrom key (key x) xs → repeated key (x ∷ xs) ≡ none
  unfolding repeated
  not_repeated_of_increasing x [] s = refl
  not_repeated_of_increasing x (y ∷ ys) s = elim (Bool-cases (eq_text (key x) (key y))) [
    | inl e ↦
        let same = (eq_text_iff (key x) (key y)).0 e in
        absurd (ground (arith, s.0, same, cmp_list_refl (key y)))
    | inr e ↦ rw e (not_repeated_of_increasing y ys s.1)
  ]

  -- In a sorted list nothing repeats exactly when the keys increase.
  pub repeated_iff :
      (xs : List A) → IsSortedBy key xs → (repeated key xs ≡ none) ↔ IsIncreasingBy key xs
  unfolding repeated
  repeated_iff [] s = (λ h. tt, λ h. refl)
  repeated_iff (x ∷ xs) s = (increasing_of_not_repeated x xs s, not_repeated_of_increasing x xs)

  pub repeated-sort_by_iff :
      (xs : List A) → (repeated key (sort_by key xs) ≡ none) ↔ IsDistinctBy key xs
  repeated-sort_by_iff xs =
      let sorted = sort_by-IsSortedBy key xs in
      let (there, back) = repeated_iff (sort_by key xs) sorted in
      let (out, into) = IsDistinctBy-sort_by key xs in
      (
        λ h. out (distinct_of_increasing key (sort_by key xs) (there h)),
        λ d. back (IsIncreasingBy-of_distinct key (sort_by key xs) sorted (into d)),
      )
