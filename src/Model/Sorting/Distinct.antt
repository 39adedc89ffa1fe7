-- ===== src/Model/Sorting/Distinct.antt =====
-- Items whose keys differ, before and after sorting.
use ohnotel.Base.{
  ◌≡◌, ◌≢◌, ◌↔◌, sym, true, Bool-cases, inl, inr, Ordering, List, [], ◌∷◌, arith, All,
}
use ohnotel.Model.Order.{Ord, is_le}
use ohnotel.Model.Sorting.{
  insert_by, sort_by, SortedFrom, IsSortedBy, IncreasingFrom, IsIncreasingBy,
}

module _ {ℓ κ} {A : Type ℓ} {K : Type κ} (key : A → K) where
  abbrev pub IsDistinctBy : List A → Type (ℓ ⊔ κ)
  IsDistinctBy [] = Unit
  IsDistinctBy (x ∷ xs) = All (λ y. key x ≢ key y) xs × IsDistinctBy xs

module _ {ℓ κ μ} {A : Type ℓ} {K : Type κ} {L : Type μ} (f : A → K) (g : A → L)
    (finer : (a b : A) → g a ≡ g b → f a ≡ f b) where
  away-finer : (x : A) (ys : List A) → All (λ y. f x ≢ f y) ys → All (λ y. g x ≢ g y) ys
  away-finer x [] h = tt
  away-finer x (y ∷ ys) h = ((λ e. h.0 (finer x y e)), away-finer x ys h.1)

  -- Keys that are equal where others are keep apart no more than those.
  pub IsDistinctBy-finer : (xs : List A) → IsDistinctBy f xs → IsDistinctBy g xs
  IsDistinctBy-finer [] d = tt
  IsDistinctBy-finer (x ∷ xs) d = (away-finer x xs d.0, IsDistinctBy-finer xs d.1)

module _ {ℓ κ μ} {A : Type ℓ} {K : Type κ} ⦃o : Ord K⦄ (key : A → K) (P : A → Type μ) where
  All-insert_by : (x : A) (xs : List A) → All P (insert_by key x xs) ↔ (P x × All P xs)
  unfolding insert_by
  All-insert_by x [] = (λ h. h, λ h. h)
  All-insert_by x (y ∷ ys) = elim (Bool-cases (is_le (o.cmp (key x) (key y)))) [
    | inl e ↦ rw e (λ h. h, λ h. h)
    | inr e ↦
        let (there, back) = All-insert_by x ys in
        rw e (
          λ h. let (first, rest) = there h.1 in (first, (h.0, rest)),
          λ h. (h.1.0, back (h.0, h.1.1)),
        )
  ]

  pub All-sort_by : (xs : List A) → All P (sort_by key xs) ↔ All P xs
  unfolding sort_by
  All-sort_by [] = (λ h. h, λ h. h)
  All-sort_by (x ∷ xs) =
      let (there, back) = All-insert_by x (sort_by key xs) in
      let (out, into) = All-sort_by xs in
      (λ h. let (first, rest) = there h in (first, out rest), λ h. back (h.0, into h.1))

module _ {ℓ κ} {A : Type ℓ} {K : Type κ} ⦃o : Ord K⦄ (key : A → K) where
  IsDistinctBy-insert_by :
      (x : A) (xs : List A) → IsDistinctBy key (insert_by key x xs) ↔ IsDistinctBy key (x ∷ xs)
  unfolding insert_by
  IsDistinctBy-insert_by x [] = (λ h. h, λ h. h)
  IsDistinctBy-insert_by x (y ∷ ys) = elim (Bool-cases (is_le (o.cmp (key x) (key y)))) [
    | inl e ↦ rw e (λ h. h, λ h. h)
    | inr e ↦
        let (there, back) = IsDistinctBy-insert_by x ys in
        let (out, into) = All-insert_by key (λ z. key y ≢ key z) x ys in
        rw e (
          λ h.
              let (away, others) = out h.0 in
              let (from_x, rest) = there h.1 in (((λ k. away (sym k)), from_x), (others, rest)),
          λ h. (into ((λ k. h.0.0 (sym k)), h.1.0), back (h.0.1, h.1.1)),
        )
  ]

  pub IsDistinctBy-sort_by : (xs : List A) → IsDistinctBy key (sort_by key xs) ↔ IsDistinctBy key xs
  unfolding sort_by
  IsDistinctBy-sort_by [] = (λ h. h, λ h. h)
  IsDistinctBy-sort_by (x ∷ xs) =
      let (there, back) = IsDistinctBy-insert_by x (sort_by key xs) in
      let (out, into) = IsDistinctBy-sort_by xs in
      let (all_out, all_into) = All-sort_by key (λ z. key x ≢ key z) xs in
      (
        λ h. let (away, rest) = there h in (all_out away, out rest),
        λ h. back (all_into h.0, into h.1),
      )

  lt_of_le : (a b : K) → is_le (o.cmp a b) ≡ true → a ≢ b → o.cmp a b ≡ Ordering.lt
  lt_of_le a b h n = ground (arith, o.eq_of_cmp a b)

  IncreasingFrom-of_distinct :
      (k : K) (xs : List A)
      → SortedFrom key k xs
      → All (λ y. k ≢ key y) xs
      → IsDistinctBy key xs
      → IncreasingFrom key k xs
  IncreasingFrom-of_distinct k [] s a d = tt
  IncreasingFrom-of_distinct k (x ∷ xs) s a d =
      (lt_of_le k (key x) s.0 a.0, IncreasingFrom-of_distinct (key x) xs s.1 d.0 d.1)

  pub IsIncreasingBy-of_distinct :
      (xs : List A) → IsSortedBy key xs → IsDistinctBy key xs → IsIncreasingBy key xs
  IsIncreasingBy-of_distinct [] s d = tt
  IsIncreasingBy-of_distinct (x ∷ xs) s d = IncreasingFrom-of_distinct (key x) xs s d.0 d.1

  ne_of_lt : (a b : K) → o.cmp a b ≡ Ordering.lt → a ≢ b
  ne_of_lt a b h e = ground (arith, o.cmp_refl b)

  away_of_increasing :
      (k : K) (x : A) (xs : List A)
      → o.cmp k (key x) ≡ Ordering.lt
      → IncreasingFrom key (key x) xs
      → All (λ y. k ≢ key y) xs
  away_of_increasing k x [] h s = tt
  away_of_increasing k x (y ∷ ys) h s =
      let further = o.cmp_lt_trans k (key x) (key y) h s.0 in
      (ne_of_lt k (key y) further, away_of_increasing k y ys further s.1)

  distinct_from :
      (k : K) (xs : List A)
      → IncreasingFrom key k xs
      → All (λ y. k ≢ key y) xs × IsDistinctBy key xs
  distinct_from k [] s = (tt, tt)
  distinct_from k (x ∷ xs) s =
      ((ne_of_lt k (key x) s.0, away_of_increasing k x xs s.0 s.1), distinct_from (key x) xs s.1)

  pub distinct_of_increasing : (xs : List A) → IsIncreasingBy key xs → IsDistinctBy key xs
  distinct_of_increasing [] s = tt
  distinct_of_increasing (x ∷ xs) s = distinct_from (key x) xs s
