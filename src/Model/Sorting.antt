-- ===== src/Model/Sorting.antt =====
-- Sorting by a key, as `sort_by` and `sort_unstable_by` of the language do where they are called.
pub mod Distinct
pub mod Unique
use mathlib.Core.List.{Perm}
use mathlib.Core.List.Perm
use ohnotel.Base.{
  ◌≡◌, refl, Bool, true, false, Bool-cases, inl, inr, Ordering, List, [], ◌∷◌, if◌then◌else◌, arith,
  All, ◌≢◌, sym, ap, ◌∙◌,
}
use ohnotel.Model.Order.{Ord, is_le, is_eq}

module _ {ℓ κ} {A : Type ℓ} {K : Type κ} ⦃o : Ord K⦄ (key : A → K) where
  unfoldable pub insert_by : A → List A → List A
  insert_by x [] = x ∷ []
  insert_by x (y ∷ ys) = if is_le (o.cmp (key x) (key y)) then x ∷ y ∷ ys else y ∷ insert_by x ys

  -- Of items with one key the first stays first.
  unfoldable pub sort_by : List A → List A
  unfolding insert_by
  sort_by [] = []
  sort_by (x ∷ xs) = insert_by x (sort_by xs)

  abbrev pub SortedFrom : K → List A → Type 0
  SortedFrom k [] = Unit
  SortedFrom k (x ∷ xs) = (is_le (o.cmp k (key x)) ≡ true) × SortedFrom (key x) xs

  abbrev pub IsSortedBy : List A → Type 0
  IsSortedBy [] = Unit
  IsSortedBy (x ∷ xs) = SortedFrom (key x) xs

  -- Every key before the next one.
  abbrev pub IncreasingFrom : K → List A → Type 0
  IncreasingFrom k [] = Unit
  IncreasingFrom k (x ∷ xs) = (o.cmp k (key x) ≡ Ordering.lt) × IncreasingFrom (key x) xs

  abbrev pub IsIncreasingBy : List A → Type 0
  IsIncreasingBy [] = Unit
  IsIncreasingBy (x ∷ xs) = IncreasingFrom (key x) xs

  insert_by-perm : (x : A) (xs : List A) → Perm (insert_by x xs) (x ∷ xs)
  unfolding insert_by
  insert_by-perm x [] = Perm.refl _
  insert_by-perm x (y ∷ ys) = elim (Bool-cases (is_le (o.cmp (key x) (key y)))) [
    | inl e ↦ rw e (Perm.refl _)
    | inr e ↦ rw e (Perm.trans (Perm.cons y (insert_by-perm x ys)) (Perm.swap x y ys))
  ]

  pub sort_by-perm : (xs : List A) → Perm (sort_by xs) xs
  unfolding sort_by
  sort_by-perm [] = Perm.refl _
  sort_by-perm (x ∷ xs) = Perm.trans (insert_by-perm x (sort_by xs)) (Perm.cons x (sort_by-perm xs))

  le_flip : (a b : K) → is_le (o.cmp a b) ≡ false → is_le (o.cmp b a) ≡ true
  le_flip a b h = ground (arith, o.cmp_gt_symm a b)

  insert_by-SortedFrom :
      (k : K) (x : A) (xs : List A)
      → is_le (o.cmp k (key x)) ≡ true
      → SortedFrom k xs
      → SortedFrom k (insert_by x xs)
  unfolding insert_by
  insert_by-SortedFrom k x [] h s = (h, tt)
  insert_by-SortedFrom k x (y ∷ ys) h s = elim (Bool-cases (is_le (o.cmp (key x) (key y)))) [
    | inl e ↦ rw e (h, (e, s.1))
    | inr e ↦ rw e (s.0, insert_by-SortedFrom (key y) x ys (le_flip _ _ e) s.1)
  ]

  insert_by-IsSortedBy : (x : A) (xs : List A) → IsSortedBy xs → IsSortedBy (insert_by x xs)
  unfolding insert_by
  insert_by-IsSortedBy x [] s = tt
  insert_by-IsSortedBy x (y ∷ ys) s = elim (Bool-cases (is_le (o.cmp (key x) (key y)))) [
    | inl e ↦ rw e (e, s)
    | inr e ↦ rw e (insert_by-SortedFrom (key y) x ys (le_flip _ _ e) s)
  ]

  pub sort_by-IsSortedBy : (xs : List A) → IsSortedBy (sort_by xs)
  unfolding sort_by
  sort_by-IsSortedBy [] = tt
  sort_by-IsSortedBy (x ∷ xs) = insert_by-IsSortedBy x (sort_by xs) (sort_by-IsSortedBy xs)
