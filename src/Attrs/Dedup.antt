-- ===== src/Attrs/Dedup.antt =====
-- Facts about `dedup` of a sorted list.
use ohnotel.Base.{◌≤◌, ◌≡◌, refl, true, List, [], ◌∷◌, length, arith, Bool-cases, inl, inr}
use ohnotel.Model.Order.{Ord}
use ohnotel.Attrs.{same, is_sorted, sorted_from, dedup_from, dedup, StrictFrom, IsCanonical, has}
use ohnotel.Attrs.Sort.{eq_of_same}

module _ {ℓ} {K : Type ℓ} ⦃o : Ord K⦄ where
  dedup_from-StrictFrom :
      (p : K) (xs : List K) → sorted_from p xs ≡ true → StrictFrom p (dedup_from p xs)
  unfolding sorted_from dedup_from
  dedup_from-StrictFrom p [] s = tt
  dedup_from-StrictFrom p (x ∷ xs) s = elim (Bool-cases (same p x)) [
    | inl e ↦ rw e (dedup_from-StrictFrom p xs (ground (arith, eq_of_same p x)))
    | inr e ↦ rw e (ground arith, dedup_from-StrictFrom x xs (ground arith))
  ]

  pub dedup-IsCanonical : (xs : List K) → is_sorted xs ≡ true → IsCanonical (dedup xs)
  unfolding is_sorted dedup
  dedup-IsCanonical [] s = tt
  dedup-IsCanonical (x ∷ xs) s = dedup_from-StrictFrom x xs s

  length-dedup_from-le : (p : K) (xs : List K) → length (dedup_from p xs) ≤ length xs
  unfolding dedup_from
  length-dedup_from-le p [] = omega arith
  length-dedup_from-le p (x ∷ xs) =
      ground (arith, length-dedup_from-le p xs, length-dedup_from-le x xs)

  dedup_from_unchanged :
      (p : K) (xs : List K) → length (dedup_from p xs) ≡ length xs → dedup_from p xs ≡ xs
  unfolding dedup_from
  dedup_from_unchanged p [] h = refl
  dedup_from_unchanged p (x ∷ xs) h =
      ground (arith, length-dedup_from-le p xs, dedup_from_unchanged x xs)

  -- If `dedup` drops nothing by count, it drops nothing.
  pub dedup_unchanged : (xs : List K) → length (dedup xs) ≡ length xs → dedup xs ≡ xs
  unfolding dedup
  dedup_unchanged [] h = refl
  dedup_unchanged (x ∷ xs) h = ground (arith, dedup_from_unchanged x xs)

  has-dedup_from : (k p : K) (xs : List K) → has k (p ∷ dedup_from p xs) ≡ has k (p ∷ xs)
  unfolding dedup_from has
  has-dedup_from k p [] = refl
  has-dedup_from k p (x ∷ xs) =
      ground (arith, eq_of_same p x, has-dedup_from k p xs, has-dedup_from k x xs)

  pub has-dedup : (k : K) (xs : List K) → has k (dedup xs) ≡ has k xs
  unfolding dedup
  has-dedup k [] = refl
  has-dedup k (x ∷ xs) = has-dedup_from k x xs
