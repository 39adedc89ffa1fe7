-- ===== src/Attrs/Sort.antt =====
-- Facts about `sort`, and about slice equality.
use ohnotel.Base.{suc, ◌≡◌, refl, true, List, [], ◌∷◌, length, arith, ap, ◌∙◌}
use ohnotel.Model.Order.{Ord, is_le}
use ohnotel.Attrs.{same, eq_attrs, insert, sort, is_sorted, sorted_from, has}

module _ {ℓ} {K : Type ℓ} ⦃o : Ord K⦄ where
  pub same_refl : (a : K) → same a a ≡ true
  same_refl a = rw (o.cmp_refl a)

  pub eq_of_same : (a b : K) → same a b ≡ true → a ≡ b
  eq_of_same a b h = o.eq_of_cmp a b (ground arith)

  pub eq_attrs_refl : (xs : List K) → eq_attrs xs xs ≡ true
  unfolding eq_attrs
  eq_attrs_refl [] = refl
  eq_attrs_refl (x ∷ xs) = ground (arith, same_refl x, eq_attrs_refl xs)

  pub eq_of_eq_attrs : (xs ys : List K) → eq_attrs xs ys ≡ true → xs ≡ ys
  unfolding eq_attrs
  eq_of_eq_attrs [] [] h = refl
  eq_of_eq_attrs [] (y ∷ ys) h = cc
  eq_of_eq_attrs (x ∷ xs) [] h = cc
  eq_of_eq_attrs (x ∷ xs) (y ∷ ys) h = ground (arith, eq_of_same x y, eq_of_eq_attrs xs ys)

  pub length-insert : (x : K) (xs : List K) → length (insert x xs) ≡ suc (length xs)
  unfolding insert
  length-insert x [] = refl
  length-insert x (y ∷ ys) = ground (arith, length-insert x ys)

  pub length-sort : (xs : List K) → length (sort xs) ≡ length xs
  unfolding sort
  length-sort [] = refl
  length-sort (x ∷ xs) = length-insert x (sort xs) ∙ ap suc (length-sort xs)

  sorted_from-insert :
      (p x : K) (xs : List K)
      → is_le (o.cmp p x) ≡ true
      → sorted_from p xs ≡ true
      → sorted_from p (insert x xs) ≡ true
  unfolding sorted_from insert
  sorted_from-insert p x [] h s = ground arith
  sorted_from-insert p x (y ∷ ys) h s = ground (arith, o.cmp_gt_symm x y, sorted_from-insert y x ys)

  sorted-insert : (x : K) (xs : List K) → is_sorted xs ≡ true → is_sorted (insert x xs) ≡ true
  unfolding is_sorted insert
  sorted-insert x [] s = refl
  sorted-insert x (y ∷ ys) s = ground (arith, o.cmp_gt_symm x y, sorted_from-insert y x ys)

  pub sort-sorted : (xs : List K) → is_sorted (sort xs) ≡ true
  unfolding is_sorted sort
  sort-sorted [] = refl
  sort-sorted (x ∷ xs) = sorted-insert x (sort xs) (sort-sorted xs)

  has-insert : (k x : K) (xs : List K) → has k (insert x xs) ≡ has k (x ∷ xs)
  unfolding has insert
  has-insert k x [] = refl
  has-insert k x (y ∷ ys) = ground (arith, has-insert k x ys)

  pub has-sort : (k : K) (xs : List K) → has k (sort xs) ≡ has k xs
  unfolding has sort
  has-sort k [] = refl
  has-sort k (x ∷ xs) = ground (arith, has-insert k x (sort xs), has-sort k xs)
