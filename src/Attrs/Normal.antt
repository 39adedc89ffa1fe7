-- ===== src/Attrs/Normal.antt =====
-- `normalize` gives each set of attributes one list, and leaves such a list alone.
use ohnotel.Base.{◌≡◌, refl, sym, ap, ◌∙◌, ◌↔◌, ◌≢◌, false, List, [], ◌∷◌, length, Ordering, arith}
use ohnotel.Model.Order.{Ord}
use ohnotel.Attrs.{insert, sort, dedup_from, dedup, normalize, StrictFrom, IsCanonical, has}
use ohnotel.Attrs.Sort.{same_refl, eq_of_same, sort-sorted, has-sort, length-sort}
use ohnotel.Attrs.Dedup.{dedup-IsCanonical, dedup_unchanged, has-dedup}

module _ {ℓ} {K : Type ℓ} ⦃o : Ord K⦄ where
  pub normalize-IsCanonical : (xs : List K) → IsCanonical (normalize xs)
  unfolding normalize
  normalize-IsCanonical xs = dedup-IsCanonical (sort xs) (sort-sorted xs)

  sort_from-eq : (p : K) (xs : List K) → StrictFrom p xs → (sort xs ≡ xs) × (insert p xs ≡ p ∷ xs)
  unfolding sort insert
  sort_from-eq p [] h = (refl, refl)
  sort_from-eq p (x ∷ xs) h =
      let (rest, front) = sort_from-eq x xs h.1 in (ap (insert x) rest ∙ front, ground arith)

  dedup_from-eq : (p : K) (xs : List K) → StrictFrom p xs → dedup_from p xs ≡ xs
  unfolding dedup_from
  dedup_from-eq p [] h = refl
  dedup_from-eq p (x ∷ xs) h = ground (arith, dedup_from-eq x xs)

  pub normalize-canonical : (xs : List K) → IsCanonical xs → normalize xs ≡ xs
  unfolding normalize dedup sort
  normalize-canonical [] h = refl
  normalize-canonical (x ∷ xs) h =
      let (rest, front) = sort_from-eq x xs h in
      ap dedup (ap (insert x) rest ∙ front) ∙ ap (λ ys. x ∷ ys) (dedup_from-eq x xs h)

  pub normalize-normalize : (xs : List K) → normalize (normalize xs) ≡ normalize xs
  normalize-normalize xs = normalize-canonical (normalize xs) (normalize-IsCanonical xs)

  pub has-normalize : (k : K) (xs : List K) → has k (normalize xs) ≡ has k xs
  unfolding normalize
  has-normalize k xs = has-dedup k (sort xs) ∙ has-sort k xs

  -- An item below the first is not in a strict list.
  not_has_below :
      (k x : K) (xs : List K) → o.cmp k x ≡ Ordering.lt → StrictFrom x xs → has k (x ∷ xs) ≡ false
  unfolding has
  not_has_below k x [] h s = ground arith
  not_has_below k x (y ∷ ys) h s = ground (arith, not_has_below k y ys, o.cmp_lt_trans k x y)

  not_has_head : (x : K) (xs : List K) → StrictFrom x xs → has x xs ≡ false
  unfolding has
  not_has_head x [] s = refl
  not_has_head x (y ∷ ys) s = not_has_below x y ys s.0 s.1

  IsCanonical-tail : (x : K) (xs : List K) → StrictFrom x xs → IsCanonical xs
  IsCanonical-tail x [] s = tt
  IsCanonical-tail x (y ∷ ys) s = s.1

  head_of_same_items :
      (x y : K) (xs ys : List K)
      → StrictFrom x xs
      → StrictFrom y ys
      → ((k : K) → has k (x ∷ xs) ≡ has k (y ∷ ys))
      → x ≡ y
  unfolding has
  head_of_same_items x y xs ys s t h = ground (
    arith,
    h x,
    h y,
    same_refl x,
    same_refl y,
    eq_of_same x y,
    not_has_below x y ys,
    not_has_below y x xs,
    o.cmp_gt_symm x y,
  )

  tail_items :
      (x y : K) (xs ys : List K)
      → StrictFrom x xs
      → StrictFrom y ys
      → x ≡ y
      → ((k : K) → has k (x ∷ xs) ≡ has k (y ∷ ys))
      → (k : K) → has k xs ≡ has k ys
  unfolding has
  tail_items x y xs ys s t e h k =
      ground (arith, h k, eq_of_same k x, eq_of_same k y, not_has_head x xs s, not_has_head y ys t)

  canonical_unique :
      (xs ys : List K) → IsCanonical xs → IsCanonical ys → ((k : K) → has k xs ≡ has k ys) → xs ≡ ys
  unfolding has
  canonical_unique [] [] s t h = refl
  canonical_unique [] (y ∷ ys) s t h = ground (arith, h y, same_refl y)
  canonical_unique (x ∷ xs) [] s t h = ground (arith, h x, same_refl x)
  canonical_unique (x ∷ xs) (y ∷ ys) s t h =
      let e : x ≡ y = head_of_same_items x y xs ys s t h in
      let rest : xs ≡ ys =
        canonical_unique xs ys (IsCanonical-tail x xs s) (IsCanonical-tail y ys t)
          (tail_items x y xs ys s t e h) in
      cc

  -- Two lists have one normal form exactly when they hold the same attributes, in whatever order
  -- and however often.
  pub normalize_iff_same_items :
      (xs ys : List K) → (normalize xs ≡ normalize ys) ↔ ((k : K) → has k xs ≡ has k ys)
  normalize_iff_same_items xs ys = (
    λ e k. sym (has-normalize k xs) ∙ ap (has k) e ∙ has-normalize k ys,
    λ h.
        canonical_unique (normalize xs) (normalize ys) (normalize-IsCanonical xs)
          (normalize-IsCanonical ys) (λ k. has-normalize k xs ∙ h k ∙ sym (has-normalize k ys)),
  )

  -- If normalising keeps the length, then it only sorts.
  pub normalize_only_sorts :
      (xs : List K) → length (normalize xs) ≡ length xs → normalize xs ≡ sort xs
  unfolding normalize
  normalize_only_sorts xs h = dedup_unchanged (sort xs) (h ∙ sym (length-sort xs))

  pub normalize-ne-nil : (x : K) (xs : List K) → normalize (x ∷ xs) ≢ []
  unfolding has
  normalize-ne-nil x xs e =
      let found : has x [] ≡ has x (x ∷ xs) = rw e at (has-normalize x (x ∷ xs)) in
      ground (arith, found, same_refl x)
