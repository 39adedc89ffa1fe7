-- ===== src/Model/Sorting/Unique.antt =====
-- Sorting items with different keys gives the same list from whatever order they come in.
use mathlib.Core.List.{Permᴰ}
use mathlib.Core.Path.{subst}
use ohnotel.Base.{
  ◌≡◌, ◌≢◌, refl, sym, ap, ◌∙◌, ◌⊎◌, Bool, true, false, Bool-cases, inl, inr, Ordering, List, [],
  ◌∷◌, arith, All,
}
use ohnotel.Model.Order.{Ord, is_le}
use ohnotel.Model.Sorting.{insert_by, sort_by}
use ohnotel.Model.Sorting.Distinct.{IsDistinctBy}

pub All-perm {ℓ μ} :
    {A : Type ℓ} (P : A → Type μ) {xs ys : List A} → Permᴰ xs ys → All P xs → All P ys
All-perm P Permᴰ.nil h = tt
All-perm P (Permᴰ.cons e q) h = (subst P e h.0, All-perm P q h.1)
All-perm P (Permᴰ.swap {l = l} e f) h = (subst P f h.1.0, (subst P e h.0, h.1.1))
All-perm P (Permᴰ.trans q r) h = All-perm P r (All-perm P q h)

cmp-cases : (c : Ordering) → (c ≡ Ordering.lt) ⊎ ((c ≡ Ordering.eq) ⊎ (c ≡ Ordering.gt))
cmp-cases Ordering.lt = inl refl
cmp-cases Ordering.eq = inr (inl refl)
cmp-cases Ordering.gt = inr (inr refl)

module _ {ℓ κ} {A : Type ℓ} {K : Type κ} ⦃o : Ord K⦄ (key : A → K) where
  abbrev le : A → A → Bool
  le x y = is_le (o.cmp (key x) (key y))

  le-lt : (x y : A) → key x ≢ key y → le x y ≡ true → o.cmp (key x) (key y) ≡ Ordering.lt
  le-lt x y apart h = ground (arith, o.eq_of_cmp (key x) (key y))

  -- Of different keys one is before the other.
  le-cases :
      (x y : A)
      → key x ≢ key y
      → ((le x y ≡ true) × (le y x ≡ false)) ⊎ ((le x y ≡ false) × (le y x ≡ true))
  le-cases x y apart = elim (Bool-cases (le x y)) [
    | inl e ↦ inl (e, ground (arith, o.cmp_lt_symm (key x) (key y) (le-lt x y apart e)))
    | inr e ↦ inr (e, ground (arith, o.cmp_gt_symm (key x) (key y)))
  ]

  le-ways : (x y : A) → le x y ≡ true → (o.cmp (key x) (key y) ≡ Ordering.lt) ⊎ (key x ≡ key y)
  le-ways x y h = elim (cmp-cases (o.cmp (key x) (key y))) [
    | inl e ↦ inl e
    | inr (inl e) ↦ inr (o.eq_of_cmp (key x) (key y) e)
    | inr (inr e) ↦ absurd (ground (arith, (rw e at h)))
  ]

  le_trans : (x y z : A) → le x y ≡ true → le y z ≡ true → le x z ≡ true
  le_trans x y z h k = elim (le-ways x y h) [
    | inl lt ↦ elim (le-ways y z k) [
      | inl lt' ↦ ground (arith, o.cmp_lt_trans (key x) (key y) (key z) lt lt')
      | inr same ↦ rw (sym same) h
    ]
    | inr same ↦ rw same k
  ]

  not_le : (x y z : A) → le x z ≡ true → le y z ≡ false → le y x ≡ false
  not_le x y z h k = elim (Bool-cases (le y x)) [
    | inl e ↦ absurd (ground (arith, sym k ∙ le_trans y x z e h))
    | inr e ↦ e
  ]

  insert_by_comm :
      (x y : A) (zs : List A)
      → key x ≢ key y
      → insert_by key x (insert_by key y zs) ≡ insert_by key y (insert_by key x zs)
  unfolding insert_by
  insert_by_comm x y [] apart = elim (le-cases x y apart) [
    | inl (e, e') ↦ rw (e, e') refl
    | inr (e, e') ↦ rw (e, e') refl
  ]
  insert_by_comm x y (z ∷ zs) apart = elim (Bool-cases (le x z)) [
    | inl xz ↦ elim (Bool-cases (le y z)) [
      | inl yz ↦ elim (le-cases x y apart) [
        | inl (e, e') ↦ rw (xz, yz, e, e') refl
        | inr (e, e') ↦ rw (xz, yz, e, e') (rw xz refl)
      ]
      | inr yz ↦ rw (xz, yz, not_le x y z xz yz) (rw xz refl)
    ]
    | inr xz ↦ elim (Bool-cases (le y z)) [
      | inl yz ↦ rw (xz, yz, not_le y x z yz xz) (rw xz refl)
      | inr yz ↦ rw (xz, yz, xz) (ap (λ r. z ∷ r) (insert_by_comm x y zs apart))
    ]
  ]

  IsDistinctBy-perm : {xs ys : List A} → Permᴰ xs ys → IsDistinctBy key xs → IsDistinctBy key ys
  IsDistinctBy-perm Permᴰ.nil d = tt
  IsDistinctBy-perm (Permᴰ.cons {a = a} e q) d =
      rw (sym e) (All-perm (λ y. key a ≢ key y) q d.0, IsDistinctBy-perm q d.1)
  IsDistinctBy-perm (Permᴰ.swap {b = b} {b' = b'} {l = l} e f) d =
      subst (λ z. IsDistinctBy key (z ∷ b' ∷ l)) f
        (subst (λ z. IsDistinctBy key (b ∷ z ∷ l)) e
          (((λ k. d.0.0 (sym k)), d.1.0), (d.0.1, d.1.1)))
  IsDistinctBy-perm (Permᴰ.trans q r) d = IsDistinctBy-perm r (IsDistinctBy-perm q d)

  pub sort_by-perm_eq :
      {xs ys : List A} → Permᴰ xs ys → IsDistinctBy key xs → sort_by key xs ≡ sort_by key ys
  unfolding sort_by
  sort_by-perm_eq Permᴰ.nil d = refl
  sort_by-perm_eq (Permᴰ.cons {b = b} e q) d = rw e (ap (insert_by key b) (sort_by-perm_eq q d.1))
  sort_by-perm_eq (Permᴰ.swap {a' = a'} {b' = b'} {l = l} e f) d =
      rw (e, f) (insert_by_comm b' a' (sort_by key l) (λ k. d.0.0 (ap key e ∙ k ∙ sym (ap key f))))
  sort_by-perm_eq (Permᴰ.trans q r) d =
      sort_by-perm_eq q d ∙ sort_by-perm_eq r (IsDistinctBy-perm q d)
