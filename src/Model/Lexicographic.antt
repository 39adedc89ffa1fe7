-- ===== src/Model/Lexicographic.antt =====
-- Orders made of orders, as `#[derive(Ord)]` and the slices of the language compare: field by
-- field, and item by item with a prefix before what it starts.
use ohnotel.Base.{ℕ, compare, ◌≡◌, refl, Ordering, List, [], ◌∷◌, arith}
use ohnotel.Model.Order.{Ord}

abbrev pub then_with : Ordering → Ordering → Ordering
then_with Ordering.eq next = next
then_with first next = first

pub compare_refl : (a : ℕ) → compare a a ≡ Ordering.eq
compare_refl a = ground arith

pub eq_of_compare : (a b : ℕ) → compare a b ≡ Ordering.eq → a ≡ b
eq_of_compare a b h = ground arith

pub compare_lt_symm : (a b : ℕ) → compare a b ≡ Ordering.lt → compare b a ≡ Ordering.gt
compare_lt_symm a b h = ground arith

pub compare_gt_symm : (a b : ℕ) → compare a b ≡ Ordering.gt → compare b a ≡ Ordering.lt
compare_gt_symm a b h = ground arith

pub compare_lt_trans :
    (a b c : ℕ) → compare a b ≡ Ordering.lt → compare b c ≡ Ordering.lt → compare a c ≡ Ordering.lt
compare_lt_trans a b c h k = ground arith

instance abbrev pub number_order : Ord ℕ
number_order = record {
  cmp = compare;
  cmp_refl = compare_refl;
  eq_of_cmp = eq_of_compare;
  cmp_lt_symm = compare_lt_symm;
  cmp_gt_symm = compare_gt_symm;
  cmp_lt_trans = compare_lt_trans;
}

pub then_with_assoc : (a b c : Ordering) → then_with (then_with a b) c ≡ then_with a (then_with b c)
then_with_assoc Ordering.lt b c = refl
then_with_assoc Ordering.eq b c = refl
then_with_assoc Ordering.gt b c = refl

pub then_with_eq : (a : Ordering) → then_with a Ordering.eq ≡ a
then_with_eq Ordering.lt = refl
then_with_eq Ordering.eq = refl
then_with_eq Ordering.gt = refl

module _ {ℓ} {K : Type ℓ} ⦃o : Ord K⦄ where
  -- `cmp` of two slices.
  unfoldable pub cmp_list : List K → List K → Ordering
  cmp_list [] [] = Ordering.eq
  cmp_list [] (y ∷ ys) = Ordering.lt
  cmp_list (x ∷ xs) [] = Ordering.gt
  cmp_list (x ∷ xs) (y ∷ ys) = then_with (o.cmp x y) (cmp_list xs ys)

  pub cmp_list_refl : (xs : List K) → cmp_list xs xs ≡ Ordering.eq
  unfolding cmp_list
  cmp_list_refl [] = refl
  cmp_list_refl (x ∷ xs) = rw (o.cmp_refl x) (cmp_list_refl xs)

  pub eq_of_cmp_list : (xs ys : List K) → cmp_list xs ys ≡ Ordering.eq → xs ≡ ys
  unfolding cmp_list
  eq_of_cmp_list [] [] h = refl
  eq_of_cmp_list [] (y ∷ ys) h = cc
  eq_of_cmp_list (x ∷ xs) [] h = cc
  eq_of_cmp_list (x ∷ xs) (y ∷ ys) h = ground (arith, o.eq_of_cmp x y, eq_of_cmp_list xs ys)

  pub cmp_list_lt_symm :
      (xs ys : List K) → cmp_list xs ys ≡ Ordering.lt → cmp_list ys xs ≡ Ordering.gt
  unfolding cmp_list
  cmp_list_lt_symm [] [] h = cc
  cmp_list_lt_symm [] (y ∷ ys) h = refl
  cmp_list_lt_symm (x ∷ xs) [] h = cc
  cmp_list_lt_symm (x ∷ xs) (y ∷ ys) h =
      ground (arith, o.eq_of_cmp x y, o.cmp_refl x, o.cmp_lt_symm x y, cmp_list_lt_symm xs ys)

  pub cmp_list_gt_symm :
      (xs ys : List K) → cmp_list xs ys ≡ Ordering.gt → cmp_list ys xs ≡ Ordering.lt
  unfolding cmp_list
  cmp_list_gt_symm [] [] h = cc
  cmp_list_gt_symm [] (y ∷ ys) h = cc
  cmp_list_gt_symm (x ∷ xs) [] h = refl
  cmp_list_gt_symm (x ∷ xs) (y ∷ ys) h =
      ground (arith, o.eq_of_cmp x y, o.cmp_refl x, o.cmp_gt_symm x y, cmp_list_gt_symm xs ys)

  pub cmp_list_lt_trans :
      (xs ys zs : List K)
      → cmp_list xs ys ≡ Ordering.lt
      → cmp_list ys zs ≡ Ordering.lt
      → cmp_list xs zs ≡ Ordering.lt
  unfolding cmp_list
  cmp_list_lt_trans [] ys [] h k = ground arith
  cmp_list_lt_trans [] ys (z ∷ zs) h k = refl
  cmp_list_lt_trans (x ∷ xs) [] zs h k = cc
  cmp_list_lt_trans (x ∷ xs) (y ∷ ys) [] h k = cc
  cmp_list_lt_trans (x ∷ xs) (y ∷ ys) (z ∷ zs) h k =
      ground
        (arith, o.eq_of_cmp x y, o.eq_of_cmp y z, o.cmp_lt_trans x y z, cmp_list_lt_trans xs ys zs)

  instance abbrev pub list_order : Ord (List K)
  list_order = record {
    cmp = cmp_list;
    cmp_refl = cmp_list_refl;
    eq_of_cmp = eq_of_cmp_list;
    cmp_lt_symm = cmp_list_lt_symm;
    cmp_gt_symm = cmp_list_gt_symm;
    cmp_lt_trans = cmp_list_lt_trans;
  }

module _ {ℓ κ} {A : Type ℓ} {B : Type κ} ⦃a : Ord A⦄ ⦃b : Ord B⦄ where
  abbrev pub cmp_pair : A × B → A × B → Ordering
  cmp_pair x y = then_with (a.cmp x.0 y.0) (b.cmp x.1 y.1)

  pub cmp_pair_refl : (x : A × B) → cmp_pair x x ≡ Ordering.eq
  cmp_pair_refl x = simp (a.cmp_refl, b.cmp_refl)

  pub eq_of_cmp_pair : (x y : A × B) → cmp_pair x y ≡ Ordering.eq → x ≡ y
  eq_of_cmp_pair x y h = ground (arith, a.eq_of_cmp x.0 y.0, b.eq_of_cmp x.1 y.1)

  pub cmp_pair_lt_symm : (x y : A × B) → cmp_pair x y ≡ Ordering.lt → cmp_pair y x ≡ Ordering.gt
  cmp_pair_lt_symm x y h =
      ground
        (arith, a.eq_of_cmp x.0 y.0, a.cmp_refl x.0, a.cmp_lt_symm x.0 y.0, b.cmp_lt_symm x.1 y.1)

  pub cmp_pair_gt_symm : (x y : A × B) → cmp_pair x y ≡ Ordering.gt → cmp_pair y x ≡ Ordering.lt
  cmp_pair_gt_symm x y h =
      ground
        (arith, a.eq_of_cmp x.0 y.0, a.cmp_refl x.0, a.cmp_gt_symm x.0 y.0, b.cmp_gt_symm x.1 y.1)

  pub cmp_pair_lt_trans :
      (x y z : A × B)
      → cmp_pair x y ≡ Ordering.lt
      → cmp_pair y z ≡ Ordering.lt
      → cmp_pair x z ≡ Ordering.lt
  cmp_pair_lt_trans x y z h k = ground (
    arith,
    a.eq_of_cmp x.0 y.0,
    a.eq_of_cmp y.0 z.0,
    a.cmp_lt_trans x.0 y.0 z.0,
    b.cmp_lt_trans x.1 y.1 z.1,
  )

  instance abbrev pub pair_order : Ord (A × B)
  pair_order = record {
    cmp = cmp_pair;
    cmp_refl = cmp_pair_refl;
    eq_of_cmp = eq_of_cmp_pair;
    cmp_lt_symm = cmp_pair_lt_symm;
    cmp_gt_symm = cmp_pair_gt_symm;
    cmp_lt_trans = cmp_pair_lt_trans;
  }
