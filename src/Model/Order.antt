-- ===== src/Model/Order.antt =====
-- The total order that `#[derive(Ord)]` gives `KeyValue` (src/model.rs), as the interface that the
-- bucket map and the attribute lists rely on.
use ohnotel.Base.{◌≡◌, Bool, true, false, Ordering}

pub record Ord {ℓ} (K : Type ℓ) : Type ℓ where
  pub cmp : K → K → Ordering
  pub cmp_refl : (a : K) → cmp a a ≡ Ordering.eq
  pub eq_of_cmp : (a b : K) → cmp a b ≡ Ordering.eq → a ≡ b
  pub cmp_lt_symm : (a b : K) → cmp a b ≡ Ordering.lt → cmp b a ≡ Ordering.gt
  pub cmp_gt_symm : (a b : K) → cmp a b ≡ Ordering.gt → cmp b a ≡ Ordering.lt
  pub cmp_lt_trans :
      (a b c : K) → cmp a b ≡ Ordering.lt → cmp b c ≡ Ordering.lt → cmp a c ≡ Ordering.lt

abbrev pub is_eq : Ordering → Bool
is_eq Ordering.eq = true
is_eq _ = false

abbrev pub is_le : Ordering → Bool
is_le Ordering.gt = false
is_le _ = true
