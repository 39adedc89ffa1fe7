-- ===== src/Atomic/Integers/Laws.antt =====
-- What the integer cells guarantee: wrap-around, extrema, and the reading of an `i64`.
use ohnotel.Base.{
  ℕ, ◌≤◌, ◌<◌, ◌≡◌, ◌⊎◌, inr, ◌==◌, refl, List, [], ◌∷◌, All, arith, if◌then◌else◌, Bool, true,
  false,
}
use ohnotel.Atomic.Integers.{word, Prim, u64, i64, wrapping_add, wrapping_sub, fetch_min, fetch_max}

-- For words: adding and subtracting leave a word, each undoes the other, additions commute, and a
-- subtraction commutes with an addition.
pub wrapping_laws :
    (v w cell : ℕ)
    → v < word
    → w < word
    → cell < word
    → (wrapping_add v cell < word)
      × (wrapping_sub v cell < word)
      × (wrapping_sub v (wrapping_add v cell) ≡ cell)
      × (wrapping_add v (wrapping_sub v cell) ≡ cell)
      × (wrapping_add v (wrapping_add w cell) ≡ wrapping_add w (wrapping_add v cell))
      × (wrapping_sub v (wrapping_add w cell) ≡ wrapping_add w (wrapping_sub v cell))
unfolding wrapping_add wrapping_sub
wrapping_laws v w cell hv hw hc = omega arith

-- One past the greatest number is the least, and one below the least is the greatest.
pub wraps_at_the_ends :
    (wrapping_add 1 (u64.max_value) ≡ u64.min_value)
    × (wrapping_sub 1 (u64.min_value) ≡ u64.max_value)
    × (wrapping_add 1 (i64.max_value) ≡ i64.min_value)
    × (wrapping_sub 1 (i64.min_value) ≡ i64.max_value)
unfolding wrapping_add wrapping_sub
wraps_at_the_ends = (refl, refl, refl, refl)

-- `fetch_min` over values.
pub fetch_mins : Prim → ℕ → List ℕ → ℕ
fetch_mins prim cell [] = cell
fetch_mins prim cell (v ∷ vs) = fetch_mins prim (fetch_min prim v cell) vs

pub fetch_maxs : Prim → ℕ → List ℕ → ℕ
fetch_maxs prim cell [] = cell
fetch_maxs prim cell (v ∷ vs) = fetch_maxs prim (fetch_max prim v cell) vs

pub member : ℕ → List ℕ → Bool
member a [] = false
member a (v ∷ vs) = if a == v then true else member a vs

module _ (prim : Prim) where
  fetch_min-le :
      (v cell : ℕ)
      → (prim.key (fetch_min prim v cell) ≤ prim.key cell)
        × (prim.key (fetch_min prim v cell) ≤ prim.key v)
        × ((fetch_min prim v cell ≡ v) ⊎ (fetch_min prim v cell ≡ cell))
  unfolding fetch_min
  fetch_min-le v cell = ground arith

  fetch_max-ge :
      (v cell : ℕ)
      → (prim.key cell ≤ prim.key (fetch_max prim v cell))
        × (prim.key v ≤ prim.key (fetch_max prim v cell))
        × ((fetch_max prim v cell ≡ v) ⊎ (fetch_max prim v cell ≡ cell))
  unfolding fetch_max
  fetch_max-ge v cell = ground arith

  mins_below :
      (cell : ℕ) (vs : List ℕ)
      → (prim.key (fetch_mins prim cell vs) ≤ prim.key cell)
        × All (λ v. prim.key (fetch_mins prim cell vs) ≤ prim.key v) vs
  unfolding fetch_mins
  mins_below cell [] = (omega arith, tt)
  mins_below cell (v ∷ vs) =
      let (le, all) = mins_below (fetch_min prim v cell) vs in
      (omega (arith, fetch_min-le v cell), (omega (arith, fetch_min-le v cell), all))

  maxs_above :
      (cell : ℕ) (vs : List ℕ)
      → (prim.key cell ≤ prim.key (fetch_maxs prim cell vs))
        × All (λ v. prim.key v ≤ prim.key (fetch_maxs prim cell vs)) vs
  unfolding fetch_maxs
  maxs_above cell [] = (omega arith, tt)
  maxs_above cell (v ∷ vs) =
      let (le, all) = maxs_above (fetch_max prim v cell) vs in
      (omega (arith, fetch_max-ge v cell), (omega (arith, fetch_max-ge v cell), all))

  mins_member :
      (cell : ℕ) (vs : List ℕ)
      → (member (fetch_mins prim cell vs) vs ≡ true) ⊎ (fetch_mins prim cell vs ≡ cell)
  unfolding fetch_mins member
  mins_member cell [] = inr refl
  mins_member cell (v ∷ vs) =
      ground (arith, mins_member (fetch_min prim v cell) vs, fetch_min-le v cell)

  maxs_member :
      (cell : ℕ) (vs : List ℕ)
      → (member (fetch_maxs prim cell vs) vs ≡ true) ⊎ (fetch_maxs prim cell vs ≡ cell)
  unfolding fetch_maxs member
  maxs_member cell [] = inr refl
  maxs_member cell (v ∷ vs) =
      ground (arith, maxs_member (fetch_max prim v cell) vs, fetch_max-ge v cell)

  -- In the order of the type, `fetch_min` over values leaves a lower bound of them and of the start,
  -- and one of these; `fetch_max` an upper bound.
  pub extrema :
      (cell : ℕ) (vs : List ℕ)
      → (prim.key (fetch_mins prim cell vs) ≤ prim.key cell)
        × All (λ v. prim.key (fetch_mins prim cell vs) ≤ prim.key v) vs
        × ((member (fetch_mins prim cell vs) vs ≡ true) ⊎ (fetch_mins prim cell vs ≡ cell))
        × (prim.key cell ≤ prim.key (fetch_maxs prim cell vs))
        × All (λ v. prim.key v ≤ prim.key (fetch_maxs prim cell vs)) vs
        × ((member (fetch_maxs prim cell vs) vs ≡ true) ⊎ (fetch_maxs prim cell vs ≡ cell))
  extrema cell vs = (
    (mins_below cell vs).0,
    (mins_below cell vs).1,
    mins_member cell vs,
    (maxs_above cell vs).0,
    (maxs_above cell vs).1,
    maxs_member cell vs,
  )

-- The identities that a histogram starts from bound every value of the type.
pub identities_bound :
    (v : ℕ)
    → v < word
    → (u64.key v ≤ u64.key u64.max_value)
      × (u64.key u64.min_value ≤ u64.key v)
      × (i64.key v ≤ i64.key i64.max_value)
      × (i64.key i64.min_value ≤ i64.key v)
identities_bound v h = omega arith
