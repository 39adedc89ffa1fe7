-- ===== src/Atomic/Float/Extrema.antt =====
-- `fetch_min` and `fetch_max` of the floating-point cell (src/atomic/float.rs).
use ohnotel.Base.{ℕ, ◌≡◌, refl, sym, true, false, [], Bool-cases, inl, inr, ◌==◌, ==_iff, arith}
use ohnotel.Atomic.Float.{
  Float, read, exchange, exchange_at, event, run, update_with, fetch_min, fetch_max,
}

exchange-read : (f : ℕ → ℕ) (bits : ℕ) → (exchange_at false bits 0 (read f bits [])).0 ≡ f bits
unfolding read exchange_at exchange
exchange-read f bits = elim (Bool-cases (f bits == bits)) [
  | inl e ↦ rw e (sym ((==_iff (f bits) bits).0 e))
  | inr e ↦ rw (e, (==_iff bits bits).1 refl) refl
]

pub update_with_lem : (f : ℕ → ℕ) (bits : ℕ) → update_with f bits ≡ f bits
unfolding update_with run event
update_with_lem f bits = exchange-read f bits

module _ (float : Float) (strict : (a b : ℕ) → float.below a b ≡ true → float.below b a ≡ false)
    (irreflexive : (a : ℕ) → float.below a a ≡ false) where
  fetch_min_lem :
      (value bits : ℕ)
      → float.is_nan value ≡ false
      → (float.is_nan (fetch_min float value bits) ≡ false)
        × (float.below value (fetch_min float value bits) ≡ false)
        × (float.is_nan bits ≡ false → float.below bits (fetch_min float value bits) ≡ false)
  unfolding fetch_min
  fetch_min_lem value bits h =
      rw (h, update_with_lem _ bits)
        (elim (Bool-cases (float.is_nan bits)) [
          | inl n ↦ rw n (h, irreflexive value, λ k. absurd (ground (arith, n, k)))
          | inr n ↦ elim (Bool-cases (float.below value bits)) [
            | inl b ↦ rw (n, b) (h, irreflexive value, λ k. strict value bits b)
            | inr b ↦ rw (n, b) (n, b, λ k. irreflexive bits)
          ]
        ])

  fetch_max_lem :
      (value bits : ℕ)
      → float.is_nan value ≡ false
      → (float.is_nan (fetch_max float value bits) ≡ false)
        × (float.below (fetch_max float value bits) value ≡ false)
        × (float.is_nan bits ≡ false → float.below (fetch_max float value bits) bits ≡ false)
  unfolding fetch_max
  fetch_max_lem value bits h =
      rw (h, update_with_lem _ bits)
        (elim (Bool-cases (float.is_nan bits)) [
          | inl n ↦ rw n (h, irreflexive value, λ k. absurd (ground (arith, n, k)))
          | inr n ↦ elim (Bool-cases (float.below bits value)) [
            | inl b ↦ rw (n, b) (h, irreflexive value, λ k. strict bits value b)
            | inr b ↦ rw (n, b) (n, b, λ k. irreflexive bits)
          ]
        ])

  -- For a strict and irreflexive `<` and a value that is a number, undisturbed: after `fetch_min`
  -- the cell holds a number, the value is not below it, and the old contents are not below it if
  -- they were a number; and the same the other way round for `fetch_max`.
  pub fetch_extrema :
      (value bits : ℕ)
      → float.is_nan value ≡ false
      → ((float.is_nan (fetch_min float value bits) ≡ false)
          × (float.below value (fetch_min float value bits) ≡ false)
          × (float.is_nan bits ≡ false → float.below bits (fetch_min float value bits) ≡ false))
        × ((float.is_nan (fetch_max float value bits) ≡ false)
            × (float.below (fetch_max float value bits) value ≡ false)
            × (float.is_nan bits ≡ false → float.below (fetch_max float value bits) bits ≡ false))
  fetch_extrema value bits h = (fetch_min_lem value bits h, fetch_max_lem value bits h)
