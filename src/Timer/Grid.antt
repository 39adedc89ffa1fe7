-- ===== src/Timer/Grid.antt =====
-- The grid of deadlines (src/collect/timer.rs).
use ohnotel.Base.{
  ℕ, ◌+◌, ◌-◌, ◌*◌, ◌/◌, ◌%◌, ◌^◌, ◌≤◌, ◌<◌, ◌≡◌, refl, none, some, arith, inl, inr, ◌⊎◌,
}
use native.Mathlib.Nat.{
  div-add-mod, mod-lt, add-mul, mul_comm, mul_right_comm, mul-add, mul-one, mul-le-mul_left,
  div-le_self, le_of_lt,
}
use ohnotel.Timer.{second, Duration, as_nanos, GridTimer, mul, next, advance}

abbrev product : Duration → ℕ → Duration
product d n = record { secs = d.secs * n + d.nanos * n / second; nanos = d.nanos * n % second }

as_nanos-product : (d : Duration) (n : ℕ) → as_nanos (product d n) ≡ as_nanos d * n
as_nanos-product d n =
    omega (arith, add-mul (d.secs * second) d.nanos n, mul_right_comm d.secs second n)

-- `mul` is the product, whenever that fits into a duration.
mul_lem : (d : Duration) (n : ℕ) → as_nanos d * n < 2 ^ 64 * second → mul d n ≡ some (product d n)
unfolding mul
mul_lem d n fits =
    let parts = as_nanos-product d n in
    let narrow : d.nanos * n % 2 ^ 128 ≡ d.nanos * n = omega (arith, parts) in
    rw narrow (ground (arith, parts))

module _ (limit : ℕ) (t : GridTimer) (now : ℕ) (moves : 0 < as_nanos t.period) where
  abbrev pub tick : ℕ
  tick = t.start + as_nanos t.period * ((now - t.start) / as_nanos t.period + 1)

  tick-after :
      (now < tick)
      × (t.start < tick)
      × ((tick ≤ now + as_nanos t.period) ⊎ (tick ≤ t.start + as_nanos t.period))
  tick-after =
      let p = as_nanos t.period in
      let k = (now - t.start) / p in
      let whole = div-add-mod (now - t.start) p in
      let rest = mod-lt (now - t.start) moves in
      let up = mul-add p k 1 in
      let unit = mul-one p in
      (
        omega (arith, whole, rest, up, unit),
        omega (arith, whole, rest, up, unit),
        ground (arith, whole, rest, up, unit),
      )

  next-tick : tick ≤ limit → limit < 2 ^ 64 * second → next limit t now ≡ tick
  unfolding next
  next-tick fits limited =
      let n = (now - t.start) / as_nanos t.period + 1 in
      let made = mul_lem t.period n (omega arith) in
      let size = as_nanos-product t.period n in rw (made, next) (ground (arith, size))

  -- After `advance` at an instant, if the period is positive and the next tick is an instant, of
  -- which there are fewer than 2 ^ 64 seconds: the deadline is later than that instant and than the
  -- start, at most one period later than the later of the two, and a whole number of periods after
  -- the start; the start and the period stay.
  pub advance_lem :
      tick ≤ limit
      → limit < 2 ^ 64 * second
      → ((advance limit t now).start ≡ t.start)
        × ((advance limit t now).period ≡ t.period)
        × (now < (advance limit t now).deadline)
        × (t.start < (advance limit t now).deadline)
        × (((advance limit t now).deadline ≤ now + as_nanos t.period)
            ⊎ ((advance limit t now).deadline ≤ t.start + as_nanos t.period))
        × ((k : ℕ) × ((advance limit t now).deadline ≡ t.start + as_nanos t.period * k))
  unfolding advance
  advance_lem fits limited =
      let (later, after, near) = tick-after in
      rw (next-tick fits limited)
        (refl, refl, later, after, near, ((now - t.start) / as_nanos t.period + 1, refl))

mul-cases :
    (d : Duration) (n : ℕ)
    → d.nanos < second
    → n < 2 ^ 98
    → (mul d n ≡ none) ⊎ (mul d n ≡ some (product d n))
unfolding mul
mul-cases d n small few =
    let narrow : d.nanos * n % 2 ^ 128 ≡ d.nanos * n =
      omega (arith, mul-le-mul_left n (le_of_lt small), mul_comm n d.nanos, mul_comm n second) in
    rw narrow (ground arith)

-- Whether or not the next tick fits, `advance` at an instant below 2 ^ 98 - 1 leaves no deadline
-- before that instant, if the period is positive and its nanoseconds are below a second.
pub advance-not_past :
    (limit : ℕ) (t : GridTimer) (now : ℕ)
    → 0 < as_nanos t.period
    → t.period.nanos < second
    → now < 2 ^ 98 - 1
    → now ≤ (advance limit t now).deadline
unfolding advance next
advance-not_past limit t now moves small few =
    let n = (now - t.start) / as_nanos t.period + 1 in
    let size = as_nanos-product t.period n in
    let (later, after, near) = tick-after limit t now moves in
    elim (mul-cases t.period n small
      (omega (arith, div-le_self (now - t.start) (as_nanos t.period)))) [
        | inl e ↦ rw (e, next) (ground arith)
        | inr e ↦ rw (e, next) (ground (arith, size, later))
      ]
