-- ===== src/Timer/Clock.antt =====
-- The clock of src/collect/timer.rs, and the aligned timestamps of src/dto.rs.
use ohnotel.Base.{
  ℕ, suc, ◌+◌, ◌-◌, ◌*◌, ◌^◌, ◌≤◌, ◌<◌, ◌≡◌, refl, sym, ◌∙◌, Option, none, some, leb, arith,
  if◌then◌else◌,
}
use native.Mathlib.Nat.{mul-add, mul-one}
use ohnotel.Timer.{second, Duration, as_nanos, CollectorTime, at, align_ts}

at-shape :
    (limit : ℕ) (t u : CollectorTime) (a : ℕ)
    → at limit t a ≡ some u
    → (u.instant ≡ a)
      × (u.system + t.instant ≡ t.system + a)
      × ((t.system ≤ limit) → u.system ≤ limit)
unfolding at
at-shape limit t u a h = ground arith

-- Two times that are derived from one capture are as far apart as their instants, earlier or later
-- than the capture.
pub at-apart :
    (limit : ℕ) (t u v : CollectorTime) (a b : ℕ)
    → at limit t a ≡ some u
    → at limit t b ≡ some v
    → (u.instant ≡ a) × (u.system + b ≡ v.system + a)
at-apart limit t u v a b hu hv =
    let (iu, su, bu) = at-shape limit t u a hu in
    let (iv, sv, bv) = at-shape limit t v b hv in (iu, omega (arith, su, sv))

-- `at` by its sum, which the moved time must fit.
abbrev moved : ℕ → ℕ → ℕ → ℕ → Option CollectorTime
moved limit start sum b =
    if leb start sum
    then if leb sum (limit + start)
      then some (record { instant = b; system = sum - start })
      else none
    else none

at-moved :
    (limit : ℕ) (t : CollectorTime) (b : ℕ)
    → t.system ≤ limit
    → at limit t b ≡ moved limit t.instant (t.system + b) b
unfolding at
at-moved limit t b fits = ground arith

moved-shift :
    (limit start sum start' sum' b : ℕ)
    → sum + start' ≡ sum' + start
    → moved limit start sum b ≡ moved limit start' sum' b
moved-shift limit start sum start' sum' b h = ground arith

-- A time derived from a derived time is the one derived from the first capture, or both overflow,
-- if the captured time is one that the clock can hold.
pub at-at :
    (limit : ℕ) (t u : CollectorTime) (a b : ℕ)
    → t.system ≤ limit
    → at limit t a ≡ some u
    → at limit u b ≡ at limit t b
at-at limit t u a b fits h =
    let (instant, system, bound) = at-shape limit t u a h in
    at-moved limit u b (bound fits)
    ∙ moved-shift limit u.instant (u.system + b) t.instant (t.system + b) b
        (omega (arith, instant, system))
    ∙ sym (at-moved limit t b fits)

-- Where the next tick fits: the aligned timestamps of two successive polls below 2 ^ 32 are one
-- period apart, and the recorded timestamp is kept from 2 ^ 32 polls on and without a period.
pub align_ts_lem :
    (limit ts ts' seq_id start_ts : ℕ) (period : Duration)
    → start_ts + as_nanos period * suc seq_id ≤ limit
    → as_nanos period * suc seq_id < 2 ^ 64 * second
    → (suc seq_id < 2 ^ 32
        → (x : ℕ) × (align_ts limit ts seq_id start_ts (some period) ≡ some x)
          × (align_ts limit ts' (suc seq_id) start_ts (some period) ≡ some (x + as_nanos period)))
      × (2 ^ 32 ≤ seq_id → align_ts limit ts seq_id start_ts (some period) ≡ some ts)
      × (align_ts limit ts seq_id start_ts none ≡ some ts)
unfolding align_ts
align_ts_lem limit ts ts' seq_id start_ts period fits small =
    let up = mul-add (as_nanos period) seq_id 1 in
    let unit = mul-one (as_nanos period) in
    (
      λ few.
          (start_ts + as_nanos period * seq_id, ground (arith, up, unit), ground (arith, up, unit)),
      λ many. ground arith,
      refl,
    )
