-- ===== src/Timer.antt =====
-- Time: `CollectorTime` and `GridTimer` of src/collect/timer.rs and `align_ts` of src/dto.rs. An
-- instant and a time of the system clock are numbers of nanoseconds from the least one that their
-- type has; the greatest one is a parameter, since it depends on the platform. `none` is a panic of
-- the clock's `+` or `-`.
pub mod Grid
pub mod Clock
use ohnotel.Base.{
  ℕ, ◌+◌, ◌-◌, ◌*◌, ◌/◌, ◌%◌, ◌^◌, ◌≤◌, ◌<◌, Bool, Option, none, some, leb, ltb, if◌then◌else◌,
}

abbrev pub second : ℕ
second = 1000000000

-- `Duration`: `nanos` is below a second.
pub record Duration : Type 0 where
  pub secs : ℕ
  pub nanos : ℕ

-- `Duration::as_nanos`
abbrev pub as_nanos : Duration → ℕ
as_nanos d = d.secs * second + d.nanos

-- A sum of two instants, or of two times, that the type can hold.
abbrev pub checked_add : ℕ → ℕ → ℕ → Option ℕ
checked_add limit t d = if leb (t + d) limit then some (t + d) else none

abbrev pub checked_sub : ℕ → ℕ → Option ℕ
checked_sub t d = if leb d t then some (t - d) else none

abbrev pub or_else {ℓ} : {A : Type ℓ} → Option A → A → A
or_else none a = a
or_else (some b) a = b

-- `CollectorTime`
pub record CollectorTime : Type 0 where
  pub instant : ℕ
  pub system : ℕ

unfoldable pub at : ℕ → CollectorTime → ℕ → Option CollectorTime
at limit t instant =
    let moved =
      if leb t.instant instant
      then checked_add limit t.system (instant - t.instant)
      else checked_sub t.system (t.instant - instant) in
    elim moved [ some system ↦ some (record { instant = instant; system = system }) | none ↦ none ]

-- `GridTimer`
pub record GridTimer : Type 0 where
  pub start : ℕ
  pub period : Duration
  pub deadline : ℕ

abbrev pub new : ℕ → Duration → GridTimer
new start period = record { start = start; period = period; deadline = start }

unfoldable pub due : GridTimer → ℕ → Bool
due t now = leb t.deadline now

-- `mul`, with the `u128` product of the nanoseconds wrapped as a build without overflow checks does.
unfoldable pub mul : Duration → ℕ → Option Duration
mul period n =
    let nanos = period.nanos * n % 2 ^ 128 in
    let whole = period.secs * n in
    let secs = whole + nanos / second in
    if leb (2 ^ 128) whole
    then none
    else if leb (2 ^ 128) secs
    then none
    else if leb (2 ^ 64) secs
    then none
    else some (record { secs = secs; nanos = nanos % second })

-- Where the offset or the sum does not fit.
abbrev pub fallback : ℕ → GridTimer → ℕ → ℕ
fallback limit t now = or_else (checked_add limit now (as_nanos t.period)) now

unfoldable pub next : ℕ → GridTimer → ℕ → ℕ
unfolding mul
next limit t now =
    let next_tick = (now - t.start) / as_nanos t.period + 1 in
    elim (mul t.period next_tick) [
      | some offset ↦ or_else (checked_add limit t.start (as_nanos offset)) (fallback limit t now)
      | none ↦ fallback limit t now
    ]

unfoldable pub advance : ℕ → GridTimer → ℕ → GridTimer
unfolding next
advance limit t now = record t { deadline = next limit t now }

-- `Snapshot::align_ts`; the product of the period and a `u32` panics above what a duration holds.
unfoldable pub align_ts : ℕ → ℕ → ℕ → ℕ → Option Duration → Option ℕ
align_ts limit ts seq_id start_ts none = some ts
align_ts limit ts seq_id start_ts (some poll_period) =
    if leb (2 ^ 32) seq_id
    then some ts
    else if leb (2 ^ 64 * second) (as_nanos poll_period * seq_id)
    then none
    else checked_add limit start_ts (as_nanos poll_period * seq_id)
