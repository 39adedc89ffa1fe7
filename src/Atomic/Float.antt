-- ===== src/Atomic/Float.antt =====
-- The floating-point cell of src/atomic/float.rs, over its bits: an `f64` is its bit pattern, and
-- the arithmetic on patterns is a parameter. A call of `update_with` is its function and the bits
-- that it read last; a schedule says which call takes its next `compare_exchange_weak`, and whether
-- that one fails without a cause.
pub mod Swaps
pub mod Extrema
pub mod Measure
use ohnotel.Base.{
  ℕ, zero, suc, Bool, true, false, List, [], ◌∷◌, if◌then◌else◌, ◌==◌, ◌&&◌, ◌||◌, not,
}

-- A call inside the loop of `update_with`.
pub record Update : Type 0 where
  pub f : ℕ → ℕ
  pub old : ℕ

-- The calls that are still in the loop, after one more has read `bits`.
unfoldable pub read : (ℕ → ℕ) → ℕ → List Update → List Update
read f bits calls = if f bits == bits then calls else record { f = f; old = bits } ∷ calls

-- `compare_exchange_weak` of a call, and its next turn after a failure.
unfoldable pub exchange : Bool → ℕ → Update → List Update → ℕ × List Update
unfolding read
exchange spurious bits call calls =
    if (bits == call.old) && not spurious
    then (call.f call.old, calls)
    else (bits, read call.f bits calls)

-- The same for the call at an index.
unfoldable pub exchange_at : Bool → ℕ → ℕ → List Update → ℕ × List Update
unfolding exchange
exchange_at spurious bits i [] = (bits, [])
exchange_at spurious bits zero (call ∷ calls) = exchange spurious bits call calls
exchange_at spurious bits (suc i) (call ∷ calls) =
    let rest = exchange_at spurious bits i calls in (rest.0, call ∷ rest.1)

pub data Event : Type 0 where
  enter : (ℕ → ℕ) → Event
  attempt : ℕ → Bool → Event

unfoldable pub event : Event → ℕ × List Update → ℕ × List Update
unfolding read exchange_at
event (Event.enter f) (bits, calls) = (bits, read f bits calls)
event (Event.attempt i spurious) (bits, calls) = exchange_at spurious bits i calls

unfoldable pub run : List Event → ℕ × List Update → ℕ × List Update
unfolding event
run [] s = s
run (e ∷ es) s = run es (event e s)

-- A call that no other disturbs.
unfoldable pub update_with : (ℕ → ℕ) → ℕ → ℕ
unfolding run event
update_with f bits = (run (Event.enter f ∷ Event.attempt 0 false ∷ []) (bits, [])).0

-- The arithmetic of `f64` on bit patterns.
pub record Float : Type 0 where
  pub is_nan : ℕ → Bool
  pub plus : ℕ → ℕ → ℕ
  pub neg : ℕ → ℕ
  pub below : ℕ → ℕ → Bool

module _ (float : Float) where
  unfoldable pub add : ℕ → ℕ → ℕ
  unfolding update_with
  add value bits =
      if float.is_nan value then bits else update_with (λ cur. float.plus cur value) bits

  unfoldable pub sub : ℕ → ℕ → ℕ
  unfolding add
  sub value bits = add (float.neg value) bits

  unfoldable pub fetch_min : ℕ → ℕ → ℕ
  unfolding update_with
  fetch_min value bits =
      if float.is_nan value
      then bits
      else update_with (λ cur. if float.is_nan cur || float.below value cur then value else cur)
          bits

  unfoldable pub fetch_max : ℕ → ℕ → ℕ
  unfolding update_with
  fetch_max value bits =
      if float.is_nan value
      then bits
      else update_with (λ cur. if float.is_nan cur || float.below cur value then value else cur)
          bits

  unfoldable pub store : ℕ → ℕ → ℕ
  store value bits = if float.is_nan value then bits else value
