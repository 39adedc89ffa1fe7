-- ===== src/Collect/Periodic.antt =====
-- The periodic collector of src/collect/periodic.rs: its configuration, its worker, and the gate of
-- a sender. Observers are what `DynObserver` asks for; the batch channel is a queue of a capacity that
-- is closed once the sender's task is gone.
-- Each reading of the clock is an argument, and `none` is a panic of the clock's arithmetic.
pub mod Steps
pub mod Loop
use ohnotel.Base.{
  ℕ, ◌+◌, ◌≡◌, Bool, true, false, List, [], ◌∷◌, ◌++◌, Option, none, some, Result, ok, err,
  if◌then◌else◌, length, ltb, leb, ◌==◌, ◌||◌,
}
use mathlib.Core.List.{map}
use ohnotel.Error.{
  Error, zero_poll_period, zero_export_period, poll_period_exceeds_export_period,
  duplicate_destructive,
}
use ohnotel.Timer
use ohnotel.Timer.{Duration, as_nanos, CollectorTime, at, GridTimer, due, advance}
use ohnotel.Observe.{Mode}
use ohnotel.Collect.{is_destructive}

-- `Config`, and the checks of `new`.
pub record Config : Type 0 where
  pub poll_period : Duration
  pub export_period : Duration
  pub align_timestamps : Bool
  pub batch_capacity : Option ℕ

abbrev pub default_batch_capacity : ℕ
default_batch_capacity = 64

-- `DynObserver<W, Error>` and the state that its methods change.
pub record DynObserver (W : Type 0) : Type 1 where
  pub State : Type 0
  pub observe : ℕ → State → State
  pub reset : ℕ → State → State
  pub export : Option Duration → State → State × Result (Option W) Error

module _ {W : Type 0} (d : DynObserver W) where
  pub record Worker : Type 0 where
    pub observers : List d.State
    pub start : CollectorTime
    pub observe_timer : GridTimer
    pub export_timer : GridTimer
    pub poll_period : Duration
    pub align_timestamps : Bool
    pub capacity : ℕ
    pub batches : List (List W)
    pub receiving : Bool

  abbrev capacity_of : Option ℕ → ℕ
  capacity_of none = default_batch_capacity
  capacity_of (some n) = n

  abbrev pub first_worker : Config → CollectorTime → Worker
  first_worker config start = record {
    observers = [];
    start = start;
    observe_timer = Timer.new start.instant config.poll_period;
    export_timer = Timer.new start.instant config.export_period;
    poll_period = config.poll_period;
    align_timestamps = config.align_timestamps;
    capacity = capacity_of config.batch_capacity;
    batches = [];
    receiving = true;
  }

  unfoldable pub new : Config → CollectorTime → Result Worker Error
  new config start =
      if as_nanos config.poll_period == 0
      then err zero_poll_period
      else if as_nanos config.export_period == 0
      then err zero_export_period
      else if ltb (as_nanos config.export_period) (as_nanos config.poll_period)
      then err poll_period_exceeds_export_period
      else ok (first_worker config start)

  unfoldable pub maybe_observe : ℕ → ℕ → ℕ → Worker → Option Worker
  maybe_observe limit now later w =
      if due w.observe_timer now
      then elim (at limit w.start now) [
        | none ↦ none
        | some t ↦ some (record w {
          observers = map (d.observe t.system) w.observers;
          observe_timer = advance limit w.observe_timer later;
        })
      ]
      else some w

  -- The arms of the loop: an empty result and an error leave the batch.
  abbrev pub push_result : Result (Option W) Error → List W → List W
  push_result (ok (some metric)) batch = metric ∷ batch
  push_result (ok none) batch = batch
  push_result (err e) batch = batch

  -- The loop over the observers: their states after it, and the batch.
  unfoldable pub export_all : Option Duration → List d.State → List d.State × List W
  export_all align [] = ([], [])
  export_all align (s ∷ ss) =
      let (s', result) = d.export align s in
      let (ss', batch) = export_all align ss in (s' ∷ ss', push_result result batch)

  -- `TrySendError`
  pub data TrySendError : Type 0 where
    full : TrySendError
    closed : TrySendError

  -- What the bounded channel of the runtime is documented to make of a batch; a closed one refuses it
  -- whether or not there is room.
  abbrev pub offer : List W → Worker → Result Worker TrySendError
  offer batch w =
      if w.receiving
      then (if ltb (length w.batches) w.capacity
          then ok (record w { batches = w.batches ++ (batch ∷ []) })
          else err full)
      else err closed

  -- Both errors discard the batch.
  abbrev pub sent_or_discarded : Worker → Result Worker TrySendError → Worker
  sent_or_discarded w (ok sent) = sent
  sent_or_discarded w (err full) = w
  sent_or_discarded w (err closed) = w

  unfoldable pub try_send : List W → Worker → Worker
  try_send [] w = w
  try_send (x ∷ xs) w = sent_or_discarded w (offer (x ∷ xs) w)

  abbrev align_of : Worker → Option Duration
  align_of w = if w.align_timestamps then some w.poll_period else none

  unfoldable pub maybe_export : ℕ → ℕ → ℕ → Worker → Worker
  unfolding export_all try_send
  maybe_export limit now later w =
      if due w.export_timer now
      then (let (observers, batch) = export_all (align_of w) w.observers in
          let sent = try_send batch (record w { observers = observers }) in
          record sent { export_timer = advance limit w.export_timer later })
      else w

  -- `CollectorCmd`
  pub data Command : Type 0 where
    add : d.State → Command
    shutdown : Command

  -- Whether the worker goes on; the clock is read when it stops.
  unfoldable pub handle : ℕ → ℕ → ℕ → Command → Worker → Option (Worker × Bool)
  unfolding maybe_export
  handle limit now later (Command.add s) w = elim (at limit w.start w.observe_timer.deadline) [
    | none ↦ none
    | some t ↦ some (record w { observers = w.observers ++ (d.reset t.system s ∷ []) }, true)
  ]
  handle limit now later Command.shutdown w = some (maybe_export limit now later w, false)

-- `Collector::add`: which identities are registered as destructive.
unfoldable pub register_destructive :
    {Key : Type 0} → (Key → Key → Bool) → Key → Mode → List Key → Result (List Key) Error
register_destructive eq_id id mode ids =
    if is_destructive mode
    then if member eq_id id ids then err duplicate_destructive else ok (id ∷ ids)
    else ok ids
  where
    member : {I : Type 0} → (I → I → Bool) → I → List I → Bool
    member eq_id id [] = false
    member eq_id id (j ∷ js) = eq_id j id || member eq_id id js

-- `Gated`: batches pass while it is enabled.
unfoldable pub send_gated : {W S : Type 0} → (List W → S → S) → Bool → List W → S → S
send_gated send enabled batch s = if enabled then send batch s else s
