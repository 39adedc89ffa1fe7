-- ===== src/Collect/Periodic/Loop/Shutdown.antt =====
-- What becomes of the last readings when the worker of src/collect/periodic.rs is shut down.
use ohnotel.Base.{
  ℕ, ◌<◌, ◌≡◌, refl, true, false, List, [], ◌∷◌, ◌++◌, some, if◌then◌else◌, Bool-cases, inl, inr,
  arith, map, ltb, ◌||◌,
}
use ohnotel.Timer.{CollectorTime, GridTimer, at, due, advance}
use ohnotel.Collect.Periodic.{DynObserver, Worker, maybe_export, align_of, Command, handle}
use ohnotel.Collect.Periodic.Steps.{
  exported, exports, successes, discards, maybe_observe_lem, maybe_export-early, maybe_export_lem,
}
use ohnotel.Collect.Periodic.Loop.{Received, Round, handle_all, turn}

module _ {W : Type 0} (d : DynObserver W) where
  -- The observers with the readings of a time.
  abbrev pub told : CollectorTime → Worker d → List d.State
  told time w = map (d.observe time.system) w.observers

  -- The worker after an observation.
  abbrev observed : ℕ → ℕ → CollectorTime → Worker d → Worker d
  observed limit later time w = record w {
    observers = told time w;
    observe_timer = advance limit w.observe_timer later;
  }

  not_due_before : (timer : GridTimer) (now : ℕ) → now < timer.deadline → due timer now ≡ false
  unfolding due
  not_due_before timer now early = ground arith

  -- What the observers hold and what is on the channel after an export that may be too early.
  maybe_export-if :
      (limit now later : ℕ) (w : Worker d)
      → let after = maybe_export d limit now later w in
        let early = ltb now w.export_timer.deadline in
        let batch = successes d (exports d (align_of d w) w.observers) in
        (after.observers
          ≡ (if early then w.observers else map (exported d (align_of d w)) w.observers))
        × (after.batches
            ≡ (if early || discards d batch w then w.batches else w.batches ++ (batch ∷ [])))
  unfolding due
  maybe_export-if limit now later w = elim (Bool-cases (ltb now w.export_timer.deadline)) [
    | inl early ↦ rw (maybe_export-early d limit now later w (ground arith), early) (refl, refl)
    | inr on_time ↦
        let sent = (maybe_export_lem d limit now later w).1 (ground arith) in
        rw on_time (sent.0, sent.2)
  ]

  ending_turn :
      (limit t later : ℕ) (r : Round d) (time : CollectorTime) (w : Worker d)
      → r.received
        ≡ Received.commands (record { now = t; later = later; command = Command.shutdown } ∷ [])
      → due w.observe_timer r.now ≡ true
      → at limit w.start r.now ≡ some time
      → r.now < w.export_timer.deadline
      → turn d limit r w
        ≡ some (maybe_export d limit t later (observed limit r.after_observe time w), false)
  unfolding turn handle_all handle
  ending_turn limit t later r time w ending on_time on_clock early =
      let v = observed limit r.after_observe time w in
      rw ((maybe_observe_lem d limit r.now r.after_observe w).1 time on_time on_clock, turn)
        (rw
          (maybe_export-early d limit r.now r.after_export v
            (not_due_before w.export_timer r.now early))
          (rw ending refl))

  -- A turn that observes at a time the clock has, before the export deadline, and then gets a
  -- shutdown ends the loop. If the shutdown comes before the export deadline too, the observers
  -- keep what they were told and the channel stays as it was; otherwise every observer is exported,
  -- and the batch is put on the channel unless it is empty or the channel is full or closed.
  pub turn-shutdown :
      (limit t later : ℕ) (r : Round d) (time : CollectorTime) (w : Worker d)
      → r.received
        ≡ Received.commands (record { now = t; later = later; command = Command.shutdown } ∷ [])
      → due w.observe_timer r.now ≡ true
      → at limit w.start r.now ≡ some time
      → r.now < w.export_timer.deadline
      → let early = ltb t w.export_timer.deadline in
        let batch = successes d (exports d (align_of d w) (told time w)) in
        (w' : Worker d) × (turn d limit r w ≡ some (w', false))
        × (w'.observers
            ≡ (if early then told time w else map (exported d (align_of d w)) (told time w)))
        × (w'.batches
            ≡ (if early || discards d batch w then w.batches else w.batches ++ (batch ∷ [])))
  turn-shutdown limit t later r time w ending on_time on_clock early =
      let v = observed limit r.after_observe time w in
      let (states, batches) = maybe_export-if limit t later v in
      (
        maybe_export d limit t later v,
        ending_turn limit t later r time w ending on_time on_clock early,
        states,
        batches,
      )
