-- ===== src/Collect/Periodic/Loop/Runs.antt =====
-- What a run of the worker's loop (src/collect/periodic.rs) keeps, and when it ends.
use mathlib.Core.List.{append-nil, append_assoc}
use ohnotel.Base.{
  ℕ, suc, ◌≤◌, ◌≡◌, refl, sym, ap, ◌∙◌, Bool, true, false, List, [], ◌∷◌, ◌++◌, none, some, length,
  length-append, Bool-cases, Option-cases, inl, inr, arith, map,
}
use ohnotel.Timer.{GridTimer, at, due, advance}
use ohnotel.Collect.Periodic.{
  DynObserver, Worker, maybe_observe, try_send, maybe_export, align_of, Command, handle,
}
use ohnotel.Collect.Periodic.Steps.{
  IsBounded, exported, exports, successes, maybe_observe_lem, maybe_export-due, maybe_export-early,
  swapped, try_send-IsBounded, try_send-cases,
}
use ohnotel.Collect.Periodic.Loop.{Handled, Received, Round, handle_all, receive, turn}

pub some-injective {ℓ} : {A : Type ℓ} {a b : A} → some a ≡ some b → a ≡ b
some-injective h = ground arith

module _ {W : Type 0} (d : DynObserver W) where
  -- A timer on the same grid.
  abbrev pub SameGrid : GridTimer → GridTimer → Type 0
  SameGrid s t = (t.start ≡ s.start) × (t.period ≡ s.period)

  -- What stays of a worker: its start, its grids, its settings, its observers are not fewer, the
  -- channel stays within its capacity, and once it is closed it stays closed and as it is.
  pub record Kept (w w' : Worker d) : Type 0 where
    pub start : w'.start ≡ w.start
    pub observe_grid : SameGrid w.observe_timer w'.observe_timer
    pub export_grid : SameGrid w.export_timer w'.export_timer
    pub settings :
        (w'.poll_period ≡ w.poll_period)
        × (w'.align_timestamps ≡ w.align_timestamps)
        × (w'.capacity ≡ w.capacity)
    pub observers : length w.observers ≤ length w'.observers
    pub bounded : IsBounded d w → IsBounded d w'
    pub closed : w.receiving ≡ false → (w'.receiving ≡ false) × (w'.batches ≡ w.batches)

  pub Kept-refl : (w : Worker d) → Kept w w
  Kept-refl w = record {
    start = refl;
    observe_grid = (refl, refl);
    export_grid = (refl, refl);
    settings = (refl, refl, refl);
    observers = omega arith;
    bounded = λ h. h;
    closed = λ h. (h, refl);
  }

  pub Kept-trans : {u v w : Worker d} → Kept u v → Kept v w → Kept u w
  Kept-trans a b = record {
    start = b.start ∙ a.start;
    observe_grid = (b.observe_grid.0 ∙ a.observe_grid.0, b.observe_grid.1 ∙ a.observe_grid.1);
    export_grid = (b.export_grid.0 ∙ a.export_grid.0, b.export_grid.1 ∙ a.export_grid.1);
    settings =
        (b.settings.0 ∙ a.settings.0, b.settings.1 ∙ a.settings.1, b.settings.2 ∙ a.settings.2);
    observers = omega (arith, a.observers, b.observers);
    bounded = λ h. b.bounded (a.bounded h);
    closed = λ h. ((b.closed (a.closed h).0).0, (b.closed (a.closed h).0).1 ∙ (a.closed h).1);
  }

  length-map_observe : (f : d.State → d.State) (ss : List d.State) → length (map f ss) ≡ length ss
  length-map_observe f [] = refl
  length-map_observe f (s ∷ ss) = ap suc (length-map_observe f ss)

  no_clock :
      (limit now later : ℕ) (w w' : Worker d)
      → due w.observe_timer now ≡ true
      → at limit w.start now ≡ none
      → maybe_observe d limit now later w ≡ some w'
      → ⊥
  unfolding maybe_observe
  no_clock limit now later w w' on_time bad h = ground (arith, (rw (on_time, bad) at h))

  maybe_observe-Kept :
      (limit now later : ℕ) (w w' : Worker d)
      → maybe_observe d limit now later w ≡ some w'
      → Kept w w' × (w'.batches ≡ w.batches)
  unfolding advance
  maybe_observe-Kept limit now later w w' h =
      let (stays, told) = maybe_observe_lem d limit now later w in
      elim (Bool-cases (due w.observe_timer now)) [
        | inr early ↦
            let same : w ≡ w' = some-injective (sym (stays early) ∙ h) in
            rw (sym same) (Kept-refl w, refl)
        | inl on_time ↦ elim (Option-cases (at limit w.start now)) [
          | inl bad ↦ absurd (no_clock limit now later w w' on_time bad h)
          | inr (t, on_clock) ↦
              let same = some-injective (sym (told t on_time on_clock) ∙ h) in
              rw (sym same) (
                record {
                  start = refl;
                  observe_grid = (refl, refl);
                  export_grid = (refl, refl);
                  settings = (refl, refl, refl);
                  observers = omega (arith, length-map_observe (d.observe t.system) w.observers);
                  bounded = λ b. b;
                  closed = λ b. (b, refl);
                },
                refl,
              )
        ]
      ]

  try_send-Kept :
      (batch : List W) (w : Worker d)
      → Kept w (try_send d batch w)
        × ((more : List (List W)) × ((try_send d batch w).batches ≡ w.batches ++ more))
  try_send-Kept batch w = elim (try_send-cases d batch w) [
    | inl (_, same) ↦ rw same (Kept-refl w, ([], sym (append-nil w.batches)))
    | inr (taken, sent) ↦
        let alive : w.receiving ≡ true = ground arith in
        rw sent (
          record {
            start = refl;
            observe_grid = (refl, refl);
            export_grid = (refl, refl);
            settings = (refl, refl, refl);
            observers = omega arith;
            bounded = λ b. (rw sent at (try_send-IsBounded d batch w b));
            closed = λ gone. absurd (ground arith);
          },
          (batch ∷ [], refl),
        )
  ]

  maybe_export-Kept :
      (limit now later : ℕ) (w : Worker d)
      → Kept w (maybe_export d limit now later w)
        × ((more : List (List W)) × ((maybe_export d limit now later w).batches
              ≡ w.batches ++ more))
  unfolding advance
  maybe_export-Kept limit now later w = elim (Bool-cases (due w.export_timer now)) [
    | inr early ↦
        rw (maybe_export-early d limit now later w early)
          (Kept-refl w, ([], sym (append-nil w.batches)))
    | inl on_time ↦
        let batch = successes d (exports d (align_of d w) w.observers) in
        let (kept, more) = try_send-Kept batch (swapped d w) in
        let same = length-map_observe (exported d (align_of d w)) w.observers in
        rw (maybe_export-due d limit now later w on_time) (
          record {
            start = kept.start;
            observe_grid = kept.observe_grid;
            export_grid = (refl, refl);
            settings = kept.settings;
            observers = omega (arith, same, kept.observers);
            bounded = kept.bounded;
            closed = kept.closed;
          },
          more,
        )
  ]

  -- Batches are only appended.
  abbrev pub Grows : List (List W) → List (List W) → Type 0
  Grows old new = (more : List (List W)) × (new ≡ old ++ more)

  pub Grows-trans : (as' bs cs : List (List W)) → Grows as' bs → Grows bs cs → Grows as' cs
  Grows-trans as' bs cs (more, e) (rest, f) =
      (more ++ rest, f ∙ ap (λ z. z ++ rest) e ∙ append_assoc as' more rest)

  pub Grows-same : (as' bs : List (List W)) → bs ≡ as' → Grows as' bs
  Grows-same as' bs e = ([], e ∙ sym (append-nil as'))

  abbrev pub Later : Worker d → Worker d → Type 0
  Later w w' = Kept w w' × Grows w.batches w'.batches

  pub Later-trans : {u v w : Worker d} → Later u v → Later v w → Later u w
  Later-trans a b = (Kept-trans a.0 b.0, Grows-trans _ _ _ a.1 b.1)

  handle-Later :
      (limit now later : ℕ) (c : Command d) (w w' : Worker d) (going : Bool)
      → handle d limit now later c w ≡ some (w', going)
      → Later w w'
  unfolding handle
  handle-Later limit now later (Command.add s) w w' going h =
      elim (Option-cases (at limit w.start w.observe_timer.deadline)) [
        | inl bad ↦ absurd (ground (arith, (rw (bad, handle) at h)))
        | inr (t, on_clock) ↦
            let same = ap (λ z. z.0) (some-injective (rw (on_clock, handle) at h)) in
            rw (sym same) (
              record {
                start = refl;
                observe_grid = (refl, refl);
                export_grid = (refl, refl);
                settings = (refl, refl, refl);
                observers = omega (arith, length-append w.observers (d.reset t.system s ∷ []));
                bounded = λ b. b;
                closed = λ b. (b, refl);
              },
              Grows-same _ _ refl,
            )
      ]
  handle-Later limit now later Command.shutdown w w' going h =
      let same = ap (λ z. z.0) (some-injective h) in
      rw (sym same) (maybe_export-Kept limit now later w)

  pub handle_all-Later :
      (limit : ℕ) (hs : List (Handled d)) (w w' : Worker d) (going : Bool)
      → handle_all d limit hs w ≡ some (w', going)
      → Later w w'
  unfolding handle_all
  handle_all-Later limit [] w w' going h =
      let same = ap (λ z. z.0) (some-injective h) in
      rw (sym same) (Kept-refl w, Grows-same _ _ refl)
  handle_all-Later limit (c ∷ hs) w w' going h =
      elim (Option-cases (handle d limit c.now c.later c.command w)) [
        | inl bad ↦ absurd (ground (arith, (rw (bad, handle_all) at h)))
        | inr ((v, true), e) ↦
            Later-trans (handle-Later limit c.now c.later c.command w v true e)
              (handle_all-Later limit hs v w' going (rw (e, handle_all) at h))
        | inr ((v, false), e) ↦
            let same = ap (λ z. z.0) (some-injective (rw (e, handle_all) at h)) in
            rw (sym same) (handle-Later limit c.now c.later c.command w v false e)
      ]

  receive-Later :
      (limit : ℕ) (r : Received d) (w w' : Worker d) (going : Bool)
      → receive d limit r w ≡ some (w', going)
      → Later w w'
  receive-Later limit Received.disconnected w w' going h =
      let same = ap (λ z. z.0) (some-injective h) in
      rw (sym same) (Kept-refl w, Grows-same _ _ refl)
  receive-Later limit (Received.commands hs) w w' going h = handle_all-Later limit hs w w' going h

  pub turn-Later :
      (limit : ℕ) (r : Round d) (w w' : Worker d) (going : Bool)
      → turn d limit r w ≡ some (w', going)
      → Later w w'
  unfolding turn
  turn-Later limit r w w' going h =
      elim (Option-cases (maybe_observe d limit r.now r.after_observe w)) [
        | inl bad ↦ absurd (ground (arith, (rw (bad, turn) at h)))
        | inr (v, e) ↦
            let (kept, same) = maybe_observe-Kept limit r.now r.after_observe w v e in
            Later-trans (kept, Grows-same _ _ same)
              (Later-trans (maybe_export-Kept limit r.now r.after_export v)
                (receive-Later limit r.received _ w' going (rw (e, turn) at h)))
      ]
