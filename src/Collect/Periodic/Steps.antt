-- ===== src/Collect/Periodic/Steps.antt =====
-- What the worker of src/collect/periodic.rs does at each step.
use ohnotel.Base.{
  ℕ, ◌≤◌, ◌<◌, ◌≡◌, ◌↔◌, refl, sym, ap, ◌∙◌, true, false, List, [], ◌∷◌, ◌++◌, Option, none, some,
  Result, ok-injective, ok, err, if◌then◌else◌, length, length-append, Bool-cases, inl, inr, arith,
  map, ltb, ◌==◌, ◌||◌, not, All, Bool, ◌⊎◌,
}
use ohnotel.Error.{Error}
use ohnotel.Timer.{CollectorTime, Duration, as_nanos, at, due, advance}
use ohnotel.Collect.Periodic.{
  Config, first_worker, DynObserver, Worker, push_result, new, maybe_observe, export_all, try_send,
  maybe_export, align_of,
}

module _ {W : Type 0} (d : DynObserver W) where
  -- Only batches that hold something, and no more of them than the channel's capacity.
  abbrev pub IsBounded : Worker d → Type 0
  IsBounded w = (length w.batches ≤ w.capacity) × All (λ (b : List W). 0 < length b) w.batches

  -- The export of each observer, in their order.
  abbrev pub exports : Option Duration → List d.State → List (Result (Option W) Error)
  exports align [] = []
  exports align (s ∷ ss) = (d.export align s).1 ∷ exports align ss

  abbrev pub successes : List (Result (Option W) Error) → List W
  successes [] = []
  successes (ok (some x) ∷ rs) = x ∷ successes rs
  successes (ok none ∷ rs) = successes rs
  successes (err e ∷ rs) = successes rs

  successes-cons :
      (r : Result (Option W) Error) (rs : List (Result (Option W) Error))
      → push_result d r (successes rs) ≡ successes (r ∷ rs)
  successes-cons (ok (some x)) rs = refl
  successes-cons (ok none) rs = refl
  successes-cons (err e) rs = refl

  abbrev pub exported : Option Duration → d.State → d.State
  exported align s = (d.export align s).0

  export_all_lem :
      (align : Option Duration) (ss : List d.State)
      → export_all d align ss ≡ (map (exported align) ss, successes (exports align ss))
  unfolding export_all
  export_all_lem align [] = refl
  export_all_lem align (s ∷ ss) = rw (export_all_lem align ss) (
      ap (λ b. (exported align s ∷ map (exported align) ss, b))
        (successes-cons (d.export align s).1 (exports align ss)))

  All-append :
      (P : List W → Type 0) (xs ys : List (List W)) → All P xs → All P ys → All P (xs ++ ys)
  All-append P [] ys a b = b
  All-append P (x ∷ xs) ys a b = (a.0, All-append P xs ys a.1 b)

  -- Whether a batch does not reach the sender's task: it is empty and not sent, the channel is full,
  -- or the task is gone.
  abbrev pub discards : List W → Worker d → Bool
  discards batch w =
      (length batch == 0) || not (ltb (length w.batches) w.capacity) || not w.receiving

  pub try_send-cases :
      (batch : List W) (w : Worker d)
      → ((discards batch w ≡ true) × (try_send d batch w ≡ w))
        ⊎ ((discards batch w ≡ false)
            × (try_send d batch w ≡ record w { batches = w.batches ++ (batch ∷ []) }))
  unfolding try_send
  try_send-cases [] w = inl (refl, refl)
  try_send-cases (x ∷ xs) w = elim (Bool-cases w.receiving) [
    | inr gone ↦ inl (ground (arith, gone), rw gone refl)
    | inl alive ↦ elim (Bool-cases (ltb (length w.batches) w.capacity)) [
      | inl room ↦ inr (ground (arith, alive, room), rw (alive, room) refl)
      | inr full ↦ inl (ground (arith, full), rw (alive, full) refl)
    ]
  ]

  pub try_send-IsBounded :
      (batch : List W) (w : Worker d) → IsBounded w → IsBounded (try_send d batch w)
  try_send-IsBounded batch w h = elim (try_send-cases batch w) [
    | inl (_, same) ↦ rw same h
    | inr (taken, sent) ↦
        let room : length w.batches < w.capacity = ground arith in
        let filled : 0 < length batch = ground arith in
        rw sent (
          omega (arith, length-append w.batches (batch ∷ []), room),
          All-append (λ b. 0 < length b) w.batches (batch ∷ []) h.1 (filled, tt),
        )
  ]

  abbrev pub swapped : Worker d → Worker d
  swapped w = record w { observers = map (exported (align_of d w)) w.observers }

  abbrev pub export_once : ℕ → ℕ → Worker d → Worker d
  export_once limit later w =
      record (try_send d (successes (exports (align_of d w) w.observers)) (swapped w)) {
        export_timer = advance limit w.export_timer later;
      }

  pub maybe_export-due :
      (limit now later : ℕ) (w : Worker d)
      → due w.export_timer now ≡ true
      → maybe_export d limit now later w ≡ export_once limit later w
  unfolding maybe_export
  maybe_export-due limit now later w e =
      ap
        (λ b.
          if b
          then record (try_send d (export_all d (align_of d w) w.observers).1
              (record w { observers = (export_all d (align_of d w) w.observers).0 })) {
                export_timer = advance limit w.export_timer later;
              }
          else w)
        e
      ∙ ap
          (λ (r : List d.State × List W). record (try_send d r.1 (record w { observers = r.0 })) {
            export_timer = advance limit w.export_timer later;
          })
          (export_all_lem (align_of d w) w.observers)

  pub maybe_export-early :
      (limit now later : ℕ) (w : Worker d)
      → due w.export_timer now ≡ false
      → maybe_export d limit now later w ≡ w
  unfolding maybe_export
  maybe_export-early limit now later w e = rw (e, maybe_export) refl

  pub try_send-batches :
      (batch : List W) (w : Worker d)
      → ((try_send d batch w).observers ≡ w.observers)
        × ((try_send d batch w).batches
            ≡ (if discards batch w then w.batches else w.batches ++ (batch ∷ [])))
  try_send-batches batch w = elim (try_send-cases batch w) [
    | inl (lost, same) ↦ rw (same, lost) (refl, refl)
    | inr (taken, sent) ↦ rw (sent, taken) (refl, refl)
  ]

  -- `maybe_export`: before the deadline nothing happens; from it on every observer is exported once
  -- in their order, the results that are neither errors nor empty make up the batch, an empty batch
  -- is not sent, a batch that finds the channel full or closed is discarded, and the deadline moves
  -- on; and the channel never holds an empty batch nor more batches than its capacity.
  pub maybe_export_lem :
      (limit now later : ℕ) (w : Worker d)
      → (due w.export_timer now ≡ false → maybe_export d limit now later w ≡ w)
        × (due w.export_timer now ≡ true
            → let after = maybe_export d limit now later w in
              let batch = successes (exports (align_of d w) w.observers) in
              (after.observers ≡ map (exported (align_of d w)) w.observers)
              × (after.export_timer ≡ advance limit w.export_timer later)
              × (after.batches ≡ (
                  if (length batch == 0)
                    || not (ltb (length w.batches) w.capacity)
                    || not w.receiving
                  then w.batches
                  else w.batches ++ (batch ∷ []))))
        × (IsBounded w → IsBounded (maybe_export d limit now later w))
  maybe_export_lem limit now later w =
      let batch = successes (exports (align_of d w) w.observers) in
      let (kept, sent) = try_send-batches batch (swapped w) in
      (
        maybe_export-early limit now later w,
        λ e. rw (maybe_export-due limit now later w e) (kept, refl, sent),
        λ h. elim (Bool-cases (due w.export_timer now)) [
          | inl e ↦
              rw (maybe_export-due limit now later w e) (try_send-IsBounded batch (swapped w) h)
          | inr e ↦ rw (maybe_export-early limit now later w e) h
        ],
      )

  -- `maybe_observe`: before the deadline nothing happens; from it on, where the clock does not
  -- overflow, every observer is told one and the same time, the one derived for that instant, and
  -- the deadline moves on.
  pub maybe_observe_lem :
      (limit now later : ℕ) (w : Worker d)
      → (due w.observe_timer now ≡ false → maybe_observe d limit now later w ≡ some w)
        × ((t : CollectorTime)
            → due w.observe_timer now ≡ true
            → at limit w.start now ≡ some t
            → maybe_observe d limit now later w
              ≡ some (record w {
                observers = map (d.observe t.system) w.observers;
                observe_timer = advance limit w.observe_timer later;
              }))
  unfolding maybe_observe
  maybe_observe_lem limit now later w =
      (λ e. rw (e, maybe_observe) refl, λ t e clock. rw (e, maybe_observe) (rw clock refl))

  new-checks :
      (config : Config) (start : CollectorTime) (w : Worker d)
      → new d config start ≡ ok w
      → (0 < as_nanos config.poll_period)
        × (as_nanos config.poll_period ≤ as_nanos config.export_period)
  unfolding new
  new-checks config start w h = ground arith

  new-accepts :
      (config : Config) (start : CollectorTime)
      → 0 < as_nanos config.poll_period
      → as_nanos config.poll_period ≤ as_nanos config.export_period
      → new d config start ≡ ok (first_worker d config start)
  unfolding new
  new-accepts config start moves fits = ground arith

  new-shape :
      (config : Config) (start : CollectorTime) (w : Worker d)
      → new d config start ≡ ok w
      → w ≡ first_worker d config start
  new-shape config start w h =
      let (moves, fits) = new-checks config start w h in
      ok-injective (sym h ∙ new-accepts config start moves fits)

  -- `new` accepts exactly the configurations whose poll period is positive and at most the export
  -- period; the worker then has no observers, both of its timers are due at the start, and its
  -- channel holds nothing.
  pub new_lem :
      (config : Config) (start : CollectorTime)
      → (((w : Worker d) × (new d config start ≡ ok w)) ↔ (
          (0 < as_nanos config.poll_period)
          × (as_nanos config.poll_period ≤ as_nanos config.export_period)))
        × ((w : Worker d)
            → new d config start ≡ ok w
            → (w.observers ≡ [])
              × (due w.observe_timer start.instant ≡ true)
              × (due w.export_timer start.instant ≡ true)
              × IsBounded w)
  unfolding due
  new_lem config start = (
    (
      λ h. new-checks config start h.0 h.1,
      λ h. (first_worker d config start, new-accepts config start h.0 h.1),
    ),
    λ w h. rw (new-shape config start w h) (refl, ground arith, ground arith, (omega arith, tt)),
  )
