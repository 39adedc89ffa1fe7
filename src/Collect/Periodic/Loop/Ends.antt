-- ===== src/Collect/Periodic/Loop/Ends.antt =====
-- Runs of the worker's loop (src/collect/periodic.rs) as a whole: what they keep, the order of the
-- batches, and when they end.
use mathlib.Core.List.{append_assoc}
use ohnotel.Base.{
  ℕ, zero, suc, ◌≤◌, ◌<◌, ◌≡◌, ◌⊎◌, refl, sym, ap, ◌∙◌, Bool, true, false, List, [], ◌∷◌, ◌++◌,
  none, some, length, Option-cases, inl, inr, arith, All,
}
use ohnotel.Collect.Periodic.{DynObserver, Worker, maybe_observe, Command, handle}
use ohnotel.Collect.Periodic.Loop.{
  Handled, Received, Round, handle_all, receive, turn, first, after, taken_of, after_sender, block,
  process_send,
}
use ohnotel.Collect.Periodic.Loop.Runs.{
  Kept, Kept-refl, Kept-trans, Grows, Grows-trans, Grows-same, turn-Later, some-injective,
}

module _ {W : Type 0} (d : DynObserver W) where
  first-after : (n : ℕ) (bs : List (List W)) → first d n bs ++ after d n bs ≡ bs
  first-after zero bs = refl
  first-after (suc n) [] = refl
  first-after (suc n) (b ∷ bs) = ap (λ r. b ∷ r) (first-after n bs)

  length-after : (n : ℕ) (bs : List (List W)) → length (after d n bs) ≤ length bs
  length-after zero bs = omega arith
  length-after (suc n) [] = omega arith
  length-after (suc n) (b ∷ bs) = omega (arith, length-after n bs)

  All-after : (P : List W → Type 0) (n : ℕ) (bs : List (List W)) → All P bs → All P (after d n bs)
  All-after P zero bs h = h
  All-after P (suc n) [] h = h
  All-after P (suc n) (b ∷ bs) h = All-after P n bs h.1

  none_taken : (r : Round d) (w : Worker d) → w.receiving ≡ false → taken_of d r w ≡ zero
  none_taken r w gone = rw gone refl

  after_sender-Kept : (r : Round d) (w : Worker d) → Kept d w (after_sender d r w)
  after_sender-Kept r w = record {
    start = refl;
    observe_grid = (refl, refl);
    export_grid = (refl, refl);
    settings = (refl, refl, refl);
    observers = omega arith;
    bounded = λ h. (
      omega (arith, length-after (taken_of d r w) w.batches, h.0),
      All-after (λ b. 0 < length b) (taken_of d r w) w.batches h.1,
    );
    closed =
        λ gone. (ground (arith, gone), ap (λ (n : ℕ). after d n w.batches) (none_taken r w gone));
  }

  -- The batches that were taken and those on the channel, after one turn.
  Grows-turn :
      (n : ℕ) (w w' : Worker d) (out : List (List W))
      → Grows d (after d n w.batches) w'.batches
      → Grows d (out ++ w.batches) (out ++ first d n w.batches ++ w'.batches)
  Grows-turn n w w' out (more, e) = (
    more,
    ap (λ z. out ++ first d n w.batches ++ z) e
        ∙ append_assoc out (first d n w.batches) (after d n w.batches ++ more)
        ∙ ap (λ z. out ++ z)
            (sym (append_assoc (first d n w.batches) (after d n w.batches) more)
              ∙ ap (λ z. z ++ more) (first-after n w.batches))
        ∙ sym (append_assoc out w.batches more),
  )

  -- After a run of the worker's loop, in which the sender's task takes batches off the channel
  -- before each turn and may end, which closes it: the start, the grids and the settings are the
  -- same, no observer is gone, the channel is within its capacity and without empty batches if it
  -- was before, a closed channel stays closed and as it is, and the batches that were taken and
  -- those on the channel are the earlier ones, in their order, with new ones after them.
  pub block_lem :
      (limit : ℕ) (rs : List (Round d)) (w w' : Worker d) (out out' : List (List W)) (going : Bool)
      → block d limit rs w out ≡ some ((w', out'), going)
      → Kept d w w' × Grows d (out ++ w.batches) (out' ++ w'.batches)
  unfolding block
  block_lem limit [] w w' out out' going h =
      let same = some-injective h in
      rw (sym (ap (λ z. z.0.0) same), sym (ap (λ z. z.0.1) same))
        (Kept-refl d w, Grows-same d _ _ refl)
  block_lem limit (r ∷ rs) w w' out out' going h =
      elim (Option-cases (turn d limit r (after_sender d r w))) [
        | inl bad ↦ absurd (ground (arith, (rw (bad, block) at h)))
        | inr ((v, true), e) ↦
            let (kept, grows) = turn-Later d limit r (after_sender d r w) v true e in
            let (kept', grows') =
              block_lem limit rs v w' (out ++ first d (taken_of d r w) w.batches) out' going
                (rw (e, block) at h) in
            (
              Kept-trans d (after_sender-Kept r w) (Kept-trans d kept kept'),
              Grows-trans d _ _ _ (Grows-turn (taken_of d r w) w v out grows) grows',
            )
        | inr ((v, false), e) ↦
            let (kept, grows) = turn-Later d limit r (after_sender d r w) v false e in
            let same = some-injective (rw (e, block) at h) in
            rw (sym (ap (λ z. z.0.0) same), sym (ap (λ z. z.0.1) same))
              (Kept-trans d (after_sender-Kept r w) kept, Grows-turn (taken_of d r w) w v out grows)
      ]

  -- A shutdown among the commands.
  abbrev pub HasShutdown : List (Handled d) → Type 0
  HasShutdown [] = ⊥
  HasShutdown (h ∷ hs) = (h.command ≡ Command.shutdown) ⊎ HasShutdown hs

  shutdown_stops :
      (limit now later : ℕ) (c : Command d) (w v : Worker d)
      → c ≡ Command.shutdown
      → handle d limit now later c w ≡ some (v, true)
      → ⊥
  unfolding handle
  shutdown_stops limit now later (Command.add s) w v ends h = cc
  shutdown_stops limit now later Command.shutdown w v ends h =
      ground (arith, ap (λ z. z.1) (some-injective h))

  shutdown-handle_all :
      (limit : ℕ) (hs : List (Handled d)) (w w' : Worker d) (going : Bool)
      → HasShutdown hs
      → handle_all d limit hs w ≡ some (w', going)
      → going ≡ false
  unfolding handle_all
  shutdown-handle_all limit [] w w' going ends h = elim ends [ ]
  shutdown-handle_all limit (c ∷ hs) w w' going ends h =
      elim (Option-cases (handle d limit c.now c.later c.command w)) [
        | inl bad ↦ absurd (ground (arith, (rw (bad, handle_all) at h)))
        | inr ((v, false), e) ↦ sym (ap (λ z. z.1) (some-injective (rw (e, handle_all) at h)))
        | inr ((v, true), e) ↦ elim ends [
          | inl here ↦ absurd (shutdown_stops limit c.now c.later c.command w v here e)
          | inr there ↦ shutdown-handle_all limit hs v w' going there (rw (e, handle_all) at h)
        ]
      ]

  abbrev pub EndsIn : Received d → Type 0
  EndsIn Received.disconnected = Unit
  EndsIn (Received.commands hs) = HasShutdown hs

  ends-receive :
      (limit : ℕ) (r : Received d) (w w' : Worker d) (going : Bool)
      → EndsIn r
      → receive d limit r w ≡ some (w', going)
      → going ≡ false
  ends-receive limit Received.disconnected w w' going ends h =
      sym (ap (λ z. z.1) (some-injective h))
  ends-receive limit (Received.commands hs) w w' going ends h =
      shutdown-handle_all limit hs w w' going ends h

  ends-turn :
      (limit : ℕ) (r : Round d) (w w' : Worker d) (going : Bool)
      → EndsIn r.received
      → turn d limit r w ≡ some (w', going)
      → going ≡ false
  unfolding turn
  ends-turn limit r w w' going ends h =
      elim (Option-cases (maybe_observe d limit r.now r.after_observe w)) [
        | inl bad ↦ absurd (ground (arith, (rw (bad, turn) at h)))
        | inr (v, e) ↦ ends-receive limit r.received _ w' going ends (rw (e, turn) at h)
      ]

  -- If a turn gets a shutdown, at any place among its commands, or finds the channel of commands
  -- disconnected, the loop ends with that turn, whatever would come after, unless the clock's
  -- arithmetic panics.
  pub block_ends :
      (limit : ℕ) (r : Round d) (rs : List (Round d)) (w : Worker d) (out : List (List W))
      → EndsIn r.received
      → (block d limit (r ∷ rs) w out ≡ none)
        ⊎ ((w' : Worker d) × (block d limit (r ∷ rs) w out
              ≡ some ((w', out ++ first d (taken_of d r w) w.batches), false))
            × (turn d limit r (after_sender d r w) ≡ some (w', false)))
  unfolding block
  block_ends limit r rs w out ends = elim (Option-cases (turn d limit r (after_sender d r w))) [
    | inl bad ↦ inl (rw (bad, block) refl)
    | inr ((v, true), e) ↦
        absurd (ground (arith, ends-turn limit r (after_sender d r w) v true ends e))
    | inr ((v, false), e) ↦ inr (v, (rw (e, block) refl), e)
  ]

-- Batches in one list and then another.
pub process_send-append :
    {W S : Type 0} (send : List W → S → S) (xs ys : List (List W)) (s : S)
    → process_send send (xs ++ ys) s ≡ process_send send ys (process_send send xs s)
unfolding process_send
process_send-append send [] ys s = refl
process_send-append send (x ∷ xs) ys s = process_send-append send xs ys (send x s)
