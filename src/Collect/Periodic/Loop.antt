-- ===== src/Collect/Periodic/Loop.antt =====
-- The loop of the worker, `block`, and the sender's task, `process_send`, of
-- src/collect/periodic.rs. What the clock and the channel of commands give is an argument, a round
-- for each turn of the loop.
pub mod Runs
pub mod Ends
pub mod Shutdown
use Prim.Native.Nat.{min}
use ohnotel.Base.{
  ℕ, zero, suc, ◌-◌, ◌++◌, Bool, true, false, List, [], ◌∷◌, Option, none, some, if◌then◌else◌,
  ◌&&◌, not,
}
use ohnotel.Collect.Periodic.{DynObserver, Worker, maybe_observe, maybe_export, Command, handle}

module _ {W : Type 0} (d : DynObserver W) where
  -- A command, and the readings of the clock while it is handled.
  pub record Handled : Type 0 where
    pub now : ℕ
    pub later : ℕ
    pub command : Command d

  -- What `recv_timeout` and the `try_recv`s after it give.
  pub data Received : Type 0 where
    disconnected : Received
    commands : List Handled → Received

  -- A turn of the loop; before it the sender's task, unless it is gone, takes some batches off the
  -- channel, and it may end then, which closes the channel.
  pub record Round : Type 0 where
    pub taken : ℕ
    pub ended : Bool
    pub now : ℕ
    pub after_observe : ℕ
    pub after_export : ℕ
    pub received : Received

  -- How long the worker waits for a command.
  abbrev pub timeout : ℕ → Worker d → ℕ
  timeout now w = min w.observe_timer.deadline w.export_timer.deadline - now

  -- The inner loop: a command that ends the worker is the last one.
  unfoldable pub handle_all : ℕ → List Handled → Worker d → Option (Worker d × Bool)
  handle_all limit [] w = some (w, true)
  handle_all limit (h ∷ hs) w = elim (handle d limit h.now h.later h.command w) [
    | none ↦ none
    | some (w', going) ↦ if going then handle_all limit hs w' else some (w', false)
  ]

  abbrev pub receive : ℕ → Received → Worker d → Option (Worker d × Bool)
  receive limit Received.disconnected w = some (w, false)
  receive limit (Received.commands hs) w = handle_all limit hs w

  -- One turn of the loop.
  unfoldable pub turn : ℕ → Round → Worker d → Option (Worker d × Bool)
  unfolding handle_all
  turn limit r w = elim (maybe_observe d limit r.now r.after_observe w) [
    | none ↦ none
    | some w' ↦ receive limit r.received (maybe_export d limit r.now r.after_export w')
  ]

  abbrev pub first : ℕ → List (List W) → List (List W)
  first zero batches = []
  first (suc n) [] = []
  first (suc n) (batch ∷ batches) = batch ∷ first n batches

  abbrev pub after : ℕ → List (List W) → List (List W)
  after zero batches = batches
  after (suc n) [] = []
  after (suc n) (batch ∷ batches) = after n batches

  abbrev pub taken_of : Round → Worker d → ℕ
  taken_of r w = if w.receiving then r.taken else zero

  -- What is on the channel when the sender's task ends stays there, and nobody takes it.
  abbrev pub after_sender : Round → Worker d → Worker d
  after_sender r w = record w {
    batches = after (taken_of r w) w.batches;
    receiving = w.receiving && not r.ended;
  }

  -- The worker after some turns, the batches that were taken, and whether the worker goes on.
  unfoldable pub block :
      ℕ → List Round → Worker d → List (List W) → Option ((Worker d × List (List W)) × Bool)
  unfolding turn
  block limit [] w out = some ((w, out), true)
  block limit (r ∷ rs) w out =
      let out' = out ++ first (taken_of r w) w.batches in
      elim (turn limit r (after_sender r w)) [
        | none ↦ none
        | some (w', going) ↦ if going then block limit rs w' out' else some ((w', out'), false)
      ]

-- The sender's task: every batch that it receives, in order.
unfoldable pub process_send : {W S : Type 0} → (List W → S → S) → List (List W) → S → S
process_send send [] s = s
process_send send (batch ∷ batches) s = process_send send batches (send batch s)
