-- ===== src/Tests/Loops.antt =====
-- Witnesses for the worker's loop.
use ohnotel.Base.{
  ℕ, ◌≡◌, ◌⊎◌, refl, inl, Bool, false, List, [], ◌∷◌, ◌++◌, Option, none, some, arith,
}
use ohnotel.Timer.{due, at}
use ohnotel.Collect.Periodic.{Worker, Command}
use ohnotel.Collect.Periodic.Loop.{Received, Round, turn, block}
use ohnotel.Collect.Periodic.Loop.Runs.{Kept, Grows}
use ohnotel.Collect.Periodic.Loop.Shutdown.{turn-shutdown}
use ohnotel.Collect.Periodic.Loop.Ends.{block_lem, block_ends}
use ohnotel.Tests.Collectors.{far, clock_observer, worker}

-- An observer is added before the first deadline.
abbrev adding : Round clock_observer
adding = record {
  taken = 0;
  ended = false;
  now = 40;
  after_observe = 41;
  after_export = 42;
  received = Received.commands (record { now = 43; later = 44; command = Command.add 6 } ∷ []);
}

-- At the deadline the observers are exported, and a shutdown comes.
abbrev ending : Round clock_observer
ending = record {
  taken = 0;
  ended = false;
  now = 60;
  after_observe = 61;
  after_export = 62;
  received = Received.commands (record { now = 63; later = 64; command = Command.shutdown } ∷ []);
}

abbrev out_of {ℓ} : {A : Type ℓ} → A → Option (A × Bool) → A
out_of a none = a
out_of a (some b) = b.0

abbrev last_state : Worker clock_observer × List (List ℕ)
last_state = out_of (worker, []) (block clock_observer far (adding ∷ ending ∷ []) worker [])

block_lem_example :
    Kept clock_observer worker last_state.0
    × Grows clock_observer worker.batches (last_state.1 ++ last_state.0.batches)
unfolding block ohnotel.Collect.Periodic.maybe_observe ohnotel.Timer.due
    ohnotel.Collect.Periodic.handle ohnotel.Timer.at
block_lem_example =
    block_lem clock_observer far (adding ∷ ending ∷ []) worker last_state.0 [] last_state.1 false
      refl

block_ends_example :
    (block clock_observer far (ending ∷ adding ∷ []) worker [] ≡ none)
    ⊎ ((w' : Worker clock_observer) × (block clock_observer far (ending ∷ adding ∷ []) worker []
          ≡ some ((w', []), false))
        × (turn clock_observer far ending worker ≡ some (w', false)))
block_ends_example = block_ends clock_observer far ending (adding ∷ []) worker [] (inl refl)

-- The observers are told the time 60, and the export deadline is 100.
abbrev waiting : Worker clock_observer
waiting = record worker { export_timer = record worker.export_timer { deadline = 100 } }

abbrev ending_early : Round clock_observer
ending_early = record ending {
  received = Received.commands (record { now = 70; later = 71; command = Command.shutdown } ∷ []);
}

turn-shutdown_example :
    (w' : Worker clock_observer) × (turn clock_observer far ending_early waiting ≡ some (w', false))
    × (w'.observers ≡ 1010 ∷ 1010 ∷ [])
    × (w'.batches ≡ [])
unfolding due at
turn-shutdown_example =
    turn-shutdown clock_observer far 70 71 ending_early (record { instant = 60; system = 1010 })
      waiting refl refl refl (omega arith)
