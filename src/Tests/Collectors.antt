-- ===== src/Tests/Collectors.antt =====
-- Witnesses for the timers, the observers, the registry and the periodic worker.
use ohnotel.Base.{
  ℕ, ◌+◌, ◌*◌, ◌%◌, ◌^◌, ◌≤◌, ◌<◌, ◌≡◌, ◌≢◌, ◌⊎◌, refl, true, false, List, [], ◌∷◌, ◌++◌, arith,
  none, some, ok, err, map, length, not, ◌||◌, ltb, ◌==◌, if◌then◌else◌,
}
use ohnotel.Error.{mode_mismatch, delta_for_gauge}
use ohnotel.Fingerprint.{u64_mod}
use ohnotel.Atomic.Integers.{u64, recording, word}
use ohnotel.BucketMap.Ops.{record_with}
use ohnotel.BucketMap.Inv.{Inv, bucket_for}
use ohnotel.BucketMap.Contents.{view}
use ohnotel.Timer.{Duration, as_nanos, CollectorTime, GridTimer, advance, due}
use ohnotel.Timer.Grid.{advance_lem}
use ohnotel.BucketMap.State.{CanonicalEntry}
use ohnotel.Observe.{get, or_empty, Mode, Kind, Observer, observe_impl}
use ohnotel.Observe.Keys.{key_state}
use ohnotel.Observe.Whole.{observe_lem, observe_map}
use ohnotel.Observe.Drained.{observe_destructive_lem, snapshots, drained, untagged}
use ohnotel.Observe.Delta.{delta_total, observe_entries, reported, values, last_of}
use ohnotel.Collect.{
  Collectors, Collection, add, lookup, register, register_all, eq_mode, is_destructive,
}
use ohnotel.Collect.Registry.{add-add, add-partial}
use ohnotel.Collect.Periodic.{Config, DynObserver, Worker, first_worker, maybe_export}
use ohnotel.Collect.Periodic.Steps.{IsBounded, exports, successes, exported, maybe_export_lem}
use ohnotel.Model.Lexicographic.{number_order}
use ohnotel.Tests.{used_map}
use ohnotel.Tests.Maps.{used-Inv}

abbrev pub far : ℕ
far = 2 ^ 63

abbrev ten_seconds : Duration
ten_seconds = record { secs = 10; nanos = 0 }

abbrev grid : GridTimer
grid = record { start = 100; period = ten_seconds; deadline = 100 }

advance_example :
    ((advance far grid 25000000000).start ≡ 100)
    × ((advance far grid 25000000000).period ≡ ten_seconds)
    × (25000000000 < (advance far grid 25000000000).deadline)
    × (100 < (advance far grid 25000000000).deadline)
    × (((advance far grid 25000000000).deadline ≤ 25000000000 + as_nanos ten_seconds)
        ⊎ ((advance far grid 25000000000).deadline ≤ 100 + as_nanos ten_seconds))
    × ((k : ℕ) × ((advance far grid 25000000000).deadline ≡ 100 + as_nanos ten_seconds * k))
advance_example = advance_lem far grid 25000000000 (omega arith) (omega arith) (omega arith)

abbrev captured : CollectorTime
captured = record { instant = 50; system = 1000 }

abbrev delta_observer : Observer ℕ ℕ
delta_observer = record {
  start_time = 0;
  seq = 3;
  series = [];
  last_values = some [];
  observe_mode = Mode.delta;
  kind = Kind.counter;
}

observe_example :
    let after = observe_impl (recording u64) 77 used_map delta_observer in
    Inv after.0
    × (after.0.heap ≡ used_map.heap)
    × ((k : List ℕ) → bucket_for after.0 k ≡ bucket_for used_map k)
    × ((k : List ℕ)
        → key_state k (after.1.last_values, after.1.series)
          ≡ observe_map (recording u64) 77 3 used_map k (key_state k (some [], [])))
    × (after.1.seq ≡ (3 + 1) % u64_mod)
observe_example = observe_lem (recording u64) 77 used-Inv delta_observer (λ same. ground arith)

abbrev draining_observer : Observer ℕ ℕ
draining_observer = record {
  start_time = 0;
  seq = 3;
  series = [];
  last_values = none;
  observe_mode = Mode.destructive;
  kind = Kind.counter;
}

observe_destructive_lem_example :
    let after = observe_impl (recording u64) 77 used_map draining_observer in
    Inv after.0
    × ((k : List ℕ) → bucket_for after.0 k ≡ none)
    × (after.0.no_attr_touched ≡ false)
    × (after.0.heap.cell 0 ≡ 0)
    × ((k : List ℕ)
        → k ≢ []
        → snapshots k after.1.series ≡ drained (recording u64) 77 3 (view used_map k))
    × (snapshots [] after.1.series ≡ untagged 77 3 used_map.no_attr_touched (used_map.heap.cell 0))
    × (after.1.seq ≡ (3 + 1) % u64_mod)
unfolding bucket_for get record_with
observe_destructive_lem_example =
    observe_destructive_lem (recording u64) 77 3 used-Inv draining_observer refl refl

abbrev route : CanonicalEntry ℕ
route = record { attrs = 1 ∷ 2 ∷ []; bucket = 1; aliases = [] }

delta_total_example :
    reported (
        or_empty (
          get
            (1 ∷ 2 ∷ [])
            (observe_entries route ((1, (0, 5)) ∷ (2, (1, 5)) ∷ (3, (2, 9)) ∷ []) (some [], [])).1))
      % word
    ≡ last_of 0 (values ((1, (0, 5)) ∷ (2, (1, 5)) ∷ (3, (2, 9)) ∷ []))
delta_total_example =
    delta_total route ((1, (0, 5)) ∷ (2, (1, 5)) ∷ (3, (2, 9)) ∷ [])
      (omega arith, omega arith, (omega arith, omega arith, (omega arith, omega arith, tt)))

-- Collectors that count their sources, up to a limit.
abbrev counters : Collectors
counters = record {
  Key = ℕ;
  eq_key = ◌==◌;
  Handle = ℕ;
  Collector = ℕ × ℕ;
  add_source = λ source mode c. if ltb c.0 c.1 then ok (c.0 + 1, c.1) else err delta_for_gauge;
}

abbrev two_counters : Collection counters
two_counters = record { collectors = (0, 5) ∷ (0, 5) ∷ []; registry = [] }

add-add_example :
    let after = (add counters (7, 1) Mode.direct two_counters).0 in
    (◌≡◌ {A = ℕ} 1 1)
    × (add counters (7, 2) Mode.direct after ≡ (after, ok 1))
    × (eq_mode Mode.direct Mode.delta ≡ false
        → is_destructive Mode.delta ≡ false
        → add counters (7, 2) Mode.delta after ≡ (after, err mode_mismatch))
unfolding add lookup register register_all
add-add_example =
    add-add counters (λ k. ground arith) 7 1 2 Mode.direct Mode.delta two_counters 1 refl refl

add-partial_example :
    add counters (7, 1) Mode.direct (record { collectors = (0, 5) ∷ (5, 5) ∷ []; registry = [] })
    ≡ (record { collectors = (1, 5) ∷ (5, 5) ∷ []; registry = [] }, err delta_for_gauge)
unfolding lookup
add-partial_example =
    add-partial counters (7, 1) Mode.direct (0, 5) (1, 5) (5, 5) [] [] delta_for_gauge refl refl
      refl refl

-- An observer that remembers the time, and exports it.
abbrev pub clock_observer : DynObserver ℕ
clock_observer = record {
  State = ℕ;
  observe = λ ts s. ts;
  reset = λ ts s. ts;
  export = λ align s. (s, ok (some s));
}

abbrev config : Config
config = record {
  poll_period = ten_seconds;
  export_period = record { secs = 60; nanos = 0 };
  align_timestamps = true;
  batch_capacity = some 1;
}

abbrev pub worker : Worker clock_observer
worker = record (first_worker clock_observer config captured) { observers = 4 ∷ 5 ∷ [] }

maybe_export_example :
    (due worker.export_timer 60 ≡ false → maybe_export clock_observer far 60 61 worker ≡ worker)
    × (due worker.export_timer 60 ≡ true
        → let after = maybe_export clock_observer far 60 61 worker in
          let batch =
            successes clock_observer (exports clock_observer (some ten_seconds) (4 ∷ 5 ∷ [])) in
          (after.observers ≡ map (exported clock_observer (some ten_seconds)) (4 ∷ 5 ∷ []))
          × (after.export_timer ≡ advance far worker.export_timer 61)
          × (after.batches ≡ (
              if (length batch == 0)
                || not (ltb (length worker.batches) worker.capacity)
                || not worker.receiving
              then worker.batches
              else worker.batches ++ (batch ∷ []))))
    × (IsBounded clock_observer worker
        → IsBounded clock_observer (maybe_export clock_observer far 60 61 worker))
maybe_export_example = maybe_export_lem clock_observer far 60 61 worker
