-- ===== src/Tests/Cells.antt =====
-- Witnesses for the cells, the histogram and the sequence lock.
use ohnotel.Base.{ℕ, ◌+◌, ◌-◌, ◌%◌, ◌≡◌, ◌≢◌, ◌↔◌, refl, true, List, [], ◌∷◌, arith, ok, get_or}
use ohnotel.Atomic.Traits.{Cell}
use ohnotel.Atomic.Integers.{u64, integer, measure, word, wrapping_add}
use ohnotel.Atomic.Histogram.{
  Bucket, State, new, from_checked_boundaries, new_state, checked_boundaries, bucket_index, add,
  sub, is_unordered,
}
use ohnotel.Atomic.Histogram.Order.{IsTransitive, IsIncreasing, checked_boundaries_iff}
use ohnotel.Atomic.Histogram.Counts.{
  IsTallied, adds, adds_lem, tally, ordered, ordered_only, moves-IsTallied,
}
use ohnotel.Atomic.Histogram.Writes.{
  Access, Call, access, accesses, calls, snapshot-reading, u64-Commutes,
}
use ohnotel.Lock.{applies, Machine, Phase, Pick, Leave, Step, Reach, Run}
use ohnotel.Lock.Commute.{IsCommutative}
use ohnotel.Lock.Reading.{accept_lem, read_all}
use ohnotel.Lock.Progress.{alone}

abbrev cell : Cell ℕ ℕ
cell = integer u64

abbrev bounds : List ℕ
bounds = 10 ∷ 20 ∷ []

u64-IsTransitive : IsTransitive (measure u64)
u64-IsTransitive a b c h k = ground arith

abbrev ten_twenty : Bucket ℕ ℕ
ten_twenty = from_checked_boundaries cell bounds

new_ten_twenty : new cell bounds ≡ ok ten_twenty
unfolding new checked_boundaries
new_ten_twenty = refl

checked_boundaries_example :
    (checked_boundaries (measure u64) bounds ≡ ok bounds)
    ↔ ((bounds ≢ []) × IsIncreasing (measure u64) bounds × (bounds ≡ bounds))
checked_boundaries_example = checked_boundaries_iff (measure u64) bounds bounds

moves_example : IsTallied (add cell 15 ten_twenty) × IsTallied (sub cell 15 ten_twenty)
unfolding from_checked_boundaries new_state
moves_example = moves-IsTallied cell 15 ten_twenty (refl, refl)

adds_example :
    let h = adds cell (5 ∷ 25 ∷ []) ten_twenty in
    IsTallied h
    × (h.boundaries ≡ bounds)
    × ((i : ℕ)
        → get_or h.state.bucket_counts i 0 ≡ tally (measure u64) bounds i (5 ∷ 25 ∷ []) % word)
    × (h.state.count ≡ ordered (measure u64) (5 ∷ 25 ∷ []) % word)
    × (h.state.sum ≡ ordered_only cell wrapping_add (5 ∷ 25 ∷ []) 0)
    × (h.state.min ≡ ordered_only cell cell.scalar.fetch_min (5 ∷ 25 ∷ []) (word - 1))
    × (h.state.max ≡ ordered_only cell cell.scalar.fetch_max (5 ∷ 25 ∷ []) 0)
adds_example = adds_lem cell bounds ten_twenty new_ten_twenty (5 ∷ 25 ∷ [])

-- One writer that adds 5 to a number, and a reader after it.
abbrev plus : ℕ → ℕ → ℕ
plus o x = x + o

plus-IsCommutative : IsCommutative plus
plus-IsCommutative a b x = omega arith

abbrev whole : List (ℕ → ℕ)
whole = (λ x. x) ∷ []

abbrev written : Machine ℕ ℕ ℕ
written = record { start = 1; end = 1; inner = 8; inside = []; log = 5 ∷ []; phase = Phase.idle }

written-Reach : Reach plus whole 3 written
written-Reach =
    Reach.later
      (Reach.later (Reach.later Reach.fresh (Step.begin _ (5 ∷ [])))
        (Step.access _ 5 ([] ∷ []) (Pick.here 5 [] [])))
      (Step.finish _ [] (Leave.here []))

abbrev read_whole : Machine ℕ ℕ ℕ
read_whole = record written { phase = Phase.reading 1 (8 ∷ []) [] }

read_whole-Reach : Reach plus whole 3 read_whole
read_whole-Reach =
    Reach.later
      (Reach.later (Reach.later written-Reach (Step.load_end _ refl))
        (Step.load_start _ 1 refl refl))
      (Step.load _ 1 [] (λ x. x) [] refl)

accept_example : (read_whole.inside ≡ []) × (8 ∷ [] ≡ read_all whole (applies plus (5 ∷ []) 3))
accept_example =
    accept_lem plus whole plus-IsCommutative 3 read_whole 1 (8 ∷ []) read_whole-Reach refl refl
      (omega arith)

alone_example :
    Run plus whole 4 written (record written { phase = Phase.returned (read_all whole 8) })
alone_example = alone plus whole plus-IsCommutative 3 written written-Reach refl refl

-- A call of `add` on the histogram, and a reader of two counters after it.
abbrev counters : List (State ℕ → ℕ)
counters = (λ s. s.count) ∷ (λ s. get_or s.bucket_counts 0 0) ∷ []

abbrev add_five : List (Access ℕ)
add_five =
    Access.sum true 5 ∷ Access.min 5 ∷ Access.max 5 ∷ Access.bucket true 0 ∷ Access.count true ∷ []

abbrev added : State ℕ
added = applies (access cell) add_five ten_twenty.state

abbrev read_counters : Machine (State ℕ) ℕ (Access ℕ)
read_counters = record {
  start = 1;
  end = 1;
  inner = added;
  inside = [];
  log = add_five;
  phase = Phase.reading 1 (1 ∷ 1 ∷ []) [];
}

read_counters-Reach : Reach (access cell) counters ten_twenty.state read_counters
unfolding access from_checked_boundaries new_state wrapping_add
read_counters-Reach =
    let begun = Reach.later Reach.fresh (Step.begin _ add_five) in
    let summed = Reach.later begun (Step.access _ (Access.sum true 5) _ (Pick.here _ _ [])) in
    let lowered = Reach.later summed (Step.access _ (Access.min 5) _ (Pick.here _ _ [])) in
    let raised = Reach.later lowered (Step.access _ (Access.max 5) _ (Pick.here _ _ [])) in
    let filed = Reach.later raised (Step.access _ (Access.bucket true 0) _ (Pick.here _ _ [])) in
    let counted = Reach.later filed (Step.access _ (Access.count true) _ (Pick.here _ [] [])) in
    let done = Reach.later counted (Step.finish _ [] (Leave.here [])) in
    let looked = Reach.later done (Step.load_end _ refl) in
    let opened = Reach.later looked (Step.load_start _ 1 refl refl) in
    let first = Reach.later opened (Step.load _ 1 [] _ _ refl) in
    Reach.later first (Step.load _ 1 (1 ∷ []) _ _ refl)

snapshot-reading_example :
    1 ∷ 1 ∷ []
    ≡ read_all counters
        (calls cell (Call.recorded 5 ∷ []) (from_checked_boundaries cell bounds)).state
unfolding accesses is_unordered bucket_index
snapshot-reading_example =
    snapshot-reading cell u64-Commutes bounds (Call.recorded 5 ∷ []) counters read_counters 1
      (1 ∷ 1 ∷ []) read_counters-Reach refl refl refl (omega arith)
