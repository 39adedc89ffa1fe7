-- ===== src/Atomic/Histogram.antt =====
-- The histogram of src/atomic/histogram.rs, for one thread at a time (the sequence lock that makes
-- a reading consistent is modelled in Lock). Counters are `u64`s.
pub mod Order
pub mod Counts
pub mod Delta
pub mod Writes
use mathlib.Core.List.{map}
use ohnotel.Base.{
  ℕ, suc, ◌+◌, ◌-◌, ◌%◌, Bool, true, false, ◌&&◌, List, [], ◌∷◌, Option, none, some, Result, ok,
  err, if◌then◌else◌, length, modify_at, replicate, ltb, ◌==◌,
}
use ohnotel.Error.{Error, invalid_histogram_boundaries}
use ohnotel.Atomic.Traits.{Measure, Record, Cell, less}
use ohnotel.Atomic.Integers.{wrapping_add, wrapping_sub}

-- `Snapshot<T>`
pub record Snapshot (T : Type 0) : Type 0 where
  pub boundaries : List T
  pub bucket_counts : List ℕ
  pub count : ℕ
  pub sum : T
  pub min : Option T
  pub max : Option T

pub record State (A : Type 0) : Type 0 where
  pub bucket_counts : List ℕ
  pub sum : A
  pub min : A
  pub max : A
  pub count : ℕ

pub record Bucket (T A : Type 0) : Type 0 where
  pub boundaries : List T
  pub state : State A

-- `u64::saturating_sub` of two counters is the subtraction of ℕ. The lists are paired up to the
-- shorter one.
zip_sub : List ℕ → List ℕ → List ℕ
zip_sub [] ys = []
zip_sub (x ∷ xs) [] = []
zip_sub (x ∷ xs) (y ∷ ys) = (x - y) ∷ zip_sub xs ys

-- `partition_point` of a slice on which the test holds up to some point.
partition_point : {T : Type 0} → (T → Bool) → List T → ℕ
partition_point test [] = 0
partition_point test (x ∷ xs) = if test x then suc (partition_point test xs) else 0

module _ {T : Type 0} (m : Measure T) where
  -- `Snapshot - Snapshot`
  unfoldable pub minus : Snapshot T → Snapshot T → Snapshot T
  unfolding zip_sub
  minus a b = record {
    boundaries = a.boundaries;
    bucket_counts = zip_sub a.bucket_counts b.bucket_counts;
    count = a.count - b.count;
    sum = m.minus a.sum b.sum;
    min = none;
    max = none;
  }

  -- Each window of two is increasing.
  increasing_from : T → List T → Bool
  increasing_from p [] = true
  increasing_from p (x ∷ xs) = less m p x && increasing_from x xs

  increasing : List T → Bool
  unfolding increasing_from
  increasing [] = true
  increasing (x ∷ xs) = increasing_from x xs

  unfoldable pub checked_boundaries : List T → Result (List T) Error
  unfolding increasing
  checked_boundaries [] = err invalid_histogram_boundaries
  checked_boundaries (x ∷ xs) =
      if increasing (x ∷ xs) then ok (x ∷ xs) else err invalid_histogram_boundaries

  -- A value that does not compare with itself: a NaN.
  unfoldable pub is_unordered : T → Bool
  is_unordered value = elim (m.partial_cmp value value) [ none ↦ true | some _ ↦ false ]

  unfoldable pub bucket_index : List T → T → ℕ
  unfolding partition_point
  bucket_index boundaries value = partition_point (λ boundary. less m boundary value) boundaries

module _ {T A : Type 0} (c : Cell T A) where
  unfoldable pub new_state : ℕ → State A
  new_state bucket_count = record {
    bucket_counts = replicate bucket_count 0;
    sum = c.from c.measure.default;
    min = c.from c.measure.min_identity;
    max = c.from c.measure.max_identity;
    count = 0;
  }

  unfoldable pub from_checked_boundaries : List T → Bucket T A
  unfolding new_state
  from_checked_boundaries boundaries = record {
    boundaries = boundaries;
    state = new_state (length boundaries + 1);
  }

  unfoldable pub new : List T → Result (Bucket T A) Error
  unfolding checked_boundaries from_checked_boundaries
  new boundaries = elim (checked_boundaries c.measure boundaries) [
    | ok bs ↦ ok (from_checked_boundaries bs)
    | err e ↦ err e
  ]

  -- `State::snapshot`, and `Bucket::snapshot` of a bucket that nobody writes.
  unfoldable pub snapshot : Bucket T A → Snapshot T
  snapshot h = record {
    boundaries = h.boundaries;
    bucket_counts = h.state.bucket_counts;
    count = h.state.count;
    sum = c.scalar.load h.state.sum;
    min = if h.state.count == 0 then none else some (c.scalar.load h.state.min);
    max = if h.state.count == 0 then none else some (c.scalar.load h.state.max);
  }

  unfoldable pub take : Bucket T A → Bucket T A × Snapshot T
  unfolding new_state snapshot
  take h = (record h { state = new_state (length h.boundaries + 1) }, snapshot h)

  unfoldable pub add : T → Bucket T A → Bucket T A
  unfolding is_unordered bucket_index
  add value h = if is_unordered c.measure value then h else record h {
    state = record {
      bucket_counts =
          modify_at h.state.bucket_counts (bucket_index c.measure h.boundaries value)
            (wrapping_add 1);
      sum = c.recording.add value h.state.sum;
      min = c.scalar.fetch_min value h.state.min;
      max = c.scalar.fetch_max value h.state.max;
      count = wrapping_add 1 h.state.count;
    };
  }

  unfoldable pub sub : T → Bucket T A → Bucket T A
  unfolding is_unordered bucket_index
  sub value h = if is_unordered c.measure value then h else record h {
    state = record (h.state) {
      bucket_counts =
          modify_at h.state.bucket_counts (bucket_index c.measure h.boundaries value)
            (wrapping_sub 1);
      sum = c.recording.sub value h.state.sum;
      count = wrapping_sub 1 h.state.count;
    };
  }

  unfoldable pub clear : Bucket T A → Bucket T A
  unfolding take
  clear h = (take h).0

  -- `impl Record for Bucket`, with the derived `==` of snapshots as an argument; snapshots are
  -- ordered by their counts, and initial with none.
  abbrev pub bucket_recording :
      (Snapshot T → Snapshot T → Bool) → Record T (Bucket T A) (Snapshot T)
  bucket_recording equal = record {
    add = add;
    sub = sub;
    clear = clear;
    current = snapshot;
    equal = equal;
    less = λ a b. ltb a.count b.count;
    minus = minus c.measure;
    is_initial = λ a. a.count == 0;
  }
