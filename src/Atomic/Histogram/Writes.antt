-- ===== src/Atomic/Histogram/Writes.antt =====
-- `add` and `sub` of a histogram (src/atomic/histogram.rs) as the accesses that their callbacks make
-- under the sequence lock, in the order of the code.
use ohnotel.Base.{
  ℕ, ◌≡◌, ◌<◌, ◌%◌, refl, ap, sym, ◌∙◌, Bool, true, false, List, [], ◌∷◌, ◌++◌, if◌then◌else◌,
  modify_at, modify_at_comm, Bool-cases, inl, inr, arith,
}
use ohnotel.Atomic.Traits.{Cell}
use ohnotel.Atomic.Integers.{u64, integer, fetch_min, fetch_max, word, wrapping_add, wrapping_sub}
use ohnotel.Atomic.Histogram.{
  State, Bucket, is_unordered, bucket_index, add, sub, from_checked_boundaries,
}
use ohnotel.Lock.{Machine, Phase, Reach, applies}
use ohnotel.Lock.Commute.{IsCommutative, applies-append}
use ohnotel.Lock.Reading.{accept_lem, read_all}

-- The flag tells `add` from `sub`.
pub data Access (T : Type 0) : Type 0 where
  sum : Bool → T → Access T
  min : T → Access T
  max : T → Access T
  bucket : Bool → ℕ → Access T
  count : Bool → Access T

abbrev step_counter : Bool → ℕ → ℕ
step_counter up n = if up then wrapping_add 1 n else wrapping_sub 1 n

-- A call of `add` or `sub`.
pub data Call (T : Type 0) : Type 0 where
  recorded : T → Call T
  taken_back : T → Call T

module _ {T A : Type 0} (c : Cell T A) where
  abbrev step_sum : Bool → T → A → A
  step_sum up v s = if up then c.recording.add v s else c.recording.sub v s

  unfoldable pub access : Access T → State A → State A
  access (Access.sum up v) s = record s { sum = step_sum up v s.sum }
  access (Access.min v) s = record s { min = c.scalar.fetch_min v s.min }
  access (Access.max v) s = record s { max = c.scalar.fetch_max v s.max }
  access (Access.bucket up i) s = record s {
    bucket_counts = modify_at s.bucket_counts i (step_counter up);
  }
  access (Access.count up) s = record s { count = step_counter up s.count }

  unfoldable pub accesses : List T → Call T → List (Access T)
  accesses boundaries (Call.recorded v) =
      if is_unordered c.measure v
      then []
      else Access.sum true v
        ∷ Access.min v
        ∷ Access.max v
        ∷ Access.bucket true (bucket_index c.measure boundaries v)
        ∷ Access.count true
        ∷ []
  accesses boundaries (Call.taken_back v) =
      if is_unordered c.measure v
      then []
      else Access.sum false v
        ∷ Access.bucket false (bucket_index c.measure boundaries v)
        ∷ Access.count false
        ∷ []

  abbrev pub call : Call T → Bucket T A → Bucket T A
  call (Call.recorded v) h = add c v h
  call (Call.taken_back v) h = sub c v h

  -- The cells of the sum and of the extrema commute.
  pub record Commutes : Type 0 where
    pub sums :
        (a b : Bool) (v w : T) (s : A)
        → step_sum a v (step_sum b w s) ≡ step_sum b w (step_sum a v s)
    pub mins :
        (v w : T) (s : A)
        → c.scalar.fetch_min v (c.scalar.fetch_min w s)
          ≡ c.scalar.fetch_min w (c.scalar.fetch_min v s)
    pub maxs :
        (v w : T) (s : A)
        → c.scalar.fetch_max v (c.scalar.fetch_max w s)
          ≡ c.scalar.fetch_max w (c.scalar.fetch_max v s)

  call-accesses :
      (k : Call T) (h : Bucket T A)
      → call k h ≡ record h { state = applies access (accesses h.boundaries k) h.state }
  unfolding access accesses add sub
  call-accesses (Call.recorded v) h = elim (Bool-cases (is_unordered c.measure v)) [
    | inl e ↦ rw e refl
    | inr e ↦ rw e refl
  ]
  call-accesses (Call.taken_back v) h = elim (Bool-cases (is_unordered c.measure v)) [
    | inl e ↦ rw e refl
    | inr e ↦ rw e refl
  ]

step_counter_comm :
    (a b : Bool) (n : ℕ) → step_counter a (step_counter b n) ≡ step_counter b (step_counter a n)
unfolding wrapping_add wrapping_sub
step_counter_comm true true n = refl
step_counter_comm true false n = omega arith
step_counter_comm false true n = omega arith
step_counter_comm false false n = refl

module _ {T A : Type 0} (c : Cell T A) (k : Commutes c) where
  -- Each access commutes with each: other fields, or a cell that commutes.
  pub access-IsCommutative : IsCommutative (access c)
  unfolding access
  access-IsCommutative (Access.sum a v) (Access.sum b w) s =
      ap (λ z. record s { sum = z }) (k.sums a b v w s.sum)
  access-IsCommutative (Access.sum a v) (Access.min w) s = refl
  access-IsCommutative (Access.sum a v) (Access.max w) s = refl
  access-IsCommutative (Access.sum a v) (Access.bucket b j) s = refl
  access-IsCommutative (Access.sum a v) (Access.count b) s = refl
  access-IsCommutative (Access.min v) (Access.sum b w) s = refl
  access-IsCommutative (Access.min v) (Access.min w) s =
      ap (λ z. record s { min = z }) (k.mins v w s.min)
  access-IsCommutative (Access.min v) (Access.max w) s = refl
  access-IsCommutative (Access.min v) (Access.bucket b j) s = refl
  access-IsCommutative (Access.min v) (Access.count b) s = refl
  access-IsCommutative (Access.max v) (Access.sum b w) s = refl
  access-IsCommutative (Access.max v) (Access.min w) s = refl
  access-IsCommutative (Access.max v) (Access.max w) s =
      ap (λ z. record s { max = z }) (k.maxs v w s.max)
  access-IsCommutative (Access.max v) (Access.bucket b j) s = refl
  access-IsCommutative (Access.max v) (Access.count b) s = refl
  access-IsCommutative (Access.bucket a i) (Access.sum b w) s = refl
  access-IsCommutative (Access.bucket a i) (Access.min w) s = refl
  access-IsCommutative (Access.bucket a i) (Access.max w) s = refl
  access-IsCommutative (Access.bucket a i) (Access.bucket b j) s =
      ap (λ z. record s { bucket_counts = z })
        (modify_at_comm s.bucket_counts j i (step_counter a) (step_counter b)
          (step_counter_comm a b))
  access-IsCommutative (Access.bucket a i) (Access.count b) s = refl
  access-IsCommutative (Access.count a) (Access.sum b w) s = refl
  access-IsCommutative (Access.count a) (Access.min w) s = refl
  access-IsCommutative (Access.count a) (Access.max w) s = refl
  access-IsCommutative (Access.count a) (Access.bucket b j) s = refl
  access-IsCommutative (Access.count a) (Access.count b) s =
      ap (λ z. record s { count = z }) (step_counter_comm a b s.count)

module _ {T A : Type 0} (c : Cell T A) where
  -- Calls one after the other.
  abbrev pub calls : List (Call T) → Bucket T A → Bucket T A
  calls [] h = h
  calls (k ∷ ks) h = calls ks (call c k h)

  abbrev pub all_accesses : List T → List (Call T) → List (Access T)
  all_accesses boundaries [] = []
  all_accesses boundaries (k ∷ ks) = accesses c boundaries k ++ all_accesses boundaries ks

  calls-accesses :
      (ks : List (Call T)) (h : Bucket T A)
      → calls ks h ≡ record h { state = applies (access c) (all_accesses h.boundaries ks) h.state }
  calls-accesses [] h = refl
  calls-accesses (k ∷ ks) h =
      ap (calls ks) (call-accesses c k h)
      ∙ calls-accesses ks
          (record h { state = applies (access c) (accesses c h.boundaries k) h.state })
      ∙ ap (λ s. record h { state = s })
          (sym (
            applies-append (access c) (accesses c h.boundaries k) (all_accesses h.boundaries ks)
              h.state))

  -- A new histogram whose state is read under the sequence lock while calls of `add` and `sub` run,
  -- their accesses interleaved in any order: if the cells commute and fewer than 2 ^ 64 writes have
  -- begun, the loads that the reader accepts are those of the state that the calls that have begun
  -- leave when they run one after the other.
  pub snapshot-reading :
      (commutes : Commutes c) (boundaries : List T) (ks : List (Call T)) {V : Type 0}
      (loads : List (State A → V)) (m : Machine (State A) V (Access T)) (s : ℕ) (vs : List V)
      → Reach (access c) loads (from_checked_boundaries c boundaries).state m
      → m.log ≡ all_accesses boundaries ks
      → m.phase ≡ Phase.reading s vs []
      → m.start % word ≡ s
      → m.start < word
      → vs ≡ read_all loads (calls ks (from_checked_boundaries c boundaries)).state
  unfolding from_checked_boundaries
  snapshot-reading commutes boundaries ks loads m s vs reach log at same small =
      let (out, got) =
        accept_lem (access c) loads (access-IsCommutative c commutes) _ m s vs reach at same
          small in
      got
      ∙ ap
          (λ os.
            read_all loads (applies (access c) os (from_checked_boundaries c boundaries).state))
          log
      ∙ ap (λ h. read_all loads h.state)
          (sym (calls-accesses ks (from_checked_boundaries c boundaries)))

add_sub_comm :
    (a b : Bool) (v w s : ℕ)
    → step_sum (integer u64) a v (step_sum (integer u64) b w s)
      ≡ step_sum (integer u64) b w (step_sum (integer u64) a v s)
unfolding wrapping_add wrapping_sub
add_sub_comm true true v w s = omega arith
add_sub_comm true false v w s = omega arith
add_sub_comm false true v w s = omega arith
add_sub_comm false false v w s = omega arith

-- The cells of `u64` commute.
pub u64-Commutes : Commutes (integer u64)
unfolding wrapping_add wrapping_sub fetch_min fetch_max
u64-Commutes = record {
  sums = add_sub_comm;
  mins = λ v w s. ground arith;
  maxs = λ v w s. ground arith;
}
