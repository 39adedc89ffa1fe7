-- ===== src/Observe/Delta.antt =====
-- The deltas of a counter (src/observe.rs) add up.
use ohnotel.Base.{
  ℕ, ◌+◌, ◌%◌, ◌≤◌, ◌<◌, ◌≡◌, refl, ap, ◌∙◌, true, List, [], ◌∷◌, ◌++◌, Option, none, some,
  Bool-cases, inl, inr, arith, ◌==◌, ==_iff,
}
use ohnotel.Atomic.Integers.{u64, recording, word, below, wrapping_sub}
use ohnotel.Model.Order.{Ord}
use ohnotel.BucketMap.State.{CanonicalEntry}
use ohnotel.Observe.{Snapshot, Seen, observe_entry, get, or_empty}
use ohnotel.Observe.Keys.{KeyState, observe_key, key_state, observe_entry_here}

abbrev pub reported : List (Snapshot ℕ) → ℕ
reported [] = 0
reported (s ∷ more) = s.value + reported more

reported-append : (xs ys : List (Snapshot ℕ)) → reported (xs ++ ys) ≡ reported xs + reported ys
reported-append [] ys = omega arith
reported-append (s ∷ xs) ys = omega (arith, reported-append xs ys)

abbrev last_or_zero : Option ℕ → ℕ
last_or_zero none = 0
last_or_zero (some v) = v

-- The values reported so far make up the last one.
abbrev IsTracking : KeyState ℕ → Type 0
IsTracking s = (s.keeps_last ≡ true) × (reported s.snapshots % word ≡ last_or_zero s.last)

abbrev pub Rising : ℕ → List ℕ → Type 0
Rising prev [] = Unit
Rising prev (v ∷ vs) = (prev ≤ v) × (v < word) × Rising v vs

abbrev pub last_of : ℕ → List ℕ → ℕ
last_of v [] = v
last_of v (w ∷ ws) = last_of w ws

-- Observations of one key, each with its time and sequence number.
abbrev pub observes : List (ℕ × (ℕ × ℕ)) → KeyState ℕ → KeyState ℕ
observes [] s = s
observes ((ts, (seq, v)) ∷ more) s = observes more (observe_key (recording u64) ts seq v s)

abbrev pub values : List (ℕ × (ℕ × ℕ)) → List ℕ
values [] = []
values ((ts, (seq, v)) ∷ more) = v ∷ values more

step-IsTracking :
    (ts seq v : ℕ) (last : Option ℕ) (snapshots : List (Snapshot ℕ))
    → reported snapshots % word ≡ last_or_zero last
    → last_or_zero last ≤ v
    → v < word
    → let s =
        observe_key
          (recording u64)
          ts
          seq
          v
          (record { keeps_last = true; last = last; snapshots = snapshots }) in
      IsTracking s × (s.last ≡ some v)
unfolding wrapping_sub
step-IsTracking ts seq v none xs h up small = (
  (refl, omega (arith, reported-append xs (record { ts = ts; seq_id = seq; value = v } ∷ []))),
  refl,
)
step-IsTracking ts seq v (some prev) xs h up small = elim (Bool-cases (prev == v)) [
  | inl same ↦ rw same ((refl, h), ap some ((==_iff prev v).0 same))
  | inr new ↦
      let rises : below u64 prev v ≡ true = ground arith in
      rw (new, rises)
        (
          (
            refl,
            omega (
              arith,
              reported-append xs
                  (record { ts = ts; seq_id = seq; value = wrapping_sub prev v } ∷ []),
            ),
          ),
          refl,
        )
]

record_shape :
    (s : KeyState ℕ) (v : ℕ)
    → s.keeps_last ≡ true
    → s.last ≡ some v
    → s ≡ record { keeps_last = true; last = some v; snapshots = s.snapshots }
record_shape s v keeps now i = record {
  keeps_last = keeps i;
  last = now i;
  snapshots = s.snapshots;
}

observes-tracking :
    (more : List (ℕ × (ℕ × ℕ))) (last : Option ℕ) (snapshots : List (Snapshot ℕ))
    → reported snapshots % word ≡ last_or_zero last
    → Rising (last_or_zero last) (values more)
    → reported
          (observes more
            (record { keeps_last = true; last = last; snapshots = snapshots })).snapshots
        % word
      ≡ last_of (last_or_zero last) (values more)
observes-tracking [] last snapshots h up = h
observes-tracking ((ts, (seq, v)) ∷ more) last snapshots h (low, small, up) =
    let s =
      observe_key (recording u64) ts seq v
        (record { keeps_last = true; last = last; snapshots = snapshots }) in
    let ((keeps, tracked), now) = step-IsTracking ts seq v last snapshots h low small in
    let shape : s ≡ record { keeps_last = true; last = some v; snapshots = s.snapshots } =
      record_shape s v keeps now in
    ap (λ z. reported (observes more z).snapshots % word) shape
    ∙ observes-tracking more (some v) s.snapshots (tracked ∙ ap last_or_zero now) up

-- The closure of `observe_impl` for one entry, over readings of its bucket.
abbrev pub observe_entries :
    {K : Type 0} ⦃o : Ord K⦄ → CanonicalEntry K → List (ℕ × (ℕ × ℕ)) → Seen K ℕ → Seen K ℕ
observe_entries e [] s = s
observe_entries e ((ts, (seq, v)) ∷ more) s =
    observe_entries e more (observe_entry (recording u64) ts seq e v s).1

observe_entries-key :
    {K : Type 0} ⦃o : Ord K⦄ (e : CanonicalEntry K) (readings : List (ℕ × (ℕ × ℕ))) (s : Seen K ℕ)
    → key_state e.attrs (observe_entries e readings s) ≡ observes readings (key_state e.attrs s)
observe_entries-key e [] s = refl
observe_entries-key e ((ts, (seq, v)) ∷ more) s =
    observe_entries-key e more (observe_entry (recording u64) ts seq e v s).1
    ∙ ap (observes more) (observe_entry_here (recording u64) ts seq e v s)

-- A `u64` counter observed in the delta mode with readings that never fall: the deltas that are
-- reported for a key since it was unseen add up to its last reading, modulo 2 ^ 64, however many
-- observations there were.
pub delta_total :
    {K : Type 0} ⦃o : Ord K⦄ (e : CanonicalEntry K) (readings : List (ℕ × (ℕ × ℕ)))
    → Rising 0 (values readings)
    → reported (or_empty (get e.attrs (observe_entries e readings (some [], [])).1)) % word
      ≡ last_of 0 (values readings)
unfolding get
delta_total e readings up =
    ap (λ s. reported s.snapshots % word) (observe_entries-key e readings (some [], []))
    ∙ observes-tracking readings none [] refl up
