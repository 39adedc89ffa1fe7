-- ===== src/Atomic/Histogram/Counts.antt =====
-- The counters of a histogram (src/atomic/histogram.rs): what they hold after values were recorded.
use ohnotel.Base.{
  ℕ, zero, suc, ◌+◌, ◌-◌, ◌%◌, ◌<◌, ◌≡◌, refl, ap, sym, ◌∙◌, List, [], ◌∷◌, Result, Result-cases,
  ok-injective, ok, err, arith, if◌then◌else◌, length, get_or, modify_at, replicate,
  length-modify_at, length-replicate, Bool-cases, inl, inr, ◌==◌, ◌&&◌, not, to_nat,
}
use ohnotel.Error.{Error}
use ohnotel.Atomic.Traits.{Measure, Cell}
use ohnotel.Atomic.Integers.{word, wrapping_add, wrapping_sub}
use ohnotel.Atomic.Histogram.{
  Bucket, new, new_state, from_checked_boundaries, is_unordered, bucket_index, add, sub,
  checked_boundaries,
}
use ohnotel.Atomic.Histogram.Order.{
  checked_boundaries_iff, bucket_index-bound, bucket_index-takes, takes,
}

abbrev pub total : List ℕ → ℕ
total [] = 0
total (x ∷ xs) = x + total xs

module _ {T : Type 0} (m : Measure T) where
  -- How many of the values fall into the bucket at the index; how many fall into any.
  abbrev pub tally : List T → ℕ → List T → ℕ
  tally boundaries i [] = 0
  tally boundaries i (v ∷ vs) =
      to_nat (not (is_unordered m v) && takes m boundaries i v) + tally boundaries i vs

  abbrev pub ordered : List T → ℕ
  ordered [] = 0
  ordered (v ∷ vs) = to_nat (not (is_unordered m v)) + ordered vs

-- A counter for each bucket, and a count that is their total.
abbrev pub IsTallied : {T A : Type 0} → Bucket T A → Type 0
IsTallied h =
    (length h.state.bucket_counts ≡ length h.boundaries + 1)
    × (h.state.count ≡ total h.state.bucket_counts % word)

total-replicate : (n : ℕ) → total (replicate n 0) ≡ 0
total-replicate zero = refl
total-replicate (suc n) = omega (arith, total-replicate n)

get_or-replicate : (n i : ℕ) → get_or (replicate {A = ℕ} n 0) i 0 ≡ 0
get_or-replicate zero i = refl
get_or-replicate (suc n) zero = refl
get_or-replicate (suc n) (suc i) = get_or-replicate n i

total-wrapping_add :
    (xs : List ℕ) (i : ℕ)
    → i < length xs
    → total (modify_at xs i (wrapping_add 1)) % word ≡ (total xs + 1) % word
unfolding wrapping_add
total-wrapping_add [] i p = absurd (omega arith)
total-wrapping_add (x ∷ xs) zero p = omega arith
total-wrapping_add (x ∷ xs) (suc i) p = omega (arith, total-wrapping_add xs i (omega arith))

total-wrapping_sub :
    (xs : List ℕ) (i : ℕ)
    → i < length xs
    → total (modify_at xs i (wrapping_sub 1)) % word ≡ (total xs + (word - 1)) % word
unfolding wrapping_sub
total-wrapping_sub [] i p = absurd (omega arith)
total-wrapping_sub (x ∷ xs) zero p = omega arith
total-wrapping_sub (x ∷ xs) (suc i) p = omega (arith, total-wrapping_sub xs i (omega arith))

get_or-bump :
    (xs : List ℕ) (j i : ℕ)
    → j < length xs
    → get_or xs i 0 < word
    → get_or (modify_at xs j (wrapping_add 1)) i 0 ≡ (get_or xs i 0 + to_nat (j == i)) % word
unfolding wrapping_add
get_or-bump [] j i p q = absurd (omega arith)
get_or-bump (x ∷ xs) zero zero p q = refl
get_or-bump (x ∷ xs) zero (suc i) p q = ground arith
get_or-bump (x ∷ xs) (suc j) zero p q = ground arith
get_or-bump (x ∷ xs) (suc j) (suc i) p q = ground (arith, get_or-bump xs j i (omega arith) q)

module _ {T A : Type 0} (c : Cell T A) where
  -- `add` and `sub` of any value keep a counter for each bucket and the count equal to the total of
  -- the counters, modulo 2 ^ 64.
  pub moves-IsTallied :
      (v : T) (h : Bucket T A) → IsTallied h → IsTallied (add c v h) × IsTallied (sub c v h)
  unfolding add sub wrapping_add wrapping_sub
  moves-IsTallied v h (len, sum) = elim (Bool-cases (is_unordered c.measure v)) [
    | inl e ↦ rw e ((len, sum), (len, sum))
    | inr e ↦
        let xs = h.state.bucket_counts in
        let i = bucket_index c.measure h.boundaries v in
        let here = bucket_index-bound c.measure h.boundaries v in
        rw e (
          (
            omega (arith, length-modify_at xs i (wrapping_add 1)),
            omega (arith, total-wrapping_add xs i (omega arith)),
          ),
          (
            omega (arith, length-modify_at xs i (wrapping_sub 1)),
            omega (arith, total-wrapping_sub xs i (omega arith)),
          ),
        )
  ]

  -- Values recorded one after the other.
  abbrev pub adds : List T → Bucket T A → Bucket T A
  adds [] h = h
  adds (v ∷ vs) h = adds vs (add c v h)

  abbrev pub ordered_only : {B : Type 0} → (T → B → B) → List T → B → B
  ordered_only f [] b = b
  ordered_only f (v ∷ vs) b = ordered_only f vs (if is_unordered c.measure v then b else f v b)

  add-boundaries : (v : T) (h : Bucket T A) → (add c v h).boundaries ≡ h.boundaries
  unfolding add
  add-boundaries v h = elim (Bool-cases (is_unordered c.measure v)) [
    | inl e ↦ rw e refl
    | inr e ↦ rw e refl
  ]

  add-counts :
      (v : T) (h : Bucket T A) (i : ℕ)
      → IsTallied h
      → get_or h.state.bucket_counts i 0 < word
      → get_or (add c v h).state.bucket_counts i 0
        ≡ (get_or h.state.bucket_counts i 0
            + to_nat (not (is_unordered c.measure v) && takes c.measure h.boundaries i v))
          % word
  unfolding add
  add-counts v h i tallied q = elim (Bool-cases (is_unordered c.measure v)) [
    | inl e ↦ rw e (omega arith)
    | inr e ↦
        let here = bucket_index-bound c.measure h.boundaries v in
        rw (e, ← bucket_index-takes c.measure h.boundaries i v)
          (get_or-bump h.state.bucket_counts (bucket_index c.measure h.boundaries v) i
            (omega (arith, here, tallied.0)) q)
  ]

  adds-counts :
      (vs : List T) (h : Bucket T A) (i : ℕ)
      → IsTallied h
      → get_or h.state.bucket_counts i 0 < word
      → get_or (adds vs h).state.bucket_counts i 0
        ≡ (get_or h.state.bucket_counts i 0 + tally c.measure h.boundaries i vs) % word
  unfolding add
  adds-counts [] h i tallied q = omega arith
  adds-counts (v ∷ vs) h i tallied q =
      let step = add-counts v h i tallied q in
      let rest =
        adds-counts vs (add c v h) i (moves-IsTallied v h tallied).0 (omega (arith, step)) in
      let rest' : get_or (adds vs (add c v h)).state.bucket_counts i 0
          ≡ (get_or (add c v h).state.bucket_counts i 0 + tally c.measure h.boundaries i vs)
            % word =
        rw (add-boundaries v h) at rest in
      omega (arith, step, rest')

  add-rest :
      (v : T) (h : Bucket T A)
      → h.state.count < word
      → ((add c v h).state.count ≡ (h.state.count + to_nat (not (is_unordered c.measure v))) % word)
        × ((add c v h).state.sum
            ≡ (if is_unordered c.measure v then h.state.sum else c.recording.add v h.state.sum))
        × ((add c v h).state.min
            ≡ (if is_unordered c.measure v then h.state.min else c.scalar.fetch_min v h.state.min))
        × ((add c v h).state.max
            ≡ (if is_unordered c.measure v then h.state.max else c.scalar.fetch_max v h.state.max))
  unfolding add wrapping_add
  add-rest v h q = elim (Bool-cases (is_unordered c.measure v)) [
    | inl e ↦ rw e (omega arith, refl, refl, refl)
    | inr e ↦ rw e (omega arith, refl, refl, refl)
  ]

  adds-rest :
      (vs : List T) (h : Bucket T A)
      → h.state.count < word
      → ((adds vs h).boundaries ≡ h.boundaries)
        × ((adds vs h).state.count ≡ (h.state.count + ordered c.measure vs) % word)
        × ((adds vs h).state.sum ≡ ordered_only c.recording.add vs h.state.sum)
        × ((adds vs h).state.min ≡ ordered_only c.scalar.fetch_min vs h.state.min)
        × ((adds vs h).state.max ≡ ordered_only c.scalar.fetch_max vs h.state.max)
  adds-rest [] h q = (refl, omega arith, refl, refl, refl)
  adds-rest (v ∷ vs) h q =
      let (n, s, lo, hi) = add-rest v h q in
      let (bounds, counted, sums, mins, maxs) = adds-rest vs (add c v h) (omega (arith, n)) in
      (
        bounds ∙ add-boundaries v h,
        omega (arith, counted, n),
        sums ∙ ap (ordered_only c.recording.add vs) s,
        mins ∙ ap (ordered_only c.scalar.fetch_min vs) lo,
        maxs ∙ ap (ordered_only c.scalar.fetch_max vs) hi,
      )

  adds-IsTallied : (vs : List T) (h : Bucket T A) → IsTallied h → IsTallied (adds vs h)
  adds-IsTallied [] h tallied = tallied
  adds-IsTallied (v ∷ vs) h tallied = adds-IsTallied vs (add c v h) (moves-IsTallied v h tallied).0

  from_checked_boundaries-IsTallied :
      (boundaries : List T) → IsTallied (from_checked_boundaries c boundaries)
  unfolding from_checked_boundaries new_state
  from_checked_boundaries-IsTallied boundaries = (
    length-replicate (length boundaries + 1) 0,
    omega (arith, total-replicate (length boundaries + 1)),
  )

  new-shape :
      (boundaries : List T) (h : Bucket T A)
      → new c boundaries ≡ ok h
      → h ≡ from_checked_boundaries c boundaries
  unfolding new
  new-shape boundaries h made = elim (Result-cases (checked_boundaries c.measure boundaries)) [
    | inl (ys, e) ↦
        let kept = ((checked_boundaries_iff c.measure boundaries ys).0 e).2 in
        let made' : ◌≡◌ {A = Result (Bucket T A) Error} (ok (from_checked_boundaries c ys)) (ok h) =
          rw (e, new) at made in
        sym (ok-injective made') ∙ ap (from_checked_boundaries c) kept
    | inr (z, e) ↦
        let made' : ◌≡◌ {A = Result (Bucket T A) Error} (err z) (ok h) = rw (e, new) at made in
        ground arith
  ]

  -- A histogram that `new` returned, after any values were recorded: it has a counter for each
  -- bucket and its count is their total; each counter holds how many of the values that compare
  -- with themselves fall into its bucket, which takes a value if every boundary before it is below
  -- the value and its own, if there is one, is not, modulo 2 ^ 64; the count is their number,
  -- modulo 2 ^ 64; and the sum, the minimum and the maximum are those of the measure over these
  -- values, from the identities.
  pub adds_lem :
      (boundaries : List T) (h : Bucket T A)
      → new c boundaries ≡ ok h
      → (vs : List T)
      → IsTallied (adds vs h)
        × ((adds vs h).boundaries ≡ boundaries)
        × ((i : ℕ)
            → get_or (adds vs h).state.bucket_counts i 0 ≡ tally c.measure boundaries i vs % word)
        × ((adds vs h).state.count ≡ ordered c.measure vs % word)
        × ((adds vs h).state.sum ≡ ordered_only c.recording.add vs (c.from c.measure.default))
        × ((adds vs h).state.min
            ≡ ordered_only c.scalar.fetch_min vs (c.from c.measure.min_identity))
        × ((adds vs h).state.max
            ≡ ordered_only c.scalar.fetch_max vs (c.from c.measure.max_identity))
  unfolding from_checked_boundaries new_state
  adds_lem boundaries h made vs =
      let fresh = from_checked_boundaries c boundaries in
      let (bounds, counted, sums, mins, maxs) = adds-rest vs fresh (omega arith) in
      rw (new-shape boundaries h made) (
        adds-IsTallied vs fresh (from_checked_boundaries-IsTallied boundaries),
        bounds,
        λ i.
            let zero = get_or-replicate (length boundaries + 1) i in
            let held =
              adds-counts vs fresh i (from_checked_boundaries-IsTallied boundaries)
                (omega (arith, zero)) in
            omega (arith, zero, held),
        omega (arith, counted),
        sums,
        mins,
        maxs,
      )
