-- ===== src/Atomic/Histogram/Delta.antt =====
-- Taking values back and subtracting snapshots (src/atomic/histogram.rs).
use ohnotel.Base.{
  ℕ, zero, suc, ◌+◌, ◌-◌, ◌≤◌, ◌<◌, ◌≡◌, refl, ap, ◌∙◌, Bool, true, false, List, [], ◌∷◌, ◌++◌,
  none, ok, arith, length, get_or, modify_at, All, Bool-cases, inl, inr, to_nat, not, ◌&&◌,
}
use ohnotel.Atomic.Traits.{Measure, Cell}
use ohnotel.Atomic.Integers.{word, wrapping_add, wrapping_sub}
use ohnotel.Atomic.Histogram.{
  Bucket, new, is_unordered, bucket_index, add, sub, zip_sub, minus, snapshot,
}
use ohnotel.Atomic.Histogram.Order.{takes}
use ohnotel.Atomic.Histogram.Counts.{tally, ordered, adds, adds_lem}

modify_at-undo :
    (xs : List ℕ) (i : ℕ)
    → All (λ x. x < word) xs
    → modify_at (modify_at xs i (wrapping_add 1)) i (wrapping_sub 1) ≡ xs
unfolding wrapping_add wrapping_sub
modify_at-undo [] i small = refl
modify_at-undo (x ∷ xs) zero small = ap (λ z. z ∷ xs) (omega (arith, small.0))
modify_at-undo (x ∷ xs) (suc i) small = ap (λ z. x ∷ z) (modify_at-undo xs i small.1)

wrapping_undo : (x : ℕ) → x < word → wrapping_sub 1 (wrapping_add 1 x) ≡ x
unfolding wrapping_add wrapping_sub
wrapping_undo x small = omega arith

get_or-zip_sub :
    (xs ys : List ℕ) (i : ℕ)
    → length xs ≡ length ys
    → get_or (zip_sub xs ys) i 0 ≡ get_or xs i 0 - get_or ys i 0
unfolding zip_sub
get_or-zip_sub [] [] i h = refl
get_or-zip_sub [] (y ∷ ys) i h = absurd (omega arith)
get_or-zip_sub (x ∷ xs) [] i h = absurd (omega arith)
get_or-zip_sub (x ∷ xs) (y ∷ ys) zero h = refl
get_or-zip_sub (x ∷ xs) (y ∷ ys) (suc i) h = get_or-zip_sub xs ys i (omega arith)

module _ {T : Type 0} (m : Measure T) where
  tally-append :
      (boundaries : List T) (i : ℕ) (vs ws : List T)
      → tally m boundaries i (vs ++ ws) ≡ tally m boundaries i vs + tally m boundaries i ws
  tally-append boundaries i [] ws = omega arith
  tally-append boundaries i (v ∷ vs) ws = omega (arith, tally-append boundaries i vs ws)

  ordered-append : (vs ws : List T) → ordered m (vs ++ ws) ≡ ordered m vs + ordered m ws
  ordered-append [] ws = omega arith
  ordered-append (v ∷ vs) ws = omega (arith, ordered-append vs ws)

  to_nat-&& : (a b : Bool) → to_nat (a && b) ≤ to_nat a
  to_nat-&& true true = omega arith
  to_nat-&& true false = omega arith
  to_nat-&& false b = omega arith

  tally-bound : (boundaries : List T) (i : ℕ) (vs : List T) → tally m boundaries i vs ≤ ordered m vs
  tally-bound boundaries i [] = omega arith
  tally-bound boundaries i (v ∷ vs) = omega (
    arith,
    tally-bound boundaries i vs,
    to_nat-&& (not (is_unordered m v)) (takes m boundaries i v),
  )

module _ {T A : Type 0} (c : Cell T A) where
  -- `sub` after `add` of one value leaves the counters and the count of a histogram, if these are
  -- words, and its sum, if the measure undoes its own addition.
  pub sub-add :
      (v : T) (h : Bucket T A)
      → All (λ x. x < word) h.state.bucket_counts
      → h.state.count < word
      → c.recording.sub v (c.recording.add v h.state.sum) ≡ h.state.sum
      → ((sub c v (add c v h)).state.bucket_counts ≡ h.state.bucket_counts)
        × ((sub c v (add c v h)).state.count ≡ h.state.count)
        × ((sub c v (add c v h)).state.sum ≡ h.state.sum)
  unfolding add sub
  sub-add v h small counted undone = elim (Bool-cases (is_unordered c.measure v)) [
    | inl e ↦ rw e (refl, refl, refl)
    | inr e ↦
        let i = bucket_index c.measure h.boundaries v in
        rw e (
          modify_at-undo h.state.bucket_counts i small,
          wrapping_undo h.state.count counted,
          undone,
        )
  ]

  -- A later snapshot of a histogram that `new` returned, less an earlier one, if fewer than 2 ^ 64
  -- values were recorded: the counters and the count are those of the values recorded in between,
  -- and there is no minimum and no maximum.
  pub minus-snapshot :
      (boundaries : List T) (h : Bucket T A)
      → new c boundaries ≡ ok h
      → (vs ws : List T) → ordered c.measure (vs ++ ws) < word
      → let delta = minus c.measure (snapshot c (adds c (vs ++ ws) h)) (snapshot c (adds c vs h)) in
        ((i : ℕ) → get_or delta.bucket_counts i 0 ≡ tally c.measure boundaries i ws)
        × (delta.count ≡ ordered c.measure ws)
        × (delta.min ≡ none)
        × (delta.max ≡ none)
  unfolding minus snapshot
  minus-snapshot boundaries h made vs ws small =
      let (after, bounds, each, counted, total_, low, high) =
        adds_lem c boundaries h made (vs ++ ws) in
      let (before, bounds', each', counted', total', low', high') =
        adds_lem c boundaries h made vs in
      let parts = ordered-append c.measure vs ws in
      (
        λ i.
            get_or-zip_sub _ _ i
              (omega (arith, after.0, before.0, ap length bounds, ap length bounds'))
            ∙ omega (
              arith,
              each i,
              each' i,
              tally-append c.measure boundaries i vs ws,
              tally-bound c.measure boundaries i vs,
              tally-bound c.measure boundaries i ws,
              parts,
            ),
        omega (arith, counted, counted', parts),
        refl,
        refl,
      )
