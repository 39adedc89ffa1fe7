-- ===== src/Prometheus/Render/Buckets.antt =====
-- The cumulative buckets of a histogram (src/prometheus/dto.rs).
use ohnotel.Base.{
  ℕ, zero, suc, ◌+◌, ◌≤◌, ◌≡◌, refl, sym, ap, ◌∙◌, Text, List, [], ◌∷◌, ◌++◌, if◌then◌else◌, leb,
  get_or, arith,
}
use ohnotel.Prometheus.Render.{
  Float, HistogramValue, max_u64, saturating_add, write_f64, bucket_line, bucket_lines,
}

-- The sum of the first counters.
abbrev pub sum_first : List ℕ → ℕ → ℕ
sum_first counts zero = 0
sum_first [] (suc n) = 0
sum_first (c ∷ cs) (suc n) = c + sum_first cs n

-- A `u64` that stays at its greatest value.
abbrev pub capped : ℕ → ℕ
capped n = if leb n max_u64 then n else max_u64

-- A boundary, and how many values are at most it.
abbrev pub Sample : Type 0 → Type 0
Sample N = N × ℕ

module _ {N : Type 0} where
  -- The samples that a scrape expects, from an index on.
  unfoldable pub samples_from : List ℕ → ℕ → List N → List (Sample N)
  samples_from counts idx [] = []
  samples_from counts idx (b ∷ bs) =
      (b, capped (sum_first counts (suc idx))) ∷ samples_from counts (suc idx) bs

  -- No sample is below the one before it.
  abbrev pub RisesFrom : ℕ → List (Sample N) → Type 0
  RisesFrom n [] = Unit
  RisesFrom n (s ∷ ss) = (n ≤ s.1) × RisesFrom s.1 ss

sum_first-suc :
    (counts : List ℕ) (n : ℕ) → sum_first counts (suc n) ≡ sum_first counts n + get_or counts n 0
sum_first-suc [] zero = refl
sum_first-suc [] (suc n) = refl
sum_first-suc (c ∷ cs) zero = omega arith
sum_first-suc (c ∷ cs) (suc n) = omega (arith, sum_first-suc cs n)

capped-add : (a b : ℕ) → saturating_add (capped a) b ≡ capped (a + b)
capped-add a b = ground arith

module _ {N : Type 0} (float : Float N) (name labels : Text) where
  sample_line : Sample N → Text
  sample_line s = bucket_line float name labels (write_f64 float s.0) s.1

  unfoldable pub write_samples : List (Sample N) → Text
  unfolding sample_line
  write_samples [] = []
  write_samples (s ∷ ss) = sample_line s ++ write_samples ss

  bucket_lines-from :
      (counts : List ℕ) (idx : ℕ) (bs : List N)
      → bucket_lines float name labels counts idx (capped (sum_first counts idx)) bs
        ≡ write_samples (samples_from counts idx bs)
  unfolding bucket_lines write_samples samples_from sample_line
  bucket_lines-from counts idx [] = refl
  bucket_lines-from counts idx (b ∷ bs) =
      let next : saturating_add (capped (sum_first counts idx)) (get_or counts idx 0)
          ≡ capped (sum_first counts (suc idx)) =
        capped-add (sum_first counts idx) (get_or counts idx 0)
        ∙ ap capped (sym (sum_first-suc counts idx)) in
      let one : idx + 1 ≡ suc idx = omega arith in
      rw (next, one)
        (ap
          (λ z.
            bucket_line float name labels (write_f64 float b) (capped (sum_first counts (suc idx)))
            ++ z)
          (bucket_lines-from counts (suc idx) bs))

  rises_from :
      (counts : List ℕ) (idx : ℕ) (bs : List N)
      → RisesFrom (capped (sum_first counts idx)) (samples_from counts idx bs)
  unfolding samples_from
  rises_from counts idx [] = tt
  rises_from counts idx (b ∷ bs) =
      (ground (arith, sum_first-suc counts idx), rises_from counts (suc idx) bs)

  -- The bucket lines of a histogram carry at each boundary the sum of the counts up to it, at most
  -- the greatest `u64`, and these numbers do not fall from one line to the next.
  pub bucket_lines_lem :
      (value : HistogramValue N)
      → (bucket_lines float name labels value.bucket_counts 0 0 value.boundaries
          ≡ write_samples (samples_from value.bucket_counts 0 value.boundaries))
        × RisesFrom 0 (samples_from value.bucket_counts 0 value.boundaries)
  bucket_lines_lem value = (
    bucket_lines-from value.bucket_counts 0 value.boundaries,
    rises_from value.bucket_counts 0 value.boundaries,
  )
