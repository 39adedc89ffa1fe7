-- ===== src/Atomic/Histogram/Order.antt =====
-- The boundaries of a histogram (src/atomic/histogram.rs): which lists are accepted, and which
-- bucket a value falls into.
use ohnotel.Base.{
  ℕ, zero, suc, ◌≤◌, ◌<◌, ◌≡◌, ◌≢◌, ◌↔◌, refl, Bool, true, false, not, ◌&&◌, ◌==◌, List, [], ◌∷◌,
  some, ok, arith, length, get_elem?, Bool-cases, inl, inr,
}
use ohnotel.Atomic.Traits.{Measure, less}
use ohnotel.Atomic.Histogram.{
  partition_point, increasing_from, increasing, checked_boundaries, bucket_index,
}

-- `<` of a measure chains, as the one of `u64`, `i64` and `f64` does.
abbrev pub IsTransitive : {T : Type 0} → Measure T → Type 0
IsTransitive {T} m = (a b c : T) → less m a b ≡ true → less m b c ≡ true → less m a c ≡ true

-- Each item is below the next one.
abbrev pub IsIncreasing : {T : Type 0} → Measure T → List T → Type 0
IsIncreasing {T} m xs =
    (i : ℕ) (a b : T) → get_elem? xs i ≡ some a → get_elem? xs (suc i) ≡ some b → less m a b ≡ true

module _ {T : Type 0} (m : Measure T) where
  increasing_from_cons :
      (p x : T) (xs : List T)
      → increasing_from m p (x ∷ xs) ≡ true
      → (less m p x ≡ true) × (increasing_from m x xs ≡ true)
  unfolding increasing_from
  increasing_from_cons p x xs h = ground arith

  increasing_from_sound :
      (p : T) (xs : List T) → increasing_from m p xs ≡ true → IsIncreasing m (p ∷ xs)
  unfolding increasing_from
  increasing_from_sound p [] h i a b ha hb = ground arith
  increasing_from_sound p (x ∷ xs) h zero a b ha hb = ground (arith, increasing_from_cons p x xs h)
  increasing_from_sound p (x ∷ xs) h (suc i) a b ha hb =
      increasing_from_sound x xs (increasing_from_cons p x xs h).1 i a b ha hb

  increasing_from_complete :
      (p : T) (xs : List T) → IsIncreasing m (p ∷ xs) → increasing_from m p xs ≡ true
  unfolding increasing_from
  increasing_from_complete p [] h = refl
  increasing_from_complete p (x ∷ xs) h =
      rw (h 0 p x refl refl, increasing_from_complete x xs (λ i. h (suc i)))

  below_all :
      IsTransitive m
      → (p : T) (xs : List T) (i : ℕ) (a : T) → increasing_from m p xs ≡ true
      → get_elem? xs i ≡ some a
      → less m p a ≡ true
  unfolding increasing_from
  below_all tr p [] i a h e = ground arith
  below_all tr p (x ∷ xs) zero a h e = ground (arith, increasing_from_cons p x xs h)
  below_all tr p (x ∷ xs) (suc i) a h e =
      tr p x a (increasing_from_cons p x xs h).0
        (below_all tr x xs i a (increasing_from_cons p x xs h).1 e)

  -- `checked_boundaries` accepts a list exactly when it is not empty and each boundary is below the
  -- next one, and returns it as it is.
  pub checked_boundaries_iff :
      (xs ys : List T)
      → (checked_boundaries m xs ≡ ok ys) ↔ ((xs ≢ []) × IsIncreasing m xs × (ys ≡ xs))
  unfolding checked_boundaries increasing
  checked_boundaries_iff [] ys = (λ h. ground arith, λ h. absurd (h.0 refl))
  checked_boundaries_iff (x ∷ xs) ys = elim (Bool-cases (increasing_from m x xs)) [
    | inl e ↦
        (λ h. (λ z. ground arith, increasing_from_sound x xs e, ground arith), λ h. rw (e, h.2))
    | inr e ↦ (λ h. ground arith, λ h. ground (arith, increasing_from_complete x xs h.1))
  ]

  module _ (value : T) where
    abbrev split : List T → ℕ
    split xs = partition_point (λ b. less m b value) xs

    split-bound : (xs : List T) → split xs ≤ length xs
    unfolding partition_point
    split-bound [] = omega arith
    split-bound (x ∷ xs) = ground (arith, split-bound xs)

    split_sound :
        (xs : List T) (i : ℕ) (b : T)
        → get_elem? xs i ≡ some b
        → i < split xs
        → less m b value ≡ true
    unfolding partition_point
    split_sound [] i b e h = ground arith
    split_sound (x ∷ xs) zero b e h = ground arith
    split_sound (x ∷ xs) (suc i) b e h = ground (arith, split_sound xs i b e)

    split_complete :
        IsTransitive m
        → (p : T) (xs : List T) (i : ℕ) (b : T) → increasing_from m p xs ≡ true
        → get_elem? (p ∷ xs) i ≡ some b
        → less m b value ≡ true
        → i < split (p ∷ xs)
    unfolding partition_point
    split_complete tr p xs zero b up e h = ground arith
    split_complete tr p [] (suc i) b up e h = ground arith
    split_complete tr p (x ∷ xs) (suc i) b up e h =
        let low = tr p b value (below_all tr p (x ∷ xs) i b up e) h in
        let rest = split_complete tr x xs i b (increasing_from_cons p x xs up).1 e h in ground arith

  pub bucket_index-bound : (xs : List T) (value : T) → bucket_index m xs value ≤ length xs
  unfolding bucket_index
  bucket_index-bound xs value = split-bound value xs

  -- Whether the bucket at the index takes a value: every boundary before the index is below the value,
  -- and the one at the index, if there is one, is not.
  abbrev pub takes : List T → ℕ → T → Bool
  takes [] zero value = true
  takes [] (suc i) value = false
  takes (x ∷ xs) zero value = not (less m x value)
  takes (x ∷ xs) (suc i) value = less m x value && takes xs i value

  pub bucket_index-takes :
      (xs : List T) (i : ℕ) (value : T) → (bucket_index m xs value == i) ≡ takes xs i value
  unfolding bucket_index partition_point
  bucket_index-takes [] zero value = refl
  bucket_index-takes [] (suc i) value = ground arith
  bucket_index-takes (x ∷ xs) zero value = elim (Bool-cases (less m x value)) [
    | inl e ↦ rw e (ground arith)
    | inr e ↦ rw e refl
  ]
  bucket_index-takes (x ∷ xs) (suc i) value =
      let rest = bucket_index-takes xs i value in
      elim (Bool-cases (less m x value)) [
        | inl e ↦ rw e (ground (arith, rest))
        | inr e ↦ rw e (ground arith)
      ]

  -- For boundaries that `checked_boundaries` accepted, with a transitive `<`: `bucket_index` is at
  -- most the number of boundaries, and a boundary is before the index exactly when it is below the
  -- value.
  pub bucket_index_lem :
      IsTransitive m
      → (xs ys : List T) (value : T) → checked_boundaries m xs ≡ ok ys
      → (bucket_index m ys value ≤ length ys)
        × ((i : ℕ) (b : T)
            → get_elem? ys i ≡ some b
            → (i < bucket_index m ys value) ↔ (less m b value ≡ true))
  unfolding checked_boundaries increasing bucket_index
  bucket_index_lem tr [] ys value h = ground arith
  bucket_index_lem tr (x ∷ xs) ys value h = elim (Bool-cases (increasing_from m x xs)) [
    | inl e ↦
        let same = ((checked_boundaries_iff (x ∷ xs) ys).0 h).2 in
        rw same (
          split-bound value (x ∷ xs),
          λ i b at. (split_sound value (x ∷ xs) i b at, split_complete value tr x xs i b e at),
        )
    | inr e ↦ ground arith
  ]
