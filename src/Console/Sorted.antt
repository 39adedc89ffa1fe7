-- ===== src/Console/Sorted.antt =====
-- What the console prints does not go by the order in which a map hands out its series
-- (src/console/dto.rs).
use mathlib.Core.List.{Permᴰ}
use mathlib.Core.Path.{subst, ap₂}
use ohnotel.Base.{
  ℕ, Text, List, [], ◌∷◌, none, length, length-replicate, replicate, ◌==◌, true, ◌⊎◌, ◌≡◌, ◌≢◌,
  refl, sym, ap, ◌∙◌, All, inl, inr, arith,
}
use ohnotel.Model.Order.{Ord}
use ohnotel.Model.Lexicographic.{number_order, list_order, pair_order}
use ohnotel.Model.Sorting.Distinct.{IsDistinctBy}
use ohnotel.Model.Sorting.Unique.{sort_by-perm_eq, All-perm}
use ohnotel.Model.Value.Laws.{key_value_order}
use ohnotel.Model.Display.{Format}
use ohnotel.Console.{
  Bucket, Histogram, DataPointValue, DataPoint, Metric, widen, column_widths,
  histogram_column_widths, header, point_key, sorted_points, render,
}
use ohnotel.Console.Columns.{HasBuckets, length-widen, histogram_column_widths_first}

module _ {N : Type 0} (show : N → Text) where
  widen_comm :
      (ws : List ℕ) (bs cs : List (Bucket N))
      → widen show (widen show ws bs) cs ≡ widen show (widen show ws cs) bs
  unfolding widen
  widen_comm [] [] [] = refl
  widen_comm [] [] (c ∷ cs) = refl
  widen_comm [] (b ∷ bs) [] = refl
  widen_comm [] (b ∷ bs) (c ∷ cs) = refl
  widen_comm (w ∷ ws) [] cs = refl
  widen_comm (w ∷ ws) (b ∷ bs) [] = refl
  widen_comm (w ∷ ws) (b ∷ bs) (c ∷ cs) = ap₂ (λ v vs. v ∷ vs) (omega arith) (widen_comm ws bs cs)

  module _ {F : Type 0} where
    column_widths-cons :
        (dp : DataPoint F N) (dps : List (DataPoint F N)) (ws : List ℕ) (h : Histogram N)
        → dp.value ≡ DataPointValue.histogram h
        → length h.buckets ≡ length ws
        → column_widths show (dp ∷ dps) ws ≡ column_widths show dps (widen show ws h.buckets)
    unfolding column_widths
    column_widths-cons dp dps ws h e same =
        let test : (length h.buckets == length ws) ≡ true = ground arith in rw (e, test) refl

    buckets_of_widen :
        (ws : List ℕ) (bs : List (Bucket N)) (dps : List (DataPoint F N))
        → All (HasBuckets show (length ws)) dps
        → All (HasBuckets show (length (widen show ws bs))) dps
    buckets_of_widen ws bs dps h =
        subst (λ n. All (HasBuckets show n) dps) (sym (length-widen show ws bs)) h

    column_widths-swap :
        (a b : DataPoint F N) (dps : List (DataPoint F N)) (ws : List ℕ)
        → HasBuckets show (length ws) a
        → HasBuckets show (length ws) b
        → column_widths show (a ∷ b ∷ dps) ws ≡ column_widths show (b ∷ a ∷ dps) ws
    column_widths-swap a b dps ws (h, e, same) (j, f, same') =
        let wide = length-widen show ws h.buckets in
        let wide' = length-widen show ws j.buckets in
        column_widths-cons a (b ∷ dps) ws h e same
        ∙ column_widths-cons b dps (widen show ws h.buckets) j f (same' ∙ sym wide)
        ∙ ap (column_widths show dps) (widen_comm ws h.buckets j.buckets)
        ∙ sym (column_widths-cons a dps (widen show ws j.buckets) h e (same ∙ sym wide'))
        ∙ sym (column_widths-cons b (a ∷ dps) ws j f same')

    column_widths-perm :
        {xs ys : List (DataPoint F N)}
        → Permᴰ xs ys
        → (ws : List ℕ) → All (HasBuckets show (length ws)) xs
        → column_widths show xs ws ≡ column_widths show ys ws
    column_widths-perm Permᴰ.nil ws h = refl
    column_widths-perm (Permᴰ.cons {a = a} {l₁ = l₁} {l₂ = l₂} e q) ws ((h, k, same), rest) =
        column_widths-cons a l₁ ws h k same
        ∙ column_widths-perm q (widen show ws h.buckets) (buckets_of_widen ws h.buckets l₁ rest)
        ∙ sym (column_widths-cons a l₂ ws h k same)
        ∙ ap (λ z. column_widths show (z ∷ l₂) ws) e
    column_widths-perm (Permᴰ.swap {a = a} {b = b} {b' = b'} {l = l} e f) ws h =
        column_widths-swap a b l ws h.0 h.1.0
        ∙ ap (λ z. column_widths show (b ∷ z ∷ l) ws) e
        ∙ ap (λ z. column_widths show (z ∷ b' ∷ l) ws) f
    column_widths-perm (Permᴰ.trans q r) ws h =
        column_widths-perm q ws h
        ∙ column_widths-perm r ws (All-perm (HasBuckets show (length ws)) q h)

    abbrev pub IsNumber : DataPoint F N → Type 0
    IsNumber dp = (n : N) × (dp.value ≡ DataPointValue.number n)

    -- The points of one metric: all numbers, or histograms with the same boundaries.
    abbrev pub AreAlike : List (DataPoint F N) → Type 0
    AreAlike dps = All IsNumber dps ⊎ ((n : ℕ) × All (HasBuckets show n) dps)

    no_widths :
        (dps : List (DataPoint F N)) → All IsNumber dps → histogram_column_widths show dps ≡ none
    unfolding histogram_column_widths
    no_widths [] h = refl
    no_widths (dp ∷ dps) h = rw h.0.1 refl

    widths_from :
        (n : ℕ) (dps : List (DataPoint F N))
        → dps ≢ []
        → All (HasBuckets show n) dps
        → histogram_column_widths show dps ≡ column_widths show dps (replicate n 0)
    widths_from n [] some_point h = absurd (some_point refl)
    widths_from n (dp ∷ dps) some_point ((h, e, same), rest) =
        histogram_column_widths_first show dp dps h e
        ∙ ap (λ k. column_widths show (dp ∷ dps) (replicate k 0)) same

    not_empty : {xs ys : List (DataPoint F N)} → Permᴰ xs ys → xs ≢ [] → ys ≢ []
    not_empty Permᴰ.nil h = h
    not_empty (Permᴰ.cons e q) h = λ k. cc
    not_empty (Permᴰ.swap e f) h = λ k. cc
    not_empty (Permᴰ.trans q r) h = not_empty r (not_empty q h)

    histogram_column_widths-perm :
        {xs ys : List (DataPoint F N)}
        → Permᴰ xs ys
        → AreAlike xs
        → histogram_column_widths show xs ≡ histogram_column_widths show ys
    histogram_column_widths-perm {xs = xs} {ys = ys} q (inl numbers) =
        no_widths xs numbers ∙ sym (no_widths ys (All-perm IsNumber q numbers))
    histogram_column_widths-perm {xs = []} {ys = ys} q (inr alike) =
        no_widths [] tt ∙ sym (no_widths ys (All-perm IsNumber q tt))
    histogram_column_widths-perm {xs = x ∷ xs} {ys = ys} q (inr (n, alike)) =
        let zeros = replicate n 0 in
        let wide =
          subst (λ k. All (HasBuckets show k) (x ∷ xs)) (sym (length-replicate n 0)) alike in
        widths_from n (x ∷ xs) (λ k. cc) alike
        ∙ column_widths-perm q zeros wide
        ∙ sym (widths_from n ys (not_empty q (λ k. cc)) (All-perm (HasBuckets show n) q alike))

    module _ ⦃f : Ord F⦄ where
      -- The rendered metric is the same for the same points in any order, if no two have the same
      -- time and attributes and all are numbers or all are histograms with one number of buckets.
      pub render-perm :
          (format : Format F) (unix_epoch : ℕ) (m : Metric F N) (points : List (DataPoint F N))
          → Permᴰ m.data_points points
          → IsDistinctBy (point_key show) m.data_points
          → AreAlike m.data_points
          → render show format unix_epoch (record m { data_points = points })
            ≡ render show format unix_epoch m
      unfolding render sorted_points header
      render-perm format unix_epoch m points q apart alike =
          rw
            (
              sym (sort_by-perm_eq (point_key show) q apart),
              sym (histogram_column_widths-perm q alike),
            )
            refl
