-- ===== src/Console/Columns.antt =====
-- The columns of the console's histograms (src/console/dto.rs).
use mathlib.Core.Path.{subst}
use ohnotel.Base.{
  ℕ, suc, ◌+◌, ◌-◌, ◌≤◌, Text, true, List, [], ◌∷◌, Option, none, some, length, length-append,
  length-replicate, replicate, ◌==◌, ◌≡◌, refl, sym, ap, ◌∙◌, All, arith,
}
use ohnotel.Wire.Points.{Pairwise, Pairwise-imp}
use ohnotel.Console.{
  Bucket, Histogram, DataPointValue, DataPoint, render_bucket, render_cell, widen, as_histogram,
  column_widths, histogram_column_widths,
}

module _ {N : Type 0} (show : N → Text) where
  abbrev Fits : List ℕ → List (Bucket N) → Type 0
  Fits = Pairwise (λ (w : ℕ) (b : Bucket N). length (render_bucket show b) ≤ w)

  abbrev Widened : List ℕ → List ℕ → Type 0
  Widened = Pairwise (λ (v w : ℕ). v ≤ w)

  Widened-refl : (ws : List ℕ) → Widened ws ws
  Widened-refl [] = tt
  Widened-refl (w ∷ ws) = (omega arith, Widened-refl ws)

  Widened-trans : (us vs ws : List ℕ) → Widened us vs → Widened vs ws → Widened us ws
  Widened-trans [] [] [] h k = tt
  Widened-trans [] [] (w ∷ ws) h k = elim k [ ]
  Widened-trans [] (v ∷ vs) ws h k = elim h [ ]
  Widened-trans (u ∷ us) [] ws h k = elim h [ ]
  Widened-trans (u ∷ us) (v ∷ vs) [] h k = elim k [ ]
  Widened-trans (u ∷ us) (v ∷ vs) (w ∷ ws) h k =
      (omega (arith, h.0, k.0), Widened-trans us vs ws h.1 k.1)

  Fits-Widened : (vs ws : List ℕ) (bs : List (Bucket N)) → Widened vs ws → Fits vs bs → Fits ws bs
  Fits-Widened [] [] bs h k = k
  Fits-Widened [] (w ∷ ws) bs h k = elim h [ ]
  Fits-Widened (v ∷ vs) [] bs h k = elim h [ ]
  Fits-Widened (v ∷ vs) (w ∷ ws) [] h k = elim k [ ]
  Fits-Widened (v ∷ vs) (w ∷ ws) (b ∷ bs) h k =
      (omega (arith, h.0, k.0), Fits-Widened vs ws bs h.1 k.1)

  widen-Widened : (ws : List ℕ) (bs : List (Bucket N)) → Widened ws (widen show ws bs)
  unfolding widen
  widen-Widened ws [] = Widened-refl ws
  widen-Widened [] (b ∷ bs) = tt
  widen-Widened (w ∷ ws) (b ∷ bs) = (omega arith, widen-Widened ws bs)

  widen-Fits :
      (ws : List ℕ) (bs : List (Bucket N)) → length bs ≡ length ws → Fits (widen show ws bs) bs
  unfolding widen
  widen-Fits [] [] h = tt
  widen-Fits [] (b ∷ bs) h = absurd (omega (arith, h))
  widen-Fits (w ∷ ws) [] h = absurd (omega (arith, h))
  widen-Fits (w ∷ ws) (b ∷ bs) h = (omega arith, widen-Fits ws bs (omega (arith, h)))

  pub length-widen : (ws : List ℕ) (bs : List (Bucket N)) → length (widen show ws bs) ≡ length ws
  unfolding widen
  length-widen ws [] = refl
  length-widen [] (b ∷ bs) = refl
  length-widen (w ∷ ws) (b ∷ bs) = ap suc (length-widen ws bs)

  -- A cell that fits takes its column exactly.
  length-render_cell :
      (w : ℕ) (b : Bucket N)
      → length (render_bucket show b) ≤ w
      → length (render_cell show (some w) b) ≡ w
  unfolding render_cell
  length-render_cell w b h =
      length-append (render_bucket show b) _
      ∙ ap (λ n. length (render_bucket show b) + n)
          (length-replicate (w - length (render_bucket show b)) 32)
      ∙ omega (arith, h)

  Widened-length : (vs ws : List ℕ) → Widened vs ws → length ws ≡ length vs
  Widened-length [] [] h = refl
  Widened-length [] (w ∷ ws) h = elim h [ ]
  Widened-length (v ∷ vs) [] h = elim h [ ]
  Widened-length (v ∷ vs) (w ∷ ws) h = ap suc (Widened-length vs ws h.1)

  module _ {F : Type 0} where
    abbrev FitsPoint : List ℕ → DataPoint F N → Type 0
    FitsPoint widths dp =
        (h : Histogram N) × (dp.value ≡ DataPointValue.histogram h) × Fits widths h.buckets

    abbrev pub HasBuckets : ℕ → DataPoint F N → Type 0
    HasBuckets n dp =
        (h : Histogram N) × (dp.value ≡ DataPointValue.histogram h) × (length h.buckets ≡ n)

    column_widths-FitsPoint :
        (dps : List (DataPoint F N)) (ws : List ℕ)
        → All (HasBuckets (length ws)) dps
        → (out : List ℕ) × (column_widths show dps ws ≡ some out)
          × Widened ws out
          × All (FitsPoint out) dps
    unfolding column_widths
    column_widths-FitsPoint [] ws h = (ws, refl, Widened-refl ws, tt)
    column_widths-FitsPoint (dp ∷ dps) ws ((h, e, same), rest) =
        let ws' = widen show ws h.buckets in
        let (out, found, wider, fits) =
          column_widths-FitsPoint dps ws' (rw (length-widen ws h.buckets) rest) in
        let test : (length h.buckets == length ws) ≡ true = ground arith in
        (
          out,
          rw (e, test) found,
          Widened-trans ws ws' out (widen-Widened ws h.buckets) wider,
          ((h, e, Fits-Widened ws' out h.buckets wider (widen-Fits ws h.buckets same)), fits),
        )

    -- One width for each column of each histogram.
    abbrev pub LinesUp : List ℕ → DataPoint F N → Type 0
    LinesUp widths dp =
        (h : Histogram N) × (dp.value ≡ DataPointValue.histogram h)
        × Pairwise (λ (w : ℕ) (b : Bucket N). length (render_cell show (some w) b) ≡ w) widths
            h.buckets

    LinesUp-FitsPoint :
        (widths : List ℕ) (dps : List (DataPoint F N))
        → All (FitsPoint widths) dps
        → All (LinesUp widths) dps
    LinesUp-FitsPoint widths [] h = tt
    LinesUp-FitsPoint widths (dp ∷ dps) ((h, e, fits), rest) = (
      (h, e, Pairwise-imp widths h.buckets length-render_cell fits),
      LinesUp-FitsPoint widths dps rest,
    )

    from_first : List (DataPoint F N) → Option (Histogram N) → Option (List ℕ)
    from_first dps none = none
    from_first dps (some h) = column_widths show dps (replicate (length h.buckets) 0)

    pub histogram_column_widths_first :
        (dp : DataPoint F N) (dps : List (DataPoint F N)) (h : Histogram N)
        → dp.value ≡ DataPointValue.histogram h
        → histogram_column_widths show (dp ∷ dps)
          ≡ column_widths show (dp ∷ dps) (replicate (length h.buckets) 0)
    unfolding histogram_column_widths from_first
    histogram_column_widths_first dp dps h e =
        ap (λ v. from_first (dp ∷ dps) (as_histogram show v)) e

    -- If all points, at least one, are histograms with one number of buckets, there is a width for
    -- each bucket, and every cell is written in exactly the width of its column.
    pub histogram_column_widths_lem :
        (dp : DataPoint F N) (dps : List (DataPoint F N)) (n : ℕ)
        → All (HasBuckets n) (dp ∷ dps)
        → (widths : List ℕ) × (histogram_column_widths show (dp ∷ dps) ≡ some widths)
          × (length widths ≡ n)
          × All (LinesUp widths) (dp ∷ dps)
    histogram_column_widths_lem dp dps n ((h, e, same), rest) =
        let zeros = replicate (length h.buckets) 0 in
        let wide : length zeros ≡ n = length-replicate (length h.buckets) 0 ∙ same in
        let (out, found, wider, fits) =
          column_widths-FitsPoint (dp ∷ dps) zeros
            (subst (λ k. All (HasBuckets k) (dp ∷ dps)) (sym wide) ((h, e, same), rest)) in
        (
          out,
          histogram_column_widths_first dp dps h e ∙ found,
          Widened-length zeros out wider ∙ wide,
          LinesUp-FitsPoint out (dp ∷ dps) fits,
        )
