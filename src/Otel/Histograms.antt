-- ===== src/Otel/Histograms.antt =====
-- What `into_wire` of src/otel/dto.rs sends of histograms.
use ohnotel.Base.{
  ℕ, ◌+◌, ◌^◌, ◌<◌, List, [], ◌∷◌, Option, none, some, Result, ok, ok-injective, ◌≡◌, ◌≢◌, ◌↔◌,
  refl, sym, ap, ◌∙◌, Result-cases, Option-cases, inl, inr, arith,
}
use ohnotel.Timer.{Duration, align_ts}
use ohnotel.Atomic.Histogram
use ohnotel.Model.Value.{KeyValue}
use ohnotel.Observe.{Snapshot, Series}
use ohnotel.Prometheus.Render.{NameIdentity}
use ohnotel.Wire.{Stop, SystemClock, or_stop}
use ohnotel.Wire.Points.{Pairwise, Pairwise-imp, taken, wire_iff}
use ohnotel.Otel.{
  AnyValue, map_attrs, map_time, HistogramDataPoint, Data, Metric, metric_of, temporality, bounds,
  extremum, histogram_point, histogram_wire,
}
use ohnotel.Otel.Export.{map_time_iff, or_stop_iff}

module _ {N T : Type 0} (to_f64 : T → Option N) where
  abbrev pub IsFloat : T → N → Type 0
  IsFloat x n = to_f64 x ≡ some n

  abbrev pub IsExtremum : Option T → Option N → Type 0
  IsExtremum none none = Unit
  IsExtremum none (some n) = ⊥
  IsExtremum (some x) none = ⊥
  IsExtremum (some x) (some n) = IsFloat x n

  IsFloat-bounds : (bs : List T) (ns : List N) → bounds to_f64 bs ≡ ok ns → Pairwise IsFloat bs ns
  unfolding bounds
  IsFloat-bounds [] [] h = tt
  IsFloat-bounds [] (n ∷ ns) h = absurd (ground arith)
  IsFloat-bounds (b ∷ bs) ns h = elim (Option-cases (to_f64 b)) [
    | inl missing ↦ absurd (ground (arith, (rw missing at h)))
    | inr (n, found) ↦ elim (Result-cases (bounds to_f64 bs)) [
      | inr (bad, e) ↦ absurd (ground (arith, (rw (found, e) at h)))
      | inl (rest, e) ↦
          let same : n ∷ rest ≡ ns = ok-injective (rw (found, e) at h) in
          rw (sym same) (found, IsFloat-bounds bs rest e)
    ]
  ]

  bounds-IsFloat : (bs : List T) (ns : List N) → Pairwise IsFloat bs ns → bounds to_f64 bs ≡ ok ns
  unfolding bounds
  bounds-IsFloat [] [] h = refl
  bounds-IsFloat [] (n ∷ ns) h = elim h [ ]
  bounds-IsFloat (b ∷ bs) [] h = elim h [ ]
  bounds-IsFloat (b ∷ bs) (n ∷ ns) h = rw (h.0, bounds-IsFloat bs ns h.1) refl

  IsExtremum-extremum : (x : Option T) (n : Option N) → extremum to_f64 x ≡ ok n → IsExtremum x n
  IsExtremum-extremum none none h = tt
  IsExtremum-extremum none (some n) h = absurd (ground arith)
  IsExtremum-extremum (some x) n h = elim (Option-cases (to_f64 x)) [
    | inl missing ↦ absurd (ground (arith, (rw missing at h)))
    | inr (m, found) ↦ let same : some m ≡ n = ok-injective (rw found at h) in rw (sym same) found
  ]

  extremum-IsExtremum : (x : Option T) (n : Option N) → IsExtremum x n → extremum to_f64 x ≡ ok n
  extremum-IsExtremum none none h = refl
  extremum-IsExtremum none (some n) h = elim h [ ]
  extremum-IsExtremum (some x) none h = elim h [ ]
  extremum-IsExtremum (some x) (some n) h = rw h refl

module _ {F W N : Type 0} (pb : AnyValue F W) (clock : SystemClock) {T : Type 0}
    (to_f64 : T → Option N) where
  -- The point of one snapshot.
  pub record SentHistogram (start_time start_nanos : ℕ) (align : Option Duration)
      (taken : List (KeyValue F) × Snapshot (Histogram.Snapshot T)) (p : HistogramDataPoint W N)
      : Type 0 where
    pub attributes : p.attributes ≡ map_attrs pb taken.0
    pub starts : p.start_time_unix_nano ≡ start_nanos
    pub time :
        align_ts clock.limit taken.1.ts taken.1.seq_id start_time align
        ≡ some (clock.unix_epoch + p.time_unix_nano)
    pub fits : p.time_unix_nano < 2 ^ 64
    pub counts : (p.count ≡ taken.1.value.count) × (p.bucket_counts ≡ taken.1.value.bucket_counts)
    pub sum : IsFloat to_f64 taken.1.value.sum p.sum
    pub explicit_bounds : Pairwise (IsFloat to_f64) taken.1.value.boundaries p.explicit_bounds
    pub min : IsExtremum to_f64 taken.1.value.min p.min
    pub max : IsExtremum to_f64 taken.1.value.max p.max

  SentHistogram-histogram_point :
      (start_time start_nanos : ℕ) (align : Option Duration) (attrs : List (KeyValue F))
      (s : Snapshot (Histogram.Snapshot T)) (p : HistogramDataPoint W N)
      → histogram_point pb clock to_f64 start_time start_nanos align attrs s ≡ ok p
      → SentHistogram start_time start_nanos align (attrs, s) p
  unfolding histogram_point
  SentHistogram-histogram_point start_time start_nanos align attrs s p h =
      elim (Option-cases (align_ts clock.limit s.ts s.seq_id start_time align)) [
        | inl e ↦ absurd (ground (arith, (rw e at h)))
        | inr (t, e) ↦ elim (Result-cases (map_time clock.unix_epoch t)) [
          | inr (bad, e') ↦ absurd (ground (arith, (rw (e, e') at h)))
          | inl (n, e') ↦ elim (Option-cases (to_f64 s.value.sum)) [
            | inl missing ↦ absurd (ground (arith, (rw (e, e', missing) at h)))
            | inr (total, known) ↦ elim (Result-cases (bounds to_f64 s.value.boundaries)) [
              | inr (bad, b) ↦ absurd (ground (arith, (rw (e, e', known, b) at h)))
              | inl (bs, b) ↦ elim (Result-cases (extremum to_f64 s.value.min)) [
                | inr (bad, l) ↦ absurd (ground (arith, (rw (e, e', known, b, l) at h)))
                | inl (least, l) ↦ elim (Result-cases (extremum to_f64 s.value.max)) [
                  | inr (bad, g) ↦ absurd (ground (arith, (rw (e, e', known, b, l, g) at h)))
                  | inl (greatest, g) ↦
                      let made = ok-injective (rw (e, e', known, b, l, g) at h) in
                      let (same, fits) = (map_time_iff clock.unix_epoch t n).0 e' in
                      rw (sym made) (record {
                        attributes = refl;
                        starts = refl;
                        time = e ∙ ap some same;
                        fits = fits;
                        counts = (refl, refl);
                        sum = known;
                        explicit_bounds = IsFloat-bounds to_f64 s.value.boundaries bs b;
                        min = IsExtremum-extremum to_f64 s.value.min least l;
                        max = IsExtremum-extremum to_f64 s.value.max greatest g;
                      })
                ]
              ]
            ]
          ]
        ]
      ]

  histogram_point-SentHistogram :
      (start_time start_nanos : ℕ) (align : Option Duration) (attrs : List (KeyValue F))
      (s : Snapshot (Histogram.Snapshot T)) (p : HistogramDataPoint W N)
      → SentHistogram start_time start_nanos align (attrs, s) p
      → histogram_point pb clock to_f64 start_time start_nanos align attrs s ≡ ok p
  unfolding histogram_point
  histogram_point-SentHistogram start_time start_nanos align attrs s p sent =
      let when =
        (map_time_iff clock.unix_epoch (clock.unix_epoch + p.time_unix_nano) p.time_unix_nano).1
          (refl, sent.fits) in
      let bs = bounds-IsFloat to_f64 s.value.boundaries p.explicit_bounds sent.explicit_bounds in
      let least = extremum-IsExtremum to_f64 s.value.min p.min sent.min in
      let greatest = extremum-IsExtremum to_f64 s.value.max p.max sent.max in
      rw (sent.time, when, sent.sum, bs, least, greatest)
        (ap ok
          (rw (sym sent.attributes, sym sent.starts, sym sent.counts.0, sym sent.counts.1) refl))

  -- A series of histograms becomes a metric exactly if its start is not before the Unix epoch and
  -- fits into a `u64` and the points, at least one, are those of its snapshots in order, each with
  -- the attributes, the start, its aligned time, the counters as they are, and the sum, the bounds
  -- and the extrema that are there as floats.
  pub histogram_wire_iff :
      (id : NameIdentity) (align : Option Duration) (s : Series (KeyValue F) (Histogram.Snapshot T))
      (metric : Metric W N)
      → (histogram_wire pb clock to_f64 id align s ≡ ok (some metric)) ↔ (
          (start : ℕ) × (points : List (HistogramDataPoint W N)) × (s.start_time
            ≡ clock.unix_epoch + start)
          × (start < 2 ^ 64)
          × Pairwise (SentHistogram s.start_time start align) (taken s.series) points
          × (points ≢ [])
          × (metric ≡ metric_of id (Data.histogram points (temporality s.observe_mode))))
  unfolding histogram_wire
  histogram_wire_iff id align s metric =
      let point = λ (start : ℕ). histogram_point pb clock to_f64 s.start_time start align in
      let starts = or_stop (map_time clock.unix_epoch s.start_time) in
      let make : List (HistogramDataPoint W N) → Result (Metric W N) Stop =
        λ points. ok (metric_of id (Data.histogram points (temporality s.observe_mode))) in
      let (there, back) = wire_iff starts point make s.series metric in
      (
        λ h.
            let x = there h in
            let (same, fits) =
              (map_time_iff clock.unix_epoch s.start_time x.start).0
                ((or_stop_iff _ x.start).0 x.starts) in
            (
              x.start,
              x.points,
              same,
              fits,
              Pairwise-imp (taken s.series) x.points
                  (λ a. SentHistogram-histogram_point s.start_time x.start align a.0 a.1)
                  x.are_points,
              x.some_point,
              sym (ok-injective x.made),
            ),
        λ (start, points, same, fits, sent, some_point, is_metric). back (record {
          start = start;
          points = points;
          starts =
              (or_stop_iff _ start).1
                ((map_time_iff clock.unix_epoch s.start_time start).1 (same, fits));
          are_points =
              Pairwise-imp (taken s.series) points
                (λ a. histogram_point-SentHistogram s.start_time start align a.0 a.1) sent;
          some_point = some_point;
          made = ap ok (sym is_metric);
        }),
      )
