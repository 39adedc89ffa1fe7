-- ===== src/Otel/Export.antt =====
-- What `into_wire` of src/otel/dto.rs sends.
use ohnotel.Base.{
  ℕ, ◌+◌, ◌^◌, ◌<◌, true, List, [], Option, some, Result, ok, ok-injective, err, ◌>>=◌, ◌≡◌, ◌≢◌,
  ◌↔◌, refl, sym, ap, ◌∙◌, Result-cases, Option-cases, inl, inr, arith,
}
use ohnotel.Error.{Error}
use ohnotel.Timer.{Duration, align_ts}
use ohnotel.Model.Value.{KeyValue}
use ohnotel.Observe.{Mode, Kind, Snapshot, Series}
use ohnotel.Prometheus.Render.{NameIdentity}
use ohnotel.Wire.{Stop, SystemClock, or_stop}
use ohnotel.Wire.Points.{Pairwise, Pairwise-imp, taken, wire_iff}
use ohnotel.Otel.{
  AnyValue, map_attrs, map_time, NumberValue, NumberDataPoint, Data, Metric, metric_of, temporality,
  number_point, number_data, number_wire,
}

pub map_time_iff :
    (unix_epoch t n : ℕ) → (map_time unix_epoch t ≡ ok n) ↔ ((t ≡ unix_epoch + n) × (n < 2 ^ 64))
unfolding map_time
map_time_iff unix_epoch t n = (λ h. ground arith, λ h. ground arith)

pub or_stop_iff : {A : Type 0} (r : Result A Error) (a : A) → (or_stop r ≡ ok a) ↔ (r ≡ ok a)
or_stop_iff (ok b) a = (λ h. ground arith, λ h. ground arith)
or_stop_iff (err e) a = (λ h. absurd (ground arith), λ h. absurd (ground arith))

module _ {F W N : Type 0} (pb : AnyValue F W) (clock : SystemClock) {T : Type 0}
    (into_number_value : T → Result (NumberValue N) Error) where
  -- The point of one snapshot.
  pub record Sent (start_time start_nanos : ℕ) (align : Option Duration)
      (taken : List (KeyValue F) × Snapshot T) (p : NumberDataPoint W N) : Type 0 where
    pub attributes : p.attributes ≡ map_attrs pb taken.0
    pub starts : p.start_time_unix_nano ≡ start_nanos
    pub time :
        align_ts clock.limit taken.1.ts taken.1.seq_id start_time align
        ≡ some (clock.unix_epoch + p.time_unix_nano)
    pub fits : p.time_unix_nano < 2 ^ 64
    pub value : into_number_value taken.1.value ≡ ok p.value

  Sent-number_point :
      (start_time start_nanos : ℕ) (align : Option Duration) (attrs : List (KeyValue F))
      (s : Snapshot T) (p : NumberDataPoint W N)
      → number_point pb clock into_number_value start_time start_nanos align attrs s ≡ ok p
      → Sent start_time start_nanos align (attrs, s) p
  unfolding number_point
  Sent-number_point start_time start_nanos align attrs s p h =
      elim (Option-cases (align_ts clock.limit s.ts s.seq_id start_time align)) [
        | inl e ↦ absurd (ground (arith, (rw e at h)))
        | inr (t, e) ↦ elim (Result-cases (map_time clock.unix_epoch t)) [
          | inr (bad, e') ↦ absurd (ground (arith, (rw (e, e') at h)))
          | inl (n, e') ↦ elim (Result-cases (into_number_value s.value)) [
            | inr (bad, e'') ↦ absurd (ground (arith, (rw (e, e', e'') at h)))
            | inl (v, e'') ↦
                let made = ok-injective (rw (e, e', e'') at h) in
                let (same, fits) = (map_time_iff clock.unix_epoch t n).0 e' in
                rw (sym made) (record {
                  attributes = refl;
                  starts = refl;
                  time = e ∙ ap some same;
                  fits = fits;
                  value = e'';
                })
          ]
        ]
      ]

  number_point-Sent :
      (start_time start_nanos : ℕ) (align : Option Duration) (attrs : List (KeyValue F))
      (s : Snapshot T) (p : NumberDataPoint W N)
      → Sent start_time start_nanos align (attrs, s) p
      → number_point pb clock into_number_value start_time start_nanos align attrs s ≡ ok p
  unfolding number_point
  number_point-Sent start_time start_nanos align attrs s p sent =
      let when =
        (map_time_iff clock.unix_epoch (clock.unix_epoch + p.time_unix_nano) p.time_unix_nano).1
          (refl, sent.fits) in
      rw (sent.time, when, sent.value) (ap ok (rw (sym sent.attributes, sym sent.starts) refl))

  -- What a metric says of its points. There is none of numbers for a histogram.
  abbrev pub IsMetric :
      NameIdentity → Kind → Mode → List (NumberDataPoint W N) → Metric W N → Type 0
  IsMetric id Kind.counter mode points metric =
      metric ≡ metric_of id (Data.sum points (temporality mode) true)
  IsMetric id Kind.gauge mode points metric = metric ≡ metric_of id (Data.gauge points)
  IsMetric id Kind.histogram mode points metric = ⊥

  abbrev make : NameIdentity → Kind → Mode → List (NumberDataPoint W N) → Result (Metric W N) Stop
  make id kind mode points = number_data kind (temporality mode) points >>= λ d. ok (metric_of id d)

  make_iff :
      (id : NameIdentity) (kind : Kind) (mode : Mode) (points : List (NumberDataPoint W N))
      (metric : Metric W N)
      → (make id kind mode points ≡ ok metric) ↔ IsMetric id kind mode points metric
  make_iff id Kind.counter mode points metric = (λ h. sym (ok-injective h), λ h. ap ok (sym h))
  make_iff id Kind.gauge mode points metric = (λ h. sym (ok-injective h), λ h. ap ok (sym h))
  make_iff id Kind.histogram mode points metric = (λ h. absurd (ground arith), λ h. elim h [ ])

  -- A series of numbers becomes a metric exactly if its start is not before the Unix epoch and fits
  -- into a `u64`, the points, at least one, are those of its snapshots in order, each with the
  -- attributes, the start, its aligned time, which fits as well, and its converted value, and the
  -- metric is a monotonic sum of the temporality of the mode for a counter, or a gauge; a series of
  -- kind histogram never becomes one.
  pub number_wire_iff :
      (id : NameIdentity) (align : Option Duration) (s : Series (KeyValue F) T)
      (metric : Metric W N)
      → (number_wire pb clock into_number_value id align s ≡ ok (some metric)) ↔ (
          (start : ℕ) × (points : List (NumberDataPoint W N)) × (s.start_time
            ≡ clock.unix_epoch + start)
          × (start < 2 ^ 64)
          × Pairwise (Sent s.start_time start align) (taken s.series) points
          × (points ≢ [])
          × IsMetric id s.kind s.observe_mode points metric)
  unfolding number_wire
  number_wire_iff id align s metric =
      let point = λ (start : ℕ). number_point pb clock into_number_value s.start_time start align in
      let starts = or_stop (map_time clock.unix_epoch s.start_time) in
      let (there, back) = wire_iff starts point (make id s.kind s.observe_mode) s.series metric in
      (
        λ h.
            let x = there h in
            let (same, fits) =
              (map_time_iff clock.unix_epoch s.start_time x.start).0
                ((or_stop_iff _ x.start).0 x.starts) in
            (
              x.start,
              x.points,
              same,
              fits,
              Pairwise-imp (taken s.series) x.points
                  (λ a. Sent-number_point s.start_time x.start align a.0 a.1) x.are_points,
              x.some_point,
              (make_iff id s.kind s.observe_mode x.points metric).0 x.made,
            ),
        λ (start, points, same, fits, sent, some_point, is_metric). back (record {
          start = start;
          points = points;
          starts =
              (or_stop_iff _ start).1
                ((map_time_iff clock.unix_epoch s.start_time start).1 (same, fits));
          are_points =
              Pairwise-imp (taken s.series) points
                (λ a. number_point-Sent s.start_time start align a.0 a.1) sent;
          some_point = some_point;
          made = (make_iff id s.kind s.observe_mode points metric).1 is_metric;
        }),
      )
