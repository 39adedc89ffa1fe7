-- ===== src/Prometheus/Render.antt =====
-- `Metric` of src/prometheus/dto.rs and its text. The floats of samples are the type `N`, with what
-- `write_f64` asks of one.
pub mod Buckets
pub mod Families
use ohnotel.Base.{
  ℕ, ◌+◌, ◌-◌, ◌^◌, Text, codes, decimal, Bool, true, false, List, [], ◌∷◌, ◌++◌, Option, none,
  some, Result, ok, err, ◌>>=◌, if◌then◌else◌, leb, get_or,
}
use ohnotel.Error.{Error, PrometheusError}
use ohnotel.Model.Lexicographic.{number_order, list_order}
use ohnotel.Model.Sorting.{sort_by}
use ohnotel.Model.Value.{Value, KeyValue}
use ohnotel.Model.Display.{Format}
use ohnotel.Observe.{Kind}
use ohnotel.Atomic.Histogram.{Snapshot}
use ohnotel.Prometheus.{family_name, escape_help}
use ohnotel.Prometheus.Labels.{is_empty, repeated, render_labels}

-- `f64` in samples.
pub record Float (N : Type 0) : Type 0 where
  pub is_nan : N → Bool
  pub is_infinite : N → Bool
  pub is_sign_positive : N → Bool
  pub show : N → Text

-- `NameIdentity` of src/model.rs
pub record NameIdentity : Type 0 where
  pub name : Text
  pub description : Text
  pub unit : Text

pub record HistogramValue (N : Type 0) : Type 0 where
  pub boundaries : List N
  pub bucket_counts : List ℕ
  pub count : ℕ
  pub sum : N

pub data DataPointValue (N : Type 0) : Type 0 where
  number : N → DataPointValue N
  histogram : HistogramValue N → DataPointValue N

pub record DataPoint (F N : Type 0) : Type 0 where
  pub attrs : List (KeyValue F)
  pub value : DataPointValue N

pub record Metric (F N : Type 0) : Type 0 where
  pub id : NameIdentity
  pub kind : Kind
  pub points : List (DataPoint F N)

abbrev pub kind_str : Kind → Text
kind_str Kind.counter = codes "counter"
kind_str Kind.gauge = codes "gauge"
kind_str Kind.histogram = codes "histogram"

abbrev pub max_u64 : ℕ
max_u64 = 2 ^ 64 - 1

-- `u64::saturating_add`
abbrev pub saturating_add : ℕ → ℕ → ℕ
saturating_add a b = if leb (a + b) max_u64 then a + b else max_u64

-- `{{{labels}}}`, if there are any.
abbrev pub in_braces : Text → Text
in_braces labels = if is_empty labels then [] else codes "{" ++ (labels ++ codes "}")

-- The labels that a point's own lines bring.
abbrev pub reserved_by : {N : Type 0} → DataPointValue N → List Text
reserved_by (DataPointValue.number value) = []
reserved_by (DataPointValue.histogram value) = codes "le" ∷ []

module _ {F N : Type 0} where
  abbrev pub labels_first : Text × DataPoint F N → Text
  labels_first p = p.0

  abbrev pub unless_duplicate {ℓ} :
      {A : Type ℓ} → Text → Option (Text × DataPoint F N) → A → Result A PrometheusError
  unless_duplicate metric (some duplicate) a =
      err (PrometheusError.duplicate_series duplicate.0 metric)
  unless_duplicate metric none a = ok a

module _ {N : Type 0} (float : Float N) where
  unfoldable pub write_f64 : N → Text
  write_f64 value =
      if float.is_nan value
      then codes "NaN"
      else if float.is_infinite value
      then (if float.is_sign_positive value then codes "+Inf" else codes "-Inf")
      else float.show value

  -- `<name>_bucket{<labels>,le="<bound>"} <count>`
  unfoldable pub bucket_line : Text → Text → Text → ℕ → Text
  bucket_line name labels bound count =
      name
      ++ (codes "_bucket{"
          ++ ((if is_empty labels then [] else labels ++ codes ",")
              ++ (codes "le=\"" ++ (bound ++ (codes "\"} " ++ (decimal count ++ codes "\n"))))))

  -- The loop over the boundaries, at an index and with the count so far.
  unfoldable pub bucket_lines : Text → Text → List ℕ → ℕ → ℕ → List N → Text
  unfolding write_f64 bucket_line
  bucket_lines name labels counts idx cumulative [] = []
  bucket_lines name labels counts idx cumulative (boundary ∷ boundaries) =
      let cumulative' = saturating_add cumulative (get_or counts idx 0) in
      bucket_line name labels (write_f64 boundary) cumulative'
      ++ bucket_lines name labels counts (idx + 1) cumulative' boundaries

  unfoldable pub render_histogram : Text → Text → HistogramValue N → Text
  unfolding bucket_lines bucket_line write_f64
  render_histogram name labels value =
      bucket_lines name labels value.bucket_counts 0 0 value.boundaries
      ++ (bucket_line name labels (codes "+Inf") value.count
          ++ (name
              ++ (codes "_sum"
                  ++ (in_braces labels
                      ++ (codes " "
                          ++ (write_f64 value.sum
                              ++ (codes "\n"
                                  ++ (name
                                      ++ (codes "_count"
                                          ++ (in_braces labels
                                              ++ (codes " "
                                                  ++ (decimal value.count ++ codes "\n"))))))))))))

  module _ {F : Type 0} (format : Format F) where
    -- The loop over the points.
    unfoldable pub label_points :
        Text → List (DataPoint F N) → Result (List (Text × DataPoint F N)) PrometheusError
    label_points metric [] = ok []
    label_points metric (point ∷ points) = do
      labels ← render_labels format metric point.attrs (reserved_by point.value)
      rest ← label_points metric points
      ok ((labels, point) ∷ rest)

    -- One round of the last loop.
    unfoldable pub render_point : Text → Text × DataPoint F N → Text
    unfolding render_histogram write_f64
    render_point name (labels, point) = elim point.value [
      | DataPointValue.number value ↦
          name ++ (in_braces labels ++ (codes " " ++ (write_f64 value ++ codes "\n")))
      | DataPointValue.histogram value ↦ render_histogram name labels value
    ]

    unfoldable pub render_points : Text → List (Text × DataPoint F N) → Text
    unfolding render_point
    render_points name [] = []
    render_points name (p ∷ ps) = render_point name p ++ render_points name ps

    unfoldable pub help_line : Text → Text → Text
    help_line name [] = []
    help_line name (c ∷ cs) =
        codes "# HELP " ++ (name ++ (codes " " ++ (escape_help (c ∷ cs) ++ codes "\n")))

    -- What is appended once the points are labelled and sorted.
    unfoldable pub write_family : Metric F N → Text → List (Text × DataPoint F N) → Text
    unfolding help_line render_points
    write_family metric name points =
        help_line name metric.id.description
        ++ (codes "# TYPE "
            ++ (name
                ++ (codes " "
                    ++ (kind_str metric.kind ++ (codes "\n" ++ render_points name points)))))

    -- `Metric::render_into`, as the text that it appends. An error leaves the output as it was.
    unfoldable pub render_metric : Metric F N → Result Text PrometheusError
    unfolding label_points repeated write_family
    render_metric metric = do
      name ← family_name metric.kind metric.id.name
      points ← label_points metric.id.name metric.points
      let sorted = sort_by labels_first points
      unless_duplicate metric.id.name (repeated labels_first sorted)
          (write_family metric name sorted)

-- `to_number`, by what `ToPrimitive::to_f64` gives.
abbrev pub to_number {ℓ} : {N : Type ℓ} → Option N → Result N Error
to_number none = err Error.value_to_f64
to_number (some n) = ok n

module _ {T N : Type 0} (to_f64 : T → Option N) (is_finite : N → Bool) where
  -- The closure over the boundaries.
  abbrev pub checked_boundary : Text → T → Result N Error
  checked_boundary metric b = do
    boundary ← to_number (to_f64 b)
    if is_finite boundary
        then ok boundary
        else err (Error.prometheus (PrometheusError.non_finite_boundary metric))

  -- Collected.
  unfoldable pub finite_boundaries : Text → List T → Result (List N) Error
  finite_boundaries metric [] = ok []
  finite_boundaries metric (b ∷ bs) = do
    boundary ← checked_boundary metric b
    boundaries ← finite_boundaries metric bs
    ok (boundary ∷ boundaries)

  -- `into_data_point_value` of a histogram snapshot.
  unfoldable pub histogram_point : NameIdentity → Snapshot T → Result (DataPointValue N) Error
  unfolding finite_boundaries
  histogram_point id s = do
    boundaries ← finite_boundaries id.name s.boundaries
    sum ← to_number (to_f64 s.sum)
    ok (
        DataPointValue.histogram (record {
          boundaries = boundaries;
          bucket_counts = s.bucket_counts;
          count = s.count;
          sum = sum;
        }))

  -- `into_data_point_value` of a number.
  unfoldable pub number_point : T → Result (DataPointValue N) Error
  number_point value = do n ← to_number (to_f64 value); ok (DataPointValue.number n)
