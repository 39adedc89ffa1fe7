-- ===== src/Tests/Exports.antt =====
-- Witnesses for the exporters to OpenTelemetry and to the console.
use mathlib.Core.List.{Permᴰ}
use ohnotel.Base.{
  ℕ, ◌+◌, ◌*◌, ◌-◌, ◌/◌, ◌%◌, ◌^◌, ◌<◌, ◌≡◌, ◌≢◌, ◌↔◌, refl, ap, inr, Text, codes, decimal, true,
  List, [], ◌∷◌, ◌++◌, Option, none, some, ok, All, length, arith,
}
use ohnotel.Timer.{Duration}
use ohnotel.Model.Lexicographic.{number_order}
use ohnotel.Model.Sorting.Distinct.{IsDistinctBy}
use ohnotel.Model.Value.{Value, KeyValue}
use ohnotel.Model.Display.{Format}
use ohnotel.Atomic.Histogram
use ohnotel.Observe.{Mode, Kind, Series}
use ohnotel.Prometheus.Render.{NameIdentity}
use ohnotel.Wire.{SystemClock}
use ohnotel.Wire.Points.{Pairwise, taken}
use ohnotel.Otel
use ohnotel.Otel.Export.{Sent, IsMetric, number_wire_iff}
use ohnotel.Otel.Histograms.{SentHistogram, histogram_wire_iff}
use ohnotel.Otel.Resource.{Resource, default, into_attributes, pushed, fields}
use ohnotel.Otel.Resource.Upserts.{IsMerged, find, latest, into_attributes_lem}
use ohnotel.Console
use ohnotel.Console.Clock.{clock_text, render_time_lem}
use ohnotel.Console.Columns.{LinesUp, histogram_column_widths_lem}
use ohnotel.Console.Sorted.{AreAlike, render-perm}

abbrev format : Format ℕ
format = record { debug_str = λ s. s; show_float = decimal; debug_bytes = λ bs. bs }

-- Every value as a list of numbers.
abbrev pb : Otel.AnyValue ℕ Text
pb = record {
  string_value = λ s. s;
  bool_value = λ b. [];
  int_value = λ i. i ∷ [];
  double_value = λ d. d ∷ [];
  array_value = λ vs. [];
  kvlist_value = λ kvs. [];
  bytes_value = λ bs. bs;
}

abbrev clock : SystemClock
clock = record { limit = 1000000; unix_epoch = 100 }

abbrev id : NameIdentity
id = record { name = codes "requests"; description = []; unit = [] }

abbrev route : List (KeyValue ℕ)
route = KeyValue.new (codes "route") (Value.string (codes "/")) ∷ []

abbrev counted : Series (KeyValue ℕ) ℕ
counted = record {
  start_time = 150;
  series = (route, record { ts = 160; seq_id = 0; value = 7 } ∷ []) ∷ [];
  observe_mode = Mode.delta;
  kind = Kind.counter;
}

abbrev counter_point : Otel.NumberDataPoint Text ℕ
counter_point = record {
  attributes = Otel.map_attrs pb route;
  start_time_unix_nano = 50;
  time_unix_nano = 60;
  value = Otel.NumberValue.as_int 7;
}

abbrev counter_metric : Otel.Metric Text ℕ
counter_metric =
    Otel.metric_of id (Otel.Data.sum (counter_point ∷ []) Otel.AggregationTemporality.delta true)

number_wire_runs :
    Otel.number_wire pb clock Otel.number_of_u64 id none counted ≡ ok (some counter_metric)
unfolding Otel.number_wire Otel.map_time ohnotel.Wire.series_points ohnotel.Timer.align_ts
    Otel.number_of_u64
number_wire_runs = refl

number_wire_iff_example :
    (Otel.number_wire pb clock Otel.number_of_u64 id none counted ≡ ok (some counter_metric)) ↔ (
      (start : ℕ) × (points : List (Otel.NumberDataPoint Text ℕ)) × (150 ≡ 100 + start)
      × (start < 2 ^ 64)
      × Pairwise (Sent pb clock Otel.number_of_u64 150 start none) (taken counted.series) points
      × (points ≢ [])
      × IsMetric pb clock Otel.number_of_u64 id Kind.counter Mode.delta points counter_metric)
number_wire_iff_example = number_wire_iff pb clock Otel.number_of_u64 id none counted counter_metric

abbrev latency : Histogram.Snapshot ℕ
latency = record {
  boundaries = 10 ∷ 20 ∷ [];
  bucket_counts = 1 ∷ 0 ∷ 2 ∷ [];
  count = 3;
  sum = 65;
  min = some 5;
  max = none;
}

abbrev latencies : Series (KeyValue ℕ) (Histogram.Snapshot ℕ)
latencies = record {
  start_time = 150;
  series = (route, record { ts = 160; seq_id = 3; value = latency } ∷ []) ∷ [];
  observe_mode = Mode.direct;
  kind = Kind.histogram;
}

-- Sixty nanoseconds, thrice, after the start.
abbrev period : Option Duration
period = some (record { secs = 0; nanos = 60 })

abbrev histogram_metric : Otel.Metric Text ℕ
histogram_metric = Otel.metric_of id (
    Otel.Data.histogram
      (record {
        attributes = Otel.map_attrs pb route;
        start_time_unix_nano = 50;
        time_unix_nano = 230;
        count = 3;
        sum = 65;
        bucket_counts = 1 ∷ 0 ∷ 2 ∷ [];
        explicit_bounds = 10 ∷ 20 ∷ [];
        min = some 5;
        max = none;
      }
        ∷ [])
      Otel.AggregationTemporality.cumulative)

histogram_wire_iff_example :
    (Otel.histogram_wire pb clock some id period latencies ≡ ok (some histogram_metric)) ↔ (
      (start : ℕ) × (points : List (Otel.HistogramDataPoint Text ℕ)) × (150 ≡ 100 + start)
      × (start < 2 ^ 64)
      × Pairwise (SentHistogram pb clock some 150 start period) (taken latencies.series) points
      × (points ≢ [])
      × (histogram_metric
          ≡ Otel.metric_of id (Otel.Data.histogram points Otel.AggregationTemporality.cumulative)))
histogram_wire_iff_example = histogram_wire_iff pb clock some id period latencies histogram_metric

abbrev process : Resource ℕ
process =
    record (default (λ bs. bs)
      (record {
        service_name = some (codes "shop");
        package_name = codes "ohnotel";
        package_version = codes "1";
        host_name = 104 ∷ 0 ∷ [];
        arch = codes "x86_64";
        os = codes "macos";
        exe_name = none;
      })) {
        attributes =
            KeyValue.new (codes "os.type") (Value.int 1)
            ∷ KeyValue.new [] (Value.int 2)
            ∷ KeyValue.no_val (codes "zone")
            ∷ [];
      }

into_attributes_lem_example :
    IsMerged (into_attributes process)
    × ((key : Text)
        → key ≢ []
        → find key (into_attributes process)
          ≡ latest key (process.attributes ++ pushed (fields process)) none)
into_attributes_lem_example = into_attributes_lem process

abbrev bucket : Option ℕ → ℕ → Console.Bucket ℕ
bucket bound count = record { upper_bound = bound; count = count }

abbrev point : ℕ → ℕ → Console.DataPoint ℕ ℕ
point time count = record {
  attributes = route;
  start_time = 150;
  time = time;
  value = Console.DataPointValue.histogram (record {
    count = count;
    sum = 7;
    buckets = bucket (some 10) count ∷ bucket none 1 ∷ [];
    min = none;
    max = some 7;
  });
}

abbrev console_metric : Console.Metric ℕ ℕ
console_metric = record {
  id = id;
  kind = Kind.histogram;
  temporality = Console.Temporality.delta;
  data_points = point 300 12345 ∷ point 200 1 ∷ [];
}

apart : IsDistinctBy (Console.point_key decimal) (console_metric.data_points)
apart = (((λ e. ground (arith, ap (λ k. k.0) e)), tt), (tt, tt))

alike : AreAlike decimal console_metric.data_points
alike = inr (2, ((_, refl, refl), ((_, refl, refl), tt)))

render-perm_example :
    Console.render decimal format 100
      (record console_metric { data_points = point 200 1 ∷ point 300 12345 ∷ [] })
    ≡ Console.render decimal format 100 console_metric
render-perm_example =
    render-perm decimal format 100 console_metric (point 200 1 ∷ point 300 12345 ∷ [])
      (Permᴰ.swap refl refl) apart alike

histogram_column_widths_lem_example :
    (widths : List ℕ) × (Console.histogram_column_widths decimal
        (point 300 12345 ∷ point 200 1 ∷ [])
      ≡ some widths)
    × (length widths ≡ 2)
    × All (LinesUp decimal widths) (point 300 12345 ∷ point 200 1 ∷ [])
histogram_column_widths_lem_example =
    histogram_column_widths_lem decimal (point 300 12345) (point 200 1 ∷ []) 2
      ((_, refl, refl), ((_, refl, refl), tt))

render_time_lem_example :
    (h : ℕ) × (m : ℕ) × (s : ℕ) × (ms : ℕ) × (Console.render_time 100
        (100 + 3723 * 1000000000 + 45000000)
      ≡ clock_text h m s ms)
    × (h < 24)
    × (m < 60)
    × (s < 60)
    × (ms < 1000)
    × (((h * 60 + m) * 60 + s) * 1000 + ms
        ≡ (100 + 3723 * 1000000000 + 45000000 - 100) / 1000000 % 86400000)
render_time_lem_example = render_time_lem 100 (100 + 3723 * 1000000000 + 45000000) (omega arith)
