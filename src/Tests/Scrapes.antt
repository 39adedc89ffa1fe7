-- ===== src/Tests/Scrapes.antt =====
-- Witnesses for attributes, labels, families and scrapes.
use ohnotel.Base.{
  ℕ, ◌+◌, ◌*◌, ◌%◌, ◌≡◌, ◌↔◌, refl, Text, codes, decimal, true, Ordering, List, [], ◌∷◌, ◌++◌,
  Option, none, some, Result, ok, ◌==◌, All,
}
use ohnotel.Error.{Error}
use ohnotel.Model.Lexicographic.{number_order, list_order, cmp_list}
use ohnotel.Model.Sorting.{sort_by}
use ohnotel.Model.Sorting.Distinct.{IsDistinctBy}
use ohnotel.Model.Str.{Str}
use ohnotel.Model.Value.{Value, KeyValue, cmp_key_value}
use ohnotel.Model.Value.Laws.{key_value_order, cmp_key_value_laws}
use ohnotel.Model.Display.{Format, show_value}
use ohnotel.Observe.{Kind}
use ohnotel.Prometheus.{
  family_name, sanitize_label_name, sanitize_metric_name, clean_all, escape_label_value,
}
use ohnotel.Prometheus.Labels.{
  name_of, render_labels, collect_labels, write_sorted, write_labels, write_label, label_value,
  repeated,
}
use ohnotel.Prometheus.Labels.Accept.{IsUsable, labels_of, render_labels_iff}
use ohnotel.Prometheus.Labels.Read.{read_labels, series_labels, read_labels-render_labels}
use ohnotel.Prometheus.Render.{
  Float, NameIdentity, HistogramValue, DataPointValue, Metric, bucket_lines, render_metric,
}
use ohnotel.Prometheus.Render.Buckets.{write_samples, samples_from, RisesFrom, bucket_lines_lem}
use ohnotel.Prometheus.Render.Families.{CanRender, render_metric_iff}
use ohnotel.Prometheus.Collector.{
  Families, gather, gather_one, enter_family, extend, emit_all, scrape,
}
use ohnotel.Prometheus.Collector.Scrape.{as_family, all_points, visible, scrape_lem}
use ohnotel.Fingerprint.{BuildHasher, u64_mod}
use ohnotel.Table.Model.{list_table}
use ohnotel.Atomic.Integers.{u64, recording, wrapping_add}
use ohnotel.BucketMap.State.{Params, BucketMap, with_storage}
use ohnotel.BucketMap.Ops.{record_with}
use ohnotel.BucketMap.Inv.{Inv, NoCollision, bucket_for}
use ohnotel.Attrs.{normalize}
use ohnotel.BucketMap.Contents.{view, or_init}
use ohnotel.Prometheus.Collector.Recorded.{value_at, scrape-record_with}
use ohnotel.BucketMap.Drain.{with_storage-Inv}
use ohnotel.BucketMap.Contents.{record_with-Inv}
use ohnotel.Prometheus.Collector.Samples.{itself, sample_names, emit_all_iff}
use ohnotel.Prometheus.Collector.Enter.{RisesAfter, find}
use ohnotel.Prometheus.Collector.Gather.{IsJoined, points_of, points_under, gather_lem}

-- Numbers as floats.
abbrev format : Format ℕ
format = record { debug_str = λ s. s; show_float = decimal; debug_bytes = λ bs. bs }

abbrev float : Float ℕ
float = record {
  is_nan = λ x. x == 100;
  is_infinite = λ x. x == 99;
  is_sign_positive = λ x. true;
  show = decimal;
}

abbrev zone : KeyValue ℕ
zone = KeyValue.new (codes "zone") (Value.string (codes "a\"b"))

abbrev host : KeyValue ℕ
host = KeyValue.new (codes "host.name") (Value.bool true)

cmp_key_value_laws_example :
    ((cmp_key_value host zone ≡ Ordering.eq) ↔ (host ≡ zone))
    × ((cmp_key_value host zone ≡ Ordering.lt) ↔ (cmp_key_value zone host ≡ Ordering.gt))
    × (cmp_key_value host zone ≡ Ordering.lt
        → cmp_key_value zone zone ≡ Ordering.lt
        → cmp_key_value host zone ≡ Ordering.lt)
cmp_key_value_laws_example = cmp_key_value_laws host zone zone

-- One text, borrowed and shared.
abbrev borrowed : Str
borrowed = Str.borrowed 8 (codes "ab")

abbrev shared : Str
shared = Str.arc_str 8 (codes "ab")

abbrev attrs : List (KeyValue ℕ)
attrs = zone ∷ host ∷ []

abbrev metric_name : Text
metric_name = codes "m"

abbrev labels : Text
labels = codes "host_name=\"true\",zone=\"a\\\"b\""

render-attrs : render_labels format metric_name attrs [] ≡ ok labels
unfolding render_labels collect_labels write_sorted write_labels write_label label_value repeated
    sanitize_label_name clean_all sort_by cmp_list escape_label_value show_value
render-attrs = refl

render_labels_iff_example : (render_labels format metric_name attrs [] ≡ ok labels) ↔ (
    All (IsUsable []) attrs
    × IsDistinctBy name_of (labels_of attrs)
    × (labels ≡ write_labels format [] (sort_by name_of (labels_of attrs))))
render_labels_iff_example = render_labels_iff format metric_name [] attrs labels

read_labels-render_labels_example : read_labels labels ≡ some (series_labels format attrs)
read_labels-render_labels_example =
    read_labels-render_labels format metric_name [] attrs labels render-attrs

abbrev buckets : HistogramValue ℕ
buckets = record { boundaries = 5 ∷ 10 ∷ []; bucket_counts = 2 ∷ 3 ∷ 1 ∷ []; count = 6; sum = 41 }

bucket_lines_lem_example :
    (bucket_lines float metric_name labels buckets.bucket_counts 0 0 buckets.boundaries
      ≡ write_samples float metric_name labels
          (samples_from buckets.bucket_counts 0 buckets.boundaries))
    × RisesFrom 0 (samples_from buckets.bucket_counts 0 buckets.boundaries)
bucket_lines_lem_example = bucket_lines_lem float metric_name labels buckets

abbrev requests : Metric ℕ ℕ
requests = record {
  id = record { name = codes "requests"; description = []; unit = [] };
  kind = Kind.counter;
  points = record { attrs = attrs; value = DataPointValue.number 7 } ∷ [];
}

render_metric_iff_example :
    ((out : Text) × (render_metric float format requests ≡ ok out))
    ↔ CanRender float format requests
render_metric_iff_example = render_metric_iff float format requests

abbrev sources : List (Result (Option (Metric ℕ ℕ)) Error)
sources = ok (some requests) ∷ ok none ∷ ok (some requests) ∷ []

abbrev gathered : Families ℕ ℕ
gathered =
    (codes "requests_total", record requests { points = requests.points ++ requests.points }) ∷ []

gather-sources : gather sources [] ≡ ok gathered
unfolding gather gather_one enter_family extend family_name sanitize_metric_name clean_all cmp_list
gather-sources = refl

gather_lem_example :
    RisesAfter none gathered
    × ((n : Text) → points_of (find n gathered) ≡ points_under n sources)
    × All (IsJoined gathered) sources
gather_lem_example = gather_lem sources gathered gather-sources

emit_all_iff_example :
    ((out : List Text) × (emit_all gathered [] ≡ ok out))
    ↔ IsDistinctBy itself (sample_names gathered)
emit_all_iff_example = emit_all_iff gathered

-- A map of a counter with one attribute.
abbrev hasher : BuildHasher (KeyValue ℕ)
hasher = record {
  hash_one = λ attr. 7;
  hash_fingerprint = λ fp. (fp.xor + 3 * fp.sum + 5 * fp.len) % u64_mod;
}

abbrev params : Params (KeyValue ℕ) ℕ
params = record { build = hasher; canon = list_table _; alias = list_table _; init_bucket = 0 }

fresh-NoCollision : NoCollision (with_storage params) (host ∷ [])
unfolding with_storage
fresh-NoCollision = tt

abbrev counted : BucketMap params
counted = record_with (wrapping_add 5) (host ∷ []) (with_storage params)

counted-Inv : Inv counted
counted-Inv = record_with-Inv with_storage-Inv.0 (wrapping_add 5) (host ∷ []) fresh-NoCollision

abbrev as_number : NameIdentity → ℕ → Result (DataPointValue ℕ) Error
as_number id value = ok (DataPointValue.number value)

scrape_lem_example :
    ((scrape (recording u64) as_number requests.id Kind.counter counted).1
      ≡ as_family (recording u64) as_number requests.id Kind.counter (
          all_points
            (recording u64)
            as_number
            requests.id
            (visible (recording u64) as_number counted)))
    × Inv (scrape (recording u64) as_number requests.id Kind.counter counted).0
    × ((k : List (KeyValue ℕ))
        → bucket_for (scrape (recording u64) as_number requests.id Kind.counter counted).0 k
          ≡ bucket_for counted k)
    × ((scrape (recording u64) as_number requests.id Kind.counter counted).0.heap ≡ counted.heap)
    × ((scrape (recording u64) as_number requests.id Kind.counter counted).0.no_attr_touched
        ≡ counted.no_attr_touched)
scrape_lem_example = scrape_lem (recording u64) as_number requests.id Kind.counter counted-Inv

-- An unsorted list in a fresh map.
pair-NoCollision : NoCollision (with_storage params) (zone ∷ host ∷ [])
unfolding with_storage
pair-NoCollision = tt

scrape-record_with_example :
    (metric : Metric ℕ ℕ) × ((scrape
        (recording u64)
        as_number
        requests.id
        Kind.counter
        (record_with (wrapping_add 3) (zone ∷ host ∷ []) (with_storage params))).1
      ≡ ok (some metric))
    × (value_at (recording u64) as_number (normalize (zone ∷ host ∷ [])) metric.points
        ≡ some (
            DataPointValue.number (
              wrapping_add 3
                (or_init params (view (with_storage params) (normalize (zone ∷ host ∷ [])))))))
scrape-record_with_example =
    scrape-record_with (recording u64) as_number requests.id DataPointValue.number (λ s. refl)
      Kind.counter with_storage-Inv.0 (wrapping_add 3) zone (host ∷ []) pair-NoCollision
