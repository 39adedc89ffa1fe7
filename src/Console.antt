-- ===== src/Console.antt =====
-- The console's metrics, src/console/dto.rs. The text of a float, of a quoted string and of bytes
-- is a parameter.
pub mod Columns
pub mod Clock
pub mod Sorted
use Prim.Native.Nat.{max}
use ohnotel.Base.{
  ℕ, ◌+◌, ◌-◌, ◌/◌, ◌%◌, Text, codes, decimal, Bool, true, false, List, [], ◌∷◌, ◌++◌, Option, none,
  some, Result, ok, err, ◌>>=◌, if◌then◌else◌, ltb, ◌==◌, length, get_elem?, replicate, map,
}
use ohnotel.Error.{Error}
use ohnotel.Timer.{Duration}
use ohnotel.Atomic.Histogram as Cell
use ohnotel.Model.Order.{Ord}
use ohnotel.Model.Lexicographic.{number_order, list_order, pair_order}
use ohnotel.Model.Sorting.{sort_by}
use ohnotel.Model.Value.{KeyValue}
use ohnotel.Model.Value.Laws.{key_value_order}
use ohnotel.Model.Display.{Format, show_key_value}
use ohnotel.Observe.{Mode, Kind, Snapshot, Series}
use ohnotel.Prometheus.Labels.{is_empty}
use ohnotel.Prometheus.Render.{NameIdentity}
use ohnotel.Wire.{Stop, SystemClock, time_of, series_points, if_any, unless_empty, ok_or}

-- `Temporality` of src/model.rs
pub data Temporality : Type 0 where
  cumulative : Temporality
  delta : Temporality

pub record Bucket (N : Type 0) : Type 0 where
  pub upper_bound : Option N
  pub count : ℕ

pub record Histogram (N : Type 0) : Type 0 where
  pub count : ℕ
  pub sum : N
  pub buckets : List (Bucket N)
  pub min : Option N
  pub max : Option N

pub data DataPointValue (N : Type 0) : Type 0 where
  number : N → DataPointValue N
  histogram : Histogram N → DataPointValue N

pub record DataPoint (F N : Type 0) : Type 0 where
  pub attributes : List (KeyValue F)
  pub start_time : ℕ
  pub time : ℕ
  pub value : DataPointValue N

pub record Metric (F N : Type 0) : Type 0 where
  pub id : NameIdentity
  pub kind : Kind
  pub temporality : Temporality
  pub data_points : List (DataPoint F N)

abbrev pub continuation_indent : ℕ
continuation_indent = 2 + 12 + 2

abbrev pub space : ℕ
space = 32

-- `{:?}` of the two enums.
abbrev pub show_kind : Kind → Text
show_kind Kind.counter = codes "Counter"
show_kind Kind.gauge = codes "Gauge"
show_kind Kind.histogram = codes "Histogram"

abbrev pub show_temporality : Temporality → Text
show_temporality Temporality.cumulative = codes "Cumulative"
show_temporality Temporality.delta = codes "Delta"

-- A number with zeros up to a width: `{n:0width}`.
unfoldable pub zero_padded : ℕ → ℕ → Text
zero_padded width n = let text = decimal n in replicate (width - length text) 48 ++ text

unfoldable pub render_time : ℕ → ℕ → Text
unfolding zero_padded
render_time unix_epoch time =
    if ltb time unix_epoch
    then codes "??:??:??.???"
    else (let d = time - unix_epoch in
        let sec_of_day = d / 1000000000 % 86400 in
        zero_padded 2 (sec_of_day / 3600)
        ++ (codes ":"
            ++ (zero_padded 2 (sec_of_day / 60 % 60)
                ++ (codes ":"
                    ++ (zero_padded 2 (sec_of_day % 60)
                        ++ (codes "." ++ zero_padded 3 (d % 1000000000 / 1000000)))))))

module _ {N : Type 0} (show : N → Text) where
  -- `Bucket::render`
  unfoldable pub render_bucket : Bucket N → Text
  render_bucket b = elim b.upper_bound [
    | some ub ↦ show ub ++ (codes ":" ++ decimal b.count)
    | none ↦ 8734 ∷ (codes ":" ++ decimal b.count)
  ]

  -- The width of a column, where there are widths and the column is one of them.
  abbrev pub width_at : Option (List ℕ) → ℕ → Option ℕ
  width_at none i = none
  width_at (some widths) i = get_elem? widths i

  abbrev pub padding : Option ℕ → Text → Text
  padding none cell = []
  padding (some w) cell = replicate (w - length cell) space

  -- One cell in its column.
  unfoldable pub render_cell : Option ℕ → Bucket N → Text
  unfolding render_bucket
  render_cell width b = render_bucket b ++ padding width (render_bucket b)

  -- The loop over the buckets, at an index.
  unfoldable pub render_cells : Option (List ℕ) → ℕ → List (Bucket N) → Text
  unfolding render_cell
  render_cells widths i [] = []
  render_cells widths i (b ∷ bs) =
      (if i == 0 then [] else space ∷ [])
      ++ (render_cell (width_at widths i) b ++ render_cells widths (i + 1) bs)

  abbrev pub render_extremum : Text → Option N → Text
  render_extremum label none = []
  render_extremum label (some x) = label ++ show x

  -- `Histogram::render`
  unfoldable pub render_histogram : Option (List ℕ) → Histogram N → Text
  unfolding render_cells
  render_histogram widths h =
      codes "["
      ++ (render_cells widths 0 h.buckets
          ++ (codes "]  count="
              ++ (decimal h.count
                  ++ (codes " sum="
                      ++ (show h.sum
                          ++ (render_extremum (codes " min=") h.min
                              ++ render_extremum (codes " max=") h.max))))))

  abbrev pub as_histogram : DataPointValue N → Option (Histogram N)
  as_histogram (DataPointValue.number n) = none
  as_histogram (DataPointValue.histogram h) = some h

  -- The assignments to the widths of one histogram's columns.
  unfoldable pub widen : List ℕ → List (Bucket N) → List ℕ
  unfolding render_bucket
  widen widths [] = widths
  widen [] (b ∷ bs) = []
  widen (w ∷ ws) (b ∷ bs) = max w (length (render_bucket b)) ∷ widen ws bs

  module _ {F : Type 0} where
    -- The loop over the points; `?` is the end of it.
    unfoldable pub column_widths : List (DataPoint F N) → List ℕ → Option (List ℕ)
    unfolding widen
    column_widths [] widths = some widths
    column_widths (dp ∷ dps) widths = elim (as_histogram dp.value) [
      | none ↦ none
      | some h ↦
          let rest = column_widths dps (widen widths h.buckets) in
          if length h.buckets == length widths then rest else none
    ]

    unfoldable pub histogram_column_widths : List (DataPoint F N) → Option (List ℕ)
    unfolding column_widths
    histogram_column_widths [] = none
    histogram_column_widths (first ∷ more) = elim (as_histogram first.value) [
      | none ↦ none
      | some h ↦ column_widths (first ∷ more) (replicate (length h.buckets) 0)
    ]

    module _ (format : Format F) where
      -- The attributes after the first one.
      unfoldable pub render_more : List (KeyValue F) → Text
      render_more [] = []
      render_more (kv ∷ kvs) = codes ", " ++ (show_key_value format kv ++ render_more kvs)

      unfoldable pub render_attrs : List (KeyValue F) → Text
      unfolding render_more
      render_attrs [] = codes "{}"
      render_attrs (kv ∷ kvs) =
          codes "{" ++ (show_key_value format kv ++ (render_more kvs ++ codes "}"))

      abbrev pub attrs_col : List (KeyValue F) → Text
      attrs_col attrs = if is_empty attrs then [] else render_attrs attrs ++ codes " "

      abbrev pub value_col : Option (List ℕ) → DataPointValue N → Text
      value_col widths (DataPointValue.histogram h) = render_histogram widths h
      value_col widths (DataPointValue.number n) = show n

      abbrev pub same_time : Option ℕ → ℕ → Bool
      same_time none time = false
      same_time (some last) time = last == time

      -- The loop over the sorted points, after the time of the last one.
      unfoldable pub render_points : ℕ → Option (List ℕ) → Option ℕ → List (DataPoint F N) → Text
      unfolding render_time render_histogram render_attrs
      render_points unix_epoch widths last [] = []
      render_points unix_epoch widths last (dp ∷ dps) =
          (codes "\n"
            ++ ((if same_time last dp.time
                  then replicate continuation_indent space
                  else codes "  " ++ (render_time unix_epoch dp.time ++ codes "  "))
                ++ (attrs_col dp.attributes ++ value_col widths dp.value)))
          ++ render_points unix_epoch widths (some dp.time) dps

      unfoldable pub header : Metric F N → Text
      header m = elim m.kind [
        | Kind.gauge ↦ show_kind Kind.gauge ++ (codes " " ++ m.id.name)
        | kind ↦ show_temporality m.temporality ++ (show_kind kind ++ (codes " " ++ m.id.name))
      ]

  abbrev pub point_key : {F : Type 0} → DataPoint F N → ℕ × List (KeyValue F)
  point_key dp = (dp.time, dp.attributes)

  module _ {F : Type 0} ⦃f : Ord F⦄ where
    unfoldable pub sorted_points : List (DataPoint F N) → List (DataPoint F N)
    sorted_points points = sort_by point_key points

    -- `Metric::render`
    unfoldable pub render : Format F → ℕ → Metric F N → Text
    unfolding header sorted_points histogram_column_widths render_points
    render format unix_epoch m =
        header format m
        ++ ((if is_empty m.id.unit then [] else codes " unit=" ++ m.id.unit)
            ++ ((if is_empty m.id.description
                  then []
                  else codes " description=" ++ format.debug_str m.id.description)
                ++ render_points format unix_epoch (histogram_column_widths m.data_points) none
                    (sorted_points m.data_points)))

abbrev pub map_temporality : Mode → Temporality
map_temporality Mode.direct = Temporality.cumulative
map_temporality Mode.delta = Temporality.delta
map_temporality Mode.destructive = Temporality.delta

module _ {N T : Type 0} (to_f64 : T → Option N) where
  abbrev pub to_number : T → Result N Stop
  to_number x = ok_or Error.value_to_f64 (to_f64 x)

  -- `map`, then `transpose`.
  abbrev pub to_number? : Option T → Result (Option N) Stop
  to_number? none = ok none
  to_number? (some x) = do n ← to_number x; ok (some n)

  -- The loop over the counters, at an index; the last bucket has no bound.
  unfoldable pub buckets_of : List T → ℕ → List ℕ → Result (List (Bucket N)) Stop
  buckets_of boundaries idx [] = ok []
  buckets_of boundaries idx (count ∷ counts) = do
    upper_bound ← to_number? (get_elem? boundaries idx)
    rest ← buckets_of boundaries (idx + 1) counts
    ok (record { upper_bound = upper_bound; count = count } ∷ rest)

module _ {F N : Type 0} where
  abbrev pub metric_of :
      NameIdentity → Kind → Mode → List (DataPoint F N) → Result (Metric F N) Stop
  metric_of id kind mode points =
      ok (record { id = id; kind = kind; temporality = map_temporality mode; data_points = points })

module _ {F N T : Type 0} (to_f64 : T → Option N) (clock : SystemClock) where
  unfoldable pub histogram_point :
      ℕ
      → Option Duration
      → List (KeyValue F)
      → Snapshot (Cell.Snapshot T)
      → Result (DataPoint F N) Stop
  unfolding buckets_of
  histogram_point start_time align attrs s = do
    time ← time_of clock start_time align s
    buckets ← buckets_of to_f64 s.value.boundaries 0 s.value.bucket_counts
    total ← to_number to_f64 s.value.sum
    least ← to_number? to_f64 s.value.min
    greatest ← to_number? to_f64 s.value.max
    ok (record {
      attributes = attrs;
      start_time = start_time;
      time = time;
      value = DataPointValue.histogram (record {
        count = s.value.count;
        sum = total;
        buckets = buckets;
        min = least;
        max = greatest;
      });
    })

  unfoldable pub number_point :
      ℕ → Option Duration → List (KeyValue F) → Snapshot T → Result (DataPoint F N) Stop
  number_point start_time align attrs s = do
    time ← time_of clock start_time align s
    n ← to_number to_f64 s.value
    ok (record {
      attributes = attrs;
      start_time = start_time;
      time = time;
      value = DataPointValue.number n;
    })

  -- `into_wire` of histograms and of numbers.
  unfoldable pub histogram_wire :
      NameIdentity
      → Option Duration
      → Series (KeyValue F) (Cell.Snapshot T)
      → Result (Option (Metric F N)) Stop
  unfolding histogram_point
  histogram_wire id align s = if_any s.series (do
    points ← series_points (histogram_point s.start_time align) s.series
    unless_empty points (metric_of id s.kind s.observe_mode))

  unfoldable pub number_wire :
      NameIdentity → Option Duration → Series (KeyValue F) T → Result (Option (Metric F N)) Stop
  unfolding number_point
  number_wire id align s = if_any s.series (do
    points ← series_points (number_point s.start_time align) s.series
    unless_empty points (metric_of id s.kind s.observe_mode))
