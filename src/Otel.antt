-- ===== src/Otel.antt =====
-- The wire mapping of src/otel/dto.rs. The messages are records of the fields that the source sets
-- to something of its own; the protobuf form of an attribute's value is a parameter, and so are
-- `to_f64` and the floats.
pub mod Resource
pub mod Export
pub mod Histograms
pub mod Sender
use ohnotel.Base.{
  ℕ, ◌-◌, ◌^◌, Text, Bool, true, List, [], ◌∷◌, Option, none, some, Result, ok, err, ◌>>=◌,
  if◌then◌else◌, ltb, map,
}
use ohnotel.Error.{Error}
use ohnotel.Timer.{Duration}
use ohnotel.Model.Value.{Value, Values, KeyValue, KeyValues}
use ohnotel.Atomic.Histogram
use ohnotel.Observe.{Mode, Kind, Snapshot, Series}
use ohnotel.Prometheus.Render.{NameIdentity}
use ohnotel.Wire.{Stop, or_stop, ok_or, SystemClock, time_of, series_points, if_any, unless_empty}

-- The constructors of `any_value::Value`. A list is what a message holds of it.
pub record AnyValue (F W : Type 0) : Type 0 where
  pub string_value : Text → W
  pub bool_value : Bool → W
  pub int_value : ℕ → W
  pub double_value : F → W
  pub array_value : List W → W
  pub kvlist_value : List (Text × Option W) → W
  pub bytes_value : List ℕ → W

module _ {F W : Type 0} (pb : AnyValue F W) where
  unfoldable mutual
    pub any_value : Value F → W
    any_value (Value.string s) = pb.string_value s
    any_value (Value.bool b) = pb.bool_value b
    any_value (Value.int i) = pb.int_value i
    any_value (Value.double d) = pb.double_value d
    any_value (Value.array_any vs) = pb.array_value (any_values vs)
    any_value (Value.array_kv kvs) = pb.kvlist_value (key_values kvs)
    any_value (Value.bytes bs) = pb.bytes_value bs

    pub any_values : Values F → List W
    any_values Values.nil = []
    any_values (Values.cons v vs) = any_value v ∷ any_values vs

    pub key_values : KeyValues F → List (Text × Option W)
    key_values KeyValues.end = []
    key_values (KeyValues.more a as') = key_value a ∷ key_values as'

    pub key_value : KeyValue F → Text × Option W
    key_value (KeyValue.new k v) = (k, some (any_value v))
    key_value (KeyValue.no_val k) = (k, none)

  abbrev pub map_attrs : List (KeyValue F) → List (Text × Option W)
  map_attrs attrs = map key_value attrs

-- `map_time`
unfoldable pub map_time : ℕ → ℕ → Result ℕ Error
map_time unix_epoch t =
    if ltb t unix_epoch
    then err Error.time_before_epoch
    else if ltb (t - unix_epoch) (2 ^ 64)
    then ok (t - unix_epoch)
    else err Error.time_overflows_u64

-- `number_data_point::Value`; an `i64` is its bit pattern.
pub data NumberValue (N : Type 0) : Type 0 where
  as_int : ℕ → NumberValue N
  as_double : N → NumberValue N

-- `into_number_value`
abbrev pub number_of_i64 : {N : Type 0} → ℕ → Result (NumberValue N) Error
number_of_i64 n = ok (NumberValue.as_int n)

unfoldable pub number_of_u64 : {N : Type 0} → ℕ → Result (NumberValue N) Error
number_of_u64 n = if ltb n (2 ^ 63) then ok (NumberValue.as_int n) else err Error.value_to_i64

abbrev pub number_of_f64 : {N : Type 0} → N → Result (NumberValue N) Error
number_of_f64 x = ok (NumberValue.as_double x)

pub data AggregationTemporality : Type 0 where
  cumulative : AggregationTemporality
  delta : AggregationTemporality

abbrev pub temporality : Mode → AggregationTemporality
temporality Mode.direct = AggregationTemporality.cumulative
temporality Mode.delta = AggregationTemporality.delta
temporality Mode.destructive = AggregationTemporality.delta

pub record NumberDataPoint (W N : Type 0) : Type 0 where
  pub attributes : List (Text × Option W)
  pub start_time_unix_nano : ℕ
  pub time_unix_nano : ℕ
  pub value : NumberValue N

pub record HistogramDataPoint (W N : Type 0) : Type 0 where
  pub attributes : List (Text × Option W)
  pub start_time_unix_nano : ℕ
  pub time_unix_nano : ℕ
  pub count : ℕ
  pub sum : N
  pub bucket_counts : List ℕ
  pub explicit_bounds : List N
  pub min : Option N
  pub max : Option N

-- `metric::Data`; of a sum, the temporality and whether it is monotonic.
pub data Data (W N : Type 0) : Type 0 where
  sum : List (NumberDataPoint W N) → AggregationTemporality → Bool → Data W N
  gauge : List (NumberDataPoint W N) → Data W N
  histogram : List (HistogramDataPoint W N) → AggregationTemporality → Data W N

pub record Metric (W N : Type 0) : Type 0 where
  pub name : Text
  pub description : Text
  pub unit : Text
  pub data_of : Data W N

abbrev pub metric_of : {W N : Type 0} → NameIdentity → Data W N → Metric W N
metric_of id d = record {
  name = id.name;
  description = id.description;
  unit = id.unit;
  data_of = d;
}

-- A histogram of numbers is `unreachable!`.
abbrev pub number_data :
    {W N : Type 0}
    → Kind
    → AggregationTemporality
    → List (NumberDataPoint W N)
    → Result (Data W N) Stop
number_data Kind.counter t points = ok (Data.sum points t true)
number_data Kind.gauge t points = ok (Data.gauge points)
number_data Kind.histogram t points = err Stop.panic

module _ {T N : Type 0} (to_f64 : T → Option N) where
  abbrev pub float_or : Error → T → Result N Stop
  float_or e x = ok_or e (to_f64 x)

  -- The loop over the boundaries.
  unfoldable pub bounds : List T → Result (List N) Stop
  bounds [] = ok []
  bounds (b ∷ bs) = do bound ← float_or Error.boundary_to_f64 b; rest ← bounds bs; ok (bound ∷ rest)

  -- `transpose` of what an extremum maps to.
  abbrev pub extremum : Option T → Result (Option N) Stop
  extremum none = ok none
  extremum (some x) = do n ← float_or Error.value_to_f64 x; ok (some n)

module _ {F W N : Type 0} (pb : AnyValue F W) (clock : SystemClock) where
  module _ {T : Type 0} (into_number_value : T → Result (NumberValue N) Error) where
    -- One round of the loops, for numbers.
    unfoldable pub number_point :
        ℕ → ℕ → Option Duration → List (KeyValue F) → Snapshot T → Result (NumberDataPoint W N) Stop
    number_point start_time start_nanos align attrs s = do
      time ← time_of clock start_time align s
      time_nanos ← or_stop (map_time clock.unix_epoch time)
      value ← or_stop (into_number_value s.value)
      ok (record {
        attributes = map_attrs pb attrs;
        start_time_unix_nano = start_nanos;
        time_unix_nano = time_nanos;
        value = value;
      })

    -- `into_wire` of a series of numbers.
    unfoldable pub number_wire :
        NameIdentity → Option Duration → Series (KeyValue F) T → Result (Option (Metric W N)) Stop
    unfolding number_point
    number_wire id align s = if_any s.series (do
      start_nanos ← or_stop (map_time clock.unix_epoch s.start_time)
      points ← series_points (number_point s.start_time start_nanos align) s.series
      unless_empty points (λ points. do
        d ← number_data s.kind (temporality s.observe_mode) points
        ok (metric_of id d)))

  module _ {T : Type 0} (to_f64 : T → Option N) where
    -- One round of the loops, for histograms.
    unfoldable pub histogram_point :
        ℕ
        → ℕ
        → Option Duration
        → List (KeyValue F)
        → Snapshot (Histogram.Snapshot T)
        → Result (HistogramDataPoint W N) Stop
    unfolding bounds
    histogram_point start_time start_nanos align attrs s = do
      time ← time_of clock start_time align s
      time_nanos ← or_stop (map_time clock.unix_epoch time)
      total ← float_or to_f64 Error.value_to_f64 s.value.sum
      explicit_bounds ← bounds to_f64 s.value.boundaries
      least ← extremum to_f64 s.value.min
      greatest ← extremum to_f64 s.value.max
      ok (record {
        attributes = map_attrs pb attrs;
        start_time_unix_nano = start_nanos;
        time_unix_nano = time_nanos;
        count = s.value.count;
        sum = total;
        bucket_counts = s.value.bucket_counts;
        explicit_bounds = explicit_bounds;
        min = least;
        max = greatest;
      })

    -- `into_wire` of a series of histograms.
    unfoldable pub histogram_wire :
        NameIdentity
        → Option Duration
        → Series (KeyValue F) (Histogram.Snapshot T)
        → Result (Option (Metric W N)) Stop
    unfolding histogram_point
    histogram_wire id align s = if_any s.series (do
      start_nanos ← or_stop (map_time clock.unix_epoch s.start_time)
      points ← series_points (histogram_point s.start_time start_nanos align) s.series
      unless_empty points
          (λ points. ok (metric_of id (Data.histogram points (temporality s.observe_mode)))))
