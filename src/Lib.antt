-- ===== src/Lib.antt =====
-- ohnotel: metrics with attributes, recorded in place and collected periodically. The modelled
-- parts, from the inside out:
--
-- * A cell holds one metric value. src/atomic/mod.rs, src/atomic/integers.rs: Atomic/Traits and
--   Atomic/Integers. A cell is its contents; `u64` and `i64` are their bit patterns, with the
--   wrap-around written out.
-- * A histogram is a cell with a counter for each range of values. src/atomic/histogram.rs:
--   Atomic/Histogram (`Bucket::new`, `add`, `sub`, `take`, `snapshot`, the difference of
--   snapshots), and Atomic/Histogram/Writes for the single accesses that `add` and `sub` make.
-- * The sequence lock lets a reader of a histogram see a state between writes. src/lock.rs: Lock, a
--   step relation over the counters `start` and `end`, the writers inside, and one reader. All
--   threads see the accesses in one order; the weaker orderings of the hardware are not modelled.
-- * A bucket map files cells under lists of attributes. src/bucket_map.rs: Attrs (sorting and
--   deduplicating), Fingerprint (`AttrFingerprint`), BucketMap/State, BucketMap/Lookup
--   (`get_bucket`, `get_or_create`, `insert_canon`, `insert_dup`), BucketMap/Ops (`add`, `sub`, `set`, `get`,
--   `reset`, `clear`, `take`, `visit_bucket`), BucketMap/Inv (what a well-formed map is). The order
--   of attributes is the interface Model/Order; `hashbrown::HashTable` is the interface Table, with
--   the laws that the crate documents, and Table/Model fills it; the hasher is a parameter without
--   laws. An `Arc` of a bucket is an address of a heap of cells. The calls run one at a time.
-- * An observer turns the contents of a map into series of snapshots. src/observe.rs, src/dto.rs:
--   Observe (`SyncObserver::new`, `reset`, `observe_impl`, `observe_destructive`, `take`).
-- * Timers give the worker its grid. src/collect/timer.rs, src/dto.rs: Timer (`CollectorTime::at`,
--   `GridTimer`, `align_ts`). Instants are numbers of nanoseconds up to a greatest one, a
--   parameter.
-- * A collection hands sources to collectors once. src/collect/mod.rs: Collect (`Collection::add`).
-- * The periodic collector observes and exports. src/collect/periodic.rs: Collect/Periodic
--   (`Collector::new`, `Worker::maybe_observe`, `maybe_export`, `handle`) and Collect/Periodic/Loop
--   (`block`, `process_send`). A turn of the loop takes the readings of the clock, the commands
--   that the channel gives, and what the sender's task does before it (it takes batches, and may
--   end, which closes the channel of batches), so that a run goes over a list of turns.
-- * A floating-point cell retries its exchanges. src/atomic/float.rs: Atomic/Float (`update_with`,
--   and `add`, `sub`, `fetch_min`, `fetch_max`, `store`) and Atomic/Float/Measure (the traits).
-- * Gauges, counters and histograms are the handles of the application. src/metric.rs: Metric.
-- * Attributes are keys with optional values. src/model.rs: Model/Str (`Str::ptr_eq`, `cmp`),
--   Model/Value (the derived order, from an order of floats) and Model/Display.
-- * The text exposition format of Prometheus. src/prometheus/dto.rs: Prometheus (`family_name`, the
--   names and the escapes), Prometheus/Labels (`render_labels`) and Prometheus/Render
--   (`Metric::render_into`, `HistogramValue::render_into`, `into_data_point_value`). The formatting
--   of floats and the escapes of Rust's debug output are parameters.
-- * A scrape renders all sources. src/prometheus/collector.rs: Prometheus/Collector
--   (`SourceHandle::scrape`, `Collector::render`).
-- * The wire mappings walk a series of snapshots. src/otel/dto.rs and src/console/dto.rs: Wire (the
--   walk), Otel (`into_wire`, `map_time`), Otel/Resource (`Resource::into_attributes`), Otel/Sender
--   (src/otel/sender.rs, `export`, where the call of the service is an argument) and Console
--   (`into_wire`, `Metric::render`). The protobuf form of a value and the formatting of floats are
--   parameters; of a message the fields that the source leaves empty are left out.
--
-- Every function is total without fuel: the loops go over lists. Not modelled are the printing
-- (src/console/sender.rs), the threads and channels of the runtime, and the conversions `From` of
-- src/model.rs, which only wrap. Tests holds concrete inputs.
pub mod Base
pub mod Model
pub mod Attrs
pub mod Fingerprint
pub mod Table
pub mod Error
pub mod Atomic
pub mod BucketMap
pub mod Lock
pub mod Timer
pub mod Observe
pub mod Collect
pub mod Metric
pub mod Prometheus
pub mod Wire
pub mod Otel
pub mod Console
pub mod Tests
