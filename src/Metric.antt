-- ===== src/Metric.antt =====
-- The handles of src/metric.rs: a gauge, a counter and a histogram are a bucket map each, and
-- forward to it. `new` differs from `with_hasher` in the hasher alone.
pub mod Values
use ohnotel.Base.{Bool, List, Option, none, some, Result, ok, err}
use ohnotel.Error.{Error}
use ohnotel.Model.Order.{Ord}
use ohnotel.Fingerprint.{BuildHasher}
use ohnotel.Table.{HashTable}
use ohnotel.Atomic.Traits.{Cell, Record}
use ohnotel.Atomic.Histogram
use ohnotel.Atomic.Histogram.{Bucket, Snapshot}
use ohnotel.BucketMap.State.{
  CanonicalEntry, AliasEntry, Params, BucketMap, with_storage, update_cell,
}
use ohnotel.BucketMap.Lookup.{get_bucket}
use ohnotel.BucketMap.Ops
use ohnotel.Observe.{Kind}

-- The hasher and the tables that a map is built with.
pub record Storage (K A : Type 0) : Type 1 where
  pub build : BuildHasher K
  pub canon : HashTable (CanonicalEntry K)
  pub alias : HashTable (AliasEntry K)

abbrev pub params : {K A : Type 0} → Storage K A → A → Params K A
params s a = record { build = s.build; canon = s.canon; alias = s.alias; init_bucket = a }

-- `Gauge` and `Counter`, whose buckets start from the default value.
module _ {K T A : Type 0} ⦃o : Ord K⦄ (c : Cell T A) where
  abbrev pub scalar_params : Storage K A → Params K A
  scalar_params s = params s (c.from c.measure.default)

  unfoldable pub with_hasher : (s : Storage K A) → BucketMap (scalar_params s)
  with_hasher s = with_storage (scalar_params s)

  module _ {p : Params K A} where
    unfoldable pub gauge_add : T → List K → BucketMap p → BucketMap p
    gauge_add value attrs m = Ops.add c.recording value attrs m

    unfoldable pub gauge_sub : T → List K → BucketMap p → BucketMap p
    gauge_sub value attrs m = Ops.sub c.recording value attrs m

    unfoldable pub gauge_get : List K → BucketMap p → Option T
    gauge_get attrs m = Ops.get c.scalar attrs m

    unfoldable pub gauge_set : T → List K → BucketMap p → BucketMap p
    gauge_set value attrs m = Ops.set c.scalar value attrs m

    unfoldable pub gauge_reset : List K → BucketMap p → BucketMap p × T
    gauge_reset attrs m = Ops.reset c.scalar attrs m

    unfoldable pub counter_add : T → List K → BucketMap p → BucketMap p
    counter_add value attrs m = Ops.add c.recording value attrs m

    unfoldable pub counter_get : List K → BucketMap p → Option T
    counter_get attrs m = Ops.get c.scalar attrs m

    unfoldable pub counter_reset : List K → BucketMap p → BucketMap p × T
    counter_reset attrs m = Ops.reset c.scalar attrs m

-- `Histogram`
module _ {K T A : Type 0} ⦃o : Ord K⦄ (c : Cell T A) where
  abbrev pub histogram_params : Storage K (Bucket T A) → List T → Params K (Bucket T A)
  histogram_params s boundaries = params s (Histogram.from_checked_boundaries c boundaries)

  unfoldable pub histogram_with_hasher :
      (s : Storage K (Bucket T A))
      → List T
      → Result ((boundaries : List T) × BucketMap (histogram_params s boundaries)) Error
  histogram_with_hasher s boundaries = elim (Histogram.checked_boundaries c.measure boundaries) [
    | ok checked ↦ ok (checked, with_storage (histogram_params s checked))
    | err e ↦ err e
  ]

  module _ {p : Params K (Bucket T A)} where
    unfoldable pub histogram_add :
        (Snapshot T → Snapshot T → Bool) → T → List K → BucketMap p → BucketMap p
    histogram_add equal value attrs m = Ops.add (Histogram.bucket_recording c equal) value attrs m

    unfoldable pub histogram_clear : (Snapshot T → Snapshot T → Bool) → BucketMap p → BucketMap p
    histogram_clear equal m = Ops.clear (Histogram.bucket_recording c equal) m

    unfoldable pub histogram_snapshot : List K → BucketMap p → Option (Snapshot T)
    histogram_snapshot attrs m = elim (get_bucket attrs m) [
      | ok b ↦ some (Histogram.snapshot c (m.heap.cell b))
      | err e ↦ none
    ]

    unfoldable pub histogram_take : List K → BucketMap p → BucketMap p × Option (Snapshot T)
    histogram_take attrs m = elim (get_bucket attrs m) [
      | ok b ↦ (
        record m { heap = update_cell b (Histogram.clear c) m.heap },
        some (Histogram.take c (m.heap.cell b)).1,
      )
      | err e ↦ (m, none)
    ]
