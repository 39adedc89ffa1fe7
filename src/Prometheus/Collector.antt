-- ===== src/Prometheus/Collector.antt =====
-- The scrape of src/prometheus/collector.rs: a source is what its `scrape` gives, in the order of
-- registration; a `BTreeMap` is a list whose keys increase, a `HashSet` a list.
pub mod Scrape
pub mod Enter
pub mod Gather
pub mod Samples
pub mod Recorded
use ohnotel.Base.{
  ℕ, Text, codes, Bool, true, false, Ordering, List, [], ◌∷◌, ◌++◌, Option, none, some, Result, ok,
  err, ◌>>=◌, if◌then◌else◌, ◌&&◌,
}
use ohnotel.Error.{Error, PrometheusError}
use ohnotel.Model.Lexicographic.{cmp_list, number_order}
use ohnotel.Model.Order.{Ord}
use ohnotel.Model.Value.{KeyValue}
use ohnotel.Model.Value.Laws.{key_value_order}
use ohnotel.Model.Display.{Format}
use ohnotel.Observe.{Kind}
use ohnotel.Atomic.Traits.{Record}
use ohnotel.BucketMap.State.{CanonicalEntry, Params, BucketMap}
use ohnotel.BucketMap.Ops.{visit_bucket}
use ohnotel.Prometheus.{eq_text, family_name}
use ohnotel.Prometheus.Labels.{contains}
use ohnotel.Prometheus.Render.{
  Float, NameIdentity, DataPoint, DataPointValue, Metric, render_metric,
}

-- What the closure of `scrape` captures: the points, and a failure.
abbrev pub Scraped : Type 0 → Type 0 → Type 0
Scraped F N = List (DataPoint F N) × Option Error

abbrev pub Families : Type 0 → Type 0 → Type 0
Families F N = List (Text × Metric F N)

module _ {F N A T S : Type 0} (r : Record T A S)
    (into_data_point_value : NameIdentity → S → Result (DataPointValue N) Error) where
  abbrev pub scrape_value :
      List (KeyValue F) → Result (DataPointValue N) Error → List (DataPoint F N) → Scraped F N
  scrape_value attrs (ok value) points =
      (points ++ record { attrs = attrs; value = value } ∷ [], none)
  scrape_value attrs (err failure) points = (points, some failure)

  -- The closure: after a failure nothing is read, and no bucket is evicted.
  unfoldable pub scrape_entry :
      NameIdentity → CanonicalEntry (KeyValue F) → A → Scraped F N → Bool × Scraped F N
  scrape_entry id entry bucket (points, some failure) = (true, (points, some failure))
  scrape_entry id entry bucket (points, none) =
      (true, scrape_value entry.attrs (into_data_point_value id (r.current bucket)) points)

  abbrev pub finish_scrape : NameIdentity → Kind → Scraped F N → Result (Option (Metric F N)) Error
  finish_scrape id kind (points, some failure) = err failure
  finish_scrape id kind ([], none) = ok none
  finish_scrape id kind (p ∷ ps, none) =
      ok (some (record { id = id; kind = kind; points = p ∷ ps }))

  module _ ⦃f : Ord F⦄ {p : Params (KeyValue F) A} where
    -- `SourceHandle::scrape`, with the observed map after it.
    unfoldable pub scrape :
        NameIdentity → Kind → BucketMap p → BucketMap p × Result (Option (Metric F N)) Error
    unfolding scrape_entry
    scrape id kind m =
        let (m', scraped) = visit_bucket r (scrape_entry id) m ([], none) in
        (m', finish_scrape id kind scraped)

-- `==` of two identities.
abbrev pub same_id : NameIdentity → NameIdentity → Bool
same_id a b =
    eq_text a.name b.name && (eq_text a.description b.description && eq_text a.unit b.unit)

abbrev pub same_kind : Kind → Kind → Bool
same_kind Kind.counter Kind.counter = true
same_kind Kind.gauge Kind.gauge = true
same_kind Kind.histogram Kind.histogram = true
same_kind _ _ = false

abbrev pub lift {ℓ} : {A : Type ℓ} → Result A PrometheusError → Result A Error
lift (ok a) = ok a
lift (err e) = err (Error.prometheus e)

module _ {F N : Type 0} where
  -- The occupied entry: the points of one more source.
  unfoldable pub extend : Text → Metric F N → Metric F N → Result (Metric F N) PrometheusError
  extend name metric family =
      if same_id family.id metric.id && same_kind family.kind metric.kind
      then ok (record family { points = family.points ++ metric.points })
      else err (PrometheusError.family_collision name)

  unfoldable pub enter_family :
      Text → Metric F N → Families F N → Result (Families F N) PrometheusError
  unfolding extend
  enter_family name metric [] = ok ((name, metric) ∷ [])
  enter_family name metric ((other, family) ∷ families) =
      let rest = enter_family name metric families in
      elim (cmp_list name other) [
        | Ordering.lt ↦ ok ((name, metric) ∷ (other, family) ∷ families)
        | Ordering.eq ↦ (do family' ← extend name metric family; ok ((other, family') ∷ families))
        | Ordering.gt ↦ (do families' ← rest; ok ((other, family) ∷ families'))
      ]

  -- One round of the first loop.
  unfoldable pub gather_one :
      Result (Option (Metric F N)) Error → Families F N → Result (Families F N) Error
  unfolding enter_family
  gather_one (err e) families = err e
  gather_one (ok none) families = ok families
  gather_one (ok (some metric)) families = do
    name ← lift (family_name metric.kind metric.id.name)
    lift (enter_family name metric families)

  unfoldable pub gather :
      List (Result (Option (Metric F N)) Error) → Families F N → Result (Families F N) Error
  unfolding gather_one
  gather [] families = ok families
  gather (scraped ∷ more) families = do
    families' ← gather_one scraped families
    gather more families'

abbrev pub suffixes : Kind → List Text
suffixes Kind.histogram = [] ∷ codes "_bucket" ∷ codes "_sum" ∷ codes "_count" ∷ []
suffixes Kind.counter = [] ∷ []
suffixes Kind.gauge = [] ∷ []

-- The loop over the suffixes.
unfoldable pub emit : Text → List Text → List Text → Result (List Text) PrometheusError
emit name [] emitted = ok emitted
emit name (suffix ∷ more) emitted =
    let sample = name ++ suffix in
    let rest = emit name more (sample ∷ emitted) in
    if contains sample emitted then err (PrometheusError.family_collision sample) else rest

module _ {F N : Type 0} where
  unfoldable pub emit_all :
      List (Text × Metric F N) → List Text → Result (List Text) PrometheusError
  unfolding emit
  emit_all [] emitted = ok emitted
  emit_all ((name, family) ∷ families) emitted = do
    emitted' ← emit name (suffixes family.kind) emitted
    emit_all families emitted'

  module _ (float : Float N) (format : Format F) where
    -- The last loop.
    unfoldable pub render_families : List (Text × Metric F N) → Result Text PrometheusError
    render_families [] = ok []
    render_families ((name, family) ∷ families) = do
      text ← render_metric float format family
      rest ← render_families families
      ok (text ++ rest)

    -- `Collector::render`
    unfoldable pub render : List (Result (Option (Metric F N)) Error) → Result Text Error
    unfolding gather emit_all render_families
    render sources = do
      families ← gather sources []
      emitted ← lift (emit_all families [])
      lift (render_families families)
