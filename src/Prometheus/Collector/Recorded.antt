-- ===== src/Prometheus/Collector/Recorded.antt =====
-- What a scrape (src/prometheus/collector.rs) shows of a value that was recorded in the map
-- (src/bucket_map.rs).
use mathlib.Core.Option
use ohnotel.Base.{
  ℕ, ◌≡◌, refl, ap, ◌∙◌, List, [], ◌∷◌, ◌++◌, Option, none, some, Result, ok, map, if◌then◌else◌,
  Bool-cases, inl, inr, arith,
}
use ohnotel.Error.{Error}
use ohnotel.Model.Order.{Ord}
use ohnotel.Model.Value.{KeyValue}
use ohnotel.Model.Value.Laws.{key_value_order}
use ohnotel.Attrs.{normalize, eq_attrs}
use ohnotel.Attrs.Sort.{eq_attrs_refl}
use ohnotel.Observe.{Kind, get}
use ohnotel.Atomic.Traits.{Record}
use ohnotel.Table.Items.{first}
use ohnotel.BucketMap.State.{CanonicalEntry, Params, BucketMap}
use ohnotel.BucketMap.Lookup.{has_attrs}
use ohnotel.BucketMap.Ops.{record_with}
use ohnotel.BucketMap.Inv.{entries_of, bucket_for, Inv, NoCollision}
use ohnotel.BucketMap.Contents.{view, or_init, record_with-view, record_with-Inv}
use ohnotel.Prometheus.Render.{NameIdentity, DataPoint, DataPointValue, Metric}
use ohnotel.Prometheus.Collector.{scrape}
use ohnotel.Prometheus.Collector.Scrape.{readings, all_points, as_family, visible, scrape_lem}

module _ {F N A T S : Type 0} ⦃f : Ord F⦄ (r : Record T A S)
    (into_data_point_value : NameIdentity → S → Result (DataPointValue N) Error) where
  -- The value of the first point with some attributes.
  abbrev pub value_at : List (KeyValue F) → List (DataPoint F N) → Option (DataPointValue N)
  value_at k [] = none
  value_at k (p ∷ ps) = if eq_attrs p.attrs k then some p.value else value_at k ps

  get-readings :
      (k : List (KeyValue F)) (cell : ℕ → A) (xs : List (ℕ × CanonicalEntry (KeyValue F)))
      → get k (readings r into_data_point_value cell xs)
        ≡ Option.map r.current (
            Option.map cell
              (Option.map (λ (e : CanonicalEntry (KeyValue F)). e.bucket) (first (has_attrs k) xs)))
  unfolding get first
  get-readings k cell [] = refl
  get-readings k cell ((h, e) ∷ xs) = elim (Bool-cases (eq_attrs e.attrs k)) [
    | inl here ↦ rw here refl
    | inr there ↦ rw there (get-readings k cell xs)
  ]

  get-append :
      {V : Type 0} (k : List (KeyValue F)) (xs ys : List (List (KeyValue F) × V)) (v : V)
      → get k xs ≡ some v
      → get k (xs ++ ys) ≡ some v
  unfolding get
  get-append k [] ys v h = absurd (ground arith)
  get-append k ((j, w) ∷ xs) ys v h = elim (Bool-cases (eq_attrs j k)) [
    | inl here ↦ rw here (rw here at h)
    | inr there ↦ rw there (get-append k xs ys v (rw there at h))
  ]

  module _ (id : NameIdentity) (convert : S → DataPointValue N)
      (total : (s : S) → into_data_point_value id s ≡ ok (convert s)) where
    abbrev point : List (KeyValue F) × S → DataPoint F N
    point (attrs, s) = record { attrs = attrs; value = convert s }

    all_points-total :
        (xs : List (List (KeyValue F) × S))
        → all_points r into_data_point_value id xs ≡ ok (map point xs)
    all_points-total [] = refl
    all_points-total ((attrs, s) ∷ xs) = rw (total s, all_points-total xs) refl

    value_at-point :
        (k : List (KeyValue F)) (xs : List (List (KeyValue F) × S))
        → value_at k (map point xs) ≡ Option.map convert (get k xs)
    unfolding get
    value_at-point k [] = refl
    value_at-point k ((attrs, s) ∷ xs) = elim (Bool-cases (eq_attrs attrs k)) [
      | inl here ↦ rw here refl
      | inr there ↦ rw there (value_at-point k xs)
    ]

    family_with :
        (kind : Kind) (k : List (KeyValue F)) (ps : List (DataPoint F N)) (v : DataPointValue N)
        → value_at k ps ≡ some v
        → (metric : Metric F N) × (as_family r into_data_point_value id kind (ok ps)
            ≡ ok (some metric))
          × (value_at k metric.points ≡ some v)
    family_with kind k [] v h = absurd (ground arith)
    family_with kind k (q ∷ qs) v h = (record { id = id; kind = kind; points = q ∷ qs }, refl, h)

    module _ {p : Params (KeyValue F) A} where
      get-visible :
          (m : BucketMap p) (k : List (KeyValue F)) (a : A)
          → view m k ≡ some a
          → get k (visible r into_data_point_value m) ≡ some (r.current a)
      unfolding bucket_for
      get-visible m k a h =
          let entries = readings r into_data_point_value m.heap.cell (entries_of m) in
          let found : get k entries ≡ some (r.current a) =
            get-readings k m.heap.cell (entries_of m) ∙ ap (Option.map r.current) h in
          let root = m.no_attr_entry in
          elim (Bool-cases m.no_attr_touched) [
            | inl touched ↦ rw touched (get-append k entries _ (r.current a) found)
            | inr untouched ↦ rw untouched found
          ]

      -- If every snapshot of the metric has a sample value: a scrape after recording under at least
      -- one attribute in a well-formed map, if no alias of the map has the fingerprint of the list
      -- and another normal form, gives a metric, in which the point under the normalised list shows
      -- what the recording made of the earlier contents, or of the initial ones.
      pub scrape-record_with :
          (kind : Kind) {m : BucketMap p} (inv : Inv m) (change : A → A) (a : KeyValue F)
          (more : List (KeyValue F))
          → NoCollision m (a ∷ more)
          → let k = normalize (a ∷ more) in
            (metric : Metric F N) × ((scrape r into_data_point_value id kind
                (record_with change (a ∷ more) m)).1
              ≡ ok (some metric))
            × (value_at k metric.points
                ≡ some (convert (r.current (change (or_init p (view m k))))))
      scrape-record_with kind {m} inv change a more apart =
          let k = normalize (a ∷ more) in
          let m' = record_with change (a ∷ more) m in
          let new = change (or_init p (view m k)) in
          let here : view m' k ≡ some new =
            record_with-view inv change a more apart k
            ∙ ap (λ b. if b then some new else view m k) (eq_attrs_refl k) in
          let shown : value_at k (map point (visible r into_data_point_value m'))
              ≡ some (convert (r.current new)) =
            value_at-point k (visible r into_data_point_value m')
            ∙ ap (Option.map convert) (get-visible m' k new here) in
          let (metric, made, at_key) = family_with kind k _ _ shown in
          let scraped =
            (scrape_lem r into_data_point_value id kind
              (record_with-Inv inv change (a ∷ more) apart)).0 in
          (
            metric,
            scraped
                ∙ ap (as_family r into_data_point_value id kind)
                    (all_points-total (visible r into_data_point_value m'))
                ∙ made,
            at_key,
          )
