-- ===== src/Prometheus/Render/Families.antt =====
-- Which families `Metric::render_into` of src/prometheus/dto.rs accepts.
use ohnotel.Base.{
  ◌≡◌, ◌≢◌, ◌↔◌, refl, Text, List, [], ◌∷◌, map, ok, All, inl, inr, Result-cases, Option-cases,
  arith,
}
use ohnotel.Model.Lexicographic.{number_order, list_order}
use ohnotel.Model.Sorting.{sort_by}
use ohnotel.Model.Sorting.Distinct.{IsDistinctBy, IsDistinctBy-finer}
use ohnotel.Model.Display.{Format}
use ohnotel.Prometheus.{family_name}
use ohnotel.Prometheus.Names.{family_name_lem, family_name_total}
use ohnotel.Prometheus.Labels.{name_of, repeated, render_labels}
use ohnotel.Prometheus.Labels.Repeats.{repeated-sort_by_iff}
use ohnotel.Prometheus.Labels.Accept.{IsUsable, labels_of, render_labels_iff}
use ohnotel.Prometheus.Labels.Read.{series_labels, labels_text, labels_text_iff}
use ohnotel.Prometheus.Render.{
  Float, DataPoint, Metric, reserved_by, labels_first, label_points, unless_duplicate, write_family,
  render_metric,
}

module _ {F N : Type 0} (float : Float N) (format : Format F) where
  -- The labels of a point can be written: no key with a value is empty or sanitised to a reserved
  -- name, and no two are sanitised to one name.
  abbrev pub CanLabel : DataPoint F N → Type 0
  CanLabel point =
      All (IsUsable (reserved_by point.value)) point.attrs
      × IsDistinctBy name_of (labels_of point.attrs)

  abbrev pub series_of : DataPoint F N → List (Text × Text)
  series_of point = series_labels format point.attrs

  abbrev text_of : DataPoint F N → Text
  text_of point = labels_text format point.attrs

  abbrev labelled : List (DataPoint F N) → List (Text × DataPoint F N)
  labelled points = map (λ p. (text_of p, p)) points

  label_points_can :
      (metric : Text) (points : List (DataPoint F N))
      → All CanLabel points
      → label_points float format metric points ≡ ok (labelled points)
  unfolding label_points
  label_points_can metric [] h = refl
  label_points_can metric (p ∷ ps) h =
      rw
        (
          (render_labels_iff format metric (reserved_by p.value) p.attrs (text_of p)).1
              (h.0.0, h.0.1, refl),
          label_points_can metric ps h.1,
        )
        refl

  can_of_label_points :
      (metric : Text) (points : List (DataPoint F N)) (out : List (Text × DataPoint F N))
      → label_points float format metric points ≡ ok out
      → All CanLabel points
  unfolding label_points
  can_of_label_points metric [] out h = tt
  can_of_label_points metric (p ∷ ps) out h =
      elim (Result-cases (render_labels format metric p.attrs (reserved_by p.value))) [
        | inl (text, e) ↦ elim (Result-cases (label_points float format metric ps)) [
          | inl (rest, e') ↦
              let can = (render_labels_iff format metric (reserved_by p.value) p.attrs text).0 e in
              ((can.0, can.1), can_of_label_points metric ps rest e')
          | inr (bad, e') ↦ absurd (ground (arith, (rw (e, e') at h)))
        ]
        | inr (bad, e) ↦ absurd (ground (arith, (rw e at h)))
      ]

  away-labelled :
      (t : Text) (ps : List (DataPoint F N))
      → All (λ q. t ≢ labels_first q) (labelled ps) ↔ All (λ p. t ≢ text_of p) ps
  away-labelled t [] = (λ h. h, λ h. h)
  away-labelled t (p ∷ ps) =
      let (there, back) = away-labelled t ps in (λ h. (h.0, there h.1), λ h. (h.0, back h.1))

  distinct-labelled :
      (ps : List (DataPoint F N))
      → IsDistinctBy labels_first (labelled ps) ↔ IsDistinctBy text_of ps
  distinct-labelled [] = (λ h. h, λ h. h)
  distinct-labelled (p ∷ ps) =
      let (there, back) = distinct-labelled ps in
      let (out, into) = away-labelled (text_of p) ps in
      (λ h. (out h.0, there h.1), λ h. (into h.0, back h.1))

  distinct_series :
      (ps : List (DataPoint F N))
      → IsDistinctBy labels_first (labelled ps) ↔ IsDistinctBy series_of ps
  distinct_series ps =
      let (there, back) = distinct-labelled ps in
      (
        λ h.
            IsDistinctBy-finer text_of series_of (λ a b. (labels_text_iff format a.attrs b.attrs).1)
              ps (there h),
        λ h. back (
            IsDistinctBy-finer series_of text_of (λ a b. (labels_text_iff format a.attrs b.attrs).0)
              ps h),
      )

  name_of_family :
      (metric : Metric F N) (name : Text)
      → family_name metric.kind metric.id.name ≡ ok name
      → metric.id.name ≢ []
  name_of_family metric name h = (family_name_lem metric.kind metric.id.name name h).0

  family_of_name :
      (metric : Metric F N)
      → metric.id.name ≢ []
      → (name : Text) × (family_name metric.kind metric.id.name ≡ ok name)
  family_of_name metric h = family_name_total metric.kind metric.id.name h

  -- A family can be written: it has a name, every point has its labels, and no two have the same.
  abbrev pub CanRender : Metric F N → Type 0
  CanRender metric =
      (metric.id.name ≢ []) × All CanLabel metric.points × IsDistinctBy series_of metric.points

  render_metric_can :
      (metric : Metric F N)
      → CanRender metric
      → (out : Text) × (render_metric float format metric ≡ ok out)
  unfolding render_metric
  render_metric_can metric (named, can, apart) =
      let (name, e) = family_of_name metric named in
      let sorted = sort_by labels_first (labelled metric.points) in
      let fresh =
        (repeated-sort_by_iff labels_first (labelled metric.points)).1
          ((distinct_series metric.points).1 apart) in
      (
        write_family float format metric name sorted,
        rw (e, label_points_can metric.id.name metric.points can, fresh) refl,
      )

  not_repeated :
      (metric : Metric F N) (out : Text) {text : Text}
      → unless_duplicate metric.id.name
          (repeated labels_first (sort_by labels_first (labelled metric.points)))
          out
        ≡ ok text
      → IsDistinctBy series_of metric.points
  not_repeated metric out h =
      let first = labels_first in
      elim (Option-cases (repeated first (sort_by first (labelled metric.points)))) [
        | inl fresh ↦
            (distinct_series metric.points).0
              ((repeated-sort_by_iff first (labelled metric.points)).0 fresh)
        | inr (p, twice) ↦ absurd (ground (arith, (rw twice at h)))
      ]

  can_of_render_metric :
      (metric : Metric F N) (out : Text)
      → render_metric float format metric ≡ ok out
      → CanRender metric
  unfolding render_metric
  can_of_render_metric metric out h = elim (Result-cases (family_name metric.kind metric.id.name)) [
    | inr (bad, e) ↦ absurd (ground (arith, (rw e at h)))
    | inl (name, e) ↦ elim (Result-cases (label_points float format metric.id.name metric.points)) [
      | inr (bad, e') ↦ absurd (ground (arith, (rw (e, e') at h)))
      | inl (ps, e') ↦
          let can = can_of_label_points metric.id.name metric.points ps e' in
          let known = label_points_can metric.id.name metric.points can in
          let apart =
            not_repeated metric
              (write_family float format metric name
                (sort_by labels_first (labelled metric.points)))
              (rw (e, known) at h) in
          (name_of_family metric name e, can, apart)
    ]
  ]

  -- A family is rendered exactly if its name is not empty, each point's labels can be rendered, and
  -- no two points have the same label names with the same shown values.
  pub render_metric_iff :
      (metric : Metric F N)
      → ((out : Text) × (render_metric float format metric ≡ ok out)) ↔ CanRender metric
  render_metric_iff metric = (λ h. can_of_render_metric metric h.0 h.1, render_metric_can metric)
