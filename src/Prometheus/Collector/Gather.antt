-- ===== src/Prometheus/Collector/Gather.antt =====
-- The families of a scrape (src/prometheus/collector.rs, the first loop of `render`).
use mathlib.Core.List.{append_assoc, append-nil}
use mathlib.Core.Path.{subst}
use ohnotel.Base.{
  ◌≡◌, refl, sym, ap, ◌∙◌, Text, true, List, [], ◌∷◌, ◌++◌, Option, none, some, Result, ok, err,
  ok-injective, if◌then◌else◌, ◌&&◌, Bool-cases, Result-cases, inl, inr, arith, All,
}
use ohnotel.Error.{Error, PrometheusError}
use ohnotel.Model.Lexicographic.{number_order, list_order}
use ohnotel.Observe.{Kind}
use ohnotel.Prometheus.{eq_text, family_name}
use ohnotel.Prometheus.Labels.Repeats.{eq_text_iff, eq_text_self}
use ohnotel.Prometheus.Render.{DataPoint, Metric}
use ohnotel.Prometheus.Collector.{
  Families, same_id, same_kind, lift, enter_family, gather_one, gather,
}
use ohnotel.Prometheus.Collector.Enter.{
  find, RisesAfter, joined, agrees, Agrees, Entered, enter_from,
}

same_kind_refl : (kind : Kind) → same_kind kind kind ≡ true
same_kind_refl Kind.counter = refl
same_kind_refl Kind.gauge = refl
same_kind_refl Kind.histogram = refl

lifted : {A : Type 0} (m : Result A PrometheusError) {a : A} → lift m ≡ ok a → m ≡ ok a
lifted (ok b) h = ap ok (ok-injective h)
lifted (err e) h = cc

module _ {F N : Type 0} where
  abbrev pub points_of : Option (Metric F N) → List (DataPoint F N)
  points_of none = []
  points_of (some family) = family.points

  -- The points of a source whose family name it is.
  abbrev pub points_if : Text → Metric F N → Result Text PrometheusError → List (DataPoint F N)
  points_if name metric (err e) = []
  points_if name metric (ok family) = if eq_text family name then metric.points else []

  abbrev pub points_one : Text → Result (Option (Metric F N)) Error → List (DataPoint F N)
  points_one name (err e) = []
  points_one name (ok none) = []
  points_one name (ok (some metric)) =
      points_if name metric (family_name metric.kind metric.id.name)

  abbrev pub points_under : Text → List (Result (Option (Metric F N)) Error) → List (DataPoint F N)
  points_under name [] = []
  points_under name (scraped ∷ more) = points_one name scraped ++ points_under name more

  -- A source that is part of a family of its name, identity and kind.
  pub record HasFamily (out : Families F N) (metric : Metric F N) : Type 0 where
    pub name : Text
    pub family : Metric F N
    pub named : family_name metric.kind metric.id.name ≡ ok name
    pub found : find name out ≡ some family
    pub agreed : same_id family.id metric.id && same_kind family.kind metric.kind ≡ true

  abbrev pub IsJoined : Families F N → Result (Option (Metric F N)) Error → Type 0
  IsJoined out (err e) = ⊥
  IsJoined out (ok none) = Unit
  IsJoined out (ok (some metric)) = HasFamily out metric

  -- A family keeps its name, identity and kind.
  record Keeps (fams out : Families F N) : Type 0 where
    family : Text → Metric F N → Metric F N
    found : (n : Text) (f : Metric F N) → find n fams ≡ some f → find n out ≡ some (family n f)
    id : (n : Text) (f : Metric F N) → (family n f).id ≡ f.id
    kind : (n : Text) (f : Metric F N) → (family n f).kind ≡ f.kind

  record Gathered (fams out : Families F N) (sources : List (Result (Option (Metric F N)) Error))
      : Type 0 where
    rises : RisesAfter none out
    points : (n : Text) → points_of (find n out) ≡ points_of (find n fams) ++ points_under n sources
    joined_all : All (IsJoined out) sources
    keeps : Keeps fams out

  Keeps-refl : (fams : Families F N) → Keeps fams fams
  Keeps-refl fams = record {
    family = λ n f. f;
    found = λ n f e. e;
    id = λ n f. refl;
    kind = λ n f. refl;
  }

  Keeps-trans : {fams mid out : Families F N} → Keeps fams mid → Keeps mid out → Keeps fams out
  Keeps-trans a b = record {
    family = λ n f. b.family n (a.family n f);
    found = λ n f e. b.found n (a.family n f) (a.found n f e);
    id = λ n f. b.id n (a.family n f) ∙ a.id n f;
    kind = λ n f. b.kind n (a.family n f) ∙ a.kind n f;
  }

  IsJoined-Keeps :
      {mid out : Families F N} (scraped : Result (Option (Metric F N)) Error)
      → Keeps mid out
      → IsJoined mid scraped
      → IsJoined out scraped
  IsJoined-Keeps (err e) k h = h
  IsJoined-Keeps (ok none) k h = tt
  IsJoined-Keeps (ok (some metric)) k h = record {
    name = h.name;
    family = k.family h.name h.family;
    named = h.named;
    found = k.found h.name h.family h.found;
    agreed = rw (k.id h.name h.family, k.kind h.name h.family) h.agreed;
  }

  same_id_refl : (metric : Metric F N) → agrees metric metric ≡ true
  same_id_refl metric =
      rw
        (
          eq_text_self metric.id.name,
          eq_text_self metric.id.description,
          eq_text_self metric.id.unit,
        )
        (same_kind_refl metric.kind)

  agrees-joined :
      (metric : Metric F N) (found : Option (Metric F N))
      → Agrees metric found
      → agrees metric (joined metric found) ≡ true
  agrees-joined metric none h = same_id_refl metric
  agrees-joined metric (some family) h = h

  points-joined :
      (metric : Metric F N) (found : Option (Metric F N))
      → points_of (some (joined metric found)) ≡ points_of found ++ metric.points
  points-joined metric none = refl
  points-joined metric (some family) = refl

  -- One more source, with its name.
  module _ (name : Text) (metric : Metric F N) (fams out : Families F N)
      (named : family_name metric.kind metric.id.name ≡ ok name)
      (entered : Entered name metric fams out) where
    entered_points :
        (n : Text)
        → points_of (find n out) ≡ points_of (find n fams) ++ points_one n (ok (some metric))
    entered_points n =
        rw (entered.found n, named)
          (elim (Bool-cases (eq_text name n)) [
            | inl here ↦
                let known : find name fams ≡ find n fams =
                  ap (λ z. find z fams) ((eq_text_iff name n).0 here) in
                rw (here, sym known) (points-joined metric (find name fams))
            | inr away ↦ rw away (sym (append-nil (points_of (find n fams))))
          ])

    entered-Keeps : Keeps fams out
    entered-Keeps = record {
      family = λ n f. if eq_text name n then joined metric (some f) else f;
      found = λ n f e. elim (Bool-cases (eq_text name n)) [
        | inl here ↦
            let known : find name fams ≡ some f =
              ap (λ z. find z fams) ((eq_text_iff name n).0 here) ∙ e in
            entered.found n ∙ rw (here, known) refl
        | inr away ↦ entered.found n ∙ rw away e
      ];
      id = λ n f. elim (Bool-cases (eq_text name n)) [ inl e ↦ rw e refl | inr e ↦ rw e refl ];
      kind = λ n f. elim (Bool-cases (eq_text name n)) [ inl e ↦ rw e refl | inr e ↦ rw e refl ];
    }

    entered_joins : HasFamily out metric
    entered_joins = record {
      name = name;
      family = joined metric (find name fams);
      named = named;
      found = entered.found name ∙ rw (eq_text_self name) refl;
      agreed = agrees-joined metric (find name fams) entered.agreed;
    }

  gather_source :
      (scraped : Result (Option (Metric F N)) Error) (fams out : Families F N)
      → RisesAfter none fams
      → gather_one scraped fams ≡ ok out
      → RisesAfter none out
        × ((n : Text) → points_of (find n out) ≡ points_of (find n fams) ++ points_one n scraped)
        × IsJoined out scraped
        × Keeps fams out
  unfolding gather_one
  gather_source (err e) fams out s h = absurd (ground (arith, h))
  gather_source (ok none) fams out s h =
      let e = ok-injective h in
      subst
        (λ z.
          RisesAfter none z
          × ((n : Text) → points_of (find n z) ≡ points_of (find n fams) ++ [])
          × Unit {0}
          × Keeps fams z)
        e (s, λ n. sym (append-nil (points_of (find n fams))), tt, Keeps-refl fams)
  gather_source (ok (some metric)) fams out s h =
      elim (Result-cases (family_name metric.kind metric.id.name)) [
        | inl (name, named) ↦
            let entering : enter_family name metric fams ≡ ok out = lifted _ (rw named at h) in
            let (rises, entered) = enter_from none name metric fams out tt s entering in
            (
              rises,
              entered_points name metric fams out named entered,
              entered_joins name metric fams out named entered,
              entered-Keeps name metric fams out named entered,
            )
        | inr (bad, e) ↦ absurd (ground (arith, (rw e at h)))
      ]

  gather_from :
      (sources : List (Result (Option (Metric F N)) Error)) (fams out : Families F N)
      → RisesAfter none fams
      → gather sources fams ≡ ok out
      → Gathered fams out sources
  unfolding gather
  gather_from [] fams out s h =
      subst (λ z. Gathered fams z []) (ok-injective h)
        (record {
          rises = s;
          points = λ n. sym (append-nil (points_of (find n fams)));
          joined_all = tt;
          keeps = Keeps-refl fams;
        })
  gather_from (scraped ∷ more) fams out s h = elim (Result-cases (gather_one scraped fams)) [
    | inl (mid, e) ↦
        let (rises, points, joins, keeps) = gather_source scraped fams mid s e in
        let rest = gather_from more mid out rises (rw e at h) in
        record {
          rises = rest.rises;
          points = λ n.
              rest.points n
              ∙ ap (λ z. z ++ points_under n more) (points n)
              ∙ append_assoc (points_of (find n fams)) (points_one n scraped) (points_under n more);
          joined_all = (IsJoined-Keeps scraped rest.keeps joins, rest.joined_all);
          keeps = Keeps-trans keeps rest.keeps;
        }
    | inr (bad, e) ↦ absurd (ground (arith, (rw e at h)))
  ]

  -- If no source fails and no families collide: the names of the gathered families increase; the
  -- points under a name are those of the sources with that rendered name, in the order of
  -- registration; and every source that gave a metric is in a family of the same identity and kind.
  pub gather_lem :
      (sources : List (Result (Option (Metric F N)) Error)) (out : Families F N)
      → gather sources [] ≡ ok out
      → RisesAfter none out
        × ((n : Text) → points_of (find n out) ≡ points_under n sources)
        × All (IsJoined out) sources
  gather_lem sources out h =
      let all = gather_from sources [] out tt h in (all.rises, all.points, all.joined_all)
