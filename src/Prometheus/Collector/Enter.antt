-- ===== src/Prometheus/Collector/Enter.antt =====
-- Entering a source into the families (src/prometheus/collector.rs).
use mathlib.Core.Path.{subst}
use ohnotel.Base.{
  ◌≡◌, refl, sym, ap, ◌∙◌, Text, Bool, true, false, Ordering, [], ◌∷◌, ◌++◌, Option, none, some,
  Result, ok, err, ok-injective, ◌>>=◌, if◌then◌else◌, ◌&&◌, Bool-cases, inl, inr, arith,
}
use ohnotel.Error.{PrometheusError}
use ohnotel.Model.Lexicographic.{
  cmp_list, cmp_list_refl, eq_of_cmp_list, cmp_list_gt_symm, cmp_list_lt_trans, number_order,
  list_order,
}
use ohnotel.Prometheus.{eq_text}
use ohnotel.Prometheus.Labels.Repeats.{eq_text-false, eq_text_self}
use ohnotel.Prometheus.Render.{Metric}
use ohnotel.Prometheus.Collector.{Families, same_id, same_kind, extend, enter_family}

ok-bind :
    {A B : Type 0} (m : Result A PrometheusError) (g : A → B) {b : B}
    → (do a ← m; ok (g a)) ≡ ok b
    → (a : A) × (m ≡ ok a) × (b ≡ g a)
ok-bind (ok a) g h = (a, refl, sym (ok-injective h))
ok-bind (err e) g h = cc

data Compared (name other : Text) : Type 0 where
  before : cmp_list name other ≡ Ordering.lt → Compared name other
  same : cmp_list name other ≡ Ordering.eq → Compared name other
  behind : cmp_list name other ≡ Ordering.gt → Compared name other

compared : (name other : Text) → Compared name other
compared name other =
    elim (cmp_list name other) as (λ c. cmp_list name other ≡ c → Compared name other) [
      | Ordering.lt ↦ Compared.before
      | Ordering.eq ↦ Compared.same
      | Ordering.gt ↦ Compared.behind
    ]
      refl

-- The keys increase, from one on if there is one.
abbrev pub IsAfter : Option Text → Text → Type 0
IsAfter none name = Unit
IsAfter (some k) name = cmp_list k name ≡ Ordering.lt

module _ {F N : Type 0} where
  abbrev pub key : Text × Metric F N → Text
  key entry = entry.0

  -- `BTreeMap::get`
  abbrev pub find : Text → Families F N → Option (Metric F N)
  find name [] = none
  find name ((other, family) ∷ families) =
      if eq_text other name then some family else find name families

  abbrev pub RisesAfter : Option Text → Families F N → Type 0
  RisesAfter k [] = Unit
  RisesAfter k ((name, family) ∷ fams) = IsAfter k name × RisesAfter (some name) fams

  -- One more source of a family.
  abbrev pub joined : Metric F N → Option (Metric F N) → Metric F N
  joined metric none = metric
  joined metric (some family) = record family { points = family.points ++ metric.points }

  abbrev pub agrees : Metric F N → Metric F N → Bool
  agrees metric family = same_id family.id metric.id && same_kind family.kind metric.kind

  abbrev pub Agrees : Metric F N → Option (Metric F N) → Type 0
  Agrees metric none = Unit
  Agrees metric (some family) = agrees metric family ≡ true

  -- What entering a source does, if the keys increase from one on.
  pub record Entered (name : Text) (metric : Metric F N) (fams fams' : Families F N) : Type 0 where
    pub found :
        (n : Text)
        → find n fams'
          ≡ (if eq_text name n then some (joined metric (find name fams)) else find n fams)
    pub agreed : Agrees metric (find name fams)

  find_below :
      (name k : Text) (fams : Families F N)
      → cmp_list name k ≡ Ordering.lt
      → RisesAfter (some k) fams
      → find name fams ≡ none
  find_below name k [] h s = refl
  find_below name k ((other, family) ∷ fams) h s =
      let further = cmp_list_lt_trans name k other h s.0 in
      let differ : eq_text other name ≡ false =
        eq_text-false other name
          (λ e. ground (arith, further, cmp_list_refl name, ap (cmp_list name) e)) in
      rw differ (find_below name other fams further s.1)

  extend_lem :
      (name : Text) (metric family family' : Metric F N)
      → extend name metric family ≡ ok family'
      → (family' ≡ joined metric (some family)) × (agrees metric family ≡ true)
  unfolding extend
  extend_lem name metric family family' h = elim (Bool-cases (agrees metric family)) [
    | inl e ↦ (sym (ok-injective (rw e at h)), e)
    | inr e ↦ absurd (ground (arith, (rw e at h)))
  ]

  module _ (name other : Text) (metric family : Metric F N) (fams : Families F N) where
    enter_lt :
        cmp_list name other ≡ Ordering.lt
        → enter_family name metric ((other, family) ∷ fams)
          ≡ ok ((name, metric) ∷ (other, family) ∷ fams)
    unfolding enter_family
    enter_lt e = rw (e, enter_family) refl

    enter_eq :
        cmp_list name other ≡ Ordering.eq
        → enter_family name metric ((other, family) ∷ fams)
          ≡ (do family' ← extend name metric family; ok ((other, family') ∷ fams))
    unfolding enter_family
    enter_eq e = rw (e, enter_family) refl

    enter_gt :
        cmp_list name other ≡ Ordering.gt
        → enter_family name metric ((other, family) ∷ fams)
          ≡ (do fams' ← enter_family name metric fams; ok ((other, family) ∷ fams'))
    unfolding enter_family
    enter_gt e = rw (e, enter_family) refl

  not_found_before :
      (name other : Text) (family : Metric F N) (fams : Families F N)
      → cmp_list name other ≡ Ordering.lt
      → RisesAfter (some other) fams
      → find name ((other, family) ∷ fams) ≡ none
  not_found_before name other family fams e s =
      let differ : eq_text other name ≡ false =
        eq_text-false other name
          (λ same'. ground (arith, e, cmp_list_refl name, ap (cmp_list name) same')) in
      rw differ (find_below name other fams e s)

  enter_nil :
      (name : Text) (metric : Metric F N) → enter_family name metric [] ≡ ok ((name, metric) ∷ [])
  unfolding enter_family
  enter_nil name metric = refl

  -- The same name at the head, with what it became.
  Entered-head :
      (name : Text) (metric family family' : Metric F N) (fams : Families F N)
      → family' ≡ joined metric (some family)
      → agrees metric family ≡ true
      → Entered name metric ((name, family) ∷ fams) ((name, family') ∷ fams)
  Entered-head name metric family family' fams e agree =
      let here : find name ((name, family) ∷ fams) ≡ some family = rw (eq_text_self name) refl in
      record {
        found = λ n. rw here (elim (Bool-cases (eq_text name n)) [
          | inl same' ↦ rw (same', e) refl
          | inr other ↦ rw other refl
        ]);
        agreed = subst (Agrees metric) (sym here) agree;
      }

  -- Another name at the head.
  Entered-tail :
      (name other : Text) (metric family : Metric F N) (fams rest : Families F N)
      → eq_text other name ≡ false
      → Entered name metric fams rest
      → Entered name metric ((other, family) ∷ fams) ((other, family) ∷ rest)
  Entered-tail name other metric family fams rest differ entered =
      let there : find name ((other, family) ∷ fams) ≡ find name fams = rw differ refl in
      record {
        found = λ n. rw there (elim (Bool-cases (eq_text other n)) [
          | inl here ↦
              let away : eq_text name n ≡ false =
                eq_text-false name n (λ e. ground (arith, differ, here, ap (eq_text other) e)) in
              rw (here, away) refl
          | inr elsewhere ↦ rw elsewhere (entered.found n)
        ]);
        agreed = subst (Agrees metric) (sym there) entered.agreed;
      }

  pub enter_from :
      (k : Option Text) (name : Text) (metric : Metric F N) (fams fams' : Families F N)
      → IsAfter k name
      → RisesAfter k fams
      → enter_family name metric fams ≡ ok fams'
      → RisesAfter k fams' × Entered name metric fams fams'
  enter_from k name metric [] fams' kn s h =
      let e : (name, metric) ∷ [] ≡ fams' = ok-injective (sym (enter_nil name metric) ∙ h) in
      subst (λ z. RisesAfter k z × Entered name metric [] z) e
        ((kn, tt), record { found = λ n. refl; agreed = tt })
  enter_from k name metric ((other, family) ∷ fams) fams' kn s h = elim (compared name other) [
    | Compared.before e ↦
        let out = ok-injective (sym (enter_lt name other metric family fams e) ∙ h) in
        let missing = not_found_before name other family fams e s.1 in
        subst (λ z. RisesAfter k z × Entered name metric ((other, family) ∷ fams) z) out
          (
            (kn, (e, s.1)),
            record {
              found = λ n.
                  ap
                    (λ z.
                      if eq_text name n
                      then some (joined metric z)
                      else find n ((other, family) ∷ fams))
                    (sym missing);
              agreed = subst (Agrees metric) (sym missing) tt;
            },
          )
    | Compared.same e ↦
        let (family', extended, out) =
          ok-bind (extend name metric family) (λ family'. (other, family') ∷ fams)
            (sym (enter_eq name other metric family fams e) ∙ h) in
        let (joins, agree) = extend_lem name metric family family' extended in
        subst (λ z. RisesAfter k z × Entered name metric ((other, family) ∷ fams) z) (sym out)
          (
            s,
            subst (λ z. Entered name metric ((z, family) ∷ fams) ((z, family') ∷ fams))
                (eq_of_cmp_list name other e)
                (Entered-head name metric family family' fams joins agree),
          )
    | Compared.behind e ↦
        let (rest, entered, out) =
          ok-bind (enter_family name metric fams) (λ fams'. (other, family) ∷ fams')
            (sym (enter_gt name other metric family fams e) ∙ h) in
        let after = cmp_list_gt_symm name other e in
        let (rises, found) = enter_from (some other) name metric fams rest after s.1 entered in
        let differ =
          eq_text-false other name
            (λ e'. ground (arith, after, cmp_list_refl name, ap (λ z. cmp_list z name) e')) in
        subst (λ z. RisesAfter k z × Entered name metric ((other, family) ∷ fams) z) (sym out)
          ((s.0, rises), Entered-tail name other metric family fams rest differ found)
  ]
