-- ===== src/Prometheus/Collector/Samples.antt =====
-- The check of the names of samples (src/prometheus/collector.rs).
use mathlib.Core.Path.{fun_ext}
use ohnotel.Base.{
  ◌≡◌, ◌≢◌, ◌↔◌, refl, sym, ap, ◌∙◌, Text, false, List, [], ◌∷◌, ◌++◌, map, Result, ok, err, ◌>>=◌,
  if◌then◌else◌, Bool-cases, inl, inr, arith, All,
}
use ohnotel.Error.{PrometheusError}
use ohnotel.Model.Sorting.Distinct.{IsDistinctBy}
use ohnotel.Prometheus.{eq_text}
use ohnotel.Prometheus.Labels.{contains}
use ohnotel.Prometheus.Labels.Repeats.{eq_text-false, eq_text_self}
use ohnotel.Prometheus.Collector.{Families, suffixes, emit, emit_all}

-- The names under which the families give samples.
abbrev pub sample_names : {F N : Type 0} → Families F N → List Text
sample_names [] = []
sample_names ((name, family) ∷ families) =
    map (λ suffix. name ++ suffix) (suffixes family.kind) ++ sample_names families

abbrev pub itself : Text → Text
itself name = name

abbrev IsNew : List Text → Text → Type 0
IsNew emitted name = contains name emitted ≡ false

-- Names that are new and differ.
abbrev AreNew : List Text → List Text → Type 0
AreNew emitted names = All (IsNew emitted) names × IsDistinctBy itself names

split-IsNew :
    (emitted : List Text) (name : Text) (names : List Text)
    → All (IsNew (name ∷ emitted)) names
      ↔ (All (IsNew emitted) names × All (λ other. name ≢ other) names)
split-IsNew emitted name [] = (λ h. (tt, tt), λ h. tt)
split-IsNew emitted name (n ∷ ns) =
    let (there, back) = split-IsNew emitted name ns in
    (
      λ h.
          let (rest, away) = there h.1 in
          (
            (ground (arith, h.0), rest),
            ((λ e. ground (arith, h.0, eq_text_self n, ap (λ z. eq_text n z) e)), away),
          ),
      λ h. (ground (arith, h.0.0, eq_text-false n name (λ e. h.1.0 (sym e))), back (h.0.1, h.1.1)),
    )

-- The next name, and the others with it among the old ones.
AreNew-cons :
    (emitted : List Text) (name : Text) (names : List Text)
    → contains name emitted ≡ false
    → AreNew (name ∷ emitted) names ↔ AreNew emitted (name ∷ names)
AreNew-cons emitted name names fresh =
    let (there, back) = split-IsNew emitted name names in
    (
      λ h. let (rest, away) = there h.0 in ((fresh, rest), (away, h.1)),
      λ h. (back (h.0.1, h.1.0), h.1.1),
    )

-- The nested loops as one.
emit_names : List Text → List Text → Result (List Text) PrometheusError
emit_names [] emitted = ok emitted
emit_names (name ∷ names) emitted =
    let rest = emit_names names (name ∷ emitted) in
    if contains name emitted then err (PrometheusError.family_collision name) else rest

emit-names :
    (name : Text) (sfx emitted : List Text)
    → emit name sfx emitted ≡ emit_names (map (λ suffix. name ++ suffix) sfx) emitted
unfolding emit emit_names
emit-names name [] emitted = refl
emit-names name (suffix ∷ more) emitted =
    ground (arith, emit-names name more ((name ++ suffix) ∷ emitted))

emit_names-append :
    (xs ys emitted : List Text)
    → emit_names (xs ++ ys) emitted ≡ (do emitted' ← emit_names xs emitted; emit_names ys emitted')
unfolding emit_names
emit_names-append [] ys emitted = refl
emit_names-append (x ∷ xs) ys emitted = elim (Bool-cases (contains x emitted)) [
  | inl e ↦ rw e refl
  | inr e ↦ rw e (emit_names-append xs ys (x ∷ emitted))
]

emit_names_iff :
    (names emitted : List Text)
    → ((out : List Text) × (emit_names names emitted ≡ ok out)) ↔ AreNew emitted names
unfolding emit_names
emit_names_iff [] emitted = (λ h. (tt, tt), λ h. (emitted, refl))
emit_names_iff (name ∷ names) emitted = elim (Bool-cases (contains name emitted)) [
  | inl old ↦
      let step : emit_names (name ∷ names) emitted ≡ err (PrometheusError.family_collision name) =
        rw old refl in
      (λ h. absurd (ground (arith, sym step ∙ h.1)), λ h. absurd (ground (arith, old, h.0.0)))
  | inr fresh ↦
      let (there, back) = emit_names_iff names (name ∷ emitted) in
      let (out, into) = AreNew-cons emitted name names fresh in
      let step : emit_names (name ∷ names) emitted ≡ emit_names names (name ∷ emitted) =
        rw fresh refl in
      (
        λ h. out (there (h.0, sym step ∙ h.1)),
        λ h. let (last, e) = back (into h) in (last, step ∙ e),
      )
]

All-IsNew : (names : List Text) → All (IsNew []) names
All-IsNew [] = tt
All-IsNew (name ∷ names) = (refl, All-IsNew names)

module _ {F N : Type 0} where
  emit_all-names :
      (families : Families F N) (emitted : List Text)
      → emit_all families emitted ≡ emit_names (sample_names families) emitted
  unfolding emit_all emit_names
  emit_all-names [] emitted = refl
  emit_all-names ((name, family) ∷ families) emitted =
      let names = map (λ suffix. name ++ suffix) (suffixes family.kind) in
      ap (λ (z : Result (List Text) PrometheusError). z >>= emit_all families)
        (emit-names name (suffixes family.kind) emitted)
      ∙ ap (λ (k : List Text → Result (List Text) PrometheusError). emit_names names emitted >>= k)
          (fun_ext (emit_all-names families))
      ∙ sym (emit_names-append names (sample_names families) emitted)

  -- The check before the output passes exactly if all sample names that the families emit, suffixes
  -- included, are different.
  pub emit_all_iff :
      (families : Families F N)
      → ((out : List Text) × (emit_all families [] ≡ ok out))
        ↔ IsDistinctBy itself (sample_names families)
  emit_all_iff families =
      let (there, back) = emit_names_iff (sample_names families) [] in
      rw (emit_all-names families [])
        (λ h. (there h).1, λ h. back (All-IsNew (sample_names families), h))
