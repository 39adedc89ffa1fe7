-- ===== src/Prometheus/Labels/Accept.antt =====
-- Which attributes `render_labels` of src/prometheus/dto.rs accepts.
use ohnotel.Base.{
  Text, false, List, [], ◌∷◌, ok, ok-injective, ◌≡◌, ◌≢◌, ◌↔◌, refl, sym, ap, ◌∙◌, All, Bool-cases,
  Option-cases, Result-cases, inl, inr, arith,
}
use ohnotel.Model.Lexicographic.{number_order, list_order}
use ohnotel.Model.Sorting.{sort_by}
use ohnotel.Model.Sorting.Distinct.{IsDistinctBy}
use ohnotel.Prometheus.Labels.Repeats.{repeated-sort_by_iff}
use ohnotel.Model.Value.{Value, KeyValue}
use ohnotel.Model.Display.{Format}
use ohnotel.Prometheus.{sanitize_label_name}
use ohnotel.Prometheus.Labels.{
  contains, repeated, name_of, collect_labels, write_labels, write_sorted, render_labels,
}

-- What an attribute must be to become a label.
abbrev pub IsUsable : {F : Type 0} → List Text → KeyValue F → Type 0
IsUsable reserved (KeyValue.no_val key) = Unit
IsUsable reserved (KeyValue.new key value) =
    (key ≢ []) × (contains (sanitize_label_name key) reserved ≡ false)

-- The attributes that have a value, with their names sanitised.
abbrev pub labels_of : {F : Type 0} → List (KeyValue F) → List (Text × Value F)
labels_of [] = []
labels_of (KeyValue.no_val key ∷ attrs) = labels_of attrs
labels_of (KeyValue.new key value ∷ attrs) = (sanitize_label_name key, value) ∷ labels_of attrs

module _ {F : Type 0} (metric : Text) (reserved : List Text) where
  collect_usable :
      (attrs : List (KeyValue F))
      → All (IsUsable reserved) attrs
      → collect_labels metric reserved attrs ≡ ok (labels_of attrs)
  unfolding collect_labels
  collect_usable [] h = refl
  collect_usable (KeyValue.no_val key ∷ attrs) h = collect_usable attrs h.1
  collect_usable (KeyValue.new [] value ∷ attrs) h = absurd (h.0.0 refl)
  collect_usable (KeyValue.new (c ∷ cs) value ∷ attrs) h = rw (h.0.1, collect_usable attrs h.1) refl

  IsUsable-of_collect :
      (attrs : List (KeyValue F)) (labels : List (Text × Value F))
      → collect_labels metric reserved attrs ≡ ok labels
      → All (IsUsable reserved) attrs
  unfolding collect_labels
  IsUsable-of_collect [] labels e = tt
  IsUsable-of_collect (KeyValue.no_val key ∷ attrs) labels e =
      (tt, IsUsable-of_collect attrs labels e)
  IsUsable-of_collect (KeyValue.new [] value ∷ attrs) labels e = cc
  IsUsable-of_collect (KeyValue.new (c ∷ cs) value ∷ attrs) labels e =
      elim (Bool-cases (contains (sanitize_label_name (c ∷ cs)) reserved)) [
        | inl taken ↦ absurd (ground (arith, (rw taken at e)))
        | inr free ↦ elim (Result-cases (collect_labels metric reserved attrs)) [
          | inl (rest, same) ↦ (((λ k. cc), free), IsUsable-of_collect attrs rest same)
          | inr (bad, same) ↦ absurd (ground (arith, (rw (free, same) at e)))
        ]
      ]

module _ {F : Type 0} (format : Format F) where
  write_sorted_iff :
      (metric : Text) (labels : List (Text × Value F)) (text : Text)
      → (write_sorted format metric (sort_by name_of labels) ≡ ok text)
        ↔ (IsDistinctBy name_of labels × (text ≡ write_labels format [] (sort_by name_of labels)))
  unfolding write_sorted
  write_sorted_iff metric labels text =
      let (there, back) = repeated-sort_by_iff name_of labels in
      elim (Option-cases (repeated name_of (sort_by name_of labels))) [
        | inl fresh ↦ rw fresh (λ h. (there fresh, sym (ok-injective h)), λ h. ap ok (sym h.1))
        | inr (l, twice) ↦
            let never : IsDistinctBy name_of labels → ⊥ = λ d. ground (arith, sym twice ∙ back d) in
            rw twice (λ h. absurd (ground arith), λ h. absurd (never h.0))
      ]

  -- `render_labels` gives a text exactly if every attribute with a value has a key and a name that
  -- is not reserved, and no two of the names are the same; the text is then that of the labels
  -- sorted by name.
  pub render_labels_iff :
      (metric : Text) (reserved : List Text) (attrs : List (KeyValue F)) (text : Text)
      → (render_labels format metric attrs reserved ≡ ok text) ↔ (
          All (IsUsable reserved) attrs
          × IsDistinctBy name_of (labels_of attrs)
          × (text ≡ write_labels format [] (sort_by name_of (labels_of attrs))))
  unfolding render_labels
  render_labels_iff metric reserved attrs text =
      let (there, back) = write_sorted_iff metric (labels_of attrs) text in
      elim (Result-cases (collect_labels metric reserved attrs)) [
        | inl (labels, e) ↦
            let usable = IsUsable-of_collect metric reserved attrs labels e in
            rw (collect_usable metric reserved attrs usable)
              (λ h. let (apart, same) = there h in (usable, apart, same), λ h. back (h.1, h.2))
        | inr (bad, e) ↦ rw e (
          λ h. absurd (ground arith),
          λ h. absurd (ground (arith, sym e ∙ collect_usable metric reserved attrs h.0)),
        )
      ]
