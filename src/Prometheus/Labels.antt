-- ===== src/Prometheus/Labels.antt =====
-- `render_labels` of src/prometheus/dto.rs.
pub mod Repeats
pub mod Accept
pub mod Read
use ohnotel.Base.{
  ℕ, Text, codes, Bool, true, false, List, [], ◌∷◌, ◌++◌, Option, none, some, Result, ok, err,
  ◌>>=◌, if◌then◌else◌, ◌||◌,
}
use ohnotel.Error.{PrometheusError}
use ohnotel.Model.Lexicographic.{number_order, list_order}
use ohnotel.Model.Sorting.{sort_by}
use ohnotel.Model.Value.{Value, KeyValue}
use ohnotel.Model.Display.{Format, show_value}
use ohnotel.Prometheus.{eq_text, sanitize_label_name, escape_label_value}

abbrev pub is_empty {ℓ} : {A : Type ℓ} → List A → Bool
is_empty [] = true
is_empty (x ∷ xs) = false

-- `contains`
abbrev pub contains : Text → List Text → Bool
contains name [] = false
contains name (other ∷ others) = eq_text name other || contains name others

-- The first item whose key the one before it has: `windows(2).find`.
unfoldable pub repeated {ℓ} : {A : Type ℓ} → (A → Text) → List A → Option A
repeated key [] = none
repeated key (x ∷ []) = none
repeated key (x ∷ y ∷ more) = if eq_text (key x) (key y) then some y else repeated key (y ∷ more)

module _ {F : Type 0} where
  abbrev pub name_of : Text × Value F → Text
  name_of l = l.0

  -- The loop over the attributes.
  unfoldable pub collect_labels :
      Text → List Text → List (KeyValue F) → Result (List (Text × Value F)) PrometheusError
  collect_labels metric reserved [] = ok []
  collect_labels metric reserved (KeyValue.no_val key ∷ attrs) =
      collect_labels metric reserved attrs
  collect_labels metric reserved (KeyValue.new [] value ∷ attrs) =
      err (PrometheusError.empty_label_name metric)
  collect_labels metric reserved (KeyValue.new (c ∷ cs) value ∷ attrs) =
      let name = sanitize_label_name (c ∷ cs) in
      let rest = collect_labels metric reserved attrs in
      if contains name reserved
      then err (PrometheusError.label_collision name metric)
      else (do labels ← rest; ok ((name, value) ∷ labels))

  abbrev pub unless_collision : Text → Option (Text × Value F) → Text → Result Text PrometheusError
  unless_collision metric (some collision) labels =
      err (PrometheusError.label_collision collision.0 metric)
  unless_collision metric none labels = ok labels

  module _ (format : Format F) where
    unfoldable pub label_value : Value F → Text
    label_value (Value.string s) = s
    label_value v = show_value format v

    unfoldable pub write_label : Text × Value F → Text
    unfolding label_value
    write_label (name, value) =
        name ++ (codes "=\"" ++ (escape_label_value (label_value value) ++ codes "\""))

    -- The last loop.
    unfoldable pub write_labels : Text → List (Text × Value F) → Text
    unfolding write_label
    write_labels labels [] = labels
    write_labels labels (l ∷ ls) =
        write_labels ((if is_empty labels then labels else labels ++ codes ",") ++ write_label l) ls

    -- What follows the sorting.
    unfoldable pub write_sorted : Text → List (Text × Value F) → Result Text PrometheusError
    unfolding repeated write_labels
    write_sorted metric sorted =
        unless_collision metric (repeated name_of sorted) (write_labels [] sorted)

    unfoldable pub render_labels :
        Text → List (KeyValue F) → List Text → Result Text PrometheusError
    unfolding collect_labels write_sorted
    render_labels metric attrs reserved = do
      labels ← collect_labels metric reserved attrs
      write_sorted metric (sort_by name_of labels)
