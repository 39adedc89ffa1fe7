-- ===== src/Prometheus/Labels/Read.antt =====
-- The labels of a sample can be read back from their text (src/prometheus/dto.rs).
use ohnotel.Base.{
  ℕ, Text, codes, true, false, List, [], ◌∷◌, ◌++◌, map, Option, none, some, ok, if◌then◌else◌,
  ◌==◌, ◌≡◌, ◌↔◌, refl, sym, ap, ◌∙◌, All, arith,
}
use mathlib.Core.List.{append_assoc, append-nil}
use ohnotel.Model.Lexicographic.{number_order, list_order}
use ohnotel.Model.Sorting.{sort_by}
use ohnotel.Model.Sorting.Distinct.{All-sort_by}
use ohnotel.Model.Value.{Value, KeyValue}
use ohnotel.Model.Display.{Format}
use ohnotel.Prometheus.{is_label_char, escape_label_value, backslash, quote}
use ohnotel.Prometheus.Names.{sanitize_label_name_lem}
use ohnotel.Prometheus.Escapes.{unescape_char}
use ohnotel.Prometheus.Labels.{
  name_of, label_value, is_empty, write_label, write_labels, render_labels,
}
use ohnotel.Prometheus.Labels.Accept.{labels_of, render_labels_iff}

abbrev pub equals : ℕ
equals = 61

abbrev pub comma : ℕ
comma = 44

-- Where a reader of `name="value",name="value"` stands.
pub data Reading : Type 0 where
  in_name : Text → Reading
  at_quote : Text → Reading
  in_value : Text → Text → Reading
  in_escape : Text → Text → Reading
  after : Reading

abbrev cons {ℓ} : {A : Type ℓ} → A → Option (List A) → Option (List A)
cons x none = none
cons x (some xs) = some (x ∷ xs)

some-injective {ℓ} : {A : Type ℓ} {a b : A} → some a ≡ some b → a ≡ b
some-injective h = ground arith

read : Reading → Text → Option (List (Text × Text))
read (Reading.in_name n) [] = none
read (Reading.at_quote n) [] = none
read (Reading.in_value n v) [] = none
read (Reading.in_escape n v) [] = none
read Reading.after [] = some []
read (Reading.in_name n) (c ∷ cs) =
    read (if c == equals then Reading.at_quote n else Reading.in_name (n ++ c ∷ [])) cs
read (Reading.at_quote n) (c ∷ cs) =
    let value = read (Reading.in_value n []) cs in if c == quote then value else none
read (Reading.in_value n v) (c ∷ cs) =
    let end = cons (n, v) (read Reading.after cs) in
    let further =
      read (if c == backslash then Reading.in_escape n v else Reading.in_value n (v ++ c ∷ []))
        cs in
    if c == quote then end else further
read (Reading.in_escape n v) (c ∷ cs) = read (Reading.in_value n (v ++ unescape_char c ∷ [])) cs
read Reading.after (c ∷ cs) =
    let next = read (Reading.in_name []) cs in if c == comma then next else none

unfoldable pub read_labels : Text → Option (List (Text × Text))
unfolding read
read_labels [] = some []
read_labels (c ∷ cs) = read (Reading.in_name []) (c ∷ cs)

read-name :
    (n name rest : Text)
    → All (λ c. is_label_char c ≡ true) name
    → read (Reading.in_name n) (name ++ equals ∷ rest) ≡ read (Reading.at_quote (n ++ name)) rest
unfolding read
read-name n [] rest h = rw append-nil refl
read-name n (c ∷ cs) rest h =
    ground (arith, h.0, read-name (n ++ c ∷ []) cs rest h.1, append_assoc n (c ∷ []) cs)

read-value :
    (n v text rest : Text)
    → read (Reading.in_value n v) (escape_label_value text ++ quote ∷ rest)
      ≡ cons (n, v ++ text) (read Reading.after rest)
unfolding read escape_label_value
read-value n v [] rest = rw append-nil refl
read-value n v (c ∷ cs) rest =
    ground (arith, read-value n (v ++ c ∷ []) cs rest, append_assoc v (c ∷ []) cs)

module _ {F : Type 0} (format : Format F) where
  abbrev pub shown : Text × Value F → Text × Text
  shown l = (l.0, label_value format l.1)

  -- The labels after the first one.
  abbrev later : List (Text × Value F) → Text
  later [] = []
  later (l ∷ ls) = comma ∷ (write_label format l ++ later ls)

  append_non_empty :
      (out : Text) (l : Text × Value F) → is_empty (out ++ write_label format l) ≡ false
  unfolding write_label
  append_non_empty [] ([], v) = refl
  append_non_empty [] (c ∷ cs, v) = refl
  append_non_empty (c ∷ cs) l = refl

  write_labels-later :
      (out : Text) (ls : List (Text × Value F))
      → is_empty out ≡ false
      → write_labels format out ls ≡ out ++ later ls
  unfolding write_labels
  write_labels-later out [] h = sym (append-nil out)
  write_labels-later out (l ∷ ls) h = rw h (
      write_labels-later ((out ++ codes ",") ++ write_label format l) ls
        (append_non_empty (out ++ codes ",") l)
      ∙ append_assoc (out ++ codes ",") (write_label format l) (later ls)
      ∙ append_assoc out (codes ",") (write_label format l ++ later ls))

  IsName : Text × Value F → Type 0
  IsName l = All (λ c. is_label_char c ≡ true) l.0

  read-label :
      (l : Text × Value F) (rest : Text)
      → IsName l
      → read (Reading.in_name []) (write_label format l ++ rest)
        ≡ cons (shown l) (read Reading.after rest)
  unfolding write_label IsName read
  read-label l rest h =
      let value = escape_label_value (label_value format l.1) in
      ap (read (Reading.in_name [])) (
        append_assoc l.0 (codes "=\"" ++ (value ++ codes "\"")) rest
        ∙ ap (λ z. l.0 ++ equals ∷ quote ∷ z) (append_assoc value (codes "\"") rest))
      ∙ read-name [] l.0 (quote ∷ (value ++ quote ∷ rest)) h
      ∙ read-value l.0 [] (label_value format l.1) rest

  read-later :
      (ls : List (Text × Value F))
      → All IsName ls
      → read Reading.after (later ls) ≡ some (map shown ls)
  unfolding read
  read-later [] h = refl
  read-later (l ∷ ls) h = read-label l (later ls) h.0 ∙ ap (cons (shown l)) (read-later ls h.1)

  read_labels-label :
      (l : Text × Value F) (rest : Text)
      → read_labels (write_label format l ++ rest)
        ≡ read (Reading.in_name []) (write_label format l ++ rest)
  unfolding read_labels write_label
  read_labels-label ([], v) rest = refl
  read_labels-label (c ∷ cs, v) rest = refl

  read_labels-write_labels :
      (ls : List (Text × Value F))
      → All IsName ls
      → read_labels (write_labels format [] ls) ≡ some (map shown ls)
  unfolding write_labels
  read_labels-write_labels [] h = unfold read_labels in refl
  read_labels-write_labels (l ∷ ls) h =
      ap read_labels (write_labels-later (write_label format l) ls (append_non_empty [] l))
      ∙ read_labels-label l (later ls)
      ∙ read-label l (later ls) h.0
      ∙ ap (cons (shown l)) (read-later ls h.1)

  labels_of-IsName : (attrs : List (KeyValue F)) → All IsName (labels_of attrs)
  unfolding IsName
  labels_of-IsName [] = tt
  labels_of-IsName (KeyValue.no_val key ∷ attrs) = labels_of-IsName attrs
  labels_of-IsName (KeyValue.new key value ∷ attrs) =
      ((sanitize_label_name_lem key).0, labels_of-IsName attrs)

  -- The labels of a list of attributes, as their text shows them.
  abbrev pub series_labels : List (KeyValue F) → List (Text × Text)
  series_labels attrs = map shown (sort_by name_of (labels_of attrs))

  abbrev pub labels_text : List (KeyValue F) → Text
  labels_text attrs = write_labels format [] (sort_by name_of (labels_of attrs))

  pub read_labels-labels_text :
      (attrs : List (KeyValue F)) → read_labels (labels_text attrs) ≡ some (series_labels attrs)
  read_labels-labels_text attrs =
      let (back, names) = All-sort_by name_of IsName (labels_of attrs) in
      read_labels-write_labels (sort_by name_of (labels_of attrs)) (names (labels_of-IsName attrs))

  -- A reader of the exposition format gets from rendered labels the sanitised names with the shown
  -- values, in the order of the names.
  pub read_labels-render_labels :
      (metric : Text) (reserved : List Text) (attrs : List (KeyValue F)) (text : Text)
      → render_labels format metric attrs reserved ≡ ok text
      → read_labels text ≡ some (series_labels attrs)
  read_labels-render_labels metric reserved attrs text h =
      ap read_labels ((render_labels_iff format metric reserved attrs text).0 h).2
      ∙ read_labels-labels_text attrs

  -- The text goes by what is shown.
  write_pairs : Text → List (Text × Text) → Text
  write_pairs labels [] = labels
  write_pairs labels ((name, value) ∷ ls) =
      write_pairs
        ((if is_empty labels then labels else labels ++ codes ",")
          ++ (name ++ (codes "=\"" ++ (escape_label_value value ++ codes "\""))))
        ls

  write_labels-shown :
      (labels : Text) (ls : List (Text × Value F))
      → write_labels format labels ls ≡ write_pairs labels (map shown ls)
  unfolding write_labels write_pairs write_label
  write_labels-shown labels [] = refl
  write_labels-shown labels ((name, value) ∷ ls) =
      write_labels-shown
        ((if is_empty labels then labels else labels ++ codes ",")
          ++ write_label format (name, value))
        ls

  pub labels_text_iff :
      (a b : List (KeyValue F))
      → (labels_text a ≡ labels_text b) ↔ (series_labels a ≡ series_labels b)
  labels_text_iff a b = (
    λ e.
        some-injective
          (sym (read_labels-labels_text a) ∙ ap read_labels e ∙ read_labels-labels_text b),
    λ e.
        write_labels-shown [] (sort_by name_of (labels_of a))
        ∙ ap (write_pairs []) e
        ∙ sym (write_labels-shown [] (sort_by name_of (labels_of b))),
  )
