-- ===== src/Prometheus.antt =====
-- Names and escapes of the text exposition format (src/prometheus/dto.rs). A string is the list of
-- its code points.
pub mod Names
pub mod Escapes
pub mod Labels
pub mod Render
pub mod Collector
use ohnotel.Base.{
  Text, codes, ℕ, Bool, true, false, List, [], ◌∷◌, ◌++◌, map, Option, none, some, Result, ok, err,
  if◌then◌else◌, leb, ◌==◌, ◌&&◌, ◌||◌, not,
}
use ohnotel.Error.{PrometheusError}
use ohnotel.Observe.{Kind}

abbrev pub underscore : ℕ
underscore = 95

abbrev pub colon : ℕ
colon = 58

abbrev pub is_ascii_digit : ℕ → Bool
is_ascii_digit c = leb 48 c && leb c 57

abbrev pub is_ascii_alphanumeric : ℕ → Bool
is_ascii_alphanumeric c = is_ascii_digit c || ((leb 65 c && leb c 90) || (leb 97 c && leb c 122))

abbrev pub is_label_char : ℕ → Bool
is_label_char c = is_ascii_alphanumeric c || (c == underscore)

abbrev pub is_metric_char : ℕ → Bool
is_metric_char c = is_label_char c || (c == colon)

abbrev pub first_is_digit : Text → Bool
first_is_digit [] = false
first_is_digit (c ∷ cs) = is_ascii_digit c

-- One character in the loops of the two functions below.
abbrev pub clean : (ℕ → Bool) → ℕ → ℕ
clean allowed c = if allowed c then c else underscore

-- The loop: an underscore before a leading digit, then each character.
unfoldable pub clean_all : (ℕ → Bool) → Text → Text
clean_all allowed name =
    if first_is_digit name then underscore ∷ map (clean allowed) name else map (clean allowed) name

unfoldable pub sanitize_metric_name : Text → Text
unfolding clean_all
sanitize_metric_name name = clean_all is_metric_char name

abbrev pub starts_with_reserved : Text → Bool
starts_with_reserved [] = false
starts_with_reserved (c ∷ []) = false
starts_with_reserved (c ∷ d ∷ cs) = (c == underscore) && (d == underscore)

abbrev pub label : Text
label = codes "label"

unfoldable pub sanitize_label_name : Text → Text
unfolding clean_all
sanitize_label_name name =
    let out = clean_all is_label_char name in if starts_with_reserved out then label ++ out else out

abbrev pub total : Text
total = codes "_total"

abbrev pub eq_text : Text → Text → Bool
eq_text [] [] = true
eq_text [] (d ∷ ds) = false
eq_text (c ∷ cs) [] = false
eq_text (c ∷ cs) (d ∷ ds) = (c == d) && eq_text cs ds

abbrev pub ends_with : Text → Text → Bool
ends_with suffix [] = eq_text [] suffix
ends_with suffix (c ∷ cs) = eq_text (c ∷ cs) suffix || ends_with suffix cs

abbrev pub is_counter : Kind → Bool
is_counter Kind.counter = true
is_counter _ = false

unfoldable pub family_name : Kind → Text → Result Text PrometheusError
unfolding sanitize_metric_name
family_name kind [] = err PrometheusError.empty_metric_name
family_name kind (c ∷ cs) =
    let name = sanitize_metric_name (c ∷ cs) in
    ok (if is_counter kind && not (ends_with total name) then name ++ total else name)

abbrev pub backslash : ℕ
backslash = 92

abbrev pub quote : ℕ
quote = 34

abbrev pub newline : ℕ
newline = 10

-- "n"
abbrev pub letter_n : ℕ
letter_n = 110

unfoldable pub escape_help : Text → Text
escape_help [] = []
escape_help (c ∷ cs) =
    let rest = escape_help cs in
    if c == backslash
    then backslash ∷ backslash ∷ rest
    else if c == newline
    then backslash ∷ letter_n ∷ rest
    else c ∷ rest

unfoldable pub escape_label_value : Text → Text
escape_label_value [] = []
escape_label_value (c ∷ cs) =
    let rest = escape_label_value cs in
    if c == backslash
    then backslash ∷ backslash ∷ rest
    else if c == quote
    then backslash ∷ quote ∷ rest
    else if c == newline
    then backslash ∷ letter_n ∷ rest
    else c ∷ rest
