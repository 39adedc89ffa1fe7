-- ===== src/Prometheus/Escapes.antt =====
-- Escaping loses nothing (src/prometheus/dto.rs).
use ohnotel.Base.{Text, ℕ, ◌≡◌, refl, Bool, true, false, [], ◌∷◌, if◌then◌else◌, arith, ◌==◌}
use ohnotel.Prometheus.{backslash, newline, letter_n, escape_label_value}

-- How a reader of the format undoes an escape: after a backslash, an `n` is a newline and any other
-- character is itself.
abbrev pub unescape_char : ℕ → ℕ
unescape_char c = if c == letter_n then newline else c

abbrev pub unescape_after : Bool → Text → Text
unescape_after pending [] = []
unescape_after true (c ∷ cs) = unescape_char c ∷ unescape_after false cs
unescape_after false (c ∷ cs) =
    let escaped = unescape_after true cs in
    let plain = unescape_after false cs in if c == backslash then escaped else c ∷ plain

abbrev pub unescape : Text → Text
unescape cs = unescape_after false cs

-- Undoing the escapes of a label value, as a reader of the format does, gives the value back.
pub unescape-escape_label_value : (text : Text) → unescape (escape_label_value text) ≡ text
unfolding escape_label_value
unescape-escape_label_value [] = refl
unescape-escape_label_value (c ∷ cs) = ground (arith, unescape-escape_label_value cs)
