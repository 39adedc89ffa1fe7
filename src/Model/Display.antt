-- ===== src/Model/Display.antt =====
-- `Display` of attributes (src/model.rs). The numbers are written in full; the quoted form of a text
-- and of bytes, and the form of a float, are a parameter.
use ohnotel.Base.{
  ℕ, ◌-◌, ◌^◌, Bool, true, false, List, [], ◌∷◌, ◌++◌, if◌then◌else◌, ltb, Text, codes, decimal,
}
use ohnotel.Model.Value.{Value, Values, KeyValue, KeyValues}

-- An `i64` by its distance from the least one.
unfoldable pub show_int : ℕ → Text
show_int i = if ltb i (2 ^ 63) then 45 ∷ decimal (2 ^ 63 - i) else decimal (i - 2 ^ 63)

-- What the language's `Display` and `Debug` write for the other leaves.
pub record Format (F : Type 0) : Type 0 where
  pub debug_str : Text → Text
  pub show_float : F → Text
  pub debug_bytes : List ℕ → Text

abbrev pub show_bool : Bool → Text
show_bool true = codes "true"
show_bool false = codes "false"

module _ {F : Type 0} (format : Format F) where
  unfoldable mutual
    unfolding show_int

    pub show_value : Value F → Text
    show_value (Value.string s) = format.debug_str s
    show_value (Value.bool b) = show_bool b
    show_value (Value.int i) = show_int i
    show_value (Value.double d) = format.show_float d
    show_value (Value.array_any Values.nil) = codes "[]"
    show_value (Value.array_any (Values.cons v vs)) =
        codes "[" ++ (show_value v ++ (show_values vs ++ codes "]"))
    show_value (Value.array_kv KeyValues.end) = codes "{}"
    show_value (Value.array_kv (KeyValues.more a as')) =
        codes "{" ++ (show_key_value a ++ (show_key_values as' ++ codes "}"))
    show_value (Value.bytes bs) = format.debug_bytes bs

    -- The items after the first one, a comma before each.
    pub show_values : Values F → Text
    show_values Values.nil = []
    show_values (Values.cons v vs) = codes "," ++ (show_value v ++ show_values vs)

    pub show_key_values : KeyValues F → Text
    show_key_values KeyValues.end = []
    show_key_values (KeyValues.more a as') = codes "," ++ (show_key_value a ++ show_key_values as')

    pub show_key_value : KeyValue F → Text
    show_key_value (KeyValue.no_val k) = k
    show_key_value (KeyValue.new k v) = k ++ (codes "=" ++ show_value v)
