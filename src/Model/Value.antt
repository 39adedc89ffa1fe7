-- ===== src/Model/Value.antt =====
-- Attributes: `Value` and `KeyValue` of src/model.rs with the comparisons that they derive. A text
-- stands for a `Str`, whose comparisons go by its contents (Model/Str). An `i64` is its distance
-- from the least one. The values of `OrderedFloat<f64>` up to its `==` are a parameter, `F`.
pub mod Code
pub mod Laws
use ohnotel.Base.{Text, ℕ, compare, Bool, Ordering, List, [], ◌∷◌, to_nat}
use ohnotel.Model.Order.{Ord}
use ohnotel.Model.Lexicographic.{then_with, cmp_list, number_order}

module _ (F : Type 0) where
  mutual
    pub data Value : Type 0 where
      string : Text → Value
      bool : Bool → Value
      int : ℕ → Value
      double : F → Value
      array_any : Values → Value
      array_kv : KeyValues → Value
      bytes : List ℕ → Value

    -- `Vec<Value>`
    pub data Values : Type 0 where
      nil : Values
      cons : Value → Values → Values

    -- `Vec<KeyValue>`
    pub data KeyValues : Type 0 where
      end : KeyValues
      more : KeyValue → KeyValues → KeyValues

    -- The constructors are those of the source.
    pub data KeyValue : Type 0 where
      new : Text → Value → KeyValue
      no_val : Text → KeyValue

module _ {F : Type 0} where
  -- The place of a variant in its type.
  unfoldable pub variant : Value F → ℕ
  variant (Value.string s) = 0
  variant (Value.bool b) = 1
  variant (Value.int i) = 2
  variant (Value.double d) = 3
  variant (Value.array_any vs) = 4
  variant (Value.array_kv kvs) = 5
  variant (Value.bytes bs) = 6

module _ {F : Type 0} ⦃f : Ord F⦄ where
  unfoldable mutual
    unfolding variant cmp_list

    pub cmp_value : Value F → Value F → Ordering
    cmp_value (Value.string s) (Value.string t) = cmp_list s t
    cmp_value (Value.bool a) (Value.bool b) = compare (to_nat a) (to_nat b)
    cmp_value (Value.int i) (Value.int j) = compare i j
    cmp_value (Value.double d) (Value.double e) = f.cmp d e
    cmp_value (Value.array_any vs) (Value.array_any ws) = cmp_values vs ws
    cmp_value (Value.array_kv kvs) (Value.array_kv jws) = cmp_key_values kvs jws
    cmp_value (Value.bytes bs) (Value.bytes cs) = cmp_list bs cs
    cmp_value v w = compare (variant v) (variant w)

    pub cmp_values : Values F → Values F → Ordering
    cmp_values Values.nil Values.nil = Ordering.eq
    cmp_values Values.nil (Values.cons w ws) = Ordering.lt
    cmp_values (Values.cons v vs) Values.nil = Ordering.gt
    cmp_values (Values.cons v vs) (Values.cons w ws) = then_with (cmp_value v w) (cmp_values vs ws)

    pub cmp_key_values : KeyValues F → KeyValues F → Ordering
    cmp_key_values KeyValues.end KeyValues.end = Ordering.eq
    cmp_key_values KeyValues.end (KeyValues.more b bs) = Ordering.lt
    cmp_key_values (KeyValues.more a as') KeyValues.end = Ordering.gt
    cmp_key_values (KeyValues.more a as') (KeyValues.more b bs) =
        then_with (cmp_key_value a b) (cmp_key_values as' bs)

    -- The key, then the value, none before any.
    pub cmp_key_value : KeyValue F → KeyValue F → Ordering
    cmp_key_value (KeyValue.no_val k) (KeyValue.no_val j) = cmp_list k j
    cmp_key_value (KeyValue.no_val k) (KeyValue.new j w) = then_with (cmp_list k j) Ordering.lt
    cmp_key_value (KeyValue.new k v) (KeyValue.no_val j) = then_with (cmp_list k j) Ordering.gt
    cmp_key_value (KeyValue.new k v) (KeyValue.new j w) = then_with (cmp_list k j) (cmp_value v w)
