-- ===== src/Model/Value/Laws.antt =====
-- The derived comparison of attributes is a total order whose equal items are one item.
use ohnotel.Base.{
  compare, ◌≡◌, ◌↔◌, refl, sym, ap, ◌∙◌, Bool, true, false, Ordering, List, [], to_nat,
}
use ohnotel.Model.Order.{Ord}
use ohnotel.Model.Lexicographic.{
  then_with, then_with_eq, cmp_list, number_order, list_order, eq_of_compare, eq_of_cmp_list,
}
use ohnotel.Model.Value.{
  Value, Values, KeyValue, KeyValues, variant, cmp_value, cmp_values, cmp_key_value, cmp_key_values,
}
use ohnotel.Model.Value.Code.{Item, item_order, code_key_value, cmp-code_key_value}

both_eq : (a b : Ordering) → then_with a b ≡ Ordering.eq → (a ≡ Ordering.eq) × (b ≡ Ordering.eq)
both_eq Ordering.lt b h = cc
both_eq Ordering.eq b h = (refl, h)
both_eq Ordering.gt b h = cc

eq_of_bool : (a b : Bool) → compare (to_nat a) (to_nat b) ≡ Ordering.eq → a ≡ b
eq_of_bool false false h = refl
eq_of_bool true true h = refl
eq_of_bool false true h = cc
eq_of_bool true false h = cc

module _ {F : Type 0} ⦃f : Ord F⦄ where
  mutual
    unfolding cmp_value variant

    eq_of_cmp_value : (v w : Value F) → cmp_value v w ≡ Ordering.eq → v ≡ w
    eq_of_cmp_value (Value.string s) (Value.string t) h = ap Value.string (eq_of_cmp_list s t h)
    eq_of_cmp_value (Value.bool a) (Value.bool b) h = ap Value.bool (eq_of_bool a b h)
    eq_of_cmp_value (Value.int i) (Value.int j) h = ap Value.int (eq_of_compare i j h)
    eq_of_cmp_value (Value.double d) (Value.double e) h = ap Value.double (f.eq_of_cmp d e h)
    eq_of_cmp_value (Value.array_any vs) (Value.array_any ws) h =
        ap Value.array_any (eq_of_cmp_values vs ws h)
    eq_of_cmp_value (Value.array_kv kvs) (Value.array_kv jws) h =
        ap Value.array_kv (eq_of_cmp_key_values kvs jws h)
    eq_of_cmp_value (Value.bytes bs) (Value.bytes cs) h = ap Value.bytes (eq_of_cmp_list bs cs h)
    eq_of_cmp_value v w h = cc

    eq_of_cmp_values : (vs ws : Values F) → cmp_values vs ws ≡ Ordering.eq → vs ≡ ws
    eq_of_cmp_values Values.nil Values.nil h = refl
    eq_of_cmp_values (Values.cons v vs) (Values.cons w ws) h =
        let (first, rest) = both_eq (cmp_value v w) (cmp_values vs ws) h in
        let e : v ≡ w = eq_of_cmp_value v w first in
        let es : vs ≡ ws = eq_of_cmp_values vs ws rest in cc
    eq_of_cmp_values Values.nil (Values.cons w ws) h = cc
    eq_of_cmp_values (Values.cons v vs) Values.nil h = cc

    eq_of_cmp_key_values : (as' bs : KeyValues F) → cmp_key_values as' bs ≡ Ordering.eq → as' ≡ bs
    eq_of_cmp_key_values KeyValues.end KeyValues.end h = refl
    eq_of_cmp_key_values (KeyValues.more a as') (KeyValues.more b bs) h =
        let (first, rest) = both_eq (cmp_key_value a b) (cmp_key_values as' bs) h in
        let e : a ≡ b = eq_of_cmp_key_value a b first in
        let es : as' ≡ bs = eq_of_cmp_key_values as' bs rest in cc
    eq_of_cmp_key_values KeyValues.end (KeyValues.more b bs) h = cc
    eq_of_cmp_key_values (KeyValues.more a as') KeyValues.end h = cc

    pub eq_of_cmp_key_value : (a b : KeyValue F) → cmp_key_value a b ≡ Ordering.eq → a ≡ b
    eq_of_cmp_key_value (KeyValue.no_val k) (KeyValue.no_val j) h =
        ap KeyValue.no_val (eq_of_cmp_list k j h)
    eq_of_cmp_key_value (KeyValue.new k v) (KeyValue.new j w) h =
        let (first, rest) = both_eq (cmp_list k j) (cmp_value v w) h in
        let e : k ≡ j = eq_of_cmp_list k j first in let es : v ≡ w = eq_of_cmp_value v w rest in cc
    eq_of_cmp_key_value (KeyValue.no_val k) (KeyValue.new j w) h =
        let (first, rest) = both_eq (cmp_list k j) Ordering.lt h in cc
    eq_of_cmp_key_value (KeyValue.new k v) (KeyValue.no_val j) h =
        let (first, rest) = both_eq (cmp_list k j) Ordering.gt h in cc

  abbrev code : KeyValue F → List (Item F)
  code a = code_key_value a []

  cmp-code : (a b : KeyValue F) → cmp_list (code a) (code b) ≡ cmp_key_value a b
  unfolding cmp_list
  cmp-code a b = cmp-code_key_value a b [] [] ∙ then_with_eq (cmp_key_value a b)

  lists : Ord (List (Item F))
  lists = list_order

  pub cmp_key_value_refl : (a : KeyValue F) → cmp_key_value a a ≡ Ordering.eq
  unfolding lists
  cmp_key_value_refl a = sym (cmp-code a a) ∙ lists.cmp_refl (code a)

  pub cmp_key_value_lt_symm :
      (a b : KeyValue F) → cmp_key_value a b ≡ Ordering.lt → cmp_key_value b a ≡ Ordering.gt
  unfolding lists
  cmp_key_value_lt_symm a b h =
      sym (cmp-code b a) ∙ lists.cmp_lt_symm (code a) (code b) (cmp-code a b ∙ h)

  pub cmp_key_value_gt_symm :
      (a b : KeyValue F) → cmp_key_value a b ≡ Ordering.gt → cmp_key_value b a ≡ Ordering.lt
  unfolding lists
  cmp_key_value_gt_symm a b h =
      sym (cmp-code b a) ∙ lists.cmp_gt_symm (code a) (code b) (cmp-code a b ∙ h)

  pub cmp_key_value_lt_trans :
      (a b c : KeyValue F)
      → cmp_key_value a b ≡ Ordering.lt
      → cmp_key_value b c ≡ Ordering.lt
      → cmp_key_value a c ≡ Ordering.lt
  unfolding lists
  cmp_key_value_lt_trans a b c h k =
      sym (cmp-code a c)
      ∙ lists.cmp_lt_trans (code a) (code b) (code c) (cmp-code a b ∙ h) (cmp-code b c ∙ k)

  -- What the bucket map asks of attributes.
  instance abbrev pub key_value_order : Ord (KeyValue F)
  key_value_order = record {
    cmp = cmp_key_value;
    cmp_refl = cmp_key_value_refl;
    eq_of_cmp = eq_of_cmp_key_value;
    cmp_lt_symm = cmp_key_value_lt_symm;
    cmp_gt_symm = cmp_key_value_gt_symm;
    cmp_lt_trans = cmp_key_value_lt_trans;
  }

  -- The derived order of attributes, if the order of floats is one: equal exactly for the same
  -- attribute, less exactly if the other way round is greater, and transitive.
  pub cmp_key_value_laws :
      (a b c : KeyValue F)
      → ((cmp_key_value a b ≡ Ordering.eq) ↔ (a ≡ b))
        × ((cmp_key_value a b ≡ Ordering.lt) ↔ (cmp_key_value b a ≡ Ordering.gt))
        × (cmp_key_value a b ≡ Ordering.lt
            → cmp_key_value b c ≡ Ordering.lt
            → cmp_key_value a c ≡ Ordering.lt)
  cmp_key_value_laws a b c = (
    (eq_of_cmp_key_value a b, λ e. ap (cmp_key_value a) (sym e) ∙ cmp_key_value_refl a),
    (cmp_key_value_lt_symm a b, cmp_key_value_gt_symm b a),
    cmp_key_value_lt_trans a b c,
  )
