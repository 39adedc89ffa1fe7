-- ===== src/Model/Value/Code.antt =====
-- A value as a list of numbers and floats whose order is the order of the values: a proof device,
-- through which the derived comparisons get the laws of the comparison of lists.
use ohnotel.Base.{ℕ, compare, ◌≡◌, refl, sym, ap, ◌∙◌, Ordering, List, [], ◌∷◌, to_nat}
use ohnotel.Model.Order.{Ord}
use ohnotel.Model.Lexicographic.{
  then_with, then_with_assoc, cmp_list, number_order, list_order, compare_refl, eq_of_compare,
  compare_lt_symm, compare_gt_symm, compare_lt_trans,
}
use ohnotel.Model.Value.{
  Value, Values, KeyValue, KeyValues, variant, cmp_value, cmp_values, cmp_key_value, cmp_key_values,
}

module _ (F : Type 0) where
  pub data Item : Type 0 where
    num : ℕ → Item
    float : F → Item

module _ {F : Type 0} ⦃f : Ord F⦄ where
  unfoldable pub cmp_item : Item F → Item F → Ordering
  cmp_item (Item.num a) (Item.num b) = compare a b
  cmp_item (Item.num a) (Item.float e) = Ordering.lt
  cmp_item (Item.float d) (Item.num b) = Ordering.gt
  cmp_item (Item.float d) (Item.float e) = f.cmp d e

  pub cmp_item_refl : (a : Item F) → cmp_item a a ≡ Ordering.eq
  unfolding cmp_item
  cmp_item_refl (Item.num a) = compare_refl a
  cmp_item_refl (Item.float d) = f.cmp_refl d

  pub eq_of_cmp_item : (a b : Item F) → cmp_item a b ≡ Ordering.eq → a ≡ b
  unfolding cmp_item
  eq_of_cmp_item (Item.num a) (Item.num b) h = ap Item.num (eq_of_compare a b h)
  eq_of_cmp_item (Item.float d) (Item.float e) h = ap Item.float (f.eq_of_cmp d e h)
  eq_of_cmp_item (Item.num a) (Item.float e) h = cc
  eq_of_cmp_item (Item.float d) (Item.num b) h = cc

  pub cmp_item_lt_symm : (a b : Item F) → cmp_item a b ≡ Ordering.lt → cmp_item b a ≡ Ordering.gt
  unfolding cmp_item
  cmp_item_lt_symm (Item.num a) (Item.num b) h = compare_lt_symm a b h
  cmp_item_lt_symm (Item.float d) (Item.float e) h = f.cmp_lt_symm d e h
  cmp_item_lt_symm (Item.num a) (Item.float e) h = refl
  cmp_item_lt_symm (Item.float d) (Item.num b) h = cc

  pub cmp_item_gt_symm : (a b : Item F) → cmp_item a b ≡ Ordering.gt → cmp_item b a ≡ Ordering.lt
  unfolding cmp_item
  cmp_item_gt_symm (Item.num a) (Item.num b) h = compare_gt_symm a b h
  cmp_item_gt_symm (Item.float d) (Item.float e) h = f.cmp_gt_symm d e h
  cmp_item_gt_symm (Item.num a) (Item.float e) h = cc
  cmp_item_gt_symm (Item.float d) (Item.num b) h = refl

  pub cmp_item_lt_trans :
      (a b c : Item F)
      → cmp_item a b ≡ Ordering.lt
      → cmp_item b c ≡ Ordering.lt
      → cmp_item a c ≡ Ordering.lt
  unfolding cmp_item
  cmp_item_lt_trans (Item.num a) (Item.num b) (Item.num c) h k = compare_lt_trans a b c h k
  cmp_item_lt_trans (Item.float d) (Item.float e) (Item.float g) h k = f.cmp_lt_trans d e g h k
  cmp_item_lt_trans (Item.num a) b (Item.float g) h k = refl
  cmp_item_lt_trans (Item.float d) (Item.num b) c h k = cc
  cmp_item_lt_trans a (Item.float e) (Item.num c) h k = cc

  instance abbrev pub item_order : Ord (Item F)
  item_order = record {
    cmp = cmp_item;
    cmp_refl = cmp_item_refl;
    eq_of_cmp = eq_of_cmp_item;
    cmp_lt_symm = cmp_item_lt_symm;
    cmp_gt_symm = cmp_item_gt_symm;
    cmp_lt_trans = cmp_item_lt_trans;
  }

module _ {F : Type 0} where
  -- A list of numbers, and then the rest: 1 before each number, and 0 at the end.
  unfoldable pub code_text : List ℕ → List (Item F) → List (Item F)
  code_text [] r = Item.num 0 ∷ r
  code_text (c ∷ cs) r = Item.num 1 ∷ Item.num c ∷ code_text cs r

  unfoldable mutual
    unfolding code_text

    pub code_value : Value F → List (Item F) → List (Item F)
    code_value (Value.string s) r = Item.num 0 ∷ code_text s r
    code_value (Value.bool b) r = Item.num 1 ∷ Item.num (to_nat b) ∷ r
    code_value (Value.int i) r = Item.num 2 ∷ Item.num i ∷ r
    code_value (Value.double d) r = Item.num 3 ∷ Item.float d ∷ r
    code_value (Value.array_any vs) r = Item.num 4 ∷ code_values vs r
    code_value (Value.array_kv kvs) r = Item.num 5 ∷ code_key_values kvs r
    code_value (Value.bytes bs) r = Item.num 6 ∷ code_text bs r

    pub code_values : Values F → List (Item F) → List (Item F)
    code_values Values.nil r = Item.num 0 ∷ r
    code_values (Values.cons v vs) r = Item.num 1 ∷ code_value v (code_values vs r)

    pub code_key_values : KeyValues F → List (Item F) → List (Item F)
    code_key_values KeyValues.end r = Item.num 0 ∷ r
    code_key_values (KeyValues.more a as') r = Item.num 1 ∷ code_key_value a (code_key_values as' r)

    pub code_key_value : KeyValue F → List (Item F) → List (Item F)
    code_key_value (KeyValue.no_val k) r = code_text k (Item.num 0 ∷ r)
    code_key_value (KeyValue.new k v) r = code_text k (Item.num 1 ∷ code_value v r)

module _ {F : Type 0} ⦃f : Ord F⦄ where
  cmp-code_text :
      (s t : List ℕ) (r q : List (Item F))
      → cmp_list (code_text s r) (code_text t q) ≡ then_with (cmp_list s t) (cmp_list r q)
  unfolding code_text cmp_list cmp_item
  cmp-code_text [] [] r q = refl
  cmp-code_text [] (d ∷ ds) r q = refl
  cmp-code_text (c ∷ cs) [] r q = refl
  cmp-code_text (c ∷ cs) (d ∷ ds) r q =
      ap (then_with (compare c d)) (cmp-code_text cs ds r q)
      ∙ sym (then_with_assoc (compare c d) (cmp_list cs ds) (cmp_list r q))

  mutual
    unfolding code_value cmp_value cmp_list cmp_item variant

    pub cmp-code_value :
        (v w : Value F) (r q : List (Item F))
        → cmp_list (code_value v r) (code_value w q) ≡ then_with (cmp_value v w) (cmp_list r q)
    cmp-code_value (Value.string s) (Value.string t) r q = cmp-code_text s t r q
    cmp-code_value (Value.bool a) (Value.bool b) r q = refl
    cmp-code_value (Value.int i) (Value.int j) r q = refl
    cmp-code_value (Value.double d) (Value.double e) r q = refl
    cmp-code_value (Value.array_any vs) (Value.array_any ws) r q = cmp-code_values vs ws r q
    cmp-code_value (Value.array_kv kvs) (Value.array_kv jws) r q = cmp-code_key_values kvs jws r q
    cmp-code_value (Value.bytes bs) (Value.bytes cs) r q = cmp-code_text bs cs r q
    cmp-code_value v w r q = refl

    pub cmp-code_values :
        (vs ws : Values F) (r q : List (Item F))
        → cmp_list (code_values vs r) (code_values ws q)
          ≡ then_with (cmp_values vs ws) (cmp_list r q)
    cmp-code_values Values.nil Values.nil r q = refl
    cmp-code_values Values.nil (Values.cons w ws) r q = refl
    cmp-code_values (Values.cons v vs) Values.nil r q = refl
    cmp-code_values (Values.cons v vs) (Values.cons w ws) r q =
        cmp-code_value v w (code_values vs r) (code_values ws q)
        ∙ ap (then_with (cmp_value v w)) (cmp-code_values vs ws r q)
        ∙ sym (then_with_assoc (cmp_value v w) (cmp_values vs ws) (cmp_list r q))

    pub cmp-code_key_values :
        (as' bs : KeyValues F) (r q : List (Item F))
        → cmp_list (code_key_values as' r) (code_key_values bs q)
          ≡ then_with (cmp_key_values as' bs) (cmp_list r q)
    cmp-code_key_values KeyValues.end KeyValues.end r q = refl
    cmp-code_key_values KeyValues.end (KeyValues.more b bs) r q = refl
    cmp-code_key_values (KeyValues.more a as') KeyValues.end r q = refl
    cmp-code_key_values (KeyValues.more a as') (KeyValues.more b bs) r q =
        cmp-code_key_value a b (code_key_values as' r) (code_key_values bs q)
        ∙ ap (then_with (cmp_key_value a b)) (cmp-code_key_values as' bs r q)
        ∙ sym (then_with_assoc (cmp_key_value a b) (cmp_key_values as' bs) (cmp_list r q))

    pub cmp-code_key_value :
        (a b : KeyValue F) (r q : List (Item F))
        → cmp_list (code_key_value a r) (code_key_value b q)
          ≡ then_with (cmp_key_value a b) (cmp_list r q)
    cmp-code_key_value (KeyValue.no_val k) (KeyValue.no_val j) r q = cmp-code_text k j _ _
    cmp-code_key_value (KeyValue.no_val k) (KeyValue.new j w) r q =
        cmp-code_text k j _ _ ∙ sym (then_with_assoc (cmp_list k j) Ordering.lt (cmp_list r q))
    cmp-code_key_value (KeyValue.new k v) (KeyValue.no_val j) r q =
        cmp-code_text k j _ _ ∙ sym (then_with_assoc (cmp_list k j) Ordering.gt (cmp_list r q))
    cmp-code_key_value (KeyValue.new k v) (KeyValue.new j w) r q =
        cmp-code_text k j _ _
        ∙ ap (then_with (cmp_list k j)) (cmp-code_value v w r q)
        ∙ sym (then_with_assoc (cmp_list k j) (cmp_value v w) (cmp_list r q))
