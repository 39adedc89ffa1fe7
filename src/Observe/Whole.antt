-- ===== src/Observe/Whole.antt =====
-- A whole observation (src/observe.rs, `observe_impl` in the modes that leave the buckets).
use mathlib.Core.Option
use mathlib.Core.Path.{subst}
use ohnotel.Base.{
  ℕ, ◌+◌, ◌%◌, ◌≤◌, ◌≡◌, ◌≢◌, refl, ap, ◌∙◌, ◌&&◌, Bool, true, false, List, [], ◌∷◌, Option, none,
  some, if◌then◌else◌, Bool-cases, to_nat, inl, inr, arith,
}
use ohnotel.Model.Order.{Ord}
use ohnotel.Attrs.{eq_attrs}
use ohnotel.Attrs.Sort.{eq_of_eq_attrs}
use ohnotel.Fingerprint.{u64_mod}
use ohnotel.Atomic.Traits.{Record}
use ohnotel.Table.Items.{count, first, first-eq-none_of_count}
use ohnotel.BucketMap.State.{CanonicalEntry, Params, BucketMap}
use ohnotel.BucketMap.Lookup.{has_attrs}
use ohnotel.BucketMap.Visit.{fold_entries, seen, visit_bucket_lem}
use ohnotel.BucketMap.Inv.{entries_of, bucket_for, Inv}
use ohnotel.Observe.{
  Mode, if_destructive, Observer, Seen, observe_entry, observe_buckets, observe_destructive,
  observe_impl,
}
use ohnotel.Observe.Keys.{KeyState, key_state, observe_key, observe_entry_here, observe_entry_there}

module _ {A T S : Type 0} (r : Record T A S) (ts seq : ℕ) (cell : ℕ → A) where
  -- The observation of the bucket that a key has, if any.
  abbrev pub observe_found : Option ℕ → KeyState S → KeyState S
  observe_found none s = s
  observe_found (some b) s = observe_key r ts seq (r.current (cell b)) s

module _ {K A T S : Type 0} ⦃o : Ord K⦄ (r : Record T A S) (ts seq : ℕ) where
  observe_entry_at :
      (e : CanonicalEntry K) (a : A) (s : Seen K S) (k : List K)
      → eq_attrs e.attrs k ≡ true
      → key_state k (observe_entry r ts seq e a s).1
        ≡ observe_key r ts seq (r.current a) (key_state k s)
  observe_entry_at e a s k same =
      subst
        (λ j.
          key_state j (observe_entry r ts seq e a s).1
          ≡ observe_key r ts seq (r.current a) (key_state j s))
        (eq_of_eq_attrs e.attrs k same) (observe_entry_here r ts seq e a s)

  fold_entries-key :
      (cell : ℕ → A) (k : List K) (xs : List (ℕ × CanonicalEntry K)) (s : Seen K S)
      → count (has_attrs k) xs ≤ 1
      → key_state k (fold_entries (observe_entry r ts seq) cell xs s)
        ≡ observe_found r ts seq cell
            (Option.map (λ (e : CanonicalEntry K). e.bucket) (first (has_attrs k) xs))
            (key_state k s)
  unfolding fold_entries count first
  fold_entries-key cell k [] s h = refl
  fold_entries-key cell k ((g, e) ∷ xs) s h = elim (Bool-cases (eq_attrs e.attrs k)) [
    | inl same ↦
        let after = (observe_entry r ts seq e (cell e.bucket) s).1 in
        let rest = fold_entries-key cell k xs after (omega (arith, h, ap to_nat same)) in
        let alone : first (has_attrs k) xs ≡ none =
          first-eq-none_of_count (has_attrs k) xs (omega (arith, h, ap to_nat same)) in
        let kept : key_state k (fold_entries (observe_entry r ts seq) cell xs after)
            ≡ key_state k after =
          rw alone at rest in
        rw same (kept ∙ observe_entry_at e (cell e.bucket) s k same)
    | inr other ↦ rw other (
        fold_entries-key cell k xs (observe_entry r ts seq e (cell e.bucket) s).1
          (omega (arith, h, ap to_nat other))
        ∙ ap (observe_found r ts seq cell _)
            (observe_entry_there r ts seq e (cell e.bucket) s k other))
  ]

  choose :
      (k : List K) (t b : Bool) (x y : Seen K S) (X Y : KeyState S)
      → (b ≡ true → key_state k x ≡ X)
      → (b ≡ false → key_state k x ≡ Y)
      → key_state k y ≡ Y
      → key_state k (if t then x else y) ≡ (if t && b then X else Y)
  choose k true true x y X Y same other kept = same refl
  choose k true false x y X Y same other kept = other refl
  choose k false b x y X Y same other kept = kept

  module _ {p : Params K A} where
    -- What an observation makes of the state of a key: its bucket's contents are observed, and for
    -- the key without attributes, the bucket without attributes if it was touched.
    abbrev pub observe_map : BucketMap p → List K → KeyState S → KeyState S
    observe_map m k s =
        let s' = observe_found r ts seq m.heap.cell (bucket_for m k) s in
        if m.no_attr_touched && eq_attrs m.no_attr_entry.attrs k
        then observe_key r ts seq (r.current (m.heap.cell m.no_attr_entry.bucket)) s'
        else s'

    seen-key :
        {m : BucketMap p} (inv : Inv m) (s : Seen K S) (k : List K)
        → key_state k (seen (observe_entry r ts seq) m s) ≡ observe_map m k (key_state k s)
    unfolding bucket_for
    seen-key {m} inv s k =
        let cb = observe_entry r ts seq in
        let root = m.no_attr_entry in
        let a = m.heap.cell root.bucket in
        let kept = fold_entries-key m.heap.cell k (entries_of m) s (inv.unique k) in
        let before = fold_entries cb m.heap.cell (entries_of m) s in
        choose k m.no_attr_touched (eq_attrs root.attrs k) (cb root a before).1 before _ _
          (λ same.
            observe_entry_at root a before k same ∙ ap (observe_key r ts seq (r.current a)) kept)
          (λ other. observe_entry_there r ts seq root a before k other ∙ kept) kept

if_destructive-other :
    {R : Type 0} (mode : Mode) (x y : R) → mode ≢ Mode.destructive → if_destructive mode x y ≡ y
if_destructive-other Mode.direct x y other = refl
if_destructive-other Mode.delta x y other = refl
if_destructive-other Mode.destructive x y other = absurd (other refl)

module _ {K A T S : Type 0} ⦃o : Ord K⦄ (r : Record T A S) (ts : ℕ) {p : Params K A} where
  observe_impl-buckets :
      (m : BucketMap p) (ob : Observer K S)
      → ob.observe_mode ≢ Mode.destructive
      → observe_impl r ts m ob ≡ observe_buckets r ts m ob
  unfolding observe_impl
  observe_impl-buckets m ob other =
      if_destructive-other ob.observe_mode (observe_destructive r ts m ob)
        (observe_buckets r ts m ob) other

  -- `observe_impl` over a well-formed map in the modes other than the destructive one: what the
  -- observer holds for each key changes as the contents of the bucket of that key say
  -- (`observe_map`), the sequence number grows by one, and the map stays well formed and keeps its
  -- keys and contents.
  pub observe_lem :
      {m : BucketMap p} (inv : Inv m) (ob : Observer K S)
      → ob.observe_mode ≢ Mode.destructive
      → Inv (observe_impl r ts m ob).0
        × ((observe_impl r ts m ob).0.heap ≡ m.heap)
        × ((k : List K) → bucket_for (observe_impl r ts m ob).0 k ≡ bucket_for m k)
        × ((k : List K)
            → key_state k
                ((observe_impl r ts m ob).1.last_values, (observe_impl r ts m ob).1.series)
              ≡ observe_map r ts ob.seq m k (key_state k (ob.last_values, ob.series)))
        × ((observe_impl r ts m ob).1.seq ≡ (ob.seq + 1) % u64_mod)
  unfolding observe_buckets observe_entry
  observe_lem {m} inv ob mode =
      let (inv', keys, heap, count, touched, got) =
        visit_bucket_lem (observe_entry r ts ob.seq) (λ e a c. keeps e a c) r inv
          (ob.last_values, ob.series) in
      rw (observe_impl-buckets m ob mode) (
        inv',
        heap,
        keys,
        λ k. ap (key_state k) got ∙ seen-key r ts ob.seq inv (ob.last_values, ob.series) k,
        refl,
      )
    where
      keeps :
          (e : CanonicalEntry K) (a : A) (c : Seen K S) → (observe_entry r ts ob.seq e a c).0 ≡ true
      keeps e a (last, series) = refl
