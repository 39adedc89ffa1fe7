-- ===== src/BucketMap/Visit.antt =====
-- `visit_bucket` of src/bucket_map.rs with a callback that keeps every entry, as all callbacks of
-- the crate do: the map stays, and the callback sees each entry once.
use mathlib.Core.Option
use mathlib.Core.List.{Permᴰ}
use mathlib.Core.Path.{subst, fun_ext}
use ohnotel.Base.{
  ℕ, ◌≡◌, refl, sym, ap, ◌∙◌, Bool, true, List, [], ◌∷◌, arith, if◌then◌else◌, All, ◌==◌,
}
use ohnotel.Model.Order.{Ord}
use ohnotel.Atomic.Traits.{Record}
use ohnotel.Table.Items.{count-perm, first-perm, All-perm, retain_items}
use ohnotel.BucketMap.State.{CanonicalEntry, Params, BucketMap}
use ohnotel.BucketMap.Lookup.{has_attrs}
use ohnotel.BucketMap.Ops.{Visit, visit_entry, visit_bucket}
use ohnotel.BucketMap.Inv.{entries_of, aliases_of, bucket_for, EntryOk, AliasOk, IsOwned, Inv}

-- The state of a callback after the entries.
unfoldable pub fold_entries :
    {K A C : Type 0}
    → (CanonicalEntry K → A → C → Bool × C)
    → (ℕ → A)
    → List (ℕ × CanonicalEntry K)
    → C
    → C
fold_entries cb cell [] c = c
fold_entries cb cell ((g, e) ∷ xs) c = fold_entries cb cell xs (cb e (cell e.bucket) c).1

module _ {K A C : Type 0} {p : Params K A} (cb : CanonicalEntry K → A → C → Bool × C) where
  -- What the callback has seen at the end.
  abbrev pub seen : BucketMap p → C → C
  seen m c =
      let after = fold_entries cb m.heap.cell (p.canon.items m.canonical) c in
      if m.no_attr_touched
      then (cb m.no_attr_entry (m.heap.cell m.no_attr_entry.bucket) after).1
      else after

module _ {K A C : Type 0} ⦃o : Ord K⦄ {p : Params K A} (cb : CanonicalEntry K → A → C → Bool × C)
    (keeps : (e : CanonicalEntry K) (a : A) (c : C) → (cb e a c).0 ≡ true) where
  visit_entry_keeps :
      (cell : ℕ → A) (e : CanonicalEntry K) (v : Visit p C)
      → visit_entry cb cell e v
        ≡ (true, record v { callback = (cb e (cell e.bucket) v.callback).1 })
  unfolding visit_entry
  visit_entry_keeps cell e v = rw (keeps e (cell e.bucket) v.callback)

  retain_keep :
      (cell : ℕ → A) (xs : List (ℕ × CanonicalEntry K)) (v : Visit p C)
      → retain_items (visit_entry cb cell) xs v
        ≡ (xs, record v { callback = fold_entries cb cell xs v.callback })
  unfolding retain_items fold_entries
  retain_keep cell [] v = refl
  retain_keep cell ((g, e) ∷ xs) v = rw (visit_entry_keeps cell e v) (
      ap (λ r. ((g, e) ∷ r.0, r.1))
        (retain_keep cell xs (record v { callback = (cb e (cell e.bucket) v.callback).1 })))

  abbrev start_visit : BucketMap p → C → Visit p C
  start_visit m c = record { aliases = m.aliases; evicted = 0; callback = c }

  abbrev retained : BucketMap p → C → p.canon.Table × Visit p C
  retained m c =
      p.canon.retain (Visit p C) (visit_entry cb m.heap.cell) m.canonical (start_visit m c)

  retained_order : (m : BucketMap p) (c : C) → Permᴰ (entries_of m) (p.canon.items (retained m c).0)
  retained_order m c =
      subst (λ xs. Permᴰ xs (p.canon.items (retained m c).0))
        (ap (λ r. r.0) (retain_keep m.heap.cell (entries_of m) (start_visit m c)))
        (p.canon.items-retain (Visit p C) (visit_entry cb m.heap.cell) m.canonical
          (start_visit m c))

  retained_state :
      (m : BucketMap p) (c : C)
      → (retained m c).1
        ≡ record (start_visit m c) { callback = fold_entries cb m.heap.cell (entries_of m) c }
  retained_state m c =
      p.canon.state-retain (Visit p C) (visit_entry cb m.heap.cell) m.canonical (start_visit m c)
      ∙ ap (λ r. r.1) (retain_keep m.heap.cell (entries_of m) (start_visit m c))

  visit_bucket_runs :
      {T S : Type 0} (r : Record T A S) (m : BucketMap p) (c : C)
      → visit_bucket r cb m c ≡ (record m { canonical = (retained m c).0 }, seen cb m c)
  unfolding visit_bucket
  visit_bucket_runs r m c = rw (retained_state m c) (
      ground (
        arith,
        keeps m.no_attr_entry (m.heap.cell m.no_attr_entry.bucket)
            (fold_entries cb m.heap.cell (entries_of m) c),
      ))

  reordered-bucket_for :
      {m : BucketMap p} (inv : Inv m) (t : p.canon.Table)
      → Permᴰ (entries_of m) (p.canon.items t)
      → (k : List K) → bucket_for (record m { canonical = t }) k ≡ bucket_for m k
  unfolding bucket_for
  reordered-bucket_for inv t order k =
      ap (Option.map (λ (e : CanonicalEntry K). e.bucket))
        (sym (first-perm (has_attrs k) order (inv.unique k)))

  reordered-Inv :
      {m : BucketMap p} (inv : Inv m) (t : p.canon.Table)
      → Permᴰ (entries_of m) (p.canon.items t)
      → Inv (record m { canonical = t })
  reordered-Inv {m} inv t order = record {
    entries = All-perm (EntryOk p) order inv.entries;
    unique = λ k. rw (sym (count-perm (has_attrs k) order)) (inv.unique k);
    alias_entries =
        subst (λ f. All (AliasOk p f) (aliases_of m))
          (sym (fun_ext (reordered-bucket_for inv t order))) inv.alias_entries;
    alias_unique = inv.alias_unique;
    owned = All-perm (IsOwned p m.heap.next) order inv.owned;
    apart = λ b. rw (sym (count-perm (λ e. e.bucket == b) order)) (inv.apart b);
    root = inv.root;
    started = inv.started;
  }

  -- `visit_bucket` of a well-formed map with a callback that keeps every entry runs it once for
  -- each entry, with the contents of its bucket, and last for the bucket without attributes if it
  -- was touched; the map stays well formed, and keys, contents, count and the touched flag stay.
  pub visit_bucket_lem :
      {T S : Type 0} (r : Record T A S) {m : BucketMap p} (inv : Inv m) (c : C)
      → Inv (visit_bucket r cb m c).0
        × ((k : List K) → bucket_for (visit_bucket r cb m c).0 k ≡ bucket_for m k)
        × ((visit_bucket r cb m c).0.heap ≡ m.heap)
        × ((visit_bucket r cb m c).0.count ≡ m.count)
        × ((visit_bucket r cb m c).0.no_attr_touched ≡ m.no_attr_touched)
        × ((visit_bucket r cb m c).1 ≡ seen cb m c)
  visit_bucket_lem r {m} inv c = rw (visit_bucket_runs r m c) (
    reordered-Inv inv (retained m c).0 (retained_order m c),
    reordered-bucket_for inv (retained m c).0 (retained_order m c),
    refl,
    refl,
    refl,
    refl,
  )
