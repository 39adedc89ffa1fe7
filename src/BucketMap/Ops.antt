-- ===== src/BucketMap/Ops.antt =====
-- The public operations of a bucket map (src/bucket_map.rs): recording, clearing, visiting, draining.
use ohnotel.Base.{
  ℕ, ◌+◌, ◌-◌, ◌%◌, Bool, true, false, List, [], ◌∷◌, Option, none, some, ok, err, if◌then◌else◌,
  ltb,
}
use mathlib.Core.List.{foldl}
use ohnotel.Model.Order.{Ord}
use ohnotel.Fingerprint.{table_hash, u64_mod}
use ohnotel.Atomic.Traits.{Record, Scalar}
use ohnotel.BucketMap.State.{AliasKey, CanonicalEntry, update_cell, Params, BucketMap}
use ohnotel.BucketMap.Lookup.{matches, get_bucket, get_or_create}

-- What the closure of `retain` captures: the aliases, the evicted entries so far, and the state
-- of the callback.
pub record Visit {K A : Type 0} (p : Params K A) (C : Type 0) : Type 0 where
  pub aliases : p.alias.Table
  pub evicted : ℕ
  pub callback : C

-- The removal of an evicted entry's aliases.
remove_alias : {K A : Type 0} (p : Params K A) → p.alias.Table → AliasKey K → p.alias.Table
remove_alias p aliases key =
    p.alias.remove (table_hash p.build key.raw_fp) (λ e. matches e.key key.raw_fp key.raw_attrs)
      aliases

module _ {K A : Type 0} ⦃o : Ord K⦄ {p : Params K A} where
  -- A change of the bucket without attributes marks it as touched.
  abbrev pub touch : (A → A) → BucketMap p → BucketMap p
  touch f m = record m {
    heap = update_cell m.no_attr_entry.bucket f m.heap;
    no_attr_touched = true;
  }

  -- `add`, `sub` and `set`, by what they do to the bucket.
  unfoldable pub record_with : (A → A) → List K → BucketMap p → BucketMap p
  record_with f [] m = touch f m
  record_with f (a ∷ more) m =
      let (m', bucket) = get_or_create (a ∷ more) m in
      record m' { heap = update_cell bucket f m'.heap }

  module _ {T S : Type 0} (r : Record T A S) where
    unfoldable pub add : T → List K → BucketMap p → BucketMap p
    unfolding record_with
    add value = record_with (r.add value)

    unfoldable pub sub : T → List K → BucketMap p → BucketMap p
    unfolding record_with
    sub value = record_with (r.sub value)

    unfoldable pub clear : BucketMap p → BucketMap p
    clear m = record m {
      canonical = p.canon.clear m.canonical;
      aliases = p.alias.clear m.aliases;
      count = 0;
      heap = update_cell m.no_attr_entry.bucket r.clear m.heap;
      no_attr_touched = false;
    }

    -- The drained entries, and the reading of the bucket without attributes if it was touched. The
    -- count is left as it was.
    unfoldable pub take : BucketMap p → BucketMap p × (p.canon.Table × Option S)
    take m =
        let no_attr_val = r.current (m.heap.cell m.no_attr_entry.bucket) in
        (
          record m {
            canonical = p.canon.new;
            aliases = p.alias.clear m.aliases;
            no_attr_touched = false;
            heap = update_cell m.no_attr_entry.bucket r.clear m.heap;
          },
          (m.canonical, if m.no_attr_touched then some no_attr_val else none),
        )

  -- The closure of `retain`. The callback sees an entry with the contents of its bucket.
  unfoldable pub visit_entry :
      {C : Type 0}
      → (CanonicalEntry K → A → C → Bool × C)
      → (ℕ → A)
      → CanonicalEntry K
      → Visit p C
      → Bool × Visit p C
  unfolding remove_alias
  visit_entry cb cell e v =
      let (keep, callback) = cb e (cell e.bucket) v.callback in
      if keep then (true, record v { callback = callback }) else (
        false,
        record {
          aliases = foldl (remove_alias p) v.aliases e.aliases;
          evicted = v.evicted + 1;
          callback = callback;
        },
      )

  unfoldable pub visit_bucket :
      {C T S : Type 0} (r : Record T A S)
      → (CanonicalEntry K → A → C → Bool × C)
      → BucketMap p
      → C
      → BucketMap p × C
  unfolding visit_entry
  visit_bucket {C} r cb m c =
      let (table, v) =
        p.canon.retain (Visit p C) (visit_entry cb m.heap.cell) m.canonical
          (record { aliases = m.aliases; evicted = 0; callback = c }) in
      let count =
        if ltb 0 v.evicted then (m.count + u64_mod - v.evicted % u64_mod) % u64_mod else m.count in
      let m' : BucketMap p = record m { canonical = table; aliases = v.aliases; count = count } in
      if m.no_attr_touched
      then (let (keep, last) = cb m.no_attr_entry (m.heap.cell m.no_attr_entry.bucket) v.callback in
          if keep then (m', last) else (
            record m' {
              heap = update_cell m.no_attr_entry.bucket r.clear m.heap;
              no_attr_touched = false;
            },
            last,
          ))
      else (m', v.callback)

  module _ {T : Type 0} (s : Scalar T A) where
    unfoldable pub reset : List K → BucketMap p → BucketMap p × T
    reset [] m =
        let b = m.no_attr_entry.bucket in
        let (old, new) = s.reset (m.heap.cell b) in
        (record m { heap = update_cell b (λ _. new) m.heap }, old)
    reset (a ∷ more) m =
        let (m', b) = get_or_create (a ∷ more) m in
        let (old, new) = s.reset (m'.heap.cell b) in
        (record m' { heap = update_cell b (λ _. new) m'.heap }, old)

    unfoldable pub set : T → List K → BucketMap p → BucketMap p
    unfolding record_with
    set value = record_with (s.store value)

    unfoldable pub get : List K → BucketMap p → Option T
    get [] m = some (s.load (m.heap.cell m.no_attr_entry.bucket))
    get (a ∷ more) m = elim (get_bucket (a ∷ more) m) [
      | ok b ↦ some (s.load (m.heap.cell b))
      | err e ↦ none
    ]
