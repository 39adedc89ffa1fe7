-- ===== src/BucketMap/Drain.antt =====
-- `clear` and `take` of src/bucket_map.rs empty the map.
use ohnotel.Base.{◌<◌, ◌≡◌, ◌≢◌, refl, ◌∙◌, false, List, [], none, some, arith, if◌then◌else◌}
use ohnotel.Model.Order.{Ord}
use ohnotel.Atomic.Traits.{Record}
use ohnotel.Table.Items.{count, first}
use ohnotel.BucketMap.State.{Params, BucketMap, with_storage}
use ohnotel.BucketMap.Ops.{clear, take}
use ohnotel.BucketMap.Inv.{entries_of, aliases_of, bucket_for, Inv, IsCounted}

module _ {K A : Type 0} ⦃o : Ord K⦄ {p : Params K A} where
  -- A map with no entry and no alias is well formed.
  empty-Inv :
      (m : BucketMap p)
      → entries_of m ≡ []
      → aliases_of m ≡ []
      → m.no_attr_entry.bucket ≡ 0
      → 0 < m.heap.next
      → Inv m
  unfolding count
  empty-Inv m no_entry no_alias root started = record {
    entries = rw no_entry tt;
    unique = λ k. rw no_entry (omega arith);
    alias_entries = rw no_alias tt;
    alias_unique = λ fp. rw no_alias (omega arith);
    owned = rw no_entry tt;
    apart = λ b. rw no_entry (omega arith);
    root = root;
    started = started;
  }

  empty-bucket_for : (m : BucketMap p) (k : List K) → entries_of m ≡ [] → bucket_for m k ≡ none
  unfolding bucket_for first
  empty-bucket_for m k h = rw h

  pub with_storage-Inv : Inv (with_storage p) × IsCounted (with_storage p)
  unfolding with_storage
  with_storage-Inv = (
    empty-Inv (with_storage p) p.canon.items-new p.alias.items-new refl (omega arith),
    rw p.canon.items-new,
  )

  module _ {T S : Type 0} (r : Record T A S) {m : BucketMap p} (inv : Inv m) where
    -- `clear` of a well-formed map leaves a well-formed map with no key and with a count of its
    -- entries, the bucket without attributes cleared and untouched.
    pub clear_lem :
        Inv (clear r m)
        × IsCounted (clear r m)
        × ((k : List K) → bucket_for (clear r m) k ≡ none)
        × ((clear r m).heap.cell 0 ≡ r.clear (m.heap.cell 0))
        × ((clear r m).no_attr_touched ≡ false)
    unfolding clear
    clear_lem = (
      empty-Inv _ (p.canon.items-clear m.canonical) (p.alias.items-clear m.aliases) inv.root
          inv.started,
      rw (p.canon.items-clear m.canonical),
      λ k. empty-bucket_for (clear r m) k (p.canon.items-clear m.canonical),
      rw inv.root,
      refl,
    )

    -- `take` of a well-formed map hands over its entries, and the reading of the bucket without
    -- attributes if it was touched; it leaves a well-formed map with no key, that bucket cleared
    -- and untouched.
    pub take_lem :
        Inv (take r m).0
        × (p.canon.items (take r m).1.0 ≡ entries_of m)
        × ((take r m).1.1 ≡ (if m.no_attr_touched then some (r.current (m.heap.cell 0)) else none))
        × ((k : List K) → bucket_for (take r m).0 k ≡ none)
        × ((take r m).0.heap.cell 0 ≡ r.clear (m.heap.cell 0))
        × ((take r m).0.no_attr_touched ≡ false)
    unfolding take
    take_lem = (
      empty-Inv (take r m).0 p.canon.items-new (p.alias.items-clear m.aliases) inv.root inv.started,
      refl,
      rw inv.root,
      λ k. empty-bucket_for (take r m).0 k p.canon.items-new,
      rw inv.root,
      refl,
    )

  -- `take` leaves the count: it no longer agrees with the entries unless it was 0.
  pub take-not-IsCounted :
      {T S : Type 0} (r : Record T A S) (m : BucketMap p) → m.count ≢ 0 → ¬ IsCounted (take r m).0
  unfolding take
  take-not-IsCounted r m h c = h (c ∙ rw p.canon.items-new)
