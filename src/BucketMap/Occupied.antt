-- ===== src/BucketMap/Occupied.antt =====
-- The occupied arm of `insert_canon` (src/bucket_map.rs): an entry gets one more alias.
use mathlib.Core.Path.{subst, fun_ext}
use native.Mathlib.Nat.{le_trans}
use ohnotel.Base.{ℕ, ◌≡◌, refl, sym, List, ◌++◌, Option, All, ◌==◌}
use ohnotel.Model.Order.{Ord}
use ohnotel.Fingerprint.{commutative_hash, table_hash}
use ohnotel.Table.Items.{
  modify_match, count_match-le-count, count-modify, first-modify, All-modify, length-modify,
}
use ohnotel.BucketMap.State.{AliasKey, CanonicalEntry, Params, BucketMap}
use ohnotel.BucketMap.Lookup.{has_attrs, into_list}
use ohnotel.BucketMap.Inv.{
  entries_of, aliases_of, bucket_for, EntryOk, AliasOk, IsOwned, Inv, IsCounted,
}

module _ {K A : Type 0} ⦃o : Ord K⦄ {p : Params K A} (m : BucketMap p) (buf : List K)
    (alias : Option (AliasKey K)) where
  abbrev pub extend : CanonicalEntry K → CanonicalEntry K
  extend e = record e { aliases = e.aliases ++ into_list alias }

  abbrev pub occupied : BucketMap p
  occupied = record m {
    canonical =
        p.canon.modify (table_hash p.build (commutative_hash p.build buf)) (has_attrs buf) extend
          m.canonical;
  }

module _ {K A : Type 0} ⦃o : Ord K⦄ {p : Params K A} {m : BucketMap p} (inv : Inv m) (buf : List K)
    (alias : Option (AliasKey K)) where
  abbrev hash : ℕ
  hash = table_hash p.build (commutative_hash p.build buf)

  abbrev changed : List (ℕ × CanonicalEntry K)
  changed = modify_match hash (has_attrs buf) (extend m buf alias) (entries_of m)

  items-occupied : entries_of (occupied m buf alias) ≡ changed
  items-occupied =
      p.canon.items-modify hash (has_attrs buf) (extend m buf alias) m.canonical
        (le_trans (count_match-le-count hash (has_attrs buf) (entries_of m)) (inv.unique buf))

  pub bucket_for-occupied : (k : List K) → bucket_for (occupied m buf alias) k ≡ bucket_for m k
  unfolding bucket_for
  bucket_for-occupied k = rw items-occupied (
      first-modify hash (has_attrs buf) (extend m buf alias) (λ e. e.bucket) (has_attrs k)
        (entries_of m) (λ e. refl) (λ e. refl))

  pub occupied-Inv : Inv (occupied m buf alias)
  occupied-Inv = record {
    entries = rw items-occupied (
        All-modify hash (has_attrs buf) (extend m buf alias) (EntryOk p) (entries_of m)
          (λ g e ok. record { canonical = ok.canonical; nonempty = ok.nonempty; filed = ok.filed })
          inv.entries);
    unique = λ k.
        rw
          (
            items-occupied,
            count-modify hash (has_attrs buf) (extend m buf alias) (has_attrs k) (entries_of m)
                (λ e. refl),
          )
          (inv.unique k);
    alias_entries =
        subst (λ f. All (AliasOk p f) (aliases_of m)) (sym (fun_ext bucket_for-occupied))
          inv.alias_entries;
    alias_unique = inv.alias_unique;
    owned = rw items-occupied (
        All-modify hash (has_attrs buf) (extend m buf alias) (IsOwned p m.heap.next) (entries_of m)
          (λ g e ok. ok) inv.owned);
    apart = λ b.
        rw
          (
            items-occupied,
            count-modify hash (has_attrs buf) (extend m buf alias) (λ e. e.bucket == b)
                (entries_of m) (λ e. refl),
          )
          (inv.apart b);
    root = inv.root;
    started = inv.started;
  }

  pub occupied-IsCounted : IsCounted m → IsCounted (occupied m buf alias)
  occupied-IsCounted c =
      rw (items-occupied, length-modify hash (has_attrs buf) (extend m buf alias) (entries_of m)) c
