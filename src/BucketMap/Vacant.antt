-- ===== src/BucketMap/Vacant.antt =====
-- The vacant arm of `insert_canon` (src/bucket_map.rs): a new entry with a new bucket.
use mathlib.Core.Option
use mathlib.Core.List.{Permᴰ}
use ohnotel.Base.{
  ℕ, ◌+◌, ◌%◌, ◌≤◌, ◌≡◌, ◌≢◌, refl, sym, ap, ◌∙◌, Bool, List, [], ◌∷◌, Option, none, some, All,
  ◌==◌, arith, if◌then◌else◌, Bool-cases, inl, inr,
}
use ohnotel.Model.Order.{Ord}
use ohnotel.Attrs.{eq_attrs, IsCanonical}
use ohnotel.Attrs.Sort.{eq_of_eq_attrs, eq_attrs_refl}
use ohnotel.Fingerprint.{commutative_hash, table_hash, u64_mod}
use ohnotel.Table.Items.{
  count, first, first-eq-none, count-perm, first-perm, length-perm, All-perm, All-imp,
}
use ohnotel.BucketMap.State.{AliasKey, CanonicalEntry, AliasEntry, alloc, Params, BucketMap}
use ohnotel.BucketMap.Lookup.{has_attrs, into_list}
use ohnotel.BucketMap.Inv.{
  entries_of, aliases_of, bucket_for, EntryOk, AliasOk, IsOwned, Inv, IsCounted,
}

module _ {K A : Type 0} ⦃o : Ord K⦄ {p : Params K A} (m : BucketMap p) (buf : List K)
    (alias : Option (AliasKey K)) where
  abbrev pub new_entry : CanonicalEntry K
  new_entry = record { attrs = buf; bucket = m.heap.next; aliases = into_list alias }

  abbrev pub vacant : BucketMap p
  vacant = record m {
    canonical =
        p.canon.insert (table_hash p.build (commutative_hash p.build buf)) new_entry m.canonical;
    count = (m.count + 1) % u64_mod;
    heap = alloc p.init_bucket m.heap;
  }

count-fresh_bucket :
    {K A : Type 0} ⦃o : Ord K⦄ (p : Params K A) (next : ℕ) (xs : List (ℕ × CanonicalEntry K))
    → All (IsOwned p next) xs
    → count (λ e. e.bucket == next) xs ≡ 0
unfolding count
count-fresh_bucket p next [] a = refl
count-fresh_bucket p next ((g, e) ∷ xs) a = ground (arith, a.0, count-fresh_bucket p next xs a.1)

module _ {K A : Type 0} ⦃o : Ord K⦄ {p : Params K A} {m : BucketMap p} (inv : Inv m) (buf : List K)
    (alias : Option (AliasKey K)) (absent : bucket_for m buf ≡ none) where
  abbrev hash : ℕ
  hash = table_hash p.build (commutative_hash p.build buf)

  order : Permᴰ ((hash, new_entry m buf alias) ∷ entries_of m) (entries_of (vacant m buf alias))
  order = p.canon.items-insert hash (new_entry m buf alias) m.canonical

  no_entry : count (has_attrs buf) (entries_of m) ≡ 0
  unfolding bucket_for
  no_entry = first-eq-none (has_attrs buf) (entries_of m) (ground (arith, absent))

  count-vacant :
      (q : CanonicalEntry K → Bool)
      → count q (entries_of (vacant m buf alias))
        ≡ count q ((hash, new_entry m buf alias) ∷ entries_of m)
  count-vacant q = sym (count-perm q order)

  vacant_unique :
      (k : List K) → count (has_attrs k) ((hash, new_entry m buf alias) ∷ entries_of m) ≤ 1
  unfolding count
  vacant_unique k = elim (Bool-cases (eq_attrs buf k)) [
    | inl e ↦
        let same = eq_of_eq_attrs buf k e in
        let none' : count (has_attrs k) (entries_of m) ≡ 0 = rw same at no_entry in
        rw (e, none') (omega arith)
    | inr e ↦ rw e (omega (arith, inv.unique k))
  ]

  -- The new map: the new bucket at its key, the old one elsewhere.
  pub bucket_for-vacant :
      (k : List K)
      → bucket_for (vacant m buf alias) k
        ≡ (if eq_attrs buf k then some m.heap.next else bucket_for m k)
  unfolding bucket_for first
  bucket_for-vacant k =
      ap (Option.map (λ (e : CanonicalEntry K). e.bucket))
        (sym (first-perm (has_attrs k) order (vacant_unique k)))
      ∙ ground arith

  pub bucket_for-vacant_old :
      (k : List K) (b : ℕ) → bucket_for m k ≡ some b → bucket_for (vacant m buf alias) k ≡ some b
  bucket_for-vacant_old k b old = elim (Bool-cases (eq_attrs buf k)) [
    | inl e ↦ absurd (clash (ap (bucket_for m) (sym (eq_of_eq_attrs buf k e)) ∙ absent))
    | inr e ↦ bucket_for-vacant k ∙ rw e old
  ]
    where
      clash : bucket_for m k ≡ none → ⊥
      clash e = cc

  pub bucket_for-vacant_new : bucket_for (vacant m buf alias) buf ≡ some m.heap.next
  bucket_for-vacant_new = bucket_for-vacant buf ∙ rw (eq_attrs_refl buf)

  vacant-apart :
      (b : ℕ) → count (λ e. e.bucket == b) ((hash, new_entry m buf alias) ∷ entries_of m) ≤ 1
  unfolding count
  vacant-apart b =
      ground (arith, inv.apart b, count-fresh_bucket p m.heap.next (entries_of m) inv.owned)

  kept_targets :
      (h : ℕ) (e : AliasEntry K)
      → AliasOk p (bucket_for m) (h, e)
      → AliasOk p (bucket_for (vacant m buf alias)) (h, e)
  kept_targets h e ok = record {
    filed = ok.filed;
    hashed = ok.hashed;
    leads = bucket_for-vacant_old _ _ ok.leads;
  }

  module _ (canonical : IsCanonical buf) (nonempty : buf ≢ []) where
    pub vacant-Inv : Inv (vacant m buf alias)
    vacant-Inv = record {
      entries =
          All-perm (EntryOk p) order
            (record { canonical = canonical; nonempty = nonempty; filed = refl }, inv.entries);
      unique = λ k. rw (count-vacant (has_attrs k)) (vacant_unique k);
      alias_entries =
          All-imp (AliasOk p (bucket_for m)) (AliasOk p (bucket_for (vacant m buf alias)))
            (aliases_of m) kept_targets inv.alias_entries;
      alias_unique = inv.alias_unique;
      owned = All-perm (IsOwned p (m.heap.next + 1)) order (
        omega (arith, inv.started),
        All-imp (IsOwned p m.heap.next) (IsOwned p (m.heap.next + 1)) (entries_of m)
            (λ h e a. omega arith) inv.owned,
      );
      apart = λ b. rw (count-vacant (λ e. e.bucket == b)) (vacant-apart b);
      root = inv.root;
      started = omega arith;
    }

  pub vacant-IsCounted : IsCounted m → IsCounted (vacant m buf alias)
  vacant-IsCounted c = omega (arith, length-perm order)
