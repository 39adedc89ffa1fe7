-- ===== src/BucketMap/Insert.antt =====
-- `insert_canon` of src/bucket_map.rs gives a normalised list its bucket.
use ohnotel.Base.{
  ℕ, ◌<◌, ◌≡◌, ◌≢◌, refl, ◌∙◌, false, List, [], Option, none, some, arith, Option-cases, inl, inr,
}
use ohnotel.Model.Order.{Ord}
use ohnotel.Attrs.{eq_attrs, IsCanonical}
use ohnotel.Fingerprint.{commutative_hash, table_hash}
use ohnotel.Table.Items.{first}
use ohnotel.BucketMap.State.{AliasKey, CanonicalEntry, Params, BucketMap}
use ohnotel.BucketMap.Lookup.{has_attrs, insert_canon}
use ohnotel.BucketMap.Inv.{entries_of, bucket_for, Inv, IsCounted}
use ohnotel.BucketMap.Find.{find_canonical}
use ohnotel.BucketMap.Occupied.{occupied, bucket_for-occupied, occupied-Inv, occupied-IsCounted}
use ohnotel.BucketMap.Vacant.{
  vacant, bucket_for-vacant, bucket_for-vacant_new, vacant-Inv, vacant-IsCounted,
}
use ohnotel.BucketMap.Dup.{aliased}

module _ {K A : Type 0} ⦃o : Ord K⦄ {p : Params K A} where
  -- What it means that `r` is `m` with a bucket for the key `k`.
  pub record HasBucket (m : BucketMap p) (k : List K) (r : BucketMap p × ℕ) : Type 0 where
    pub inv : Inv r.0
    pub at_key : bucket_for r.0 k ≡ some r.1
    pub elsewhere : (j : List K) → eq_attrs k j ≡ false → bucket_for r.0 j ≡ bucket_for m j
    pub kept : (b : ℕ) → bucket_for m k ≡ some b → r.1 ≡ b
    pub fresh : bucket_for m k ≡ none → (r.1 ≡ m.heap.next) × (r.0.heap.cell r.1 ≡ p.init_bucket)
    pub cells : (c : ℕ) → c < m.heap.next → r.0.heap.cell c ≡ m.heap.cell c
    pub counted : IsCounted m → IsCounted r.0
    pub untouched : r.0.no_attr_touched ≡ m.no_attr_touched
    pub root : r.0.no_attr_entry ≡ m.no_attr_entry

  -- The entry arm that `insert_canon` takes.
  insert_canon_found :
      {m : BucketMap p} (inv : Inv m) (buf : List K) (alias : Option (AliasKey K))
      (e : CanonicalEntry K)
      → first (has_attrs buf) (entries_of m) ≡ some e
      → insert_canon buf (table_hash p.build (commutative_hash p.build buf)) alias m
        ≡ (occupied m buf alias, e.bucket)
  unfolding insert_canon
  insert_canon_found inv buf alias e h = rw (find_canonical inv buf ∙ h, insert_canon)

  insert_canon_missing :
      {m : BucketMap p} (inv : Inv m) (buf : List K) (alias : Option (AliasKey K))
      → first (has_attrs buf) (entries_of m) ≡ none
      → insert_canon buf (table_hash p.build (commutative_hash p.build buf)) alias m
        ≡ (vacant m buf alias, m.heap.next)
  unfolding insert_canon
  insert_canon_missing inv buf alias h = rw (find_canonical inv buf ∙ h, insert_canon)

  occupied-HasBucket :
      {m : BucketMap p} (inv : Inv m) (buf : List K) (alias : Option (AliasKey K)) (b : ℕ)
      → bucket_for m buf ≡ some b
      → HasBucket m buf (occupied m buf alias, b)
  occupied-HasBucket inv buf alias b h = record {
    inv = occupied-Inv inv buf alias;
    at_key = bucket_for-occupied inv buf alias buf ∙ h;
    elsewhere = λ j _. bucket_for-occupied inv buf alias j;
    kept = λ b' h'. ground (arith, h, h');
    fresh = λ h'. absurd (ground (arith, h, h'));
    cells = λ c _. refl;
    counted = occupied-IsCounted inv buf alias;
    untouched = refl;
    root = refl;
  }

  vacant-HasBucket :
      {m : BucketMap p} (inv : Inv m) (buf : List K) (alias : Option (AliasKey K))
      → bucket_for m buf ≡ none
      → IsCanonical buf
      → buf ≢ []
      → HasBucket m buf (vacant m buf alias, m.heap.next)
  vacant-HasBucket {m} inv buf alias h canonical nonempty = record {
    inv = vacant-Inv inv buf alias h canonical nonempty;
    at_key = bucket_for-vacant_new inv buf alias h;
    elsewhere = λ j other. bucket_for-vacant inv buf alias h j ∙ rw other;
    kept = λ b' h'. absurd (ground (arith, h, h'));
    fresh = λ _. (refl, ground arith);
    cells = λ c lt. ground arith;
    counted = vacant-IsCounted inv buf alias h;
    untouched = refl;
    root = refl;
  }

  pub insert_canon-HasBucket :
      {m : BucketMap p} (inv : Inv m) (buf : List K) (alias : Option (AliasKey K))
      → IsCanonical buf
      → buf ≢ []
      → HasBucket m buf
          (insert_canon buf (table_hash p.build (commutative_hash p.build buf)) alias m)
        × ((insert_canon buf (table_hash p.build (commutative_hash p.build buf)) alias m).0.aliases
            ≡ m.aliases)
  unfolding bucket_for
  insert_canon-HasBucket {m} inv buf alias canonical nonempty =
      elim (Option-cases (first (has_attrs buf) (entries_of m))) [
        | inl e ↦
            rw (insert_canon_missing inv buf alias e)
              (vacant-HasBucket inv buf alias (rw e) canonical nonempty, refl)
        | inr (e, found) ↦
            rw (insert_canon_found inv buf alias e found)
              (occupied-HasBucket inv buf alias e.bucket (rw found), refl)
      ]

  -- A later insertion of an alias keeps what `insert_canon` established.
  pub aliased-HasBucket :
      {m n : BucketMap p} (k : List K) (b : ℕ) (key : AliasKey K)
      → HasBucket m k (n, b)
      → Inv (aliased n key b)
      → HasBucket m k (aliased n key b, b)
  unfolding bucket_for
  aliased-HasBucket k b key h inv = record {
    inv = inv;
    at_key = h.at_key;
    elsewhere = h.elsewhere;
    kept = h.kept;
    fresh = h.fresh;
    cells = h.cells;
    counted = h.counted;
    untouched = h.untouched;
    root = h.root;
  }
