-- ===== src/BucketMap/Contents.antt =====
-- What the operations of a bucket map (src/bucket_map.rs) do to the recorded values: a map from
-- normalised lists to contents, whose entries are apart.
use mathlib.Core.Option
use ohnotel.Base.{
  ℕ, ◌<◌, ◌≡◌, ◌≢◌, ◌⊎◌, refl, sym, ap, ◌∙◌, true, false, List, [], ◌∷◌, Option, none, some, ok,
  arith, if◌then◌else◌, Bool-cases, Option-cases, inl, inr, ◌==◌, ==_iff,
}
use ohnotel.Model.Order.{Ord}
use ohnotel.Attrs.{normalize, eq_attrs}
use ohnotel.Attrs.Sort.{eq_of_eq_attrs}
use ohnotel.Atomic.Traits.{Scalar}
use ohnotel.Table.Items.{first, first_passes, first_shared, All-first}
use ohnotel.BucketMap.State.{CanonicalEntry, update_cell, Params, BucketMap}
use ohnotel.BucketMap.Lookup.{has_attrs, get_bucket, get_or_create, lookup_canon, lookup_dup}
use ohnotel.BucketMap.Ops.{touch, record_with, get}
use ohnotel.BucketMap.Inv.{entries_of, bucket_for, IsOwned, Inv, NoCollision}
use ohnotel.BucketMap.Insert.{HasBucket}
use ohnotel.BucketMap.Create.{get_or_create_lem}

-- A key that was never recorded starts from what `init_bucket` returns.
abbrev pub or_init : {K A : Type 0} (p : Params K A) → Option A → A
or_init p none = p.init_bucket
or_init p (some a) = a

module _ {K A : Type 0} ⦃o : Ord K⦄ {p : Params K A} where
  -- The contents under a normalised list.
  abbrev pub view : BucketMap p → List K → Option A
  view m k = Option.map m.heap.cell (bucket_for m k)

  module _ {m : BucketMap p} (inv : Inv m) where
    entry_of :
        (k : List K) (b : ℕ)
        → bucket_for m k ≡ some b
        → (e : CanonicalEntry K) × (first (has_attrs k) (entries_of m) ≡ some e) × (e.bucket ≡ b)
    unfolding bucket_for
    entry_of k b h =
        (Option.map-eq-some_iff (λ e. e.bucket) (first (has_attrs k) (entries_of m))).0 h

    pub bucket_owned : (k : List K) (b : ℕ) → bucket_for m k ≡ some b → (0 < b) × (b < m.heap.next)
    bucket_owned k b h =
        let (e, found, same) = entry_of k b h in
        let (g, own) =
          All-first (IsOwned p m.heap.next) (has_attrs k) (entries_of m) e inv.owned found in
        rw same at own

    -- No two keys share a bucket.
    pub keys_apart :
        (j k : List K) (b : ℕ)
        → bucket_for m j ≡ some b
        → bucket_for m k ≡ some b
        → eq_attrs j k ≡ true
    keys_apart j k b hj hk =
        let (e, found, same) = entry_of j b hj in
        let (e', found', same') = entry_of k b hk in
        let passes =
          first_shared (has_attrs j) (has_attrs k) (λ x. x.bucket == b) (entries_of m) e e'
            (inv.apart b) found found' ((==_iff _ _).1 same) ((==_iff _ _).1 same') in
        let label = eq_of_eq_attrs e.attrs j (first_passes (has_attrs j) (entries_of m) e found) in
        rw label at passes

  -- Writing to cells leaves the keys and the look-ups alone.
  abbrev with_cell : (b : ℕ) → (A → A) → BucketMap p → BucketMap p
  with_cell b f m = record m { heap = update_cell b f m.heap }

  with_cell-Inv : {m : BucketMap p} (b : ℕ) (f : A → A) → Inv m → Inv (with_cell b f m)
  unfolding bucket_for
  with_cell-Inv b f inv = record {
    entries = inv.entries;
    unique = inv.unique;
    alias_entries = inv.alias_entries;
    alias_unique = inv.alias_unique;
    owned = inv.owned;
    apart = inv.apart;
    root = inv.root;
    started = inv.started;
  }

  with_cell-view :
      {m : BucketMap p} (inv : Inv m) (k : List K) (b : ℕ) (f : A → A)
      → bucket_for m k ≡ some b
      → (j : List K)
      → view (with_cell b f m) j ≡ (if eq_attrs k j then some (f (m.heap.cell b)) else view m j)
  unfolding bucket_for
  with_cell-view {m} inv k b f h j = elim (Bool-cases (eq_attrs k j)) [
    | inl e ↦
        let at_j : bucket_for m j ≡ some b = ap (bucket_for m) (sym (eq_of_eq_attrs k j e)) ∙ h in
        rw e (ground (arith, at_j))
    | inr e ↦ rw e (elsewhere e (Option-cases (bucket_for m j)))
  ]
    where
      elsewhere :
          eq_attrs k j ≡ false
          → ((bucket_for m j ≡ none) ⊎ ((b' : ℕ) × (bucket_for m j ≡ some b')))
          → view (with_cell b f m) j ≡ view m j
      elsewhere e (inl absent) = ground (arith, absent)
      elsewhere e (inr (b', at_j)) =
          let apart : b ≢ b' = λ same. cc (keys_apart inv k j b h (at_j ∙ ap some (sym same)), e) in
          ground (arith, at_j, apart)

  -- The contents of a bucket that was found or created.
  start_contents :
      {m : BucketMap p} (inv : Inv m) (k : List K) (r : BucketMap p × ℕ)
      → HasBucket m k r
      → r.0.heap.cell r.1 ≡ or_init p (view m k)
  start_contents {m} inv k r has = elim (Option-cases (bucket_for m k)) [
    | inl absent ↦ rw absent (has.fresh absent).1
    | inr (b, at_k) ↦
        rw at_k (ap r.0.heap.cell (has.kept b at_k) ∙ has.cells b (bucket_owned inv k b at_k).1)
  ]

  elsewhere_contents :
      {m : BucketMap p} (inv : Inv m) (k : List K) (r : BucketMap p × ℕ)
      → HasBucket m k r
      → (j : List K) → eq_attrs k j ≡ false
      → view r.0 j ≡ view m j
  elsewhere_contents {m} inv k r has j e = elim (Option-cases (bucket_for m j)) [
    | inl absent ↦ rw (has.elsewhere j e, absent)
    | inr (b, at_j) ↦
        rw (has.elsewhere j e, at_j) (ap some (has.cells b (bucket_owned inv j b at_j).1))
  ]

  created_contents :
      {m : BucketMap p} (inv : Inv m) (k : List K) (r : BucketMap p × ℕ) (has : HasBucket m k r)
      (f : A → A) (j : List K)
      → (if eq_attrs k j then some (f (r.0.heap.cell r.1)) else view r.0 j)
        ≡ (if eq_attrs k j then some (f (or_init p (view m k))) else view m j)
  created_contents {m} inv k r has f j = elim (Bool-cases (eq_attrs k j)) [
    | inl e ↦ rw e (ap (λ a. some (f a)) (start_contents inv k r has))
    | inr e ↦ rw e (elsewhere_contents inv k r has j e)
  ]

  -- Recording under at least one attribute in a well-formed map, if no alias of the map has the
  -- fingerprint of the list and another normal form: the contents under the normalised list become
  -- what the change makes of them, or of the initial contents if there were none, and the contents
  -- under every other list stay.
  pub record_with-view :
      {m : BucketMap p} (inv : Inv m) (f : A → A) (a : K) (more : List K)
      → NoCollision m (a ∷ more)
      → (k : List K)
      → view (record_with f (a ∷ more) m) k ≡ (
          if eq_attrs (normalize (a ∷ more)) k
          then some (f (or_init p (view m (normalize (a ∷ more)))))
          else view m k)
  unfolding record_with
  record_with-view {m} inv f a more apart k =
      let key = normalize (a ∷ more) in
      let r = get_or_create (a ∷ more) m in
      let (has, found) = get_or_create_lem inv a more apart in
      with_cell-view has.inv key r.1 f has.at_key k ∙ created_contents inv key r has f k

  -- Recording under any list of attributes, if no alias of the map has the fingerprint of the list
  -- and another normal form, keeps a map well formed: canonical entries, distinct keys, buckets of
  -- their own, and aliases that lead where the normal form of their list leads.
  pub record_with-Inv :
      {m : BucketMap p} (inv : Inv m) (f : A → A) (attrs : List K)
      → NoCollision m attrs
      → Inv (record_with f attrs m)
  unfolding record_with bucket_for
  record_with-Inv inv f [] apart = record {
    entries = inv.entries;
    unique = inv.unique;
    alias_entries = inv.alias_entries;
    alias_unique = inv.alias_unique;
    owned = inv.owned;
    apart = inv.apart;
    root = inv.root;
    started = inv.started;
  }
  record_with-Inv {m} inv f (a ∷ more) apart =
      let r = get_or_create (a ∷ more) m in
      with_cell-Inv r.1 f (get_or_create_lem inv a more apart).0.inv

  touch-bucket_for :
      (m : BucketMap p) (f : A → A) (k : List K) → bucket_for (touch f m) k ≡ bucket_for m k
  unfolding bucket_for
  touch-bucket_for m f k = refl

  root_view :
      {m : BucketMap p} (inv : Inv m) (f : A → A) (k : List K) → view (touch f m) k ≡ view m k
  root_view {m} inv f k = elim (Option-cases (bucket_for m k)) [
    | inl absent ↦ rw (touch-bucket_for m f k ∙ absent, absent)
    | inr (b, at_k) ↦
        rw (touch-bucket_for m f k ∙ at_k, at_k)
          (ground (arith, inv.root, bucket_owned inv k b at_k))
  ]

  -- Recording without attributes in a well-formed map changes the contents of no key, changes cell
  -- 0, and marks it as touched.
  pub record_with-root :
      {m : BucketMap p} (inv : Inv m) (f : A → A)
      → (((k : List K) → view (record_with f [] m) k ≡ view m k)
          × ((record_with f [] m).heap.cell 0 ≡ f (m.heap.cell 0))
          × ((record_with f [] m).no_attr_touched ≡ true))
  unfolding record_with
  record_with-root {m} inv f = (root_view inv f, rw inv.root, refl)

  get_bucket-with_cell :
      (m : BucketMap p) (b : ℕ) (f : A → A) (a : K) (more : List K)
      → get_bucket (a ∷ more) (with_cell b f m) ≡ get_bucket (a ∷ more) m
  unfolding get_bucket lookup_canon lookup_dup
  get_bucket-with_cell m b f a more = refl

  get_of_bucket :
      {T : Type 0} (s : Scalar T A) (m : BucketMap p) (a : K) (more : List K) (b : ℕ)
      → get_bucket (a ∷ more) m ≡ ok b
      → get s (a ∷ more) m ≡ some (s.load (m.heap.cell b))
  unfolding get
  get_of_bucket s m a more b h = rw (h, get)

  record_with_lem :
      (f : A → A) (a : K) (more : List K) (m : BucketMap p)
      → record_with f (a ∷ more) m
        ≡ with_cell (get_or_create (a ∷ more) m).1 f (get_or_create (a ∷ more) m).0
  unfolding record_with
  record_with_lem f a more m = refl

  -- `get` of the list that was just recorded under, in a well-formed map and if no alias of the map
  -- has the fingerprint of the list and another normal form, returns the value after the change,
  -- whatever order the attributes have.
  pub get-record_with :
      {T : Type 0} (s : Scalar T A) {m : BucketMap p} (inv : Inv m) (f : A → A) (a : K)
      (more : List K)
      → NoCollision m (a ∷ more)
      → get s (a ∷ more) (record_with f (a ∷ more) m)
        ≡ some (s.load (f (or_init p (view m (normalize (a ∷ more))))))
  get-record_with s {m} inv f a more apart =
      let key = normalize (a ∷ more) in
      let r = get_or_create (a ∷ more) m in
      let (has, found) = get_or_create_lem inv a more apart in
      ap (get s (a ∷ more)) (record_with_lem f a more m)
      ∙ get_of_bucket s (with_cell r.1 f r.0) a more r.1
          (get_bucket-with_cell r.0 r.1 f a more ∙ found)
      ∙ ap some (ap s.load (written r.1 f r.0 ∙ ap f (start_contents inv key r has)))
    where
      written :
          (b : ℕ) (f : A → A) (n : BucketMap p) → (with_cell b f n).heap.cell b ≡ f (n.heap.cell b)
      written b f n = ground arith
