-- ===== src/Observe/Maps.antt =====
-- The association lists of the observer (src/observe.rs): reading after a write.
use ohnotel.Base.{
  ◌≡◌, refl, true, false, List, [], ◌∷◌, ◌++◌, ap, some, if◌then◌else◌, Bool-cases, inl, inr, arith,
}
use ohnotel.Model.Order.{Ord}
use ohnotel.Attrs.{eq_attrs}
use ohnotel.Attrs.Sort.{eq_of_eq_attrs, eq_attrs_refl}
use ohnotel.Observe.{Map, get, set, Snapshot, SeriesMap, push, or_empty}

module _ {K : Type 0} ⦃o : Ord K⦄ where
  -- Equal lists pass the same tests.
  eq_attrs_swap : (i j k : List K) → eq_attrs i j ≡ true → eq_attrs i k ≡ eq_attrs j k
  eq_attrs_swap i j k h = rw (eq_of_eq_attrs i j h) refl

  eq_attrs_meet : (i j k : List K) → eq_attrs i k ≡ true → eq_attrs j k ≡ true → eq_attrs i j ≡ true
  eq_attrs_meet i j k h h' = rw (eq_of_eq_attrs i k h, eq_of_eq_attrs j k h') (eq_attrs_refl k)

  pub get-set :
      {V : Type 0} (j : List K) (v : V) (m : Map K V) (k : List K)
      → get k (set j v m) ≡ (if eq_attrs j k then some v else get k m)
  unfolding get set
  get-set j v [] k = refl
  get-set j v ((i, w) ∷ m) k = elim (Bool-cases (eq_attrs i j)) [
    | inl e ↦ rw e (ground (arith, eq_attrs_swap i j k e))
    | inr e ↦ rw e (ground (arith, get-set j v m k, eq_attrs_meet i j k, e))
  ]

  pub get-set_here : {V : Type 0} (k : List K) (v : V) (m : Map K V) → get k (set k v m) ≡ some v
  get-set_here k v m = rw (get-set k v m k, eq_attrs_refl k) refl

  pub get-set_there :
      {V : Type 0} (j : List K) (v : V) (m : Map K V) (k : List K)
      → eq_attrs j k ≡ false
      → get k (set j v m) ≡ get k m
  get-set_there j v m k h = rw (get-set j v m k, h) refl

  pub push_here :
      {S : Type 0} (k : List K) (s : Snapshot S) (m : SeriesMap K S)
      → or_empty (get k (push k s m)) ≡ or_empty (get k m) ++ (s ∷ [])
  unfolding push
  push_here k s m = ap or_empty (get-set_here k _ m)

  pub push_there :
      {S : Type 0} (j : List K) (s : Snapshot S) (m : SeriesMap K S) (k : List K)
      → eq_attrs j k ≡ false
      → or_empty (get k (push j s m)) ≡ or_empty (get k m)
  unfolding push
  push_there j s m k h = ap or_empty (get-set_there j _ m k h)
