-- ===== src/Metric/Values.antt =====
-- What the handles of src/metric.rs read back.
use ohnotel.Base.{◌≡◌, ap, ◌∙◌, List, ◌∷◌, some}
use ohnotel.Model.Order.{Ord}
use ohnotel.Attrs.{normalize}
use ohnotel.Atomic.Traits.{Cell}
use ohnotel.BucketMap.State.{Params, BucketMap}
use ohnotel.BucketMap.Ops.{set, add}
use ohnotel.BucketMap.Inv.{Inv, NoCollision}
use ohnotel.BucketMap.Contents.{get-record_with, view, or_init}
use ohnotel.Metric.{gauge_set, gauge_get, counter_add, counter_get}

module _ {K T A : Type 0} ⦃o : Ord K⦄ (c : Cell T A) {p : Params K A} where
  -- `get` of a gauge returns the value that was just set under the same attributes, at least one
  -- and in whatever order, in a well-formed map, if no alias of the map has the fingerprint of the
  -- list and another normal form, for a cell that loads what it stored.
  pub gauge_get-gauge_set :
      {m : BucketMap p} (inv : Inv m) (value : T) (a : K) (more : List K)
      → NoCollision m (a ∷ more)
      → ((cell : A) → c.scalar.load (c.scalar.store value cell) ≡ value)
      → gauge_get c (a ∷ more) (gauge_set c value (a ∷ more) m) ≡ some value
  unfolding gauge_get gauge_set set
  gauge_get-gauge_set inv value a more apart stored =
      get-record_with c.scalar inv (c.scalar.store value) a more apart ∙ ap some (stored _)

  -- `get` of a counter after `add` under the same attributes, at least one and in whatever order,
  -- in a well-formed map, if no alias of the map has the fingerprint of the list and another normal
  -- form: the value is added to the contents under the normalised list, or to the initial contents.
  pub counter_get-counter_add :
      {m : BucketMap p} (inv : Inv m) (value : T) (a : K) (more : List K)
      → NoCollision m (a ∷ more)
      → counter_get c (a ∷ more) (counter_add c value (a ∷ more) m)
        ≡ some (c.scalar.load (c.recording.add value (or_init p (view m (normalize (a ∷ more))))))
  unfolding counter_get counter_add add
  counter_get-counter_add inv value a more apart =
      get-record_with c.scalar inv (c.recording.add value) a more apart
