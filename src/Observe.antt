-- ===== src/Observe.antt =====
-- The observer of src/observe.rs over a bucket map. A `HashMap` is an association list with one
-- value for each key; the observed map is passed along, since other holders of it record in between.
pub mod Maps
pub mod Keys
pub mod Whole
pub mod Delta
pub mod Drained
use ohnotel.Base.{
  ℕ, ◌+◌, ◌%◌, Bool, true, false, List, [], ◌∷◌, ◌++◌, Option, none, some, Result, ok, err,
  if◌then◌else◌,
}
use mathlib.Core.List.{foldl}
use ohnotel.Error.{Error, delta_for_gauge}
use ohnotel.Model.Order.{Ord}
use ohnotel.Attrs.{eq_attrs}
use ohnotel.Fingerprint.{u64_mod}
use ohnotel.Atomic.Traits.{Record}
use ohnotel.BucketMap.State.{CanonicalEntry, Params, BucketMap}
use ohnotel.BucketMap.Ops.{visit_bucket, take}

pub data Mode : Type 0 where
  direct : Mode
  delta : Mode
  destructive : Mode

abbrev pub if_destructive {ℓ} : {R : Type ℓ} → Mode → R → R → R
if_destructive Mode.destructive x y = x
if_destructive _ x y = y

-- `Kind` of src/dto.rs
pub data Kind : Type 0 where
  counter : Kind
  gauge : Kind
  histogram : Kind

-- `Snapshot` of src/dto.rs
pub record Snapshot (S : Type 0) : Type 0 where
  pub ts : ℕ
  pub seq_id : ℕ
  pub value : S

abbrev pub Map : Type 0 → Type 0 → Type 0
Map K V = List (List K × V)

module _ {K : Type 0} ⦃o : Ord K⦄ {V : Type 0} where
  unfoldable pub get : List K → Map K V → Option V
  get k [] = none
  get k ((j, v) ∷ more) = if eq_attrs j k then some v else get k more

  unfoldable pub set : List K → V → Map K V → Map K V
  set k v [] = (k, v) ∷ []
  set k v ((j, w) ∷ more) =
      let rest = set k v more in if eq_attrs j k then (j, v) ∷ more else (j, w) ∷ rest

-- `or_default`
abbrev pub or_empty {ℓ} : {A : Type ℓ} → Option (List A) → List A
or_empty none = []
or_empty (some xs) = xs

abbrev pub SeriesMap : Type 0 → Type 0 → Type 0
SeriesMap K S = Map K (List (Snapshot S))

-- `SyncObserver`, less the identity and the hasher.
pub record Observer (K S : Type 0) : Type 0 where
  pub start_time : ℕ
  pub seq : ℕ
  pub series : SeriesMap K S
  pub last_values : Option (Map K S)
  pub observe_mode : Mode
  pub kind : Kind

-- `dto::Series`
pub record Series (K S : Type 0) : Type 0 where
  pub start_time : ℕ
  pub series : SeriesMap K S
  pub observe_mode : Mode
  pub kind : Kind

abbrev pub first_values : {K S : Type 0} → Mode → Option (Map K S)
first_values Mode.delta = some []
first_values _ = none

unfoldable pub new : {K S : Type 0} → Kind → Mode → ℕ → Result (Observer K S) Error
new Kind.gauge Mode.delta now = err delta_for_gauge
new kind mode now = ok (record {
  start_time = now;
  seq = 0;
  series = [];
  last_values = first_values mode;
  observe_mode = mode;
  kind = kind;
})

abbrev pub cleared : {K S : Type 0} → Option (Map K S) → Option (Map K S)
cleared none = none
cleared (some last) = some []

unfoldable pub reset : {K S : Type 0} → ℕ → Observer K S → Observer K S
reset start_time ob = record ob {
  start_time = start_time;
  seq = 0;
  series = [];
  last_values = cleared ob.last_values;
}

unfoldable pub push :
    {K S : Type 0} ⦃o : Ord K⦄ → List K → Snapshot S → SeriesMap K S → SeriesMap K S
push attrs snapshot series = set attrs (or_empty (get attrs series) ++ (snapshot ∷ [])) series

-- The end of `observe_destructive`: the value of the bucket without attributes, if there is one.
abbrev pub with_no_attr :
    {K S : Type 0} ⦃o : Ord K⦄ → ℕ → ℕ → Option S → SeriesMap K S → SeriesMap K S
with_no_attr ts seq none series = series
with_no_attr ts seq (some v) series = push [] (record { ts = ts; seq_id = seq; value = v }) series

-- What the closure of `observe_impl` changes: the last values and the series.
abbrev pub Seen : Type 0 → Type 0 → Type 0
Seen K S = Option (Map K S) × SeriesMap K S

-- The end of the closure: the snapshot, if a value is reported.
unfoldable pub store :
    {K S : Type 0} ⦃o : Ord K⦄
    → ℕ
    → ℕ
    → List K
    → SeriesMap K S
    → Option S × Option (Map K S)
    → Seen K S
unfolding push
store ts seq attrs series (none, last) = (last, series)
store ts seq attrs series (some value, last) =
    (last, push attrs (record { ts = ts; seq_id = seq; value = value }) series)

module _ {K A : Type 0} ⦃o : Ord K⦄ {T S : Type 0} (r : Record T A S) where
  -- What is reported for a current value, if anything, and the last values after it.
  unfoldable pub recorded : List K → S → Option (Map K S) → Option S × Option (Map K S)
  recorded attrs current none = (some current, none)
  recorded attrs current (some last) = elim (get attrs last) [
    | some prev ↦ if r.equal prev current then (none, some last) else (
      some (if r.less prev current then r.minus current prev else current),
      some (set attrs current last),
    )
    | none ↦ (some current, some (set attrs current last))
  ]

  -- The closure.
  unfoldable pub observe_entry : ℕ → ℕ → CanonicalEntry K → A → Seen K S → Bool × Seen K S
  unfolding recorded store
  observe_entry ts seq entry bucket (last, series) =
      (true, store ts seq entry.attrs series (recorded entry.attrs (r.current bucket) last))

  -- One round of the loop of `observe_destructive`.
  unfoldable pub drain_entry :
      ℕ → ℕ → (ℕ → A) → SeriesMap K S → ℕ × CanonicalEntry K → SeriesMap K S
  unfolding push
  drain_entry ts seq cell series (h, entry) =
      let current = r.current (cell entry.bucket) in
      if r.is_initial current
      then series
      else push entry.attrs (record { ts = ts; seq_id = seq; value = current }) series

  module _ {p : Params K A} where
    unfoldable pub observe_destructive : ℕ → BucketMap p → Observer K S → BucketMap p × Observer K S
    unfolding drain_entry
    observe_destructive ts m ob =
        let (m', (buckets, no_attr_val)) = take r m in
        let drained =
          foldl (drain_entry ts ob.seq m'.heap.cell) ob.series (p.canon.items buckets) in
        let series = with_no_attr ts ob.seq no_attr_val drained in
        (m', record ob { series = series; seq = (ob.seq + 1) % u64_mod })

    -- `observe_impl` after its first test.
    unfoldable pub observe_buckets : ℕ → BucketMap p → Observer K S → BucketMap p × Observer K S
    unfolding observe_entry
    observe_buckets ts m ob =
        let (m', (last, series)) =
          visit_bucket r (observe_entry ts ob.seq) m (ob.last_values, ob.series) in
        (m', record ob { last_values = last; series = series; seq = (ob.seq + 1) % u64_mod })

    unfoldable pub observe_impl : ℕ → BucketMap p → Observer K S → BucketMap p × Observer K S
    unfolding observe_destructive observe_buckets
    observe_impl ts m ob =
        if_destructive ob.observe_mode (observe_destructive ts m ob) (observe_buckets ts m ob)

unfoldable pub take_series : {K S : Type 0} → Observer K S → Observer K S × Series K S
take_series ob = (
  record ob { series = [] },
  record {
    start_time = ob.start_time;
    series = ob.series;
    observe_mode = ob.observe_mode;
    kind = ob.kind;
  },
)
