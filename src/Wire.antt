-- ===== src/Wire.antt =====
-- What `IntoWire` does alike in src/otel/dto.rs and src/console/dto.rs: a series is walked by its
-- lists of attributes and their snapshots, and every snapshot becomes a point. The walk stops at
-- the first error, or at a panic of the clock's arithmetic.
pub mod Points
use ohnotel.Base.{ℕ, List, [], ◌∷◌, ◌++◌, Option, none, some, Result, ok, err, ◌>>=◌}
use ohnotel.Error.{Error}
use ohnotel.Timer.{Duration, align_ts}
use ohnotel.Observe.{Snapshot, SeriesMap}

pub data Stop : Type 0 where
  panic : Stop
  error : Error → Stop

abbrev pub or_panic {ℓ} : {A : Type ℓ} → Option A → Result A Stop
or_panic none = err Stop.panic
or_panic (some a) = ok a

abbrev pub or_stop {ℓ} : {A : Type ℓ} → Result A Error → Result A Stop
or_stop (ok a) = ok a
or_stop (err e) = err (Stop.error e)

-- `ok_or`
abbrev pub ok_or {ℓ} : {A : Type ℓ} → Error → Option A → Result A Stop
ok_or e none = err (Stop.error e)
ok_or e (some a) = ok a

-- The system clock: its greatest time, and the Unix epoch.
pub record SystemClock : Type 0 where
  pub limit : ℕ
  pub unix_epoch : ℕ

-- `align_ts` of a snapshot.
abbrev pub time_of : {S : Type 0} → SystemClock → ℕ → Option Duration → Snapshot S → Result ℕ Stop
time_of clock start_time align s = or_panic (align_ts clock.limit s.ts s.seq_id start_time align)

module _ {K S P : Type 0} (point : List K → Snapshot S → Result P Stop) where
  -- The inner loop.
  unfoldable pub snapshot_points : List K → List (Snapshot S) → Result (List P) Stop
  snapshot_points attrs [] = ok []
  snapshot_points attrs (s ∷ ss) = do p ← point attrs s; ps ← snapshot_points attrs ss; ok (p ∷ ps)

  -- The outer loop.
  unfoldable pub series_points : SeriesMap K S → Result (List P) Stop
  unfolding snapshot_points
  series_points [] = ok []
  series_points ((attrs, ss) ∷ more) = do
    ps ← snapshot_points attrs ss
    rest ← series_points more
    ok (ps ++ rest)

-- The first test of `into_wire`: a series without attributes is `Ok(None)`, whatever its times are.
abbrev pub if_any {ℓ κ} :
    {A : Type ℓ} {M E : Type κ} → List A → Result (Option M) E → Result (Option M) E
if_any [] wire = ok none
if_any (x ∷ xs) wire = wire

-- Without a point there is no metric.
abbrev pub unless_empty {ℓ κ μ} :
    {P : Type ℓ} {M : Type κ} {E : Type μ} → List P → (List P → Result M E) → Result (Option M) E
unless_empty [] metric = ok none
unless_empty (p ∷ ps) metric = do m ← metric (p ∷ ps); ok (some m)
