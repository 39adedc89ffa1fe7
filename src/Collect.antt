-- ===== src/Collect.antt =====
-- The registry of src/collect/mod.rs. A source is a handle with the key under which it is
-- registered, its identity and its type, so that the downcast of a found source is to its own type.
-- A collector is what `AddSource` asks for; the tuple is a list.
pub mod Registry
pub mod Periodic
use ohnotel.Base.{
  ℕ, ◌≡◌, Bool, true, false, List, [], ◌∷◌, Option, none, some, Result, ok, err, if◌then◌else◌,
  length, ◌==◌, not, ◌&&◌,
}
use ohnotel.Error.{Error, destructive_with_multiple_collectors, mode_mismatch}
use ohnotel.Observe.{Mode}

abbrev pub eq_mode : Mode → Mode → Bool
eq_mode Mode.direct Mode.direct = true
eq_mode Mode.delta Mode.delta = true
eq_mode Mode.destructive Mode.destructive = true
eq_mode _ _ = false

abbrev pub is_destructive : Mode → Bool
is_destructive Mode.destructive = true
is_destructive _ = false

-- What the collection needs: keys with their `==`, handles, and the collectors' `add_source`.
pub record Collectors : Type 1 where
  pub Key : Type 0
  pub eq_key : Key → Key → Bool
  pub Handle : Type 0
  pub Collector : Type 0
  pub add_source : Key × Handle → Mode → Collector → Result Collector Error

pub record RegistryEntry (Handle : Type 0) : Type 0 where
  pub mode : Mode
  pub source : Handle

module _ (env : Collectors) where
  pub record Collection : Type 0 where
    pub collectors : List env.Collector
    pub registry : List (env.Key × RegistryEntry env.Handle)

  unfoldable pub lookup :
      env.Key → List (env.Key × RegistryEntry env.Handle) → Option (RegistryEntry env.Handle)
  lookup k [] = none
  lookup k ((j, e) ∷ more) = if env.eq_key j k then some e else lookup k more

  -- `register_all`: the collectors in order, up to the first that fails; those before it keep the
  -- source.
  unfoldable pub register_all :
      env.Key × env.Handle
      → Mode
      → List env.Collector
      → List env.Collector × Result (Unit {0}) Error
  register_all source mode [] = ([], ok tt)
  register_all source mode (c ∷ cs) =
      let (cs', rest) = register_all source mode cs in
      elim (env.add_source source mode c) [ ok c' ↦ (c' ∷ cs', rest) | err e ↦ (c ∷ cs, err e) ]

  -- The registration of a source that the registry does not have.
  unfoldable pub register :
      env.Key × env.Handle → Mode → Collection → Collection × Result env.Handle Error
  unfolding register_all
  register source mode s =
      let (collectors, result) = register_all source mode s.collectors in
      elim result [
        | ok u ↦ (
          record {
            collectors = collectors;
            registry = (source.0, record { mode = mode; source = source.1 }) ∷ s.registry;
          },
          ok source.1,
        )
        | err e ↦ (record s { collectors = collectors }, err e)
      ]

  unfoldable pub add :
      env.Key × env.Handle → Mode → Collection → Collection × Result env.Handle Error
  unfolding lookup register
  add source mode s =
      if is_destructive mode && not (length s.collectors == 1)
      then (s, err destructive_with_multiple_collectors)
      else elim (lookup source.0 s.registry) [
        | some entry ↦
            if not (eq_mode entry.mode mode) then (s, err mode_mismatch) else (s, ok entry.source)
        | none ↦ register source mode s
      ]
