-- ===== src/Atomic/Traits.antt =====
-- The traits of src/atomic/mod.rs. An atomic cell is its current contents; a method maps the old
-- contents to the new ones.
use ohnotel.Base.{Bool, true, false, Option, some, Ordering}

-- `Measure`, with the `PartialOrd`, `Sub` and `Default` that it extends.
pub record Measure (T : Type 0) : Type 0 where
  pub default : T
  pub min_identity : T
  pub max_identity : T
  pub partial_cmp : T → T → Option Ordering
  pub minus : T → T → T

-- `Record<T>` of a cell `A`, with the `PartialEq`, `PartialOrd`, `Sub` and `IsInitial` of its snapshot.
pub record Record (T A Snapshot : Type 0) : Type 0 where
  pub add : T → A → A
  pub sub : T → A → A
  pub clear : A → A
  pub current : A → Snapshot
  pub equal : Snapshot → Snapshot → Bool
  pub less : Snapshot → Snapshot → Bool
  pub minus : Snapshot → Snapshot → Snapshot
  pub is_initial : Snapshot → Bool

-- `Scalar<T>`, whose `get` is `load`.
pub record Scalar (T A : Type 0) : Type 0 where
  pub fetch_min : T → A → A
  pub fetch_max : T → A → A
  pub swap : T → A → T × A
  pub load : A → T
  pub store : T → A → A
  pub reset : A → T × A

-- A measure with its cell: `T`, `T::Type`, and `From<T>`.
pub record Cell (T A : Type 0) : Type 0 where
  pub measure : Measure T
  pub recording : Record T A T
  pub scalar : Scalar T A
  pub from : T → A

-- `<` by `partial_cmp`.
abbrev pub is_less : Option Ordering → Bool
is_less (some Ordering.lt) = true
is_less _ = false

abbrev pub less : {T : Type 0} → Measure T → T → T → Bool
less m a b = is_less (m.partial_cmp a b)
