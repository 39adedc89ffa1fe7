-- ===== src/Atomic/Integers.antt =====
-- The integer cells of src/atomic/integers.rs: `AtomicU64` and `AtomicI64`, one macro for both. An
-- `i64` is its bit pattern, a number below 2 ^ 64; `key` orders the patterns as the numbers that
-- they stand for.
pub mod Laws
use Prim.Native.Nat.{min, max}
use ohnotel.Base.{
  ℕ, ◌+◌, ◌-◌, ◌%◌, ◌^◌, Bool, Option, some, Ordering, compare, ltb, ◌==◌, if◌then◌else◌,
}
use ohnotel.Atomic.Traits.{Measure, Record, Scalar, Cell}

abbrev pub word : ℕ
word = 2 ^ 64

-- The primitive that the macro is given.
pub record Prim : Type 0 where
  pub min_value : ℕ
  pub max_value : ℕ
  pub key : ℕ → ℕ

abbrev pub u64 : Prim
u64 = record { min_value = 0; max_value = word - 1; key = λ x. x }

abbrev pub i64 : Prim
i64 = record { min_value = 2 ^ 63; max_value = 2 ^ 63 - 1; key = λ x. (x + 2 ^ 63) % word }

-- `fetch_add` and `fetch_sub`, which wrap.
unfoldable pub wrapping_add : ℕ → ℕ → ℕ
wrapping_add value cell = (cell + value) % word

unfoldable pub wrapping_sub : ℕ → ℕ → ℕ
wrapping_sub value cell = (cell + word - value % word) % word

module _ (prim : Prim) where
  abbrev pub below : ℕ → ℕ → Bool
  below a b = ltb (prim.key a) (prim.key b)

  -- `impl Measure for $prim`; `-` is that of a build without overflow checks.
  abbrev pub measure : Measure ℕ
  measure = record {
    default = 0;
    min_identity = prim.max_value;
    max_identity = prim.min_value;
    partial_cmp = λ a b. some (compare (prim.key a) (prim.key b));
    minus = λ a b. wrapping_sub b a;
  }

  -- `impl Record<$prim> for $atomic`
  abbrev pub recording : Record ℕ ℕ ℕ
  recording = record {
    add = wrapping_add;
    sub = wrapping_sub;
    clear = λ cell. 0;
    current = λ cell. cell;
    equal = λ a b. a == b;
    less = below;
    minus = λ a b. wrapping_sub b a;
    is_initial = λ a. a == 0;
  }

  unfoldable pub fetch_min : ℕ → ℕ → ℕ
  fetch_min value cell = if below value cell then value else cell

  unfoldable pub fetch_max : ℕ → ℕ → ℕ
  fetch_max value cell = if below cell value then value else cell

  -- `impl Scalar<$prim> for $atomic`
  abbrev pub scalar : Scalar ℕ ℕ
  scalar = record {
    fetch_min = fetch_min;
    fetch_max = fetch_max;
    swap = λ value cell. (cell, value);
    load = λ cell. cell;
    store = λ value cell. value;
    reset = λ cell. (cell, 0);
  }

  abbrev pub integer : Cell ℕ ℕ
  integer = record {
    measure = measure;
    recording = recording;
    scalar = scalar;
    from = λ value. value;
  }
