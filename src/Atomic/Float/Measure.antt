-- ===== src/Atomic/Float/Measure.antt =====
-- `f64` as a measure, with its cell (src/atomic/float.rs).
use ohnotel.Base.{ℕ, Bool, Option, Ordering}
use ohnotel.Atomic.Traits.{Measure, Record, Scalar, Cell, less}
use ohnotel.Atomic.Float.{Float, add, sub, fetch_min, fetch_max, store}

-- What else the language gives of `f64`: the infinities, `==`, `<` and `-`, and whether a value is
-- the initial one.
pub record Numbers : Type 0 where
  pub float : Float
  pub infinity : ℕ
  pub neg_infinity : ℕ
  pub partial_cmp : ℕ → ℕ → Option Ordering
  pub minus : ℕ → ℕ → ℕ
  pub equal : ℕ → ℕ → Bool

module _ (numbers : Numbers) where
  -- The bits of 0.0 are 0.
  abbrev pub zero_bits : ℕ
  zero_bits = 0

  abbrev pub measure : Measure ℕ
  measure = record {
    default = zero_bits;
    min_identity = numbers.infinity;
    max_identity = numbers.neg_infinity;
    partial_cmp = numbers.partial_cmp;
    minus = numbers.minus;
  }

  -- `impl Record<f64> for AtomicF64`
  abbrev pub recording : Record ℕ ℕ ℕ
  recording = record {
    add = add numbers.float;
    sub = sub numbers.float;
    clear = λ bits. zero_bits;
    current = λ bits. bits;
    equal = numbers.equal;
    less = less measure;
    minus = numbers.minus;
    is_initial = λ a. numbers.equal a zero_bits;
  }

  -- `impl Scalar<f64> for AtomicF64`
  abbrev pub scalar : Scalar ℕ ℕ
  scalar = record {
    fetch_min = fetch_min numbers.float;
    fetch_max = fetch_max numbers.float;
    swap = λ value bits. (bits, value);
    load = λ bits. bits;
    store = store numbers.float;
    reset = λ bits. (bits, zero_bits);
  }

  abbrev pub cell : Cell ℕ ℕ
  cell = record { measure = measure; recording = recording; scalar = scalar; from = λ value. value }
