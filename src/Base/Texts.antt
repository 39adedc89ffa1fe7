-- ===== src/Base/Texts.antt =====
-- Texts as lists of code points, and numbers in decimal.
use Prim.Native.Char.{code}
use Prim.Native.String.{String}
use Prim.Native.Nat.{ℕ, zero, suc, ◌+◌, ◌-◌, ◌*◌, ◌/◌, ◌%◌, ◌<◌, ◌≤◌}
use mathlib.Core.Path.{◌≡◌, refl, ap}
use mathlib.Core.Logic.{inl, inr}
use mathlib.Core.Bool.{false}
use mathlib.Core.List.{List, [], ◌∷◌, ◌++◌}
use native.Mathlib.Omega.{arith}
use ohnotel.Base.Tests.{ltb, if◌then◌else◌, Bool-cases}

-- A `str`; its bytes in UTF-8 compare in the same way.
abbrev pub Text : Type 0
Text = List ℕ

-- The code points of a literal.
abbrev pub codes : String → Text
codes String.[] = []
codes (String.◌∷◌ c s) = code c ∷ codes s

digits : ℕ → ℕ → Text
digits zero n = []
digits (suc f) n =
    let more = digits f (n / 10) ++ (48 + n % 10) ∷ [] in if ltb n 10 then (48 + n) ∷ [] else more

-- A number as the language writes it; a number has at most as many digits as it is large.
unfoldable pub decimal : ℕ → Text
unfolding digits
decimal n = digits (suc n) n

abbrev pub read_from : ℕ → Text → ℕ
read_from n [] = n
read_from n (c ∷ cs) = read_from (n * 10 + (c - 48)) cs

read_from-append :
    (n : ℕ) (cs : Text) (c : ℕ) → read_from n (cs ++ c ∷ []) ≡ read_from n cs * 10 + (c - 48)
read_from-append n [] c = refl
read_from-append n (d ∷ ds) c = read_from-append (n * 10 + (d - 48)) ds c

read-digits : (f n : ℕ) → n < f → read_from 0 (digits f n) ≡ n
unfolding digits
read-digits zero n h = elim h [ ]
read-digits (suc f) n h = elim (Bool-cases (ltb n 10)) [
  | inl e ↦ rw e (omega arith)
  | inr e ↦
      rw e (
        ground
          (arith, read-digits f (n / 10), read_from-append 0 (digits f (n / 10)) (48 + n % 10)))
]

pub read-decimal : (n : ℕ) → read_from 0 (decimal n) ≡ n
unfolding decimal
read-decimal n = read-digits (suc n) n (omega arith)

digits-fuel : (f g n : ℕ) → n < f → n < g → digits f n ≡ digits g n
unfolding digits
digits-fuel zero g n h k = elim h [ ]
digits-fuel (suc f) zero n h k = elim k [ ]
digits-fuel (suc f) (suc g) n h k = elim (Bool-cases (ltb n 10)) [
  | inl e ↦ rw e refl
  | inr e ↦ rw e (
      ap (λ more. more ++ (48 + n % 10) ∷ [])
        (digits-fuel f g (n / 10) (ground arith) (ground arith)))
]

-- A digit, and one more digit.
pub decimal_below : (n : ℕ) → n < 10 → decimal n ≡ (48 + n) ∷ []
unfolding decimal
decimal_below n h = ground arith

pub decimal_from : (n : ℕ) → 10 ≤ n → decimal n ≡ decimal (n / 10) ++ (48 + n % 10) ∷ []
unfolding decimal
decimal_from n h =
    let small : ltb n 10 ≡ false = ground arith in
    rw small (
      ap (λ more. more ++ (48 + n % 10) ∷ [])
        (digits-fuel n (suc (n / 10)) (n / 10) (omega (arith, h)) (omega arith)))
