-- ===== src/Base/Lists.antt =====
-- Lists measured and indexed by native numbers, under the library's names.
use Prim.Native.Nat.{ℕ, zero, suc, ◌+◌, ◌<◌}
use mathlib.Core.Path.{◌≡◌, refl, ap}
use mathlib.Core.Logic.{◌≢◌}
use mathlib.Core.Option.{Option, none, some}
use mathlib.Core.List.{List, [], ◌∷◌, ◌++◌}
use native.Mathlib.Omega.{arith}

module _ {ℓ} {A : Type ℓ} where
  abbrev pub length : List A → ℕ
  length [] = 0
  length (x ∷ xs) = suc (length xs)

  abbrev pub get_or : List A → ℕ → A → A
  get_or [] i d = d
  get_or (x ∷ xs) zero d = x
  get_or (x ∷ xs) (suc i) d = get_or xs i d

  abbrev pub get_elem? : List A → ℕ → Option A
  get_elem? [] i = none
  get_elem? (x ∷ xs) zero = some x
  get_elem? (x ∷ xs) (suc i) = get_elem? xs i

  -- Write at an index; out of bounds nothing changes.
  abbrev pub modify_at : List A → ℕ → (A → A) → List A
  modify_at [] i f = []
  modify_at (x ∷ xs) zero f = f x ∷ xs
  modify_at (x ∷ xs) (suc i) f = x ∷ modify_at xs i f

  abbrev pub replicate : ℕ → A → List A
  replicate zero a = []
  replicate (suc n) a = a ∷ replicate n a

  pub length-append : (xs ys : List A) → length (xs ++ ys) ≡ length xs + length ys
  length-append [] ys = omega arith
  length-append (x ∷ xs) ys = omega (arith, length-append xs ys)

  pub length-modify_at : (xs : List A) (i : ℕ) (f : A → A) → length (modify_at xs i f) ≡ length xs
  length-modify_at [] i f = refl
  length-modify_at (x ∷ xs) zero f = refl
  length-modify_at (x ∷ xs) (suc i) f = ap suc (length-modify_at xs i f)

  pub get_elem?-bound : (xs : List A) (i : ℕ) (a : A) → get_elem? xs i ≡ some a → i < length xs
  get_elem?-bound [] i a e = ground arith
  get_elem?-bound (x ∷ xs) zero a e = omega arith
  get_elem?-bound (x ∷ xs) (suc i) a e = omega (arith, get_elem?-bound xs i a e)

  pub get_or-modify_at :
      (xs : List A) (i : ℕ) (f : A → A) (d : A)
      → i < length xs
      → get_or (modify_at xs i f) i d ≡ f (get_or xs i d)
  get_or-modify_at [] i f d p = absurd (omega arith)
  get_or-modify_at (x ∷ xs) zero f d p = refl
  get_or-modify_at (x ∷ xs) (suc i) f d p = get_or-modify_at xs i f d (omega arith)

  pub get_or-modify_at_other :
      (xs : List A) (i j : ℕ) (f : A → A) (d : A)
      → i ≢ j
      → get_or (modify_at xs i f) j d ≡ get_or xs j d
  get_or-modify_at_other [] i j f d p = refl
  get_or-modify_at_other (x ∷ xs) zero zero f d p = absurd (p refl)
  get_or-modify_at_other (x ∷ xs) zero (suc j) f d p = refl
  get_or-modify_at_other (x ∷ xs) (suc i) zero f d p = refl
  get_or-modify_at_other (x ∷ xs) (suc i) (suc j) f d p =
      get_or-modify_at_other xs i j f d (λ e. p (ap suc e))

  pub modify_at_comm :
      (xs : List A) (i j : ℕ) (f g : A → A)
      → ((a : A) → f (g a) ≡ g (f a))
      → modify_at (modify_at xs i g) j f ≡ modify_at (modify_at xs j f) i g
  modify_at_comm [] i j f g h = refl
  modify_at_comm (x ∷ xs) zero zero f g h = ap (λ z. z ∷ xs) (h x)
  modify_at_comm (x ∷ xs) zero (suc j) f g h = refl
  modify_at_comm (x ∷ xs) (suc i) zero f g h = refl
  modify_at_comm (x ∷ xs) (suc i) (suc j) f g h = ap (λ z. x ∷ z) (modify_at_comm xs i j f g h)

  pub length-replicate : (n : ℕ) (a : A) → length (replicate n a) ≡ n
  length-replicate zero a = refl
  length-replicate (suc n) a = ap suc (length-replicate n a)

-- A predicate of every item.
abbrev pub All {ℓ κ} : {A : Type ℓ} → (A → Type κ) → List A → Type κ
All P [] = Unit
All P (x ∷ xs) = P x × All P xs
