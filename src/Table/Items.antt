-- ===== src/Table/Items.antt =====
-- Lists of hashed entries: what the laws of a hash table speak of, and what the maps are read from.
use mathlib.Core.List.{Permᴰ}
use mathlib.Core.Option
use mathlib.Core.Path.{subst}
use ohnotel.Base.{
  ℕ, ◌+◌, ◌≤◌, ◌<◌, ◌≡◌, refl, ◌∙◌, Bool, true, ◌&&◌, List, [], ◌∷◌, Option, none, some, arith,
  ◌==◌, to_nat, if◌then◌else◌, All, length, Bool-cases, inl, inr,
}

module _ {ℓ} {E : Type ℓ} where
  -- The entries under one hash that pass a test.
  unfoldable pub count_match : ℕ → (E → Bool) → List (ℕ × E) → ℕ
  count_match h p [] = 0
  count_match h p ((g, e) ∷ xs) = to_nat (g == h && p e) + count_match h p xs

  unfoldable pub first_match : ℕ → (E → Bool) → List (ℕ × E) → Option E
  first_match h p [] = none
  first_match h p ((g, e) ∷ xs) = if g == h && p e then some e else first_match h p xs

  unfoldable pub modify_match : ℕ → (E → Bool) → (E → E) → List (ℕ × E) → List (ℕ × E)
  modify_match h p f [] = []
  modify_match h p f ((g, e) ∷ xs) =
      if g == h && p e then (g, f e) ∷ xs else (g, e) ∷ modify_match h p f xs

  unfoldable pub remove_match : ℕ → (E → Bool) → List (ℕ × E) → List (ℕ × E)
  remove_match h p [] = []
  remove_match h p ((g, e) ∷ xs) = if g == h && p e then xs else (g, e) ∷ remove_match h p xs

  -- The entries that a closure keeps, and its last state.
  unfoldable pub retain_items {κ} :
      {S : Type κ} → (E → S → Bool × S) → List (ℕ × E) → S → List (ℕ × E) × S
  retain_items f [] s = ([], s)
  retain_items f ((g, e) ∷ xs) s =
      let (keep, s') = f e s in
      let (kept, last) = retain_items f xs s' in (if keep then (g, e) ∷ kept else kept, last)

  -- The entries that pass a test, and the first of them, whatever their hash.
  unfoldable pub count : (E → Bool) → List (ℕ × E) → ℕ
  count p [] = 0
  count p ((g, e) ∷ xs) = to_nat (p e) + count p xs

  unfoldable pub first : (E → Bool) → List (ℕ × E) → Option E
  first p [] = none
  first p ((g, e) ∷ xs) = if p e then some e else first p xs

  pub count_match-le-count :
      (h : ℕ) (p : E → Bool) (xs : List (ℕ × E)) → count_match h p xs ≤ count p xs
  unfolding count_match count
  count_match-le-count h p [] = omega arith
  count_match-le-count h p ((g, e) ∷ xs) = ground (arith, count_match-le-count h p xs)

  -- If whatever passes the test stands under the hash, then the hash only speeds up the search.
  abbrev pub FiledUnder : ℕ → (E → Bool) → List (ℕ × E) → Type 0
  FiledUnder h p [] = Unit
  FiledUnder h p ((g, e) ∷ xs) = (p e ≡ true → g ≡ h) × FiledUnder h p xs

  pub first_match-eq-first :
      (h : ℕ) (p : E → Bool) (xs : List (ℕ × E))
      → FiledUnder h p xs
      → first_match h p xs ≡ first p xs
  unfolding first_match first
  first_match-eq-first h p [] f = refl
  first_match-eq-first h p ((g, e) ∷ xs) f = ground (arith, f.0, first_match-eq-first h p xs f.1)

  pub first-eq-none : (p : E → Bool) (xs : List (ℕ × E)) → first p xs ≡ none → count p xs ≡ 0
  unfolding first count
  first-eq-none p [] h = refl
  first-eq-none p ((g, e) ∷ xs) h = ground (arith, first-eq-none p xs)

  pub first-eq-none_of_count :
      (p : E → Bool) (xs : List (ℕ × E)) → count p xs ≡ 0 → first p xs ≡ none
  unfolding first count
  first-eq-none_of_count p [] h = refl
  first-eq-none_of_count p ((g, e) ∷ xs) h = ground (arith, first-eq-none_of_count p xs)

  pub first_passes : (p : E → Bool) (xs : List (ℕ × E)) (e : E) → first p xs ≡ some e → p e ≡ true
  unfolding first
  first_passes p [] e h = cc
  first_passes p ((g, x) ∷ xs) e h = ground (arith, first_passes p xs e)

  pub All-first {κ} :
      (P : ℕ × E → Type κ) (p : E → Bool) (xs : List (ℕ × E)) (e : E)
      → All P xs
      → first p xs ≡ some e
      → (g : ℕ) × P (g, e)
  unfolding first
  All-first P p [] e a h = cc
  All-first P p ((g, x) ∷ xs) e a h = elim (Bool-cases (p x)) [
    | inl yes' ↦ (g, subst (λ y. P (g, y)) (ground arith) a.0)
    | inr no' ↦ All-first P p xs e a.1 (ground arith)
  ]

  count-pos :
      (p q : E → Bool) (xs : List (ℕ × E)) (e : E)
      → first p xs ≡ some e
      → q e ≡ true
      → 0 < count q xs
  unfolding first count
  count-pos p q [] e h t = cc
  count-pos p q ((g, x) ∷ xs) e h t = ground (arith, count-pos p q xs e)

  -- Of two entries that share a value that one entry has, the first passes the test of the second.
  pub first_shared :
      (p p' q : E → Bool) (xs : List (ℕ × E)) (e e' : E)
      → count q xs ≤ 1
      → first p xs ≡ some e
      → first p' xs ≡ some e'
      → q e ≡ true
      → q e' ≡ true
      → p' e ≡ true
  unfolding first count
  first_shared p p' q [] e e' c h h' t t' = cc
  first_shared p p' q ((g, x) ∷ xs) e e' c h h' t t' =
      ground (arith, first_shared p p' q xs e e', count-pos p q xs e, count-pos p' q xs e')

  -- The order of iteration does not show.
  pub All-perm {κ} : (P : ℕ × E → Type κ) {xs ys : List (ℕ × E)} → Permᴰ xs ys → All P xs → All P ys
  All-perm P Permᴰ.nil a = a
  All-perm P (Permᴰ.cons e q) a = (subst P e a.0, All-perm P q a.1)
  All-perm P (Permᴰ.swap e f) a = (subst P f a.1.0, (subst P e a.0, a.1.1))
  All-perm P (Permᴰ.trans q r) a = All-perm P r (All-perm P q a)

  pub count-perm : (p : E → Bool) {xs ys : List (ℕ × E)} → Permᴰ xs ys → count p xs ≡ count p ys
  unfolding count
  count-perm p Permᴰ.nil = refl
  count-perm p (Permᴰ.cons e q) = rw e (omega (arith, count-perm p q))
  count-perm p (Permᴰ.swap e f) = rw (e, f) (omega arith)
  count-perm p (Permᴰ.trans q r) = count-perm p q ∙ count-perm p r

  pub first-perm :
      (p : E → Bool) {xs ys : List (ℕ × E)} → Permᴰ xs ys → count p xs ≤ 1 → first p xs ≡ first p ys
  unfolding first count
  first-perm p Permᴰ.nil c = refl
  first-perm p (Permᴰ.cons e q) c = rw e (ground (arith, first-perm p q))
  first-perm p (Permᴰ.swap {a} {b} e f) c = rw (← e, ← f) (ground arith)
  first-perm p (Permᴰ.trans q r) c =
      first-perm p q c ∙ first-perm p r (omega (arith, count-perm p q))

  pub length-perm : {xs ys : List (ℕ × E)} → Permᴰ xs ys → length xs ≡ length ys
  length-perm Permᴰ.nil = refl
  length-perm (Permᴰ.cons e q) = omega (arith, length-perm q)
  length-perm (Permᴰ.swap e f) = omega arith
  length-perm (Permᴰ.trans q r) = omega (arith, length-perm q, length-perm r)

  pub All-imp {κ μ} :
      (P : ℕ × E → Type κ) (Q : ℕ × E → Type μ) (xs : List (ℕ × E))
      → ((h : ℕ) (e : E) → P (h, e) → Q (h, e))
      → All P xs
      → All Q xs
  All-imp P Q [] f a = tt
  All-imp P Q ((h, e) ∷ xs) f a = (f h e a.0, All-imp P Q xs f a.1)

  pub FiledUnder-of_All {κ} :
      (P : ℕ × E → Type κ) (h : ℕ) (p : E → Bool) (xs : List (ℕ × E))
      → ((g : ℕ) (e : E) → P (g, e) → p e ≡ true → g ≡ h)
      → All P xs
      → FiledUnder h p xs
  FiledUnder-of_All P h p [] f a = tt
  FiledUnder-of_All P h p ((g, e) ∷ xs) f a = (λ t. f g e a.0 t, FiledUnder-of_All P h p xs f a.1)

  -- A change of one entry that a test does not see.
  module _ (h : ℕ) (p : E → Bool) (f : E → E) where
    pub count-modify :
        (q : E → Bool) (xs : List (ℕ × E))
        → ((e : E) → q (f e) ≡ q e)
        → count q (modify_match h p f xs) ≡ count q xs
    unfolding count modify_match
    count-modify q [] same = refl
    count-modify q ((g, e) ∷ xs) same = ground (arith, same e, count-modify q xs same)

    pub first-modify {κ} :
        {B : Type κ} (view : E → B) (q : E → Bool) (xs : List (ℕ × E))
        → ((e : E) → q (f e) ≡ q e)
        → ((e : E) → view (f e) ≡ view e)
        → Option.map view (first q (modify_match h p f xs)) ≡ Option.map view (first q xs)
    unfolding first modify_match
    first-modify view q [] same kept = refl
    first-modify view q ((g, e) ∷ xs) same kept =
        ground (arith, same e, kept e, first-modify view q xs same kept)

    pub All-modify {κ} :
        (P : ℕ × E → Type κ) (xs : List (ℕ × E))
        → ((g : ℕ) (e : E) → P (g, e) → P (g, f e))
        → All P xs
        → All P (modify_match h p f xs)
    unfolding modify_match
    All-modify P [] step a = tt
    All-modify P ((g, e) ∷ xs) step a = elim (Bool-cases (g == h && p e)) [
      | inl here ↦ rw here (step g e a.0, a.1)
      | inr later ↦ rw later (a.0, All-modify P xs step a.1)
    ]

    pub length-modify : (xs : List (ℕ × E)) → length (modify_match h p f xs) ≡ length xs
    unfolding modify_match
    length-modify [] = refl
    length-modify ((g, e) ∷ xs) = ground (arith, length-modify xs)
