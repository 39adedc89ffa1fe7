-- ===== src/Lock/Commute.antt =====
-- Accesses that commute (src/lock.rs asks for them): their order is of no matter.
use mathlib.Core.List.{Permᴰ}
use ohnotel.Base.{suc, ◌≡◌, refl, sym, ap, ◌∙◌, List, [], ◌∷◌, ◌++◌, length, arith}
use ohnotel.Lock.{applies, concat, Pick, Leave}

-- Any two accesses may change places.
abbrev pub IsCommutative : {X Op : Type 0} → (Op → X → X) → Type 0
IsCommutative {X} {Op} apply = (a b : Op) (x : X) → apply a (apply b x) ≡ apply b (apply a x)

module _ {Op : Type 0} where
  pub Pick-absurd : {ws ws' : List (List Op)} {o : Op} → Pick ws o ws' → ws ≡ [] → ⊥
  Pick-absurd (Pick.here o os ws) h = ground arith
  Pick-absurd (Pick.there os p) h = ground arith

  pub Leave-absurd : {ws ws' : List (List Op)} → Leave ws ws' → ws ≡ [] → ⊥
  Leave-absurd (Leave.here ws) h = ground arith
  Leave-absurd (Leave.there os p) h = ground arith

  pub length-Pick : {ws ws' : List (List Op)} {o : Op} → Pick ws o ws' → length ws' ≡ length ws
  length-Pick (Pick.here o os ws) = refl
  length-Pick (Pick.there os p) = ap suc (length-Pick p)

  pub length-Leave : {ws ws' : List (List Op)} → Leave ws ws' → length ws ≡ suc (length ws')
  length-Leave (Leave.here ws) = refl
  length-Leave (Leave.there os p) = ap suc (length-Leave p)

  pub concat-Leave : {ws ws' : List (List Op)} → Leave ws ws' → concat ws' ≡ concat ws
  concat-Leave (Leave.here ws) = refl
  concat-Leave (Leave.there os p) = ap (λ z. os ++ z) (concat-Leave p)

module _ {X Op : Type 0} (apply : Op → X → X) where
  pub applies-append :
      (xs ys : List Op) (x : X) → applies apply (xs ++ ys) x ≡ applies apply ys (applies apply xs x)
  applies-append [] ys x = refl
  applies-append (o ∷ xs) ys x = applies-append xs ys (apply o x)

  module _ (comm : IsCommutative apply) where
    pub applies-later :
        (o : Op) (os : List Op) (x : X)
        → applies apply os (apply o x) ≡ apply o (applies apply os x)
    applies-later o [] x = refl
    applies-later o (a ∷ os) x = ap (applies apply os) (comm a o x) ∙ applies-later o os (apply a x)

    pub applies-swap :
        (xs ys : List Op) (x : X)
        → applies apply ys (applies apply xs x) ≡ applies apply xs (applies apply ys x)
    applies-swap [] ys x = refl
    applies-swap (o ∷ xs) ys x =
        applies-swap xs ys (apply o x) ∙ ap (applies apply xs) (applies-later o ys x)

    pub applies-Pick :
        {ws ws' : List (List Op)} {o : Op}
        → Pick ws o ws'
        → (x : X) → applies apply (concat ws') (apply o x) ≡ applies apply (concat ws) x
    applies-Pick (Pick.here o os ws) x = refl
    applies-Pick (Pick.there os {ws} {ws'} {o} p) x =
        applies-append os (concat ws') (apply o x)
        ∙ ap (applies apply (concat ws')) (applies-later o os x)
        ∙ applies-Pick p (applies apply os x)
        ∙ sym (applies-append os (concat ws) x)

    -- Accesses in any order have the same effect.
    pub applies-perm :
        {xs ys : List Op} → Permᴰ xs ys → (x : X) → applies apply xs x ≡ applies apply ys x
    applies-perm Permᴰ.nil x = refl
    applies-perm (Permᴰ.cons e q) x = rw e (applies-perm q _)
    applies-perm (Permᴰ.swap {a' = a'} {b' = b'} {l = l} e f) x =
        rw (e, f) (ap (applies apply l) (comm a' b' x))
    applies-perm (Permᴰ.trans q r) x = applies-perm q x ∙ applies-perm r x
