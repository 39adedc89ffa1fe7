-- ===== src/Lock/Reading.antt =====
-- What a reader of the sequence lock of src/lock.rs gets.
use mathlib.Core.Path.{subst}
use mathlib.Core.List.{append-nil, append_assoc, map-append}
use ohnotel.Base.{
  ℕ, suc, ◌+◌, ◌%◌, ◌≤◌, ◌<◌, ◌≡◌, refl, sym, ap, ◌∙◌, List, [], ◌∷◌, ◌++◌, map, length, arith,
}
use ohnotel.Atomic.Integers.{word}
use ohnotel.Lock.{applies, concat, Pick, Leave, Phase, Machine, Step, Reach}
use ohnotel.Lock.Commute.{
  IsCommutative, applies-append, Pick-absurd, Leave-absurd, length-Pick, length-Leave, concat-Leave,
  applies-Pick, applies-swap,
}

no_item : {A : Type 0} (xs : List A) → length xs ≡ 0 → xs ≡ []
no_item [] h = refl
no_item (x ∷ xs) h = absurd (omega arith)

abbrev pub read_all : {X V : Type 0} → List (X → V) → X → List V
read_all ls x = map (λ l. l x) ls

module _ {X V Op : Type 0} (apply : Op → X → X) (loads : List (X → V)) where
  -- While `start` stands where the reader found it, nobody is inside and the loads done so far are
  -- those of `inner` as it is.
  abbrev IsFresh : Machine X V Op → List V → List (X → V) → Type 0
  IsFresh m vs ls =
      (m.inside ≡ [])
      × ((done : List (X → V)) × (done ++ ls ≡ loads) × (vs ≡ read_all done m.inner))

  abbrev PhaseOk : Machine X V Op → Phase X V → Type 0
  PhaseOk m Phase.idle = Unit
  PhaseOk m (Phase.loaded_end e) = e ≤ m.end
  PhaseOk m (Phase.reading s vs ls) =
      m.start < word → (s ≤ m.start) × (m.start ≡ s → IsFresh m vs ls)
  PhaseOk m (Phase.returned vs) = Unit

  record Ok (x : X) (m : Machine X V Op) : Type 0 where
    balance : m.start ≡ m.end + length m.inside
    pending : applies apply (concat m.inside) m.inner ≡ applies apply m.log x
    phase : PhaseOk m m.phase

  -- What a writer does leaves the reader's claim in place.
  begin-PhaseOk :
      (m : Machine X V Op) (os : List Op) (log : List Op) (at : Phase X V)
      → PhaseOk m at
      → PhaseOk (record m { start = suc m.start; inside = os ∷ m.inside; log = log }) at
  begin-PhaseOk m os log Phase.idle h = tt
  begin-PhaseOk m os log (Phase.loaded_end e) h = h
  begin-PhaseOk m os log (Phase.reading s vs ls) h =
      λ small. let (low, fresh) = h (omega arith) in (omega arith, λ same. absurd (omega arith))
  begin-PhaseOk m os log (Phase.returned vs) h = tt

  access-PhaseOk :
      (m : Machine X V Op) (o : Op) (ws : List (List Op)) (at : Phase X V)
      → Pick m.inside o ws
      → PhaseOk m at
      → PhaseOk (record m { inner = apply o m.inner; inside = ws }) at
  access-PhaseOk m o ws Phase.idle p h = tt
  access-PhaseOk m o ws (Phase.loaded_end e) p h = h
  access-PhaseOk m o ws (Phase.reading s vs ls) p h =
      λ small. let (low, fresh) = h small in (low, λ same. absurd (Pick-absurd p (fresh same).0))
  access-PhaseOk m o ws (Phase.returned vs) p h = tt

  finish-PhaseOk :
      (m : Machine X V Op) (ws : List (List Op)) (at : Phase X V)
      → Leave m.inside ws
      → PhaseOk m at
      → PhaseOk (record m { end = suc m.end; inside = ws }) at
  finish-PhaseOk m ws Phase.idle p h = tt
  finish-PhaseOk m ws (Phase.loaded_end e) p h = omega arith
  finish-PhaseOk m ws (Phase.reading s vs ls) p h =
      λ small. let (low, fresh) = h small in (low, λ same. absurd (Leave-absurd p (fresh same).0))
  finish-PhaseOk m ws (Phase.returned vs) p h = tt

  -- `start` equal to an earlier `end`: nobody is inside.
  start-PhaseOk :
      (m : Machine X V Op) (e : ℕ)
      → m.start ≡ m.end + length m.inside
      → e ≤ m.end
      → m.start % word ≡ e
      → PhaseOk m (Phase.reading e [] loads)
  start-PhaseOk m e balance low same =
      λ small. (omega arith, λ here. (no_item m.inside (omega arith), ([], refl, refl)))

  load-PhaseOk :
      (m : Machine X V Op) (s : ℕ) (vs : List V) (l : X → V) (ls : List (X → V))
      → PhaseOk m (Phase.reading s vs (l ∷ ls))
      → PhaseOk m (Phase.reading s (vs ++ (l m.inner ∷ [])) ls)
  load-PhaseOk m s vs l ls h = λ small.
      let (low, fresh) = h small in
      (
        low,
        λ same.
            let (out, (done, rest, read)) = fresh same in
            (
              out,
              (
                done ++ (l ∷ []),
                append_assoc done (l ∷ []) ls ∙ rest,
                ap (λ z. z ++ (l m.inner ∷ [])) read
                    ∙ sym (map-append (λ g. g m.inner) done (l ∷ [])),
              ),
            ),
      )

  module _ (comm : IsCommutative apply) where
    step-Ok : (x : X) {m n : Machine X V Op} → Step apply loads m n → Ok x m → Ok x n
    step-Ok x (Step.begin m os) k = record {
      balance = omega (arith, k.balance);
      pending =
          applies-append apply os (concat m.inside) m.inner
          ∙ applies-swap apply comm os (concat m.inside) m.inner
          ∙ ap (applies apply os) k.pending
          ∙ sym (applies-append apply m.log os x);
      phase = begin-PhaseOk m os (m.log ++ os) m.phase k.phase;
    }
    step-Ok x (Step.access m o ws p) k = record {
      balance = omega (arith, k.balance, length-Pick p);
      pending = applies-Pick apply comm p m.inner ∙ k.pending;
      phase = access-PhaseOk m o ws m.phase p k.phase;
    }
    step-Ok x (Step.finish m ws p) k = record {
      balance = omega (arith, k.balance, length-Leave p);
      pending = ap (λ os. applies apply os m.inner) (concat-Leave p) ∙ k.pending;
      phase = finish-PhaseOk m ws m.phase p k.phase;
    }
    step-Ok x (Step.load_end m at) k = record {
      balance = k.balance;
      pending = k.pending;
      phase = omega arith;
    }
    step-Ok x (Step.load_start m e at same) k = record {
      balance = k.balance;
      pending = k.pending;
      phase = start-PhaseOk m e k.balance (subst (PhaseOk m) at k.phase) same;
    }
    step-Ok x (Step.spin m e at other) k = record {
      balance = k.balance;
      pending = k.pending;
      phase = tt;
    }
    step-Ok x (Step.load m s vs l ls at) k = record {
      balance = k.balance;
      pending = k.pending;
      phase = load-PhaseOk m s vs l ls (subst (PhaseOk m) at k.phase);
    }
    step-Ok x (Step.accept m s vs at same) k = record {
      balance = k.balance;
      pending = k.pending;
      phase = tt;
    }
    step-Ok x (Step.retry m s vs at other) k = record {
      balance = k.balance;
      pending = k.pending;
      phase = tt;
    }

    Reach-Ok : (x : X) {m : Machine X V Op} → Reach apply loads x m → Ok x m
    Reach-Ok x Reach.fresh = record { balance = refl; pending = refl; phase = tt }
    Reach-Ok x (Reach.later r s) = step-Ok x s (Reach-Ok x r)

    -- With nobody inside, as many writes have ended as have begun.
    pub balanced :
        (x : X) {m : Machine X V Op} → Reach apply loads x m → m.inside ≡ [] → m.start ≡ m.end
    balanced x r out = let k = Reach-Ok x r in omega (arith, k.balance, ap length out)

    -- What a reader of the sequence lock accepts, if the accesses of the writers commute and fewer
    -- than 2 ^ 64 writes have begun: no writer is inside, and the loads are those of the value
    -- after every access of every write that has begun, in the order in which the writes began.
    pub accept_lem :
        (x : X) (m : Machine X V Op) (s : ℕ) (vs : List V)
        → Reach apply loads x m
        → m.phase ≡ Phase.reading s vs []
        → m.start % word ≡ s
        → m.start < word
        → (m.inside ≡ []) × (vs ≡ read_all loads (applies apply m.log x))
    accept_lem x m s vs r at same small =
        let k = Reach-Ok x r in
        let (low, fresh) = subst (PhaseOk m) at k.phase small in
        let (out, (done, rest, read)) = fresh (omega arith) in
        let settled : m.inner ≡ applies apply m.log x = rw out at k.pending in
        let all = sym (append-nil done) ∙ rest in
        (out, read ∙ ap (λ z. read_all z m.inner) all ∙ ap (read_all loads) settled)
