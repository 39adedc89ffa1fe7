-- ===== src/Lock.antt =====
-- The sequence lock of src/lock.rs under any number of writers and one reader, interleaved in any
-- order, one access of shared memory at a time and the same order for every thread. `start` and
-- `end` are kept unbounded: the code reads them modulo 2 ^ 64.
pub mod Commute
pub mod Reading
pub mod Progress
use ohnotel.Base.{ℕ, suc, ◌+◌, ◌%◌, ◌≡◌, ◌≢◌, List, [], ◌∷◌, ◌++◌}
use ohnotel.Atomic.Integers.{word}

-- One access of `inner` by a writer's callback.
abbrev pub applies : {X Op : Type 0} → (Op → X → X) → List Op → X → X
applies apply [] x = x
applies apply (o ∷ os) x = applies apply os (apply o x)

abbrev pub concat : {Op : Type 0} → List (List Op) → List Op
concat [] = []
concat (os ∷ ws) = os ++ concat ws

-- Some writer inside performs its next access.
pub data Pick {Op : Type 0} : List (List Op) → Op → List (List Op) → Type 0 where
  here : (o : Op) (os : List Op) (ws : List (List Op)) → Pick ((o ∷ os) ∷ ws) o (os ∷ ws)
  there :
      (os : List Op) {ws ws' : List (List Op)} {o : Op}
      → Pick ws o ws'
      → Pick (os ∷ ws) o (os ∷ ws')

-- Some writer inside has no access left.
pub data Leave {Op : Type 0} : List (List Op) → List (List Op) → Type 0 where
  here : (ws : List (List Op)) → Leave ([] ∷ ws) ws
  there : (os : List Op) {ws ws' : List (List Op)} → Leave ws ws' → Leave (os ∷ ws) (os ∷ ws')

-- Where the reader stands in `read`; a callback is the list of its loads.
pub data Phase (X V : Type 0) : Type 0 where
  idle : Phase X V
  loaded_end : ℕ → Phase X V
  reading : ℕ → List V → List (X → V) → Phase X V
  returned : List V → Phase X V

-- `log` is no part of the code: the accesses of every writer that has begun.
pub record Machine (X V Op : Type 0) : Type 0 where
  pub start : ℕ
  pub end : ℕ
  pub inner : X
  pub inside : List (List Op)
  pub log : List Op
  pub phase : Phase X V

module _ {X V Op : Type 0} (apply : Op → X → X) (loads : List (X → V)) where
  pub data Step : Machine X V Op → Machine X V Op → Type 0 where
    -- `write`: `start.fetch_add`, the callback's accesses, `end.fetch_add`
    begin :
        (m : Machine X V Op) (os : List Op)
        → Step m (record m { start = suc m.start; inside = os ∷ m.inside; log = m.log ++ os })
    access :
        (m : Machine X V Op) (o : Op) (ws : List (List Op))
        → Pick m.inside o ws
        → Step m (record m { inner = apply o m.inner; inside = ws })
    finish :
        (m : Machine X V Op) (ws : List (List Op))
        → Leave m.inside ws
        → Step m (record m { end = suc m.end; inside = ws })
    -- `read`: `end.load`, `start.load`, the callback's loads, `start.load`
    load_end :
        (m : Machine X V Op)
        → m.phase ≡ idle
        → Step m (record m { phase = loaded_end (m.end % word) })
    load_start :
        (m : Machine X V Op) (e : ℕ)
        → m.phase ≡ loaded_end e
        → m.start % word ≡ e
        → Step m (record m { phase = reading e [] loads })
    spin :
        (m : Machine X V Op) (e : ℕ)
        → m.phase ≡ loaded_end e
        → m.start % word ≢ e
        → Step m (record m { phase = idle })
    load :
        (m : Machine X V Op) (s : ℕ) (vs : List V) (l : X → V) (ls : List (X → V))
        → m.phase ≡ reading s vs (l ∷ ls)
        → Step m (record m { phase = reading s (vs ++ (l m.inner ∷ [])) ls })
    accept :
        (m : Machine X V Op) (s : ℕ) (vs : List V)
        → m.phase ≡ reading s vs []
        → m.start % word ≡ s
        → Step m (record m { phase = returned vs })
    retry :
        (m : Machine X V Op) (s : ℕ) (vs : List V)
        → m.phase ≡ reading s vs []
        → m.start % word ≢ s
        → Step m (record m { phase = idle })

  -- A fresh lock around `x`.
  abbrev pub new : X → Machine X V Op
  new x = record { start = 0; end = 0; inner = x; inside = []; log = []; phase = idle }

  pub data Reach (x : X) : Machine X V Op → Type 0 where
    fresh : Reach x (new x)
    later : {m n : Machine X V Op} → Reach x m → Step m n → Reach x n

  -- So many steps one after the other.
  pub data Run : ℕ → Machine X V Op → Machine X V Op → Type 0 where
    stay : (m : Machine X V Op) → Run 0 m m
    move : {k : ℕ} {m n o : Machine X V Op} → Step m n → Run k n o → Run (suc k) m o
