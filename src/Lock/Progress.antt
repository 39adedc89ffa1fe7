-- ===== src/Lock/Progress.antt =====
-- A reader of the sequence lock of src/lock.rs that meets no writer returns.
use ohnotel.Base.{ℕ, suc, ◌%◌, ◌≡◌, refl, sym, ap, List, [], ◌∷◌, ◌++◌, length}
use mathlib.Core.Path.{subst}
use mathlib.Core.List.{append-nil, append_assoc}
use ohnotel.Atomic.Integers.{word}
use ohnotel.Lock.{Phase, Machine, Step, Run, Reach}
use ohnotel.Lock.Commute.{IsCommutative}
use ohnotel.Lock.Reading.{read_all, balanced}

module _ {X V Op : Type 0} (apply : Op → X → X) (loads : List (X → V)) where
  load_all :
      (m : Machine X V Op) (s : ℕ) (vs : List V) (ls : List (X → V))
      → m.start % word ≡ s
      → Run apply loads
          (suc (length ls))
          (record m { phase = Phase.reading s vs ls })
          (record m { phase = Phase.returned (vs ++ read_all ls m.inner) })
  load_all m s vs [] same = Run.move (Step.accept _ s vs refl same) (
      subst
        (λ z.
          Run apply loads 0 (record m { phase = Phase.returned vs })
            (record m { phase = Phase.returned z }))
        (sym (append-nil vs)) (Run.stay _))
  load_all m s vs (l ∷ ls) same = Run.move (Step.load _ s vs l ls refl) (
      subst
        (λ z.
          Run apply loads (suc (length ls))
            (record m { phase = Phase.reading s (vs ++ (l m.inner ∷ [])) ls })
            (record m { phase = Phase.returned z }))
        (append_assoc vs (l m.inner ∷ []) (read_all ls m.inner))
        (load_all m s (vs ++ (l m.inner ∷ [])) ls same))

  -- From any state that the sequence lock reaches with nobody inside, a reader that starts and runs
  -- alone returns the value as it is, after three accesses and its loads, if the accesses of the
  -- writers commute.
  pub alone :
      IsCommutative apply
      → (x : X) (m : Machine X V Op) → Reach apply loads x m
      → m.inside ≡ []
      → m.phase ≡ Phase.idle
      → Run apply loads
          (suc (suc (suc (length loads))))
          m
          (record m { phase = Phase.returned (read_all loads m.inner) })
  alone comm x m r out at =
      let even = ap (λ n. n % word) (balanced apply loads comm x r out) in
      Run.move (Step.load_end m at) (
        Run.move (Step.load_start _ (m.end % word) refl even)
          (load_all m (m.end % word) [] loads even))
