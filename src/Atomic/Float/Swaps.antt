-- ===== src/Atomic/Float/Swaps.antt =====
-- Calls of `update_with` of src/atomic/float.rs that run at the same time.
use mathlib.Core.List.{Perm, perm_middle}
use mathlib.Core.List.Perm
use ohnotel.Base.{
  ℕ, zero, suc, ◌≡◌, refl, ap, sym, ◌∙◌, Bool, true, false, List, [], ◌∷◌, ◌++◌, Bool-cases, inl,
  inr, ◌==◌, ==_iff,
}
use ohnotel.Atomic.Float.{Update, read, exchange, exchange_at, Event, event, run}

-- The functions, one after the other.
unfoldable pub perform : List (ℕ → ℕ) → ℕ → ℕ
perform [] bits = bits
perform (f ∷ fs) bits = perform fs (f bits)

unfoldable pub pending : List Update → List (ℕ → ℕ)
pending [] = []
pending (call ∷ calls) = call.f ∷ pending calls

unfoldable pub entered : List Event → List (ℕ → ℕ)
entered [] = []
entered (Event.enter f ∷ es) = f ∷ entered es
entered (Event.attempt i spurious ∷ es) = entered es

-- What a read or an exchange of the functions `before` does: nothing ends, or one of them does.
data Outcome (bits : ℕ) (before after : List (ℕ → ℕ)) (bits' : ℕ) : Type 0 where
  waits : bits' ≡ bits → Perm after before → Outcome bits before after bits'
  ends : (f : ℕ → ℕ) → bits' ≡ f bits → Perm (f ∷ after) before → Outcome bits before after bits'

read_lem :
    (f : ℕ → ℕ) (bits : ℕ) (calls : List Update)
    → Outcome bits (f ∷ pending calls) (pending (read f bits calls)) bits
unfolding read pending
read_lem f bits calls = elim (Bool-cases (f bits == bits)) [
  | inl e ↦ rw e (Outcome.ends f (sym ((==_iff (f bits) bits).0 e)) (Perm.refl _))
  | inr e ↦ rw e (Outcome.waits refl (Perm.refl _))
]

exchange_lem :
    (spurious : Bool) (bits : ℕ) (call : Update) (calls : List Update)
    → Outcome bits
        (call.f ∷ pending calls)
        (pending (exchange spurious bits call calls).1)
        (exchange spurious bits call calls).0
unfolding exchange
exchange_lem true bits call calls = elim (Bool-cases (bits == call.old)) [
  | inl e ↦ rw e (read_lem call.f bits calls)
  | inr e ↦ rw e (read_lem call.f bits calls)
]
exchange_lem false bits call calls = elim (Bool-cases (bits == call.old)) [
  | inl e ↦ rw e (Outcome.ends call.f (ap call.f (sym ((==_iff bits call.old).0 e))) (Perm.refl _))
  | inr e ↦ rw e (read_lem call.f bits calls)
]

later :
    {bits bits' : ℕ} {before after : List (ℕ → ℕ)} (g : ℕ → ℕ)
    → Outcome bits before after bits'
    → Outcome bits (g ∷ before) (g ∷ after) bits'
later g (Outcome.waits e p) = Outcome.waits e (Perm.cons g p)
later g (Outcome.ends f e p) = Outcome.ends f e (Perm.trans (Perm.swap g f _) (Perm.cons g p))

exchange_at_lem :
    (spurious : Bool) (bits i : ℕ) (calls : List Update)
    → Outcome bits
        (pending calls)
        (pending (exchange_at spurious bits i calls).1)
        (exchange_at spurious bits i calls).0
unfolding exchange_at pending
exchange_at_lem spurious bits i [] = Outcome.waits refl (Perm.refl _)
exchange_at_lem spurious bits zero (call ∷ calls) = exchange_lem spurious bits call calls
exchange_at_lem spurious bits (suc i) (call ∷ calls) =
    later call.f (exchange_at_lem spurious bits i calls)

-- What a schedule does to the cell: some of the functions, in some order.
pub record Ordered (bits : ℕ) (before after : List (ℕ → ℕ)) (bits' : ℕ) : Type 0 where
  pub done : List (ℕ → ℕ)
  pub same : bits' ≡ perform done bits
  pub order : Perm (done ++ after) before

-- One more outcome before a schedule.
after_outcome :
    {bits bits' bits'' : ℕ} {before after last : List (ℕ → ℕ)} (fs : List (ℕ → ℕ))
    → Outcome bits before after bits'
    → Ordered bits' (fs ++ after) last bits''
    → Ordered bits (fs ++ before) last bits''
unfolding perform
after_outcome {last = last} fs (Outcome.waits e p) o = record {
  done = o.done;
  same = o.same ∙ ap (perform o.done) e;
  order = Perm.trans o.order (Perm.append (Perm.refl fs) p);
}
after_outcome {after = after} {last = last} fs (Outcome.ends f e p) o = record {
  done = f ∷ o.done;
  same = o.same ∙ ap (perform o.done) e;
  order =
      Perm.trans (Perm.cons f o.order)
        (Perm.trans (Perm.symm (perm_middle fs after)) (Perm.append (Perm.refl fs) p));
}

-- Calls of `update_with` that run at the same time, in any schedule of their exchanges, with
-- failures without a cause: the cell holds what some of their functions make of the first contents,
-- one after the other in some order, and these functions and those of the calls still in the loop
-- are together those of the calls that entered and those that were in the loop before.
pub run_lem :
    (es : List Event) (bits : ℕ) (calls : List Update)
    → Ordered bits
        (entered es ++ pending calls)
        (pending (run es (bits, calls)).1)
        (run es (bits, calls)).0
unfolding run event entered perform
run_lem [] bits calls = record { done = []; same = refl; order = Perm.refl _ }
run_lem (Event.enter f ∷ es) bits calls =
    let rest = run_lem es bits (read f bits calls) in
    let o = after_outcome (entered es) (read_lem f bits calls) rest in
    record {
      done = o.done;
      same = o.same;
      order = Perm.trans o.order (perm_middle (entered es) (pending calls));
    }
run_lem (Event.attempt i spurious ∷ es) bits calls =
    after_outcome (entered es) (exchange_at_lem spurious bits i calls)
      (run_lem es _ (exchange_at spurious bits i calls).1)
