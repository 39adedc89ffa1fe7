-- ===== src/Collect/Registry.antt =====
-- What registering a source does (src/collect/mod.rs, `Collection::add`).
use ohnotel.Base.{
  ◌≡◌, refl, sym, ap, ◌∙◌, Bool, true, false, List, [], ◌∷◌, none, some, Result, ok, err,
  if◌then◌else◌, length, Bool-cases, Result-cases, ok-injective, inl, inr, arith, ◌==◌, not, ◌&&◌,
}
use ohnotel.Error.{Error, destructive_with_multiple_collectors, mode_mismatch}
use ohnotel.Observe.{Mode}
use ohnotel.Collect.{
  eq_mode, is_destructive, Collectors, Collection, RegistryEntry, lookup, register_all, register,
  add,
}

err-ne-ok : {A E : Type 0} {a : A} {e : E} → ◌≡◌ {A = Result A E} (err e) (ok a) → ⊥
err-ne-ok h = ground arith

module _ (env : Collectors) where
  length-register_all :
      (source : env.Key × env.Handle) (mode : Mode) (cs : List env.Collector)
      → length (register_all env source mode cs).0 ≡ length cs
  unfolding register_all
  length-register_all source mode [] = refl
  length-register_all source mode (c ∷ cs) = ground (arith, length-register_all source mode cs)

  eq_mode_refl : (mode : Mode) → eq_mode mode mode ≡ true
  eq_mode_refl Mode.direct = refl
  eq_mode_refl Mode.delta = refl
  eq_mode_refl Mode.destructive = refl

  abbrev refused : Mode → Collection env → Bool
  refused mode s = is_destructive mode && not (length s.collectors == 1)

  abbrev registered : env.Key × env.Handle → Mode → Collection env → Collection env
  registered source mode s = record {
    collectors = (register_all env source mode s.collectors).0;
    registry = (source.0, record { mode = mode; source = source.1 }) ∷ s.registry;
  }

  register-shape :
      (source : env.Key × env.Handle) (mode : Mode) (s : Collection env) (got : env.Handle)
      → (register env source mode s).1 ≡ ok got
      → (register env source mode s ≡ (registered source mode s, ok source.1)) × (got ≡ source.1)
  unfolding register register_all
  register-shape source mode s got made =
      elim (Result-cases (register_all env source mode s.collectors).1) [
        | inl (u, e) ↦
            let run : register env source mode s ≡ (registered source mode s, ok source.1) =
              rw (e, register) refl in
            (run, ok-injective (sym made ∙ ap (λ z. z.1) run))
        | inr (z, e) ↦
            let run : (register env source mode s).1 ≡ err z = rw (e, register) refl in
            absurd (err-ne-ok (sym run ∙ made))
      ]

  add-fresh :
      (source : env.Key × env.Handle) (mode : Mode) (s : Collection env) (got : env.Handle)
      → (add env source mode s).1 ≡ ok got
      → lookup env source.0 s.registry ≡ none
      → (refused mode s ≡ false) × (add env source mode s ≡ register env source mode s)
  unfolding add
  add-fresh source mode s got made fresh = elim (Bool-cases (refused mode s)) [
    | inl e ↦
        let run : (add env source mode s).1 ≡ err destructive_with_multiple_collectors =
          rw (e, add) refl in
        absurd (err-ne-ok (sym run ∙ made))
    | inr e ↦ (e, rw (e, add) (rw fresh refl))
  ]

  add-found :
      (source : env.Key × env.Handle) (mode : Mode) (s : Collection env)
      (entry : RegistryEntry env.Handle)
      → refused mode s ≡ false
      → lookup env source.0 s.registry ≡ some entry
      → add env source mode s
        ≡ (if not (eq_mode entry.mode mode) then (s, err mode_mismatch) else (s, ok entry.source))
  unfolding add
  add-found source mode s entry free found = rw (free, add) (rw found refl)

  -- A source that `add` accepted under a key that the registry did not have: `add` returned it,
  -- another source with that key and mode gets it back and changes nothing, and with another mode
  -- that is not destructive gets a mode mismatch and changes nothing, if a key equals itself.
  pub add-add :
      (reflexive : (k : env.Key) → env.eq_key k k ≡ true) (k : env.Key) (first second : env.Handle)
      (mode other : Mode) (s : Collection env) (got : env.Handle)
      → (add env (k, first) mode s).1 ≡ ok got
      → lookup env k s.registry ≡ none
      → let after = (add env (k, first) mode s).0 in
        (got ≡ first)
        × (add env (k, second) mode after ≡ (after, ok first))
        × (eq_mode mode other ≡ false
            → is_destructive other ≡ false
            → add env (k, second) other after ≡ (after, err mode_mismatch))
  unfolding lookup
  add-add reflexive k first second mode other s got made fresh =
      let (free, run) = add-fresh (k, first) mode s got made fresh in
      let (shape, same) = register-shape (k, first) mode s got (ap (λ z. z.1) (sym run) ∙ made) in
      let now = registered (k, first) mode s in
      let entry : RegistryEntry env.Handle = record { mode = mode; source = first } in
      let at : (add env (k, first) mode s).0 ≡ now = ap (λ z. z.0) (run ∙ shape) in
      let found : lookup env k now.registry ≡ some entry = rw (reflexive k) refl in
      let free' : refused mode now ≡ false =
        ap (λ n. is_destructive mode && not (n == 1))
          (length-register_all (k, first) mode s.collectors)
        ∙ free in
      rw at (
        same,
        add-found (k, second) mode now entry free' found ∙ rw (eq_mode_refl mode) refl,
        λ differ calm. add-found (k, second) other now entry (rw calm refl) found ∙ rw differ refl,
      )

  register_all-partial :
      (source : env.Key × env.Handle) (mode : Mode) (c c' d : env.Collector)
      (cs : List env.Collector) (e : Error)
      → env.add_source source mode c ≡ ok c'
      → env.add_source source mode d ≡ err e
      → register_all env source mode (c ∷ d ∷ cs) ≡ (c' ∷ d ∷ cs, err e)
  unfolding register_all
  register_all-partial source mode c c' d cs e first second = ground (arith, first, second)

  -- Where the first collector accepts a source that the registry does not have and the second
  -- refuses it, in a mode that is not destructive: `add` returns the error, the first collector
  -- keeps the source and the registry does not get it.
  pub add-partial :
      (source : env.Key × env.Handle) (mode : Mode) (c c' d : env.Collector)
      (cs : List env.Collector) (registry : List (env.Key × RegistryEntry env.Handle)) (e : Error)
      → is_destructive mode ≡ false
      → lookup env source.0 registry ≡ none
      → env.add_source source mode c ≡ ok c'
      → env.add_source source mode d ≡ err e
      → add env source mode (record { collectors = c ∷ d ∷ cs; registry = registry })
        ≡ (record { collectors = c' ∷ d ∷ cs; registry = registry }, err e)
  unfolding add register
  add-partial source mode c c' d cs registry e calm fresh first second =
      ground (arith, calm, fresh, register_all-partial source mode c c' d cs e first second)
