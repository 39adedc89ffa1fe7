-- ===== src/Observe/Keys.antt =====
-- What one observation does to one key (src/observe.rs, `observe_impl`).
use mathlib.Core.Option
use ohnotel.Base.{
  ℕ, ◌≡◌, refl, sym, ap, ◌∙◌, Bool, true, false, List, [], ◌∷◌, ◌++◌, Option, none, some,
  if◌then◌else◌, Bool-cases, Option-cases, inl, inr, arith,
}
use ohnotel.Model.Order.{Ord}
use ohnotel.Attrs.{eq_attrs}
use ohnotel.Atomic.Traits.{Record}
use ohnotel.BucketMap.State.{CanonicalEntry}
use ohnotel.Observe.{
  Snapshot, Map, get, set, or_empty, SeriesMap, push, Seen, recorded, store, observe_entry,
}
use ohnotel.Observe.Maps.{get-set_here, get-set_there, push_here, push_there}

-- What the observer holds for a key: whether it keeps last values, the last value, the snapshots.
pub record KeyState (S : Type 0) : Type 0 where
  pub keeps_last : Bool
  pub last : Option S
  pub snapshots : List (Snapshot S)

abbrev get_last : {K S : Type 0} ⦃o : Ord K⦄ → List K → Option (Map K S) → Option S
get_last k none = none
get_last k (some last) = get k last

abbrev is_some {ℓ} : {A : Type ℓ} → Option A → Bool
is_some none = false
is_some (some a) = true

abbrev pub key_state : {K S : Type 0} ⦃o : Ord K⦄ → List K → Seen K S → KeyState S
key_state k (last, series) = record {
  keeps_last = is_some last;
  last = get_last k last;
  snapshots = or_empty (get k series);
}

module _ {T A S : Type 0} (r : Record T A S) (ts seq : ℕ) where
  abbrev report : S → KeyState S → KeyState S
  report value s = record s {
    snapshots = s.snapshots ++ (record { ts = ts; seq_id = seq; value = value } ∷ []);
  }

  -- The observation of a current value, for its key.
  abbrev pub observe_key : S → KeyState S → KeyState S
  observe_key current s =
      if s.keeps_last
      then elim s.last [
        | none ↦ record (report current s) { last = some current }
        | some prev ↦
            if r.equal prev current
            then s
            else record (report (if r.less prev current then r.minus current prev else current) s) {
              last = some current;
            }
      ]
      else report current s

  module _ (current : S) (last : Option S) (snapshots : List (Snapshot S)) where
    abbrev tracked : KeyState S
    tracked = record { keeps_last = true; last = last; snapshots = snapshots }

    key_first :
        last ≡ none
        → observe_key current tracked ≡ record (report current tracked) { last = some current }
    key_first h = rw h refl

    key_new :
        (prev : S)
        → last ≡ some prev
        → r.equal prev current ≡ false
        → observe_key current tracked
          ≡ record (report
              (if r.less prev current then r.minus current prev else current)
              tracked) { last = some current }
    key_new prev h new = rw h (rw new refl)

  key_same :
      (current : S) (last : Option S) (snapshots : List (Snapshot S)) (prev : S)
      → last ≡ some prev
      → r.equal prev current ≡ true
      → observe_key current (tracked current last snapshots) ≡ tracked current last snapshots
  key_same current none snapshots prev h same = ground arith
  key_same current (some p) snapshots prev h same =
      let equal : r.equal p current ≡ true = rw (Option.some-injective p prev h) same in
      rw equal refl

  module _ {K : Type 0} ⦃o : Ord K⦄ where
    module _ (e : CanonicalEntry K) (a : A) (last : Map K S) (series : SeriesMap K S) where
      abbrev current : S
      current = r.current a

      abbrev pushed : S → Seen K S
      pushed v = (
        some (set e.attrs current last),
        push e.attrs (record { ts = ts; seq_id = seq; value = v }) series,
      )

      run_first :
          get e.attrs last ≡ none
          → (observe_entry r ts seq e a (some last, series)).1 ≡ pushed current
      unfolding observe_entry recorded store
      run_first h =
          let run : recorded r e.attrs current (some last)
              ≡ (some current, some (set e.attrs current last)) =
            rw (h, recorded) refl in
          ap (store ts seq e.attrs series) run

      run_same :
          (prev : S)
          → get e.attrs last ≡ some prev
          → r.equal prev current ≡ true
          → (observe_entry r ts seq e a (some last, series)).1 ≡ (some last, series)
      unfolding observe_entry recorded store
      run_same prev h same =
          let run : recorded r e.attrs current (some last) ≡ (none, some last) =
            rw (h, recorded) (rw same refl) in
          ap (store ts seq e.attrs series) run

      run_new :
          (prev : S)
          → get e.attrs last ≡ some prev
          → r.equal prev current ≡ false
          → (observe_entry r ts seq e a (some last, series)).1
            ≡ pushed (if r.less prev current then r.minus current prev else current)
      unfolding observe_entry recorded store
      run_new prev h new =
          let run : recorded r e.attrs current (some last) ≡ (
            some (if r.less prev current then r.minus current prev else current),
            some (set e.attrs current last),
          ) =
            rw (h, recorded) (rw new refl) in
          ap (store ts seq e.attrs series) run

      pushed_here :
          (v : S)
          → key_state e.attrs (pushed v) ≡ record {
            keeps_last = true;
            last = some current;
            snapshots =
                or_empty (get e.attrs series) ++ (record { ts = ts; seq_id = seq; value = v } ∷ []);
          }
      pushed_here v = rw (get-set_here e.attrs current last, push_here e.attrs _ series) refl

      pushed_there :
          (v : S) (k : List K)
          → eq_attrs e.attrs k ≡ false
          → key_state k (pushed v) ≡ key_state k (some last, series)
      pushed_there v k other =
          rw (get-set_there e.attrs current last k other, push_there e.attrs _ series k other) refl

    pub observe_entry_here :
        (e : CanonicalEntry K) (a : A) (s : Seen K S)
        → key_state e.attrs (observe_entry r ts seq e a s).1
          ≡ observe_key (r.current a) (key_state e.attrs s)
    unfolding observe_entry recorded store
    observe_entry_here e a (none, series) = rw (push_here e.attrs _ series) refl
    observe_entry_here e a (some last, series) = elim (Option-cases (get e.attrs last)) [
      | inl h ↦
          ap (key_state e.attrs) (run_first e a last series h)
          ∙ pushed_here e a last series _
          ∙ sym (key_first _ _ _ h)
      | inr (prev, h) ↦ elim (Bool-cases (r.equal prev (r.current a))) [
        | inl same ↦
            ap (key_state e.attrs) (run_same e a last series prev h same)
            ∙ sym (key_same _ _ _ prev h same)
        | inr new ↦
            ap (key_state e.attrs) (run_new e a last series prev h new)
            ∙ pushed_here e a last series _
            ∙ sym (key_new _ _ _ prev h new)
      ]
    ]

    pub observe_entry_there :
        (e : CanonicalEntry K) (a : A) (s : Seen K S) (k : List K)
        → eq_attrs e.attrs k ≡ false
        → key_state k (observe_entry r ts seq e a s).1 ≡ key_state k s
    unfolding observe_entry recorded store
    observe_entry_there e a (none, series) k other = rw (push_there e.attrs _ series k other) refl
    observe_entry_there e a (some last, series) k other = elim (Option-cases (get e.attrs last)) [
      | inl h ↦
          ap (key_state k) (run_first e a last series h) ∙ pushed_there e a last series _ k other
      | inr (prev, h) ↦ elim (Bool-cases (r.equal prev (r.current a))) [
        | inl same ↦ ap (key_state k) (run_same e a last series prev h same)
        | inr new ↦
            ap (key_state k) (run_new e a last series prev h new)
            ∙ pushed_there e a last series _ k other
      ]
    ]
