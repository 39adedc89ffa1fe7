-- ===== src/Observe/Drained.antt =====
-- What a destructive observation does (src/observe.rs, `observe_destructive`).
use mathlib.Core.Option
use mathlib.Core.List.{append-nil, foldl}
use ohnotel.Base.{
  ℕ, ◌+◌, ◌%◌, ◌≤◌, ◌≡◌, ◌≢◌, refl, sym, ap, ◌∙◌, Bool, true, false, List, [], ◌∷◌, ◌++◌, Option,
  none, some, if◌then◌else◌, to_nat, ◌==◌, Bool-cases, Option-cases, inl, inr, arith,
}
use ohnotel.Model.Order.{Ord}
use ohnotel.Attrs.{eq_attrs}
use ohnotel.Attrs.Sort.{eq_of_eq_attrs}
use ohnotel.Fingerprint.{u64_mod}
use ohnotel.Atomic.Traits.{Record}
use ohnotel.Table.Items.{count, first, first-eq-none_of_count, first_passes, All-first}
use ohnotel.BucketMap.State.{CanonicalEntry, Params, BucketMap}
use ohnotel.BucketMap.Lookup.{has_attrs}
use ohnotel.BucketMap.Ops.{take}
use ohnotel.BucketMap.Inv.{entries_of, bucket_for, EntryOk, Inv}
use ohnotel.BucketMap.Contents.{view, bucket_owned}
use ohnotel.BucketMap.Drain.{take_lem}
use ohnotel.Observe.{
  Mode, if_destructive, Snapshot, get, or_empty, SeriesMap, Observer, push, with_no_attr,
  drain_entry, observe_destructive, observe_buckets, observe_impl,
}
use ohnotel.Observe.Maps.{push_here, push_there}

module _ {S : Type 0} (ts seq : ℕ) where
  abbrev pub snapshot : S → Snapshot S
  snapshot value = record { ts = ts; seq_id = seq; value = value }

  -- The reading of the bucket without attributes, if it was touched.
  abbrev pub untagged : Bool → S → List (Snapshot S)
  untagged true value = snapshot value ∷ []
  untagged false value = []

module _ {A T S : Type 0} (r : Record T A S) (ts seq : ℕ) where
  -- What is reported of a bucket with attributes: nothing if it holds the initial value.
  abbrev pub drained : Option A → List (Snapshot S)
  drained none = []
  drained (some a) = if r.is_initial (r.current a) then [] else snapshot ts seq (r.current a) ∷ []

module _ {K S : Type 0} ⦃o : Ord K⦄ where
  abbrev pub snapshots : List K → SeriesMap K S → List (Snapshot S)
  snapshots k series = or_empty (get k series)

  snapshots-push_here :
      (j k : List K) (s : Snapshot S) (series : SeriesMap K S)
      → eq_attrs j k ≡ true
      → snapshots k (push j s series) ≡ snapshots k series ++ s ∷ []
  snapshots-push_here j k s series same = rw (eq_of_eq_attrs j k same) (push_here k s series)

module _ {K S : Type 0} ⦃o : Ord K⦄ (ts seq : ℕ) where
  with_no_attr-there :
      (v : Option S) (series : SeriesMap K S) (k : List K)
      → k ≢ []
      → snapshots k (with_no_attr ts seq v series) ≡ snapshots k series
  unfolding eq_attrs
  with_no_attr-there none series k tagged = refl
  with_no_attr-there (some v) series [] tagged = absurd (tagged refl)
  with_no_attr-there (some v) series (x ∷ k) tagged = push_there [] _ series (x ∷ k) refl

  with_no_attr-here :
      (touched : Bool) (v : S) (series : SeriesMap K S)
      → snapshots [] (with_no_attr ts seq (if touched then some v else none) series)
        ≡ snapshots [] series ++ untagged ts seq touched v
  with_no_attr-here true v series = push_here [] _ series
  with_no_attr-here false v series = sym (append-nil (snapshots [] series))

module _ {K A T S : Type 0} ⦃o : Ord K⦄ (r : Record T A S) (ts seq : ℕ) where
  drain_entry-here :
      (cell : ℕ → A) (k : List K) (g : ℕ) (e : CanonicalEntry K) (series : SeriesMap K S)
      → eq_attrs e.attrs k ≡ true
      → snapshots k (drain_entry r ts seq cell series (g, e))
        ≡ snapshots k series ++ drained r ts seq (some (cell e.bucket))
  unfolding drain_entry
  drain_entry-here cell k g e series same =
      elim (Bool-cases (r.is_initial (r.current (cell e.bucket)))) [
        | inl initial ↦ rw initial (sym (append-nil (snapshots k series)))
        | inr reported ↦ rw reported (snapshots-push_here e.attrs k _ series same)
      ]

  drain_entry-there :
      (cell : ℕ → A) (k : List K) (g : ℕ) (e : CanonicalEntry K) (series : SeriesMap K S)
      → eq_attrs e.attrs k ≡ false
      → snapshots k (drain_entry r ts seq cell series (g, e)) ≡ snapshots k series
  unfolding drain_entry
  drain_entry-there cell k g e series other =
      elim (Bool-cases (r.is_initial (r.current (cell e.bucket)))) [
        | inl initial ↦ rw initial refl
        | inr reported ↦ rw reported (push_there e.attrs _ series k other)
      ]

  drain_all :
      (cell : ℕ → A) (k : List K) (xs : List (ℕ × CanonicalEntry K)) (series : SeriesMap K S)
      → count (has_attrs k) xs ≤ 1
      → snapshots k (foldl (drain_entry r ts seq cell) series xs)
        ≡ snapshots k series
          ++ drained r ts seq (
              Option.map cell
                (Option.map (λ (e : CanonicalEntry K). e.bucket) (first (has_attrs k) xs)))
  unfolding count first
  drain_all cell k [] series h = sym (append-nil (snapshots k series))
  drain_all cell k ((g, e) ∷ xs) series h = elim (Bool-cases (eq_attrs e.attrs k)) [
    | inl same ↦
        let after = drain_entry r ts seq cell series (g, e) in
        let rest = drain_all cell k xs after (omega (arith, h, ap to_nat same)) in
        let alone : first (has_attrs k) xs ≡ none =
          first-eq-none_of_count (has_attrs k) xs (omega (arith, h, ap to_nat same)) in
        rw same (
          rw alone at rest
          ∙ append-nil (snapshots k after)
          ∙ drain_entry-here cell k g e series same)
    | inr other ↦ rw other (
        drain_all cell k xs (drain_entry r ts seq cell series (g, e))
          (omega (arith, h, ap to_nat other))
        ∙ ap
            (λ z.
              z
              ++ drained r ts seq (
                  Option.map cell
                    (Option.map (λ (e : CanonicalEntry K). e.bucket) (first (has_attrs k) xs))))
            (drain_entry-there cell k g e series other))
  ]

  module _ {p : Params K A} where
    no_bucket_untagged : {m : BucketMap p} → Inv m → bucket_for m [] ≡ none
    unfolding bucket_for
    no_bucket_untagged {m} inv = elim (Option-cases (first (has_attrs []) (entries_of m))) [
      | inl missing ↦ rw missing refl
      | inr (e, found) ↦
          let (g, filed) =
            All-first (EntryOk p) (has_attrs []) (entries_of m) e inv.entries found in
          let passes = first_passes (has_attrs []) (entries_of m) e found in
          absurd (filed.nonempty (eq_of_eq_attrs e.attrs [] passes))
    ]

    -- Clearing the bucket without attributes touches no other.
    taken_view :
        {m : BucketMap p} (inv : Inv m) (k : List K)
        → Option.map (take r m).0.heap.cell (bucket_for m k) ≡ view m k
    unfolding take
    taken_view {m} inv k = elim (Option-cases (bucket_for m k)) [
      | inl missing ↦ rw missing refl
      | inr (b, found) ↦
          let other : (b == m.no_attr_entry.bucket) ≡ false =
            ground (arith, (bucket_owned inv k b found).0, inv.root) in
          rw (found, other) refl
    ]

    drained_series :
        {m : BucketMap p} (inv : Inv m) (series : SeriesMap K S) (k : List K)
        → snapshots k (foldl (drain_entry r ts seq (take r m).0.heap.cell) series (entries_of m))
          ≡ snapshots k series ++ drained r ts seq (view m k)
    unfolding bucket_for
    drained_series {m} inv series k =
        drain_all (take r m).0.heap.cell k (entries_of m) series (inv.unique k)
        ∙ ap (λ z. snapshots k series ++ drained r ts seq z) (taken_view inv k)

    observe_impl-drained :
        (m : BucketMap p) (ob : Observer K S)
        → ob.observe_mode ≡ Mode.destructive
        → observe_impl r ts m ob ≡ observe_destructive r ts m ob
    unfolding observe_impl
    observe_impl-drained m ob mode =
        ap (λ z. if_destructive z (observe_destructive r ts m ob) (observe_buckets r ts m ob)) mode

    series_after :
        {m : BucketMap p} (inv : Inv m) (ob : Observer K S)
        → ob.seq ≡ seq
        → (observe_destructive r ts m ob).1.series
          ≡ with_no_attr ts seq
              (if m.no_attr_touched then some (r.current (m.heap.cell 0)) else none)
              (foldl (drain_entry r ts seq (take r m).0.heap.cell) ob.series (entries_of m))
    unfolding observe_destructive take
    series_after {m} inv ob at_seq =
        let reading =
          λ (b : ℕ). if m.no_attr_touched then some (r.current (m.heap.cell b)) else none in
        let entries =
          λ (q : ℕ). foldl (drain_entry r ts q (take r m).0.heap.cell) ob.series (entries_of m) in
        ap (λ (q : ℕ). with_no_attr ts q (reading m.no_attr_entry.bucket) (entries q)) at_seq
        ∙ ap (λ (b : ℕ). with_no_attr ts seq (reading b) (entries seq)) inv.root

    -- `observe_impl` in destructive mode, of a well-formed map: the map stays well formed, no list
    -- of attributes has a bucket any more, and the bucket without attributes is cleared and
    -- untouched. The series of a nonempty list gains a snapshot of its bucket, if there is one with
    -- a value that is not the initial one; the series without attributes gains a snapshot if its
    -- bucket was touched; and the sequence number grows by one.
    pub observe_destructive_lem :
        {m : BucketMap p} (inv : Inv m) (ob : Observer K S)
        → ob.observe_mode ≡ Mode.destructive
        → ob.seq ≡ seq
        → let after = observe_impl r ts m ob in
          Inv after.0
          × ((k : List K) → bucket_for after.0 k ≡ none)
          × (after.0.no_attr_touched ≡ false)
          × (after.0.heap.cell 0 ≡ r.clear (m.heap.cell 0))
          × ((k : List K)
              → k ≢ []
              → snapshots k after.1.series ≡ snapshots k ob.series ++ drained r ts seq (view m k))
          × (snapshots [] after.1.series
              ≡ snapshots [] ob.series
                ++ untagged ts seq m.no_attr_touched (r.current (m.heap.cell 0)))
          × (after.1.seq ≡ (seq + 1) % u64_mod)
    unfolding observe_destructive
    observe_destructive_lem {m} inv ob mode at_seq =
        let taken = take_lem r inv in
        let drained_of =
          foldl (drain_entry r ts seq (take r m).0.heap.cell) ob.series (entries_of m) in
        rw (observe_impl-drained m ob mode) (
          taken.0,
          taken.3,
          taken.5,
          taken.4,
          λ k tagged.
              ap (snapshots k) (series_after inv ob at_seq)
              ∙ with_no_attr-there ts seq _ drained_of k tagged
              ∙ drained_series inv ob.series k,
          ap (snapshots []) (series_after inv ob at_seq)
              ∙ with_no_attr-here ts seq m.no_attr_touched (r.current (m.heap.cell 0)) drained_of
              ∙ ap (λ z. z ++ untagged ts seq m.no_attr_touched (r.current (m.heap.cell 0)))
                  (drained_series inv ob.series []
                    ∙ ap
                        (λ z. snapshots [] ob.series ++ drained r ts seq (Option.map m.heap.cell z))
                        (no_bucket_untagged inv)
                    ∙ append-nil (snapshots [] ob.series)),
          ap (λ z. (z + 1) % u64_mod) at_seq,
        )
