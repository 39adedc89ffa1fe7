-- ===== src/Prometheus/Collector/Scrape.antt =====
-- What a scrape reads (`SourceHandle::scrape` of src/prometheus/collector.rs).
use mathlib.Core.List.{append_assoc, append-nil}
use ohnotel.Base.{
  ℕ, ◌≡◌, refl, sym, ap, ◌∙◌, true, List, [], ◌∷◌, ◌++◌, Option, none, some, Result, ok, err, ◌>>=◌,
  if◌then◌else◌, Bool-cases, Result-cases, inl, inr,
}
use ohnotel.Error.{Error}
use ohnotel.Model.Order.{Ord}
use ohnotel.Model.Value.{KeyValue}
use ohnotel.Model.Value.Laws.{key_value_order}
use ohnotel.Observe.{Kind}
use ohnotel.Atomic.Traits.{Record}
use ohnotel.BucketMap.State.{CanonicalEntry, Params, BucketMap}
use ohnotel.BucketMap.Inv.{entries_of, bucket_for, Inv}
use ohnotel.BucketMap.Visit.{fold_entries, seen, visit_bucket_lem}
use ohnotel.Prometheus.Render.{NameIdentity, DataPoint, DataPointValue, Metric}
use ohnotel.Prometheus.Collector.{Scraped, scrape_value, scrape_entry, finish_scrape, scrape}

module _ {F N A T S : Type 0} (r : Record T A S)
    (into_data_point_value : NameIdentity → S → Result (DataPointValue N) Error) where
  -- The readings of some entries, with their attributes.
  abbrev pub readings :
      (ℕ → A) → List (ℕ × CanonicalEntry (KeyValue F)) → List (List (KeyValue F) × S)
  readings cell [] = []
  readings cell ((h, e) ∷ xs) = (e.attrs, r.current (cell e.bucket)) ∷ readings cell xs

  -- Every reading as a point, or the first error.
  abbrev pub all_points :
      NameIdentity → List (List (KeyValue F) × S) → Result (List (DataPoint F N)) Error
  all_points id [] = ok []
  all_points id ((attrs, reading) ∷ more) = do
    value ← into_data_point_value id reading
    points ← all_points id more
    ok (record { attrs = attrs; value = value } ∷ points)

  -- A family, or nothing if there are no points.
  abbrev pub as_family :
      NameIdentity → Kind → Result (List (DataPoint F N)) Error → Result (Option (Metric F N)) Error
  as_family id kind (err e) = err e
  as_family id kind (ok []) = ok none
  as_family id kind (ok (p ∷ ps)) = ok (some (record { id = id; kind = kind; points = p ∷ ps }))

  -- The closure over readings.
  collect : NameIdentity → List (List (KeyValue F) × S) → Scraped F N → Scraped F N
  collect id [] s = s
  collect id (x ∷ xs) (points, some e) = (points, some e)
  collect id ((attrs, reading) ∷ xs) (points, none) =
      collect id xs
        (scrape_value r into_data_point_value attrs (into_data_point_value id reading) points)

  collect_failed :
      (id : NameIdentity) (xs : List (List (KeyValue F) × S)) (points : List (DataPoint F N))
      (e : Error)
      → collect id xs (points, some e) ≡ (points, some e)
  unfolding collect
  collect_failed id [] points e = refl
  collect_failed id (x ∷ xs) points e = refl

  -- A loop that starts with some points.
  abbrev put_before :
      List (DataPoint F N)
      → Result (List (DataPoint F N)) Error
      → Result (List (DataPoint F N)) Error
  put_before points (err e) = err e
  put_before points (ok more) = ok (points ++ more)

  put_before-bind :
      (points : List (DataPoint F N)) (p : DataPoint F N) (m : Result (List (DataPoint F N)) Error)
      → put_before (points ++ p ∷ []) m ≡ put_before points (do more ← m; ok (p ∷ more))
  put_before-bind points p (err e) = refl
  put_before-bind points p (ok more) = ap ok (append_assoc points (p ∷ []) more)

  finish-collect :
      (id : NameIdentity) (kind : Kind) (xs : List (List (KeyValue F) × S))
      (points : List (DataPoint F N))
      → finish_scrape r into_data_point_value id kind (collect id xs (points, none))
        ≡ as_family id kind (put_before points (all_points id xs))
  unfolding collect
  finish-collect id kind [] [] = refl
  finish-collect id kind [] (p ∷ ps) =
      ap (λ z. ok (some (record { id = id; kind = kind; points = p ∷ z }))) (sym (append-nil ps))
  finish-collect id kind ((attrs, reading) ∷ xs) points =
      elim (Result-cases (into_data_point_value id reading)) [
        | inl (value, e) ↦
            let p : DataPoint F N = record { attrs = attrs; value = value } in
            rw e (
              finish-collect id kind xs (points ++ p ∷ [])
              ∙ ap (as_family id kind) (put_before-bind points p (all_points id xs)))
        | inr (bad, e) ↦ rw (e, collect_failed id xs points bad) refl
      ]

  fold-collect :
      (id : NameIdentity) (cell : ℕ → A) (xs : List (ℕ × CanonicalEntry (KeyValue F)))
      (s : Scraped F N)
      → fold_entries (scrape_entry r into_data_point_value id) cell xs s
        ≡ collect id (readings cell xs) s
  unfolding fold_entries scrape_entry collect
  fold-collect id cell [] s = refl
  fold-collect id cell ((h, e) ∷ xs) (points, none) = fold-collect id cell xs _
  fold-collect id cell ((h, e) ∷ xs) (points, some bad) =
      fold-collect id cell xs (points, some bad) ∙ collect_failed id (readings cell xs) points bad

  collect-append :
      (id : NameIdentity) (xs : List (List (KeyValue F) × S)) (x : List (KeyValue F) × S)
      (s : Scraped F N)
      → collect id (xs ++ x ∷ []) s ≡ collect id (x ∷ []) (collect id xs s)
  unfolding collect
  collect-append id [] x s = refl
  collect-append id (y ∷ ys) x (points, some e) = refl
  collect-append id ((attrs, reading) ∷ ys) x (points, none) = collect-append id ys x _

  scrape_entry-collect :
      (id : NameIdentity) (e : CanonicalEntry (KeyValue F)) (a : A) (s : Scraped F N)
      → (scrape_entry r into_data_point_value id e a s).1
        ≡ collect id ((e.attrs, r.current a) ∷ []) s
  unfolding scrape_entry collect
  scrape_entry-collect id e a (points, none) = refl
  scrape_entry-collect id e a (points, some bad) = refl

  keeps_all :
      (id : NameIdentity) (e : CanonicalEntry (KeyValue F)) (a : A) (s : Scraped F N)
      → (scrape_entry r into_data_point_value id e a s).0 ≡ true
  unfolding scrape_entry
  keeps_all id e a (points, none) = refl
  keeps_all id e a (points, some bad) = refl

  put_before-nil : (m : Result (List (DataPoint F N)) Error) → put_before [] m ≡ m
  put_before-nil (ok ps) = refl
  put_before-nil (err e) = refl

  module _ ⦃f : Ord F⦄ {p : Params (KeyValue F) A} where
    -- What can be read of a map: its entries, and the bucket without attributes if it was touched.
    abbrev pub visible : BucketMap p → List (List (KeyValue F) × S)
    visible m =
        let entries = readings m.heap.cell (entries_of m) in
        let root = m.no_attr_entry in
        if m.no_attr_touched
        then entries ++ (root.attrs, r.current (m.heap.cell root.bucket)) ∷ []
        else entries

    seen-collect :
        (id : NameIdentity) (m : BucketMap p)
        → seen (scrape_entry r into_data_point_value id) m ([], none)
          ≡ collect id (visible m) ([], none)
    seen-collect id m =
        let root = m.no_attr_entry in
        let a = m.heap.cell root.bucket in
        let entries = fold-collect id m.heap.cell (entries_of m) ([], none) in
        elim (Bool-cases m.no_attr_touched) [
          | inl touched ↦
              rw (touched, entries)
                (scrape_entry-collect id root a _
                  ∙ sym (
                      collect-append id (readings m.heap.cell (entries_of m))
                        (root.attrs, r.current a) ([], none)))
          | inr untouched ↦ rw untouched entries
        ]

    -- `scrape` of a well-formed map gives the family of all its recorded buckets, the one without
    -- attributes last and only if it was recorded, or the first conversion that fails, or nothing
    -- if there is no bucket; the map stays well-formed and every list of attributes keeps its
    -- bucket and its contents.
    pub scrape_lem :
        (id : NameIdentity) (kind : Kind) {m : BucketMap p} (inv : Inv m)
        → ((scrape r into_data_point_value id kind m).1
            ≡ as_family id kind (all_points id (visible m)))
          × Inv (scrape r into_data_point_value id kind m).0
          × ((k : List (KeyValue F))
              → bucket_for (scrape r into_data_point_value id kind m).0 k ≡ bucket_for m k)
          × ((scrape r into_data_point_value id kind m).0.heap ≡ m.heap)
          × ((scrape r into_data_point_value id kind m).0.no_attr_touched ≡ m.no_attr_touched)
    unfolding scrape
    scrape_lem id kind {m} inv =
        let visited =
          visit_bucket_lem (scrape_entry r into_data_point_value id) (keeps_all id) r inv
            ([], none) in
        (
          ap (finish_scrape r into_data_point_value id kind) (visited.5 ∙ seen-collect id m)
              ∙ finish-collect id kind (visible m) []
              ∙ ap (as_family id kind) (put_before-nil (all_points id (visible m))),
          visited.0,
          visited.1,
          visited.2,
          visited.4,
        )
