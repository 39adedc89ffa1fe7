-- ===== src/Wire/Points.antt =====
-- The points of a series are those of its snapshots, in order.
use ohnotel.Base.{
  List, [], ◌∷◌, ◌++◌, Result, ok, ok-injective, ◌>>=◌, ℕ, Option, some, ◌≡◌, ◌≢◌, ◌↔◌, refl, sym,
  ap, ◌∙◌, Result-cases, inl, inr, arith,
}
use ohnotel.Observe.{Snapshot, SeriesMap}
use ohnotel.Wire.{Stop, snapshot_points, series_points, if_any, unless_empty}

-- A relation between two lists, item by item.
abbrev pub Pairwise {ℓ κ} : {A : Type ℓ} {B : Type κ} → (A → B → Type 0) → List A → List B → Type 0
Pairwise R [] [] = Unit
Pairwise R [] (b ∷ bs) = ⊥
Pairwise R (a ∷ as') [] = ⊥
Pairwise R (a ∷ as') (b ∷ bs) = R a b × Pairwise R as' bs

pub Pairwise-imp {ℓ κ} :
    {A : Type ℓ} {B : Type κ} {R Q : A → B → Type 0} (as' : List A) (bs : List B)
    → ((a : A) (b : B) → R a b → Q a b)
    → Pairwise R as' bs
    → Pairwise Q as' bs
Pairwise-imp [] [] f h = tt
Pairwise-imp [] (b ∷ bs) f h = elim h [ ]
Pairwise-imp (a ∷ as') [] f h = elim h [ ]
Pairwise-imp (a ∷ as') (b ∷ bs) f h = (f a b h.0, Pairwise-imp as' bs f h.1)

-- Every snapshot with the attributes that it was taken under.
abbrev pub with_attrs : {K S : Type 0} → List K → List (Snapshot S) → List (List K × Snapshot S)
with_attrs attrs [] = []
with_attrs attrs (s ∷ ss) = (attrs, s) ∷ with_attrs attrs ss

abbrev pub taken : {K S : Type 0} → SeriesMap K S → List (List K × Snapshot S)
taken [] = []
taken ((attrs, ss) ∷ more) = with_attrs attrs ss ++ taken more

module _ {K S P : Type 0} (point : List K → Snapshot S → Result P Stop) where
  -- One loop in place of two.
  unfoldable pub all_points : List (List K × Snapshot S) → Result (List P) Stop
  all_points [] = ok []
  all_points ((attrs, s) ∷ more) = do p ← point attrs s; ps ← all_points more; ok (p ∷ ps)

  abbrev append_points : List P → Result (List P) Stop → Result (List P) Stop
  append_points ps rest = do more ← rest; ok (ps ++ more)

  all_points-append :
      (attrs : List K) (ss : List (Snapshot S)) (more : List (List K × Snapshot S))
      → all_points (with_attrs attrs ss ++ more)
        ≡ (snapshot_points point attrs ss >>= λ ps. append_points ps (all_points more))
  unfolding all_points snapshot_points
  all_points-append attrs [] more = elim (Result-cases (all_points more)) [
    | inl (ps, e) ↦ rw e refl
    | inr (bad, e) ↦ rw e refl
  ]
  all_points-append attrs (s ∷ ss) more = elim (Result-cases (point attrs s)) [
    | inr (bad, e) ↦ rw e refl
    | inl (p, e) ↦ elim (Result-cases (snapshot_points point attrs ss)) [
      | inr (bad, e') ↦ rw (e, all_points-append attrs ss more, e') refl
      | inl (ps, e') ↦ elim (Result-cases (all_points more)) [
        | inr (bad, e'') ↦ rw (e, all_points-append attrs ss more, e', e'') refl
        | inl (rest, e'') ↦ rw (e, all_points-append attrs ss more, e', e'') refl
      ]
    ]
  ]

  pub series_points-taken :
      (series : SeriesMap K S) → series_points point series ≡ all_points (taken series)
  unfolding series_points all_points
  series_points-taken [] = refl
  series_points-taken ((attrs, ss) ∷ more) =
      ap (λ rest. snapshot_points point attrs ss >>= λ ps. append_points ps rest)
        (series_points-taken more)
      ∙ sym (all_points-append attrs ss (taken more))

  abbrev pub IsPoint : List K × Snapshot S → P → Type 0
  IsPoint (attrs, s) p = point attrs s ≡ ok p

  points_of_all :
      (ss : List (List K × Snapshot S)) (ps : List P)
      → Pairwise IsPoint ss ps
      → all_points ss ≡ ok ps
  unfolding all_points
  points_of_all [] [] h = refl
  points_of_all [] (p ∷ ps) h = elim h [ ]
  points_of_all ((attrs, s) ∷ more) [] h = elim h [ ]
  points_of_all ((attrs, s) ∷ more) (p ∷ ps) h = rw (h.0, points_of_all more ps h.1) refl

  IsPoint-all_points :
      (ss : List (List K × Snapshot S)) (ps : List P)
      → all_points ss ≡ ok ps
      → Pairwise IsPoint ss ps
  unfolding all_points
  IsPoint-all_points [] [] h = tt
  IsPoint-all_points [] (p ∷ ps) h = absurd (ground arith)
  IsPoint-all_points ((attrs, s) ∷ more) ps h = elim (Result-cases (point attrs s)) [
    | inr (bad, e) ↦ absurd (ground (arith, (rw e at h)))
    | inl (p, e) ↦ elim (Result-cases (all_points more)) [
      | inr (bad, e') ↦ absurd (ground (arith, (rw (e, e') at h)))
      | inl (rest, e') ↦
          let same : p ∷ rest ≡ ps = ok-injective (rw (e, e') at h) in
          rw (sym same) (e, IsPoint-all_points more rest e')
    ]
  ]

  -- Every snapshot is a point, or the walk stops.
  pub series_points_iff :
      (series : SeriesMap K S) (ps : List P)
      → (series_points point series ≡ ok ps) ↔ Pairwise IsPoint (taken series) ps
  series_points_iff series ps =
      rw (series_points-taken series)
        (IsPoint-all_points (taken series) ps, points_of_all (taken series) ps)

module _ {K S P M : Type 0} (start? : Result ℕ Stop)
    (point : ℕ → List K → Snapshot S → Result P Stop) (make : List P → Result M Stop) where
  -- `into_wire`, up to what it calls.
  abbrev pub wire : SeriesMap K S → Result (Option M) Stop
  wire series =
      if_any series (start? >>= λ n. series_points (point n) series >>= λ ps. unless_empty ps make)

  -- What the metric of a series is made of.
  pub record Exported (series : SeriesMap K S) (metric : M) : Type 0 where
    pub start : ℕ
    pub points : List P
    pub starts : start? ≡ ok start
    pub are_points : Pairwise (IsPoint (point start)) (taken series) points
    pub some_point : points ≢ []
    pub made : make points ≡ ok metric

  Exported-wire :
      (series : SeriesMap K S) (metric : M)
      → wire series ≡ ok (some metric)
      → Exported series metric
  Exported-wire [] metric h = absurd (ground arith)
  Exported-wire (x ∷ more) metric h = elim (Result-cases start?) [
    | inr (bad, e) ↦ absurd (ground (arith, (rw e at h)))
    | inl (n, e) ↦ elim (Result-cases (series_points (point n) (x ∷ more))) [
      | inr (bad, e') ↦ absurd (ground (arith, (rw (e, e') at h)))
      | inl ([], e') ↦ absurd (ground (arith, (rw (e, e') at h)))
      | inl (p ∷ ps, e') ↦ elim (Result-cases (make (p ∷ ps))) [
        | inr (bad, e'') ↦ absurd (ground (arith, (rw (e, e', e'') at h)))
        | inl (m, e'') ↦ record {
          start = n;
          points = p ∷ ps;
          starts = e;
          are_points = (series_points_iff (point n) (x ∷ more) (p ∷ ps)).0 e';
          some_point = λ k. cc;
          made = e'' ∙ ap ok (ground (arith, (rw (e, e', e'') at h)));
        }
      ]
    ]
  ]

  wire-points :
      (series : SeriesMap K S) (metric : M) (n : ℕ) (ps : List P)
      → start? ≡ ok n
      → Pairwise (IsPoint (point n)) (taken series) ps
      → ps ≢ []
      → make ps ≡ ok metric
      → wire series ≡ ok (some metric)
  wire-points series metric n [] starts are some_point made = absurd (some_point refl)
  wire-points [] metric n (p ∷ ps) starts are some_point made = elim are [ ]
  wire-points (x ∷ more) metric n (p ∷ ps) starts are some_point made =
      rw (starts, (series_points_iff (point n) (x ∷ more) (p ∷ ps)).1 are, made) refl

  pub wire_iff :
      (series : SeriesMap K S) (metric : M)
      → (wire series ≡ ok (some metric)) ↔ Exported series metric
  wire_iff series metric = (
    Exported-wire series metric,
    λ x. wire-points series metric x.start x.points x.starts x.are_points x.some_point x.made,
  )
