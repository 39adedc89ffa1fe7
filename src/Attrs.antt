-- ===== src/Attrs.antt =====
-- Attribute lists as src/bucket_map.rs normalises them: `sort_unstable`, `dedup`, `is_sorted`, and
-- slice equality. Over a total order whose equal items are the same item, every sort gives one list.
pub mod Sort
pub mod Dedup
pub mod Normal
use ohnotel.Base.{Bool, true, false, ◌&&◌, List, [], ◌∷◌, ◌≡◌, Ordering, if◌then◌else◌}
use ohnotel.Model.Order.{Ord, is_eq, is_le}

module _ {ℓ} {K : Type ℓ} ⦃o : Ord K⦄ where
  -- `==` of two attributes.
  abbrev pub same : K → K → Bool
  same a b = is_eq (o.cmp a b)

  -- `==` of two slices.
  unfoldable pub eq_attrs : List K → List K → Bool
  eq_attrs [] [] = true
  eq_attrs [] (y ∷ ys) = false
  eq_attrs (x ∷ xs) [] = false
  eq_attrs (x ∷ xs) (y ∷ ys) = same x y && eq_attrs xs ys

  unfoldable pub insert : K → List K → List K
  insert x [] = x ∷ []
  insert x (y ∷ ys) = if is_le (o.cmp x y) then x ∷ y ∷ ys else y ∷ insert x ys

  unfoldable pub sort : List K → List K
  unfolding insert
  sort [] = []
  sort (x ∷ xs) = insert x (sort xs)

  sorted_from : K → List K → Bool
  sorted_from p [] = true
  sorted_from p (x ∷ xs) = is_le (o.cmp p x) && sorted_from x xs

  -- `slice::is_sorted`
  unfoldable pub is_sorted : List K → Bool
  unfolding sorted_from
  is_sorted [] = true
  is_sorted (x ∷ xs) = sorted_from x xs

  -- `p` is the last item that was kept.
  dedup_from : K → List K → List K
  dedup_from p [] = []
  dedup_from p (x ∷ xs) =
      let rest = dedup_from x xs in if same p x then dedup_from p xs else x ∷ rest

  -- `Vec::dedup`: of consecutive equal items the first stays.
  unfoldable pub dedup : List K → List K
  unfolding dedup_from
  dedup [] = []
  dedup (x ∷ xs) = x ∷ dedup_from x xs

  -- The key under which `get_or_create` files a list of attributes.
  unfoldable pub normalize : List K → List K
  unfolding sort dedup
  normalize xs = dedup (sort xs)

  abbrev pub StrictFrom : K → List K → Type 0
  StrictFrom p [] = Unit
  StrictFrom p (x ∷ xs) = (o.cmp p x ≡ Ordering.lt) × StrictFrom x xs

  -- "Entry labels are always sorted and deduplicated": strictly increasing.
  abbrev pub IsCanonical : List K → Type 0
  IsCanonical [] = Unit
  IsCanonical (x ∷ xs) = StrictFrom x xs

  -- Membership, by `==`.
  unfoldable pub has : K → List K → Bool
  has k [] = false
  has k (x ∷ xs) = if same k x then true else has k xs
