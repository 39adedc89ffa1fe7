-- ===== src/Tests/Maps.antt =====
-- Witnesses for the attribute lists, the fingerprints and the bucket map.
use ohnotel.Base.{
  ℕ, ◌+◌, ◌≡◌, ◌↔◌, refl, Bool, true, false, List, [], ◌∷◌, none, some, ok, if◌then◌else◌,
}
use ohnotel.Attrs.{normalize, sort, dedup, insert, eq_attrs, is_sorted, has}
use ohnotel.Attrs.Normal.{normalize_iff_same_items}
use ohnotel.Fingerprint.{commutative_hash, table_hash}
use ohnotel.Table.Items.{first_match}
use ohnotel.Atomic.Integers.{u64, recording, scalar, wrapping_add}
use ohnotel.BucketMap.State.{CanonicalEntry, with_storage}
use ohnotel.BucketMap.Inv.{Inv, NoCollision, entries_of, bucket_for}
use ohnotel.BucketMap.Lookup.{
  get_or_create, get_bucket, find_bucket, lookup_dup, lookup_canon, create, insert_canon,
  insert_dup,
}
use ohnotel.BucketMap.Ops.{record_with, get, take, visit_bucket}
use ohnotel.BucketMap.Find.{get_bucket_sound}
use ohnotel.BucketMap.Insert.{HasBucket}
use ohnotel.BucketMap.Create.{get_or_create_lem}
use ohnotel.BucketMap.Contents.{record_with-Inv, record_with-view, get-record_with, view, or_init}
use ohnotel.BucketMap.Drain.{with_storage-Inv, take_lem}
use ohnotel.BucketMap.Visit.{visit_bucket_lem, seen}
use ohnotel.Model.Lexicographic.{number_order}
use ohnotel.Tests.{params, fresh_map, used_map}

fresh-NoCollision : (attrs : List ℕ) → NoCollision fresh_map attrs
unfolding with_storage
fresh-NoCollision attrs = tt

pub used-Inv : Inv used_map
used-Inv = record_with-Inv with_storage-Inv.0 (wrapping_add 5) (2 ∷ 1 ∷ []) (fresh-NoCollision _)

used-NoCollision : NoCollision used_map (2 ∷ 1 ∷ [])
unfolding with_storage record_with get_or_create get_bucket find_bucket lookup_dup lookup_canon
    commutative_hash table_hash is_sorted create insert_canon insert_dup normalize sort dedup insert
    eq_attrs first_match
used-NoCollision = (λ _. refl, tt)

get_or_create_example :
    HasBucket used_map (normalize (2 ∷ 1 ∷ [])) (get_or_create (2 ∷ 1 ∷ []) used_map)
    × (get_bucket (2 ∷ 1 ∷ []) (get_or_create (2 ∷ 1 ∷ []) used_map).0
        ≡ ok (get_or_create (2 ∷ 1 ∷ []) used_map).1)
get_or_create_example = get_or_create_lem used-Inv 2 (1 ∷ []) used-NoCollision

record_with-view_example :
    view (record_with (wrapping_add 7) (2 ∷ 1 ∷ []) used_map) (1 ∷ 2 ∷ []) ≡ (
      if eq_attrs (normalize {K = ℕ} (2 ∷ 1 ∷ [])) (1 ∷ 2 ∷ [])
      then some (wrapping_add 7 (or_init params (view used_map (normalize (2 ∷ 1 ∷ [])))))
      else view used_map (1 ∷ 2 ∷ []))
record_with-view_example =
    record_with-view used-Inv (wrapping_add 7) 2 (1 ∷ []) used-NoCollision (1 ∷ 2 ∷ [])

record_with-Inv_example : Inv (record_with (wrapping_add 7) (2 ∷ 1 ∷ []) used_map)
record_with-Inv_example = record_with-Inv used-Inv (wrapping_add 7) (2 ∷ 1 ∷ []) used-NoCollision

get-record_with_example :
    get (scalar u64) (2 ∷ 1 ∷ []) (record_with (wrapping_add 7) (2 ∷ 1 ∷ []) used_map)
    ≡ some (wrapping_add 7 (or_init params (view used_map (normalize (2 ∷ 1 ∷ [])))))
get-record_with_example =
    get-record_with (scalar u64) used-Inv (wrapping_add 7) 2 (1 ∷ []) used-NoCollision

get_bucket_sound_example : bucket_for used_map (normalize (2 ∷ 1 ∷ [])) ≡ some 1
unfolding with_storage record_with get_or_create get_bucket find_bucket lookup_dup lookup_canon
    commutative_hash table_hash is_sorted create insert_canon insert_dup normalize sort dedup insert
    eq_attrs first_match
get_bucket_sound_example = get_bucket_sound used-Inv 2 (1 ∷ []) 1 used-NoCollision refl

take_example :
    Inv (take (recording u64) used_map).0
    × (params.canon.items (take (recording u64) used_map).1.0 ≡ entries_of used_map)
    × ((take (recording u64) used_map).1.1
        ≡ (if used_map.no_attr_touched then some (used_map.heap.cell 0) else none))
    × ((k : List ℕ) → bucket_for (take (recording u64) used_map).0 k ≡ none)
    × ((take (recording u64) used_map).0.heap.cell 0 ≡ 0)
    × ((take (recording u64) used_map).0.no_attr_touched ≡ false)
take_example = take_lem (recording u64) used-Inv

normalize_iff_example :
    (normalize {K = ℕ} (2 ∷ 1 ∷ 2 ∷ []) ≡ normalize (1 ∷ 2 ∷ []))
    ↔ ((k : ℕ) → has k (2 ∷ 1 ∷ 2 ∷ []) ≡ has k (1 ∷ 2 ∷ []))
normalize_iff_example = normalize_iff_same_items (2 ∷ 1 ∷ 2 ∷ []) (1 ∷ 2 ∷ [])

-- A callback that keeps every entry and counts its calls.
abbrev counting : CanonicalEntry ℕ → ℕ → ℕ → Bool × ℕ
counting e a n = (true, n + 1)

visit_bucket_example :
    Inv (visit_bucket (recording u64) counting used_map 0).0
    × ((k : List ℕ)
        → bucket_for (visit_bucket (recording u64) counting used_map 0).0 k ≡ bucket_for used_map k)
    × ((visit_bucket (recording u64) counting used_map 0).0.heap ≡ used_map.heap)
    × ((visit_bucket (recording u64) counting used_map 0).0.count ≡ used_map.count)
    × ((visit_bucket (recording u64) counting used_map 0).0.no_attr_touched
        ≡ used_map.no_attr_touched)
    × ((visit_bucket (recording u64) counting used_map 0).1 ≡ seen counting used_map 0)
visit_bucket_example = visit_bucket_lem counting (λ e a c. refl) (recording u64) used-Inv 0
