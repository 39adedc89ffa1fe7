-- ===== src/Fingerprint.antt =====
-- `AttrFingerprint` of src/bucket_map.rs: a hash of an attribute list that forgets the order. The
-- hasher (`BuildHasher`) is a parameter.
use mathlib.Core.Path.{ap₂}
use Prim.Native.Nat.{bit_xor}
use ohnotel.Base.{
  ℕ, ◌+◌, ◌%◌, ◌^◌, ◌≡◌, refl, sym, ap, ◌∙◌, Bool, true, ◌&&◌, List, [], ◌∷◌, length, arith, ◌==◌,
  Bool-cases, inl, inr,
}
use ohnotel.Base.Bits.{bit_xor_comm, bit_xor_assoc}
use ohnotel.Model.Order.{Ord, is_le}
use ohnotel.Attrs.{insert, sort, normalize}
use ohnotel.Attrs.Sort.{length-sort}
use ohnotel.Attrs.Normal.{normalize_only_sorts}

abbrev pub u64_mod : ℕ
u64_mod = 2 ^ 64

pub record AttrFingerprint : Type 0 where
  pub xor : ℕ
  pub sum : ℕ
  pub len : ℕ

-- `hash_one` of an attribute and of a fingerprint, for the hasher that a map is built with.
pub record BuildHasher {ℓ} (K : Type ℓ) : Type ℓ where
  pub hash_one : K → ℕ
  pub hash_fingerprint : AttrFingerprint → ℕ

-- `==` of two fingerprints.
abbrev pub eq_fingerprint : AttrFingerprint → AttrFingerprint → Bool
eq_fingerprint a b = a.xor == b.xor && (a.sum == b.sum && a.len == b.len)

pub eq_fingerprint_refl : (a : AttrFingerprint) → eq_fingerprint a a ≡ true
eq_fingerprint_refl a = ground arith

pub eq_of_eq_fingerprint : (a b : AttrFingerprint) → eq_fingerprint a b ≡ true → a ≡ b
eq_of_eq_fingerprint a b h = ground arith

module _ {ℓ} {K : Type ℓ} (build : BuildHasher K) where
  -- The loop of `commutative_hash` from the accumulators `xor` and `sum`.
  hash_loop : ℕ → ℕ → List K → ℕ × ℕ
  hash_loop xor sum [] = (xor, sum)
  hash_loop xor sum (kv ∷ kvs) =
      let h = build.hash_one kv in hash_loop (bit_xor xor h) ((sum + h) % u64_mod) kvs

  unfoldable pub commutative_hash : List K → AttrFingerprint
  unfolding hash_loop
  commutative_hash attrs =
      let (x, s) = hash_loop 0 0 attrs in record { xor = x; sum = s; len = length attrs }

  unfoldable pub table_hash : AttrFingerprint → ℕ
  table_hash fp = build.hash_fingerprint fp

module _ {ℓ} {K : Type ℓ} ⦃o : Ord K⦄ (build : BuildHasher K) where
  xor_swap : (x a b : ℕ) → bit_xor (bit_xor x a) b ≡ bit_xor (bit_xor x b) a
  xor_swap x a b =
      bit_xor_assoc x a b ∙ ap (bit_xor x) (bit_xor_comm a b) ∙ sym (bit_xor_assoc x b a)

  sum_swap : (s a b : ℕ) → ((s + a) % u64_mod + b) % u64_mod ≡ ((s + b) % u64_mod + a) % u64_mod
  sum_swap s a b = omega arith

  hash_loop-insert :
      (x : K) (xs : List K) (a b : ℕ)
      → hash_loop build a b (insert x xs) ≡ hash_loop build a b (x ∷ xs)
  unfolding hash_loop insert
  hash_loop-insert x [] a b = refl
  hash_loop-insert x (y ∷ ys) a b =
      let hx = build.hash_one x in
      let hy = build.hash_one y in
      elim (Bool-cases (is_le (o.cmp x y))) [
        | inl e ↦ rw e
        | inr e ↦ rw e (
            hash_loop-insert x ys (bit_xor a hy) ((b + hy) % u64_mod)
            ∙ ap₂ (λ p q. hash_loop build p q ys) (xor_swap a hy hx) (sum_swap b hy hx))
      ]

  hash_loop-sort : (xs : List K) (a b : ℕ) → hash_loop build a b (sort xs) ≡ hash_loop build a b xs
  unfolding hash_loop sort
  hash_loop-sort [] a b = refl
  hash_loop-sort (x ∷ xs) a b = hash_loop-insert x (sort xs) a b ∙ hash_loop-sort xs _ _

  -- The fingerprint of a list is that of the list in any order; `sort` stands for the orders.
  pub commutative_hash-sort :
      (xs : List K) → commutative_hash build (sort xs) ≡ commutative_hash build xs
  unfolding commutative_hash
  commutative_hash-sort xs = simp (hash_loop-sort, length-sort)

  -- If normalising a list keeps its length, it keeps its fingerprint, so that `get_or_create` may
  -- reuse the hash.
  pub commutative_hash-normalize :
      (xs : List K)
      → length (normalize xs) ≡ length xs
      → commutative_hash build (normalize xs) ≡ commutative_hash build xs
  commutative_hash-normalize xs h =
      ap (commutative_hash build) (normalize_only_sorts xs h) ∙ commutative_hash-sort xs
