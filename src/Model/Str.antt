-- ===== src/Model/Str.antt =====
-- `Str` of src/model.rs: a text that is borrowed, owned or shared. Equality and order look at the
-- addresses first; they are those of the contents.
use ohnotel.Base.{
  Text, ℕ, ◌+◌, ◌≡◌, ◌↔◌, refl, Bool, true, false, Ordering, [], ◌∷◌, if◌then◌else◌, ◌&&◌, ◌||◌,
  ◌==◌, ltb, arith, Bool-cases, inl, inr,
}
use ohnotel.Model.Lexicographic.{cmp_list, number_order, cmp_list_refl, eq_of_cmp_list}
use ohnotel.Model.Order.{is_eq}

pub data Str : Type 0 where
  -- `Cow::Borrowed`, with the address of the first byte
  borrowed : ℕ → Text → Str
  -- `Cow::Owned`
  owned : Text → Str
  -- `Arc<str>`, with the address of the allocation
  arc_str : ℕ → Text → Str

unfoldable pub as_str : Str → Text
as_str (Str.borrowed a s) = s
as_str (Str.owned s) = s
as_str (Str.arc_str a s) = s

-- The bytes of a code point in UTF-8.
abbrev pub len_utf8 : ℕ → ℕ
len_utf8 c = if ltb c 0x80 then 1 else if ltb c 0x800 then 2 else if ltb c 0x10000 then 3 else 4

-- `str::len`
abbrev pub len : Text → ℕ
len [] = 0
len (c ∷ cs) = len_utf8 c + len cs

unfoldable pub ptr_eq : Str → Str → Bool
ptr_eq (Str.arc_str a s) (Str.arc_str b t) = a == b
ptr_eq (Str.borrowed a s) (Str.borrowed b t) = (a == b) && (len s == len t)
ptr_eq _ _ = false

unfoldable pub eq_str : Str → Str → Bool
unfolding ptr_eq as_str cmp_list
eq_str s t = ptr_eq s t || is_eq (cmp_list (as_str s) (as_str t))

unfoldable pub cmp_str : Str → Str → Ordering
unfolding ptr_eq as_str cmp_list
cmp_str s t = if ptr_eq s t then Ordering.eq else cmp_list (as_str s) (as_str t)

-- The memory is one: what is read at one address and of one length is one text.
abbrev pub OneMemory : Str → Str → Type 0
OneMemory (Str.arc_str a s) (Str.arc_str b t) = a ≡ b → s ≡ t
OneMemory (Str.borrowed a s) (Str.borrowed b t) = a ≡ b → len s ≡ len t → s ≡ t
OneMemory _ _ = Unit

as_str_of_ptr_eq : (s t : Str) → OneMemory s t → ptr_eq s t ≡ true → as_str s ≡ as_str t
unfolding ptr_eq as_str
as_str_of_ptr_eq (Str.arc_str a s) (Str.arc_str b t) one h = one (ground arith)
as_str_of_ptr_eq (Str.borrowed a s) (Str.borrowed b t) one h = one (ground arith) (ground arith)
as_str_of_ptr_eq (Str.owned s) t one h = cc
as_str_of_ptr_eq s (Str.owned t) one h = cc
as_str_of_ptr_eq (Str.arc_str a s) (Str.borrowed b t) one h = cc
as_str_of_ptr_eq (Str.borrowed a s) (Str.arc_str b t) one h = cc

cmp_of_same : (s t : Text) → s ≡ t → cmp_list s t ≡ Ordering.eq
cmp_of_same s t e = rw e (cmp_list_refl t)

-- If equal addresses and lengths mean equal texts, the shortcut by pointers changes nothing:
-- strings compare and are equal as their texts are.
pub cmp_str_lem :
    (s t : Str)
    → OneMemory s t
    → (cmp_str s t ≡ cmp_list (as_str s) (as_str t)) × ((eq_str s t ≡ true) ↔ (as_str s ≡ as_str t))
unfolding cmp_str eq_str
cmp_str_lem s t one =
    let same = cmp_of_same (as_str s) (as_str t) in
    let found = eq_of_cmp_list (as_str s) (as_str t) in
    elim (Bool-cases (ptr_eq s t)) [
      | inl h ↦
          let e = as_str_of_ptr_eq s t one h in rw h (ground (arith, same e), (λ k. e, λ k. refl))
      | inr h ↦ rw h (refl, (λ k. found (ground arith), λ e. rw (same e) refl))
    ]
