-- ===== src/Table/Defs.antt =====
-- The parameter that stands for `hashbrown::HashTable`: a table holds entries, each filed under a
-- hash, and is searched by a hash and a test. `items` lists them in the order of iteration, which an
-- insertion or a removal may change. The laws are the crate's documented behaviour.

use mathlib.Core.List.{Permᴰ}
use ohnotel.Base.{ℕ, ◌≤◌, ◌≡◌, Bool, List, [], ◌∷◌, Option}
use ohnotel.Table.Items.{count_match, first_match, modify_match, remove_match, retain_items}

pub record HashTable (E : Type 0) : Type 1 where
  pub Table : Type 0
  pub items : Table → List (ℕ × E)
  pub new : Table
  pub clear : Table → Table
  -- `find`, and the look-up of `entry` and `find_entry`
  pub find : ℕ → (E → Bool) → Table → Option E
  -- `VacantEntry::insert`
  pub insert : ℕ → E → Table → Table
  -- a change through `OccupiedEntry::get_mut`
  pub modify : ℕ → (E → Bool) → (E → E) → Table → Table
  -- `OccupiedEntry::remove`
  pub remove : ℕ → (E → Bool) → Table → Table
  -- `retain`, whose closure threads the state that it captures
  pub retain : (S : Type 0) → (E → S → Bool × S) → Table → S → Table × S
  pub items-new : items new ≡ []
  pub items-clear : (t : Table) → items (clear t) ≡ []
  pub find_items :
      (h : ℕ) (p : E → Bool) (t : Table)
      → count_match h p (items t) ≤ 1
      → find h p t ≡ first_match h p (items t)
  pub items-insert : (h : ℕ) (e : E) (t : Table) → Permᴰ ((h, e) ∷ items t) (items (insert h e t))
  pub items-modify :
      (h : ℕ) (p : E → Bool) (f : E → E) (t : Table)
      → count_match h p (items t) ≤ 1
      → items (modify h p f t) ≡ modify_match h p f (items t)
  pub items-remove :
      (h : ℕ) (p : E → Bool) (t : Table)
      → count_match h p (items t) ≤ 1
      → Permᴰ (remove_match h p (items t)) (items (remove h p t))
  pub items-retain :
      (S : Type 0) (f : E → S → Bool × S) (t : Table) (s : S)
      → Permᴰ (retain_items f (items t) s).0 (items (retain S f t s).0)
  pub state-retain :
      (S : Type 0) (f : E → S → Bool × S) (t : Table) (s : S)
      → (retain S f t s).1 ≡ (retain_items f (items t) s).1
