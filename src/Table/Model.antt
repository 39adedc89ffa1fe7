-- ===== src/Table/Model.antt =====
-- A list of entries meets the laws of the table.
use mathlib.Core.List.Permᴰ
use ohnotel.Base.{ℕ, refl, List, [], ◌∷◌}
use ohnotel.Table.Defs.{HashTable}
use ohnotel.Table.Items.{first_match, modify_match, remove_match, retain_items}

abbrev pub list_table : (E : Type 0) → HashTable E
list_table E = record {
  Table = List (ℕ × E);
  items = λ t. t;
  new = [];
  clear = λ t. [];
  find = first_match;
  insert = λ h e t. (h, e) ∷ t;
  modify = modify_match;
  remove = remove_match;
  retain = λ S f t s. retain_items f t s;
  items-new = refl;
  items-clear = λ t. refl;
  find_items = λ h p t c. refl;
  items-insert = λ h e t. Permᴰ.refl _;
  items-modify = λ h p f t c. refl;
  items-remove = λ h p t c. Permᴰ.refl _;
  items-retain = λ S f t s. Permᴰ.refl _;
  state-retain = λ S f t s. refl;
}
