-- ===== src/System/Dict/Consistency.antt =====
-- What the dictionary tables keep to. No foreign key ties an item to its dictionary, and an item
-- repeats its dictionary's code: the service keeps both in step.
pub mod Rows
pub mod Items
pub mod Step
pub mod Preserved
pub mod Runs
use snowgo.Prelude.{
  ℕ, ◌≡◌, Bool, true, false, ◌&&◌, ◌==◌, List, [], ◌∷◌, any, map, All, String, str_eq,
}
use snowgo.Dal.Model.{SysDict, SysDictItem}
use snowgo.Dal.Tx.{Db}
use snowgo.Account.Consistency.{AreIds}

-- There is a dictionary with this id and this code.
abbrev pub has_dict : List SysDict → ℕ → String → Bool
has_dict rows id code = any (λ x. x.id == id && str_eq x.code code) rows

-- Every item names a dictionary that is there, with the code that the dictionary has.
abbrev pub AreInStep : List SysDict → List SysDictItem → Type 0
AreInStep rows items = All (λ i. has_dict rows i.dict_id i.dict_code ≡ true) items

-- No two dictionaries have the same code.
abbrev pub AreCodesDistinct : List SysDict → Type 0
AreCodesDistinct [] = Unit
AreCodesDistinct (x ∷ xs) = (any (λ y. str_eq y.code x.code) xs ≡ false) × AreCodesDistinct xs

abbrev pub dict_ids : List SysDict → List ℕ
dict_ids rows = map (λ x. x.id) rows

abbrev pub item_ids : List SysDictItem → List ℕ
item_ids rows = map (λ i. i.id) rows

pub record IsDictConsistent (d : Db) : Type 0 where
  pub dicts : AreIds d.next_dict (dict_ids d.dicts)
  pub items : AreIds d.next_dict_item (item_ids d.dict_items)
  pub codes : AreCodesDistinct d.dicts
  pub in_step : AreInStep d.dicts d.dict_items
