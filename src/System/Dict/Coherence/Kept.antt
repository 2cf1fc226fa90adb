-- ===== src/System/Dict/Coherence/Kept.antt =====
-- Which lists of items a change of the tables leaves as they were.
use snowgo.Prelude.{
  ℕ, ◌≡◌, refl, true, false, not, ◌==◌, ==_iff, List, [], ◌∷◌, filter, contains, Distinct, arith,
  String, str_eq, eq_iff,
}
use snowgo.Xerror.{ok}
use snowgo.Dal.Model.{SysDict, SysDictItem}
use snowgo.Dao.Role.{first}
use snowgo.Dao.Dict.{recoded}
use snowgo.System.Dict.Consistency.{AreInStep, dict_ids, item_ids}
use snowgo.System.Dict.Consistency.Rows.{first-code}
use snowgo.System.Dict.Consistency.Items.{replaced_item}

abbrev pub coded : String → List SysDictItem → List SysDictItem
coded code rows = filter (λ r. str_eq r.dict_code code) rows

pub other_code :
    (a b code : String) → str_eq a b ≡ true → str_eq a code ≡ false → str_eq b code ≡ false
other_code a b code e n = grind (arith, eq_iff a b, eq_iff b code, eq_iff a code)

-- No row of these has the id.
unaffected :
    (item : SysDictItem) (rows : List SysDictItem)
    → contains (item_ids rows) item.id ≡ false
    → replaced_item item rows ≡ rows
unaffected item [] n = refl
unaffected item (r ∷ rs) n = grind (arith, unaffected item rs)

undeleted :
    (id : ℕ) (rows : List SysDictItem)
    → contains (item_ids rows) id ≡ false
    → filter (λ r. not (r.id == id)) rows ≡ rows
undeleted id [] n = refl
undeleted id (r ∷ rs) n = grind (arith, undeleted id rs)

-- The Save of an item with the same code.
pub replaced_item-coded :
    (code : String) (item old : SysDictItem) (rows : List SysDictItem)
    → Distinct (item_ids rows)
    → first (λ r. r.id == item.id) rows ≡ ok old
    → str_eq old.dict_code code ≡ false
    → str_eq item.dict_code code ≡ false
    → coded code (replaced_item item rows) ≡ coded code rows
replaced_item-coded code item old [] u f n n' = refl
replaced_item-coded code item old (r ∷ rs) u f n n' =
    grind (arith, replaced_item-coded code item old rs u.1, unaffected item rs, ==_iff r.id item.id)

pub deleted-coded :
    (code : String) (id : ℕ) (old : SysDictItem) (rows : List SysDictItem)
    → Distinct (item_ids rows)
    → first (λ r. r.id == id) rows ≡ ok old
    → str_eq old.dict_code code ≡ false
    → coded code (filter (λ r. not (r.id == id)) rows) ≡ coded code rows
deleted-coded code id old [] u f n = refl
deleted-coded code id old (r ∷ rs) u f n =
    grind (arith, deleted-coded code id old rs u.1, undeleted id rs, ==_iff r.id id)

-- The items of a dictionary have its code.
item_code :
    (id : ℕ) (old : SysDict) (dicts : List SysDict) (r : SysDictItem) (rs : List SysDictItem)
    (code : String)
    → Distinct (dict_ids dicts)
    → first (λ x. x.id == id) dicts ≡ ok old
    → AreInStep dicts (r ∷ rs)
    → (r.dict_id == id) ≡ true
    → str_eq old.code code ≡ false
    → str_eq r.dict_code code ≡ false
item_code id old dicts r rs code u f s e n =
    other_code old.code r.dict_code code
      (grind (arith, first-code id r.dict_code dicts old u f, ==_iff r.dict_id id)) n

pub emptied-coded :
    (code : String) (id : ℕ) (old : SysDict) (dicts : List SysDict) (rows : List SysDictItem)
    → Distinct (dict_ids dicts)
    → first (λ x. x.id == id) dicts ≡ ok old
    → AreInStep dicts rows
    → str_eq old.code code ≡ false
    → coded code (filter (λ r. not (r.dict_id == id)) rows) ≡ coded code rows
emptied-coded code id old dicts [] u f s n = refl
emptied-coded code id old dicts (r ∷ rs) u f s n =
    grind
      (arith, emptied-coded code id old dicts rs u f s.1 n, item_code id old dicts r rs code u f s)

pub recoded-coded :
    (code new : String) (id : ℕ) (old : SysDict) (dicts : List SysDict) (rows : List SysDictItem)
    → Distinct (dict_ids dicts)
    → first (λ x. x.id == id) dicts ≡ ok old
    → AreInStep dicts rows
    → str_eq old.code code ≡ false
    → str_eq new code ≡ false
    → coded code (recoded id new rows) ≡ coded code rows
recoded-coded code new id old dicts [] u f s n n' = refl
recoded-coded code new id old dicts (r ∷ rs) u f s n n' = grind (
  arith,
  recoded-coded code new id old dicts rs u f s.1 n n',
  item_code id old dicts r rs code u f s,
)
