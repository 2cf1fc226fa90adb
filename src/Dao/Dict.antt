-- ===== src/Dao/Dict.antt =====
-- internal/dao/admin/system/dict.go: DictDao. The list of dictionaries and its scopes are left out.
pub mod Effects
use snowgo.Prelude.{
  ℕ, ◌+◌, Bool, true, false, not, ◌&&◌, ◌||◌, List, [], ◌∷◌, map, Option, none, some, ltb, ◌==◌,
  if◌then◌else◌, String, str_eq, any, filter,
}
use snowgo.Xerror.{plain, mysql, Result, ok, err}
use snowgo.Dal.Model.{SysDict, SysDictItem}
use snowgo.Dal.Tx.{Db, T, fail, branch, exec}
use snowgo.Extern.{Env}
use snowgo.Dao.Role.{first}

unfoldable pub get_dict_by_id : ℕ → Db → Result SysDict
get_dict_by_id dict_id d =
    if dict_id == 0 then err (plain "字典id不存在") else first (λ r. r.id == dict_id) d.dicts

abbrev pub is_other_than : ℕ → ℕ → Bool
is_other_than excluded id = if ltb 0 excluded then not (id == excluded) else true

unfoldable pub is_code_duplicate : String → ℕ → Db → Result Bool
is_code_duplicate code dict_id d =
    ok (any (λ r. str_eq r.code code && is_other_than dict_id r.id) d.dicts)

-- CreateDict: INSERT under the unique key uk_code.
unfoldable pub create_dict : SysDict → T SysDict
create_dict dict = exec λ d.
    if any (λ r. str_eq r.code dict.code) d.dicts
    then err (mysql 1062)
    else let row = record dict { id = d.next_dict } in
      ok (row, record d { dicts = row ∷ d.dicts; next_dict = d.next_dict + 1 })

-- The rows after UpdateDict's Save, under the unique key.
unfoldable pub saved_dicts : Env → SysDict → List SysDict → Result (List SysDict)
saved_dicts env dict rows =
    if any (λ r. r.id == dict.id) rows
    then if any (λ r. str_eq r.code dict.code && not (r.id == dict.id)) rows
      then err (mysql 1062)
      else ok (map (λ r. if r.id == dict.id then dict else r) rows)
    else env.save_missing_dict dict rows

unfoldable pub update_dict : Env → SysDict → T SysDict
update_dict env dict = branch (dict.id == 0) (fail (plain "字典id不存在")) (
    exec λ d. elim (saved_dicts env dict d.dicts) [
      | ok rows ↦ ok (dict, record d { dicts = rows })
      | err e ↦ err e
    ])

unfoldable pub delete_by_id : ℕ → T (Unit {0})
delete_by_id id =
    branch (id == 0) (fail (plain "字典id不存在"))
      (exec λ d. ok (tt, record d { dicts = filter (λ r. not (r.id == id)) d.dicts }))

unfoldable pub delete_item_by_dict_id : ℕ → T (Unit {0})
delete_item_by_dict_id dict_id = branch (dict_id == 0) (fail (plain "字典id不存在")) (
    exec
      λ d. ok (tt, record d { dict_items = filter (λ r. not (r.dict_id == dict_id)) d.dict_items }))

-- The unique key uk_dict_item.
abbrev pub same_item_key : String → String → SysDictItem → Bool
same_item_key dict_code item_code r = str_eq r.dict_code dict_code && str_eq r.item_code item_code

-- Whether another row has the same key.
abbrev pub has_twin : List SysDictItem → SysDictItem → Bool
has_twin rows i = any (λ r. same_item_key i.dict_code i.item_code r && not (r.id == i.id)) rows

abbrev pub recoded : ℕ → String → List SysDictItem → List SysDictItem
recoded dict_id dict_code rows =
    map (λ r. if r.dict_id == dict_id then record r { dict_code = dict_code } else r) rows

-- The rows after UPDATE … SET dict_code WHERE dict_id: a conflict of keys undoes it.
unfoldable pub recoded_items : ℕ → String → List SysDictItem → Result (List SysDictItem)
recoded_items dict_id dict_code rows =
    let changed = recoded dict_id dict_code rows in
    if any (λ r. r.dict_id == dict_id && has_twin changed r) changed
    then err (mysql 1062)
    else ok changed

unfoldable pub update_item_by_dict_id : ℕ → String → T (Unit {0})
update_item_by_dict_id dict_id dict_code = branch (dict_id == 0) (fail (plain "字典id不存在")) (
    exec λ d. elim (recoded_items dict_id dict_code d.dict_items) [
      | ok rows ↦ ok (tt, record d { dict_items = rows })
      | err e ↦ err e
    ])

-- ORDER BY sort_order, id
abbrev pub comes_before : SysDictItem → SysDictItem → Bool
comes_before a b =
    ltb a.sort_order b.sort_order || (a.sort_order == b.sort_order && not (ltb b.id a.id))

abbrev pub insert_ordered : SysDictItem → List SysDictItem → List SysDictItem
insert_ordered a [] = a ∷ []
insert_ordered a (b ∷ bs) =
    let rest = insert_ordered a bs in if comes_before a b then a ∷ b ∷ bs else b ∷ rest

abbrev pub ordered : List SysDictItem → List SysDictItem
ordered [] = []
ordered (r ∷ rs) = insert_ordered r (ordered rs)

unfoldable pub get_item_list_by_dict_code : String → Db → Result (List SysDictItem)
get_item_list_by_dict_code dict_code d =
    if str_eq dict_code ""
    then err (plain "字典code不存在")
    else ok (ordered (filter (λ r. str_eq r.dict_code dict_code) d.dict_items))

unfoldable pub is_code_item_duplicate : ℕ → String → ℕ → Db → Result Bool
is_code_item_duplicate dict_id item_code dict_item_id d = ok (
    any
      (λ r. r.dict_id == dict_id && str_eq r.item_code item_code && is_other_than dict_item_id r.id)
      d.dict_items)

-- The column's default, for a status that is nil.
unfoldable pub or_active : Option String → Option String
or_active none = some "Active"
or_active (some s) = some s

-- CreateDictItem: INSERT.
unfoldable pub create_dict_item : SysDictItem → T SysDictItem
create_dict_item item = exec λ d.
    if any (same_item_key item.dict_code item.item_code) d.dict_items
    then err (mysql 1062)
    else let row = record item { id = d.next_dict_item; status = or_active item.status } in
      ok (row, record d { dict_items = row ∷ d.dict_items; next_dict_item = d.next_dict_item + 1 })

unfoldable pub get_dict_item_by_id : ℕ → Db → Result SysDictItem
get_dict_item_by_id item_id d =
    if item_id == 0 then err (plain "字典item id不存在") else first (λ r. r.id == item_id) d.dict_items

-- The rows after UpdateDictItem's Save.
unfoldable pub saved_dict_items : Env → SysDictItem → List SysDictItem → Result (List SysDictItem)
saved_dict_items env item rows =
    if any (λ r. r.id == item.id) rows
    then if has_twin rows item
      then err (mysql 1062)
      else ok (map (λ r. if r.id == item.id then item else r) rows)
    else env.save_missing_dict_item item rows

unfoldable pub update_dict_item : Env → SysDictItem → T SysDictItem
update_dict_item env item = branch (item.id == 0) (fail (plain "字典item id不存在")) (
    exec λ d.
      let row = record item { status = or_active item.status } in
      elim (saved_dict_items env row d.dict_items) [
        | ok rows ↦ ok (row, record d { dict_items = rows })
        | err e ↦ err e
      ])

unfoldable pub delete_item_by_id : ℕ → T (Unit {0})
delete_item_by_id id =
    branch (id == 0) (fail (plain "字典item id不存在"))
      (exec λ d. ok (tt, record d { dict_items = filter (λ r. not (r.id == id)) d.dict_items }))
