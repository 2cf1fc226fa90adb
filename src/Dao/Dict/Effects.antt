-- ===== src/Dao/Dict/Effects.antt =====
-- What a statement of DictDao has done when it succeeds.
use snowgo.Prelude.{ℕ, ◌+◌, ◌≡◌, not, ◌∷◌, ◌==◌, filter, arith, String, any, false, str_eq}
use snowgo.Xerror.{ok}
use snowgo.Extern.{Env}
use snowgo.Dal.Model.{SysDict, SysDictItem}
use snowgo.Dal.Tx.{Tx, exec-eq-ok, guarded_exec-eq-ok}
use snowgo.Dao.Dict.{
  create_dict, saved_dicts, update_dict, delete_by_id, delete_item_by_dict_id, recoded_items,
  update_item_by_dict_id, create_dict_item, saved_dict_items, update_dict_item, delete_item_by_id,
  or_active, same_item_key,
}

pub create_dict-eq-ok :
    (dict : SysDict) (t : Tx) {x : SysDict × Tx}
    → create_dict dict t ≡ ok x
    → (x.0 ≡ record dict { id = t.db.next_dict })
      × (any (λ r. str_eq r.code dict.code) t.db.dicts ≡ false)
      × (x.1.db ≡ record (t.db) { dicts = x.0 ∷ t.db.dicts; next_dict = t.db.next_dict + 1 })
unfolding create_dict
create_dict-eq-ok dict t {x} h = let k = exec-eq-ok _ t h in ground arith

pub update_dict-eq-ok :
    (env : Env) (dict : SysDict) (t : Tx) {x : SysDict × Tx}
    → update_dict env dict t ≡ ok x
    → (x.0 ≡ dict)
      × (saved_dicts env dict t.db.dicts ≡ ok x.1.db.dicts)
      × (x.1.db ≡ record (t.db) { dicts = x.1.db.dicts })
unfolding update_dict
update_dict-eq-ok env dict t {x} h = let k = guarded_exec-eq-ok _ _ _ t h in ground arith

pub delete_by_id-eq-ok :
    (id : ℕ) (t : Tx) {x : Unit {0} × Tx}
    → delete_by_id id t ≡ ok x
    → x.1.db ≡ record (t.db) { dicts = filter (λ r. not (r.id == id)) t.db.dicts }
unfolding delete_by_id
delete_by_id-eq-ok id t {x} h = let k = guarded_exec-eq-ok _ _ _ t h in ground arith

pub delete_item_by_dict_id-eq-ok :
    (dict_id : ℕ) (t : Tx) {x : Unit {0} × Tx}
    → delete_item_by_dict_id dict_id t ≡ ok x
    → x.1.db
      ≡ record (t.db) { dict_items = filter (λ r. not (r.dict_id == dict_id)) t.db.dict_items }
unfolding delete_item_by_dict_id
delete_item_by_dict_id-eq-ok dict_id t {x} h = let k = guarded_exec-eq-ok _ _ _ t h in ground arith

pub update_item_by_dict_id-eq-ok :
    (dict_id : ℕ) (dict_code : String) (t : Tx) {x : Unit {0} × Tx}
    → update_item_by_dict_id dict_id dict_code t ≡ ok x
    → (recoded_items dict_id dict_code t.db.dict_items ≡ ok x.1.db.dict_items)
      × (x.1.db ≡ record (t.db) { dict_items = x.1.db.dict_items })
unfolding update_item_by_dict_id
update_item_by_dict_id-eq-ok dict_id dict_code t {x} h =
    let k = guarded_exec-eq-ok _ _ _ t h in ground arith

pub create_dict_item-eq-ok :
    (item : SysDictItem) (t : Tx) {x : SysDictItem × Tx}
    → create_dict_item item t ≡ ok x
    → (x.0 ≡ record item { id = t.db.next_dict_item; status = or_active item.status })
      × (any (same_item_key item.dict_code item.item_code) t.db.dict_items ≡ false)
      × (x.1.db ≡ record (t.db) {
        dict_items = x.0 ∷ t.db.dict_items;
        next_dict_item = t.db.next_dict_item + 1;
      })
unfolding create_dict_item
create_dict_item-eq-ok item t {x} h = let k = exec-eq-ok _ t h in ground arith

pub update_dict_item-eq-ok :
    (env : Env) (item : SysDictItem) (t : Tx) {x : SysDictItem × Tx}
    → update_dict_item env item t ≡ ok x
    → (x.0 ≡ record item { status = or_active item.status })
      × (saved_dict_items env (record item { status = or_active item.status }) t.db.dict_items
          ≡ ok x.1.db.dict_items)
      × (x.1.db ≡ record (t.db) { dict_items = x.1.db.dict_items })
unfolding update_dict_item
update_dict_item-eq-ok env item t {x} h = let k = guarded_exec-eq-ok _ _ _ t h in ground arith

pub delete_item_by_id-eq-ok :
    (id : ℕ) (t : Tx) {x : Unit {0} × Tx}
    → delete_item_by_id id t ≡ ok x
    → x.1.db ≡ record (t.db) { dict_items = filter (λ r. not (r.id == id)) t.db.dict_items }
unfolding delete_item_by_id
delete_item_by_id-eq-ok id t {x} h = let k = guarded_exec-eq-ok _ _ _ t h in ground arith
