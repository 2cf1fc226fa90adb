-- ===== src/System/Dict/Effects.antt =====
-- The transactions of dict.go do what Dict/Changes asks of them.
use snowgo.Prelude.{ℕ, ◌≡◌, arith, ◌⊎◌, str_eq, true, false}
use snowgo.Xerror.{ok}
use snowgo.Extern.{Env}
use snowgo.Dal.Model.{SysDict, SysDictItem}
use snowgo.Dal.Tx.{Db, Tx}
use snowgo.Dao.Dict.{get_dict_by_id, get_dict_item_by_id, recoded_items}
use snowgo.Dao.Dict.Effects.{
  create_dict-eq-ok, update_dict-eq-ok, delete_by_id-eq-ok, delete_item_by_dict_id-eq-ok,
  update_item_by_dict_id-eq-ok, create_dict_item-eq-ok, update_dict_item-eq-ok,
  delete_item_by_id-eq-ok,
}
use snowgo.Account.Types.{UserContext}
use snowgo.Account.Log.{create_operation_log-eq-ok}
use snowgo.System.Dict.Types.{DictParam, DictItemParam}
use snowgo.System.Dict.Tx.{
  create_dict_body, recode_items, update_dict_body, delete_dict_body, create_item_body,
  update_item_body, delete_item_body,
}
use snowgo.System.Dict.Changes.{
  DictCreated, DictUpdated, DictDeleted, ItemCreated, ItemUpdated, ItemDeleted,
}

recode_items-eq-ok :
    (p : DictParam) (old : SysDict) (t : Tx) {x : Unit {0} × Tx}
    → recode_items p old t ≡ ok x
    → (((str_eq old.code p.code ≡ true) × (x.1.db.dict_items ≡ t.db.dict_items))
        ⊎ ((str_eq old.code p.code ≡ false)
            × (recoded_items p.id p.code t.db.dict_items ≡ ok x.1.db.dict_items)))
      × (x.1.db ≡ record (t.db) { dict_items = x.1.db.dict_items })
unfolding recode_items
recode_items-eq-ok p old t h = grind (arith, update_item_by_dict_id-eq-ok)

ruleset dict_steps = (
  create_dict-eq-ok, update_dict-eq-ok, delete_by_id-eq-ok, delete_item_by_dict_id-eq-ok,
  recode_items-eq-ok, create_dict_item-eq-ok, update_dict_item-eq-ok, delete_item_by_id-eq-ok,
  create_operation_log-eq-ok,
)

module _ (u : UserContext) where
  pub create_dict_body-DictCreated :
      (p : DictParam) (t : Tx) {x : SysDict × Tx}
      → create_dict_body u p t ≡ ok x
      → DictCreated u p t.db x.1.db
  unfolding create_dict_body
  create_dict_body-DictCreated p t h = record {
    code_free = grind (arith, dict_steps);
    result = grind (arith, dict_steps);
  }

  pub delete_dict_body-DictDeleted :
      (id : ℕ) (old : SysDict) (r : Db) (t : Tx) {x : Unit {0} × Tx}
      → get_dict_by_id id r ≡ ok old
      → delete_dict_body u id old t ≡ ok x
      → DictDeleted u id r t.db x.1.db
  unfolding delete_dict_body
  delete_dict_body-DictDeleted id old r t found h = record {
    old = old;
    found = found;
    result = grind (arith, dict_steps);
  }

  pub create_item_body-ItemCreated :
      (p : DictItemParam) (dict : SysDict) (r : Db) (t : Tx) {x : SysDictItem × Tx}
      → get_dict_by_id p.dict_id r ≡ ok dict
      → create_item_body u p dict t ≡ ok x
      → ItemCreated u p r t.db x.1.db
  unfolding create_item_body
  create_item_body-ItemCreated p dict r t found h = record {
    dict = dict;
    found = found;
    code_free = grind (arith, dict_steps);
    result = grind (arith, dict_steps);
  }

  pub delete_item_body-ItemDeleted :
      (id : ℕ) (old : SysDictItem) (r : Db) (t : Tx) {x : Unit {0} × Tx}
      → get_dict_item_by_id id r ≡ ok old
      → delete_item_body u id old t ≡ ok x
      → ItemDeleted u id r t.db x.1.db
  unfolding delete_item_body
  delete_item_body-ItemDeleted id old r t found h = record {
    old = old;
    found = found;
    result = grind (arith, dict_steps);
  }

  module _ (env : Env) where
    pub update_dict_body-DictUpdated :
        (p : DictParam) (old : SysDict) (r : Db) (t : Tx) {x : Unit {0} × Tx}
        → get_dict_by_id p.id r ≡ ok old
        → update_dict_body env u p old t ≡ ok x
        → DictUpdated env u p r t.db x.1.db
    unfolding update_dict_body
    update_dict_body-DictUpdated p old r t found h = record {
      old = old;
      found = found;
      saved = grind (arith, dict_steps);
      recoded = grind (arith, dict_steps);
      result = grind (arith, dict_steps);
    }

    pub update_item_body-ItemUpdated :
        (p : DictItemParam) (old : SysDictItem) (r : Db) (t : Tx) {x : Unit {0} × Tx}
        → get_dict_item_by_id p.id r ≡ ok old
        → update_item_body env u p old t ≡ ok x
        → ItemUpdated env u p r t.db x.1.db
    unfolding update_item_body
    update_item_body-ItemUpdated p old r t found h = record {
      old = old;
      found = found;
      saved = grind (arith, dict_steps);
      result = grind (arith, dict_steps);
    }
