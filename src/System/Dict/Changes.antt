-- ===== src/System/Dict/Changes.antt =====
-- What each request of the dictionary service is to do to the tables of the write node when it
-- succeeds: the specification that the service refines. `r` are the tables of the replica, from
-- which the request takes the old row.
use snowgo.Prelude.{ℕ, ◌+◌, ◌≡◌, ◌⊎◌, true, false, not, ◌∷◌, ◌==◌, str_eq, any, filter}
use snowgo.Xerror.{ok}
use snowgo.Extern.{Env}
use snowgo.Dal.Model.{SysDict, SysDictItem}
use snowgo.Dal.Tx.{Db}
use snowgo.Dao.Dict.{
  get_dict_by_id, get_dict_item_by_id, saved_dicts, recoded_items, same_item_key, saved_dict_items,
  or_active,
}
use snowgo.Account.Types.{UserContext}
use snowgo.System.Dict.Types.{DictParam, DictItemParam}
use snowgo.System.Dict.Tx.{
  dict_row, new_item, changed_item, dict_created_log, dict_updated_log, dict_deleted_log,
  item_created_log, item_updated_log, item_deleted_log,
}

pub record DictCreated (u : UserContext) (p : DictParam) (d d' : Db) : Type 0 where
  pub code_free : any (λ x. str_eq x.code p.code) d.dicts ≡ false
  pub result : d' ≡ record d {
    dicts = dict_row d.next_dict p ∷ d.dicts;
    next_dict = d.next_dict + 1;
    operation_logs = dict_created_log u (dict_row d.next_dict p) ∷ d.operation_logs;
  }

pub record DictUpdated (env : Env) (u : UserContext) (p : DictParam) (r d d' : Db) : Type 0 where
  pub old : SysDict
  pub found : get_dict_by_id p.id r ≡ ok old
  pub saved : saved_dicts env (dict_row p.id p) d.dicts ≡ ok d'.dicts
  pub recoded :
      ((str_eq old.code p.code ≡ true) × (d'.dict_items ≡ d.dict_items))
      ⊎ ((str_eq old.code p.code ≡ false)
          × (recoded_items p.id p.code d.dict_items ≡ ok d'.dict_items))
  pub result : d' ≡ record d {
    dicts = d'.dicts;
    dict_items = d'.dict_items;
    operation_logs = dict_updated_log u p old (dict_row p.id p) ∷ d.operation_logs;
  }

pub record DictDeleted (u : UserContext) (id : ℕ) (r d d' : Db) : Type 0 where
  pub old : SysDict
  pub found : get_dict_by_id id r ≡ ok old
  pub result : d' ≡ record d {
    dicts = filter (λ x. not (x.id == id)) d.dicts;
    dict_items = filter (λ i. not (i.dict_id == id)) d.dict_items;
    operation_logs = dict_deleted_log u id old ∷ d.operation_logs;
  }

-- The row that CreateItem inserts.
abbrev pub created_item : ℕ → SysDict → DictItemParam → SysDictItem
created_item id row p = record (new_item row p) {
  id = id;
  status = or_active (new_item row p).status;
}

pub record ItemCreated (u : UserContext) (p : DictItemParam) (r d d' : Db) : Type 0 where
  pub dict : SysDict
  pub found : get_dict_by_id p.dict_id r ≡ ok dict
  pub code_free : any (same_item_key dict.code p.item_code) d.dict_items ≡ false
  pub result : d' ≡ record d {
    dict_items = created_item d.next_dict_item dict p ∷ d.dict_items;
    next_dict_item = d.next_dict_item + 1;
    operation_logs =
        item_created_log u dict (created_item d.next_dict_item dict p) ∷ d.operation_logs;
  }

-- The row that UpdateItem saves.
abbrev pub saved_item : SysDictItem → DictItemParam → SysDictItem
saved_item old p = record (changed_item old p) { status = or_active p.status }

pub record ItemUpdated (env : Env) (u : UserContext) (p : DictItemParam) (r d d' : Db)
    : Type 0 where
  pub old : SysDictItem
  pub found : get_dict_item_by_id p.id r ≡ ok old
  pub saved : saved_dict_items env (saved_item old p) d.dict_items ≡ ok d'.dict_items
  pub result : d' ≡ record d {
    dict_items = d'.dict_items;
    operation_logs = item_updated_log u p old (saved_item old p) ∷ d.operation_logs;
  }

pub record ItemDeleted (u : UserContext) (id : ℕ) (r d d' : Db) : Type 0 where
  pub old : SysDictItem
  pub found : get_dict_item_by_id id r ≡ ok old
  pub result : d' ≡ record d {
    dict_items = filter (λ i. not (i.id == id)) d.dict_items;
    operation_logs = item_deleted_log u id old ∷ d.operation_logs;
  }
