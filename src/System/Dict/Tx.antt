-- ===== src/System/Dict/Tx.antt =====
-- The bodies of the transactions of dict.go.
use snowgo.Prelude.{ℕ, String, not, List, [], ◌∷◌, none, str_eq, if◌then◌else◌}
use snowgo.Xerror.{
  Code, Error, biz, wrapped, is_duplicate_key_err, dict_code_exist_error,
  dict_code_item_exist_error,
}
use snowgo.Extern.{Env}
use snowgo.Dal.Model.{
  SysDict, SysDictItem, SysOperationLog, Snapshot, null, of_dict, of_dict_item, Action, create,
  update, delete, lit, num, Resource, dict, dict_item, Segment,
}
use snowgo.Dal.Tx.{T, pure, ◌>>=◌, ◌>>◌, on_error, when}
use snowgo.Dao.Dict
use snowgo.Account.Types.{UserContext}
use snowgo.Account.Log.{create_operation_log}
use snowgo.System.Dict.Types.{DictParam, DictItemParam}

-- A conflict on a unique index is the business error.
abbrev pub conflict_as : Code → String → Error → Error
conflict_as code msg e = if is_duplicate_key_err e then biz code else wrapped msg e

abbrev pub dict_log :
    UserContext → Resource → ℕ → Action → Snapshot → Snapshot → List Segment → SysOperationLog
dict_log u resource id action before after description = record {
  operator_id = u.user_id;
  operator_name = u.username;
  resource = resource;
  resource_id = id;
  action = action;
  trace_id = u.trace_id;
  before_data = before;
  after_data = after;
  description = lit "用户(" ∷ num u.user_id ∷ lit "-" ∷ lit u.username ∷ description;
  ip = u.ip;
}

abbrev pub dict_row : ℕ → DictParam → SysDict
dict_row id p = record { id = id; code = p.code; name = p.name; description = p.description }

abbrev pub dict_created_log : UserContext → SysDict → SysOperationLog
dict_created_log u row =
    dict_log u dict row.id create null (of_dict row)
      (lit ")创建了字典(" ∷ num row.id ∷ lit "-" ∷ lit row.code ∷ lit ")" ∷ [])

unfoldable pub create_dict_body : UserContext → DictParam → T SysDict
create_dict_body u p = do
  row ← on_error (Dict.create_dict (dict_row 0 p)) (conflict_as dict_code_exist_error "字典创建失败")
  on_error (create_operation_log (dict_created_log u row)) (wrapped "操作日志创建失败")
  pure row

abbrev pub dict_updated_log : UserContext → DictParam → SysDict → SysDict → SysOperationLog
dict_updated_log u p old_dict row =
    dict_log u dict p.id update (of_dict old_dict) (of_dict row)
      (lit ")修改了字典(" ∷ num p.id ∷ lit "-" ∷ lit p.code ∷ lit ")信息" ∷ [])

-- The items carry the code of their dictionary.
unfoldable pub recode_items : DictParam → SysDict → T (Unit {0})
recode_items p old_dict =
    when (not (str_eq old_dict.code p.code))
      (on_error (Dict.update_item_by_dict_id p.id p.code) (wrapped "字典枚举更新失败"))

unfoldable pub update_dict_body : Env → UserContext → DictParam → SysDict → T (Unit {0})
update_dict_body env u p old_dict = do
  row ←
      on_error (Dict.update_dict env (dict_row p.id p)) (conflict_as dict_code_exist_error "字典更新失败")
  recode_items p old_dict
  on_error (create_operation_log (dict_updated_log u p old_dict row)) (wrapped "操作日志创建失败")

abbrev pub dict_deleted_log : UserContext → ℕ → SysDict → SysOperationLog
dict_deleted_log u id row =
    dict_log u dict id delete (of_dict row) null
      (lit ")删除了字典(" ∷ num id ∷ lit "-" ∷ lit row.code ∷ lit ")" ∷ [])

unfoldable pub delete_dict_body : UserContext → ℕ → SysDict → T (Unit {0})
delete_dict_body u id row = do
  on_error (Dict.delete_item_by_dict_id id) (wrapped "字典枚举删除失败")
  on_error (Dict.delete_by_id id) (wrapped "字典删除失败")
  on_error (create_operation_log (dict_deleted_log u id row)) (wrapped "操作日志创建失败")

-- The status of the parameter is not taken over.
abbrev pub new_item : SysDict → DictItemParam → SysDictItem
new_item row p = record {
  id = 0;
  dict_id = row.id;
  dict_code = row.code;
  item_name = p.item_name;
  item_code = p.item_code;
  status = none;
  sort_order = p.sort_order;
  description = p.description;
}

abbrev pub item_created_log : UserContext → SysDict → SysDictItem → SysOperationLog
item_created_log u row item = dict_log u dict_item item.id create null (of_dict_item item) (
    lit ")在字典("
    ∷ num row.id
    ∷ lit ")创建了item("
    ∷ num item.id
    ∷ lit "-"
    ∷ lit item.item_code
    ∷ lit ")"
    ∷ [])

unfoldable pub create_item_body : UserContext → DictItemParam → SysDict → T SysDictItem
create_item_body u p row = do
  item ←
      on_error (Dict.create_dict_item (new_item row p))
        (conflict_as dict_code_item_exist_error "字典item创建失败")
  on_error (create_operation_log (item_created_log u row item)) (wrapped "操作日志创建失败")
  pure item

abbrev pub changed_item : SysDictItem → DictItemParam → SysDictItem
changed_item old_item p = record {
  id = p.id;
  dict_id = old_item.dict_id;
  dict_code = old_item.dict_code;
  item_name = p.item_name;
  item_code = p.item_code;
  status = p.status;
  sort_order = p.sort_order;
  description = p.description;
}

abbrev pub item_updated_log :
    UserContext → DictItemParam → SysDictItem → SysDictItem → SysOperationLog
item_updated_log u p old_item item =
    dict_log u dict_item p.id update (of_dict_item old_item) (of_dict_item item)
      (lit ")修改了字典item(" ∷ num p.id ∷ lit "-" ∷ lit p.item_code ∷ lit ")信息" ∷ [])

unfoldable pub update_item_body : Env → UserContext → DictItemParam → SysDictItem → T (Unit {0})
update_item_body env u p old_item = do
  item ←
      on_error (Dict.update_dict_item env (changed_item old_item p))
        (conflict_as dict_code_item_exist_error "字典item更新失败")
  on_error (create_operation_log (item_updated_log u p old_item item)) (wrapped "操作日志创建失败")

abbrev pub item_deleted_log : UserContext → ℕ → SysDictItem → SysOperationLog
item_deleted_log u id item =
    dict_log u dict_item id delete (of_dict_item item) null
      (lit ")删除了字典item(" ∷ num id ∷ lit "-" ∷ lit item.item_code ∷ lit ")" ∷ [])

unfoldable pub delete_item_body : UserContext → ℕ → SysDictItem → T (Unit {0})
delete_item_body u id item = do
  on_error (Dict.delete_item_by_id id) (wrapped "字典枚举删除失败")
  on_error (create_operation_log (item_deleted_log u id item)) (wrapped "操作日志创建失败")
