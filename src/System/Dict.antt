-- ===== src/System/Dict.antt =====
-- internal/service/admin/system/dict.go: DictService. Times, logging and GetDictList are left out.
pub mod Types
pub mod Tx
pub mod Changes
pub mod Effects
pub mod Requests
pub mod Handled
pub mod Consistency
pub mod Listing
pub mod Calm
pub mod Coherence
pub mod Audit
mod Tests
use snowgo.Prelude.{ℕ, String, ◌==◌, str_eq, List, map, Option, none, some, true, false}
use snowgo.Xerror.{
  biz, wrapped, dict_code_exist_error, dict_not_found, dict_code_item_exist_error,
  dict_item_not_found, Result, ok, err,
}
use snowgo.Extern.{Env}
use snowgo.Dal.Model.{SysDict, SysDictItem}
use snowgo.Dao.Dict
use snowgo.Account.Types.{UserContext, ItemInfo, CacheValue, dict_items, items}
use snowgo.Account.Runtime.{
  M, World, pure, fail, ◌>>=◌, ◌>>◌, on_error, refuse_if, read, transaction, cache_get, cache_set,
  cache_delete, cache_delete_pair,
}
use snowgo.Account.Context.{get_user_context, not_found_as}
use Types.{DictParam, DictItemParam}
use Tx.{
  create_dict_body, update_dict_body, delete_dict_body, create_item_body, update_item_body,
  delete_item_body,
}

unfoldable pub create_dict : Option UserContext → DictParam → M ℕ
create_dict ctx p = do
  u ← get_user_context ctx
  is_duplicate ← on_error (read (Dict.is_code_duplicate p.code 0)) (wrapped "查询字典编码是否存在异常")
  refuse_if is_duplicate (biz dict_code_exist_error)
  row ← transaction (create_dict_body u p)
  pure row.id

-- The lists under both codes are stale when the code has changed.
unfoldable pub drop_renamed : String → String → M (Unit {0})
drop_renamed old_code new_code = elim (str_eq old_code new_code) [
  | true ↦ pure tt
  | false ↦ do cache_delete_pair (dict_items old_code) (dict_items new_code); pure tt
]

unfoldable pub update_dict : Env → Option UserContext → DictParam → M ℕ
update_dict env ctx p = do
  u ← get_user_context ctx
  refuse_if (p.id == 0) (biz dict_not_found)
  old_dict ←
      on_error (read (Dict.get_dict_by_id p.id)) (not_found_as (biz dict_not_found) "字典信息查询失败")
  is_duplicate ←
      on_error (read (Dict.is_code_duplicate p.code old_dict.id)) (wrapped "查询字典编码是否存在异常")
  refuse_if is_duplicate (biz dict_code_exist_error)
  transaction (update_dict_body env u p old_dict)
  drop_renamed old_dict.code p.code
  pure p.id

unfoldable pub delete_by_id : Option UserContext → ℕ → M (Unit {0})
delete_by_id ctx id = do
  u ← get_user_context ctx
  refuse_if (id == 0) (biz dict_not_found)
  row ← on_error (read (Dict.get_dict_by_id id)) (not_found_as (biz dict_not_found) "字典信息查询失败")
  transaction (delete_dict_body u id row)
  cache_delete (dict_items row.code)
  pure tt

abbrev pub item_info : SysDictItem → ItemInfo
item_info r = record {
  id = r.id;
  item_name = r.item_name;
  item_code = r.item_code;
  status = r.status;
  sort_order = r.sort_order;
  description = r.description;
}

-- The list from the database, which the cache then keeps.
unfoldable pub load_items : String → M (List ItemInfo)
load_items code = do
  item_list ← on_error (read (Dict.get_item_list_by_dict_code code)) (wrapped "系统字典枚举列表查询失败")
  cache_set (dict_items code) (items (map item_info item_list))
  pure (map item_info item_list)

-- What the cache answers, where it is a list of items.
abbrev pub cached_items : Result (Option CacheValue) → Option (List ItemInfo)
cached_items (ok (some (items m))) = some m
cached_items _ = none

abbrev pub or_load : String → Option (List ItemInfo) → M (List ItemInfo)
or_load code (some m) = pure m
or_load code none = load_items code

unfoldable pub get_item_list_by_code : String → M (List ItemInfo)
get_item_list_by_code code = do
  refuse_if (str_eq code "") (biz dict_not_found)
  data_ ← cache_get (dict_items code)
  or_load code (cached_items data_)

unfoldable pub create_item : Option UserContext → DictItemParam → M ℕ
create_item ctx p = do
  u ← get_user_context ctx
  row ←
      on_error (read (Dict.get_dict_by_id p.dict_id)) (not_found_as (biz dict_not_found) "字典信息查询失败")
  is_duplicate ←
      on_error (read (Dict.is_code_item_duplicate row.id p.item_code 0))
        (wrapped "查询字典item编码是否存在异常")
  refuse_if is_duplicate (biz dict_code_item_exist_error)
  item ← transaction (create_item_body u p row)
  cache_delete (dict_items row.code)
  pure item.id

unfoldable pub update_item : Env → Option UserContext → DictItemParam → M ℕ
update_item env ctx p = do
  u ← get_user_context ctx
  refuse_if (p.id == 0) (biz dict_item_not_found)
  old_item ←
      on_error (read (Dict.get_dict_item_by_id p.id))
        (not_found_as (biz dict_item_not_found) "字典item信息查询失败")
  is_duplicate ←
      on_error (read (Dict.is_code_item_duplicate old_item.dict_id p.item_code old_item.id))
        (wrapped "查询字典编码是否存在异常")
  refuse_if is_duplicate (biz dict_code_item_exist_error)
  transaction (update_item_body env u p old_item)
  cache_delete (dict_items old_item.dict_code)
  pure p.id

unfoldable pub delete_item_by_id : Option UserContext → ℕ → M (Unit {0})
delete_item_by_id ctx id = do
  u ← get_user_context ctx
  refuse_if (id == 0) (biz dict_item_not_found)
  item ←
      on_error (read (Dict.get_dict_item_by_id id))
        (not_found_as (biz dict_item_not_found) "字典item信息查询失败")
  transaction (delete_item_body u id item)
  cache_delete (dict_items item.dict_code)
  pure tt
