-- ===== src/Account/Role.antt =====
-- internal/service/admin/account/role.go: RoleService. Times, logging and
-- lists of roles are left out.
pub mod Tx
pub mod Effects
use snowgo.Prelude.{
  ℕ, Bool, true, false, List, [], ◌∷◌, map, Option, none, some, ltb, ◌==◌, ◌&&◌, not, if◌then◌else◌,
  length, String, str_eq,
}
use snowgo.Xerror.{
  Error, biz, wrapped, is_record_not_found, http_forbidden, role_code_exist, role_id_invalid,
  role_not_found, super_admin_role_cannot_delete, Result, ok, err,
}
use snowgo.Dal.Model.{SysRole, SysMenu, MenuType, dir, menu, btn}
use snowgo.Extern.{Env}
use snowgo.Dao.Role.{super_admin_role_id}
use snowgo.Dao.Role
use snowgo.Account.Types.{
  UserContext, RoleParam, MenuData, CacheValue, role_menu, role_ids, menus, forest, other,
}
use snowgo.Account.Runtime.{
  M, pure, fail, ◌>>=◌, ◌>>◌, on_error, refuse_if, read, transaction, cache_get, cache_set,
  cache_delete,
}
use snowgo.Account.Context.{get_user_context, deref_or_zero, not_found_as}
use Tx.{create_role_body, update_role_body, delete_role_body}

unfoldable pub create_role : Option UserContext → RoleParam → M ℕ
create_role ctx p = do
  u ← get_user_context ctx
  exists ← on_error (read (Role.is_code_exists p.code 0)) (wrapped "校验角色编码失败")
  refuse_if exists (biz role_code_exist)
  role_obj ← transaction (create_role_body u p)
  pure role_obj.id

unfoldable pub update_role : Env → Option UserContext → RoleParam → M (Unit {0})
update_role env ctx p = do
  u ← get_user_context ctx
  refuse_if (p.id == 0) (biz role_id_invalid)
  is_duplicate ← on_error (read (Role.is_code_exists p.code p.id)) (wrapped "查询角色 code 是否存在异常")
  refuse_if is_duplicate (biz role_code_exist)
  old_role ← on_error (read (Role.get_role_by_id p.id)) (λ _. biz role_not_found)
  transaction (update_role_body env u p old_role)
  cache_delete (role_menu p.id)
  pure tt

unfoldable pub delete_role : Option UserContext → ℕ → M (Unit {0})
delete_role ctx id = do
  u ← get_user_context ctx
  refuse_if (id == 0) (biz role_id_invalid)
  refuse_if (id == super_admin_role_id) (biz super_admin_role_cannot_delete)
  old_role ← on_error (read (Role.get_role_by_id id)) (not_found_as (biz role_not_found) "获取角色信息失败")
  transaction (delete_role_body u id old_role)
  cache_delete (role_menu id)
  pure tt

abbrev pub menu_data : SysMenu → MenuData
menu_data m = record {
  id = m.id;
  parent_id = m.parent_id;
  menu_type = m.menu_type;
  name = m.name;
  path = deref_or_zero m.path;
  icon = deref_or_zero m.icon;
  perms = deref_or_zero m.perms;
  sort_order = m.sort_order;
}

-- A text of the cache that encoding/json reads as a list of MenuData.
abbrev pub unmarshal_menus : Result (Option CacheValue) → Option (List MenuData)
unmarshal_menus (ok (some (menus ms))) = some ms
unmarshal_menus _ = none

unfoldable pub load_role_menus : ℕ → M (List MenuData)
load_role_menus role_id = do
  menu_list ← read (Role.get_menu_list_by_role_id role_id)
  let data_list = map menu_data menu_list
  cache_set (role_menu role_id) (menus data_list)
  pure data_list

-- GetRoleMenuListByRuleID: from the cache, and from the tables if it is not there.
unfoldable pub get_role_menu_list_by_rule_id : ℕ → M (List MenuData)
unfolding load_role_menus
get_role_menu_list_by_rule_id role_id = do
  cached ← cache_get (role_menu role_id)
  elim (unmarshal_menus cached) [ some ms ↦ pure ms | none ↦ load_role_menus role_id ]

abbrev pub is_btn : MenuType → Bool
is_btn btn = true
is_btn _ = false

-- The permissions of the buttons among the menus.
abbrev pub button_perms : List MenuData → List String
button_perms [] = []
button_perms (m ∷ ms) =
    let rest = button_perms ms in
    if is_btn m.menu_type && not (str_eq m.perms "") then m.perms ∷ rest else rest

unfoldable pub get_role_perms_list_by_rule_id : ℕ → M (List String)
get_role_perms_list_by_rule_id role_id = do
  refuse_if (role_id == 0) (biz role_id_invalid)
  menu_list ← get_role_menu_list_by_rule_id role_id
  pure (button_perms menu_list)
