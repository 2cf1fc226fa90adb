-- ===== src/Account/Role/Tx.antt =====
-- The bodies of the transactions of CreateRole, UpdateRole and DeleteRole in role.go.
use snowgo.Prelude.{
  ℕ, Bool, not, List, [], ◌∷◌, map, some, ltb, ◌==◌, if◌then◌else◌, length, all, contains, String,
}
use snowgo.Xerror.{
  Error, biz, wrapped, is_duplicate_key_err, role_code_exist, role_menu_not_exist,
  role_menu_not_authorized, role_used,
}
use snowgo.Dal.Model.{
  SysRole, SysRoleMenu, SysOperationLog, Snapshot, null, of_role, Action, create, update, delete,
  lit, num, role, Segment,
}
use snowgo.Dal.Tx.{T, pure, ◌>>=◌, ◌>>◌, on_error, refuse_if, when}
use snowgo.Extern.{Env}
use snowgo.Dao.Role
use snowgo.Account.Types.{UserContext, RoleParam}
use snowgo.Account.Log.{create_operation_log}

-- `slices.Contains(operatorMenuIds, id)` for every id of the parameter.
abbrev pub are_authorized : List ℕ → List ℕ → Bool
are_authorized operator_menu_ids menu_ids = all (λ id. contains operator_menu_ids id) menu_ids

unfoldable pub check_menus_exist : List ℕ → T (Unit {0})
check_menus_exist menu_ids = do
  menu_len ← on_error (Role.count_menu_by_ids menu_ids) (wrapped "校验设置的菜单失败")
  refuse_if (not (menu_len == length menu_ids)) (biz role_menu_not_exist)

unfoldable pub check_menus_authorized : ℕ → List ℕ → T (Unit {0})
check_menus_authorized user_id menu_ids = do
  operator_menu_ids ← on_error (Role.get_user_menu_ids user_id) (wrapped "校验操作者菜单权限失败")
  refuse_if (not (are_authorized operator_menu_ids menu_ids)) (biz role_menu_not_authorized)

-- `if len(param.MenuIds) > 0 { … }` of CreateRole.
unfoldable pub check_menus : ℕ → List ℕ → T (Unit {0})
unfolding check_menus_exist check_menus_authorized
check_menus user_id menu_ids =
    when (ltb 0 (length menu_ids))
      (do check_menus_exist menu_ids; check_menus_authorized user_id menu_ids)

-- The same of UpdateRole, where the super administrator is not held to their own menus.
unfoldable pub check_menus_unless_admin : ℕ → List ℕ → T (Unit {0})
unfolding check_menus_exist check_menus_authorized
check_menus_unless_admin user_id menu_ids = when (ltb 0 (length menu_ids)) (do
  check_menus_exist menu_ids
  is_super_admin ← on_error (Role.is_super_admin user_id) (wrapped "判断操作者身份失败")
  when (not is_super_admin) (check_menus_authorized user_id menu_ids))

-- Unique index conflicts become the business error.
abbrev pub code_conflict : String → Error → Error
code_conflict msg e = if is_duplicate_key_err e then biz role_code_exist else wrapped msg e

abbrev pub role_menu_rows : ℕ → List ℕ → List SysRoleMenu
role_menu_rows role_id menu_ids = map (λ id. record { role_id = role_id; menu_id = id }) menu_ids

unfoldable pub link_menus : ℕ → List ℕ → T (Unit {0})
link_menus role_id menu_ids =
    when (ltb 0 (length menu_ids))
      (on_error (Role.create_role_menu (role_menu_rows role_id menu_ids)) (wrapped "角色与菜单关联关系创建失败"))

abbrev pub role_log :
    UserContext → ℕ → Action → Snapshot → Snapshot → List Segment → SysOperationLog
role_log u id action before after description = record {
  operator_id = u.user_id;
  operator_name = u.username;
  resource = role;
  resource_id = id;
  action = action;
  trace_id = u.trace_id;
  before_data = before;
  after_data = after;
  description = description;
  ip = u.ip;
}

abbrev pub role_row : ℕ → RoleParam → SysRole
role_row id p = record {
  id = id;
  code = p.code;
  name = some p.name;
  description = some p.description;
}

abbrev pub role_created_log : UserContext → RoleParam → SysRole → SysOperationLog
role_created_log u p role_obj = role_log u role_obj.id create null (of_role role_obj) (
    lit "用户("
    ∷ num u.user_id
    ∷ lit "-"
    ∷ lit u.username
    ∷ lit ")创建了角色("
    ∷ num role_obj.id
    ∷ lit "-"
    ∷ lit p.code
    ∷ lit ")"
    ∷ [])

unfoldable pub create_role_body : UserContext → RoleParam → T SysRole
create_role_body u p = do
  check_menus u.user_id p.menu_ids
  role_obj ← on_error (Role.create_role (role_row 0 p)) (code_conflict "角色创建失败")
  link_menus role_obj.id p.menu_ids
  on_error (create_operation_log (role_created_log u p role_obj)) (wrapped "操作日志创建失败")
  pure role_obj

abbrev pub role_updated_log : UserContext → RoleParam → SysRole → SysRole → SysOperationLog
role_updated_log u p old_role role_obj =
    role_log u p.id update (of_role old_role) (of_role role_obj) (
      lit "用户("
      ∷ num u.user_id
      ∷ lit "-"
      ∷ lit u.username
      ∷ lit ")修改了角色("
      ∷ num p.id
      ∷ lit "-"
      ∷ lit p.code
      ∷ lit ")信息"
      ∷ [])

unfoldable pub update_role_body : Env → UserContext → RoleParam → SysRole → T SysRole
update_role_body env u p old_role = do
  check_menus_unless_admin u.user_id p.menu_ids
  role_obj ← on_error (Role.update_role env (role_row p.id p)) (code_conflict "更新角色失败")
  on_error (Role.delete_role_menu p.id) (wrapped "角色与菜单关联关系删除失败")
  link_menus p.id p.menu_ids
  on_error (create_operation_log (role_updated_log u p old_role role_obj)) (wrapped "操作日志创建失败")
  pure role_obj

abbrev pub role_deleted_log : UserContext → ℕ → SysRole → SysOperationLog
role_deleted_log u id old_role = role_log u id delete (of_role old_role) null (
    lit "用户("
    ∷ num u.user_id
    ∷ lit "-"
    ∷ lit u.username
    ∷ lit ")删除了角色("
    ∷ num id
    ∷ lit "-"
    ∷ lit old_role.code
    ∷ lit ")"
    ∷ [])

unfoldable pub delete_role_body : UserContext → ℕ → SysRole → T (Unit {0})
delete_role_body u id old_role = do
  is_used ← on_error (Role.is_used_user_by_ids id) (wrapped "检查角色使用情况失败")
  refuse_if is_used (biz role_used)
  on_error (Role.delete_by_id id) (wrapped "角色删除失败")
  on_error (Role.delete_role_menu id) (wrapped "角色与菜单关联关系删除失败")
  on_error (create_operation_log (role_deleted_log u id old_role)) (wrapped "操作日志创建失败")
