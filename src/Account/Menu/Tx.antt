-- ===== src/Account/Menu/Tx.antt =====
-- The bodies of the transactions of CreateMenu, UpdateMenu and DeleteMenuById in menu.go.
use snowgo.Prelude.{ℕ, String, not, List, [], ◌∷◌, Option, ltb, ◌==◌, length, str_eq}
use snowgo.Xerror.{
  biz, wrapped, menu_perms_exist, menu_path_exist, menu_parent_invalid, menu_parent_self,
  menu_has_children, menu_used_by_role,
}
use snowgo.Extern.{Env}
use snowgo.Dal.Model.{
  SysMenu, SysOperationLog, Snapshot, null, of_menu, Action, create, update, delete, lit, num,
  type_name, menu, Segment,
}
use snowgo.Dal.Tx.{T, pure, ◌>>=◌, ◌>>◌, on_error, refuse_if, when}
use snowgo.Dao.Menu
use snowgo.Account.Types.{UserContext, MenuParam}
use snowgo.Account.Context.{deref_or_zero}
use snowgo.Account.Log.{create_operation_log}

-- The parent of a new node has to be there.
unfoldable pub check_parent : ℕ → T (Unit {0})
check_parent parent_id =
    when (ltb 0 parent_id)
      (do on_error (Menu.get_by_id parent_id) (λ _. biz menu_parent_invalid); pure tt)

-- The parent of a changed node has to be there and to be another node.
unfoldable pub check_parent_of : ℕ → ℕ → T (Unit {0})
check_parent_of id parent_id = when (ltb 0 parent_id) (do
  refuse_if (parent_id == id) (biz menu_parent_self)
  on_error (Menu.get_by_id parent_id) (λ _. biz menu_parent_invalid)
  pure tt)

-- The table has no unique index: the transaction looks for the permission and the path itself.
unfoldable pub check_perms : Option String → ℕ → T (Unit {0})
check_perms perms exclude_id = when (not (str_eq (deref_or_zero perms) "")) (do
  exists ← on_error (Menu.is_perms_exists (deref_or_zero perms) exclude_id) (wrapped "校验权限标识失败")
  refuse_if exists (biz menu_perms_exist))

unfoldable pub check_path : Option String → ℕ → T (Unit {0})
check_path path exclude_id = when (not (str_eq (deref_or_zero path) "")) (do
  exists ← on_error (Menu.is_path_exists (deref_or_zero path) exclude_id) (wrapped "校验菜单路径失败")
  refuse_if exists (biz menu_path_exist))

abbrev pub menu_log :
    UserContext → ℕ → Action → Snapshot → Snapshot → List Segment → SysOperationLog
menu_log u id action before after description = record {
  operator_id = u.user_id;
  operator_name = u.username;
  resource = menu;
  resource_id = id;
  action = action;
  trace_id = u.trace_id;
  before_data = before;
  after_data = after;
  description = description;
  ip = u.ip;
}

abbrev pub menu_row : ℕ → MenuParam → SysMenu
menu_row id p = record {
  id = id;
  parent_id = p.parent_id;
  menu_type = p.menu_type;
  name = p.name;
  path = p.path;
  icon = p.icon;
  perms = p.perms;
  sort_order = p.sort_order;
}

abbrev pub menu_created_log : UserContext → SysMenu → SysOperationLog
menu_created_log u menu_obj = menu_log u menu_obj.id create null (of_menu menu_obj) (
    lit "用户("
    ∷ num u.user_id
    ∷ lit "-"
    ∷ lit u.username
    ∷ lit ")创建了"
    ∷ type_name menu_obj.menu_type
    ∷ lit "类型的菜单("
    ∷ num menu_obj.id
    ∷ lit "-"
    ∷ lit menu_obj.name
    ∷ lit ")"
    ∷ [])

unfoldable pub create_menu_body : UserContext → MenuParam → T SysMenu
create_menu_body u p = do
  check_parent p.parent_id
  check_perms p.perms 0
  check_path p.path 0
  menu_obj ← on_error (Menu.create_menu (menu_row 0 p)) (wrapped "创建菜单失败")
  on_error (create_operation_log (menu_created_log u menu_obj)) (wrapped "操作日志创建失败")
  pure menu_obj

abbrev pub menu_updated_log : UserContext → MenuParam → SysMenu → SysMenu → SysOperationLog
menu_updated_log u p old_menu menu_obj =
    menu_log u p.id update (of_menu old_menu) (of_menu menu_obj) (
      lit "用户("
      ∷ num u.user_id
      ∷ lit "-"
      ∷ lit u.username
      ∷ lit ")修改了"
      ∷ type_name p.menu_type
      ∷ lit "类型的菜单("
      ∷ num p.id
      ∷ lit "-"
      ∷ lit p.name
      ∷ lit ")信息"
      ∷ [])

unfoldable pub update_menu_body : Env → UserContext → MenuParam → SysMenu → T (Unit {0})
update_menu_body env u p old_menu = do
  check_parent_of p.id p.parent_id
  check_perms p.perms p.id
  check_path p.path p.id
  menu_obj ← on_error (Menu.update_menu env (menu_row p.id p)) (wrapped "更新菜单失败")
  on_error (create_operation_log (menu_updated_log u p old_menu menu_obj)) (wrapped "操作日志创建失败")

abbrev pub menu_deleted_log : UserContext → ℕ → SysMenu → SysOperationLog
menu_deleted_log u id old_menu = menu_log u id delete (of_menu old_menu) null (
    lit "用户("
    ∷ num u.user_id
    ∷ lit "-"
    ∷ lit u.username
    ∷ lit ")删除了"
    ∷ type_name old_menu.menu_type
    ∷ lit "类型的菜单("
    ∷ num id
    ∷ lit "-"
    ∷ lit old_menu.name
    ∷ lit ")"
    ∷ [])

unfoldable pub delete_menu_body : UserContext → ℕ → SysMenu → T (Unit {0})
delete_menu_body u id old_menu = do
  sub_menus ← on_error (Menu.get_by_parent_id id) (wrapped "查询子菜单失败")
  refuse_if (ltb 0 (length sub_menus)) (biz menu_has_children)
  is_used ← on_error (Menu.is_used_menu_by_ids (id ∷ [])) (wrapped "查询角色是否被使用失败")
  refuse_if is_used (biz menu_used_by_role)
  on_error (Menu.delete_by_id id) (wrapped "删除菜单失败")
  on_error (create_operation_log (menu_deleted_log u id old_menu)) (wrapped "操作日志创建失败")
