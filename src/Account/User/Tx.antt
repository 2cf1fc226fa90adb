-- ===== src/Account/User/Tx.antt =====
-- The bodies of the transactions of CreateUser, UpdateUser, DeleteById and ResetPwdById in user.go.
use snowgo.Prelude.{
  ℕ, String, not, List, [], ◌∷◌, map, none, some, ltb, ◌==◌, if◌then◌else◌, length,
}
use snowgo.Xerror.{
  Error, biz, wrapped, is_duplicate_key_err, user_name_tel_exist_error, user_role_not_exist,
}
use snowgo.Dal.Model.{
  SysUser, SysUserRole, SysOperationLog, Snapshot, null, of_user, Action, create, update, delete,
  lit, num, user, Segment,
}
use snowgo.Dal.Tx.{T, pure, ◌>>=◌, ◌>>◌, on_error, refuse_if, when}
use snowgo.Dao.User
use snowgo.Account.Types.{UserContext, UserParam}
use snowgo.Account.Log.{create_operation_log}

-- The roles of the parameter are looked up in the transaction, against concurrent deletes.
unfoldable pub check_roles : List ℕ → T (Unit {0})
check_roles role_ids = when (ltb 0 (length role_ids)) (do
  role_len ← on_error (User.count_role_by_ids role_ids) (wrapped "查询角色数量存在异常")
  refuse_if (not (role_len == length role_ids)) (biz user_role_not_exist))

abbrev pub user_role_rows : ℕ → List ℕ → List SysUserRole
user_role_rows user_id role_ids = map (λ id. record { user_id = user_id; role_id = id }) role_ids

unfoldable pub link_roles : ℕ → List ℕ → T (Unit {0})
link_roles user_id role_ids = when (ltb 0 (length role_ids)) (
    on_error (User.create_user_role_in_batches (user_role_rows user_id role_ids))
      (wrapped "用户与角色关联关系创建失败"))

abbrev pub name_conflict : String → Error → Error
name_conflict msg e =
    if is_duplicate_key_err e then biz user_name_tel_exist_error else wrapped msg e

abbrev pub user_log :
    UserContext → ℕ → Action → Snapshot → Snapshot → List Segment → SysOperationLog
user_log u id action before after description = record {
  operator_id = u.user_id;
  operator_name = u.username;
  resource = user;
  resource_id = id;
  action = action;
  trace_id = u.trace_id;
  before_data = before;
  after_data = after;
  description = description;
  ip = u.ip;
}

-- constant.UserStatusActive and UserStatusDisabled
abbrev pub user_status_active : ℕ
user_status_active = 1

abbrev pub user_status_disabled : ℕ
user_status_disabled = 2

abbrev pub new_user : UserContext → UserParam → String → SysUser
new_user u p pwd = record {
  id = 0;
  username = p.username;
  tel = p.tel;
  nickname = p.nickname;
  password = pwd;
  email = p.email;
  remark = p.remark;
  status = some user_status_active;
  created_by = some u.user_id;
  updated_by = none;
}

-- What UpdateUser passes to the DAO: it has no password and no creator.
abbrev pub changed_user : UserContext → UserParam → SysUser
changed_user u p = record {
  id = p.id;
  username = p.username;
  tel = p.tel;
  nickname = p.nickname;
  password = "";
  email = p.email;
  remark = p.remark;
  status = p.status;
  created_by = none;
  updated_by = some u.user_id;
}

abbrev pub user_created_log : UserContext → SysUser → SysOperationLog
user_created_log u user_obj = user_log u user_obj.id create null (of_user user_obj) (
    lit "用户("
    ∷ num u.user_id
    ∷ lit "-"
    ∷ lit u.username
    ∷ lit ")创建了用户("
    ∷ num user_obj.id
    ∷ lit "-"
    ∷ lit user_obj.username
    ∷ lit ")"
    ∷ [])

unfoldable pub create_user_body : UserContext → UserParam → String → T SysUser
create_user_body u p pwd = do
  check_roles p.role_ids
  user_obj ← on_error (User.create_user (new_user u p pwd)) (name_conflict "用户创建失败")
  link_roles user_obj.id p.role_ids
  on_error (create_operation_log (user_created_log u user_obj)) (wrapped "操作日志创建失败")
  pure user_obj

abbrev pub user_updated_log : UserContext → UserParam → SysUser → SysOperationLog
user_updated_log u p old_user =
    user_log u p.id update (of_user old_user) (of_user (changed_user u p)) (
      lit "用户("
      ∷ num u.user_id
      ∷ lit "-"
      ∷ lit u.username
      ∷ lit ")修改了用户("
      ∷ num p.id
      ∷ lit "-"
      ∷ lit p.username
      ∷ lit ")信息"
      ∷ [])

unfoldable pub update_user_body : UserContext → UserParam → SysUser → T (Unit {0})
update_user_body u p old_user = do
  check_roles p.role_ids
  on_error (User.update_user (changed_user u p)) (name_conflict "用户更新失败")
  on_error (User.delete_user_role p.id) (wrapped "用户与角色关联关系删除失败")
  link_roles p.id p.role_ids
  on_error (create_operation_log (user_updated_log u p old_user)) (wrapped "操作日志创建失败")

abbrev pub user_deleted_log : UserContext → ℕ → SysUser → SysOperationLog
user_deleted_log u id old_user = user_log u id delete (of_user old_user) null (
    lit "用户("
    ∷ num u.user_id
    ∷ lit "-"
    ∷ lit u.username
    ∷ lit ")删除了用户("
    ∷ num id
    ∷ lit "-"
    ∷ lit old_user.username
    ∷ lit ")"
    ∷ [])

unfoldable pub delete_user_body : UserContext → ℕ → SysUser → T (Unit {0})
delete_user_body u id old_user = do
  on_error (User.delete_by_id id) (wrapped "用户删除异常")
  on_error (User.delete_user_role id) (wrapped "用户与角色关联关系删除失败")
  on_error (create_operation_log (user_deleted_log u id old_user)) (wrapped "操作日志创建失败")

abbrev pub pwd_reset_log : UserContext → ℕ → SysUser → SysOperationLog
pwd_reset_log u id target = user_log u id update null null (
    lit "用户("
    ∷ num u.user_id
    ∷ lit "-"
    ∷ lit u.username
    ∷ lit ")重置了用户("
    ∷ num id
    ∷ lit "-"
    ∷ lit target.username
    ∷ lit ")的密码"
    ∷ [])

unfoldable pub reset_pwd_body : UserContext → ℕ → SysUser → String → T (Unit {0})
reset_pwd_body u id target pwd = do
  on_error (User.reset_pwd_by_id id pwd) (wrapped "重置密码失败")
  on_error (create_operation_log (pwd_reset_log u id target)) (wrapped "操作日志创建失败")
