-- ===== src/Account/User.antt =====
-- internal/service/admin/account/user.go: UserService. Times, logging and the lists of users are
-- left out.
pub mod Tx
pub mod Effects
pub mod Login
pub mod Cached
use snowgo.Prelude.{
  ℕ, Bool, true, false, not, ◌||◌, List, [], ◌∷◌, Option, none, some, ltb, ◌==◌, if◌then◌else◌,
  length, String, str_eq, any,
}
use snowgo.Xerror.{
  Error, Code, biz, wrapped, is_record_not_found, user_name_tel_exist_error, user_not_found,
  auth_error, user_delete_self_error, Result, ok, err, map_err,
}
use snowgo.Extern.{Env, Bytes}
use snowgo.Dal.Model.{SysUser}
use snowgo.Dao.User
use snowgo.Account.Types.{
  UserContext, UserParam, UserInfo, CacheValue, user_role, role_ids, menus, forest, other,
}
use snowgo.Account.Runtime.{
  M, pure, fail, ◌>>=◌, ◌>>◌, on_error, refuse_if, read, read_primary, transaction, cache_get,
  cache_set, cache_delete, lift,
}
use snowgo.Account.Context.{get_user_context, deref_or_zero, not_found_as}
use snowgo.Account.Password.{validate_password}
use snowgo.Account.Role.{get_role_perms_list_by_rule_id}
use Tx.{create_user_body, update_user_body, delete_user_body, reset_pwd_body, user_status_disabled}

-- `if bizErr := validatePassword(pw); bizErr != nil { return bizErr }`
abbrev pub check_password_rules : Bytes → M (Unit {0})
check_password_rules pw = elim (validate_password pw) [ none ↦ pure tt | some c ↦ fail (biz c) ]

unfoldable pub create_user : Env → Option UserContext → UserParam → M ℕ
create_user env ctx p = do
  u ← get_user_context ctx
  is_duplicate ←
      on_error (read (User.is_name_tel_duplicate p.username p.tel 0)) (wrapped "查询用户名或电话是否存在异常")
  refuse_if is_duplicate (biz user_name_tel_exist_error)
  check_password_rules p.password
  pwd ← on_error (lift (env.hash_password p.password)) (wrapped "密码加密异常")
  user_obj ← transaction (create_user_body u p pwd)
  pure user_obj.id

unfoldable pub update_user : Option UserContext → UserParam → M ℕ
update_user ctx p = do
  u ← get_user_context ctx
  refuse_if (p.id == 0) (biz user_not_found)
  old_user ← on_error (read (User.get_user_by_id p.id)) (wrapped "用户信息查询失败")
  is_duplicate ←
      on_error (read (User.is_name_tel_duplicate p.username p.tel p.id)) (wrapped "查询用户名或电话是否存在异常")
  refuse_if is_duplicate (biz user_name_tel_exist_error)
  transaction (update_user_body u p old_user)
  cache_delete (user_role p.id)
  pure p.id

unfoldable pub delete_by_id : Option UserContext → ℕ → M (Unit {0})
delete_by_id ctx id = do
  u ← get_user_context ctx
  refuse_if (id == 0) (biz user_not_found)
  refuse_if (id == u.user_id) (biz user_delete_self_error)
  old_user ← on_error (read (User.get_user_by_id id)) (not_found_as (biz user_not_found) "用户信息查询失败")
  transaction (delete_user_body u id old_user)
  cache_delete (user_role id)
  pure tt

unfoldable pub reset_pwd_by_id : Env → Option UserContext → ℕ → Bytes → M (Unit {0})
reset_pwd_by_id env ctx id password = do
  refuse_if (id == 0) (biz user_not_found)
  check_password_rules password
  u ← get_user_context ctx
  target ← on_error (read (User.get_user_by_id id)) (not_found_as (biz user_not_found) "用户信息查询失败")
  pwd ← on_error (lift (env.hash_password password)) (wrapped "密码加密异常")
  transaction (reset_pwd_body u id target pwd)

abbrev pub status_or_zero : Option ℕ → ℕ
status_or_zero none = 0
status_or_zero (some s) = s

abbrev pub user_info : SysUser → UserInfo
user_info user = record {
  id = user.id;
  username = user.username;
  tel = user.tel;
  nickname = deref_or_zero user.nickname;
  email = deref_or_zero user.email;
  remark = deref_or_zero user.remark;
  status = status_or_zero user.status;
}

-- user.Status != nil && *user.Status == constant.UserStatusDisabled
abbrev pub is_disabled : Option ℕ → Bool
is_disabled none = false
is_disabled (some s) = s == user_status_disabled

-- Authenticate reads the write node.
unfoldable pub authenticate : Env → String → Bytes → M UserInfo
authenticate env username password = do
  refuse_if (str_eq username "") (biz user_not_found)
  user ←
      on_error (read_primary (User.get_user_by_username username))
        (not_found_as (biz auth_error) "用户信息查询失败")
  refuse_if (not (env.check_password user.password password)) (biz auth_error)
  refuse_if (is_disabled user.status) (biz auth_error)
  pure (user_info user)

-- A text of the cache that encoding/json reads as a list of role ids.
abbrev pub unmarshal_role_ids : Result (Option CacheValue) → Option (List ℕ)
unmarshal_role_ids (ok (some (role_ids ids))) = some ids
unmarshal_role_ids _ = none

unfoldable pub load_role_ids : ℕ → M (List ℕ)
load_role_ids user_id = do
  ids ← on_error (read (User.get_role_ids_by_user_id user_id)) (wrapped "查询用户角色id失败")
  cache_set (user_role user_id) (role_ids ids)
  pure ids

unfoldable pub get_role_ids_by_user_id : ℕ → M (List ℕ)
unfolding load_role_ids
get_role_ids_by_user_id user_id = do
  refuse_if (user_id == 0) (biz user_not_found)
  cached ← cache_get (user_role user_id)
  elim (unmarshal_role_ids cached) [ some ids ↦ pure ids | none ↦ load_role_ids user_id ]

-- permSet[p] = struct{}{} for each permission of a role.
abbrev pub add_perms : List String → List String → List String
add_perms [] set = set
add_perms (p ∷ ps) set = add_perms ps (if any (λ q. str_eq q p) set then set else p ∷ set)

-- The loop over the roles of GetPermsListById.
unfoldable pub merge_perms : List ℕ → List String → M (List String)
merge_perms [] set = pure set
merge_perms (role_id ∷ rest) set = do
  perms ← get_role_perms_list_by_rule_id role_id
  merge_perms rest (add_perms perms set)

unfoldable pub get_perms_list_by_id : ℕ → M (List String)
unfolding merge_perms
get_perms_list_by_id user_id = do
  refuse_if (user_id == 0) (biz user_not_found)
  ids ← get_role_ids_by_user_id user_id
  merge_perms ids []
