-- ===== src/Dao/User.antt =====
-- internal/dao/admin/account/user.go: UserDao.
pub mod Effects
use snowgo.Prelude.{
  ℕ, ◌+◌, Bool, true, false, not, ◌&&◌, ◌||◌, List, [], ◌∷◌, ◌++◌, map, Option, none, some, ltb,
  ◌==◌, if◌then◌else◌, String, str_eq, any, filter, count_if, contains,
}
use snowgo.Xerror.{plain, mysql, Result, ok, err}
use snowgo.Dal.Model.{SysUser, SysRole, SysUserRole}
use snowgo.Dal.Tx.{Db, T, fail, branch, exec, query}
use snowgo.Dao.Role.{first}

-- The unique keys uk_username and uk_tel.
abbrev pub same_name_or_tel : String → String → SysUser → Bool
same_name_or_tel username tel u = str_eq u.username username || str_eq u.tel tel

-- CreateUser: INSERT.
unfoldable pub create_user : SysUser → T SysUser
create_user user = exec λ d.
    if any (same_name_or_tel user.username user.tel) d.users
    then err (mysql 1062)
    else let row = record user { id = d.next_user } in
      ok (row, record d { users = row ∷ d.users; next_user = d.next_user + 1 })

abbrev or_keep {ℓ} : {A : Type ℓ} → Option A → Option A → Option A
or_keep (some a) old = some a
or_keep none old = old

-- The columns that UpdateUser assigns: the pointer fields only where they are not nil.
abbrev pub assign_user : SysUser → SysUser → SysUser
assign_user user row = record row {
  username = user.username;
  tel = user.tel;
  nickname = or_keep user.nickname row.nickname;
  email = or_keep user.email row.email;
  remark = or_keep user.remark row.remark;
  status = or_keep user.status row.status;
  updated_by = or_keep user.updated_by row.updated_by;
}

-- The rows after UPDATE … WHERE id, under the unique keys.
unfoldable pub updated_users : SysUser → List SysUser → Result (List SysUser)
updated_users user rows =
    if any (λ u. u.id == user.id) rows
      && any (λ u. same_name_or_tel user.username user.tel u && not (u.id == user.id)) rows
    then err (mysql 1062)
    else ok (map (λ u. if u.id == user.id then assign_user user u else u) rows)

unfoldable pub update_user : SysUser → T SysUser
update_user user = branch (user.id == 0) (fail (plain "用户id不存在")) (
    exec λ d. elim (updated_users user d.users) [
      | ok rows ↦ ok (user, record d { users = rows })
      | err e ↦ err e
    ])

-- The rows of an INSERT one by one, under the unique key uk_user_role.
unfoldable pub insert_user_roles : List SysUserRole → List SysUserRole → Result (List SysUserRole)
insert_user_roles [] rows = ok rows
insert_user_roles (new ∷ news) rows =
    let rest = insert_user_roles news (new ∷ rows) in
    if any (λ r. r.user_id == new.user_id && r.role_id == new.role_id) rows
    then err (mysql 1062)
    else rest

unfoldable pub create_user_role_in_batches : List SysUserRole → T (Unit {0})
create_user_role_in_batches news = exec λ d. elim (insert_user_roles news d.user_roles) [
  | ok rows ↦ ok (tt, record d { user_roles = rows })
  | err e ↦ err e
]

unfoldable pub delete_user_role : ℕ → T (Unit {0})
delete_user_role user_id =
    exec
      λ d. ok (tt, record d { user_roles = filter (λ r. not (r.user_id == user_id)) d.user_roles })

unfoldable pub delete_by_id : ℕ → T (Unit {0})
delete_by_id user_id =
    branch (user_id == 0) (fail (plain "用户id不存在"))
      (exec λ d. ok (tt, record d { users = filter (λ u. not (u.id == user_id)) d.users }))

unfoldable pub get_role_ids_by_user_id : ℕ → Db → Result (List ℕ)
get_role_ids_by_user_id user_id d =
    if user_id == 0
    then err (plain "用户 id 不合法")
    else ok (map (λ r. r.role_id) (filter (λ r. r.user_id == user_id) d.user_roles))

-- IsNameTelDuplicate: whether a user other than `user_id` has the name or the number.
unfoldable pub is_name_tel_duplicate : String → String → ℕ → Db → Result Bool
is_name_tel_duplicate username tel user_id d = ok (
    any
      (λ u.
        same_name_or_tel username tel u && (if ltb 0 user_id then not (u.id == user_id) else true))
      d.users)

-- CountRoleByIds: the rows whose id is listed, counted once each.
unfoldable pub count_role_by_ids : List ℕ → T ℕ
count_role_by_ids ids = query λ d. ok (count_if (λ r. contains ids r.id) d.roles)

unfoldable pub get_user_by_id : ℕ → Db → Result SysUser
get_user_by_id user_id d =
    if user_id == 0 then err (plain "用户id不存在") else first (λ u. u.id == user_id) d.users

unfoldable pub get_user_by_username : String → Db → Result SysUser
get_user_by_username username d =
    if str_eq username ""
    then err (plain "用户username不存在")
    else first (λ u. str_eq u.username username) d.users

unfoldable pub reset_pwd_by_id : ℕ → String → T (Unit {0})
reset_pwd_by_id user_id password = branch (user_id == 0) (fail (plain "用户id不存在")) (
    exec λ d. ok (
      tt,
      record d {
        users = map (λ u. if u.id == user_id then record u { password = password } else u) d.users;
      },
    ))
