-- ===== src/Dao/Role.antt =====
-- internal/dao/admin/account/role.go: RoleDao. `First`'s helper serves the other DAOs too. A method that takes `q` is a step of a transaction;
-- one that reads through `r.repo.Query()` is a function of the tables that it is sent to.
pub mod Effects
pub mod Links
use snowgo.Prelude.{
  ℕ, ◌+◌, Bool, true, false, not, ◌&&◌, List, [], ◌∷◌, ◌++◌, map, Option, none, some, ltb, ◌==◌,
  if◌then◌else◌, String, str_eq, any, filter, find?, count_if, contains,
}
use snowgo.Xerror.{Error, plain, record_not_found, mysql, Result, ok, err}
use snowgo.Dal.Model.{SysRole, SysMenu, SysRoleMenu, SysUserRole}
use snowgo.Dal.Tx.{Db, T, pure, fail, branch, exec, query}
use snowgo.Extern.{Env}

-- First() on the rows that pass the test.
abbrev pub first {ℓ} : {A : Type ℓ} → (A → Bool) → List A → Result A
first p rows = elim (find? p rows) [ none ↦ err record_not_found | some row ↦ ok row ]

abbrev pub super_admin_role_id : ℕ
super_admin_role_id = 1

-- IsCodeExists: whether another role has the code.
unfoldable pub is_code_exists : String → ℕ → Db → Result Bool
is_code_exists code role_id d = ok (
    any (λ r. str_eq r.code code && (if ltb 0 role_id then not (r.id == role_id) else true))
      d.roles)

-- CreateRole: INSERT under the unique key uk_code.
unfoldable pub create_role : SysRole → T SysRole
create_role role = exec λ d.
    if any (λ r. str_eq r.code role.code) d.roles
    then err (mysql 1062)
    else let row = record role { id = d.next_role } in
      ok (row, record d { roles = row ∷ d.roles; next_role = d.next_role + 1 })

-- UPDATE of every column of the row with the id, under the unique key uk_code.
abbrev pub replace_role : SysRole → List SysRole → Result (List SysRole)
replace_role role rows =
    if any (λ r. str_eq r.code role.code && not (r.id == role.id)) rows
    then err (mysql 1062)
    else ok (map (λ r. if r.id == role.id then role else r) rows)

-- The rows after UpdateRole's Save.
unfoldable pub saved_roles : Env → SysRole → List SysRole → Result (List SysRole)
saved_roles env role rows =
    if any (λ r. r.id == role.id) rows
    then replace_role role rows
    else env.save_missing_role role rows

unfoldable pub update_role : Env → SysRole → T SysRole
update_role env role = branch (role.id == 0) (fail (plain "角色id不存在")) (
    exec λ d. elim (saved_roles env role d.roles) [
      | ok rows ↦ ok (role, record d { roles = rows })
      | err e ↦ err e
    ])

unfoldable pub delete_by_id : ℕ → T (Unit {0})
delete_by_id role_id =
    branch (role_id == 0) (fail (plain "角色id不存在"))
      (exec λ d. ok (tt, record d { roles = filter (λ r. not (r.id == role_id)) d.roles }))

unfoldable pub get_role_by_id : ℕ → Db → Result SysRole
get_role_by_id role_id d =
    if role_id == 0 then err (plain "角色id无效") else first (λ r. r.id == role_id) d.roles

-- The rows of an INSERT one by one, under the unique key uk_role_menu.
unfoldable pub insert_role_menus : List SysRoleMenu → List SysRoleMenu → Result (List SysRoleMenu)
insert_role_menus [] rows = ok rows
insert_role_menus (new ∷ news) rows =
    let rest = insert_role_menus news (new ∷ rows) in
    if any (λ r. r.role_id == new.role_id && r.menu_id == new.menu_id) rows
    then err (mysql 1062)
    else rest

unfoldable pub create_role_menu : List SysRoleMenu → T (Unit {0})
create_role_menu news = exec λ d. elim (insert_role_menus news d.role_menus) [
  | ok rows ↦ ok (tt, record d { role_menus = rows })
  | err e ↦ err e
]

unfoldable pub delete_role_menu : ℕ → T (Unit {0})
delete_role_menu role_id =
    exec
      λ d. ok (tt, record d { role_menus = filter (λ r. not (r.role_id == role_id)) d.role_menus })

-- IsUsedUserByIds: whether a user has the role.
unfoldable pub is_used_user_by_ids : ℕ → T Bool
is_used_user_by_ids role_id = query λ d. ok (any (λ r. r.role_id == role_id) d.user_roles)

-- CountMenuByIds: the rows whose id is listed, counted once each.
unfoldable pub count_menu_by_ids : List ℕ → T ℕ
count_menu_by_ids ids = query λ d. ok (count_if (λ m. contains ids m.id) d.menus)

unfoldable pub get_menu_ids_by_role_id : ℕ → Db → Result (List ℕ)
get_menu_ids_by_role_id role_id d =
    ok (map (λ r. r.menu_id) (filter (λ r. r.role_id == role_id) d.role_menus))

-- The menus that a JOIN of the associations of the role with sys_menu yields.
abbrev pub join_menus : List SysRoleMenu → List SysMenu → List SysMenu
join_menus [] menus = []
join_menus (r ∷ rs) menus = filter (λ m. r.menu_id == m.id) menus ++ join_menus rs menus

unfoldable pub get_menu_list_by_role_id : ℕ → Db → Result (List SysMenu)
get_menu_list_by_role_id role_id d =
    ok (join_menus (filter (λ r. r.role_id == role_id) d.role_menus) d.menus)

unfoldable pub is_super_admin : ℕ → T Bool
is_super_admin user_id = branch (user_id == 0) (pure false) (
    query
      λ d. ok (any (λ r. r.user_id == user_id && r.role_id == super_admin_role_id) d.user_roles))

-- The menu ids that a JOIN of the user's roles with sys_role_menu yields.
abbrev pub join_menu_ids : List SysUserRole → List SysRoleMenu → List ℕ
join_menu_ids [] rms = []
join_menu_ids (u ∷ us) rms =
    map (λ r. r.menu_id) (filter (λ r. u.role_id == r.role_id) rms) ++ join_menu_ids us rms

unfoldable pub get_user_menu_ids : ℕ → T (List ℕ)
get_user_menu_ids user_id =
    query λ d. ok (join_menu_ids (filter (λ r. r.user_id == user_id) d.user_roles) d.role_menus)
