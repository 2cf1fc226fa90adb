-- ===== src/Account/Changes.antt =====
-- What each request is to do to the tables when it succeeds, said without the order of its
-- statements: the specification that the services refine.
use snowgo.Prelude.{
  ℕ, ◌+◌, ◌≡◌, ◌≢◌, ◌⊎◌, true, false, not, ◌&&◌, List, [], ◌∷◌, map, ◌==◌, if◌then◌else◌, length,
  String, str_eq, any, filter, count_if, contains, Option,
}
use snowgo.Xerror.{ok}
use snowgo.Extern.{Env, Bytes}
use snowgo.Dal.Model.{SysUser, SysRole, SysMenu}
use snowgo.Dal.Tx.{Db}
use snowgo.Dao.Role.{super_admin_role_id, insert_role_menus, saved_roles}
use snowgo.Dao.Role.Effects.{user_menus, has_admin_role}
use snowgo.Dao.User.{same_name_or_tel, updated_users, insert_user_roles}
use snowgo.Dao.Menu.{saved_menus, holds, is_other}
use snowgo.Account.Types.{UserContext, UserParam, RoleParam, MenuParam}
use snowgo.Account.Context.{deref_or_zero}
use snowgo.Account.Role.Tx.{
  are_authorized, role_menu_rows, role_row, role_created_log, role_updated_log, role_deleted_log,
}
use snowgo.Account.User.Tx.{
  user_role_rows, new_user, changed_user, user_created_log, user_updated_log, user_deleted_log,
  pwd_reset_log,
}
use snowgo.Account.Menu.Tx.{menu_row, menu_created_log, menu_updated_log, menu_deleted_log}

-- Every id of the list is the id of a menu, and none is listed twice where menus have distinct ids.
abbrev pub MenusFound : List ℕ → Db → Type 0
MenusFound ids d = count_if (λ m. contains ids m.id) d.menus ≡ length ids

abbrev pub RolesFound : List ℕ → Db → Type 0
RolesFound ids d = count_if (λ r. contains ids r.id) d.roles ≡ length ids

pub record RoleCreated (u : UserContext) (p : RoleParam) (d d' : Db) : Type 0 where
  pub found : MenusFound p.menu_ids d
  pub authorized : are_authorized (user_menus u.user_id d) p.menu_ids ≡ true
  pub code_free : any (λ r. str_eq r.code p.code) d.roles ≡ false
  pub linked :
      insert_role_menus (role_menu_rows d.next_role p.menu_ids) d.role_menus ≡ ok d'.role_menus
  pub result : d' ≡ record d {
    roles = role_row d.next_role p ∷ d.roles;
    next_role = d.next_role + 1;
    role_menus = d'.role_menus;
    operation_logs = role_created_log u p (role_row d.next_role p) ∷ d.operation_logs;
  }

pub record RoleUpdated (env : Env) (u : UserContext) (p : RoleParam) (d d' : Db) : Type 0 where
  pub old : SysRole
  pub found : MenusFound p.menu_ids d
  pub authorized :
      (has_admin_role u.user_id d ≡ true)
      ⊎ (are_authorized (user_menus u.user_id d) p.menu_ids ≡ true)
  pub saved : saved_roles env (role_row p.id p) d.roles ≡ ok d'.roles
  pub linked :
      insert_role_menus
        (role_menu_rows p.id p.menu_ids)
        (filter (λ r. not (r.role_id == p.id)) d.role_menus)
      ≡ ok d'.role_menus
  pub result : d' ≡ record d {
    roles = d'.roles;
    role_menus = d'.role_menus;
    operation_logs = role_updated_log u p old (role_row p.id p) ∷ d.operation_logs;
  }

pub record RoleDeleted (u : UserContext) (id : ℕ) (d d' : Db) : Type 0 where
  pub old : SysRole
  pub not_super_admin : id ≢ super_admin_role_id
  pub unused : any (λ r. r.role_id == id) d.user_roles ≡ false
  pub result : d' ≡ record d {
    roles = filter (λ r. not (r.id == id)) d.roles;
    role_menus = filter (λ r. not (r.role_id == id)) d.role_menus;
    operation_logs = role_deleted_log u id old ∷ d.operation_logs;
  }

pub record UserCreated (env : Env) (u : UserContext) (p : UserParam) (d d' : Db) : Type 0 where
  pub pwd : String
  pub hashed : env.hash_password p.password ≡ ok pwd
  pub found : RolesFound p.role_ids d
  pub name_free : any (same_name_or_tel p.username p.tel) d.users ≡ false
  pub linked :
      insert_user_roles (user_role_rows d.next_user p.role_ids) d.user_roles ≡ ok d'.user_roles
  pub result : d' ≡ record d {
    users = record (new_user u p pwd) { id = d.next_user } ∷ d.users;
    next_user = d.next_user + 1;
    user_roles = d'.user_roles;
    operation_logs =
        user_created_log u (record (new_user u p pwd) { id = d.next_user }) ∷ d.operation_logs;
  }

pub record UserUpdated (u : UserContext) (p : UserParam) (d d' : Db) : Type 0 where
  pub old : SysUser
  pub found : RolesFound p.role_ids d
  pub updated : updated_users (changed_user u p) d.users ≡ ok d'.users
  pub linked :
      insert_user_roles
        (user_role_rows p.id p.role_ids)
        (filter (λ r. not (r.user_id == p.id)) d.user_roles)
      ≡ ok d'.user_roles
  pub result : d' ≡ record d {
    users = d'.users;
    user_roles = d'.user_roles;
    operation_logs = user_updated_log u p old ∷ d.operation_logs;
  }

pub record UserDeleted (u : UserContext) (id : ℕ) (d d' : Db) : Type 0 where
  pub old : SysUser
  pub not_self : id ≢ u.user_id
  pub result : d' ≡ record d {
    users = filter (λ r. not (r.id == id)) d.users;
    user_roles = filter (λ r. not (r.user_id == id)) d.user_roles;
    operation_logs = user_deleted_log u id old ∷ d.operation_logs;
  }

pub record PwdReset (env : Env) (u : UserContext) (id : ℕ) (password : Bytes) (d d' : Db)
    : Type 0 where
  pub target : SysUser
  pub pwd : String
  pub hashed : env.hash_password password ≡ ok pwd
  pub result : d' ≡ record d {
    users = map (λ r. if r.id == id then record r { password = pwd } else r) d.users;
    operation_logs = pwd_reset_log u id target ∷ d.operation_logs;
  }

-- A node has no parent, or one that is in the table.
abbrev pub ParentFound : ℕ → Db → Type 0
ParentFound parent_id d = (parent_id ≡ 0) ⊎ (any (λ m. m.id == parent_id) d.menus ≡ true)

abbrev pub PermsFree : Option String → ℕ → Db → Type 0
PermsFree perms id d =
    (str_eq (deref_or_zero perms) "" ≡ true)
    ⊎ (any (λ m. holds m.perms (deref_or_zero perms) && is_other id m.id) d.menus ≡ false)

abbrev pub PathFree : Option String → ℕ → Db → Type 0
PathFree path id d =
    (str_eq (deref_or_zero path) "" ≡ true)
    ⊎ (any (λ m. holds m.path (deref_or_zero path) && is_other id m.id) d.menus ≡ false)

pub record MenuCreated (u : UserContext) (p : MenuParam) (d d' : Db) : Type 0 where
  pub parent : ParentFound p.parent_id d
  pub perms_free : PermsFree p.perms 0 d
  pub path_free : PathFree p.path 0 d
  pub result : d' ≡ record d {
    menus = menu_row d.next_menu p ∷ d.menus;
    next_menu = d.next_menu + 1;
    operation_logs = menu_created_log u (menu_row d.next_menu p) ∷ d.operation_logs;
  }

pub record MenuUpdated (env : Env) (u : UserContext) (p : MenuParam) (d d' : Db) : Type 0 where
  pub old : SysMenu
  pub parent : ParentFound p.parent_id d
  pub not_self : (p.parent_id ≡ 0) ⊎ (p.parent_id ≢ p.id)
  pub perms_free : PermsFree p.perms p.id d
  pub path_free : PathFree p.path p.id d
  pub saved : saved_menus env (menu_row p.id p) d.menus ≡ ok d'.menus
  pub result : d' ≡ record d {
    menus = d'.menus;
    operation_logs = menu_updated_log u p old (menu_row p.id p) ∷ d.operation_logs;
  }

pub record MenuDeleted (u : UserContext) (id : ℕ) (d d' : Db) : Type 0 where
  pub old : SysMenu
  pub childless : filter (λ m. m.parent_id == id) d.menus ≡ []
  pub unused : any (λ r. contains (id ∷ []) r.menu_id) d.role_menus ≡ false
  pub result : d' ≡ record d {
    menus = filter (λ m. not (m.id == id)) d.menus;
    operation_logs = menu_deleted_log u id old ∷ d.operation_logs;
  }
