-- ===== src/Dao/Role/Effects.antt =====
-- What a statement of RoleDao has done when it succeeds.
use snowgo.Prelude.{
  ℕ, ◌+◌, ◌≡◌, not, List, ◌==◌, ◌∷◌, any, count_if, contains, filter, arith, ◌&&◌, str_eq, false,
  Bool, ◌⊎◌,
}
use snowgo.Xerror.{ok}
use snowgo.Extern.{Env}
use snowgo.Dal.Model.{SysRole, SysRoleMenu}
use snowgo.Dal.Tx.{Db, Tx, exec, query, exec-eq-ok, query-eq-ok, guarded_exec-eq-ok}
use snowgo.Dao.Role.{
  create_role, update_role, delete_by_id, insert_role_menus, create_role_menu, delete_role_menu,
  is_used_user_by_ids, count_menu_by_ids, is_super_admin, get_user_menu_ids, join_menu_ids,
  saved_roles, super_admin_role_id,
}

-- The menu ids that the user's roles give.
abbrev pub user_menus : ℕ → Db → List ℕ
user_menus user_id d = join_menu_ids (filter (λ r. r.user_id == user_id) d.user_roles) d.role_menus

-- Whether the user has the super administrator's role.
abbrev pub has_admin_role : ℕ → Db → Bool
has_admin_role user_id d =
    any (λ r. r.user_id == user_id && r.role_id == super_admin_role_id) d.user_roles

pub create_role-eq-ok :
    (role : SysRole) (t : Tx) {x : SysRole × Tx}
    → create_role role t ≡ ok x
    → (any (λ r. str_eq r.code role.code) t.db.roles ≡ false)
      × (x.0 ≡ record role { id = t.db.next_role })
      × (x.1.db ≡ record (t.db) { roles = x.0 ∷ t.db.roles; next_role = t.db.next_role + 1 })
unfolding create_role
create_role-eq-ok role t {x} h = let k = exec-eq-ok _ t h in ground arith

pub update_role-eq-ok :
    (env : Env) (role : SysRole) (t : Tx) {x : SysRole × Tx}
    → update_role env role t ≡ ok x
    → (x.0 ≡ role)
      × (saved_roles env role t.db.roles ≡ ok x.1.db.roles)
      × (x.1.db ≡ record (t.db) { roles = x.1.db.roles })
unfolding update_role
update_role-eq-ok env role t {x} h = let k = guarded_exec-eq-ok _ _ _ t h in ground arith

pub delete_by_id-eq-ok :
    (role_id : ℕ) (t : Tx) {x : Unit {0} × Tx}
    → delete_by_id role_id t ≡ ok x
    → x.1.db ≡ record (t.db) { roles = filter (λ r. not (r.id == role_id)) t.db.roles }
unfolding delete_by_id exec
delete_by_id-eq-ok role_id t h = ground arith

pub create_role_menu-eq-ok :
    (news : List SysRoleMenu) (t : Tx) {x : Unit {0} × Tx}
    → create_role_menu news t ≡ ok x
    → (insert_role_menus news t.db.role_menus ≡ ok x.1.db.role_menus)
      × (x.1.db ≡ record (t.db) { role_menus = x.1.db.role_menus })
unfolding create_role_menu
create_role_menu-eq-ok news t {x} h = let k = exec-eq-ok _ t h in ground arith

pub delete_role_menu-eq-ok :
    (role_id : ℕ) (t : Tx) {x : Unit {0} × Tx}
    → delete_role_menu role_id t ≡ ok x
    → x.1.db
      ≡ record (t.db) { role_menus = filter (λ r. not (r.role_id == role_id)) t.db.role_menus }
unfolding delete_role_menu
delete_role_menu-eq-ok role_id t {x} h = let k = exec-eq-ok _ t h in ground arith

pub is_used_user_by_ids-eq-ok :
    (role_id : ℕ) (t : Tx) {x : Bool × Tx}
    → is_used_user_by_ids role_id t ≡ ok x
    → (x.0 ≡ any (λ r. r.role_id == role_id) t.db.user_roles) × (x.1.db ≡ t.db)
unfolding is_used_user_by_ids
is_used_user_by_ids-eq-ok role_id t {x} h = let k = query-eq-ok _ t h in ground arith

pub count_menu_by_ids-eq-ok :
    (ids : List ℕ) (t : Tx) {x : ℕ × Tx}
    → count_menu_by_ids ids t ≡ ok x
    → (x.0 ≡ count_if (λ m. contains ids m.id) t.db.menus) × (x.1.db ≡ t.db)
unfolding count_menu_by_ids
count_menu_by_ids-eq-ok ids t {x} h = let k = query-eq-ok _ t h in ground arith

pub is_super_admin-eq-ok :
    (user_id : ℕ) (t : Tx) {x : Bool × Tx}
    → is_super_admin user_id t ≡ ok x
    → ((x.0 ≡ false) ⊎ (x.0 ≡ has_admin_role user_id t.db)) × (x.1.db ≡ t.db)
unfolding is_super_admin query exec
is_super_admin-eq-ok user_id t {x} h = ground arith

pub get_user_menu_ids-eq-ok :
    (user_id : ℕ) (t : Tx) {x : List ℕ × Tx}
    → get_user_menu_ids user_id t ≡ ok x
    → (x.0 ≡ user_menus user_id t.db) × (x.1.db ≡ t.db)
unfolding get_user_menu_ids
get_user_menu_ids-eq-ok user_id t {x} h = let k = query-eq-ok _ t h in ground arith
