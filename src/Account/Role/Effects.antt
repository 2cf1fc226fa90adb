-- ===== src/Account/Role/Effects.antt =====
-- The transactions of role.go do what Account/Changes asks of them.
use snowgo.Prelude.{ℕ, ◌≡◌, ◌≢◌, ◌⊎◌, refl, true, List, [], ◌∷◌, count_if, contains, arith}
use snowgo.Xerror.{ok}
use snowgo.Extern.{Env}
use snowgo.Dal.Model.{SysRole, SysMenu}
use snowgo.Dal.Tx.{Tx}
use snowgo.Dao.Role.{super_admin_role_id, insert_role_menus}
use snowgo.Dao.Role.Effects.{
  user_menus, has_admin_role, create_role-eq-ok, update_role-eq-ok, delete_by_id-eq-ok,
  create_role_menu-eq-ok, delete_role_menu-eq-ok, is_used_user_by_ids-eq-ok,
  count_menu_by_ids-eq-ok, is_super_admin-eq-ok, get_user_menu_ids-eq-ok,
}
use snowgo.Account.Types.{UserContext, RoleParam}
use snowgo.Account.Log.{create_operation_log-eq-ok}
use snowgo.Account.Role.Tx.{
  are_authorized, role_menu_rows, check_menus_exist, check_menus_authorized, check_menus,
  check_menus_unless_admin, link_menus, create_role_body, update_role_body, delete_role_body,
}
use snowgo.Account.Changes.{MenusFound, RoleCreated, RoleUpdated, RoleDeleted}

count_if-contains-nil : (menus : List SysMenu) → count_if (λ m. contains [] m.id) menus ≡ 0
count_if-contains-nil [] = refl
count_if-contains-nil (m ∷ ms) = count_if-contains-nil ms

check_menus_exist-eq-ok :
    (ids : List ℕ) (t : Tx) {x : Unit {0} × Tx}
    → check_menus_exist ids t ≡ ok x
    → (x.1.db ≡ t.db) × MenusFound ids t.db
unfolding check_menus_exist
check_menus_exist-eq-ok ids t h = grind (arith, count_menu_by_ids-eq-ok)

check_menus_authorized-eq-ok :
    (user_id : ℕ) (ids : List ℕ) (t : Tx) {x : Unit {0} × Tx}
    → check_menus_authorized user_id ids t ≡ ok x
    → (x.1.db ≡ t.db) × (are_authorized (user_menus user_id t.db) ids ≡ true)
unfolding check_menus_authorized
check_menus_authorized-eq-ok user_id ids t h = grind (arith, get_user_menu_ids-eq-ok)

check_menus-eq-ok :
    (user_id : ℕ) (ids : List ℕ) (t : Tx) {x : Unit {0} × Tx}
    → check_menus user_id ids t ≡ ok x
    → (x.1.db ≡ t.db) × MenusFound ids t.db × (are_authorized (user_menus user_id t.db) ids ≡ true)
unfolding check_menus
check_menus-eq-ok user_id [] t h = ground (arith, count_if-contains-nil t.db.menus)
check_menus-eq-ok user_id (i ∷ is) t h =
    grind (arith, check_menus_exist-eq-ok, check_menus_authorized-eq-ok)

check_menus_unless_admin-eq-ok :
    (user_id : ℕ) (ids : List ℕ) (t : Tx) {x : Unit {0} × Tx}
    → check_menus_unless_admin user_id ids t ≡ ok x
    → (x.1.db ≡ t.db)
      × MenusFound ids t.db
      × ((has_admin_role user_id t.db ≡ true)
          ⊎ (are_authorized (user_menus user_id t.db) ids ≡ true))
unfolding check_menus_unless_admin
check_menus_unless_admin-eq-ok user_id [] t h = ground (arith, count_if-contains-nil t.db.menus)
check_menus_unless_admin-eq-ok user_id (i ∷ is) t h =
    grind (arith, check_menus_exist-eq-ok, is_super_admin-eq-ok, check_menus_authorized-eq-ok)

link_menus-eq-ok :
    (role_id : ℕ) (ids : List ℕ) (t : Tx) {x : Unit {0} × Tx}
    → link_menus role_id ids t ≡ ok x
    → (insert_role_menus (role_menu_rows role_id ids) t.db.role_menus ≡ ok x.1.db.role_menus)
      × (x.1.db ≡ record (t.db) { role_menus = x.1.db.role_menus })
unfolding link_menus insert_role_menus
link_menus-eq-ok role_id [] t h = ground arith
link_menus-eq-ok role_id (i ∷ is) t h = grind (arith, create_role_menu-eq-ok)

ruleset role_steps = (
  check_menus-eq-ok, check_menus_unless_admin-eq-ok, link_menus-eq-ok, create_role-eq-ok,
  update_role-eq-ok, delete_by_id-eq-ok, delete_role_menu-eq-ok, is_used_user_by_ids-eq-ok,
  create_operation_log-eq-ok,
)

pub create_role_body-RoleCreated :
    (u : UserContext) (p : RoleParam) (t : Tx) {x : SysRole × Tx}
    → create_role_body u p t ≡ ok x
    → RoleCreated u p t.db x.1.db
unfolding create_role_body
create_role_body-RoleCreated u p t h = grind (arith, role_steps)

pub update_role_body-RoleUpdated :
    (env : Env) (u : UserContext) (p : RoleParam) (old : SysRole) (t : Tx) {x : SysRole × Tx}
    → update_role_body env u p old t ≡ ok x
    → RoleUpdated env u p t.db x.1.db
unfolding update_role_body
update_role_body-RoleUpdated env u p old t {x} h = record {
  old = old;
  found = grind (arith, role_steps);
  authorized = grind (arith, role_steps);
  saved = grind (arith, role_steps);
  linked = grind (arith, role_steps);
  result = grind (arith, role_steps);
}

pub delete_role_body-RoleDeleted :
    (u : UserContext) (id : ℕ) (old : SysRole) (t : Tx) {x : Unit {0} × Tx}
    → id ≢ super_admin_role_id
    → delete_role_body u id old t ≡ ok x
    → RoleDeleted u id t.db x.1.db
unfolding delete_role_body
delete_role_body-RoleDeleted u id old t {x} n h = record {
  old = old;
  not_super_admin = n;
  unused = grind (arith, role_steps);
  result = grind (arith, role_steps);
}
