-- ===== src/Account/Menu/Effects.antt =====
-- The transactions of menu.go do what Account/Changes asks of them.
use snowgo.Prelude.{
  ℕ, zero, suc, ◌≡◌, ◌≢◌, ◌⊎◌, refl, Bool, true, false, List, [], ◌∷◌, Option, any, arith, ltb,
  ◌==◌, length, String,
}
use snowgo.Xerror.{ok}
use snowgo.Extern.{Env}
use snowgo.Dal.Model.{SysMenu}
use snowgo.Dal.Tx.{Tx}
use snowgo.Dao.Role.{first}
use snowgo.Dao.Menu.Effects.{
  create_menu-eq-ok, update_menu-eq-ok, delete_by_id-eq-ok, get_by_id-eq-ok, get_by_parent_id-eq-ok,
  is_used_menu_by_ids-eq-ok, is_perms_exists-eq-ok, is_path_exists-eq-ok,
}
use snowgo.Account.Types.{UserContext, MenuParam}
use snowgo.Account.Log.{create_operation_log-eq-ok}
use snowgo.Account.Menu.Tx.{
  check_parent, check_parent_of, check_perms, check_path, create_menu_body, update_menu_body,
  delete_menu_body,
}
use snowgo.Account.Changes.{ParentFound, PermsFree, PathFree, MenuCreated, MenuUpdated, MenuDeleted}

first-any :
    {A : Type 0} (p : A → Bool) (rows : List A) (a : A) → first p rows ≡ ok a → any p rows ≡ true
first-any p [] a h = cc
first-any p (r ∷ rs) a h = ground (arith, first-any p rs a)

check_parent-eq-ok :
    (parent_id : ℕ) (t : Tx) {x : Unit {0} × Tx}
    → check_parent parent_id t ≡ ok x
    → (x.1.db ≡ t.db) × ParentFound parent_id t.db
unfolding check_parent
check_parent-eq-ok zero t h = ground arith
check_parent-eq-ok (suc n) t h =
    grind (arith, get_by_id-eq-ok, first-any (λ (m : SysMenu). m.id == suc n) t.db.menus)

check_parent_of-eq-ok :
    (id parent_id : ℕ) (t : Tx) {x : Unit {0} × Tx}
    → check_parent_of id parent_id t ≡ ok x
    → (x.1.db ≡ t.db) × ParentFound parent_id t.db × ((parent_id ≡ 0) ⊎ (parent_id ≢ id))
unfolding check_parent_of
check_parent_of-eq-ok id zero t h = ground arith
check_parent_of-eq-ok id (suc n) t h =
    grind (arith, get_by_id-eq-ok, first-any (λ (m : SysMenu). m.id == suc n) t.db.menus)

check_perms-eq-ok :
    (perms : Option String) (id : ℕ) (t : Tx) {x : Unit {0} × Tx}
    → check_perms perms id t ≡ ok x
    → (x.1.db ≡ t.db) × PermsFree perms id t.db
unfolding check_perms
check_perms-eq-ok perms id t h = grind (arith, is_perms_exists-eq-ok)

check_path-eq-ok :
    (path : Option String) (id : ℕ) (t : Tx) {x : Unit {0} × Tx}
    → check_path path id t ≡ ok x
    → (x.1.db ≡ t.db) × PathFree path id t.db
unfolding check_path
check_path-eq-ok path id t h = grind (arith, is_path_exists-eq-ok)

length-nil : {A : Type 0} (xs : List A) → ltb 0 (length xs) ≡ false → xs ≡ []
length-nil [] h = refl
length-nil (x ∷ xs) h = ground arith

ruleset menu_steps = (
  check_parent-eq-ok, check_parent_of-eq-ok, check_perms-eq-ok, check_path-eq-ok, create_menu-eq-ok,
  update_menu-eq-ok, delete_by_id-eq-ok, get_by_parent_id-eq-ok, is_used_menu_by_ids-eq-ok,
  create_operation_log-eq-ok,
)

pub create_menu_body-MenuCreated :
    (u : UserContext) (p : MenuParam) (t : Tx) {x : SysMenu × Tx}
    → create_menu_body u p t ≡ ok x
    → MenuCreated u p t.db x.1.db
unfolding create_menu_body
create_menu_body-MenuCreated u p t {x} h = record {
  parent = grind (arith, menu_steps);
  perms_free = grind (arith, menu_steps);
  path_free = grind (arith, menu_steps);
  result = grind (arith, menu_steps);
}

pub update_menu_body-MenuUpdated :
    (env : Env) (u : UserContext) (p : MenuParam) (old : SysMenu) (t : Tx) {x : Unit {0} × Tx}
    → update_menu_body env u p old t ≡ ok x
    → MenuUpdated env u p t.db x.1.db
unfolding update_menu_body
update_menu_body-MenuUpdated env u p old t {x} h = record {
  old = old;
  parent = grind (arith, menu_steps);
  not_self = grind (arith, menu_steps);
  perms_free = grind (arith, menu_steps);
  path_free = grind (arith, menu_steps);
  saved = grind (arith, menu_steps);
  result = grind (arith, menu_steps);
}

pub delete_menu_body-MenuDeleted :
    (u : UserContext) (id : ℕ) (old : SysMenu) (t : Tx) {x : Unit {0} × Tx}
    → delete_menu_body u id old t ≡ ok x
    → MenuDeleted u id t.db x.1.db
unfolding delete_menu_body
delete_menu_body-MenuDeleted u id old t {x} h = record {
  old = old;
  childless = length-nil _ (grind (arith, menu_steps));
  unused = grind (arith, menu_steps);
  result = grind (arith, menu_steps);
}
