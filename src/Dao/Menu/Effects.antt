-- ===== src/Dao/Menu/Effects.antt =====
-- What a statement of MenuDao has done when it succeeds.
use snowgo.Prelude.{
  ℕ, ◌+◌, ◌≡◌, not, List, [], ◌∷◌, ◌==◌, any, contains, filter, arith, Bool, true, String, ◌&&◌,
  str_eq, ◌⊎◌,
}
use snowgo.Xerror.{plain, ok}
use snowgo.Extern.{Env}
use snowgo.Dal.Model.{SysMenu}
use snowgo.Dal.Tx.{Tx, exec, query, exec-eq-ok, query-eq-ok, guarded_exec-eq-ok, branch-fail-eq-ok}
use snowgo.Dao.Role.{first}
use snowgo.Dao.Menu.{
  create_menu, saved_menus, update_menu, delete_by_id, get_by_id, get_by_parent_id,
  is_used_menu_by_ids, is_perms_exists, is_path_exists, holds, is_other,
}

pub create_menu-eq-ok :
    (menu : SysMenu) (t : Tx) {x : SysMenu × Tx}
    → create_menu menu t ≡ ok x
    → (x.0 ≡ record menu { id = t.db.next_menu })
      × (x.1.db ≡ record (t.db) { menus = x.0 ∷ t.db.menus; next_menu = t.db.next_menu + 1 })
unfolding create_menu
create_menu-eq-ok menu t {x} h = let k = exec-eq-ok _ t h in ground arith

pub update_menu-eq-ok :
    (env : Env) (menu : SysMenu) (t : Tx) {x : SysMenu × Tx}
    → update_menu env menu t ≡ ok x
    → (x.0 ≡ menu)
      × (saved_menus env menu t.db.menus ≡ ok x.1.db.menus)
      × (x.1.db ≡ record (t.db) { menus = x.1.db.menus })
unfolding update_menu
update_menu-eq-ok env menu t {x} h = let k = guarded_exec-eq-ok _ _ _ t h in ground arith

pub delete_by_id-eq-ok :
    (id : ℕ) (t : Tx) {x : Unit {0} × Tx}
    → delete_by_id id t ≡ ok x
    → x.1.db ≡ record (t.db) { menus = filter (λ m. not (m.id == id)) t.db.menus }
unfolding delete_by_id
delete_by_id-eq-ok id t {x} h = let k = guarded_exec-eq-ok _ _ _ t h in ground arith

pub get_by_id-eq-ok :
    (id : ℕ) (t : Tx) {x : SysMenu × Tx}
    → get_by_id id t ≡ ok x
    → (first (λ m. m.id == id) t.db.menus ≡ ok x.0) × (x.1.db ≡ t.db)
unfolding get_by_id
get_by_id-eq-ok id t {x} h =
    query-eq-ok (λ d. first (λ m. m.id == id) d.menus) t
      (branch-fail-eq-ok (id == 0) (plain "菜单ID无效") (query _) t h).1

pub get_by_parent_id-eq-ok :
    (parent_id : ℕ) (t : Tx) {x : List SysMenu × Tx}
    → get_by_parent_id parent_id t ≡ ok x
    → (x.0 ≡ filter (λ m. m.parent_id == parent_id) t.db.menus) × (x.1.db ≡ t.db)
unfolding get_by_parent_id
get_by_parent_id-eq-ok parent_id t {x} h = let k = query-eq-ok _ t h in ground arith

pub is_used_menu_by_ids-eq-ok :
    (id : ℕ) (t : Tx) {x : Bool × Tx}
    → is_used_menu_by_ids (id ∷ []) t ≡ ok x
    → (x.0 ≡ any (λ r. contains (id ∷ []) r.menu_id) t.db.role_menus) × (x.1.db ≡ t.db)
unfolding is_used_menu_by_ids
is_used_menu_by_ids-eq-ok id t {x} h = let k = query-eq-ok _ t h in ground arith

pub is_perms_exists-eq-ok :
    (perms : String) (exclude_id : ℕ) (t : Tx) {x : Bool × Tx}
    → is_perms_exists perms exclude_id t ≡ ok x
    → ((str_eq perms "" ≡ true)
        ⊎ (x.0 ≡ any (λ m. holds m.perms perms && is_other exclude_id m.id) t.db.menus))
      × (x.1.db ≡ t.db)
unfolding is_perms_exists query exec
is_perms_exists-eq-ok perms exclude_id t h = ground arith

pub is_path_exists-eq-ok :
    (path : String) (exclude_id : ℕ) (t : Tx) {x : Bool × Tx}
    → is_path_exists path exclude_id t ≡ ok x
    → ((str_eq path "" ≡ true)
        ⊎ (x.0 ≡ any (λ m. holds m.path path && is_other exclude_id m.id) t.db.menus))
      × (x.1.db ≡ t.db)
unfolding is_path_exists query exec
is_path_exists-eq-ok path exclude_id t h = ground arith
