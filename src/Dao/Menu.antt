-- ===== src/Dao/Menu.antt =====
-- internal/dao/admin/account/menu.go: MenuDao. GetById is sent inside and outside transactions: as
-- `get_by_id`, and as `find_by_id` on the tables.
pub mod Effects
use snowgo.Prelude.{
  ℕ, ◌+◌, Bool, true, false, not, ◌&&◌, List, [], ◌∷◌, map, Option, none, some, ltb, ◌==◌,
  if◌then◌else◌, String, str_eq, any, filter, contains,
}
use snowgo.Xerror.{plain, Result, ok, err}
use snowgo.Dal.Model.{SysMenu}
use snowgo.Dal.Tx.{Db, T, pure, fail, branch, exec, query}
use snowgo.Extern.{Env}
use snowgo.Dao.Role.{first}

-- CreateMenu: INSERT; the table has no unique key beside its id.
unfoldable pub create_menu : SysMenu → T SysMenu
create_menu menu = exec λ d.
    let row = record menu { id = d.next_menu } in
    ok (row, record d { menus = row ∷ d.menus; next_menu = d.next_menu + 1 })

-- The rows after UpdateMenu's Save.
unfoldable pub saved_menus : Env → SysMenu → List SysMenu → Result (List SysMenu)
saved_menus env menu rows =
    if any (λ m. m.id == menu.id) rows
    then ok (map (λ m. if m.id == menu.id then menu else m) rows)
    else env.save_missing_menu menu rows

unfoldable pub update_menu : Env → SysMenu → T SysMenu
update_menu env menu = branch (menu.id == 0) (fail (plain "菜单ID无效")) (
    exec λ d. elim (saved_menus env menu d.menus) [
      | ok rows ↦ ok (menu, record d { menus = rows })
      | err e ↦ err e
    ])

unfoldable pub delete_by_id : ℕ → T (Unit {0})
delete_by_id id =
    branch (id == 0) (fail (plain "菜单ID无效"))
      (exec λ d. ok (tt, record d { menus = filter (λ m. not (m.id == id)) d.menus }))

unfoldable pub find_by_id : ℕ → Db → Result SysMenu
find_by_id id d = if id == 0 then err (plain "菜单ID无效") else first (λ m. m.id == id) d.menus

unfoldable pub get_by_id : ℕ → T SysMenu
get_by_id id = branch (id == 0) (fail (plain "菜单ID无效")) (query λ d. first (λ m. m.id == id) d.menus)

unfoldable pub get_by_parent_id : ℕ → T (List SysMenu)
get_by_parent_id parent_id = query λ d. ok (filter (λ m. m.parent_id == parent_id) d.menus)

unfoldable pub get_all_menus : Db → Result (List SysMenu)
get_all_menus d = ok d.menus

unfoldable pub is_used_menu_by_ids : List ℕ → T Bool
is_used_menu_by_ids [] = pure false
is_used_menu_by_ids (id ∷ ids) =
    query λ d. ok (any (λ r. contains (id ∷ ids) r.menu_id) d.role_menus)

-- Whether a nullable text column holds the text.
abbrev pub holds : Option String → String → Bool
holds none s = false
holds (some t) s = str_eq t s

abbrev pub is_other : ℕ → ℕ → Bool
is_other exclude_id id = if ltb 0 exclude_id then not (id == exclude_id) else true

unfoldable pub is_perms_exists : String → ℕ → T Bool
is_perms_exists perms exclude_id =
    branch (str_eq perms "") (pure false)
      (query λ d. ok (any (λ m. holds m.perms perms && is_other exclude_id m.id) d.menus))

unfoldable pub is_path_exists : String → ℕ → T Bool
is_path_exists path exclude_id =
    branch (str_eq path "") (pure false)
      (query λ d. ok (any (λ m. holds m.path path && is_other exclude_id m.id) d.menus))

unfoldable pub get_role_ids_by_ids : ℕ → Db → Result (List ℕ)
get_role_ids_by_ids menu_id d =
    if menu_id == 0
    then err (plain "menuId不存在")
    else ok (map (λ r. r.role_id) (filter (λ r. r.menu_id == menu_id) d.role_menus))
