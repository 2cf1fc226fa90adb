-- ===== src/Account/Menu.antt =====
-- internal/service/admin/account/menu.go: MenuService. Times and logging are left out.
pub mod Tx
pub mod Effects
use snowgo.Prelude.{ℕ, ◌&&◌, List, [], ◌∷◌, Option, ltb, ◌==◌}
use snowgo.Xerror.{biz, menu_parent_self, menu_id_invalid, menu_not_found, Result, ok, err}
use snowgo.Extern.{Env}
use snowgo.Dao.Menu
use snowgo.Account.Types.{UserContext, MenuParam, menu_tree, role_menu}
use snowgo.Account.Runtime.{
  M, World, pure, ◌>>=◌, ◌>>◌, on_error, refuse_if, read, transaction, cache_delete,
}
use snowgo.Account.Context.{get_user_context}
use Tx.{create_menu_body, update_menu_body, delete_menu_body}

unfoldable pub create_menu : Option UserContext → MenuParam → M ℕ
create_menu ctx p = do
  u ← get_user_context ctx
  refuse_if (ltb 0 p.id && p.parent_id == p.id) (biz menu_parent_self)
  menu_obj ← transaction (create_menu_body u p)
  cache_delete menu_tree
  pure menu_obj.id

-- The caches of the roles that have the menu.
unfoldable pub delete_role_caches : List ℕ → M (Unit {0})
delete_role_caches [] = pure tt
delete_role_caches (role_id ∷ rest) = do cache_delete (role_menu role_id); delete_role_caches rest

-- A failed lookup is logged, and leaves no ids.
abbrev pub or_none : M (List ℕ) → M (List ℕ)
or_none m w = elim (m w).0 [ ok ids ↦ (ok ids, (m w).1) | err e ↦ (ok [], (m w).1) ]

unfoldable pub update_menu : Env → Option UserContext → MenuParam → M (Unit {0})
update_menu env ctx p = do
  u ← get_user_context ctx
  refuse_if (p.id == 0) (biz menu_id_invalid)
  old_menu ← on_error (read (Menu.find_by_id p.id)) (λ _. biz menu_not_found)
  transaction (update_menu_body env u p old_menu)
  cache_delete menu_tree
  role_ids ← or_none (read (Menu.get_role_ids_by_ids p.id))
  delete_role_caches role_ids

unfoldable pub delete_menu_by_id : Option UserContext → ℕ → M (Unit {0})
delete_menu_by_id ctx id = do
  u ← get_user_context ctx
  refuse_if (id == 0) (biz menu_id_invalid)
  old_menu ← on_error (read (Menu.find_by_id id)) (λ _. biz menu_not_found)
  transaction (delete_menu_body u id old_menu)
  cache_delete menu_tree
  pure tt
