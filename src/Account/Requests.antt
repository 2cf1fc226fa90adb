-- ===== src/Account/Requests.antt =====
-- The requests that change users, roles and menus, as one type: internal/api/admin/account hands
-- each to its service method.
use snowgo.Prelude.{ℕ, Option}
use snowgo.Extern.{Env, Bytes}
use snowgo.Account.Types.{UserContext, UserParam, RoleParam, MenuParam}
use snowgo.Account.Runtime.{M, pure, ◌>>◌}
use snowgo.Account.Role
use snowgo.Account.User
use snowgo.Account.Menu

pub data Request : Type 0 where
  create_user update_user : UserParam → Request
  delete_user : ℕ → Request
  reset_pwd : ℕ → Bytes → Request
  create_role update_role : RoleParam → Request
  delete_role : ℕ → Request
  create_menu update_menu : MenuParam → Request
  delete_menu : ℕ → Request

unfoldable pub handle : Env → Option UserContext → Request → M (Unit {0})
handle env ctx (create_user p) = do User.create_user env ctx p; pure tt
handle env ctx (update_user p) = do User.update_user ctx p; pure tt
handle env ctx (delete_user id) = User.delete_by_id ctx id
handle env ctx (reset_pwd id password) = User.reset_pwd_by_id env ctx id password
handle env ctx (create_role p) = do Role.create_role ctx p; pure tt
handle env ctx (update_role p) = Role.update_role env ctx p
handle env ctx (delete_role id) = Role.delete_role ctx id
handle env ctx (create_menu p) = do Menu.create_menu ctx p; pure tt
handle env ctx (update_menu p) = Menu.update_menu env ctx p
handle env ctx (delete_menu id) = Menu.delete_menu_by_id ctx id
