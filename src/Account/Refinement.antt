-- ===== src/Account/Refinement.antt =====
-- Every request that changes users, roles or menus either fails and leaves the tables as they were,
-- or makes the change that Account/Changes states, on behalf of the user who sent it.
use snowgo.Prelude.{==-false, ℕ, ◌≡◌, ◌≢◌, Option, some, List, [], ◌∷◌}
use snowgo.Extern.{Env, Bytes}
use snowgo.Dal.Tx.{Db}
use snowgo.Account.Types.{UserContext, RoleParam, UserParam, MenuParam, role_menu}
use snowgo.Account.Runtime.{World}
use snowgo.Account.Outcome.{
  Ends, IsQuiet, refuse_if-Ends, context-Ends, read-Ends, lift-Ends, transaction-Ends,
  last_transaction-Ends, pure-IsQuiet, cache_delete-IsQuiet, or_none-IsQuiet, password-Ends,
}
use snowgo.Account.Role
use snowgo.Account.Role.Effects.{
  create_role_body-RoleCreated, update_role_body-RoleUpdated, delete_role_body-RoleDeleted,
}
use snowgo.Account.User
use snowgo.Account.Menu
use snowgo.Account.Menu.{delete_role_caches}
use snowgo.Account.User.Effects.{
  create_user_body-UserCreated, update_user_body-UserUpdated, delete_user_body-UserDeleted,
  reset_pwd_body-PwdReset,
}
use snowgo.Account.Menu.Effects.{
  create_menu_body-MenuCreated, update_menu_body-MenuUpdated, delete_menu_body-MenuDeleted,
}
use snowgo.Account.Changes.{
  RoleCreated, RoleUpdated, RoleDeleted, UserCreated, UserUpdated, UserDeleted, PwdReset,
  MenuCreated, MenuUpdated, MenuDeleted,
}

-- A change made by the user of the request.
abbrev pub By : Option UserContext → (UserContext → Db → Type 0) → Db → Type 0
By ctx P d = (u : UserContext) × (ctx ≡ some u) × (u.user_id ≢ 0) × P u d

module _ (env : Env) (ctx : Option UserContext) where
  pub create_role-Ends :
      (p : RoleParam) (w : World)
      → Ends (By ctx (λ u. RoleCreated u p w.primary)) (Role.create_role ctx p) w
  unfolding Role.create_role
  create_role-Ends p w = context-Ends ctx _ w λ u e z. read-Ends _ _ _ w λ a fs _.
      refuse_if-Ends a _ _ _ λ _.
        transaction-Ends _ _ _ (λ x run. (u, e, z, create_role_body-RoleCreated u p _ run))
          (λ role. pure-IsQuiet role.id)

  pub update_role-Ends :
      (p : RoleParam) (w : World)
      → Ends (By ctx (λ u. RoleUpdated env u p w.primary)) (Role.update_role env ctx p) w
  unfolding Role.update_role
  update_role-Ends p w = context-Ends ctx _ w λ u e z. refuse_if-Ends _ _ _ _ λ _.
      read-Ends _ _ _ _ λ a fs _. refuse_if-Ends a _ _ _ λ _. read-Ends _ _ _ _ λ old fs' _.
        transaction-Ends _ _ _ (λ x run. (u, e, z, update_role_body-RoleUpdated env u p old _ run))
          (λ _. cache_delete-IsQuiet _ _ (pure-IsQuiet tt))

  pub delete_role-Ends :
      (id : ℕ) (w : World)
      → Ends (By ctx (λ u. RoleDeleted u id w.primary)) (Role.delete_role ctx id) w
  unfolding Role.delete_role
  delete_role-Ends id w = context-Ends ctx _ w λ u e z. refuse_if-Ends _ _ _ _ λ _.
      refuse_if-Ends _ _ _ _ λ n. read-Ends _ _ _ _ λ old fs _.
        transaction-Ends _ _ _
          (λ x run. (u, e, z, delete_role_body-RoleDeleted u id old _ (==-false _ _ n) run))
          (λ _. cache_delete-IsQuiet _ _ (pure-IsQuiet tt))

  pub create_user-Ends :
      (p : UserParam) (w : World)
      → Ends (By ctx (λ u. UserCreated env u p w.primary)) (User.create_user env ctx p) w
  unfolding User.create_user
  create_user-Ends p w = context-Ends ctx _ w λ u e z. read-Ends _ _ _ _ λ a fs _.
      refuse_if-Ends a _ _ _ λ _. password-Ends p.password _ _ (
        lift-Ends _ _ _ _ λ pwd hashed.
          transaction-Ends _ _ _
            (λ x run. (u, e, z, create_user_body-UserCreated env u p pwd _ hashed run))
            (λ user. pure-IsQuiet user.id))

  pub update_user-Ends :
      (p : UserParam) (w : World)
      → Ends (By ctx (λ u. UserUpdated u p w.primary)) (User.update_user ctx p) w
  unfolding User.update_user
  update_user-Ends p w = context-Ends ctx _ w λ u e z. refuse_if-Ends _ _ _ _ λ _.
      read-Ends _ _ _ _ λ old fs _. read-Ends _ _ _ _ λ a fs' _. refuse_if-Ends a _ _ _ λ _.
        transaction-Ends _ _ _ (λ x run. (u, e, z, update_user_body-UserUpdated u p old _ run))
          (λ _. cache_delete-IsQuiet _ _ (pure-IsQuiet p.id))

  pub delete_user-Ends :
      (id : ℕ) (w : World)
      → Ends (By ctx (λ u. UserDeleted u id w.primary)) (User.delete_by_id ctx id) w
  unfolding User.delete_by_id
  delete_user-Ends id w = context-Ends ctx _ w λ u e z. refuse_if-Ends _ _ _ _ λ _.
      refuse_if-Ends _ _ _ _ λ n. read-Ends _ _ _ _ λ old fs _.
        transaction-Ends _ _ _
          (λ x run. (u, e, z, delete_user_body-UserDeleted u id old _ (==-false _ _ n) run))
          (λ _. cache_delete-IsQuiet _ _ (pure-IsQuiet tt))

  pub reset_pwd-Ends :
      (id : ℕ) (password : Bytes) (w : World)
      → Ends
          (By ctx (λ u. PwdReset env u id password w.primary))
          (User.reset_pwd_by_id env ctx id password)
          w
  unfolding User.reset_pwd_by_id
  reset_pwd-Ends id password w = refuse_if-Ends _ _ _ _ λ _. password-Ends password _ _ (
      context-Ends ctx _ _ λ u e z. read-Ends _ _ _ _ λ target fs _. lift-Ends _ _ _ _ λ pwd hashed.
        last_transaction-Ends _ _
          λ x run. (u, e, z, reset_pwd_body-PwdReset env u id password target pwd _ hashed run))

  pub create_menu-Ends :
      (p : MenuParam) (w : World)
      → Ends (By ctx (λ u. MenuCreated u p w.primary)) (Menu.create_menu ctx p) w
  unfolding Menu.create_menu
  create_menu-Ends p w = context-Ends ctx _ w λ u e z. refuse_if-Ends _ _ _ _ λ _.
      transaction-Ends _ _ _ (λ x run. (u, e, z, create_menu_body-MenuCreated u p _ run))
        (λ menu. cache_delete-IsQuiet _ _ (pure-IsQuiet menu.id))

  delete_role_caches-IsQuiet : (ids : List ℕ) → IsQuiet (delete_role_caches ids)
  unfolding delete_role_caches
  delete_role_caches-IsQuiet [] = pure-IsQuiet tt
  delete_role_caches-IsQuiet (id ∷ ids) =
      cache_delete-IsQuiet (role_menu id) _ (delete_role_caches-IsQuiet ids)

  pub update_menu-Ends :
      (p : MenuParam) (w : World)
      → Ends (By ctx (λ u. MenuUpdated env u p w.primary)) (Menu.update_menu env ctx p) w
  unfolding Menu.update_menu
  update_menu-Ends p w = context-Ends ctx _ w λ u e z. refuse_if-Ends _ _ _ _ λ _.
      read-Ends _ _ _ _ λ old fs _.
        transaction-Ends _ _ _ (λ x run. (u, e, z, update_menu_body-MenuUpdated env u p old _ run))
          (λ _. cache_delete-IsQuiet _ _ (or_none-IsQuiet _ _ delete_role_caches-IsQuiet))

  pub delete_menu-Ends :
      (id : ℕ) (w : World)
      → Ends (By ctx (λ u. MenuDeleted u id w.primary)) (Menu.delete_menu_by_id ctx id) w
  unfolding Menu.delete_menu_by_id
  delete_menu-Ends id w = context-Ends ctx _ w λ u e z. refuse_if-Ends _ _ _ _ λ _.
      read-Ends _ _ _ _ λ old fs _.
        transaction-Ends _ _ _ (λ x run. (u, e, z, delete_menu_body-MenuDeleted u id old _ run))
          (λ _. cache_delete-IsQuiet _ _ (pure-IsQuiet tt))
