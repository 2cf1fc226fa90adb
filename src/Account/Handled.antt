-- ===== src/Account/Handled.antt =====
-- A request as a whole: internal/api/admin/account hands each one to its service method. It fails
-- and leaves the tables as they were, or makes its change.
use snowgo.Prelude.{◌≡◌, Option, subst}
use snowgo.Xerror.{Error, ok, err}
use snowgo.Extern.{Env}
use snowgo.Dal.Tx.{Db}
use snowgo.Account.Types.{UserContext}
use snowgo.Account.Runtime.{World}
use snowgo.Account.Outcome.{Outcome, Ends, map-Ends}
use snowgo.Account.Requests.{
  Request, create_user, update_user, delete_user, reset_pwd, create_role, update_role, delete_role,
  create_menu, update_menu, delete_menu, handle,
}
use snowgo.Account.Changes.{
  RoleCreated, RoleUpdated, RoleDeleted, UserCreated, UserUpdated, UserDeleted, PwdReset,
  MenuCreated, MenuUpdated, MenuDeleted,
}
use snowgo.Account.Refinement.{
  By, create_role-Ends, update_role-Ends, delete_role-Ends, create_user-Ends, update_user-Ends,
  delete_user-Ends, reset_pwd-Ends, create_menu-Ends, update_menu-Ends, delete_menu-Ends,
}

-- What a request of the user is to do.
abbrev pub Change : Env → Request → UserContext → Db → Db → Type 0
Change env (create_user p) u = UserCreated env u p
Change env (update_user p) u = UserUpdated u p
Change env (delete_user id) u = UserDeleted u id
Change env (reset_pwd id password) u = PwdReset env u id password
Change env (create_role p) u = RoleCreated u p
Change env (update_role p) u = RoleUpdated env u p
Change env (delete_role id) u = RoleDeleted u id
Change env (create_menu p) u = MenuCreated u p
Change env (update_menu p) u = MenuUpdated env u p
Change env (delete_menu id) u = MenuDeleted u id

handle-Ends :
    (env : Env) (ctx : Option UserContext) (r : Request) (w : World)
    → Ends (By ctx (λ u. Change env r u w.primary)) (handle env ctx r) w
unfolding handle
handle-Ends env ctx (create_user p) w = map-Ends _ tt w (create_user-Ends env ctx p w)
handle-Ends env ctx (update_user p) w = map-Ends _ tt w (update_user-Ends env ctx p w)
handle-Ends env ctx (delete_user id) w = delete_user-Ends env ctx id w
handle-Ends env ctx (reset_pwd id password) w = reset_pwd-Ends env ctx id password w
handle-Ends env ctx (create_role p) w = map-Ends _ tt w (create_role-Ends env ctx p w)
handle-Ends env ctx (update_role p) w = update_role-Ends env ctx p w
handle-Ends env ctx (delete_role id) w = delete_role-Ends env ctx id w
handle-Ends env ctx (create_menu p) w = map-Ends _ tt w (create_menu-Ends env ctx p w)
handle-Ends env ctx (update_menu p) w = update_menu-Ends env ctx p w
handle-Ends env ctx (delete_menu id) w = delete_menu-Ends env ctx id w

-- A request that fails, at whatever step and for whatever reason, leaves the tables of the write
-- node exactly as they were.
pub handle-is_atomic :
    (env : Env) (ctx : Option UserContext) (r : Request) (w : World) {e : Error}
    → (handle env ctx r w).0 ≡ err e
    → (handle env ctx r w).1.primary ≡ w.primary
handle-is_atomic env ctx r w h =
    subst
      (λ res. Outcome (By ctx (λ u. Change env r u w.primary)) w.primary res (handle env ctx r w).1)
      h (handle-Ends env ctx r w).outcome

-- A request that succeeds was sent by a user of a positive id, and takes the tables of the write
-- node to ones that the request's specification allows for that user.
pub handle-refines :
    (env : Env) (ctx : Option UserContext) (r : Request) (w : World)
    → (handle env ctx r w).0 ≡ ok tt
    → By ctx (λ u. Change env r u w.primary) (handle env ctx r w).1.primary
handle-refines env ctx r w h =
    subst
      (λ res. Outcome (By ctx (λ u. Change env r u w.primary)) w.primary res (handle env ctx r w).1)
      h (handle-Ends env ctx r w).outcome
