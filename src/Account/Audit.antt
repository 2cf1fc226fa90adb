-- ===== src/Account/Audit.antt =====
-- The operation log that a change leaves behind, by create_operation_log on the change's own
-- transaction.
use snowgo.Prelude.{◌≡◌, refl, ap, Option, ◌∷◌}
use snowgo.Xerror.{ok}
use snowgo.Extern.{Env}
use snowgo.Dal.Model.{SysOperationLog, Resource, user, role, menu, Action, create, update, delete}
use snowgo.Dal.Tx.{Db}
use snowgo.Account.Types.{UserContext}
use snowgo.Account.Runtime.{World}
use snowgo.Account.Requests.{
  Request, create_user, update_user, delete_user, reset_pwd, create_role, update_role, delete_role,
  create_menu, update_menu, delete_menu, handle,
}
use snowgo.Account.Refinement.{By}
use snowgo.Account.Handled.{Change, handle-refines}

abbrev pub resource_of : Request → Resource
resource_of (create_user p) = user
resource_of (update_user p) = user
resource_of (delete_user id) = user
resource_of (reset_pwd id password) = user
resource_of (create_role p) = role
resource_of (update_role p) = role
resource_of (delete_role id) = role
resource_of _ = menu

abbrev pub action_of : Request → Action
action_of (create_user p) = create
action_of (create_role p) = create
action_of (create_menu p) = create
action_of (delete_user id) = delete
action_of (delete_role id) = delete
action_of (delete_menu id) = delete
action_of _ = update

-- One new log, that names the user and the request.
abbrev pub Logged : UserContext → Request → Db → Db → Type 0
Logged u r d d' =
    (log : SysOperationLog) × (d'.operation_logs ≡ log ∷ d.operation_logs)
    × (log.operator_id ≡ u.user_id)
    × (log.operator_name ≡ u.username)
    × (log.trace_id ≡ u.trace_id)
    × (log.ip ≡ u.ip)
    × (log.resource ≡ resource_of r)
    × (log.action ≡ action_of r)

logs : {d d' : Db} → d ≡ d' → d.operation_logs ≡ d'.operation_logs
logs e = ap (λ d. d.operation_logs) e

Change-Logged :
    (env : Env) (r : Request) (u : UserContext) (d d' : Db) → Change env r u d d' → Logged u r d d'
Change-Logged env (create_user p) u d d' c = (_, logs c.result, refl, refl, refl, refl, refl, refl)
Change-Logged env (update_user p) u d d' c = (_, logs c.result, refl, refl, refl, refl, refl, refl)
Change-Logged env (delete_user id) u d d' c = (_, logs c.result, refl, refl, refl, refl, refl, refl)
Change-Logged env (reset_pwd id password) u d d' c =
    (_, logs c.result, refl, refl, refl, refl, refl, refl)
Change-Logged env (create_role p) u d d' c = (_, logs c.result, refl, refl, refl, refl, refl, refl)
Change-Logged env (update_role p) u d d' c = (_, logs c.result, refl, refl, refl, refl, refl, refl)
Change-Logged env (delete_role id) u d d' c = (_, logs c.result, refl, refl, refl, refl, refl, refl)
Change-Logged env (create_menu p) u d d' c = (_, logs c.result, refl, refl, refl, refl, refl, refl)
Change-Logged env (update_menu p) u d d' c = (_, logs c.result, refl, refl, refl, refl, refl, refl)
Change-Logged env (delete_menu id) u d d' c = (_, logs c.result, refl, refl, refl, refl, refl, refl)

-- A request that succeeds has added exactly one operation log, on top of those that were there. It
-- names the user who sent the request with their trace id and address, and the kind of resource and
-- of action of the request.
pub handle-is_Logged :
    (env : Env) (ctx : Option UserContext) (r : Request) (w : World)
    → (handle env ctx r w).0 ≡ ok tt
    → By ctx (λ u. Logged u r w.primary) (handle env ctx r w).1.primary
handle-is_Logged env ctx r w h =
    let (u, e, z, c) = handle-refines env ctx r w h in
    (u, e, z, Change-Logged env r u w.primary (handle env ctx r w).1.primary c)
