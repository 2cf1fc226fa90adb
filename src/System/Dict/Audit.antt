-- ===== src/System/Dict/Audit.antt =====
-- The operation log that a change of the dictionary service leaves behind.
use snowgo.Prelude.{◌≡◌, refl, ap, Option, ◌∷◌}
use snowgo.Xerror.{ok}
use snowgo.Extern.{Env}
use snowgo.Dal.Model.{SysOperationLog, Resource, dict, dict_item, Action, create, update, delete}
use snowgo.Dal.Tx.{Db}
use snowgo.Account.Types.{UserContext}
use snowgo.Account.Runtime.{World}
use snowgo.Account.Refinement.{By}
use snowgo.System.Dict.Requests.{
  DictRequest, create_dict, update_dict, delete_dict, create_item, update_item, delete_item,
  handle_dict,
}
use snowgo.System.Dict.Handled.{DictChange, handle_dict-refines}

abbrev pub resource_of : DictRequest → Resource
resource_of (create_dict p) = dict
resource_of (update_dict p) = dict
resource_of (delete_dict id) = dict
resource_of _ = dict_item

abbrev pub action_of : DictRequest → Action
action_of (create_dict p) = create
action_of (create_item p) = create
action_of (delete_dict id) = delete
action_of (delete_item id) = delete
action_of _ = update

-- One new log, that names the user and the request.
abbrev pub DictLogged : UserContext → DictRequest → Db → Db → Type 0
DictLogged u q d d' =
    (log : SysOperationLog) × (d'.operation_logs ≡ log ∷ d.operation_logs)
    × (log.operator_id ≡ u.user_id)
    × (log.operator_name ≡ u.username)
    × (log.trace_id ≡ u.trace_id)
    × (log.ip ≡ u.ip)
    × (log.resource ≡ resource_of q)
    × (log.action ≡ action_of q)

logs : {d d' : Db} → d ≡ d' → d.operation_logs ≡ d'.operation_logs
logs e = ap (λ d. d.operation_logs) e

DictChange-DictLogged :
    (env : Env) (q : DictRequest) (u : UserContext) (r d d' : Db)
    → DictChange env q u r d d'
    → DictLogged u q d d'
DictChange-DictLogged env (create_dict p) u r d d' c =
    (_, logs c.result, refl, refl, refl, refl, refl, refl)
DictChange-DictLogged env (update_dict p) u r d d' c =
    (_, logs c.result, refl, refl, refl, refl, refl, refl)
DictChange-DictLogged env (delete_dict id) u r d d' c =
    (_, logs c.result, refl, refl, refl, refl, refl, refl)
DictChange-DictLogged env (create_item p) u r d d' c =
    (_, logs c.result, refl, refl, refl, refl, refl, refl)
DictChange-DictLogged env (update_item p) u r d d' c =
    (_, logs c.result, refl, refl, refl, refl, refl, refl)
DictChange-DictLogged env (delete_item id) u r d d' c =
    (_, logs c.result, refl, refl, refl, refl, refl, refl)

-- A request to the dictionary service that succeeds has added exactly one operation log, on top of
-- those that were there. It names the user who sent the request with their trace id and address,
-- and the kind of resource and of action of the request.
pub handle_dict-is_Logged :
    (env : Env) (ctx : Option UserContext) (q : DictRequest) (w : World)
    → (handle_dict env ctx q w).0 ≡ ok tt
    → By ctx (λ u. DictLogged u q w.primary) (handle_dict env ctx q w).1.primary
handle_dict-is_Logged env ctx q w h =
    let (u, e, z, c) = handle_dict-refines env ctx q w h in
    (
      u,
      e,
      z,
      DictChange-DictLogged env q u w.replica w.primary (handle_dict env ctx q w).1.primary c,
    )
