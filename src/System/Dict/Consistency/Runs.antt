-- ===== src/System/Dict/Consistency/Runs.antt =====
-- Any sequence of requests to the dictionary service.
use snowgo.Prelude.{◌≡◌, refl, sym, subst, Option}
use snowgo.Xerror.{Result, ok, err}
use snowgo.Extern.{Env}
use snowgo.Dal.Tx.{Db}
use snowgo.Account.Types.{UserContext}
use snowgo.Account.Runtime.{World}
use snowgo.System.Dict.Requests.{DictRequest, handle_dict}
use snowgo.System.Dict.Handled.{DictChange, handle_dict-refines, handle_dict-is_atomic}
use snowgo.System.Dict.Consistency.{IsDictConsistent}
use snowgo.System.Dict.Consistency.Preserved.{IsCurrent, DictChange-IsDictConsistent}

-- The worlds that are reached from `w`: by requests, each one sent when the replica has caught up
-- with the dictionary tables, and by what happens outside these tables.
pub data DictRun (env : Env) (w : World) : World → Type 0 where
  here : DictRun env w w
  request :
      {v : World} (ctx : Option UserContext) (q : DictRequest)
      → IsCurrent v.replica v.primary
      → DictRun env w v
      → DictRun env w (handle_dict env ctx q v).1
  drift : {v : World} (v' : World) → v'.primary ≡ v.primary → DictRun env w v → DictRun env w v'

-- What every change of a request keeps, a request keeps, whether it succeeds or fails.
pub handle_dict-keeps :
    (P : Db → Type 0) (env : Env) (ctx : Option UserContext) (q : DictRequest) (w : World)
    → ((u : UserContext) (d' : Db) → DictChange env q u w.replica w.primary d' → P d')
    → P w.primary
    → P (handle_dict env ctx q w).1.primary
handle_dict-keeps P env ctx q w f h = by_result (handle_dict env ctx q w).0 refl
  where
    by_result :
        (x : Result (Unit {0}))
        → (handle_dict env ctx q w).0 ≡ x
        → P (handle_dict env ctx q w).1.primary
    by_result (err e) k = subst P (sym (handle_dict-is_atomic env ctx q w k)) h
    by_result (ok tt) k =
        let (u, e, z, c) = handle_dict-refines env ctx q w k in
        f u (handle_dict env ctx q w).1.primary c

-- Along any sequence of requests to the dictionary service, successful or not, that starts with
-- consistent dictionary tables, they stay consistent: distinct ids below the counters, distinct
-- codes of dictionaries, and every item names a dictionary that is there with the code that it has.
-- When a request is sent the replica has caught up with these two tables; cache and faults are
-- arbitrary.
pub DictRun-IsDictConsistent :
    (env : Env) (w v : World)
    → DictRun env w v
    → IsDictConsistent w.primary
    → IsDictConsistent v.primary
DictRun-IsDictConsistent env w _ here k = k
DictRun-IsDictConsistent env w _ (request {v} ctx q cur run) k =
    let before = DictRun-IsDictConsistent env w v run k in
    handle_dict-keeps IsDictConsistent env ctx q v
      (λ u d' c. DictChange-IsDictConsistent env q u v.replica v.primary d' cur before c) before
DictRun-IsDictConsistent env w _ (drift {v} v' e run) k =
    subst IsDictConsistent (sym e) (DictRun-IsDictConsistent env w v run k)
