-- ===== src/Account/Log.antt =====
-- internal/service/admin/system/operation_log.go: CreateOperationLog, on the transaction of the
-- change that it records. internal/dao/admin/system/operation_log.go: Create.
use snowgo.Prelude.{◌∷◌, ◌≡◌, arith}
use snowgo.Xerror.{ok}
use snowgo.Dal.Model.{SysOperationLog}
use snowgo.Dal.Tx.{T, Tx, exec, exec-eq-ok}

unfoldable pub create_operation_log : SysOperationLog → T (Unit {0})
create_operation_log log = exec λ d. ok (tt, record d { operation_logs = log ∷ d.operation_logs })

pub create_operation_log-eq-ok :
    (log : SysOperationLog) (t : Tx) {x : Unit {0} × Tx}
    → create_operation_log log t ≡ ok x
    → x.1.db ≡ record (t.db) { operation_logs = log ∷ t.db.operation_logs }
unfolding create_operation_log
create_operation_log-eq-ok log t {x} h = let k = exec-eq-ok _ t h in ground arith
