-- ===== src/System/Dict/Calm.antt =====
-- The transactions of dict.go, when no fault is to come.
use snowgo.Prelude.{ℕ, ◌≡◌, refl, Bool, true, false, [], arith, subst}
use snowgo.Xerror.{Error, Result, ok, err}
use snowgo.Extern.{Env}
use snowgo.Dal.Model.{SysDict, SysDictItem, SysOperationLog}
use snowgo.Dal.Tx as Tx
use snowgo.Dal.Tx.{Db, Tx, T, exec, branch, when, on_error}
use snowgo.Dao.Dict as DictDao
use snowgo.Account.Types.{UserContext}
use snowgo.Account.Log.{create_operation_log}
use snowgo.Account.Runtime.{World, Cache, transaction, commit}
use snowgo.System.Dict.Types.{DictParam, DictItemParam}
use snowgo.System.Dict.Tx.{
  create_dict_body, recode_items, update_dict_body, delete_dict_body, create_item_body,
  update_item_body, delete_item_body,
}

-- A step of a transaction to which no fault comes if none is to come.
pub record IsCalm {A : Type 0} (m : T A) : Type 0 where
  pub keeps : (d : Db) {x : A × Tx} → m (record { db = d; faults = [] }) ≡ ok x → x.1.faults ≡ []

module _ {A : Type 0} where
  exec-IsCalm : (f : Db → Result (A × Db)) → IsCalm (exec f)
  unfolding exec
  exec-IsCalm f = record { keeps = λ d h. ground arith }

  on_error-IsCalm : (m : T A) (f : Error → Error) → IsCalm m → IsCalm (on_error m f)
  on_error-IsCalm m f c = record { keeps = λ d {x} h. c.keeps d {x = x} (ground arith) }

  fail-IsCalm : (e : Error) → IsCalm (Tx.fail {A = A} e)
  fail-IsCalm e = record { keeps = λ d h. cc }

  branch-IsCalm : (b : Bool) (m n : T A) → IsCalm m → IsCalm n → IsCalm (branch b m n)
  branch-IsCalm true m n c c' = record { keeps = c.keeps }
  branch-IsCalm false m n c c' = record { keeps = c'.keeps }

pure-IsCalm : {A : Type 0} (a : A) → IsCalm (Tx.pure a)
pure-IsCalm a = record { keeps = λ d h. ground arith }

at_rest : (s : Tx) → s.faults ≡ [] → s ≡ record { db = s.db; faults = [] }
at_rest s h = ground arith

>>=-IsCalm :
    {A B : Type 0} (m : T A) (k : A → T B)
    → IsCalm m
    → ((a : A) → IsCalm (k a))
    → IsCalm (Tx.◌>>=◌ m k)
>>=-IsCalm {A} {B} m k c c' = record {
  keeps = λ d {x} h.
      let (a, s, first, second) = Tx.>>=-eq-ok m k (record { db = d; faults = [] }) h in
      (c' a).keeps s.db (subst (λ t. k a t ≡ ok x) (at_rest s (c.keeps d first)) second);
}

log-IsCalm : (log : SysOperationLog) → IsCalm (create_operation_log log)
unfolding create_operation_log
log-IsCalm log = exec-IsCalm _

module _ (u : UserContext) where
  pub create_dict_body-IsCalm : (p : DictParam) → IsCalm (create_dict_body u p)
  unfolding create_dict_body DictDao.create_dict
  create_dict_body-IsCalm p =
      >>=-IsCalm _ _ (on_error-IsCalm _ _ (exec-IsCalm _))
        (λ row. >>=-IsCalm _ _ (on_error-IsCalm _ _ (log-IsCalm _)) (λ _. pure-IsCalm row))

  pub create_item_body-IsCalm :
      (p : DictItemParam) (row : SysDict) → IsCalm (create_item_body u p row)
  unfolding create_item_body DictDao.create_dict_item
  create_item_body-IsCalm p row =
      >>=-IsCalm _ _ (on_error-IsCalm _ _ (exec-IsCalm _))
        (λ item. >>=-IsCalm _ _ (on_error-IsCalm _ _ (log-IsCalm _)) (λ _. pure-IsCalm item))

  pub delete_item_body-IsCalm : (id : ℕ) (old : SysDictItem) → IsCalm (delete_item_body u id old)
  unfolding delete_item_body DictDao.delete_item_by_id
  delete_item_body-IsCalm id old =
      >>=-IsCalm _ _ (on_error-IsCalm _ _ (branch-IsCalm _ _ _ (fail-IsCalm _) (exec-IsCalm _)))
        (λ _. on_error-IsCalm _ _ (log-IsCalm _))

  pub delete_dict_body-IsCalm : (id : ℕ) (old : SysDict) → IsCalm (delete_dict_body u id old)
  unfolding delete_dict_body DictDao.delete_item_by_dict_id DictDao.delete_by_id
  delete_dict_body-IsCalm id old =
      >>=-IsCalm _ _ (on_error-IsCalm _ _ (branch-IsCalm _ _ _ (fail-IsCalm _) (exec-IsCalm _)))
        (λ _.
          >>=-IsCalm _ _ (on_error-IsCalm _ _ (branch-IsCalm _ _ _ (fail-IsCalm _) (exec-IsCalm _)))
            (λ _. on_error-IsCalm _ _ (log-IsCalm _)))

  pub update_item_body-IsCalm :
      (env : Env) (p : DictItemParam) (old : SysDictItem) → IsCalm (update_item_body env u p old)
  unfolding update_item_body DictDao.update_dict_item
  update_item_body-IsCalm env p old =
      >>=-IsCalm _ _ (on_error-IsCalm _ _ (branch-IsCalm _ _ _ (fail-IsCalm _) (exec-IsCalm _)))
        (λ _. on_error-IsCalm _ _ (log-IsCalm _))

  pub update_dict_body-IsCalm :
      (env : Env) (p : DictParam) (old : SysDict) → IsCalm (update_dict_body env u p old)
  unfolding update_dict_body recode_items DictDao.update_dict DictDao.update_item_by_dict_id
  update_dict_body-IsCalm env p old =
      >>=-IsCalm _ _ (on_error-IsCalm _ _ (branch-IsCalm _ _ _ (fail-IsCalm _) (exec-IsCalm _)))
        (λ _.
          >>=-IsCalm _ _
            (branch-IsCalm _ _ _
              (on_error-IsCalm _ _ (branch-IsCalm _ _ _ (fail-IsCalm _) (exec-IsCalm _)))
              (pure-IsCalm tt))
            (λ _. on_error-IsCalm _ _ (log-IsCalm _)))

-- A world to which no fault comes.
abbrev pub still : Db → Db → Cache → World
still d r c = record { primary = d; replica = r; cache = c; faults = [] }

-- A calm transaction leaves such a world, with other tables.
pub transaction-still :
    {A : Type 0} (body : T A) (d r : Db) (c : Cache)
    → IsCalm body
    → (transaction body (still d r c)).1 ≡ still (transaction body (still d r c)).1.primary r c
unfolding transaction
transaction-still {A} body d r c calm = by_result (body (record { db = d; faults = [] })) refl
  where
    by_result :
        (x : Result (A × Tx))
        → body (record { db = d; faults = [] }) ≡ x
        → (commit (still d r c) x).1 ≡ still (commit (still d r c) x).1.primary r c
    by_result (err e) h = refl
    by_result (ok (a, t)) h = rw (calm.keeps d h) refl
