-- ===== src/Dal/Tx.antt =====
-- The account and dictionary tables and the body of a transaction over them. Rows are kept newest first; no
-- statement modelled here depends on their order.
use snowgo.Prelude.{ℕ, ◌≡◌, refl, Bool, true, false, List, [], ◌∷◌, Option, none, some, arith}
use snowgo.Xerror.{Error, mysql, driver, Result, ok, err, map_err}
use snowgo.Dal.Model.{
  SysUser, SysRole, SysMenu, SysUserRole, SysRoleMenu, SysDict, SysDictItem, SysOperationLog,
}

-- `next_user` and its like are the AUTO_INCREMENT counters.
pub record Db : Type 0 where
  pub users : List SysUser
  pub roles : List SysRole
  pub menus : List SysMenu
  pub user_roles : List SysUserRole
  pub role_menus : List SysRoleMenu
  pub dicts : List SysDict
  pub dict_items : List SysDictItem
  pub operation_logs : List SysOperationLog
  pub next_user : ℕ
  pub next_role : ℕ
  pub next_menu : ℕ
  pub next_dict : ℕ
  pub next_dict_item : ℕ

-- How a statement can fail outside the tables: an error of the server with its number, or any other
-- failure of the connection, the context or the driver.
pub data Fault : Type 0 where
  server connection : ℕ → Fault

abbrev pub error_of : Fault → Error
error_of (server number) = mysql number
error_of (connection reason) = driver reason

-- What becomes of the statements to come, in order: `some x` makes one fail with `x`. After the
-- end of the list every statement is carried out.
abbrev pub Faults : Type 0
Faults = List (Option Fault)

pub record Tx : Type 0 where
  pub db : Db
  pub faults : Faults

-- A failing step drops the state: the transaction around it is rolled back.
abbrev pub T : Type 0 → Type 0
T A = Tx → Result (A × Tx)

abbrev pub pure : {A : Type 0} → A → T A
pure a t = ok (a, t)

abbrev pub fail : {A : Type 0} → Error → T A
fail e t = err e

abbrev pub bind_result : {A B : Type 0} → Result (A × Tx) → (A → T B) → Result (B × Tx)
bind_result (ok (a, t)) f = f a t
bind_result (err e) f = err e

infixl 5 ◌>>=◌ ◌>>◌
abbrev pub ◌>>=◌ : {A B : Type 0} → T A → (A → T B) → T B
◌>>=◌ m f t = bind_result (m t) f

abbrev pub ◌>>◌ : {A B : Type 0} → T A → T B → T B
m >> k = m >>= λ _. k

-- `if cond { return err }`
abbrev pub refuse_if : Bool → Error → T (Unit {0})
refuse_if true e = fail e
refuse_if false e = pure tt

-- A branch between two bodies, and one with no other side.
abbrev pub branch : {A : Type 0} → Bool → T A → T A → T A
branch true m n t = m t
branch false m n t = n t

abbrev pub when : Bool → T (Unit {0}) → T (Unit {0})
when b m = branch b m (pure tt)

-- `if err != nil { return f(err) }` after a step.
abbrev pub on_error : {A : Type 0} → T A → (Error → Error) → T A
on_error m f t = map_err f (m t)

abbrev pub run_statement : {A : Type 0} → (Db → Result (A × Db)) → Db → Faults → Result (A × Tx)
run_statement f d fs = elim (f d) [
  | ok r ↦ ok (r.0, record { db = r.1; faults = fs })
  | err e ↦ err e
]

abbrev pub with_fault : {A : Type 0} → (Db → Result (A × Db)) → Db → Faults → Result (A × Tx)
with_fault f d [] = run_statement f d []
with_fault f d (none ∷ fs) = run_statement f d fs
with_fault f d (some x ∷ fs) = err (error_of x)

-- One statement, sent on the transaction's connection.
unfoldable pub exec : {A : Type 0} → (Db → Result (A × Db)) → T A
exec f t = with_fault f t.db t.faults

-- A statement that only reads.
unfoldable pub query : {A : Type 0} → (Db → Result A) → T A
unfolding exec
query f = exec (λ d. elim (f d) [ ok a ↦ ok (a, d) | err e ↦ err e ])

module _ {A : Type 0} where
  -- A statement that succeeds has done what it says.
  pub exec-eq-ok :
      (f : Db → Result (A × Db)) (t : Tx) {x : A × Tx} → exec f t ≡ ok x → f t.db ≡ ok (x.0, x.1.db)
  unfolding exec
  exec-eq-ok f t h = ground arith

  pub query-eq-ok :
      (f : Db → Result A) (t : Tx) {x : A × Tx}
      → query f t ≡ ok x
      → (f t.db ≡ ok x.0) × (x.1.db ≡ t.db)
  unfolding query
  query-eq-ok f t h = ground arith

  -- A refusal that did not happen.
  pub branch-fail-eq-ok :
      (b : Bool) (e : Error) (m : T A) (t : Tx) {x : A × Tx}
      → branch b (fail e) m t ≡ ok x
      → (b ≡ false) × (m t ≡ ok x)
  branch-fail-eq-ok true e m t h = cc
  branch-fail-eq-ok false e m t h = (refl, h)

  pub guarded_exec-eq-ok :
      (b : Bool) (e : Error) (f : Db → Result (A × Db)) (t : Tx) {x : A × Tx}
      → branch b (fail e) (exec f) t ≡ ok x
      → (b ≡ false) × (f t.db ≡ ok (x.0, x.1.db))
  guarded_exec-eq-ok b e f t h =
      let r = branch-fail-eq-ok b e (exec f) t h in (r.0, exec-eq-ok f t r.1)

  -- Without faults to come it is carried out.
  pub exec-no_faults :
      (f : Db → Result (A × Db)) (d : Db)
      → exec f (record { db = d; faults = [] }) ≡ run_statement f d []
  unfolding exec
  exec-no_faults f d = refl

-- A sequence that succeeds is made of two that do.
pub >>=-eq-ok :
    {A B : Type 0} (m : T A) (f : A → T B) (t : Tx) {b : B} {t' : Tx}
    → (m >>= f) t ≡ ok (b, t')
    → (a : A) × (s : Tx) × (m t ≡ ok (a, s)) × (f a s ≡ ok (b, t'))
>>=-eq-ok m f t {b} {t'} h = split (m t) refl h
  where
    split :
        (r : Result _)
        → m t ≡ r
        → bind_result r f ≡ ok (b, t')
        → (a : _) × (s : Tx) × (m t ≡ ok (a, s)) × (f a s ≡ ok (b, t'))
    split (ok (a, s)) e k = (a, s, e, k)
    split (err x) e k = cc
