-- ===== src/Account/User/Effects.antt =====
-- The transactions of user.go do what Account/Changes asks of them.
use snowgo.Prelude.{ℕ, ◌≡◌, ◌≢◌, refl, String, List, [], ◌∷◌, count_if, contains, arith}
use snowgo.Xerror.{ok}
use snowgo.Extern.{Env, Bytes}
use snowgo.Dal.Model.{SysUser, SysRole}
use snowgo.Dal.Tx.{Tx}
use snowgo.Dao.User.{insert_user_roles}
use snowgo.Dao.User.Effects.{
  create_user-eq-ok, update_user-eq-ok, create_user_role_in_batches-eq-ok, delete_user_role-eq-ok,
  delete_by_id-eq-ok, count_role_by_ids-eq-ok, reset_pwd_by_id-eq-ok,
}
use snowgo.Account.Types.{UserContext, UserParam}
use snowgo.Account.Log.{create_operation_log-eq-ok}
use snowgo.Account.User.Tx.{
  check_roles, user_role_rows, link_roles, create_user_body, update_user_body, delete_user_body,
  reset_pwd_body,
}
use snowgo.Account.Changes.{RolesFound, UserCreated, UserUpdated, UserDeleted, PwdReset}

count_if-contains-nil : (roles : List SysRole) → count_if (λ r. contains [] r.id) roles ≡ 0
count_if-contains-nil [] = refl
count_if-contains-nil (r ∷ rs) = count_if-contains-nil rs

check_roles-eq-ok :
    (ids : List ℕ) (t : Tx) {x : Unit {0} × Tx}
    → check_roles ids t ≡ ok x
    → (x.1.db ≡ t.db) × RolesFound ids t.db
unfolding check_roles
check_roles-eq-ok [] t h = ground (arith, count_if-contains-nil t.db.roles)
check_roles-eq-ok (i ∷ is) t h = grind (arith, count_role_by_ids-eq-ok)

link_roles-eq-ok :
    (user_id : ℕ) (ids : List ℕ) (t : Tx) {x : Unit {0} × Tx}
    → link_roles user_id ids t ≡ ok x
    → (insert_user_roles (user_role_rows user_id ids) t.db.user_roles ≡ ok x.1.db.user_roles)
      × (x.1.db ≡ record (t.db) { user_roles = x.1.db.user_roles })
unfolding link_roles insert_user_roles
link_roles-eq-ok user_id [] t h = ground arith
link_roles-eq-ok user_id (i ∷ is) t h = grind (arith, create_user_role_in_batches-eq-ok)

ruleset user_steps = (
  check_roles-eq-ok, link_roles-eq-ok, create_user-eq-ok, update_user-eq-ok, delete_user_role-eq-ok,
  delete_by_id-eq-ok, reset_pwd_by_id-eq-ok, create_operation_log-eq-ok,
)

pub create_user_body-UserCreated :
    (env : Env) (u : UserContext) (p : UserParam) (pwd : String) (t : Tx) {x : SysUser × Tx}
    → env.hash_password p.password ≡ ok pwd
    → create_user_body u p pwd t ≡ ok x
    → UserCreated env u p t.db x.1.db
unfolding create_user_body
create_user_body-UserCreated env u p pwd t {x} e h = record {
  pwd = pwd;
  hashed = e;
  found = grind (arith, user_steps);
  name_free = grind (arith, user_steps);
  linked = grind (arith, user_steps);
  result = grind (arith, user_steps);
}

pub update_user_body-UserUpdated :
    (u : UserContext) (p : UserParam) (old : SysUser) (t : Tx) {x : Unit {0} × Tx}
    → update_user_body u p old t ≡ ok x
    → UserUpdated u p t.db x.1.db
unfolding update_user_body
update_user_body-UserUpdated u p old t {x} h = record {
  old = old;
  found = grind (arith, user_steps);
  updated = grind (arith, user_steps);
  linked = grind (arith, user_steps);
  result = grind (arith, user_steps);
}

pub delete_user_body-UserDeleted :
    (u : UserContext) (id : ℕ) (old : SysUser) (t : Tx) {x : Unit {0} × Tx}
    → id ≢ u.user_id
    → delete_user_body u id old t ≡ ok x
    → UserDeleted u id t.db x.1.db
unfolding delete_user_body
delete_user_body-UserDeleted u id old t {x} n h = record {
  old = old;
  not_self = n;
  result = grind (arith, user_steps);
}

pub reset_pwd_body-PwdReset :
    (env : Env) (u : UserContext) (id : ℕ) (password : Bytes) (target : SysUser) (pwd : String)
    (t : Tx) {x : Unit {0} × Tx}
    → env.hash_password password ≡ ok pwd
    → reset_pwd_body u id target pwd t ≡ ok x
    → PwdReset env u id password t.db x.1.db
unfolding reset_pwd_body
reset_pwd_body-PwdReset env u id password target pwd t {x} e h = record {
  target = target;
  pwd = pwd;
  hashed = e;
  result = grind (arith, user_steps);
}
