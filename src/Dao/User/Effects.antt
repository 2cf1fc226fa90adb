-- ===== src/Dao/User/Effects.antt =====
-- What a statement of UserDao has done when it succeeds.
use snowgo.Prelude.{
  ℕ, ◌+◌, ◌≡◌, not, List, map, ◌==◌, if◌then◌else◌, ◌∷◌, any, count_if, contains, filter, arith,
  String, false,
}
use snowgo.Xerror.{ok}
use snowgo.Dal.Model.{SysUser, SysUserRole}
use snowgo.Dal.Tx.{Tx, exec-eq-ok, query-eq-ok, guarded_exec-eq-ok}
use snowgo.Dao.User.{
  same_name_or_tel, create_user, updated_users, update_user, insert_user_roles,
  create_user_role_in_batches, delete_user_role, delete_by_id, count_role_by_ids, reset_pwd_by_id,
}

pub create_user-eq-ok :
    (user : SysUser) (t : Tx) {x : SysUser × Tx}
    → create_user user t ≡ ok x
    → (any (same_name_or_tel user.username user.tel) t.db.users ≡ false)
      × (x.0 ≡ record user { id = t.db.next_user })
      × (x.1.db ≡ record (t.db) { users = x.0 ∷ t.db.users; next_user = t.db.next_user + 1 })
unfolding create_user
create_user-eq-ok user t {x} h = let k = exec-eq-ok _ t h in ground arith

pub update_user-eq-ok :
    (user : SysUser) (t : Tx) {x : SysUser × Tx}
    → update_user user t ≡ ok x
    → (x.0 ≡ user)
      × (updated_users user t.db.users ≡ ok x.1.db.users)
      × (x.1.db ≡ record (t.db) { users = x.1.db.users })
unfolding update_user
update_user-eq-ok user t {x} h = let k = guarded_exec-eq-ok _ _ _ t h in ground arith

pub create_user_role_in_batches-eq-ok :
    (news : List SysUserRole) (t : Tx) {x : Unit {0} × Tx}
    → create_user_role_in_batches news t ≡ ok x
    → (insert_user_roles news t.db.user_roles ≡ ok x.1.db.user_roles)
      × (x.1.db ≡ record (t.db) { user_roles = x.1.db.user_roles })
unfolding create_user_role_in_batches
create_user_role_in_batches-eq-ok news t {x} h = let k = exec-eq-ok _ t h in ground arith

pub delete_user_role-eq-ok :
    (user_id : ℕ) (t : Tx) {x : Unit {0} × Tx}
    → delete_user_role user_id t ≡ ok x
    → x.1.db
      ≡ record (t.db) { user_roles = filter (λ r. not (r.user_id == user_id)) t.db.user_roles }
unfolding delete_user_role
delete_user_role-eq-ok user_id t {x} h = let k = exec-eq-ok _ t h in ground arith

pub delete_by_id-eq-ok :
    (user_id : ℕ) (t : Tx) {x : Unit {0} × Tx}
    → delete_by_id user_id t ≡ ok x
    → x.1.db ≡ record (t.db) { users = filter (λ u. not (u.id == user_id)) t.db.users }
unfolding delete_by_id
delete_by_id-eq-ok user_id t {x} h = let k = guarded_exec-eq-ok _ _ _ t h in ground arith

pub count_role_by_ids-eq-ok :
    (ids : List ℕ) (t : Tx) {x : ℕ × Tx}
    → count_role_by_ids ids t ≡ ok x
    → (x.0 ≡ count_if (λ r. contains ids r.id) t.db.roles) × (x.1.db ≡ t.db)
unfolding count_role_by_ids
count_role_by_ids-eq-ok ids t {x} h = let k = query-eq-ok _ t h in ground arith

pub reset_pwd_by_id-eq-ok :
    (user_id : ℕ) (password : String) (t : Tx) {x : Unit {0} × Tx}
    → reset_pwd_by_id user_id password t ≡ ok x
    → x.1.db ≡ record (t.db) {
      users = map (λ u. if u.id == user_id then record u { password = password } else u) t.db.users;
    }
unfolding reset_pwd_by_id
reset_pwd_by_id-eq-ok user_id password t {x} h =
    let k = guarded_exec-eq-ok _ _ _ t h in ground arith
