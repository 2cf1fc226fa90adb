-- ===== src/Account/Consistency/Runs.antt =====
-- Any sequence of requests, with whatever replica, cache and faults between them.
use snowgo.Prelude.{◌≡◌, refl, sym, ap, subst, true, Option, contains, arith, contains-filter}
use snowgo.Xerror.{Result, ok, err}
use snowgo.Extern.{Env}
use snowgo.Dal.Tx.{Db}
use snowgo.Dao.Role.{super_admin_role_id}
use snowgo.Account.Types.{UserContext}
use snowgo.Account.Runtime.{World}
use snowgo.Account.Requests.{
  Request, create_user, update_user, delete_user, reset_pwd, create_role, update_role, delete_role,
  create_menu, update_menu, delete_menu, handle,
}
use snowgo.Account.Handled.{Change, handle-refines, handle-is_atomic}
use snowgo.Account.Consistency.{role_ids, IsConsistent}
use snowgo.Account.Consistency.Ids.{saved_roles-keeps_ids}
use snowgo.Account.Consistency.Preserved.{
  IsThere, RoleCreated-IsConsistent, RoleUpdated-IsConsistent, RoleDeleted-IsConsistent,
  UserCreated-IsConsistent, UserUpdated-IsConsistent, UserDeleted-IsConsistent,
  PwdReset-IsConsistent, MenuCreated-IsConsistent, MenuUpdated-IsConsistent,
  MenuDeleted-IsConsistent,
}

-- The worlds that are reached from `w`: by requests, and by what happens outside the tables.
pub data Run (env : Env) (w : World) : World → Type 0 where
  here : Run env w w
  request :
      {v : World} (ctx : Option UserContext) (r : Request)
      → IsThere r v.primary
      → Run env w v
      → Run env w (handle env ctx r v).1
  drift : {v : World} (v' : World) → v'.primary ≡ v.primary → Run env w v → Run env w v'

Change-IsConsistent :
    (env : Env) (r : Request) (u : UserContext) (d d' : Db)
    → IsThere r d
    → IsConsistent d
    → Change env r u d d'
    → IsConsistent d'
Change-IsConsistent env (create_user p) u d d' t k c = UserCreated-IsConsistent env u p d d' k c
Change-IsConsistent env (update_user p) u d d' t k c = UserUpdated-IsConsistent u p d d' k c
Change-IsConsistent env (delete_user id) u d d' t k c = UserDeleted-IsConsistent u id d d' k c
Change-IsConsistent env (reset_pwd id password) u d d' t k c =
    PwdReset-IsConsistent env u id password d d' k c
Change-IsConsistent env (create_role p) u d d' t k c = RoleCreated-IsConsistent u p d d' k c
Change-IsConsistent env (update_role p) u d d' t k c = RoleUpdated-IsConsistent env u p d d' t k c
Change-IsConsistent env (delete_role id) u d d' t k c = RoleDeleted-IsConsistent u id d d' k c
Change-IsConsistent env (create_menu p) u d d' t k c = MenuCreated-IsConsistent u p d d' k c
Change-IsConsistent env (update_menu p) u d d' t k c = MenuUpdated-IsConsistent env u p d d' t k c
Change-IsConsistent env (delete_menu id) u d d' t k c = MenuDeleted-IsConsistent u id d d' k c

-- What every change of a request keeps, a request keeps, whether it succeeds or fails.
handle-keeps :
    (P : Db → Type 0) (env : Env) (ctx : Option UserContext) (r : Request) (w : World)
    → ((u : UserContext) (d' : Db) → Change env r u w.primary d' → P w.primary → P d')
    → P w.primary
    → P (handle env ctx r w).1.primary
handle-keeps P env ctx r w f h = by_result (handle env ctx r w).0 refl
  where
    by_result :
        (x : Result (Unit {0})) → (handle env ctx r w).0 ≡ x → P (handle env ctx r w).1.primary
    by_result (err e) q = subst P (sym (handle-is_atomic env ctx r w q)) h
    by_result (ok tt) q =
        let (u, e, z, c) = handle-refines env ctx r w q in f u (handle env ctx r w).1.primary c h

-- Along any sequence of requests, successful or not, that starts with consistent tables, they stay
-- consistent: distinct ids below the counters, no user with a role that is not there, no role with
-- a menu that is not there. An update of a role or of a menu finds its row on the write node;
-- replica, cache and faults are arbitrary all along.
pub Run-IsConsistent :
    (env : Env) (w v : World) → Run env w v → IsConsistent w.primary → IsConsistent v.primary
Run-IsConsistent env w _ here k = k
Run-IsConsistent env w _ (request {v} ctx r there run) k =
    handle-keeps IsConsistent env ctx r v
      (λ u d' c k'. Change-IsConsistent env r u v.primary d' there k' c)
      (Run-IsConsistent env w v run k)
Run-IsConsistent env w _ (drift {v} v' e run) k =
    subst IsConsistent (sym e) (Run-IsConsistent env w v run k)

roles_of : {d d' : Db} → d ≡ d' → d.roles ≡ d'.roles
roles_of e = ap (λ d. d.roles) e

abbrev HasSuperAdminRole : Db → Type 0
HasSuperAdminRole d = contains (role_ids d) super_admin_role_id ≡ true

same_roles : (d d' : Db) → role_ids d' ≡ role_ids d → HasSuperAdminRole d → HasSuperAdminRole d'
same_roles d d' e h = subst (λ is. contains is super_admin_role_id ≡ true) (sym e) h

Change-HasSuperAdminRole :
    (env : Env) (r : Request) (u : UserContext) (d d' : Db)
    → IsThere r d
    → Change env r u d d'
    → HasSuperAdminRole d
    → HasSuperAdminRole d'
Change-HasSuperAdminRole env (create_user p) u d d' t c h = same_roles d d' (ap role_ids c.result) h
Change-HasSuperAdminRole env (update_user p) u d d' t c h = same_roles d d' (ap role_ids c.result) h
Change-HasSuperAdminRole env (delete_user id) u d d' t c h =
    same_roles d d' (ap role_ids c.result) h
Change-HasSuperAdminRole env (reset_pwd id password) u d d' t c h =
    same_roles d d' (ap role_ids c.result) h
Change-HasSuperAdminRole env (create_role p) u d d' t c h = rw (ap role_ids c.result) (ground arith)
Change-HasSuperAdminRole env (update_role p) u d d' t c h =
    same_roles d d' (saved_roles-keeps_ids env _ d.roles d'.roles t c.saved) h
Change-HasSuperAdminRole env (delete_role id) u d d' t c h =
    let n = c.not_super_admin in
    rw (ap role_ids c.result, contains-filter (λ r. r.id) id super_admin_role_id d.roles)
      (ground arith)
Change-HasSuperAdminRole env (create_menu p) u d d' t c h = same_roles d d' (ap role_ids c.result) h
Change-HasSuperAdminRole env (update_menu p) u d d' t c h = same_roles d d' (ap role_ids c.result) h
Change-HasSuperAdminRole env (delete_menu id) u d d' t c h =
    same_roles d d' (ap role_ids c.result) h

-- No sequence of requests, successful or not, removes the super administrator's role, where an
-- update of a role or of a menu finds its row on the write node.
pub Run-keeps_super_admin_role :
    (env : Env) (w v : World)
    → Run env w v
    → contains (role_ids w.primary) super_admin_role_id ≡ true
    → contains (role_ids v.primary) super_admin_role_id ≡ true
Run-keeps_super_admin_role env w _ here k = k
Run-keeps_super_admin_role env w _ (request {v} ctx r there run) k =
    handle-keeps HasSuperAdminRole env ctx r v
      (λ u d' c. Change-HasSuperAdminRole env r u v.primary d' there c)
      (Run-keeps_super_admin_role env w v run k)
Run-keeps_super_admin_role env w _ (drift {v} v' e run) k =
    subst HasSuperAdminRole (sym e) (Run-keeps_super_admin_role env w v run k)
