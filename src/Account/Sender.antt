-- ===== src/Account/Sender.antt =====
-- DeleteById refuses to delete the account of the user who sends the request.
use snowgo.Prelude.{ℕ, ◌≡◌, sym, ap, subst, ◌∙◌, true, none, some, contains, arith, contains-filter}
use snowgo.Xerror.{ok}
use snowgo.Extern.{Env}
use snowgo.Dal.Tx.{Db}
use snowgo.Account.Types.{UserContext}
use snowgo.Account.Runtime.{World}
use snowgo.Account.Requests.{
  Request, create_user, update_user, delete_user, reset_pwd, create_role, update_role, delete_role,
  create_menu, update_menu, delete_menu, handle,
}
use snowgo.Account.Handled.{Change, handle-refines}
use snowgo.Account.Consistency.{user_ids}
use snowgo.Account.Consistency.Ids.{updated_users-keeps_ids, reset-keeps_ids}

same_users :
    (d d' : Db) (id : ℕ)
    → user_ids d' ≡ user_ids d
    → contains (user_ids d) id ≡ true
    → contains (user_ids d') id ≡ true
same_users d d' id e h = subst (λ is. contains is id ≡ true) (sym e) h

-- Whoever is in the table and is not the request's target stays in it.
Change-keeps_sender :
    (env : Env) (r : Request) (u : UserContext) (d d' : Db)
    → Change env r u d d'
    → contains (user_ids d) u.user_id ≡ true
    → contains (user_ids d') u.user_id ≡ true
Change-keeps_sender env (create_user p) u d d' c h = rw (ap user_ids c.result) (ground arith)
Change-keeps_sender env (update_user p) u d d' c h =
    same_users d d' u.user_id (updated_users-keeps_ids _ d.users d'.users c.updated) h
Change-keeps_sender env (delete_user id) u d d' c h =
    let n = c.not_self in
    rw (ap user_ids c.result, contains-filter (λ r. r.id) id u.user_id d.users) (ground arith)
Change-keeps_sender env (reset_pwd id password) u d d' c h =
    same_users d d' u.user_id (ap user_ids c.result ∙ reset-keeps_ids id c.pwd d.users) h
Change-keeps_sender env (create_role p) u d d' c h =
    same_users d d' u.user_id (ap user_ids c.result) h
Change-keeps_sender env (update_role p) u d d' c h =
    same_users d d' u.user_id (ap user_ids c.result) h
Change-keeps_sender env (delete_role id) u d d' c h =
    same_users d d' u.user_id (ap user_ids c.result) h
Change-keeps_sender env (create_menu p) u d d' c h =
    same_users d d' u.user_id (ap user_ids c.result) h
Change-keeps_sender env (update_menu p) u d d' c h =
    same_users d d' u.user_id (ap user_ids c.result) h
Change-keeps_sender env (delete_menu id) u d d' c h =
    same_users d d' u.user_id (ap user_ids c.result) h

-- A user of the table who sends a request that succeeds is still in the table after it.
pub handle-keeps_sender :
    (env : Env) (u : UserContext) (r : Request) (w : World)
    → (handle env (some u) r w).0 ≡ ok tt
    → contains (user_ids w.primary) u.user_id ≡ true
    → contains (user_ids (handle env (some u) r w).1.primary) u.user_id ≡ true
handle-keeps_sender env u r w h k =
    let (v, e, z, c) = handle-refines env (some u) r w h in
    let same = ap (λ o. elim o [ some x ↦ x.user_id | none ↦ 0 ]) e in
    subst (λ id. contains (user_ids (handle env (some u) r w).1.primary) id ≡ true) (sym same)
      (Change-keeps_sender env r v w.primary (handle env (some u) r w).1.primary c
        (subst (λ id. contains (user_ids w.primary) id ≡ true) same k))
