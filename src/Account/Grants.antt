-- ===== src/Account/Grants.antt =====
-- Who may give a menu to a role: the check of role.go on the operator's own menus.
use snowgo.Prelude.{
  ℕ, ◌≡◌, ◌⊎◌, inl, inr, ap, subst, Bool, true, ◌&&◌, ◌==◌, Option, List, [], ◌∷◌, any, contains,
  arith, any-filter, all-contains,
}
use snowgo.Xerror.{ok}
use snowgo.Extern.{Env}
use snowgo.Dal.Model.{SysRoleMenu}
use snowgo.Dal.Tx.{Db}
use snowgo.Dao.Role.{insert_role_menus}
use snowgo.Dao.Role.Effects.{user_menus, has_admin_role}
use snowgo.Dao.Role.Links.{insert_role_menus-any}
use snowgo.Account.Types.{UserContext}
use snowgo.Account.Runtime.{World}
use snowgo.Account.Role.Tx.{role_menu_rows, are_authorized}
use snowgo.Account.Requests.{
  Request, create_user, update_user, delete_user, reset_pwd, create_role, update_role, delete_role,
  create_menu, update_menu, delete_menu, handle,
}
use snowgo.Account.Refinement.{By}
use snowgo.Account.Handled.{Change, handle-refines}

-- Whether the role has the menu.
abbrev pub grants : Db → ℕ → ℕ → Bool
grants d role_id menu_id = any (λ r. r.role_id == role_id && r.menu_id == menu_id) d.role_menus

-- The role had the menu, or the user is a super administrator, or has the menu too.
abbrev pub MayGrant : UserContext → Db → ℕ → ℕ → Type 0
MayGrant u d role_id menu_id =
    (grants d role_id menu_id ≡ true)
    ⊎ (has_admin_role u.user_id d ≡ true)
    ⊎ (contains (user_menus u.user_id d) menu_id ≡ true)

role_menu_rows-any :
    (id role_id menu_id : ℕ) (ids : List ℕ)
    → any (λ r. r.role_id == role_id && r.menu_id == menu_id) (role_menu_rows id ids) ≡ true
    → contains ids menu_id ≡ true
role_menu_rows-any id role_id menu_id [] h = h
role_menu_rows-any id role_id menu_id (i ∷ is) h =
    grind (arith, role_menu_rows-any id role_id menu_id is)

-- The associations that a role is given when all of its menus are the operator's.
linked-MayGrant :
    (ops : List ℕ) (id role_id menu_id : ℕ) (ids : List ℕ) (rows rows' : List SysRoleMenu)
    → are_authorized ops ids ≡ true
    → insert_role_menus (role_menu_rows id ids) rows ≡ ok rows'
    → any (λ r. r.role_id == role_id && r.menu_id == menu_id) rows' ≡ true
    → (any (λ r. r.role_id == role_id && r.menu_id == menu_id) rows ≡ true)
      ⊎ (contains ops menu_id ≡ true)
linked-MayGrant ops id role_id menu_id ids rows rows' a h e =
    elim (insert_role_menus-any _ (role_menu_rows id ids) rows rows' h e) [
      | inl old ↦ inl old
      | inr new ↦ inr (
          all-contains (contains ops) ids menu_id a (role_menu_rows-any id role_id menu_id ids new))
    ]

same_role_menus :
    (u : UserContext) (d d' : Db) (role_id menu_id : ℕ)
    → d'.role_menus ≡ d.role_menus
    → grants d' role_id menu_id ≡ true
    → MayGrant u d role_id menu_id
same_role_menus u d d' role_id menu_id e h =
    inl (subst (λ rows. any (λ r. r.role_id == role_id && r.menu_id == menu_id) rows ≡ true) e h)

role_menus_of : {d d' : Db} → d ≡ d' → d.role_menus ≡ d'.role_menus
role_menus_of e = ap (λ d. d.role_menus) e

Change-MayGrant :
    (env : Env) (r : Request) (u : UserContext) (d d' : Db) (role_id menu_id : ℕ)
    → Change env r u d d'
    → grants d' role_id menu_id ≡ true
    → MayGrant u d role_id menu_id
Change-MayGrant env (create_user p) u d d' i m c h =
    same_role_menus u d d' i m (role_menus_of c.result) h
Change-MayGrant env (update_user p) u d d' i m c h =
    same_role_menus u d d' i m (role_menus_of c.result) h
Change-MayGrant env (delete_user id) u d d' i m c h =
    same_role_menus u d d' i m (role_menus_of c.result) h
Change-MayGrant env (reset_pwd id password) u d d' i m c h =
    same_role_menus u d d' i m (role_menus_of c.result) h
Change-MayGrant env (create_role p) u d d' i m c h =
    elim (linked-MayGrant _ _ i m p.menu_ids _ _ c.authorized c.linked h) [
      | inl old ↦ inl old
      | inr own ↦ inr (inr own)
    ]
Change-MayGrant env (update_role p) u d d' i m c h = elim c.authorized [
  | inl admin ↦ inr (inl admin)
  | inr a ↦ elim (linked-MayGrant _ _ i m p.menu_ids _ _ a c.linked h) [
    | inl old ↦ inl (any-filter _ _ d.role_menus old)
    | inr own ↦ inr (inr own)
  ]
]
Change-MayGrant env (delete_role id) u d d' i m c h = inl (
    any-filter _ _ d.role_menus (
      subst (λ rows. any (λ r. r.role_id == i && r.menu_id == m) rows ≡ true)
        (role_menus_of c.result) h))
Change-MayGrant env (create_menu p) u d d' i m c h =
    same_role_menus u d d' i m (role_menus_of c.result) h
Change-MayGrant env (update_menu p) u d d' i m c h =
    same_role_menus u d d' i m (role_menus_of c.result) h
Change-MayGrant env (delete_menu id) u d d' i m c h =
    same_role_menus u d d' i m (role_menus_of c.result) h

-- No role gains a menu that the user behind the request does not have. After a request that succeeds, a role has a menu
-- only if it had it before, or if the user who sent the request has the super administrator's
-- role, or if one of that user's own roles had the menu before the request.
pub handle-grants_own_menus :
    (env : Env) (ctx : Option UserContext) (r : Request) (w : World) (role_id menu_id : ℕ)
    → (handle env ctx r w).0 ≡ ok tt
    → grants (handle env ctx r w).1.primary role_id menu_id ≡ true
    → By ctx (λ u _. MayGrant u w.primary role_id menu_id) (handle env ctx r w).1.primary
handle-grants_own_menus env ctx r w role_id menu_id h g =
    let (u, e, z, c) = handle-refines env ctx r w h in
    (u, e, z, Change-MayGrant env r u w.primary _ role_id menu_id c g)
