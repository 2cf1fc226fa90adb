-- ===== src/Account/Consistency/Preserved.antt =====
-- Every change keeps the tables consistent.
use snowgo.Prelude.{
  ℕ, ◌≡◌, sym, subst, true, false, ◌==◌, List, [], ◌∷◌, any, contains, arith, All, All-filter,
  All-known-filter, All-map,
}
use snowgo.Xerror.{ok}
use snowgo.Extern.{Env, Bytes}
use snowgo.Dal.Model.{SysRoleMenu, SysUserRole}
use snowgo.Dal.Tx.{Db}
use snowgo.Dao.Role.{insert_role_menus}
use snowgo.Dao.Role.Links.{insert_role_menus-All, insert_user_roles-All}
use snowgo.Dao.User.{insert_user_roles}
use snowgo.Account.Types.{UserContext, RoleParam, UserParam, MenuParam}
use snowgo.Account.Role.Tx.{role_menu_rows}
use snowgo.Account.User.Tx.{user_role_rows}
use snowgo.Account.Changes.{
  RoleCreated, RoleUpdated, RoleDeleted, UserCreated, UserUpdated, UserDeleted, PwdReset,
  MenuCreated, MenuUpdated, MenuDeleted,
}
use snowgo.Account.Requests.{Request, update_role, update_menu}
use snowgo.Account.Consistency.Ids.{
  updated_users-keeps_ids, saved_roles-keeps_ids, saved_menus-keeps_ids, reset-keeps_ids,
}
use snowgo.Account.Consistency.{
  user_ids, role_ids, menu_ids, AreIds, RolesKnown, MenusKnown, IsConsistent, AreIds-new,
  AreIds-filter, known_more, found_known,
}

-- The row that an update of a role or of a menu names is there. The services look for it on the
-- replica, before the transaction.
abbrev pub IsThere : Request → Db → Type 0
IsThere (update_role p) d = contains (role_ids d) p.id ≡ true
IsThere (update_menu p) d = contains (menu_ids d) p.id ≡ true
IsThere _ d = Unit

linked-MenusKnown :
    (ids : List ℕ) (id : ℕ) (news : List ℕ) (rows rows' : List SysRoleMenu)
    → insert_role_menus (role_menu_rows id news) rows ≡ ok rows'
    → All (λ i. contains ids i ≡ true) news
    → MenusKnown ids rows
    → MenusKnown ids rows'
linked-MenusKnown ids id news rows rows' h n k =
    insert_role_menus-All (λ r. contains ids r.menu_id ≡ true) (role_menu_rows id news) rows rows' h
      (All-map (λ r. contains ids r.menu_id ≡ true) (λ i. record { role_id = id; menu_id = i }) news
        n)
      k

linked-RolesKnown :
    (ids : List ℕ) (id : ℕ) (news : List ℕ) (rows rows' : List SysUserRole)
    → insert_user_roles (user_role_rows id news) rows ≡ ok rows'
    → All (λ i. contains ids i ≡ true) news
    → RolesKnown ids rows
    → RolesKnown ids rows'
linked-RolesKnown ids id news rows rows' h n k =
    insert_user_roles-All (λ r. contains ids r.role_id ≡ true) (user_role_rows id news) rows rows' h
      (All-map (λ r. contains ids r.role_id ≡ true) (λ i. record { user_id = id; role_id = i }) news
        n)
      k

All-known :
    {A : Type 0} (ref : A → ℕ) (ids ids' : List ℕ) (rows : List A)
    → ids' ≡ ids
    → All (λ r. contains ids (ref r) ≡ true) rows
    → All (λ r. contains ids' (ref r) ≡ true) rows
All-known ref ids ids' rows e h = subst (λ is. All (λ r. contains is (ref r) ≡ true) rows) (sym e) h

unused_single :
    (id : ℕ) (rows : List SysRoleMenu)
    → any (λ r. contains (id ∷ []) r.menu_id) rows ≡ false
    → any (λ r. r.menu_id == id) rows ≡ false
unused_single id [] h = h
unused_single id (r ∷ rs) h = ground (arith, unused_single id rs)

pub RoleCreated-IsConsistent :
    (u : UserContext) (p : RoleParam) (d d' : Db)
    → IsConsistent d
    → RoleCreated u p d d'
    → IsConsistent d'
RoleCreated-IsConsistent u p d d' k c = subst IsConsistent (sym c.result) (record {
  users = k.users;
  roles = AreIds-new d.next_role (role_ids d) k.roles;
  menus = k.menus;
  roles_known = known_more (λ r. r.role_id) d.next_role (role_ids d) d.user_roles k.roles_known;
  menus_known =
      linked-MenusKnown (menu_ids d) d.next_role p.menu_ids d.role_menus d'.role_menus c.linked
        (found_known (λ m. m.id) p.menu_ids d.menus k.menus.distinct c.found) k.menus_known;
})

pub RoleUpdated-IsConsistent :
    (env : Env) (u : UserContext) (p : RoleParam) (d d' : Db)
    → contains (role_ids d) p.id ≡ true
    → IsConsistent d
    → RoleUpdated env u p d d'
    → IsConsistent d'
RoleUpdated-IsConsistent env u p d d' there k c =
    let same = saved_roles-keeps_ids env _ d.roles d'.roles there c.saved in
    subst IsConsistent (sym c.result) (record {
      users = k.users;
      roles = subst (AreIds d.next_role) (sym same) k.roles;
      menus = k.menus;
      roles_known = All-known (λ r. r.role_id) (role_ids d) _ d.user_roles same k.roles_known;
      menus_known =
          linked-MenusKnown (menu_ids d) p.id p.menu_ids _ d'.role_menus c.linked
            (found_known (λ m. m.id) p.menu_ids d.menus k.menus.distinct c.found)
            (All-filter (λ r. contains (menu_ids d) r.menu_id ≡ true) _ d.role_menus k.menus_known);
    })

pub RoleDeleted-IsConsistent :
    (u : UserContext) (id : ℕ) (d d' : Db)
    → IsConsistent d
    → RoleDeleted u id d d'
    → IsConsistent d'
RoleDeleted-IsConsistent u id d d' k c = subst IsConsistent (sym c.result) (record {
  users = k.users;
  roles = AreIds-filter (λ r. r.id) d.next_role id d.roles k.roles;
  menus = k.menus;
  roles_known =
      All-known-filter (λ r. r.id) (λ r. r.role_id) id d.roles d.user_roles c.unused k.roles_known;
  menus_known =
      All-filter (λ r. contains (menu_ids d) r.menu_id ≡ true) _ d.role_menus k.menus_known;
})

pub UserCreated-IsConsistent :
    (env : Env) (u : UserContext) (p : UserParam) (d d' : Db)
    → IsConsistent d
    → UserCreated env u p d d'
    → IsConsistent d'
UserCreated-IsConsistent env u p d d' k c = subst IsConsistent (sym c.result) (record {
  users = AreIds-new d.next_user (user_ids d) k.users;
  roles = k.roles;
  menus = k.menus;
  roles_known =
      linked-RolesKnown (role_ids d) d.next_user p.role_ids d.user_roles d'.user_roles c.linked
        (found_known (λ r. r.id) p.role_ids d.roles k.roles.distinct c.found) k.roles_known;
  menus_known = k.menus_known;
})

pub UserUpdated-IsConsistent :
    (u : UserContext) (p : UserParam) (d d' : Db)
    → IsConsistent d
    → UserUpdated u p d d'
    → IsConsistent d'
UserUpdated-IsConsistent u p d d' k c = subst IsConsistent (sym c.result) (record {
  users =
      subst (AreIds d.next_user) (sym (updated_users-keeps_ids _ d.users d'.users c.updated))
        k.users;
  roles = k.roles;
  menus = k.menus;
  roles_known =
      linked-RolesKnown (role_ids d) p.id p.role_ids _ d'.user_roles c.linked
        (found_known (λ r. r.id) p.role_ids d.roles k.roles.distinct c.found)
        (All-filter (λ r. contains (role_ids d) r.role_id ≡ true) _ d.user_roles k.roles_known);
  menus_known = k.menus_known;
})

pub UserDeleted-IsConsistent :
    (u : UserContext) (id : ℕ) (d d' : Db)
    → IsConsistent d
    → UserDeleted u id d d'
    → IsConsistent d'
UserDeleted-IsConsistent u id d d' k c = subst IsConsistent (sym c.result) (record {
  users = AreIds-filter (λ r. r.id) d.next_user id d.users k.users;
  roles = k.roles;
  menus = k.menus;
  roles_known =
      All-filter (λ r. contains (role_ids d) r.role_id ≡ true) _ d.user_roles k.roles_known;
  menus_known = k.menus_known;
})

pub PwdReset-IsConsistent :
    (env : Env) (u : UserContext) (id : ℕ) (password : Bytes) (d d' : Db)
    → IsConsistent d
    → PwdReset env u id password d d'
    → IsConsistent d'
PwdReset-IsConsistent env u id password d d' k c = subst IsConsistent (sym c.result) (record {
  users = subst (AreIds d.next_user) (sym (reset-keeps_ids id c.pwd d.users)) k.users;
  roles = k.roles;
  menus = k.menus;
  roles_known = k.roles_known;
  menus_known = k.menus_known;
})

pub MenuCreated-IsConsistent :
    (u : UserContext) (p : MenuParam) (d d' : Db)
    → IsConsistent d
    → MenuCreated u p d d'
    → IsConsistent d'
MenuCreated-IsConsistent u p d d' k c = subst IsConsistent (sym c.result) (record {
  users = k.users;
  roles = k.roles;
  menus = AreIds-new d.next_menu (menu_ids d) k.menus;
  roles_known = k.roles_known;
  menus_known = known_more (λ r. r.menu_id) d.next_menu (menu_ids d) d.role_menus k.menus_known;
})

pub MenuUpdated-IsConsistent :
    (env : Env) (u : UserContext) (p : MenuParam) (d d' : Db)
    → contains (menu_ids d) p.id ≡ true
    → IsConsistent d
    → MenuUpdated env u p d d'
    → IsConsistent d'
MenuUpdated-IsConsistent env u p d d' there k c =
    let same = saved_menus-keeps_ids env _ d.menus d'.menus there c.saved in
    subst IsConsistent (sym c.result) (record {
      users = k.users;
      roles = k.roles;
      menus = subst (AreIds d.next_menu) (sym same) k.menus;
      roles_known = k.roles_known;
      menus_known = All-known (λ r. r.menu_id) (menu_ids d) _ d.role_menus same k.menus_known;
    })

pub MenuDeleted-IsConsistent :
    (u : UserContext) (id : ℕ) (d d' : Db)
    → IsConsistent d
    → MenuDeleted u id d d'
    → IsConsistent d'
MenuDeleted-IsConsistent u id d d' k c = subst IsConsistent (sym c.result) (record {
  users = k.users;
  roles = k.roles;
  menus = AreIds-filter (λ m. m.id) d.next_menu id d.menus k.menus;
  roles_known = k.roles_known;
  menus_known =
      All-known-filter (λ m. m.id) (λ r. r.menu_id) id d.menus d.role_menus
        (unused_single id d.role_menus c.unused) k.menus_known;
})
