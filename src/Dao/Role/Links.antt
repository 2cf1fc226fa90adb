-- ===== src/Dao/Role/Links.antt =====
-- Which associations the INSERT of CreateRoleMenu makes, and its counterpart of UserDao.
use snowgo.Prelude.{◌≡◌, ◌⊎◌, Bool, true, List, [], ◌∷◌, any, arith, All, subst}
use snowgo.Xerror.{ok}
use snowgo.Dal.Model.{SysRoleMenu, SysUserRole}
use snowgo.Dao.Role.{insert_role_menus}
use snowgo.Dao.User.{insert_user_roles}

-- An association is among those before, or it is new.
pub insert_role_menus-any :
    (p : SysRoleMenu → Bool) (news rows rows' : List SysRoleMenu)
    → insert_role_menus news rows ≡ ok rows'
    → any p rows' ≡ true
    → (any p rows ≡ true) ⊎ (any p news ≡ true)
unfolding insert_role_menus
insert_role_menus-any p [] rows rows' h e = ground arith
insert_role_menus-any p (new ∷ news) rows rows' h e =
    grind (arith, insert_role_menus-any p news (new ∷ rows) rows')

pub insert_user_roles-any :
    (p : SysUserRole → Bool) (news rows rows' : List SysUserRole)
    → insert_user_roles news rows ≡ ok rows'
    → any p rows' ≡ true
    → (any p rows ≡ true) ⊎ (any p news ≡ true)
unfolding insert_user_roles
insert_user_roles-any p [] rows rows' h e = ground arith
insert_user_roles-any p (new ∷ news) rows rows' h e =
    grind (arith, insert_user_roles-any p news (new ∷ rows) rows')

-- What holds of the associations before and of the new ones holds after.
pub insert_role_menus-All :
    (P : SysRoleMenu → Type 0) (news rows rows' : List SysRoleMenu)
    → insert_role_menus news rows ≡ ok rows'
    → All P news
    → All P rows
    → All P rows'
unfolding insert_role_menus
insert_role_menus-All P [] rows rows' h n a = subst (λ r. All P r) (ground arith) a
insert_role_menus-All P (new ∷ news) rows rows' h n a =
    insert_role_menus-All P news (new ∷ rows) rows' (ground arith) n.1 (n.0, a)

pub insert_user_roles-All :
    (P : SysUserRole → Type 0) (news rows rows' : List SysUserRole)
    → insert_user_roles news rows ≡ ok rows'
    → All P news
    → All P rows
    → All P rows'
unfolding insert_user_roles
insert_user_roles-All P [] rows rows' h n a = subst (λ r. All P r) (ground arith) a
insert_user_roles-All P (new ∷ news) rows rows' h n a =
    insert_user_roles-All P news (new ∷ rows) rows' (ground arith) n.1 (n.0, a)
