-- ===== src/Account/Consistency/Ids.antt =====
-- Which statements keep the ids of a table.
use snowgo.Prelude.{
  ℕ, ◌≡◌, refl, sym, subst, true, List, [], ◌∷◌, ◌==◌, any, contains, map, arith, keys_kept,
  if◌then◌else◌, String,
}
use snowgo.Xerror.{ok}
use snowgo.Extern.{Env}
use snowgo.Dal.Model.{SysUser, SysRole, SysMenu}
use snowgo.Dao.Role.{saved_roles}
use snowgo.Dao.User.{updated_users, assign_user}
use snowgo.Dao.Menu.{saved_menus}

pub any-contains-key :
    {A : Type 0} (key : A → ℕ) (k : ℕ) (rows : List A)
    → contains (map key rows) k ≡ true
    → any (λ r. key r == k) rows ≡ true
any-contains-key key k [] h = h
any-contains-key key k (r ∷ rs) h = grind (arith, any-contains-key key k rs)

-- The rows with the id become `f` of themselves.
pub kept :
    {A : Type 0} (key : A → ℕ) (id : ℕ) (f : A → A) (rows rows' : List A)
    → ((r : A) → key r ≡ id → key (f r) ≡ key r)
    → rows' ≡ map (λ r. if key r == id then f r else r) rows
    → map key rows' ≡ map key rows
kept key id f rows rows' e h =
    subst (λ rs. map key rs ≡ map key rows) (sym h)
      (keys_kept key (λ r. if key r == id then f r else r) (λ r. ground (arith, e r)) rows)

pub updated_users-keeps_ids :
    (u : SysUser) (rows rows' : List SysUser)
    → updated_users u rows ≡ ok rows'
    → map (λ r. r.id) rows' ≡ map (λ r. r.id) rows
unfolding updated_users
updated_users-keeps_ids u rows rows' h =
    kept (λ r. r.id) u.id (assign_user u) rows rows' (λ r e. refl) (ground arith)

pub saved_roles-keeps_ids :
    (env : Env) (role : SysRole) (rows rows' : List SysRole)
    → contains (map (λ r. r.id) rows) role.id ≡ true
    → saved_roles env role rows ≡ ok rows'
    → map (λ r. r.id) rows' ≡ map (λ r. r.id) rows
unfolding saved_roles
saved_roles-keeps_ids env role rows rows' k h =
    let there = any-contains-key (λ r. r.id) role.id rows k in
    kept (λ r. r.id) role.id (λ _. role) rows rows' (λ r e. sym e) (ground arith)

pub saved_menus-keeps_ids :
    (env : Env) (menu : SysMenu) (rows rows' : List SysMenu)
    → contains (map (λ m. m.id) rows) menu.id ≡ true
    → saved_menus env menu rows ≡ ok rows'
    → map (λ m. m.id) rows' ≡ map (λ m. m.id) rows
unfolding saved_menus
saved_menus-keeps_ids env menu rows rows' k h =
    let there = any-contains-key (λ m. m.id) menu.id rows k in
    kept (λ m. m.id) menu.id (λ _. menu) rows rows' (λ m e. sym e) (ground arith)

pub reset-keeps_ids :
    (id : ℕ) (pwd : String) (rows : List SysUser)
    → map (λ r. r.id) (map (λ r. if r.id == id then record r { password = pwd } else r) rows)
      ≡ map (λ r. r.id) rows
reset-keeps_ids id pwd rows =
    kept (λ r. r.id) id (λ r. record r { password = pwd }) rows _ (λ r e. refl) refl
