-- ===== src/Account/Consistency.antt =====
-- What the tables keep to: ids are distinct and below the AUTO_INCREMENT counter, every role that a
-- user has is there, and so is every menu that a role has. No foreign key says so: the services do.
pub mod Ids
pub mod Preserved
pub mod Runs
use snowgo.Prelude.{
  ℕ, ◌<◌, ◌≡◌, ◌⊎◌, inl, inr, refl, sym, ap, subst, ◌∙◌, Bool, true, false, not, ◌&&◌, ◌==◌, Option,
  some, List, [], ◌∷◌, ◌+◌, any, all, filter, contains, map, length, count_if, arith, All, Distinct,
  ==_iff, count_if-contains-All, fresh, All-weaken, All-filter, count_if-map, contains-filter,
  Distinct-filter, All-keys-filter, keys_kept, All-known-filter, if◌then◌else◌,
}
use snowgo.Xerror.{ok}
use snowgo.Dal.Model.{SysUser, SysRole, SysMenu, SysRoleMenu, SysUserRole}
use snowgo.Dal.Tx.{Db}

abbrev pub user_ids : Db → List ℕ
user_ids d = map (λ u. u.id) d.users

abbrev pub role_ids : Db → List ℕ
role_ids d = map (λ r. r.id) d.roles

abbrev pub menu_ids : Db → List ℕ
menu_ids d = map (λ m. m.id) d.menus

-- A table's ids.
pub record AreIds (next : ℕ) (ids : List ℕ) : Type 0 where
  pub distinct : Distinct ids
  pub below : All (λ i. i < next) ids

abbrev pub RolesKnown : List ℕ → List SysUserRole → Type 0
RolesKnown ids rows = All (λ r. contains ids r.role_id ≡ true) rows

abbrev pub MenusKnown : List ℕ → List SysRoleMenu → Type 0
MenusKnown ids rows = All (λ r. contains ids r.menu_id ≡ true) rows

pub record IsConsistent (d : Db) : Type 0 where
  pub users : AreIds d.next_user (user_ids d)
  pub roles : AreIds d.next_role (role_ids d)
  pub menus : AreIds d.next_menu (menu_ids d)
  pub roles_known : RolesKnown (role_ids d) d.user_roles
  pub menus_known : MenusKnown (menu_ids d) d.role_menus

pub AreIds-new : (next : ℕ) (ids : List ℕ) → AreIds next ids → AreIds (next + 1) (next ∷ ids)
AreIds-new next ids h = record {
  distinct = (fresh next ids h.below, h.distinct);
  below = (
    omega arith,
    All-weaken (λ i. i < next) (λ i. i < next + 1) ids (λ i l. omega (arith, l)) h.below,
  );
}

pub AreIds-filter :
    {A : Type 0} (key : A → ℕ) (next k : ℕ) (rows : List A)
    → AreIds next (map key rows)
    → AreIds next (map key (filter (λ r. not (key r == k)) rows))
AreIds-filter key next k rows h = record {
  distinct = Distinct-filter key k rows h.distinct;
  below = All-keys-filter key (λ i. i < next) _ rows h.below;
}

-- One more id does not hide the others.
pub known_more :
    {A : Type 0} (ref : A → ℕ) (next : ℕ) (ids : List ℕ) (rows : List A)
    → All (λ r. contains ids (ref r) ≡ true) rows
    → All (λ r. contains (next ∷ ids) (ref r) ≡ true) rows
known_more ref next ids rows h =
    All-weaken (λ r. contains ids (ref r) ≡ true) (λ r. contains (next ∷ ids) (ref r) ≡ true) rows
      (λ r k. ground arith) h

-- The ids that a count over the table has found are all there.
pub found_known :
    {A : Type 0} (key : A → ℕ) (ids : List ℕ) (rows : List A)
    → Distinct (map key rows)
    → count_if (λ r. contains ids (key r)) rows ≡ length ids
    → All (λ i. contains (map key rows) i ≡ true) ids
found_known key ids rows h e =
    count_if-contains-All ids (map key rows) h (sym (count_if-map key (contains ids) rows) ∙ e)
