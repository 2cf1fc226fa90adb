-- ===== src/Account/User/Cached.antt =====
-- GetRoleIdsByUserId: what the cache answers is what the tables say.
use snowgo.Prelude.{ℕ, ◌≡◌, List, map, filter, ◌==◌, some, arith}
use snowgo.Xerror.{ok}
use snowgo.Dal.Tx.{Db}
use snowgo.Dao.User as UserDao
use snowgo.Account.Types.{user_role, role_ids}
use snowgo.Account.Runtime.{
  World, pure, fail, ◌>>=◌, on_error, refuse_if, read, cache_get, cache_set,
}
use snowgo.Account.User.{load_role_ids, get_role_ids_by_user_id}

-- The ids of the user's roles in the association table.
abbrev pub roles_of : ℕ → Db → List ℕ
roles_of user_id d = map (λ r. r.role_id) (filter (λ r. r.user_id == user_id) d.user_roles)

-- What the cache has for the user, if it has a list, is what the replica has.
abbrev pub Agrees : ℕ → World → Type 0
Agrees user_id w =
    (ids : List ℕ)
    → w.cache (user_role user_id) ≡ some (role_ids ids)
    → ids ≡ roles_of user_id w.replica

-- Where the cache agrees with the replica on a user, GetRoleIdsByUserId gives the ids of the roles
-- that the user has there whenever it succeeds, whether the cache answers, is empty, holds something
-- else or fails.
pub get_role_ids-roles_of :
    (user_id : ℕ) (w : World) {ids : List ℕ}
    → Agrees user_id w
    → (get_role_ids_by_user_id user_id w).0 ≡ ok ids
    → ids ≡ roles_of user_id w.replica
unfolding get_role_ids_by_user_id load_role_ids ◌>>=◌ pure on_error refuse_if read cache_get
    cache_set fail UserDao.get_role_ids_by_user_id
get_role_ids-roles_of user_id w agrees h = grind (arith, agrees)
