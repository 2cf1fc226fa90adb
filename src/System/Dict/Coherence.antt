-- ===== src/System/Dict/Coherence.antt =====
-- Which entries of the cache a change of the dictionary service drops, when nothing fails.
pub mod Kept
pub mod Fresh
use snowgo.Prelude.{
  ℕ, ◌≡◌, ◌≢◌, ◌⊎◌, inl, inr, refl, Bool, true, false, [], ◌==◌, none, some, arith, Option, String,
  str_eq, subst, sym, ap,
}
use snowgo.Xerror.{Error, Result, ok, err, map_err, biz, http_forbidden}
use snowgo.Extern.{Env}
use snowgo.Dal.Model.{SysDict, SysDictItem}
use snowgo.Dal.Tx.{Db, T}
use snowgo.Dao.Dict as DictDao
use snowgo.Account.Types.{UserContext, CacheKey, dict_items}
use snowgo.Account.Context.{get_user_context}
use snowgo.Account.Runtime.{
  World, Cache, M, pure, fail, ◌>>=◌, ◌>>◌, on_error, refuse_if, read, transaction, cache_delete,
  cache_delete_pair, without, bind_result,
}
use snowgo.System.Dict
use snowgo.System.Dict.{drop_renamed}
use snowgo.System.Dict.Calm.{
  IsCalm, still, transaction-still, create_dict_body-IsCalm, update_dict_body-IsCalm,
  delete_dict_body-IsCalm, create_item_body-IsCalm, update_item_body-IsCalm,
  delete_item_body-IsCalm,
}
use snowgo.System.Dict.Types.{DictParam, DictItemParam}

abbrev CacheAfter : {A : Type 0} → (Cache → Type 0) → Cache → Result A → World → Type 0
CacheAfter Q c (err e) w = w.cache ≡ c
CacheAfter Q c (ok a) w = Q w.cache

-- A request that fails leaves the cache, and one that succeeds leaves it as `Q` says.
pub record Leaves {A : Type 0} (Q : Cache → Type 0) (m : M A) (w : World) : Type 0 where
  pub cache : CacheAfter Q w.cache (m w).0 (m w).1

module _ {Q : Cache → Type 0} where
  refuse_if-Leaves :
      {B : Type 0} (b : Bool) (e : Error) (k : Unit {0} → M B) (w : World)
      → Leaves Q (k tt) w
      → Leaves Q (refuse_if b e >>= k) w
  unfolding refuse_if ◌>>=◌
  refuse_if-Leaves true e k w h = record { cache = refl }
  refuse_if-Leaves false e k w h = record { cache = h.cache }

  context-Leaves :
      {B : Type 0} (ctx : Option UserContext) (k : UserContext → M B) (w : World)
      → ((u : UserContext) → Leaves Q (k u) w)
      → Leaves Q (get_user_context ctx >>= k) w
  unfolding get_user_context refuse_if ◌>>=◌
  context-Leaves none k w h = record { cache = refl }
  context-Leaves {B} (some u) k w h = by_test (u.user_id == 0)
    where
      by_test : (b : Bool) → Leaves Q ((refuse_if b (biz http_forbidden) >> pure u) >>= k) w
      by_test true = record { cache = refl }
      by_test false = record { cache = (h u).cache }

  read-Leaves :
      {A B : Type 0} (f : Db → Result A) (g : Error → Error) (k : A → M B) (d r : Db) (c : Cache)
      → ((a : A) → f r ≡ ok a → Leaves Q (k a) (still d r c))
      → Leaves Q (on_error (read f) g >>= k) (still d r c)
  unfolding read ◌>>=◌ on_error
  read-Leaves {A} f g k d r c h = record { cache = by_result (f r) h }
    where
      by_result :
          (x : Result A)
          → ((a : A) → x ≡ ok a → Leaves Q (k a) (still d r c))
          → CacheAfter Q c
              (bind_result (map_err g x) (still d r c) k).0
              (bind_result (map_err g x) (still d r c) k).1
      by_result (ok a) h = (h a refl).cache
      by_result (err e) h = refl

  transaction-Leaves :
      {A B : Type 0} (body : T A) (k : A → M B) (d r : Db) (c : Cache)
      → IsCalm body
      → ((a : A) (d' : Db) → Leaves Q (k a) (still d' r c))
      → Leaves Q (transaction body >>= k) (still d r c)
  unfolding ◌>>=◌
  transaction-Leaves {A} {B} body k d r c calm h = record {
    cache =
        by_result (transaction body (still d r c)).0 (transaction body (still d r c)).1
          (transaction-still body d r c calm);
  }
    where
      by_result :
          (x : Result A) (v : World)
          → v ≡ still v.primary r c
          → CacheAfter Q c (bind_result x v k).0 (bind_result x v k).1
      by_result (err e) v s = ap (λ w. w.cache) s
      by_result (ok a) v s =
          subst (λ w. CacheAfter Q c (k a w).0 (k a w).1) (sym s) (h a v.primary).cache

  pub map-Leaves :
      {A B : Type 0} (m : M A) (b : B) (w : World) → Leaves Q m w → Leaves Q (m >> pure b) w
  unfolding ◌>>=◌ pure
  map-Leaves {A} {B} m b w h = record { cache = by_result (m w).0 (m w).1 h.cache }
    where
      by_result :
          (x : Result A) (v : World)
          → CacheAfter Q w.cache x v
          → CacheAfter Q w.cache (bind_result x v (λ _. pure b)).0 (bind_result x v (λ _. pure b)).1
      by_result (ok a) v h = h
      by_result (err e) v h = h

  pure-Leaves : {B : Type 0} (b : B) (d r : Db) (c : Cache) → Q c → Leaves Q (pure b) (still d r c)
  unfolding pure
  pure-Leaves b d r c q = record { cache = q }

  cache_delete-Leaves :
      {B : Type 0} (key : CacheKey) (b : B) (d r : Db) (c : Cache)
      → Q (without key c)
      → Leaves Q (cache_delete key >> pure b) (still d r c)
  unfolding cache_delete ◌>>=◌ pure
  cache_delete-Leaves key b d r c q = record { cache = q }

  drop_renamed-Leaves :
      {B : Type 0} (old new : String) (b : B) (d r : Db) (c : Cache)
      → (str_eq old new ≡ true → Q c)
      → (str_eq old new ≡ false → Q (without (dict_items new) (without (dict_items old) c)))
      → Leaves Q (drop_renamed old new >> pure b) (still d r c)
  unfolding drop_renamed cache_delete_pair ◌>>=◌ pure
  drop_renamed-Leaves {B} old new b d r c same renamed = by_test (str_eq old new) same renamed
    where
      by_test :
          (t : Bool)
          → (t ≡ true → Q c)
          → (t ≡ false → Q (without (dict_items new) (without (dict_items old) c)))
          → Leaves Q
              (elim t [
                | true ↦ pure tt
                | false ↦ do cache_delete_pair (dict_items old) (dict_items new); pure tt
              ]
                >> pure b)
              (still d r c)
      by_test true same renamed = record { cache = same refl }
      by_test false same renamed = record { cache = renamed refl }

-- The cache after a change of what a dictionary has, of an item, and of a dictionary itself.
abbrev pub Dropped : Db → Cache → ℕ → Cache → Type 0
Dropped r c id c' =
    (x : SysDict) × (DictDao.get_dict_by_id id r ≡ ok x) × (c' ≡ without (dict_items x.code) c)

abbrev pub DroppedItem : Db → Cache → ℕ → Cache → Type 0
DroppedItem r c id c' =
    (x : SysDictItem) × (DictDao.get_dict_item_by_id id r ≡ ok x)
    × (c' ≡ without (dict_items x.dict_code) c)

abbrev pub DroppedBoth : Db → Cache → DictParam → Cache → Type 0
DroppedBoth r c p c' =
    (x : SysDict) × (DictDao.get_dict_by_id p.id r ≡ ok x)
    × (((str_eq x.code p.code ≡ true) × (c' ≡ c))
        ⊎ ((str_eq x.code p.code ≡ false)
            × (c' ≡ without (dict_items p.code) (without (dict_items x.code) c))))

module _ (ctx : Option UserContext) (d r : Db) (c : Cache) where
  pub create_dict-Leaves :
      (p : DictParam) → Leaves (λ c'. c' ≡ c) (Dict.create_dict ctx p) (still d r c)
  unfolding Dict.create_dict
  create_dict-Leaves p = context-Leaves ctx _ _ λ u. read-Leaves _ _ _ d r c λ a _.
      refuse_if-Leaves a _ _ _ (
        transaction-Leaves _ _ d r c (create_dict_body-IsCalm u p)
          (λ row d'. pure-Leaves row.id d' r c refl))

  pub delete_dict-Leaves :
      (id : ℕ) → Leaves (Dropped r c id) (Dict.delete_by_id ctx id) (still d r c)
  unfolding Dict.delete_by_id
  delete_dict-Leaves id = context-Leaves ctx _ _ λ u. refuse_if-Leaves _ _ _ _ (
      read-Leaves _ _ _ d r c λ x found.
        transaction-Leaves _ _ d r c (delete_dict_body-IsCalm u id x)
          (λ _ d'. cache_delete-Leaves _ tt d' r c (x, found, refl)))

  pub create_item-Leaves :
      (p : DictItemParam) → Leaves (Dropped r c p.dict_id) (Dict.create_item ctx p) (still d r c)
  unfolding Dict.create_item
  create_item-Leaves p = context-Leaves ctx _ _ λ u. read-Leaves _ _ _ d r c λ x found.
      read-Leaves _ _ _ d r c λ a _. refuse_if-Leaves a _ _ _ (
        transaction-Leaves _ _ d r c (create_item_body-IsCalm u p x)
          (λ item d'. cache_delete-Leaves _ item.id d' r c (x, found, refl)))

  pub update_item-Leaves :
      (env : Env) (p : DictItemParam)
      → Leaves (DroppedItem r c p.id) (Dict.update_item env ctx p) (still d r c)
  unfolding Dict.update_item
  update_item-Leaves env p = context-Leaves ctx _ _ λ u. refuse_if-Leaves _ _ _ _ (
      read-Leaves _ _ _ d r c λ x found. read-Leaves _ _ _ d r c λ a _. refuse_if-Leaves a _ _ _ (
        transaction-Leaves _ _ d r c (update_item_body-IsCalm u env p x)
          (λ _ d'. cache_delete-Leaves _ p.id d' r c (x, found, refl))))

  pub delete_item-Leaves :
      (id : ℕ) → Leaves (DroppedItem r c id) (Dict.delete_item_by_id ctx id) (still d r c)
  unfolding Dict.delete_item_by_id
  delete_item-Leaves id = context-Leaves ctx _ _ λ u. refuse_if-Leaves _ _ _ _ (
      read-Leaves _ _ _ d r c λ x found.
        transaction-Leaves _ _ d r c (delete_item_body-IsCalm u id x)
          (λ _ d'. cache_delete-Leaves _ tt d' r c (x, found, refl)))

  pub update_dict-Leaves :
      (env : Env) (p : DictParam)
      → Leaves (DroppedBoth r c p) (Dict.update_dict env ctx p) (still d r c)
  unfolding Dict.update_dict
  update_dict-Leaves env p = context-Leaves ctx _ _ λ u. refuse_if-Leaves _ _ _ _ (
      read-Leaves _ _ _ d r c λ x found. read-Leaves _ _ _ d r c λ a _. refuse_if-Leaves a _ _ _ (
        transaction-Leaves _ _ d r c (update_dict_body-IsCalm u env p x) (λ _ d'.
          drop_renamed-Leaves x.code p.code p.id d' r c (λ e. (x, found, inl (e, refl)))
            (λ e. (x, found, inr (e, refl))))))
