-- ===== src/Account/Runtime.antt =====
-- What a request works on: the write node, the replica that repo.Query() reads from, the Redis
-- cache, and the faults to come. Outside a transaction a SELECT goes to the replica, which may be
-- behind the write node in any way.
use snowgo.Prelude.{
  ℕ, ◌+◌, Bool, true, false, [], ◌∷◌, Option, none, some, ◌==◌, if◌then◌else◌, ◌≡◌, refl, str_eq,
  arith,
}
use snowgo.Xerror.{Error, Result, ok, err, map_err}
use snowgo.Dal.Tx.{Db, Tx, T, Faults, error_of}
use snowgo.Account.Types.{CacheKey, CacheValue, menu_tree, role_menu, user_role, dict_items}

abbrev pub Cache : Type 0
Cache = CacheKey → Option CacheValue

pub record World : Type 0 where
  pub primary : Db
  pub replica : Db
  pub cache : Cache
  pub faults : Faults

-- A step outside a transaction keeps what it did when a later one fails.
abbrev pub M : Type 0 → Type 0
M A = World → Result A × World

unfoldable pub pure : {A : Type 0} → A → M A
pure a w = (ok a, w)

unfoldable pub fail : {A : Type 0} → Error → M A
fail e w = (err e, w)

abbrev pub bind_result : {A B : Type 0} → Result A → World → (A → M B) → Result B × World
bind_result (ok a) w f = f a w
bind_result (err e) w f = (err e, w)

infixl 5 ◌>>=◌ ◌>>◌
unfoldable pub ◌>>=◌ : {A B : Type 0} → M A → (A → M B) → M B
◌>>=◌ m f w = bind_result (m w).0 (m w).1 f

abbrev pub ◌>>◌ : {A B : Type 0} → M A → M B → M B
m >> k = m >>= λ _. k

unfoldable pub refuse_if : Bool → Error → M (Unit {0})
unfolding pure fail
refuse_if true e = fail e
refuse_if false e = pure tt

-- A refusal that did not happen.
pub refuse_if-eq-ok :
    {B : Type 0} (b : Bool) (e : Error) (k : Unit {0} → M B) (w : World) {x : B}
    → ((refuse_if b e >>= k) w).0 ≡ ok x
    → (b ≡ false) × ((k tt w).0 ≡ ok x)
unfolding refuse_if ◌>>=◌ pure fail
refuse_if-eq-ok true e k w h = cc
refuse_if-eq-ok false e k w h = (refl, h)

unfoldable pub on_error : {A : Type 0} → M A → (Error → Error) → M A
on_error m f w = (map_err f (m w).0, (m w).1)

-- A call that touches neither the tables nor the cache.
unfoldable pub lift : {A : Type 0} → Result A → M A
lift r w = (r, w)

abbrev pub next_fault : {A : Type 0} → (Faults → A) → (Error → Faults → A) → Faults → A
next_fault run failed [] = run []
next_fault run failed (none ∷ fs) = run fs
next_fault run failed (some x ∷ fs) = failed (error_of x) fs

pub next_fault_cases {ℓ} :
    {A : Type 0} (P : A → Type ℓ) (run : Faults → A) (failed : Error → Faults → A) (fs : Faults)
    → ((rest : Faults) → P (run rest))
    → ((e : Error) (rest : Faults) → P (failed e rest))
    → P (next_fault run failed fs)
next_fault_cases P run failed [] r f = r []
next_fault_cases P run failed (none ∷ fs) r f = r fs
next_fault_cases P run failed (some x ∷ fs) r f = f (error_of x) fs

-- A SELECT outside a transaction.
unfoldable pub read : {A : Type 0} → (Db → Result A) → M A
read f w =
    next_fault (λ fs. (f w.replica, record w { faults = fs }))
      (λ e fs. (err e, record w { faults = fs })) w.faults

-- The same on the write node: WriteQuery().
unfoldable pub read_primary : {A : Type 0} → (Db → Result A) → M A
read_primary f w =
    next_fault (λ fs. (f w.primary, record w { faults = fs }))
      (λ e fs. (err e, record w { faults = fs })) w.faults

abbrev pub commit : {A : Type 0} → World → Result (A × Tx) → Result A × World
commit w (err e) = (err e, record w { faults = [] })
commit w (ok (a, t)) =
    next_fault (λ fs. (ok a, record w { primary = t.db; faults = fs }))
      (λ e fs. (err e, record w { faults = fs })) t.faults

-- WriteQuery().Transaction(body): BEGIN, the body, and COMMIT if the body returned no error.
unfoldable pub transaction : {A : Type 0} → T A → M A
transaction body w =
    next_fault (λ fs. commit w (body (record { db = w.primary; faults = fs })))
      (λ e fs. (err e, record w { faults = fs })) w.faults

abbrev pub key_eq : CacheKey → CacheKey → Bool
key_eq menu_tree menu_tree = true
key_eq (role_menu a) (role_menu b) = a == b
key_eq (user_role a) (user_role b) = a == b
key_eq (dict_items a) (dict_items b) = str_eq a b
key_eq _ _ = false

-- Cache.Get: the text, if the key is there.
unfoldable pub cache_get : CacheKey → M (Result (Option CacheValue))
cache_get key w =
    next_fault (λ fs. (ok (ok (w.cache key)), record w { faults = fs }))
      (λ e fs. (ok (err e), record w { faults = fs })) w.faults

unfoldable pub cache_set : CacheKey → CacheValue → M (Result (Unit {0}))
cache_set key value w =
    next_fault
      (λ fs. (
        ok (ok tt),
        record w { cache = λ k. if key_eq k key then some value else w.cache k; faults = fs },
      ))
      (λ e fs. (ok (err e), record w { faults = fs })) w.faults

abbrev pub deleted : CacheKey → World → Faults → Result (Result ℕ) × World
deleted key w fs = (
  ok (ok (elim (w.cache key) [ none ↦ 0 | some _ ↦ 1 ])),
  record w { cache = λ k. if key_eq k key then none else w.cache k; faults = fs },
)

abbrev pub not_deleted : World → Error → Faults → Result (Result ℕ) × World
not_deleted w e fs = (ok (err e), record w { faults = fs })

-- Cache.Delete of one key: how many keys were there.
unfoldable pub cache_delete : CacheKey → M (Result ℕ)
cache_delete key w = next_fault (deleted key w) (not_deleted w) w.faults

abbrev pub without : CacheKey → Cache → Cache
without key c k = if key_eq k key then none else c k

abbrev pub present : CacheKey → Cache → ℕ
present key c = elim (c key) [ none ↦ 0 | some _ ↦ 1 ]

-- Cache.Delete of two keys, in one call.
unfoldable pub cache_delete_pair : CacheKey → CacheKey → M (Result ℕ)
cache_delete_pair a b w =
    next_fault
      (λ fs. (
        ok (ok (present a w.cache + present b (without a w.cache))),
        record w { cache = without b (without a w.cache); faults = fs },
      ))
      (not_deleted w) w.faults

-- A failed transaction leaves the write node as it was.
pub transaction-err :
    {A : Type 0} (body : T A) (w : World) {e : Error}
    → (transaction body w).0 ≡ err e
    → ((transaction body w).1.primary ≡ w.primary) × ((transaction body w).1.cache ≡ w.cache)
unfolding transaction
transaction-err body w h = ground arith

-- What the body of a transaction begins with, once BEGIN has been carried out.
abbrev pub begun : World → Tx
begun w = record { db = w.primary; faults = next_fault (λ fs. fs) (λ _ fs. fs) w.faults }

-- The write node after a request that committed `t`.
abbrev pub Committed {ℓ} : {A : Type ℓ} → World → Tx → Result A × World → Type 0
Committed w t r = (r.1.primary ≡ t.db) × (r.1.replica ≡ w.replica) × (r.1.cache ≡ w.cache)

commit-ok :
    {A : Type 0} (w : World) (r : Result (A × Tx)) {a : A}
    → (commit w r).0 ≡ ok a
    → (t : Tx) × (r ≡ ok (a, t)) × Committed w t (commit w r)
commit-ok w (err e) h = cc
commit-ok w (ok (b, t)) h = (t, ground arith, ground arith)

-- One that succeeds has left there what its body made.
pub transaction-ok :
    {A : Type 0} (body : T A) (w : World) {a : A}
    → (transaction body w).0 ≡ ok a
    → (t : Tx) × (body (begun w) ≡ ok (a, t)) × Committed w t (transaction body w)
unfolding transaction
transaction-ok {A} body w {a} h = by_faults w.faults h
  where
    by_faults :
        (fs : Faults)
        → (next_fault
            (λ fs. commit w (body (record { db = w.primary; faults = fs })))
            (λ e fs. (err e, record w { faults = fs }))
            fs).0
          ≡ ok a
        → (t : Tx) × (body
              (record { db = w.primary; faults = next_fault (λ fs. fs) (λ _ fs. fs) fs })
            ≡ ok (a, t))
          × Committed w t (
              next_fault
                (λ fs. commit w (body (record { db = w.primary; faults = fs })))
                (λ e fs. (err e, record w { faults = fs }))
                fs)
    by_faults [] h = commit-ok w _ h
    by_faults (none ∷ fs) h = commit-ok w _ h
    by_faults (some x ∷ fs) h = cc
