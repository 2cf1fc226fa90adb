-- ===== src/Account/Outcome.antt =====
-- How a request ends: with an error and the write node as it was, or with a result and the write
-- node as `P` says. One rule for each kind of step.
use snowgo.Prelude.{
  ℕ, ◌≡◌, ◌≢◌, refl, sym, ◌∙◌, subst, Bool, true, false, [], Option, none, some, arith, ◌==◌, List,
}
use snowgo.Xerror.{Code, Error, biz, http_forbidden, Result, ok, err, map_err}
use snowgo.Dal.Tx.{Db, Tx, T, Faults}
use snowgo.Account.Context.{get_user_context}
use snowgo.Account.Types.{UserContext, CacheKey}
use snowgo.Extern.{Bytes}
use snowgo.Account.Password.{validate_password}
use snowgo.Account.User.{check_password_rules}
use snowgo.Account.Menu.{or_none}
use snowgo.Account.Runtime.{
  World, M, pure, fail, ◌>>=◌, ◌>>◌, on_error, refuse_if, lift, next_fault_cases, read, transaction,
  begun, cache_delete, deleted, not_deleted, transaction-err, transaction-ok, bind_result,
}

abbrev pub Outcome : {A : Type 0} → (Db → Type 0) → Db → Result A → World → Type 0
Outcome P d (err e) w = w.primary ≡ d
Outcome P d (ok a) w = P w.primary

pub record Ends {A : Type 0} (P : Db → Type 0) (m : M A) (w : World) : Type 0 where
  pub outcome : Outcome P w.primary (m w).0 (m w).1

-- A step that never fails and leaves the write node alone.
pub record IsQuiet {B : Type 0} (m : M B) : Type 0 where
  pub settles : (w : World) → (b : B) × ((m w).0 ≡ ok b) × ((m w).1.primary ≡ w.primary)

module _ {P : Db → Type 0} where
  -- A refusal that does not happen.
  pub refuse_if-Ends :
      {B : Type 0} (b : Bool) (e : Error) (k : Unit {0} → M B) (w : World)
      → (b ≡ false → Ends P (k tt) w)
      → Ends P (refuse_if b e >>= k) w
  unfolding refuse_if ◌>>=◌
  refuse_if-Ends {B} b e k w h = by_test b h
    where
      by_test : (b : Bool) → (b ≡ false → Ends P (k tt) w) → Ends P (refuse_if b e >>= k) w
      by_test true h = record { outcome = refl }
      by_test false h = record { outcome = (h refl).outcome }

  -- Who sends the request.
  pub context-Ends :
      {B : Type 0} (ctx : Option UserContext) (k : UserContext → M B) (w : World)
      → ((u : UserContext) → ctx ≡ some u → u.user_id ≢ 0 → Ends P (k u) w)
      → Ends P (get_user_context ctx >>= k) w
  unfolding get_user_context refuse_if ◌>>=◌
  context-Ends {B} ctx k w h = by_context ctx h
    where
      by_test :
          (u : UserContext) (b : Bool)
          → (b ≡ false → Ends P (k u) w)
          → Ends P ((refuse_if b (biz http_forbidden) >> pure u) >>= k) w
      by_test u true h = record { outcome = refl }
      by_test u false h = record { outcome = (h refl).outcome }

      by_context :
          (c : Option UserContext)
          → ((u : UserContext) → c ≡ some u → u.user_id ≢ 0 → Ends P (k u) w)
          → Ends P (get_user_context c >>= k) w
      by_context none h = record { outcome = refl }
      by_context (some u) h = by_test u (u.user_id == 0) (λ e. h u refl (λ z. ground arith))

  -- A result that is passed over.
  pub map-Ends : {A B : Type 0} (m : M A) (b : B) (w : World) → Ends P m w → Ends P (m >> pure b) w
  unfolding ◌>>=◌ pure
  map-Ends {A} {B} m b w h = record { outcome = by_result (m w).0 h.outcome }
    where
      by_result :
          (r : Result A)
          → Outcome P w.primary r (m w).1
          → Outcome P w.primary
              (bind_result r (m w).1 (λ _. pure b)).0
              (bind_result r (m w).1 (λ _. pure b)).1
      by_result (ok a) h = h
      by_result (err e) h = h

  -- The test of a new password.
  pub password-Ends :
      {B : Type 0} (password : Bytes) (k : Unit {0} → M B) (w : World)
      → Ends P (k tt) w
      → Ends P (check_password_rules password >>= k) w
  unfolding ◌>>=◌ pure fail
  password-Ends {B} password k w h = record { outcome = by_code (validate_password password) }
    where
      by_code :
          (c : Option Code)
          → Outcome P w.primary
              ((elim c [ none ↦ pure tt | some c ↦ fail (biz c) ] >>= k) w).0
              ((elim c [ none ↦ pure tt | some c ↦ fail (biz c) ] >>= k) w).1
      by_code none = h.outcome
      by_code (some c) = refl

result-Outcome :
    {A B : Type 0} (P : Db → Type 0) (r : Result A) (g : Error → Error) (k : A → M B) (w : World)
    → ((a : A) → r ≡ ok a → Outcome P w.primary (k a w).0 (k a w).1)
    → Outcome P w.primary (bind_result (map_err g r) w k).0 (bind_result (map_err g r) w k).1
result-Outcome P (ok a) g k w h = h a refl
result-Outcome P (err e) g k w h = refl

module _ {A B : Type 0} {P : Db → Type 0} where
  -- A read outside the transaction: it fails, or the request goes on with what the replica has.
  pub read-Ends :
      (f : Db → Result A) (g : Error → Error) (k : A → M B) (w : World)
      → ((a : A) (fs : Faults) → f w.replica ≡ ok a → Ends P (k a) (record w { faults = fs }))
      → Ends P (on_error (read f) g >>= k) w
  unfolding read ◌>>=◌ on_error
  read-Ends f g k w h = record {
    outcome =
        next_fault_cases {A = Result A × World}
          (λ r.
            Outcome P w.primary (bind_result (map_err g r.0) r.1 k).0
              (bind_result (map_err g r.0) r.1 k).1)
          (λ fs. (f w.replica, record w { faults = fs }))
          (λ e fs. (err e, record w { faults = fs })) w.faults
          (λ fs.
            result-Outcome P (f w.replica) g k (record w { faults = fs })
              (λ a e. (h a fs e).outcome))
          (λ e fs. refl);
  }

  -- A call outside the tables.
  pub lift-Ends :
      (r : Result A) (g : Error → Error) (k : A → M B) (w : World)
      → ((a : A) → r ≡ ok a → Ends P (k a) w)
      → Ends P (on_error (lift r) g >>= k) w
  unfolding ◌>>=◌ on_error lift
  lift-Ends r g k w h = record { outcome = result-Outcome P r g k w (λ a e. (h a e).outcome) }

  -- The transaction, and steps after it that cannot fail.
  pub transaction-Ends :
      (body : T A) (k : A → M B) (w : World)
      → ((x : A × Tx) → body (begun w) ≡ ok x → P x.1.db)
      → ((a : A) → IsQuiet (k a))
      → Ends P (transaction body >>= k) w
  unfolding ◌>>=◌
  transaction-Ends body k w h q = record { outcome = by_result (transaction body w).0 refl }
    where
      by_result :
          (r : Result A)
          → (transaction body w).0 ≡ r
          → Outcome P w.primary ((transaction body >>= k) w).0 ((transaction body >>= k) w).1
      by_result (err e) h' = rw h' (transaction-err body w h').0
      by_result (ok a) h' =
          let (t, run, done) = transaction-ok body w h' in
          let (b, settled, kept) = (q a).settles (transaction body w).1 in
          rw (h', settled) (subst P (sym (kept ∙ done.0)) (h (a, t) run))

-- A transaction that is the last step.
pub last_transaction-Ends :
    {A : Type 0} {P : Db → Type 0} (body : T A) (w : World)
    → ((x : A × Tx) → body (begun w) ≡ ok x → P x.1.db)
    → Ends P (transaction body) w
last_transaction-Ends {A} {P} body w h = record { outcome = by_result (transaction body w).0 refl }
  where
    by_result :
        (r : Result A)
        → (transaction body w).0 ≡ r
        → Outcome P w.primary (transaction body w).0 (transaction body w).1
    by_result (err e) h' = rw h' (transaction-err body w h').0
    by_result (ok a) h' =
        let (t, run, done) = transaction-ok body w h' in rw h' (subst P (sym done.0) (h (a, t) run))

pub pure-IsQuiet : {B : Type 0} (b : B) → IsQuiet (pure b)
unfolding pure
pure-IsQuiet b = record { settles = λ w. (b, refl, refl) }

cache_delete_settles :
    (key : CacheKey) (w : World)
    → (b : Result ℕ) × ((cache_delete key w).0 ≡ ok b)
      × ((cache_delete key w).1.primary ≡ w.primary)
unfolding cache_delete
cache_delete_settles key w =
    next_fault_cases {A = Result (Result ℕ) × World}
      (λ r. (b : Result ℕ) × (r.0 ≡ ok b) × (r.1.primary ≡ w.primary)) (deleted key w)
      (not_deleted w) w.faults (λ fs. (ok _, refl, refl)) (λ e fs. (err e, refl, refl))

-- Dropping a key from the cache is such a step, whether it fails or not.
pub cache_delete-IsQuiet :
    {B : Type 0} (key : CacheKey) (m : M B) → IsQuiet m → IsQuiet (cache_delete key >> m)
unfolding ◌>>=◌
cache_delete-IsQuiet key m q = record {
  settles = λ w.
      let (r, done, kept) = cache_delete_settles key w in
      let (b, settled, same) = q.settles (cache_delete key w).1 in
      (b, rw done settled, rw done (same ∙ kept));
}

or_none_settles :
    (f : Db → Result (List ℕ)) (w : World)
    → (ids : List ℕ) × ((or_none (read f) w).0 ≡ ok ids)
      × ((or_none (read f) w).1.primary ≡ w.primary)
unfolding read
or_none_settles f w =
    next_fault_cases {A = Result (List ℕ) × World}
      (λ r.
        (ids : List ℕ) × ((or_none (λ _. r) w).0 ≡ ok ids)
        × ((or_none (λ _. r) w).1.primary ≡ w.primary))
      (λ fs. (f w.replica, record w { faults = fs })) (λ e fs. (err e, record w { faults = fs }))
      w.faults (λ fs. by_result (f w.replica) (record w { faults = fs }) refl)
      (λ e fs. ([], refl, refl))
  where
    by_result :
        (r : Result (List ℕ)) (v : World)
        → v.primary ≡ w.primary
        → (ids : List ℕ) × ((or_none (λ _. (r, v)) w).0 ≡ ok ids)
          × ((or_none (λ _. (r, v)) w).1.primary ≡ w.primary)
    by_result (ok ids) v e = (ids, refl, e)
    by_result (err x) v e = ([], refl, e)

-- A read whose failure is passed over, and quiet steps after it.
pub or_none-IsQuiet :
    {B : Type 0} (f : Db → Result (List ℕ)) (k : List ℕ → M B)
    → ((ids : List ℕ) → IsQuiet (k ids))
    → IsQuiet (or_none (read f) >>= k)
unfolding ◌>>=◌
or_none-IsQuiet f k q = record {
  settles = λ w.
      let (ids, done, kept) = or_none_settles f w in
      let (b, settled, same) = (q ids).settles (or_none (read f) w).1 in
      (b, rw done settled, rw done (same ∙ kept));
}
