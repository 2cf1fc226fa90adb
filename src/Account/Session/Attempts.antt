-- ===== src/Account/Session/Attempts.antt =====
-- How many passwords may be tried for a name: the limiter in front of Authenticate.
use snowgo.Prelude.{
  ℕ, suc, ◌+◌, ◌≤◌, ◌<◌, ◌≡◌, ◌≢◌, refl, ap, sym, subst, find?, ◌∙◌, Bool, true, false, not, List,
  [], ◌∷◌, Option, none, some, String, str_eq, eq_iff, if◌then◌else◌, length, All, leb, arith,
}
use snowgo.Xerror.{biz, login_locked, http_internal_server_error, Result, ok, err}
use snowgo.Extern.{Env, Bytes}
use snowgo.Dal.Model.{SysUser}
use snowgo.Account.Types.{UserInfo}
use snowgo.Account.Runtime.{World, pure, fail, ◌>>=◌, refuse_if, on_error, read_primary}
use snowgo.Account.User.{authenticate}
use snowgo.Account.User.Login.{authenticate-LetIn}
use snowgo.Xlimiter.{Counter, add, new_fixed_window_limiter}
use snowgo.Xlimiter.Window.{add-first, add-within}
use snowgo.Account.Session.{
  Jwt, Token, Sessions, Outage, admit, login_allowed, login, login_limiter, set_fails_of, as_biz,
}

-- A password that does not fit the hash of the name's account, if there is one.
abbrev pub IsWrong : Env → String → List SysUser → Bytes → Type 0
IsWrong env username users password =
    (user : SysUser)
    → find? (λ u. str_eq u.username username) users ≡ some user
    → env.check_password user.password password ≡ false

same_name : (s : String) → str_eq s s ≡ true
same_name s = (eq_iff s s).1 refl

counter_set :
    (username : String) (c : Option Counter) (s : Sessions)
    → (set_fails_of username c s).fails username ≡ c
counter_set username c s = ap (λ b. if b then c else s.fails username) (same_name username)

abbrev counted : ℕ → String → Sessions → Sessions
counted now username s =
    set_fails_of username (some (add login_limiter now (s.fails username)).counter) s

authenticate-keeps_tables :
    (env : Env) (username : String) (password : Bytes) (w : World)
    → (authenticate env username password w).1.primary ≡ w.primary
unfolding authenticate ◌>>=◌ pure fail refuse_if on_error read_primary
authenticate-keeps_tables env username password w = ground arith

-- The counter that an attempt has left, and the tables that it has not touched.
abbrev IsCounted : String → Option Counter → World → Result Token × Sessions → Type 0
IsCounted username c w r = (r.1.fails username ≡ c) × (r.1.world.primary ≡ w.primary)

-- An attempt with a wrong password leaves the counter that the limiter made.
login-IsCounted :
    (env : Env) (jwt : Jwt) (o : Outage) (now : ℕ) (username : String) (password : Bytes)
    (s : Sessions)
    → o.add_fails ≡ false
    → IsWrong env username s.world.primary.users password
    → IsCounted username
        (some (add login_limiter now (s.fails username)).counter)
        s.world
        (login env jwt o now username password s)
unfolding login login_allowed
login-IsCounted env jwt o now username password s up wrong =
    by_outage o.add_fails up (not (add login_limiter now (s.fails username)).allowed)
  where
    made : Option Counter
    made = some (add login_limiter now (s.fails username)).counter

    by_result :
        (a : Result UserInfo × World)
        → a.1.primary ≡ s.world.primary
        → ((info : UserInfo) → a.0 ≢ ok info)
        → IsCounted username made s.world (elim a.0 as (λ _. Result Token × Sessions) [
          | err e ↦ (err (biz (as_biz e)), record (counted now username s) { world = a.1 })
          | ok user ↦
              admit jwt o now username user (record (counted now username s) { world = a.1 })
        ])
    by_result (err e, w) k n = (counter_set username _ s, k)
    by_result (ok user, w) k n = absurd (n user refl)

    by_outage :
        (b : Bool)
        → b ≡ false
        → (c : Bool)
        → IsCounted username made s.world (
            if◌then◌else◌ {A = Result Token × Sessions} b
              (err (biz http_internal_server_error), s)
              (if c
                then (err (biz login_locked), counted now username s)
                else login_allowed env jwt o now username password (counted now username s)))
    by_outage true e c = absurd cc
    by_outage false e true = (counter_set username _ s, refl)
    by_outage false e false =
        by_result (authenticate env username password s.world)
          (authenticate-keeps_tables env username password s.world)
          (λ info h.
            let l = authenticate-LetIn env username password s.world h in
            let r = l.right_password in let q = wrong l.user l.found in absurd cc)

-- Attempts at some times, one after another, whatever their results.
abbrev pub guesses : Env → Jwt → Outage → String → List (ℕ × Bytes) → Sessions → Sessions
guesses env jwt o username [] s = s
guesses env jwt o username (g ∷ gs) s =
    guesses env jwt o username gs (login env jwt o g.0 username g.1 s).1

-- Before the end of the window, and with a wrong password.
abbrev pub IsGuess : Env → String → List SysUser → ℕ → ℕ × Bytes → Type 0
IsGuess env username users end g = (g.0 < end) × IsWrong env username users g.1

abbrev counter : ℕ → ℕ → Counter
counter n end = record { count = n; expires = some end }

guesses-count :
    (env : Env) (jwt : Jwt) (o : Outage) (username : String) (end k : ℕ) (gs : List (ℕ × Bytes))
    (s : Sessions)
    → o.add_fails ≡ false
    → All (IsGuess env username s.world.primary.users end) gs
    → s.fails username ≡ some (counter (suc k) end)
    → (guesses env jwt o username gs s).fails username ≡ some (counter (suc (k + length gs)) end)
guesses-count env jwt o username end k [] s up a h =
    h ∙ ap (λ n. some (counter (suc n) end)) (omega arith)
guesses-count env jwt o username end k (g ∷ gs) s up a h =
    let (one, kept) = login-IsCounted env jwt o g.0 username g.1 s up a.0.1 in
    guesses-count env jwt o username end (suc k) gs (login env jwt o g.0 username g.1 s).1 up
      (subst (λ d. All (IsGuess env username d.users end) gs) (sym kept) a.1)
      (one
        ∙ ap (λ key. some (add login_limiter g.0 key).counter) h
        ∙ ap some (add-within login_limiter g.0 end k a.0.0).1)
    ∙ ap (λ n. some (counter (suc n) end)) (omega arith)

five : login_limiter.max_fails ≡ 5
unfolding new_fixed_window_limiter
five = refl

window : login_limiter.window_sec ≡ 180
unfolding new_fixed_window_limiter
window = refl

login-locked :
    (env : Env) (jwt : Jwt) (o : Outage) (now : ℕ) (username : String) (password : Bytes)
    (s : Sessions)
    → o.add_fails ≡ false
    → (add login_limiter now (s.fails username)).allowed ≡ false
    → (login env jwt o now username password s).0 ≡ err (biz login_locked)
unfolding login
login-locked env jwt o now username password s up full = rw (up, full) refl

-- Where a name has no counter, five attempts or more lock it, when each is made with a password that
-- does not fit the hash of the name's account, if it has one, and before 180 seconds after the first
-- one are over: every login with the name within that time is then refused as locked, also with the
-- right password. The cache answers the limiter throughout.
pub guesses-lock :
    (env : Env) (jwt : Jwt) (o : Outage) (username : String) (first : ℕ × Bytes)
    (rest : List (ℕ × Bytes)) (now : ℕ) (password : Bytes) (s : Sessions)
    → o.add_fails ≡ false
    → s.fails username ≡ none
    → IsWrong env username s.world.primary.users first.1
    → All (IsGuess env username s.world.primary.users (first.0 + 180)) rest
    → 4 ≤ length rest
    → now < first.0 + 180
    → (login env jwt o now username password (guesses env jwt o username (first ∷ rest) s)).0
      ≡ err (biz login_locked)
guesses-lock env jwt o username first rest now password s up clear wrong a enough l =
    login-locked env jwt o now username password (guesses env jwt o username (first ∷ rest) s) up (
      ap (λ key. (add login_limiter now key).allowed) counts
      ∙ (add-within login_limiter now (first.0 + 180) (length rest) l).0
      ∙ ap (leb (suc (suc (length rest)))) five
      ∙ ground arith)
  where
    one :
        IsCounted username
          (some (add login_limiter first.0 (s.fails username)).counter)
          s.world
          (login env jwt o first.0 username first.1 s)
    one = login-IsCounted env jwt o first.0 username first.1 s up wrong

    begun :
        (login env jwt o first.0 username first.1 s).1.fails username
        ≡ some (counter 1 (first.0 + 180))
    begun =
        one.0
        ∙ ap (λ key. some (add login_limiter first.0 key).counter) clear
        ∙ ap some (add-first login_limiter first.0).1
        ∙ ap (λ n. some (counter 1 (first.0 + n))) window

    counts :
        (guesses env jwt o username (first ∷ rest) s).fails username
        ≡ some (counter (suc (length rest)) (first.0 + 180))
    counts =
        guesses-count env jwt o username (first.0 + 180) 0 rest
          (login env jwt o first.0 username first.1 s).1 up
          (subst (λ d. All (IsGuess env username d.users (first.0 + 180)) rest) (sym one.1) a) begun
        ∙ ap (λ n. some (counter (suc n) (first.0 + 180))) (omega arith)
