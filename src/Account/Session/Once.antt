-- ===== src/Account/Session/Once.antt =====
-- A refresh token is exchanged at most once, and not after its session was logged out.
use snowgo.Prelude.{
  ℕ, ◌<◌, ◌≡◌, refl, sym, ap, ◌∙◌, subst, Bool, true, false, not, ◌||◌, none, some, String, ◌==◌,
  if◌then◌else◌, arith, inl, inr, Bool-cases,
}
use snowgo.Xerror.{biz, token_used_error, token_expired, token_invalid, Result, ok, err}
use snowgo.Extern.{Env, Bytes}
use snowgo.Account.Session.{
  Claims, Jwt, Token, Sessions, Outage, set_jti, refresh_tokens, renew, use_claims, refresh_token,
  login, logout,
}
use snowgo.Account.Session.Refresh.{ReadsSigned, IsSpent, set_jti-IsSpent}
use snowgo.Account.Session.Spent.{
  SameIds, SameIds-IsSpent, renewed-IsSpent, refresh_token-IsSpent, login-IsSpent, logout-IsSpent,
}

-- What comes after: requests of any user, ids that expire in the cache, and anything that leaves
-- the ids and the uuids alone.
pub data Later (env : Env) (jwt : Jwt) (s : Sessions) : Sessions → Type 0 where
  now : Later env jwt s s
  logs_in :
      {v : Sessions} (o : Outage) (time : ℕ) (username : String) (password : Bytes)
      → Later env jwt s v
      → Later env jwt s (login env jwt o time username password v).1
  refreshes :
      {v : Sessions} (o : Outage) (time : ℕ) (text : String)
      → Later env jwt s v
      → Later env jwt s (refresh_token jwt o time text v).1
  logs_out :
      {v : Sessions} (o : Outage) (user_id session_id : ℕ)
      → Later env jwt s v
      → Later env jwt s (logout o user_id session_id v).1
  expires : {v : Sessions} (id : ℕ) → Later env jwt s v → Later env jwt s (set_jti id false v)
  passes : {v : Sessions} (v' : Sessions) → SameIds v v' → Later env jwt s v → Later env jwt s v'

Later-IsSpent :
    (env : Env) (jwt : Jwt) (id : ℕ) (s v : Sessions)
    → ReadsSigned jwt
    → Later env jwt s v
    → IsSpent id s
    → IsSpent id v
Later-IsSpent env jwt id s _ r now h = h
Later-IsSpent env jwt id s _ r (logs_in {v} o time username password l) h =
    login-IsSpent jwt r id env o time username password v (Later-IsSpent env jwt id s v r l h)
Later-IsSpent env jwt id s _ r (refreshes {v} o time text l) h =
    refresh_token-IsSpent jwt r id o time text v (Later-IsSpent env jwt id s v r l h)
Later-IsSpent env jwt id s _ r (logs_out {v} o user_id session_id l) h =
    logout-IsSpent jwt r id o user_id session_id v (Later-IsSpent env jwt id s v r l h)
Later-IsSpent env jwt id s _ r (expires {v} k l) h =
    set_jti-IsSpent id k false v (λ _. refl) (Later-IsSpent env jwt id s v r l h)
Later-IsSpent env jwt id s _ r (passes {v} v' e l) h =
    SameIds-IsSpent id v v' e (Later-IsSpent env jwt id s v r l h)

-- What RefreshToken does with a text that is read.
refresh_token-some :
    (jwt : Jwt) (o : Outage) (time : ℕ) (text : String) (c : Claims) (s : Sessions)
    → jwt.parse_with_claims time text ≡ some c
    → refresh_token jwt o time text s ≡ use_claims jwt o time text c s
unfolding refresh_token
refresh_token-some jwt o time text c s p =
    ap
      (λ x. elim x as (λ _. Result Token × Sessions) [
        | none ↦ (err (biz (if jwt.is_expired time text then token_expired else token_invalid)), s)
        | some c ↦ use_claims jwt o time text c s
      ])
      p

abbrev renewed : Jwt → Outage → ℕ → String → Sessions → Result Token × Sessions
renewed jwt o time text s =
    renew jwt o time (refresh_tokens jwt time text s).0 (refresh_tokens jwt time text s).1

use_claims-when :
    (jwt : Jwt) (o : Outage) (time : ℕ) (text : String) (c : Claims) (s : Sessions) {b : Bool}
    → (o.delete_fails || not (s.jti c.id)) ≡ b
    → use_claims jwt o time text c s ≡ (
        if b
        then (err (biz token_used_error), s)
        else renewed jwt o time text (set_jti c.id false s))
unfolding use_claims
use_claims-when jwt o time text c s e =
    ap
      (λ b.
        if◌then◌else◌ {A = Result Token × Sessions} b (err (biz token_used_error), s)
          (renewed jwt o time text (set_jti c.id false s)))
      e

no_id : (b i : Bool) → i ≡ false → (b || not i) ≡ true
no_id b i h = ground arith

-- A token whose id is spent is refused.
spent-refresh_token :
    (jwt : Jwt) (o : Outage) (time : ℕ) (text : String) (c : Claims) (s : Sessions)
    → jwt.parse_with_claims time text ≡ some c
    → IsSpent c.id s
    → (refresh_token jwt o time text s).0 ≡ err (biz token_used_error)
spent-refresh_token jwt o time text c s p h =
    ap (λ r. r.0)
      (refresh_token-some jwt o time text c s p
        ∙ use_claims-when jwt o time text c s (no_id o.delete_fails (s.jti c.id) h.gone))

used_up : (id : ℕ) (s : Sessions) → id < s.next_uuid → IsSpent id (set_jti id false s)
unfolding set_jti
used_up id s l = record { drawn = l; gone = ground arith }

-- A refresh that succeeds has spent the id of its token.
refresh_token-spends :
    (jwt : Jwt) (o : Outage) (time : ℕ) (text : String) (c : Claims) (s : Sessions) {token : Token}
    → ReadsSigned jwt
    → jwt.parse_with_claims time text ≡ some c
    → c.id < s.next_uuid
    → (refresh_token jwt o time text s).0 ≡ ok token
    → IsSpent c.id (refresh_token jwt o time text s).1
refresh_token-spends jwt o time text c s r p l h =
    let read = refresh_token-some jwt o time text c s p in
    elim (Bool-cases (o.delete_fails || not (s.jti c.id))) [
      | inl y ↦
          let refused = ap (λ r. r.0) (read ∙ use_claims-when jwt o time text c s y) in absurd cc
      | inr n ↦
          subst (λ r. IsSpent c.id r.1) (sym (read ∙ use_claims-when jwt o time text c s n))
            (renewed-IsSpent jwt r c.id o time text (set_jti c.id false s) (used_up c.id s l))
    ]

-- A refresh token that was exchanged for new tokens once is refused ever after, with the error for
-- a used token: whatever logins, refreshes, logouts and expiries come in between, and whatever
-- outages of the cache there are. The token library reads a text that it signed as what it signed,
-- the text of the token is read as the same claims both times, and the id in them is that of a uuid
-- drawn before.
pub refresh_token-once :
    (env : Env) (jwt : Jwt) (o o' : Outage) (time later : ℕ) (text : String) (c : Claims)
    (s v : Sessions) {token : Token}
    → ReadsSigned jwt
    → c.id < s.next_uuid
    → jwt.parse_with_claims time text ≡ some c
    → (refresh_token jwt o time text s).0 ≡ ok token
    → Later env jwt (refresh_token jwt o time text s).1 v
    → jwt.parse_with_claims later text ≡ some c
    → (refresh_token jwt o' later text v).0 ≡ err (biz token_used_error)
refresh_token-once env jwt o o' time later text c s v r l p h run q =
    spent-refresh_token jwt o' later text c v q
      (Later-IsSpent env jwt c.id _ v r run (refresh_token-spends jwt o time text c s r p l h))

logged_out :
    (o : Outage) (user_id id : ℕ) (s : Sessions)
    → o.delete_fails ≡ false
    → (user_id == 0) ≡ false
    → id < s.next_uuid
    → IsSpent id (logout o user_id id s).1
unfolding logout
logged_out o user_id id s d u l = rw (u, d) (used_up id s l)

-- After a logout by a user whose id is not 0, and whose call of the cache does not fail, the refresh
-- token of that session is refused ever after, when it is read, with the error for a used token. The
-- token library reads a text that it signed as what it signed, and the session's id is that of a
-- uuid drawn before.
pub logout-revokes :
    (env : Env) (jwt : Jwt) (o o' : Outage) (user_id later : ℕ) (text : String) (c : Claims)
    (s v : Sessions)
    → ReadsSigned jwt
    → c.id < s.next_uuid
    → o.delete_fails ≡ false
    → (user_id == 0) ≡ false
    → Later env jwt (logout o user_id c.id s).1 v
    → jwt.parse_with_claims later text ≡ some c
    → (refresh_token jwt o' later text v).0 ≡ err (biz token_used_error)
logout-revokes env jwt o o' user_id later text c s v r l d u run q =
    spent-refresh_token jwt o' later text c v q
      (Later-IsSpent env jwt c.id _ v r run (logged_out o user_id c.id s d u l))
