-- ===== src/Account/Session/Spent.antt =====
-- An id that is spent stays so, whatever requests come; and a refresh spends the id of its token.
use snowgo.Prelude.{
  ℕ, ◌<◌, ◌≡◌, refl, sym, ap, ◌∙◌, subst, Bool, true, false, not, ◌||◌, Option, none, some, String,
  ◌==◌, if◌then◌else◌,
}
use snowgo.Xerror.{
  biz, token_used_error, login_locked, http_internal_server_error, http_unauthorized, token_expired,
  token_invalid, Result, ok, err,
}
use snowgo.Extern.{Env, Bytes}
use snowgo.Account.Types.{UserInfo}
use snowgo.Account.Runtime.{World}
use snowgo.Account.User.{authenticate}
use snowgo.Xlimiter.{reset, add}
use snowgo.Account.Session.{
  Claims, Jwt, Token, Sessions, Outage, set_jti, generate_tokens, refresh_tokens, renew, use_claims,
  refresh_token, issue, admit, login, login_allowed, login_limiter, logout, set_fails_of, as_biz,
}
use snowgo.Account.Session.Refresh.{
  ReadsSigned, IsSpent, set_jti-IsSpent, generate_tokens-IsSpent, generate_tokens-id,
  save_jti-IsSpent, refresh_tokens-IsSpent, refresh_tokens-id, renew-IsSpent,
}

-- The worlds, counters and outages that requests of other kinds leave behind.
abbrev pub SameIds : Sessions → Sessions → Type 0
SameIds s v = (v.next_uuid ≡ s.next_uuid) × (v.jti ≡ s.jti)

-- After the limiter has counted the attempt.
abbrev counted : ℕ → String → Sessions → Sessions
counted now username s =
    set_fails_of username (some (add login_limiter now (s.fails username)).counter) s

pub SameIds-IsSpent : (id : ℕ) (s v : Sessions) → SameIds s v → IsSpent id s → IsSpent id v
SameIds-IsSpent id s v e h = record {
  drawn = subst (λ n. id < n) (sym e.0) h.drawn;
  gone = ap (λ f. f id) e.1 ∙ h.gone;
}

module _ (jwt : Jwt) (reads : ReadsSigned jwt) (id : ℕ) where
  pub renewed-IsSpent :
      (o : Outage) (now : ℕ) (text : String) (s : Sessions)
      → IsSpent id s
      → IsSpent id
          (renew jwt o now (refresh_tokens jwt now text s).0 (refresh_tokens jwt now text s).1).1
  renewed-IsSpent o now text s h =
      renew-IsSpent jwt o now (refresh_tokens jwt now text s).0 id s.next_uuid _
        (λ t c e p. refresh_tokens-id jwt now text s t now c reads e p) h.drawn
        (refresh_tokens-IsSpent jwt now text id s h)

  use_claims-IsSpent :
      (o : Outage) (now : ℕ) (text : String) (c : Claims) (s : Sessions)
      → IsSpent id s
      → IsSpent id (use_claims jwt o now text c s).1
  unfolding use_claims
  use_claims-IsSpent o now text c s h = by_test (o.delete_fails || not (s.jti c.id))
    where
      by_test :
          (b : Bool)
          → IsSpent id
              (if◌then◌else◌ {A = Result Token × Sessions} b
                (err (biz token_used_error), s)
                (renew jwt o now
                  (refresh_tokens jwt now text (set_jti c.id false s)).0
                  (refresh_tokens jwt now text (set_jti c.id false s)).1)).1
      by_test true = h
      by_test false =
          renewed-IsSpent o now text (set_jti c.id false s)
            (set_jti-IsSpent id c.id false s (λ _. refl) h)

  pub refresh_token-IsSpent :
      (o : Outage) (now : ℕ) (text : String) (s : Sessions)
      → IsSpent id s
      → IsSpent id (refresh_token jwt o now text s).1
  unfolding refresh_token
  refresh_token-IsSpent o now text s h = by_claims (jwt.parse_with_claims now text)
    where
      by_claims :
          (c : Option Claims)
          → IsSpent id
              (elim c as (λ _. Result Token × Sessions) [
                | none ↦ (
                  err (biz (if jwt.is_expired now text then token_expired else token_invalid)),
                  s,
                )
                | some c ↦ use_claims jwt o now text c s
              ]).1
      by_claims none = h
      by_claims (some c) = use_claims-IsSpent o now text c s h

  issue-IsSpent :
      (o : Outage) (now : ℕ) (token : Option Token) (next : ℕ) (s : Sessions)
      → ((t : Token) (c : Claims)
          → token ≡ some t
          → jwt.parse_with_claims now t.refresh_token ≡ some c
          → c.id ≡ next)
      → id < next
      → IsSpent id s
      → IsSpent id (issue jwt o now token s).1
  unfolding issue
  issue-IsSpent o now none next s f l h = h
  issue-IsSpent o now (some t) next s f l h =
      save_jti-IsSpent jwt now o.set_fails t id next s (λ c e. f t c refl e) l h

  issued-IsSpent :
      (o : Outage) (now user_id : ℕ) (username : String) (s : Sessions)
      → IsSpent id s
      → IsSpent id
          (issue jwt o now
            (generate_tokens jwt now user_id username s).0
            (generate_tokens jwt now user_id username s).1).1
  issued-IsSpent o now user_id username s h =
      issue-IsSpent o now _ s.next_uuid _
        (λ t c e p. generate_tokens-id jwt now user_id username s t now c reads e p) h.drawn
        (generate_tokens-IsSpent jwt now user_id username id s h)

  admit-IsSpent :
      (o : Outage) (now : ℕ) (username : String) (user : UserInfo) (s : Sessions)
      → IsSpent id s
      → IsSpent id (admit jwt o now username user s).1
  unfolding admit
  admit-IsSpent o now username user s h =
      issued-IsSpent o now user.id user.username _ (by_outage o.delete_fails)
    where
      by_outage :
          (b : Bool)
          → IsSpent id (if b then s else set_fails_of username (reset (s.fails username)) s)
      by_outage true = h
      by_outage false = SameIds-IsSpent id s _ (refl, refl) h

  login_allowed-IsSpent :
      (env : Env) (o : Outage) (now : ℕ) (username : String) (password : Bytes) (s : Sessions)
      → IsSpent id s
      → IsSpent id (login_allowed env jwt o now username password s).1
  unfolding login_allowed
  login_allowed-IsSpent env o now username password s h =
      by_result (authenticate env username password s.world)
    where
      by_result :
          (a : Result UserInfo × World)
          → IsSpent id
              (elim a.0 as (λ _. Result Token × Sessions) [
                | err e ↦ (err (biz (as_biz e)), record s { world = a.1 })
                | ok user ↦ admit jwt o now username user (record s { world = a.1 })
              ]).1
      by_result (err e, w) = SameIds-IsSpent id s _ (refl, refl) h
      by_result (ok user, w) =
          admit-IsSpent o now username user (record s { world = w })
            (SameIds-IsSpent id s _ (refl, refl) h)

  pub login-IsSpent :
      (env : Env) (o : Outage) (now : ℕ) (username : String) (password : Bytes) (s : Sessions)
      → IsSpent id s
      → IsSpent id (login env jwt o now username password s).1
  unfolding login
  login-IsSpent env o now username password s h =
      by_outage o.add_fails (not (add login_limiter now (s.fails username)).allowed)
    where
      by_outage :
          (b c : Bool)
          → IsSpent id
              (if◌then◌else◌ {A = Result Token × Sessions} b
                (err (biz http_internal_server_error), s)
                (if c
                  then (err (biz login_locked), counted now username s)
                  else login_allowed env jwt o now username password (counted now username s))).1
      by_outage true c = h
      by_outage false true = SameIds-IsSpent id s _ (refl, refl) h
      by_outage false false =
          login_allowed-IsSpent env o now username password _
            (SameIds-IsSpent id s (counted now username s) (refl, refl) h)

  pub logout-IsSpent :
      (o : Outage) (user_id session_id : ℕ) (s : Sessions)
      → IsSpent id s
      → IsSpent id (logout o user_id session_id s).1
  unfolding logout
  logout-IsSpent o user_id session_id s h = by_tests (user_id == 0) o.delete_fails
    where
      by_tests :
          (a b : Bool)
          → IsSpent id
              (if◌then◌else◌ {A = Result (Unit {0}) × Sessions} a
                (err (biz http_unauthorized), s)
                (ok tt, if b then s else set_jti session_id false s)).1
      by_tests true b = h
      by_tests false true = h
      by_tests false false = set_jti-IsSpent id session_id false s (λ _. refl) h
