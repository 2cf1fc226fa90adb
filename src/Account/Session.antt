-- ===== src/Account/Session.antt =====
-- internal/api/admin/account/auth.go: Login, RefreshToken and Logout; pkg/xauth/jwt/jwt.go: the
-- tokens. Requests are bound already; login logs and rendered answers are left out. A uuid is a
-- number that was not drawn before; the cache holds which refresh ids may still be used.
pub mod Refresh
pub mod Spent
pub mod Once
pub mod Attempts
mod Tests
use snowgo.Prelude.{
  ℕ, ◌+◌, Bool, true, false, not, ◌||◌, Option, none, some, String, ◌==◌, str_eq, if◌then◌else◌,
}
use snowgo.Xerror.{
  Error, Code, biz, plain, wrapped, auth_error, login_locked, token_used_error,
  http_internal_server_error, http_unauthorized, token_error, token_expired, token_invalid, Result,
  ok, err,
}
use snowgo.Extern.{Env, Bytes}
use snowgo.Account.Types.{UserContext, UserInfo}
use snowgo.Account.Runtime.{World}
use snowgo.Account.User.{authenticate}
use snowgo.Xlimiter.{FixedWindowLimiter, new_fixed_window_limiter, Counter, Added, add, reset}

pub data GrantType : Type 0 where
  access refresh : GrantType
  other : String → GrantType

pub record Claims : Type 0 where
  pub grant_type : GrantType
  pub user_id : ℕ
  pub username : String
  pub session_id : ℕ
  pub id : ℕ
  pub expires_at : ℕ

pub data ParseError : Type 0 where
  expired invalid : ParseError

-- golang-jwt with the secret and the issuer of the manager: a signed text, or none when signing
-- fails, and what a text is read as at a time. And the life of a token in seconds.
pub record Jwt : Type 0 where
  pub signed_string : Claims → Option String
  pub parse_with_claims : ℕ → String → Option Claims
  pub is_expired : ℕ → String → Bool
  pub access_expiration : ℕ
  pub refresh_expiration : ℕ

pub record Token : Type 0 where
  pub access_token : String
  pub refresh_token : String

-- The ids in the cache under CacheRefreshJtiPrefix, the counters under CacheLoginFailPrefix, and
-- the next uuid.
pub record Sessions : Type 0 where
  pub jti : ℕ → Bool
  pub fails : String → Option Counter
  pub next_uuid : ℕ
  pub world : World

-- Which calls of the cache fail during a request.
pub record Outage : Type 0 where
  pub add_fails : Bool
  pub set_fails : Bool
  pub delete_fails : Bool

unfoldable pub set_jti : ℕ → Bool → Sessions → Sessions
set_jti id b s = record s { jti = λ i. if i == id then b else s.jti i }

abbrev pub refresh_claims : Jwt → ℕ → ℕ → String → ℕ → Claims
refresh_claims jwt now user_id username jti = record {
  grant_type = refresh;
  user_id = user_id;
  username = username;
  session_id = jti;
  id = jti;
  expires_at = now + jwt.refresh_expiration;
}

abbrev pub access_claims : Jwt → ℕ → ℕ → String → ℕ → ℕ → Claims
access_claims jwt now user_id username refresh_jti id = record {
  grant_type = access;
  user_id = user_id;
  username = username;
  session_id = refresh_jti;
  id = id;
  expires_at = now + jwt.access_expiration;
}

-- GenerateTokens: the refresh token draws the first uuid, the access token the second.
unfoldable pub generate_tokens : Jwt → ℕ → ℕ → String → Sessions → Option Token × Sessions
generate_tokens jwt now user_id username s =
    elim (jwt.signed_string (refresh_claims jwt now user_id username s.next_uuid)) [
      | none ↦ (none, record s { next_uuid = s.next_uuid + 1 })
      | some r ↦
          elim (jwt.signed_string
            (access_claims jwt now user_id username s.next_uuid (s.next_uuid + 1))) [
              | none ↦ (none, record s { next_uuid = s.next_uuid + 2 })
              | some a ↦ (
                some (record { access_token = a; refresh_token = r }),
                record s { next_uuid = s.next_uuid + 2 },
              )
            ]
    ]

abbrev pub is_refresh_token : Claims → Bool
is_refresh_token c = elim c.grant_type [ access ↦ false | refresh ↦ true | other g ↦ false ]

unfoldable pub refresh_tokens : Jwt → ℕ → String → Sessions → Option Token × Sessions
refresh_tokens jwt now refresh_token s = elim (jwt.parse_with_claims now refresh_token) [
  | none ↦ (none, s)
  | some c ↦
      if is_refresh_token c then generate_tokens jwt now c.user_id c.username s else (none, s)
]

-- The id of the new refresh token is kept, where the token parses.
unfoldable pub save_jti : Jwt → ℕ → Bool → Token → Sessions → Sessions
save_jti jwt now set_fails token s = elim (jwt.parse_with_claims now token.refresh_token) [
  | none ↦ s
  | some c ↦ if set_fails then s else set_jti c.id true s
]

-- The end of RefreshToken: the id of the new refresh token is kept, or the request fails.
unfoldable pub keep_new : Outage → Token → Option Claims → Sessions → Result Token × Sessions
keep_new o token none s = (ok token, s)
keep_new o token (some c) s =
    if o.set_fails
    then (err (biz http_internal_server_error), s)
    else (ok token, set_jti c.id true s)

unfoldable pub renew : Jwt → Outage → ℕ → Option Token → Sessions → Result Token × Sessions
renew jwt o now none s = (err (biz http_internal_server_error), s)
renew jwt o now (some token) s = keep_new o token (jwt.parse_with_claims now token.refresh_token) s

-- The id of a token that was read, used up before new tokens are made: a Delete that fails or finds
-- nothing refuses the request.
unfoldable pub use_claims : Jwt → Outage → ℕ → String → Claims → Sessions → Result Token × Sessions
use_claims jwt o now text c s =
    let r = refresh_tokens jwt now text (set_jti c.id false s) in
    let renewed = renew jwt o now r.0 r.1 in
    if o.delete_fails || not (s.jti c.id) then (err (biz token_used_error), s) else renewed

unfoldable pub refresh_token : Jwt → Outage → ℕ → String → Sessions → Result Token × Sessions
refresh_token jwt o now text s = elim (jwt.parse_with_claims now text) [
  | none ↦ (err (biz (if jwt.is_expired now text then token_expired else token_invalid)), s)
  | some c ↦ use_claims jwt o now text c s
]

-- errors.As(err, &bizErr)
unfoldable pub as_biz : Error → Code
as_biz (biz c) = c
as_biz (wrapped msg e) = as_biz e
as_biz _ = auth_error

abbrev pub login_limiter : FixedWindowLimiter
login_limiter = new_fixed_window_limiter 180 5

abbrev pub set_fails_of : String → Option Counter → Sessions → Sessions
set_fails_of username c s = record s { fails = λ n. if str_eq n username then c else s.fails n }

-- The end of Login, for a user who is let in.
unfoldable pub issue : Jwt → Outage → ℕ → Option Token → Sessions → Result Token × Sessions
issue jwt o now none s = (err (biz token_error), s)
issue jwt o now (some token) s = (ok token, save_jti jwt now o.set_fails token s)

unfoldable pub admit : Jwt → Outage → ℕ → String → UserInfo → Sessions → Result Token × Sessions
admit jwt o now username user s =
    let s' = if o.delete_fails then s else set_fails_of username (reset (s.fails username)) s in
    let r = generate_tokens jwt now user.id user.username s' in issue jwt o now r.0 r.1

-- After the limiter has let the attempt pass.
unfoldable pub login_allowed :
    Env → Jwt → Outage → ℕ → String → Bytes → Sessions → Result Token × Sessions
login_allowed env jwt o now username password s =
    let a = authenticate env username password s.world in
    let s' = record s { world = a.1 } in
    elim a.0 [ err e ↦ (err (biz (as_biz e)), s') | ok user ↦ admit jwt o now username user s' ]

unfoldable pub login : Env → Jwt → Outage → ℕ → String → Bytes → Sessions → Result Token × Sessions
login env jwt o now username password s =
    if o.add_fails
    then (err (biz http_internal_server_error), s)
    else let r = add login_limiter now (s.fails username) in
      let s' = set_fails_of username (some r.counter) s in
      let allowed = login_allowed env jwt o now username password s' in
      if not r.allowed then (err (biz login_locked), s') else allowed

-- Logout, by the session id of the access token; a user id of 0 is no user.
unfoldable pub logout : Outage → ℕ → ℕ → Sessions → Result (Unit {0}) × Sessions
logout o user_id session_id s =
    if user_id == 0
    then (err (biz http_unauthorized), s)
    else (ok tt, if o.delete_fails then s else set_jti session_id false s)
