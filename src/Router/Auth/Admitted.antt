-- ===== src/Router/Auth/Admitted.antt =====
-- Whose requests reach a handler.
use snowgo.Prelude.{
  ℕ, ◌≡◌, refl, sym, ap, subst, ◌∙◌, ◌≢◌, ◌+◌, Bool, true, false, not, List, [], ◌∷◌, Option, none,
  some, String, any, str_eq, if◌then◌else◌, arith,
}
use snowgo.Xerror.{
  Result, Error, ok, err, biz, map_err, http_internal_server_error, http_forbidden, token_expired,
  token_invalid, token_type_error, token_incorrect_format,
}
use snowgo.Extern.{Bytes}
use snowgo.Account.Runtime.{World, M, ◌>>=◌, bind_result, on_error, refuse_if, lift, pure, fail}
use snowgo.Account.User.{get_perms_list_by_id}
use snowgo.Account.Session.{
  GrantType, access, refresh, other, Claims, Jwt, Token, Sessions, generate_tokens, refresh_claims,
  access_claims,
}
use snowgo.Account.Session.Refresh.{ReadsSigned}
use snowgo.Router.Auth.{
  split_header, bearer_token, is_access_token, check_token, jwt_auth, permission_auth, guarded,
}

-- The request of a user with the permission, as the token in its header says.
pub record Admitted {A : Type 0} (jwt : Jwt) (text : Bytes → String) (now : ℕ) (header : Bytes)
    (perm : String) (handler : Claims → M A) (w : World) (a : A) : Type 0 where
  pub claims : Claims
  pub token : Bytes
  pub bearer : bearer_token (split_header header) ≡ some token
  pub signed : jwt.parse_with_claims now (text token) ≡ some claims
  pub for_access : claims.grant_type ≡ access
  pub perms : List String
  pub granted : (get_perms_list_by_id claims.user_id w).0 ≡ ok perms
  pub permitted : any (λ p. str_eq p perm) perms ≡ true
  pub handled : (handler claims (get_perms_list_by_id claims.user_id w).1).0 ≡ ok a

-- A sequence that succeeds is made of two that do.
>>=-eq-ok :
    {A B : Type 0} (m : M A) (k : A → M B) (w : World) {b : B}
    → ((m >>= k) w).0 ≡ ok b
    → (a : A) × ((m w).0 ≡ ok a) × ((k a (m w).1).0 ≡ ok b)
unfolding ◌>>=◌
>>=-eq-ok {A} {B} m k w {b} h = by_result (m w).0 (m w).1 h
  where
    by_result :
        (r : Result A) (v : World)
        → (bind_result r v k).0 ≡ ok b
        → (a : A) × (r ≡ ok a) × ((k a v).0 ≡ ok b)
    by_result (ok a) v h = (a, refl, h)
    by_result (err e) v h = absurd cc

access-granted : (c : Claims) → is_access_token c ≡ true → c.grant_type ≡ access
access-granted c h = by_type c.grant_type h
  where
    by_type :
        (g : GrantType)
        → elim g [ access ↦ true | refresh ↦ false | other g ↦ false ] ≡ true
        → g ≡ access
    by_type access h = refl
    by_type refresh h = absurd cc
    by_type (other g) h = absurd cc

check_token-ok :
    (jwt : Jwt) (now : ℕ) (token : String) {c : Claims}
    → check_token jwt now token ≡ ok c
    → (jwt.parse_with_claims now token ≡ some c) × (c.grant_type ≡ access)
unfolding check_token
check_token-ok jwt now token {c} h = by_claims (jwt.parse_with_claims now token) h
  where
    by_test :
        (d : Claims) (b : Bool)
        → is_access_token d ≡ b
        → (if b then ok d else err (biz token_type_error)) ≡ ok c
        → (some d ≡ some c) × (c.grant_type ≡ access)
    by_test d true q h =
        let e : d ≡ c = cc in (ap some e, subst (λ x. x.grant_type ≡ access) e (access-granted d q))
    by_test d false q h = absurd cc

    by_claims :
        (o : Option Claims)
        → elim o [
          | none ↦ err (biz (if jwt.is_expired now token then token_expired else token_invalid))
          | some c ↦ if is_access_token c then ok c else err (biz token_type_error)
        ]
          ≡ ok c
        → (o ≡ some c) × (c.grant_type ≡ access)
    by_claims none h = absurd cc
    by_claims (some d) h = by_test d (is_access_token d) refl h

jwt_auth-ok :
    (jwt : Jwt) (text : Bytes → String) (now : ℕ) (header : Bytes) {c : Claims}
    → jwt_auth jwt text now header ≡ ok c
    → (token : Bytes) × (bearer_token (split_header header) ≡ some token)
      × (check_token jwt now (text token) ≡ ok c)
unfolding jwt_auth
jwt_auth-ok jwt text now [] h = absurd cc
jwt_auth-ok jwt text now (b ∷ bs) {c} h = by_token (bearer_token (split_header (b ∷ bs))) h
  where
    by_token :
        (o : Option Bytes)
        → elim o as (λ _. Result Claims) [
          | none ↦ err (biz token_incorrect_format)
          | some token ↦ check_token jwt now (text token)
        ]
          ≡ ok c
        → (token : Bytes) × (o ≡ some token) × (check_token jwt now (text token) ≡ ok c)
    by_token none h = absurd cc
    by_token (some token) h = (token, refl, h)

not_refused :
    (b : Bool) (e : Error) (v : World)
    → (refuse_if (not b) e v).0 ≡ ok tt
    → (b ≡ true) × ((refuse_if (not b) e v).1 ≡ v)
unfolding refuse_if pure fail
not_refused true e v h = (refl, refl)
not_refused false e v h = absurd cc

-- What the library signed for a pair of tokens.
issued-signed :
    (jwt : Jwt) (now user_id : ℕ) (username : String) (s : Sessions) (token : Token)
    → (generate_tokens jwt now user_id username s).0 ≡ some token
    → (jwt.signed_string (refresh_claims jwt now user_id username s.next_uuid)
        ≡ some token.refresh_token)
      × (jwt.signed_string (access_claims jwt now user_id username s.next_uuid (s.next_uuid + 1))
          ≡ some token.access_token)
unfolding generate_tokens
issued-signed jwt now user_id username s token h = grind (arith, h)

not_refresh : (g : GrantType) → g ≡ access → g ≢ refresh
not_refresh g h e = cc

permission_auth-ok :
    (perm : String) (user_id : ℕ) (w : World)
    → (permission_auth perm (some user_id) w).0 ≡ ok tt
    → (perms : List String) × ((get_perms_list_by_id user_id w).0 ≡ ok perms)
      × (any (λ p. str_eq p perm) perms ≡ true)
      × ((permission_auth perm (some user_id) w).1 ≡ (get_perms_list_by_id user_id w).1)
unfolding permission_auth ◌>>=◌ on_error
permission_auth-ok perm user_id w h =
    by_result (get_perms_list_by_id user_id w).0 (get_perms_list_by_id user_id w).1 h
  where
    by_result :
        (r : Result (List String)) (v : World)
        → (bind_result
            (map_err (λ _. biz http_internal_server_error) r)
            v
            (λ perms. refuse_if (not (any (λ p. str_eq p perm) perms)) (biz http_forbidden))).0
          ≡ ok tt
        → (perms : List String) × (r ≡ ok perms)
          × (any (λ p. str_eq p perm) perms ≡ true)
          × ((bind_result
                (map_err (λ _. biz http_internal_server_error) r)
                v
                (λ perms. refuse_if (not (any (λ p. str_eq p perm) perms)) (biz http_forbidden))).1
              ≡ v)
    by_result (err e) v h = absurd cc
    by_result (ok perms) v h =
        let (e, k) = not_refused (any (λ p. str_eq p perm) perms) (biz http_forbidden) v h in
        (perms, refl, e, k)

-- A request that succeeds on a guarded route had a bearer token that is signed, not expired and for
-- access, its user had the permission of the route when it was sent, and what it gives is what the
-- handler gave for that user.
pub guarded-Admitted :
    {A : Type 0} (jwt : Jwt) (text : Bytes → String) (now : ℕ) (header : Bytes) (perm : String)
    (handler : Claims → M A) (w : World) {a : A}
    → (guarded jwt text now header perm handler w).0 ≡ ok a
    → Admitted jwt text now header perm handler w a
unfolding guarded lift
guarded-Admitted jwt text now header perm handler w h =
    let (c, auth, rest) = >>=-eq-ok (lift (jwt_auth jwt text now header)) _ w h in
    let (u, may, run) = >>=-eq-ok (permission_auth perm (some c.user_id)) (λ _. handler c) w rest in
    let (token, bearer, checked) = jwt_auth-ok jwt text now header auth in
    let (signed, for_access) = check_token-ok jwt now (text token) checked in
    let (perms, granted, permitted, same) = permission_auth-ok perm c.user_id w may in
    record {
      claims = c;
      token = token;
      bearer = bearer;
      signed = signed;
      for_access = for_access;
      perms = perms;
      granted = granted;
      permitted = permitted;
      handled = ap (λ v. (handler c v).0) (sym same) ∙ run;
    }

-- Of a pair of tokens that were issued together, the refresh token never opens a route, whatever the
-- time and the permission, and whoever the access token lets through JWTAuth is the user to whom the
-- pair was issued. The token library reads a text that it signed as what it signed.
pub generate_tokens-authenticate :
    (jwt : Jwt) (text : Bytes → String) (now user_id later : ℕ) (username : String) (s : Sessions)
    (token : Token) (header sent : Bytes) {c : Claims}
    → ReadsSigned jwt
    → (generate_tokens jwt now user_id username s).0 ≡ some token
    → bearer_token (split_header header) ≡ some sent
    → jwt_auth jwt text later header ≡ ok c
    → (text sent ≢ token.refresh_token)
      × (text sent ≡ token.access_token → (c.user_id ≡ user_id) × (c.username ≡ username))
generate_tokens-authenticate jwt text now user_id later username s token header sent {c} reads made
      bearer h =
    let (token', bearer', checked) = jwt_auth-ok jwt text later header h in
    let (signed, for_access) = check_token-ok jwt later (text token') checked in
    let same : token' ≡ sent = cc in
    let parsed = subst (λ t. jwt.parse_with_claims later (text t) ≡ some c) same signed in
    let (r, a) = issued-signed jwt now user_id username s token made in
    (
      λ e. not_refresh c.grant_type for_access (
          ap (λ x. x.grant_type)
            (reads later (refresh_claims jwt now user_id username s.next_uuid) c token.refresh_token
              r (ap (jwt.parse_with_claims later) (sym e) ∙ parsed))),
      λ e.
          let k =
            reads later (access_claims jwt now user_id username s.next_uuid (s.next_uuid + 1)) c
              token.access_token a (ap (jwt.parse_with_claims later) (sym e) ∙ parsed) in
          (ap (λ x. x.user_id) k, ap (λ x. x.username) k),
    )
