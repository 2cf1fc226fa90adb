-- ===== src/Router/Auth.antt =====
-- internal/router/middleware/auth.go: JWTAuth and PermissionAuth, before a handler. A refusal is the
-- error whose message it shows. A header is its bytes, and `text` is the Go string of bytes.
pub mod Admitted
mod Tests
use snowgo.Prelude.{
  ℕ, ◌+◌, Bool, true, false, not, ◌&&◌, ◌||◌, List, [], ◌∷◌, map, Option, none, some, String, ◌==◌,
  leb, any, str_eq, if◌then◌else◌,
}
use snowgo.Xerror.{
  Error, Result, ok, err, biz, token_not_found, token_incorrect_format, token_expired,
  token_invalid, token_type_error, http_unauthorized, http_internal_server_error, http_forbidden,
}
use snowgo.Extern.{Bytes}
use snowgo.Account.Runtime.{M, fail, ◌>>=◌, ◌>>◌, on_error, refuse_if, lift}
use snowgo.Account.User.{get_perms_list_by_id}
use snowgo.Account.Session.{GrantType, access, refresh, other, Claims, Jwt}

-- strings.SplitN(authHeader, " ", 2), where it gives two parts.
abbrev pub split_header : Bytes → Option (Bytes × Bytes)
split_header [] = none
split_header (b ∷ bs) =
    let rest = split_header bs in
    if b == b' '
    then some ([], bs)
    else elim rest [ none ↦ none | some (scheme, token) ↦ some (b ∷ scheme, token) ]

-- One letter under strings.EqualFold: no letter of "bearer" has a fold outside of ASCII.
abbrev pub fold : ℕ → ℕ
fold b = if leb b'A' b && leb b b'Z' then b + 32 else b

abbrev pub bytes_eq : Bytes → Bytes → Bool
bytes_eq [] [] = true
bytes_eq (a ∷ xs) (b ∷ ys) = (a == b) && bytes_eq xs ys
bytes_eq _ _ = false

abbrev pub is_bearer : Bytes → Bool
is_bearer scheme = bytes_eq (map fold scheme) (b'b' ∷ b'e' ∷ b'a' ∷ b'r' ∷ b'e' ∷ b'r' ∷ [])

abbrev pub is_access_token : Claims → Bool
is_access_token c = elim c.grant_type [ access ↦ true | refresh ↦ false | other g ↦ false ]

-- ParseToken and ValidAccessToken, with what JWTAuth makes of their errors.
unfoldable pub check_token : Jwt → ℕ → String → Result Claims
check_token jwt now token = elim (jwt.parse_with_claims now token) [
  | none ↦ err (biz (if jwt.is_expired now token then token_expired else token_invalid))
  | some c ↦ if is_access_token c then ok c else err (biz token_type_error)
]

-- The token of a header, if its scheme is the right one.
abbrev pub bearer_token : Option (Bytes × Bytes) → Option Bytes
bearer_token none = none
bearer_token (some (scheme, token)) = if is_bearer scheme then some token else none

unfoldable pub jwt_auth : Jwt → (Bytes → String) → ℕ → Bytes → Result Claims
jwt_auth jwt text now [] = err (biz token_not_found)
jwt_auth jwt text now (b ∷ bs) = elim (bearer_token (split_header (b ∷ bs))) [
  | none ↦ err (biz token_incorrect_format)
  | some token ↦ check_token jwt now (text token)
]

-- The user id is what JWTAuth has left in the request's context.
unfoldable pub permission_auth : String → Option ℕ → M (Unit {0})
permission_auth required_perm none = fail (biz http_unauthorized)
permission_auth required_perm (some user_id) = do
  perms ← on_error (get_perms_list_by_id user_id) (λ _. biz http_internal_server_error)
  refuse_if (not (any (λ p. str_eq p required_perm) perms)) (biz http_forbidden)

-- A route: both of them, and then the handler.
unfoldable pub guarded :
    {A : Type 0} → Jwt → (Bytes → String) → ℕ → Bytes → String → (Claims → M A) → M A
guarded jwt text now header required_perm handler = do
  c ← lift (jwt_auth jwt text now header)
  permission_auth required_perm (some c.user_id)
  handler c
