-- ===== src/Router/Auth/Tests.antt =====
-- A user with one permission, their tokens, and the theorems at work.
use snowgo.Prelude.{
  ℕ, ◌≡◌, ◌≢◌, ◌&&◌, ◌∙◌, ap, eq_iff, arith, ◌==◌, refl, true, false, Bool, [], ◌∷◌, Option, none,
  some, String, str_eq, if◌then◌else◌,
}
use snowgo.Xerror.{ok, err, biz, http_forbidden}
use snowgo.Extern.{Bytes}
use snowgo.Dal.Model.{btn}
use snowgo.Dal.Tx.{Db}
use snowgo.Dao.Role as RoleDao
use snowgo.Dao.User as UserDao
use snowgo.Account.Runtime.{
  World, M, pure, fail, ◌>>=◌, on_error, refuse_if, read, lift, cache_get, cache_set,
}
use snowgo.Account.Role
use snowgo.Account.User
use snowgo.Account.Session.{access, Claims, Jwt, Token, Sessions, generate_tokens}
use snowgo.Account.Session.Refresh.{ReadsSigned}
use snowgo.Router.Auth.{is_access_token, check_token, jwt_auth, permission_auth, guarded}
use snowgo.Router.Auth.Admitted.{Admitted, guarded-Admitted, generate_tokens-authenticate}

abbrev tables : Db
tables = record {
  users = [];
  roles = [];
  menus =
      record {
        id = 3;
        parent_id = 0;
        menu_type = btn;
        name = "logs";
        path = none;
        icon = none;
        perms = some "log:list";
        sort_order = 0;
      }
      ∷ [];
  user_roles = record { user_id = 7; role_id = 2 } ∷ [];
  role_menus = record { role_id = 2; menu_id = 3 } ∷ [];
  dicts = [];
  dict_items = [];
  operation_logs = [];
  next_user = 8;
  next_role = 3;
  next_menu = 4;
  next_dict = 1;
  next_dict_item = 1;
}

abbrev world : World
world = record { primary = tables; replica = tables; cache = λ key. none; faults = [] }

abbrev claims : Claims
claims = record {
  grant_type = access;
  user_id = 7;
  username = "operator";
  session_id = 1;
  id = 2;
  expires_at = 100;
}

abbrev is_claims : Claims → Bool
is_claims c =
    is_access_token c
    && (c.user_id == 7)
    && str_eq c.username "operator"
    && (c.session_id == 1)
    && (c.id == 2)
    && (c.expires_at == 100)

is_claims-claims : (c : Claims) → is_claims c ≡ true → c ≡ claims
is_claims-claims c h = grind (arith, eq_iff)

abbrev read_text : String → Option Claims
read_text text = if str_eq text "A" then some claims else none

abbrev read_some : Option String → Option Claims
read_some none = none
read_some (some text) = read_text text

-- It signs these claims as "A" and anything else as "R", and reads "A".
abbrev jwt : Jwt
jwt = record {
  signed_string = λ c. some (if is_claims c then "A" else "R");
  parse_with_claims = λ now text. read_text text;
  is_expired = λ now text. false;
  access_expiration = 100;
  refresh_expiration = 1000;
}

abbrev as_text : Bytes → String
as_text [] = ""
as_text (b ∷ bs) = if b == b'A' then "A" else "R"

-- bEARER A
abbrev header : Bytes
header = b'b' ∷ b'E' ∷ b'A' ∷ b'R' ∷ b'E' ∷ b'R' ∷ b' ' ∷ b'A' ∷ []

abbrev whoami : Claims → M ℕ
whoami c = pure c.user_id

succeeds : (guarded jwt as_text 50 header "log:list" whoami world).0 ≡ ok 7
unfolding guarded jwt_auth check_token permission_auth lift ◌>>=◌ pure fail on_error refuse_if read
    cache_get cache_set User.get_perms_list_by_id User.merge_perms User.get_role_ids_by_user_id
    User.load_role_ids Role.get_role_perms_list_by_rule_id Role.get_role_menu_list_by_rule_id
    Role.load_role_menus RoleDao.get_menu_list_by_role_id UserDao.get_role_ids_by_user_id
succeeds = refl

is_forbidden :
    (guarded jwt as_text 50 header "log:delete" whoami world).0 ≡ err (biz http_forbidden)
unfolding guarded jwt_auth check_token permission_auth lift ◌>>=◌ pure fail on_error refuse_if read
    cache_get cache_set User.get_perms_list_by_id User.merge_perms User.get_role_ids_by_user_id
    User.load_role_ids Role.get_role_perms_list_by_rule_id Role.get_role_menu_list_by_rule_id
    Role.load_role_menus RoleDao.get_menu_list_by_role_id UserDao.get_role_ids_by_user_id
is_forbidden = refl

guarded-Admitted_example : Admitted jwt as_text 50 header "log:list" whoami world 7
guarded-Admitted_example = guarded-Admitted jwt as_text 50 header "log:list" whoami world succeeds

jwt-ReadsSigned : ReadsSigned jwt
jwt-ReadsSigned time c c' text signed read = by_claims (is_claims c) refl signed
  where
    by_claims : (b : Bool) → is_claims c ≡ b → some (if b then "A" else "R") ≡ some text → c' ≡ c
    by_claims true e h = let is = is_claims-claims c e in let new = ap read_some h ∙ read in cc
    by_claims false e h = let nothing = ap read_some h ∙ read in absurd cc

abbrev sessions : Sessions
sessions = record { jti = λ id. false; fails = λ name. none; next_uuid = 1; world = world }

abbrev pair : Token
pair = record { access_token = "A"; refresh_token = "R" }

issues : (generate_tokens jwt 0 7 "operator" sessions).0 ≡ some pair
unfolding generate_tokens
issues = refl

lets_in : jwt_auth jwt as_text 50 header ≡ ok claims
unfolding jwt_auth check_token
lets_in = refl

generate_tokens-authenticate_example :
    ("A" ≢ pair.refresh_token)
    × ("A" ≡ pair.access_token → (claims.user_id ≡ 7) × (claims.username ≡ "operator"))
generate_tokens-authenticate_example =
    generate_tokens-authenticate jwt as_text 0 7 50 "operator" sessions pair header (b'A' ∷ [])
      jwt-ReadsSigned issues refl lets_in
