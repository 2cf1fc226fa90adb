-- ===== src/Account/Session/Tests.antt =====
-- A session that is refreshed, and a name whose passwords are guessed.
use snowgo.Prelude.{
  ℕ, ◌≡◌, refl, ap, ◌∙◌, Bool, true, false, ◌&&◌, List, [], ◌∷◌, Option, none, some, String, ◌==◌,
  str_eq, eq_iff, if◌then◌else◌, arith,
}
use snowgo.Xerror.{biz, token_used_error, login_locked, ok, err}
use snowgo.Extern.{Env, Bytes}
use snowgo.Dal.Model.{SysUser}
use snowgo.Dal.Tx.{Db}
use snowgo.Dao.User.{get_user_by_username}
use snowgo.Account.Runtime.{pure, ◌>>=◌, refuse_if, on_error, read_primary}
use snowgo.Account.User.{authenticate}
use snowgo.Xlimiter.{add, incr, expire, live, new_fixed_window_limiter}
use snowgo.Account.Session.{
  GrantType, refresh, Claims, Jwt, Token, Sessions, Outage, generate_tokens, refresh_tokens, renew,
  keep_new, set_jti, use_claims, refresh_token, login, logout, login_allowed, admit, issue,
  save_jti,
}
use snowgo.Account.Session.Refresh.{ReadsSigned}
use snowgo.Account.Session.Once.{now, refreshes, refresh_token-once, logout-revokes}
use snowgo.Account.Session.Attempts.{guesses, IsWrong, guesses-lock}

abbrev old_claims : Claims
old_claims = record {
  grant_type = refresh;
  user_id = 2;
  username = "operator";
  session_id = 1;
  id = 1;
  expires_at = 900;
}

abbrev new_claims : Claims
new_claims = record {
  grant_type = refresh;
  user_id = 2;
  username = "operator";
  session_id = 5;
  id = 5;
  expires_at = 1100;
}

abbrev is_refresh : GrantType → Bool
is_refresh refresh = true
is_refresh _ = false

abbrev is_new : Claims → Bool
is_new c =
    is_refresh c.grant_type
    && c.user_id == 2
    && str_eq c.username "operator"
    && c.session_id == 5
    && c.id == 5
    && c.expires_at == 1100

is_new-new_claims : (c : Claims) → is_new c ≡ true → c ≡ new_claims
is_new-new_claims c h = grind (arith, eq_iff)

abbrev read_text : String → Option Claims
read_text text =
    if str_eq text "old"
    then some old_claims
    else if str_eq text "new"
    then some new_claims
    else none

abbrev read_some : Option String → Option Claims
read_some none = none
read_some (some text) = read_text text

-- It signs the new refresh token as "new" and anything else as "access", and reads "old" and "new".
abbrev jwt : Jwt
jwt = record {
  signed_string = λ c. some (if is_new c then "new" else "access");
  parse_with_claims = λ time text. read_text text;
  is_expired = λ time text. false;
  access_expiration = 100;
  refresh_expiration = 1000;
}

jwt-ReadsSigned : ReadsSigned jwt
jwt-ReadsSigned time c c' text signed read = by_claims (is_new c) refl signed
  where
    by_claims :
        (b : Bool) → is_new c ≡ b → some (if b then "new" else "access") ≡ some text → c' ≡ c
    by_claims true e h = let is = is_new-new_claims c e in let new = ap read_some h ∙ read in cc
    by_claims false e h = let nothing = ap read_some h ∙ read in absurd cc

abbrev not_empty : Bytes → Bool
not_empty [] = false
not_empty (b ∷ bs) = true

abbrev env : Env
env = record {
  hash_password = λ pw. ok "hash";
  check_password = λ hash pw. not_empty pw;
  save_missing_role = λ role rows. ok (role ∷ rows);
  save_missing_menu = λ menu rows. ok (menu ∷ rows);
  save_missing_dict = λ dict rows. ok (dict ∷ rows);
  save_missing_dict_item = λ item rows. ok (item ∷ rows);
}

abbrev no_rows : Db
no_rows = record {
  users = [];
  roles = [];
  menus = [];
  user_roles = [];
  role_menus = [];
  dicts = [];
  dict_items = [];
  operation_logs = [];
  next_user = 1;
  next_role = 1;
  next_menu = 1;
  next_dict = 1;
  next_dict_item = 1;
}

abbrev sessions : Sessions
sessions = record {
  jti = λ i. i == 1;
  fails = λ name. none;
  next_uuid = 5;
  world = record { primary = no_rows; replica = no_rows; cache = λ key. none; faults = [] };
}

abbrev up : Outage
up = record { add_fails = false; set_fails = false; delete_fails = false }

abbrev pair : Token
pair = record { access_token = "access"; refresh_token = "new" }

is_refreshed : (refresh_token jwt up 100 "old" sessions).0 ≡ ok pair
unfolding refresh_token use_claims refresh_tokens generate_tokens renew keep_new set_jti
is_refreshed = refl

abbrev refreshed : Sessions
refreshed = (refresh_token jwt up 100 "old" sessions).1

-- The new token is used before somebody tries the old one again.
refresh_token-once_example :
    (refresh_token jwt up 200 "old" (refresh_token jwt up 150 "new" refreshed).1).0
    ≡ err (biz token_used_error)
refresh_token-once_example =
    refresh_token-once env jwt up up 100 200 "old" old_claims sessions
      (refresh_token jwt up 150 "new" refreshed).1 jwt-ReadsSigned (omega arith) refl is_refreshed
      (refreshes up 150 "new" now) refl

logout-revokes_example :
    (refresh_token jwt up 200 "old" (logout up 2 1 sessions).1).0 ≡ err (biz token_used_error)
logout-revokes_example =
    logout-revokes env jwt up up 2 200 "old" old_claims sessions (logout up 2 1 sessions).1
      jwt-ReadsSigned (omega arith) refl refl now refl

abbrev four : List (ℕ × Bytes)
four = (11, []) ∷ (12, []) ∷ (13, []) ∷ (14, []) ∷ []

abbrev account : SysUser
account = record {
  id = 2;
  username = "operator";
  tel = "";
  nickname = none;
  password = "hash";
  email = none;
  remark = none;
  status = none;
  created_by = none;
  updated_by = none;
}

abbrev with_account : Sessions
with_account = record sessions {
  world = record {
    primary = record no_rows { users = account ∷ [] };
    replica = no_rows;
    cache = λ key. none;
    faults = [];
  };
}

empty-IsWrong : IsWrong env "operator" with_account.world.primary.users []
empty-IsWrong user h = refl

-- The right password comes too late.
guesses-lock_example :
    (login env jwt up 150 "operator"
      (b'x' ∷ [])
      (guesses env jwt up "operator" ((10, []) ∷ four) with_account)).0
    ≡ err (biz login_locked)
guesses-lock_example =
    guesses-lock env jwt up "operator" (10, []) four 150 (b'x' ∷ []) with_account refl refl
      empty-IsWrong
      (
        (omega arith, empty-IsWrong),
        (
          (omega arith, empty-IsWrong),
          ((omega arith, empty-IsWrong), ((omega arith, empty-IsWrong), tt)),
        ),
      )
      (omega arith) (omega arith)

-- In time it is let in.
is_let_in : (login env jwt up 100 "operator" (b'x' ∷ []) with_account).0 ≡ ok pair
unfolding login login_allowed admit issue save_jti set_jti generate_tokens authenticate ◌>>=◌ pure
    refuse_if on_error read_primary get_user_by_username add incr expire live
    new_fixed_window_limiter
is_let_in = refl
