-- ===== src/Account/User/Login.antt =====
-- Who Authenticate lets in, and what a refusal tells.
use snowgo.Prelude.{
  ◌≡◌, true, false, some, List, [], String, str_eq, find?, arith, inl, inr, Option-cases,
}
use snowgo.Xerror.{Error, biz, auth_error, is_record_not_found, ok, err}
use snowgo.Extern.{Env, Bytes}
use snowgo.Dal.Model.{SysUser}
use snowgo.Dao.User.{get_user_by_username}
use snowgo.Account.Types.{UserInfo}
use snowgo.Account.Runtime.{World, pure, fail, ◌>>=◌, on_error, refuse_if, read_primary}
use snowgo.Account.User.{authenticate, is_disabled, user_info}

-- The account is on the write node, the password fits its hash, and it is not disabled.
pub record LetIn (env : Env) (username : String) (password : Bytes) (users : List SysUser)
    (info : UserInfo) : Type 0 where
  pub user : SysUser
  pub found : find? (λ u. str_eq u.username username) users ≡ some user
  pub right_password : env.check_password user.password password ≡ true
  pub enabled : is_disabled user.status ≡ false
  pub result : info ≡ user_info user

-- Whoever is let in named an account of the write node, gave a password that fits its hash, and the
-- account is not disabled. The result describes that account.
pub authenticate-LetIn :
    (env : Env) (username : String) (password : Bytes) (w : World) {info : UserInfo}
    → (authenticate env username password w).0 ≡ ok info
    → LetIn env username password w.primary.users info
unfolding authenticate ◌>>=◌ pure refuse_if on_error read_primary get_user_by_username
authenticate-LetIn env username password w {info} h =
    elim (Option-cases (find? (λ u. str_eq u.username username) w.primary.users)) [
      | inl e ↦ absurd (ground arith)
      | inr (user, e) ↦ record {
        user = user;
        found = e;
        right_password = ground arith;
        enabled = ground arith;
        result = ground arith;
      }
    ]

-- When no fault interferes and the name is not empty, whoever names an account of the write node
-- that is not disabled, with a password that fits its hash, is let in with the data of that account.
pub LetIn-authenticate :
    (env : Env) (username : String) (password : Bytes) (w : World) {info : UserInfo}
    → w.faults ≡ []
    → str_eq username "" ≡ false
    → LetIn env username password w.primary.users info
    → (authenticate env username password w).0 ≡ ok info
unfolding authenticate ◌>>=◌ pure refuse_if on_error read_primary get_user_by_username
LetIn-authenticate env username password w f n l =
    let found = l.found in
    let right_password = l.right_password in
    let enabled = l.enabled in let result = l.result in ground arith

-- Without faults, a login with a name that is not empty is refused with the same error whatever the
-- reason: no such account, another password, a disabled account.
pub authenticate-hides_reason :
    (env : Env) (username : String) (password : Bytes) (w : World) {e : Error}
    → w.faults ≡ []
    → str_eq username "" ≡ false
    → (authenticate env username password w).0 ≡ err e
    → e ≡ biz auth_error
unfolding authenticate ◌>>=◌ pure fail refuse_if on_error read_primary get_user_by_username
    is_record_not_found
authenticate-hides_reason env username password w f n h = ground arith
