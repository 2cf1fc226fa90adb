-- ===== src/Account/Context.antt =====
-- pkg/xauth/auth.go: GetUserContext. Also what the services share: common.DerefOrZero of
-- pkg/common.go, and the reading of a missing row.
use snowgo.Prelude.{Option, none, some, String, ◌==◌, if◌then◌else◌}
use snowgo.Xerror.{Error, biz, wrapped, http_forbidden, is_record_not_found}
use snowgo.Account.Types.{UserContext}
use snowgo.Account.Runtime.{M, pure, fail, refuse_if, ◌>>◌}

-- GetUserContext: the session's user, by the positive user id that the request carries.
unfoldable pub get_user_context : Option UserContext → M UserContext
get_user_context none = fail (biz http_forbidden)
get_user_context (some u) = do refuse_if (u.user_id == 0) (biz http_forbidden); pure u

-- `if errors.Is(err, gorm.ErrRecordNotFound)`
abbrev pub not_found_as : Error → String → Error → Error
not_found_as found msg e = if is_record_not_found e then found else wrapped msg e

-- common.DerefOrZero on a string.
abbrev pub deref_or_zero : Option String → String
deref_or_zero none = ""
deref_or_zero (some s) = s
