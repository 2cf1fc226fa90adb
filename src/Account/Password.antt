-- ===== src/Account/Password.antt =====
-- internal/service/admin/account/user.go: validatePassword, over the bytes of a Go string. Past the
-- test of allowedPasswordChars every rune is one byte, so the loop over runes runs over them.
pub mod Rules
use snowgo.Prelude.{
  ℕ, ◌+◌, Bool, true, false, not, ◌&&◌, ◌||◌, List, [], ◌∷◌, Option, none, some, ltb, leb, ◌==◌,
  if◌then◌else◌, length, all, contains,
}
use snowgo.Xerror.{Code, pwd_complexity_error, pwd_length_error, pwd_invalid_char_error}
use snowgo.Extern.{Bytes}

-- unicode.IsLetter and unicode.IsDigit on the bytes below 128.
abbrev pub is_letter : ℕ → Bool
is_letter r = leb b'A' r && leb r b'Z' || leb b'a' r && leb r b'z'

abbrev pub is_digit : ℕ → Bool
is_digit r = leb b'0' r && leb r b'9'

-- symbolChars: .!@#$%^&*?_~-
abbrev pub symbol_chars : Bytes
symbol_chars =
    b'.' ∷ b'!' ∷ b'@' ∷ b'#' ∷ b'$' ∷ b'%' ∷ b'^' ∷ b'&' ∷ b'*' ∷ b'?' ∷ b'_' ∷ b'~' ∷ b'-' ∷ []

abbrev pub is_symbol : ℕ → Bool
is_symbol r = contains symbol_chars r

-- allowedPasswordChars: ^[A-Za-z0-9.!@#$%^&*?_~-]+$
abbrev pub is_allowed : ℕ → Bool
is_allowed r = is_letter r || is_digit r || is_symbol r

pub record Seen : Type 0 where
  pub has_letter : Bool
  pub has_digit : Bool
  pub has_symbol : Bool
  pub type_count : ℕ

-- One round of the loop.
unfoldable pub see : Seen → ℕ → Seen
see s r =
    if not s.has_letter && is_letter r
    then record s { has_letter = true; type_count = s.type_count + 1 }
    else if not s.has_digit && is_digit r
    then record s { has_digit = true; type_count = s.type_count + 1 }
    else if not s.has_symbol && is_symbol r
    then record s { has_symbol = true; type_count = s.type_count + 1 }
    else s

-- The loop, left by `break` once two kinds were seen.
unfoldable pub count_types : Seen → Bytes → ℕ
count_types s [] = s.type_count
count_types s (r ∷ rs) =
    let t = see s r in
    let rest = count_types t rs in if leb 2 t.type_count then t.type_count else rest

abbrev pub nothing_seen : Seen
nothing_seen = record { has_letter = false; has_digit = false; has_symbol = false; type_count = 0 }

-- The business error, or none for a password that is accepted.
unfoldable pub validate_password : Bytes → Option Code
validate_password pw =
    if length pw == 0
    then some pwd_complexity_error
    else if ltb (length pw) 6 || ltb 32 (length pw)
    then some pwd_length_error
    else if not (all is_allowed pw)
    then some pwd_invalid_char_error
    else if ltb (count_types nothing_seen pw) 2
    then some pwd_complexity_error
    else none
