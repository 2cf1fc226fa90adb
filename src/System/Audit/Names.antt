-- ===== src/System/Audit/Names.antt =====
-- The names of credentials, without the code's normalization: how they are usually spelled, and which
-- letters they have.
use snowgo.Prelude.{
  ℕ, ◌+◌, ◌-◌, ◌≡◌, refl, ap, sym, ◌∙◌, Bool, true, false, ◌&&◌, ◌||◌, List, [], ◌∷◌, ◌++◌, map,
  reverse, reverse-cons, reverse-reverse, append-nil, Option, none, some, any, all, leb, ◌==◌,
  ==_iff, if◌then◌else◌, arith,
}
use mathlib.Core.List.{append_assoc}
use snowgo.System.Audit.{
  Runes, is_upper, is_lower, write_rune, write_runes, trim_left, normalize_audit_field, runes_eq,
  audit_drop_fields, should_drop_audit_field,
}

abbrev pass : Runes
pass = b'p' ∷ b'a' ∷ b's' ∷ b's' ∷ []

abbrev password : Runes
password = pass ++ (b'w' ∷ b'o' ∷ b'r' ∷ b'd' ∷ [])

abbrev pwd : Runes
pwd = b'p' ∷ b'w' ∷ b'd' ∷ []

abbrev token : Runes
token = b't' ∷ b'o' ∷ b'k' ∷ b'e' ∷ b'n' ∷ []

abbrev access : Runes
access = b'a' ∷ b'c' ∷ b'c' ∷ b'e' ∷ b's' ∷ b's' ∷ []

abbrev refresh : Runes
refresh = b'r' ∷ b'e' ∷ b'f' ∷ b'r' ∷ b'e' ∷ b's' ∷ b'h' ∷ []

abbrev secret : Runes
secret = b's' ∷ b'e' ∷ b'c' ∷ b'r' ∷ b'e' ∷ b't' ∷ []

abbrev jwt : Runes
jwt = b'j' ∷ b'w' ∷ b't' ∷ []

abbrev to_upper : ℕ → ℕ
to_upper r = r - 32

abbrev capital : Runes → Runes
capital [] = []
capital (r ∷ rs) = to_upper r ∷ rs

abbrev upper : Runes → Runes
upper = map to_upper

-- token, Token, TOKEN
abbrev cases : Runes → List Runes
cases w = w ∷ capital w ∷ upper w ∷ []

abbrev joined : Runes → List Runes → List Runes
joined u [] = []
joined u (v ∷ vs) = (u ++ v) ∷ joined u vs

-- access_token, access-token, access token
abbrev separated : List Runes → List Runes → List Runes
separated [] vs = []
separated (u ∷ us) vs =
    joined (u ++ (b'_' ∷ [])) vs
    ++ (joined (u ++ (b'-' ∷ [])) vs ++ (joined (u ++ (b' ' ∷ [])) vs ++ separated us vs))

-- accessToken, AccessToken, ACCESSToken, accessTOKEN, AccessTOKEN
abbrev camel : Runes → Runes → List Runes
camel u v =
    (u ++ capital v)
    ∷ (capital u ++ capital v)
    ∷ (upper u ++ capital v)
    ∷ (u ++ upper v)
    ∷ (capital u ++ upper v)
    ∷ []

abbrev two_words : Runes → Runes → List Runes
two_words u v = separated (cases u) (cases v) ++ camel u v

abbrev spellings : List Runes
spellings =
    cases password
    ++ (cases pass
        ++ (cases pwd
            ++ (cases token
                ++ (cases secret
                    ++ (two_words access token
                        ++ (two_words refresh token ++ two_words jwt secret))))))

-- A usual spelling of a credential's name.
pub is_spelling : Runes → Bool
is_spelling key = any (runes_eq key) spellings

spellings_are_dropped : all should_drop_audit_field spellings ≡ true
unfolding should_drop_audit_field normalize_audit_field write_rune is_upper is_lower
spellings_are_dropped = refl

runes_eq_sound : (a b : Runes) → runes_eq a b ≡ true → a ≡ b
runes_eq_sound [] [] h = refl
runes_eq_sound [] (b ∷ bs) h = absurd cc
runes_eq_sound (a ∷ xs) [] h = absurd cc
runes_eq_sound (a ∷ xs) (b ∷ ys) h = grind (arith, h, runes_eq_sound xs ys, ==_iff a b)

any_of_all :
    (p : Runes → Bool) (key : Runes) (xs : List Runes)
    → all p xs ≡ true
    → any (runes_eq key) xs ≡ true
    → p key ≡ true
any_of_all p key [] a h = absurd cc
any_of_all p key (x ∷ xs) a h = grind (arith, a, h, any_of_all p key xs, runes_eq_sound key x)

pub is_spelling-dropped :
    (key : Runes) → is_spelling key ≡ true → should_drop_audit_field key ≡ true
unfolding is_spelling
is_spelling-dropped key h = any_of_all should_drop_audit_field key spellings spellings_are_dropped h

abbrev is_gap : ℕ → Bool
is_gap r = (r == b'_') || (r == b'-') || (r == b' ')

abbrev lower_case : ℕ → ℕ
lower_case r = if leb 65 r && leb r 90 then r + 32 else r

-- What is left of a name without separators and without the difference of upper and lower case.
abbrev letters : Runes → Runes
letters [] = []
letters (r ∷ rs) = let rest = letters rs in if is_gap r then rest else lower_case r ∷ rest

abbrev credentials : List Runes
credentials =
    password
    ∷ pass
    ∷ pwd
    ∷ token
    ∷ (access ++ token)
    ∷ (refresh ++ token)
    ∷ secret
    ∷ (jwt ++ secret)
    ∷ []

unfoldable pub has_credential_letters : Runes → Bool
has_credential_letters key = any (runes_eq (letters key)) credentials

letters-append : (a b : Runes) → letters (a ++ b) ≡ letters a ++ letters b
letters-append [] b = refl
letters-append (r ∷ a) b = grind (arith, letters-append a b)

letters-reverse : (a : Runes) → letters (reverse a) ≡ reverse (letters a)
letters-reverse [] = refl
letters-reverse (r ∷ a) =
    ap letters (reverse-cons r a)
    ∙ letters-append (reverse a) (r ∷ [])
    ∙ ap (λ x. x ++ letters (r ∷ [])) (letters-reverse a)
    ∙ last (is_gap r)
  where
    last :
        (b : Bool)
        → reverse (letters a) ++ (if b then [] else lower_case r ∷ [])
          ≡ reverse (if b then letters a else lower_case r ∷ letters a)
    last true = append-nil (reverse (letters a))
    last false = sym (reverse-cons (lower_case r) (letters a))

letters-trim_left : (a : Runes) → letters (trim_left a) ≡ letters a
letters-trim_left [] = refl
letters-trim_left (r ∷ a) = grind (arith, letters-trim_left a)

letters-write_rune :
    (prev : Option ℕ) (r : ℕ) (rest b : Runes)
    → letters (write_rune prev r rest b)
      ≡ (if is_gap r then letters b else lower_case r ∷ letters b)
unfolding write_rune is_upper
letters-write_rune prev r rest b = ground arith

letters-write_runes :
    (prev : Option ℕ) (key b : Runes)
    → letters (write_runes prev key b) ≡ reverse (letters key) ++ letters b
letters-write_runes prev [] b = refl
letters-write_runes prev (r ∷ rest) b =
    letters-write_runes (some r) rest (write_rune prev r rest b)
    ∙ ap (λ x. reverse (letters rest) ++ x) (letters-write_rune prev r rest b)
    ∙ by_gap (is_gap r)
  where
    by_gap :
        (g : Bool)
        → reverse (letters rest) ++ (if g then letters b else lower_case r ∷ letters b)
          ≡ reverse (if g then letters rest else lower_case r ∷ letters rest) ++ letters b
    by_gap true = refl
    by_gap false =
        sym (append_assoc (reverse (letters rest)) (lower_case r ∷ []) (letters b))
        ∙ ap (λ x. x ++ letters b) (sym (reverse-cons (lower_case r) (letters rest)))

letters-normalize : (key : Runes) → letters (normalize_audit_field key) ≡ letters key
unfolding normalize_audit_field
letters-normalize key =
    let w = write_runes none key [] in
    letters-trim_left (reverse (trim_left w))
    ∙ letters-reverse (trim_left w)
    ∙ ap reverse
        (letters-trim_left w ∙ letters-write_runes none key [] ∙ append-nil (reverse (letters key)))
    ∙ reverse-reverse (letters key)

abbrev has_letters_of : Runes → Bool
has_letters_of d = any (runes_eq (letters d)) credentials

drop_fields_are_credentials : all has_letters_of audit_drop_fields ≡ true
drop_fields_are_credentials = refl

pub dropped-has_credential_letters :
    (key : Runes) → should_drop_audit_field key ≡ true → has_credential_letters key ≡ true
unfolding should_drop_audit_field has_credential_letters
dropped-has_credential_letters key h =
    ap (λ x. any (runes_eq x) credentials) (sym (letters-normalize key))
    ∙ any_of_all has_letters_of (normalize_audit_field key) audit_drop_fields
        drop_fields_are_credentials h
