-- ===== src/System/Audit/Tests.antt =====
-- Names that are dropped, names that are kept, and the theorem at work.
use snowgo.Prelude.{◌≡◌, refl, true, false, [], ◌∷◌}
use snowgo.System.Audit.{
  Runes, is_upper, is_lower, write_rune, normalize_audit_field, should_drop_audit_field, Value,
  scalar, array, object, nil, item, end, field, sanitize_audit_value,
}
use snowgo.System.Audit.Names.{has_credential_letters}
use snowgo.System.Audit.Clean.{is_clean, harmless, sanitize_audit_value-hides}

-- JWTSecret
abbrev jwt_secret : Runes
jwt_secret = b'J' ∷ b'W' ∷ b'T' ∷ b'S' ∷ b'e' ∷ b'c' ∷ b'r' ∷ b'e' ∷ b't' ∷ []

-- refresh-Token
abbrev refresh_token : Runes
refresh_token =
    b'r' ∷ b'e' ∷ b'f' ∷ b'r' ∷ b'e' ∷ b's' ∷ b'h' ∷ b'-' ∷ b'T' ∷ b'o' ∷ b'k' ∷ b'e' ∷ b'n' ∷ []

-- access--token
abbrev two_dashes : Runes
two_dashes =
    b'a' ∷ b'c' ∷ b'c' ∷ b'e' ∷ b's' ∷ b's' ∷ b'-' ∷ b'-' ∷ b't' ∷ b'o' ∷ b'k' ∷ b'e' ∷ b'n' ∷ []

-- access__token
abbrev two_underscores : Runes
two_underscores =
    b'a' ∷ b'c' ∷ b'c' ∷ b'e' ∷ b's' ∷ b's' ∷ b'_' ∷ b'_' ∷ b't' ∷ b'o' ∷ b'k' ∷ b'e' ∷ b'n' ∷ []

drops_jwt_secret : should_drop_audit_field jwt_secret ≡ true
unfolding should_drop_audit_field normalize_audit_field write_rune is_upper is_lower
drops_jwt_secret = refl

drops_refresh_token : should_drop_audit_field refresh_token ≡ true
unfolding should_drop_audit_field normalize_audit_field write_rune is_upper is_lower
drops_refresh_token = refl

-- Two separators in a row are one only when they are underscores.
drops_two_underscores : should_drop_audit_field two_underscores ≡ true
unfolding should_drop_audit_field normalize_audit_field write_rune is_upper is_lower
drops_two_underscores = refl

keeps_two_dashes : should_drop_audit_field two_dashes ≡ false
unfolding should_drop_audit_field normalize_audit_field write_rune is_upper is_lower
keeps_two_dashes = refl

abbrev nested : Value
nested = array (item (object (field jwt_secret (scalar "s") end)) nil)

sanitize_audit_value-hides_example :
    (is_clean (sanitize_audit_value nested) ≡ true)
    × (harmless (sanitize_audit_value nested) ≡ harmless nested)
sanitize_audit_value-hides_example = sanitize_audit_value-hides nested

-- A name may have a credential's letters and be kept: its letters come in other words.
abbrev to_ken : Runes
to_ken = b't' ∷ b'o' ∷ b'-' ∷ b'k' ∷ b'e' ∷ b'n' ∷ []

keeps_to_ken : (should_drop_audit_field to_ken ≡ false) × (has_credential_letters to_ken ≡ true)
unfolding should_drop_audit_field normalize_audit_field write_rune is_upper is_lower
    has_credential_letters
keeps_to_ken = (refl, refl)
