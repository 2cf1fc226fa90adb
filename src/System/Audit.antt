-- ===== src/System/Audit.antt =====
-- internal/service/admin/system/operation_log.go: what is left out of the data of an operation log.
-- A key is its runes. A decoded JSON value is a tree, with the fields of an object in any order.
pub mod Names
pub mod Clean
mod Tests
use snowgo.Prelude.{
  ℕ, ◌+◌, Bool, true, false, not, ◌&&◌, ◌||◌, List, [], ◌∷◌, Option, none, some, String, ◌==◌, ltb,
  leb, any, if◌then◌else◌, reverse,
}

abbrev pub Runes : Type 0
Runes = List ℕ

unfoldable pub is_upper : ℕ → Bool
is_upper r = leb b'A' r && leb r b'Z'

unfoldable pub is_lower : ℕ → Bool
is_lower r = leb b'a' r && leb r b'z'

abbrev pub is_separator : ℕ → Bool
is_separator r = (r == b'-') || (r == b' ')

abbrev pub next_is_lower : Runes → Bool
next_is_lower [] = false
next_is_lower (r ∷ rs) = is_lower r

-- Whether a new word begins at a capital after `prev`.
abbrev pub begins_word : Option ℕ → Runes → Bool
begins_word none rest = false
begins_word (some prev) rest =
    not (prev == b'_') && not (is_separator prev) && (not (is_upper prev) || next_is_lower rest)

abbrev pub ends_with_underscore : Runes → Bool
ends_with_underscore [] = false
ends_with_underscore (r ∷ rs) = r == b'_'

-- What one rune adds to the text so far, whose last rune stands first.
unfoldable pub write_rune : Option ℕ → ℕ → Runes → Runes → Runes
write_rune prev r rest b =
    if is_separator r
    then b'_' ∷ b
    else (if is_upper r
        then (r + 32) ∷ (if begins_word prev rest then b'_' ∷ b else b)
        else (if (r == b'_') && ends_with_underscore b then b else r ∷ b))

abbrev pub write_runes : Option ℕ → Runes → Runes → Runes
write_runes prev [] b = b
write_runes prev (r ∷ rest) b = write_runes (some r) rest (write_rune prev r rest b)

abbrev pub trim_left : Runes → Runes
trim_left [] = []
trim_left (r ∷ rs) = let rest = trim_left rs in if r == b'_' then rest else r ∷ rs

-- strings.Trim on both ends of the text, and the text in order.
unfoldable pub normalize_audit_field : Runes → Runes
normalize_audit_field key = trim_left (reverse (trim_left (write_runes none key [])))

abbrev pub runes_eq : Runes → Runes → Bool
runes_eq [] [] = true
runes_eq (a ∷ as_) (b ∷ bs) = (a == b) && runes_eq as_ bs
runes_eq _ _ = false

abbrev pub audit_drop_fields : List Runes
audit_drop_fields =
    (b'p' ∷ b'a' ∷ b's' ∷ b's' ∷ b'w' ∷ b'o' ∷ b'r' ∷ b'd' ∷ [])
    ∷ (b'p' ∷ b'a' ∷ b's' ∷ b's' ∷ [])
    ∷ (b'p' ∷ b'w' ∷ b'd' ∷ [])
    ∷ (b't' ∷ b'o' ∷ b'k' ∷ b'e' ∷ b'n' ∷ [])
    ∷ (b'a' ∷ b'c' ∷ b'c' ∷ b'e' ∷ b's' ∷ b's' ∷ b'_' ∷ b't' ∷ b'o' ∷ b'k' ∷ b'e' ∷ b'n' ∷ [])
    ∷ (b'r' ∷ b'e' ∷ b'f' ∷ b'r' ∷ b'e' ∷ b's' ∷ b'h' ∷ b'_' ∷ b't' ∷ b'o' ∷ b'k' ∷ b'e' ∷ b'n'
        ∷ [])
    ∷ (b's' ∷ b'e' ∷ b'c' ∷ b'r' ∷ b'e' ∷ b't' ∷ [])
    ∷ (b'j' ∷ b'w' ∷ b't' ∷ b'_' ∷ b's' ∷ b'e' ∷ b'c' ∷ b'r' ∷ b'e' ∷ b't' ∷ [])
    ∷ []

unfoldable pub should_drop_audit_field : Runes → Bool
should_drop_audit_field key = any (runes_eq (normalize_audit_field key)) audit_drop_fields

-- A number keeps its text.
mutual
  pub data Value : Type 0 where
    scalar : String → Value
    array : Items → Value
    object : Fields → Value

  pub data Items : Type 0 where
    nil : Items
    item : Value → Items → Items

  pub data Fields : Type 0 where
    end : Fields
    field : Runes → Value → Fields → Fields

unfoldable mutual
  pub sanitize_audit_value : Value → Value
  sanitize_audit_value (scalar text) = scalar text
  sanitize_audit_value (array is) = array (sanitize_items is)
  sanitize_audit_value (object fs) = object (sanitize_fields fs)

  pub sanitize_items : Items → Items
  sanitize_items nil = nil
  sanitize_items (item v is) = item (sanitize_audit_value v) (sanitize_items is)

  pub sanitize_fields : Fields → Fields
  sanitize_fields end = end
  sanitize_fields (field key v fs) =
      let kept = field key (sanitize_audit_value v) (sanitize_fields fs) in
      if should_drop_audit_field key then sanitize_fields fs else kept
