-- ===== src/System/Audit/Clean.antt =====
-- No credential is left in the data, and nothing but credentials is taken out.
use snowgo.Prelude.{◌≡◌, refl, ap, Bool, true, not, ◌&&◌, if◌then◌else◌, arith}
use snowgo.System.Audit.{
  Value, scalar, array, object, Items, nil, item, Fields, end, field, sanitize_audit_value,
  sanitize_items, sanitize_fields,
}
use snowgo.System.Audit.Names.{
  is_spelling, has_credential_letters, is_spelling-dropped, dropped-has_credential_letters,
}

-- No object in the value, at whatever depth, has a field whose name is a usual spelling of one of a
-- credential.
unfoldable mutual
  pub is_clean : Value → Bool
  is_clean (scalar text) = true
  is_clean (array is) = are_items_clean is
  is_clean (object fs) = are_fields_clean fs

  pub are_items_clean : Items → Bool
  are_items_clean nil = true
  are_items_clean (item v is) = is_clean v && are_items_clean is

  pub are_fields_clean : Fields → Bool
  are_fields_clean end = true
  are_fields_clean (field key v fs) = not (is_spelling key) && (is_clean v && are_fields_clean fs)

-- The value without the fields, at whatever depth, whose names have the letters of a credential's.
unfoldable mutual
  pub harmless : Value → Value
  harmless (scalar text) = scalar text
  harmless (array is) = array (harmless_items is)
  harmless (object fs) = object (harmless_fields fs)

  pub harmless_items : Items → Items
  harmless_items nil = nil
  harmless_items (item v is) = item (harmless v) (harmless_items is)

  pub harmless_fields : Fields → Fields
  harmless_fields end = end
  harmless_fields (field key v fs) =
      let kept = field key (harmless v) (harmless_fields fs) in
      if has_credential_letters key then harmless_fields fs else kept

mutual
  unfolding is_clean are_items_clean are_fields_clean sanitize_audit_value sanitize_items
      sanitize_fields

  sanitized : (v : Value) → is_clean (sanitize_audit_value v) ≡ true
  sanitized (scalar text) = refl
  sanitized (array is) = sanitized_items is
  sanitized (object fs) = sanitized_fields fs

  sanitized_items : (is : Items) → are_items_clean (sanitize_items is) ≡ true
  sanitized_items nil = refl
  sanitized_items (item v is) = ground (arith, sanitized v, sanitized_items is)

  sanitized_fields : (fs : Fields) → are_fields_clean (sanitize_fields fs) ≡ true
  sanitized_fields end = refl
  sanitized_fields (field key v fs) =
      grind (arith, sanitized v, sanitized_fields fs, is_spelling-dropped key)

mutual
  unfolding harmless harmless_items harmless_fields sanitize_audit_value sanitize_items
      sanitize_fields

  same : (v : Value) → harmless (sanitize_audit_value v) ≡ harmless v
  same (scalar text) = refl
  same (array is) = ap array (same_items is)
  same (object fs) = ap object (same_fields fs)

  same_items : (is : Items) → harmless_items (sanitize_items is) ≡ harmless_items is
  same_items nil = refl
  same_items (item v is) = ground (arith, same v, same_items is)

  same_fields : (fs : Fields) → harmless_fields (sanitize_fields fs) ≡ harmless_fields fs
  same_fields end = refl
  same_fields (field key v fs) =
      grind (arith, same v, same_fields fs, dropped-has_credential_letters key)

-- What sanitizeAuditValue makes of a value has no field at any depth whose name is a usual spelling
-- of a credential's: snake, kebab, spaced or camel case, in small or capital letters. And it takes
-- out nothing but fields whose names have a credential's letters, whatever separators and capitals
-- they are written with: without all such fields its result and the value are the same.
pub sanitize_audit_value-hides :
    (v : Value)
    → (is_clean (sanitize_audit_value v) ≡ true) × (harmless (sanitize_audit_value v) ≡ harmless v)
sanitize_audit_value-hides v = (sanitized v, same v)
