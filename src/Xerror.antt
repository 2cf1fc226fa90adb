-- ===== src/Xerror.antt =====
-- pkg/xerror/error.go and the errors that travel through the services: business errors, the errors
-- of database/sql drivers and of GORM, and `fmt.Errorf("…: %w", err)` around them.
use snowgo.Prelude.{ℕ, Bool, true, false, String, ◌==◌}

-- The codes that the account services return.
pub data Code : Type 0 where
  http_forbidden http_unauthorized http_internal_server_error : Code
  auth_error login_locked token_used_error token_error token_expired token_invalid : Code
  user_not_found user_delete_self_error user_name_tel_exist_error user_role_not_exist : Code
  pwd_length_error pwd_invalid_char_error pwd_complexity_error : Code
  menu_not_found menu_perms_exist menu_path_exist menu_parent_invalid menu_parent_self : Code
  menu_has_children menu_used_by_role menu_id_invalid : Code
  role_not_found role_code_exist role_used role_id_invalid role_menu_not_exist : Code
  role_menu_not_authorized super_admin_role_cannot_delete : Code
  dict_code_exist_error dict_not_found dict_code_item_exist_error dict_item_not_found : Code
  token_not_found token_incorrect_format token_type_error too_many_requests : Code
  key_too_many_requests : Code

pub data Error : Type 0 where
  -- *BizError, and a Code used as an error
  biz : Code → Error
  -- errors.New of this repository
  plain : String → Error
  -- gorm.ErrRecordNotFound
  record_not_found : Error
  -- *mysql.MySQLError with its number
  mysql : ℕ → Error
  -- any other failure of a connection, a context or a driver
  driver : ℕ → Error
  -- fmt.Errorf("…: %w", err)
  wrapped : String → Error → Error

-- errors.Is(err, gorm.ErrRecordNotFound)
unfoldable pub is_record_not_found : Error → Bool
is_record_not_found record_not_found = true
is_record_not_found (wrapped msg err) = is_record_not_found err
is_record_not_found _ = false

-- mysql.IsDuplicateKeyErr: error 1062 anywhere in the chain.
unfoldable pub is_duplicate_key_err : Error → Bool
is_duplicate_key_err (mysql number) = number == 1062
is_duplicate_key_err (wrapped msg err) = is_duplicate_key_err err
is_duplicate_key_err _ = false

pub data Result {ℓ} (A : Type ℓ) : Type ℓ where
  ok : A → Result A
  err : Error → Result A

-- `if err != nil { return f(err) }` on a result.
abbrev pub map_err {ℓ} : {A : Type ℓ} → (Error → Error) → Result A → Result A
map_err f (ok a) = ok a
map_err f (err e) = err (f e)
