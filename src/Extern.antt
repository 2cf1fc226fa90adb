-- ===== src/Extern.antt =====
-- What the services take from other packages: golang.org/x/crypto/bcrypt behind pkg/xcryption
-- (HashPassword, CheckPassword), and what GORM's Save does with a row whose UPDATE matches none.
use snowgo.Prelude.{ℕ, String, List, Bool}
use snowgo.Xerror.{Result}
use snowgo.Dal.Model.{SysRole, SysMenu, SysDict, SysDictItem}

-- A Go string as its bytes.
abbrev pub Bytes : Type 0
Bytes = List ℕ

pub record Env : Type 0 where
  pub hash_password : Bytes → Result String
  pub check_password : String → Bytes → Bool
  -- The rows after the Save of a row that is not there, or its error.
  pub save_missing_role : SysRole → List SysRole → Result (List SysRole)
  pub save_missing_menu : SysMenu → List SysMenu → Result (List SysMenu)
  pub save_missing_dict : SysDict → List SysDict → Result (List SysDict)
  pub save_missing_dict_item : SysDictItem → List SysDictItem → Result (List SysDictItem)
