-- ===== src/Dal/Model.antt =====
-- internal/dal/model: the rows of the account and dictionary tables, without their time columns and without the
-- surrogate keys of the two association tables, which nothing reads. A nullable column is an
-- Option. Also internal/service/admin/contract: what an operation log is made from.
use snowgo.Prelude.{ℕ, String, Option, List}

pub record SysUser : Type 0 where
  pub id : ℕ
  pub username : String
  pub tel : String
  pub nickname : Option String
  pub password : String
  pub email : Option String
  pub remark : Option String
  pub status : Option ℕ
  pub created_by : Option ℕ
  pub updated_by : Option ℕ

pub record SysRole : Type 0 where
  pub id : ℕ
  pub code : String
  pub name : Option String
  pub description : Option String

pub data MenuType : Type 0 where
  dir menu btn : MenuType

pub record SysMenu : Type 0 where
  pub id : ℕ
  pub parent_id : ℕ
  pub menu_type : MenuType
  pub name : String
  pub path : Option String
  pub icon : Option String
  pub perms : Option String
  pub sort_order : ℕ

pub record SysUserRole : Type 0 where
  pub user_id : ℕ
  pub role_id : ℕ

pub record SysRoleMenu : Type 0 where
  pub role_id : ℕ
  pub menu_id : ℕ

pub record SysDict : Type 0 where
  pub id : ℕ
  pub code : String
  pub name : String
  pub description : Option String

pub record SysDictItem : Type 0 where
  pub id : ℕ
  pub dict_id : ℕ
  pub dict_code : String
  pub item_name : String
  pub item_code : String
  pub status : Option String
  pub sort_order : ℕ
  pub description : Option String

pub data Resource : Type 0 where
  user role menu dict dict_item : Resource

pub data Action : Type 0 where
  create update delete : Action

-- The value that a log keeps of a row, before it is rendered.
pub data Snapshot : Type 0 where
  null : Snapshot
  of_user : SysUser → Snapshot
  of_role : SysRole → Snapshot
  of_menu : SysMenu → Snapshot
  of_dict : SysDict → Snapshot
  of_dict_item : SysDictItem → Snapshot

-- The arguments of fmt.Sprintf in a description, in order, with the text between them.
pub data Segment : Type 0 where
  lit : String → Segment
  num : ℕ → Segment
  type_name : MenuType → Segment

pub record SysOperationLog : Type 0 where
  pub operator_id : ℕ
  pub operator_name : String
  pub resource : Resource
  pub resource_id : ℕ
  pub action : Action
  pub trace_id : String
  pub before_data : Snapshot
  pub after_data : Snapshot
  pub description : List Segment
  pub ip : String
