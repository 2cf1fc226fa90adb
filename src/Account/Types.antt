-- ===== src/Account/Types.antt =====
-- The parameters and results of the account services, and what they keep in the cache. Times are
-- left out, as in the rows.
use snowgo.Prelude.{ℕ, String, Option, List}
use snowgo.Dal.Model.{MenuType}
use snowgo.Extern.{Bytes}

-- xauth.UserContext: who sends the request.
pub record UserContext : Type 0 where
  pub trace_id : String
  pub ip : String
  pub user_agent : String
  pub user_id : ℕ
  pub username : String
  pub session_id : String

pub record RoleParam : Type 0 where
  pub id : ℕ
  pub name : String
  pub code : String
  pub description : String
  pub menu_ids : List ℕ

pub record UserParam : Type 0 where
  pub id : ℕ
  pub username : String
  pub password : Bytes
  pub tel : String
  pub nickname : Option String
  pub email : Option String
  pub remark : Option String
  pub status : Option ℕ
  pub role_ids : List ℕ

pub record UserInfo : Type 0 where
  pub id : ℕ
  pub username : String
  pub tel : String
  pub nickname : String
  pub email : String
  pub remark : String
  pub status : ℕ

pub record MenuParam : Type 0 where
  pub id : ℕ
  pub parent_id : ℕ
  pub menu_type : MenuType
  pub name : String
  pub path : Option String
  pub icon : Option String
  pub perms : Option String
  pub sort_order : ℕ

pub record MenuData : Type 0 where
  pub id : ℕ
  pub parent_id : ℕ
  pub menu_type : MenuType
  pub name : String
  pub path : String
  pub icon : String
  pub perms : String
  pub sort_order : ℕ

-- What GetItemListByCode of the dictionary service gives.
pub record ItemInfo : Type 0 where
  pub id : ℕ
  pub item_name : String
  pub item_code : String
  pub status : Option String
  pub sort_order : ℕ
  pub description : Option String

-- A list of MenuInfo nodes: a node's data, its children, and the nodes after it.
pub data Forest : Type 0 where
  leaf : Forest
  tree : MenuData → Forest → Forest → Forest

-- The keys, by prefix and id: CacheMenuTree, CacheRoleMenuPrefix, CacheUserRolePrefix,
-- SystemDictPrefix.
pub data CacheKey : Type 0 where
  menu_tree : CacheKey
  role_menu user_role : ℕ → CacheKey
  dict_items : String → CacheKey

-- A text in the cache, by what encoding/json reads from it; `other` is a text that it refuses.
pub data CacheValue : Type 0 where
  role_ids : List ℕ → CacheValue
  menus : List MenuData → CacheValue
  forest : Forest → CacheValue
  items : List ItemInfo → CacheValue
  other : String → CacheValue
