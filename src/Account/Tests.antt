-- ===== src/Account/Tests.antt =====
-- Concrete tables, users and requests, and the theorems at work on them.
use snowgo.Prelude.{
  ℕ, ◌≡◌, ◌↔◌, refl, ◌==◌, ◌&&◌, true, List, [], ◌∷◌, none, some, String, str_eq, length, contains,
  arith,
}
use snowgo.Xerror.{biz, ok, err, role_menu_not_authorized, auth_error}
use snowgo.Extern.{Env, Bytes}
use snowgo.Dal.Model.{SysUser, SysRole, SysMenu, btn}
use snowgo.Dal.Tx.{Db, exec, query}
use snowgo.Dao.Role as RoleDao
use snowgo.Dao.User as UserDao
use snowgo.Account.Types.{UserContext, UserInfo, RoleParam}
use snowgo.Account.Runtime.{
  World, pure, fail, ◌>>=◌, on_error, refuse_if, read, read_primary, cache_get, cache_set,
  transaction,
}
use snowgo.Account.Context.{get_user_context}
use snowgo.Account.Log.{create_operation_log}
use snowgo.Account.Password.{validate_password}
use snowgo.Account.Password.Rules.{IsStrong, validate_password-IsStrong}
use snowgo.Account.Role
use snowgo.Account.Role.Tx.{
  check_menus, check_menus_exist, check_menus_authorized, link_menus, create_role_body,
}
use snowgo.Account.User
use snowgo.Account.User.Cached.{Agrees, roles_of, get_role_ids-roles_of}
use snowgo.Account.User.Login.{
  LetIn, authenticate-LetIn, LetIn-authenticate, authenticate-hides_reason,
}
use snowgo.Account.Requests.{Request, create_role, handle}
use snowgo.Account.Refinement.{By}
use snowgo.Account.Handled.{Change, handle-refines, handle-is_atomic}
use snowgo.Account.Audit.{Logged, handle-is_Logged}
use snowgo.Account.Grants.{grants, MayGrant, handle-grants_own_menus}
use snowgo.Account.Sender.{handle-keeps_sender}
use snowgo.Account.Consistency.{user_ids, role_ids, IsConsistent}
use snowgo.Account.Consistency.Runs.{
  Run, here, request, drift, Run-IsConsistent, Run-keeps_super_admin_role,
}

-- A hash that shows the length of the password.
abbrev env : Env
env = record {
  hash_password = λ pw. ok "8";
  check_password = λ hash pw. str_eq hash "8" && length pw == 8;
  save_missing_role = λ role rows. ok (role ∷ rows);
  save_missing_menu = λ menu rows. ok (menu ∷ rows);
  save_missing_dict = λ dict rows. ok (dict ∷ rows);
  save_missing_dict_item = λ item rows. ok (item ∷ rows);
}

abbrev secret : Bytes
secret = b'p' ∷ b'a' ∷ b's' ∷ b's' ∷ b'w' ∷ b'0' ∷ b'r' ∷ b'd' ∷ []

abbrev account : ℕ → String → String → SysUser
account id username tel = record {
  id = id;
  username = username;
  tel = tel;
  nickname = none;
  password = "8";
  email = none;
  remark = none;
  status = some 1;
  created_by = none;
  updated_by = none;
}

abbrev role_of : ℕ → String → SysRole
role_of id code = record { id = id; code = code; name = some code; description = none }

abbrev button : ℕ → String → SysMenu
button id perms = record {
  id = id;
  parent_id = 0;
  menu_type = btn;
  name = perms;
  path = none;
  icon = none;
  perms = some perms;
  sort_order = 0;
}

-- The super administrator 1 has role 1; the operator 2 has role 2 with the menus 3 and 4; menu 5
-- is nobody's.
abbrev tables : Db
tables = record {
  users = account 2 "operator" "13800000002" ∷ account 1 "admin" "13800000001" ∷ [];
  roles = role_of 2 "operator" ∷ role_of 1 "admin" ∷ [];
  menus = button 5 "log:list" ∷ button 4 "user:list" ∷ button 3 "role:create" ∷ [];
  user_roles = record { user_id = 2; role_id = 2 } ∷ record { user_id = 1; role_id = 1 } ∷ [];
  role_menus = record { role_id = 2; menu_id = 4 } ∷ record { role_id = 2; menu_id = 3 } ∷ [];
  dicts = [];
  dict_items = [];
  operation_logs = [];
  next_user = 3;
  next_role = 3;
  next_menu = 6;
  next_dict = 1;
  next_dict_item = 1;
}

abbrev world : World
world = record { primary = tables; replica = tables; cache = λ key. none; faults = [] }

abbrev operator : UserContext
operator = record {
  trace_id = "t1";
  ip = "10.0.0.1";
  user_agent = "curl";
  user_id = 2;
  username = "operator";
  session_id = "s1";
}

abbrev auditor : List ℕ → RoleParam
auditor ids = record {
  id = 0;
  name = "auditor";
  code = "auditor";
  description = "";
  menu_ids = ids;
}

-- What the operator asks for: a role of their own menus, and one with a menu of nobody's.
abbrev own_menus : Request
own_menus = create_role (auditor (3 ∷ 4 ∷ []))

abbrev foreign_menu : Request
foreign_menu = create_role (auditor (3 ∷ 5 ∷ []))

abbrev after : World
after = (handle env (some operator) own_menus world).1

creates_role : (handle env (some operator) own_menus world).0 ≡ ok tt
unfolding handle Role.create_role get_user_context refuse_if on_error ◌>>=◌ pure fail read
    RoleDao.is_code_exists transaction create_role_body check_menus check_menus_exist
    check_menus_authorized RoleDao.count_menu_by_ids RoleDao.get_user_menu_ids exec query
    RoleDao.create_role link_menus RoleDao.create_role_menu create_operation_log
    RoleDao.insert_role_menus
creates_role = refl

granted : grants after.primary 3 4 ≡ true
unfolding handle Role.create_role get_user_context refuse_if on_error ◌>>=◌ pure fail read
    RoleDao.is_code_exists transaction create_role_body check_menus check_menus_exist
    check_menus_authorized RoleDao.count_menu_by_ids RoleDao.get_user_menu_ids exec query
    RoleDao.create_role link_menus RoleDao.create_role_menu create_operation_log
    RoleDao.insert_role_menus
granted = refl

refuses_menu :
    (handle env (some operator) foreign_menu world).0 ≡ err (biz role_menu_not_authorized)
unfolding handle Role.create_role get_user_context refuse_if on_error ◌>>=◌ pure fail read
    RoleDao.is_code_exists transaction create_role_body check_menus check_menus_exist
    check_menus_authorized RoleDao.count_menu_by_ids RoleDao.get_user_menu_ids exec query
    RoleDao.create_role link_menus RoleDao.create_role_menu create_operation_log
    RoleDao.insert_role_menus
refuses_menu = refl

handle-refines_example : By (some operator) (λ u. Change env own_menus u tables) after.primary
handle-refines_example = handle-refines env (some operator) own_menus world creates_role

handle-is_atomic_example : (handle env (some operator) foreign_menu world).1.primary ≡ tables
handle-is_atomic_example = handle-is_atomic env (some operator) foreign_menu world refuses_menu

handle-is_Logged_example : By (some operator) (λ u. Logged u own_menus tables) after.primary
handle-is_Logged_example = handle-is_Logged env (some operator) own_menus world creates_role

handle-grants_own_menus_example : By (some operator) (λ u d. MayGrant u tables 3 4) after.primary
handle-grants_own_menus_example =
    handle-grants_own_menus env (some operator) own_menus world 3 4 creates_role granted

handle-keeps_sender_example : contains (user_ids after.primary) 2 ≡ true
handle-keeps_sender_example = handle-keeps_sender env operator own_menus world creates_role refl

tables-IsConsistent : IsConsistent tables
tables-IsConsistent = record {
  users = record { distinct = (refl, (refl, tt)); below = (omega arith, (omega arith, tt)) };
  roles = record { distinct = (refl, (refl, tt)); below = (omega arith, (omega arith, tt)) };
  menus = record {
    distinct = (refl, (refl, (refl, tt)));
    below = (omega arith, (omega arith, (omega arith, tt)));
  };
  roles_known = (refl, (refl, tt));
  menus_known = (refl, (refl, tt));
}

-- The operator's two requests, and a replica that falls behind between them.
abbrev stale : World
stale = record after { replica = tables; cache = λ key. none }

two_requests : Run env world (handle env (some operator) foreign_menu stale).1
two_requests =
    request (some operator) foreign_menu tt
      (drift stale refl (request (some operator) own_menus tt here))

Run-IsConsistent_example : IsConsistent (handle env (some operator) foreign_menu stale).1.primary
Run-IsConsistent_example = Run-IsConsistent env world _ two_requests tables-IsConsistent

Run-keeps_super_admin_role_example :
    contains (role_ids (handle env (some operator) foreign_menu stale).1.primary) 1 ≡ true
Run-keeps_super_admin_role_example = Run-keeps_super_admin_role env world _ two_requests refl

validate_password-IsStrong_example : (validate_password secret ≡ none) ↔ IsStrong secret
validate_password-IsStrong_example = validate_password-IsStrong secret

-- The operator logs in.
logs_in :
    (User.authenticate env "operator" secret world).0
    ≡ ok (User.user_info (account 2 "operator" "13800000002"))
unfolding User.authenticate ◌>>=◌ pure fail refuse_if on_error read_primary
    UserDao.get_user_by_username
logs_in = refl

is_refused : (User.authenticate env "operator" [] world).0 ≡ err (biz auth_error)
unfolding User.authenticate ◌>>=◌ pure fail refuse_if on_error read_primary
    UserDao.get_user_by_username
is_refused = refl

abbrev operator_info : UserInfo
operator_info = User.user_info (account 2 "operator" "13800000002")

authenticate-LetIn_example : LetIn env "operator" secret tables.users operator_info
authenticate-LetIn_example = authenticate-LetIn env "operator" secret world logs_in

let_in : LetIn env "operator" secret tables.users operator_info
let_in = record {
  user = account 2 "operator" "13800000002";
  found = refl;
  right_password = refl;
  enabled = refl;
  result = refl;
}

LetIn-authenticate_example : (User.authenticate env "operator" secret world).0 ≡ ok operator_info
LetIn-authenticate_example = LetIn-authenticate env "operator" secret world refl refl let_in

authenticate-hides_reason_example : biz auth_error ≡ biz auth_error
authenticate-hides_reason_example =
    authenticate-hides_reason env "operator" [] world refl refl is_refused

-- The cache is empty.
agrees : Agrees 2 world
agrees ids h = absurd cc

reads_roles : (User.get_role_ids_by_user_id 2 world).0 ≡ ok (2 ∷ [])
unfolding User.get_role_ids_by_user_id User.load_role_ids ◌>>=◌ pure on_error refuse_if read
    cache_get cache_set fail UserDao.get_role_ids_by_user_id
reads_roles = refl

get_role_ids-roles_of_example : 2 ∷ [] ≡ roles_of 2 tables
get_role_ids-roles_of_example = get_role_ids-roles_of 2 world agrees reads_roles
