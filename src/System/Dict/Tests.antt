-- ===== src/System/Dict/Tests.antt =====
-- A dictionary with two items, requests that change it, and the theorems at work on them.
use snowgo.Prelude.{ℕ, ◌≡◌, refl, List, [], ◌∷◌, none, some, String, arith, true}
use snowgo.Xerror.{biz, ok, err, dict_code_item_exist_error}
use snowgo.Extern.{Env}
use snowgo.Dal.Model.{SysDictItem}
use snowgo.Dal.Tx.{Db, exec}
use snowgo.Dao.Dict as DictDao
use snowgo.Account.Types.{UserContext, ItemInfo}
use snowgo.Account.Runtime.{
  World, pure, fail, ◌>>=◌, on_error, refuse_if, read, cache_get, cache_set, cache_delete,
  transaction,
}
use snowgo.Account.Context.{get_user_context}
use snowgo.Account.Log.{create_operation_log}
use snowgo.Account.Refinement.{By}
use snowgo.System.Dict
use snowgo.System.Dict.{load_items, get_item_list_by_code}
use snowgo.System.Dict.Types.{DictItemParam}
use snowgo.System.Dict.Tx.{create_item_body}
use snowgo.System.Dict.Requests.{DictRequest, create_item, delete_item, handle_dict}
use snowgo.System.Dict.Handled.{DictChange, handle_dict-refines, handle_dict-is_atomic}
use snowgo.System.Dict.Audit.{DictLogged, handle_dict-is_Logged}
use snowgo.System.Dict.Consistency.{IsDictConsistent}
use snowgo.System.Dict.Consistency.Runs.{DictRun, here, request, DictRun-IsDictConsistent}
use snowgo.System.Dict.Listing.{AgreesOn, IsListing, get_item_list-IsListing}
use snowgo.System.Dict.Calm.{still}
use snowgo.System.Dict.Coherence.Fresh.{IsFresh, handle_dict-IsFresh}

abbrev env : Env
env = record {
  hash_password = λ pw. ok "";
  check_password = λ hash pw. true;
  save_missing_role = λ role rows. ok (role ∷ rows);
  save_missing_menu = λ menu rows. ok (menu ∷ rows);
  save_missing_dict = λ dict rows. ok (dict ∷ rows);
  save_missing_dict_item = λ item rows. ok (item ∷ rows);
}

abbrev level : ℕ → String → ℕ → SysDictItem
level id code sort_order = record {
  id = id;
  dict_id = 1;
  dict_code = "level";
  item_name = code;
  item_code = code;
  status = some "Active";
  sort_order = sort_order;
  description = none;
}

abbrev tables : Db
tables = record {
  users = [];
  roles = [];
  menus = [];
  user_roles = [];
  role_menus = [];
  dicts = record { id = 1; code = "level"; name = "Level"; description = none } ∷ [];
  dict_items = level 2 "low" 10 ∷ level 1 "high" 20 ∷ [];
  operation_logs = [];
  next_user = 1;
  next_role = 1;
  next_menu = 1;
  next_dict = 2;
  next_dict_item = 3;
}

abbrev world : World
world = still tables tables (λ key. none)

abbrev operator : UserContext
operator = record {
  trace_id = "t1";
  ip = "10.0.0.1";
  user_agent = "curl";
  user_id = 2;
  username = "operator";
  session_id = "s1";
}

abbrev item : String → DictItemParam
item code = record {
  id = 0;
  dict_id = 1;
  item_name = code;
  item_code = code;
  status = none;
  sort_order = 15;
  description = none;
}

abbrev new_code : DictRequest
new_code = create_item (item "middle")

abbrev known_code : DictRequest
known_code = create_item (item "high")

abbrev after : World
after = (handle_dict env (some operator) new_code world).1

creates : (handle_dict env (some operator) new_code world).0 ≡ ok tt
unfolding handle_dict Dict.create_item get_user_context refuse_if on_error ◌>>=◌ pure fail read
    DictDao.get_dict_by_id DictDao.is_code_item_duplicate transaction create_item_body
    DictDao.create_dict_item exec create_operation_log cache_delete
creates = refl

refuses :
    (handle_dict env (some operator) known_code world).0 ≡ err (biz dict_code_item_exist_error)
unfolding handle_dict Dict.create_item get_user_context refuse_if on_error ◌>>=◌ pure fail read
    DictDao.get_dict_by_id DictDao.is_code_item_duplicate
refuses = refl

handle_dict-refines_example :
    By (some operator) (λ u. DictChange env new_code u tables tables) after.primary
handle_dict-refines_example = handle_dict-refines env (some operator) new_code world creates

handle_dict-is_atomic_example :
    (handle_dict env (some operator) known_code world).1.primary ≡ tables
handle_dict-is_atomic_example = handle_dict-is_atomic env (some operator) known_code world refuses

handle_dict-is_Logged_example : By (some operator) (λ u. DictLogged u new_code tables) after.primary
handle_dict-is_Logged_example = handle_dict-is_Logged env (some operator) new_code world creates

tables-IsDictConsistent : IsDictConsistent tables
tables-IsDictConsistent = record {
  dicts = record { distinct = (refl, tt); below = (omega arith, tt) };
  items = record { distinct = (refl, (refl, tt)); below = (omega arith, (omega arith, tt)) };
  codes = (refl, tt);
  in_step = (refl, (refl, tt));
}

one_request : DictRun env world after
one_request =
    request (some operator) new_code (record { same_dicts = refl; same_items = refl }) here

DictRun-IsDictConsistent_example : IsDictConsistent after.primary
DictRun-IsDictConsistent_example =
    DictRun-IsDictConsistent env world after one_request tables-IsDictConsistent

-- The cache is empty.
agrees : AgreesOn "level" world tables
agrees m h = absurd cc

abbrev in_order : List ItemInfo
in_order = Dict.item_info (level 2 "low" 10) ∷ Dict.item_info (level 1 "high" 20) ∷ []

lists : (get_item_list_by_code "level" world).0 ≡ ok in_order
unfolding get_item_list_by_code load_items ◌>>=◌ pure on_error refuse_if read cache_get cache_set
    fail DictDao.get_item_list_by_dict_code
lists = refl

get_item_list-IsListing_example : IsListing "level" tables in_order
get_item_list-IsListing_example = get_item_list-IsListing "level" world agrees lists

empty_cache : IsFresh (λ key. none) tables
empty_cache code m h = absurd cc

handle_dict-IsFresh_example :
    IsFresh
      (handle_dict env (some operator) (delete_item 1) world).1.cache
      (handle_dict env (some operator) (delete_item 1) world).1.primary
handle_dict-IsFresh_example =
    handle_dict-IsFresh env (some operator) tables tables (λ key. none) (delete_item 1)
      (record { same_dicts = refl; same_items = refl }) tables-IsDictConsistent empty_cache
