-- ===== src/System/Dict/Requests.antt =====
-- The requests that change dictionaries and their items, as one type: internal/api/admin/system
-- hands each to its service method.
use snowgo.Prelude.{ℕ, Option}
use snowgo.Extern.{Env}
use snowgo.Account.Types.{UserContext}
use snowgo.Account.Runtime.{M, pure, ◌>>◌}
use snowgo.System.Dict
use snowgo.System.Dict.Types.{DictParam, DictItemParam}

pub data DictRequest : Type 0 where
  create_dict update_dict : DictParam → DictRequest
  delete_dict : ℕ → DictRequest
  create_item update_item : DictItemParam → DictRequest
  delete_item : ℕ → DictRequest

unfoldable pub handle_dict : Env → Option UserContext → DictRequest → M (Unit {0})
handle_dict env ctx (create_dict p) = do Dict.create_dict ctx p; pure tt
handle_dict env ctx (update_dict p) = do Dict.update_dict env ctx p; pure tt
handle_dict env ctx (delete_dict id) = Dict.delete_by_id ctx id
handle_dict env ctx (create_item p) = do Dict.create_item ctx p; pure tt
handle_dict env ctx (update_item p) = do Dict.update_item env ctx p; pure tt
handle_dict env ctx (delete_item id) = Dict.delete_item_by_id ctx id
