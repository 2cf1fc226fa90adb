-- ===== src/System/Dict/Handled.antt =====
-- A request to the dictionary service as a whole: it fails and leaves the tables as they were, or
-- makes its change.
use snowgo.Prelude.{ℕ, ◌≡◌, refl, ◌+◌, Option, subst, String, str_eq, true, false, Bool, ◌∙◌}
use snowgo.Xerror.{Error, Result, ok, err}
use snowgo.Extern.{Env}
use snowgo.Dal.Tx.{Db}
use snowgo.Account.Types.{UserContext, CacheKey, dict_items}
use snowgo.Account.Runtime.{
  World, M, ◌>>=◌, ◌>>◌, pure, next_fault_cases, cache_delete_pair, without, present, not_deleted,
}
use snowgo.Account.Outcome.{
  Outcome, Ends, IsQuiet, map-Ends, context-Ends, refuse_if-Ends, read-Ends, transaction-Ends,
  pure-IsQuiet, cache_delete-IsQuiet,
}
use snowgo.Account.Refinement.{By}
use snowgo.System.Dict
use snowgo.System.Dict.{drop_renamed}
use snowgo.System.Dict.Types.{DictParam, DictItemParam}
use snowgo.System.Dict.Changes.{
  DictCreated, DictUpdated, DictDeleted, ItemCreated, ItemUpdated, ItemDeleted,
}
use snowgo.System.Dict.Effects.{
  create_dict_body-DictCreated, update_dict_body-DictUpdated, delete_dict_body-DictDeleted,
  create_item_body-ItemCreated, update_item_body-ItemUpdated, delete_item_body-ItemDeleted,
}
use snowgo.System.Dict.Requests.{
  DictRequest, create_dict, update_dict, delete_dict, create_item, update_item, delete_item,
  handle_dict,
}

-- What a request of the user is to do.
abbrev pub DictChange : Env → DictRequest → UserContext → Db → Db → Db → Type 0
DictChange env (create_dict p) u r = DictCreated u p
DictChange env (update_dict p) u r = DictUpdated env u p r
DictChange env (delete_dict id) u r = DictDeleted u id r
DictChange env (create_item p) u r = ItemCreated u p r
DictChange env (update_item p) u r = ItemUpdated env u p r
DictChange env (delete_item id) u r = ItemDeleted u id r

delete_pair_settles :
    (a b : CacheKey) (w : World)
    → (n : Result ℕ) × ((cache_delete_pair a b w).0 ≡ ok n)
      × ((cache_delete_pair a b w).1.primary ≡ w.primary)
unfolding cache_delete_pair
delete_pair_settles a b w =
    next_fault_cases {A = Result (Result ℕ) × World}
      (λ r. (n : Result ℕ) × (r.0 ≡ ok n) × (r.1.primary ≡ w.primary))
      (λ fs. (
        ok (ok (present a w.cache + present b (without a w.cache))),
        record w { cache = without b (without a w.cache); faults = fs },
      ))
      (not_deleted w) w.faults (λ fs. (ok _, refl, refl)) (λ e fs. (err e, refl, refl))

drop_renamed-IsQuiet :
    {B : Type 0} (old new : String) (m : M B) → IsQuiet m → IsQuiet (drop_renamed old new >> m)
unfolding drop_renamed ◌>>=◌ pure
drop_renamed-IsQuiet {B} old new m q = by_test (str_eq old new)
  where
    by_test :
        (b : Bool)
        → IsQuiet (
            elim b [
              | true ↦ pure tt
              | false ↦ do cache_delete_pair (dict_items old) (dict_items new); pure tt
            ]
            >> m)
    by_test true = record { settles = q.settles }
    by_test false = record {
      settles = λ w.
          let (r, done, kept) = delete_pair_settles (dict_items old) (dict_items new) w in
          let (b, settled, same) =
            q.settles (cache_delete_pair (dict_items old) (dict_items new) w).1 in
          (b, rw done settled, rw done (same ∙ kept));
    }

module _ (env : Env) (ctx : Option UserContext) where
  create_dict-Ends :
      (p : DictParam) (w : World)
      → Ends (By ctx (λ u. DictCreated u p w.primary)) (Dict.create_dict ctx p) w
  unfolding Dict.create_dict
  create_dict-Ends p w = context-Ends ctx _ w λ u e z. read-Ends _ _ _ w λ a fs _.
      refuse_if-Ends a _ _ _ λ _.
        transaction-Ends _ _ _ (λ x run. (u, e, z, create_dict_body-DictCreated u p _ run))
          (λ row. pure-IsQuiet row.id)

  update_dict-Ends :
      (p : DictParam) (w : World)
      → Ends (By ctx (λ u. DictUpdated env u p w.replica w.primary)) (Dict.update_dict env ctx p) w
  unfolding Dict.update_dict
  update_dict-Ends p w = context-Ends ctx _ w λ u e z. refuse_if-Ends _ _ _ _ λ _.
      read-Ends _ _ _ _ λ old fs found. read-Ends _ _ _ _ λ a fs' _. refuse_if-Ends a _ _ _ λ _.
        transaction-Ends _ _ _
          (λ x run. (u, e, z, update_dict_body-DictUpdated u env p old w.replica _ found run))
          (λ _. drop_renamed-IsQuiet _ _ _ (pure-IsQuiet p.id))

  delete_dict-Ends :
      (id : ℕ) (w : World)
      → Ends (By ctx (λ u. DictDeleted u id w.replica w.primary)) (Dict.delete_by_id ctx id) w
  unfolding Dict.delete_by_id
  delete_dict-Ends id w = context-Ends ctx _ w λ u e z. refuse_if-Ends _ _ _ _ λ _.
      read-Ends _ _ _ _ λ old fs found.
        transaction-Ends _ _ _
          (λ x run. (u, e, z, delete_dict_body-DictDeleted u id old w.replica _ found run))
          (λ _. cache_delete-IsQuiet _ _ (pure-IsQuiet tt))

  create_item-Ends :
      (p : DictItemParam) (w : World)
      → Ends (By ctx (λ u. ItemCreated u p w.replica w.primary)) (Dict.create_item ctx p) w
  unfolding Dict.create_item
  create_item-Ends p w = context-Ends ctx _ w λ u e z. read-Ends _ _ _ _ λ row fs found.
      read-Ends _ _ _ _ λ a fs' _. refuse_if-Ends a _ _ _ λ _.
        transaction-Ends _ _ _
          (λ x run. (u, e, z, create_item_body-ItemCreated u p row w.replica _ found run))
          (λ item. cache_delete-IsQuiet _ _ (pure-IsQuiet item.id))

  update_item-Ends :
      (p : DictItemParam) (w : World)
      → Ends (By ctx (λ u. ItemUpdated env u p w.replica w.primary)) (Dict.update_item env ctx p) w
  unfolding Dict.update_item
  update_item-Ends p w = context-Ends ctx _ w λ u e z. refuse_if-Ends _ _ _ _ λ _.
      read-Ends _ _ _ _ λ old fs found. read-Ends _ _ _ _ λ a fs' _. refuse_if-Ends a _ _ _ λ _.
        transaction-Ends _ _ _
          (λ x run. (u, e, z, update_item_body-ItemUpdated u env p old w.replica _ found run))
          (λ _. cache_delete-IsQuiet _ _ (pure-IsQuiet p.id))

  delete_item-Ends :
      (id : ℕ) (w : World)
      → Ends (By ctx (λ u. ItemDeleted u id w.replica w.primary)) (Dict.delete_item_by_id ctx id) w
  unfolding Dict.delete_item_by_id
  delete_item-Ends id w = context-Ends ctx _ w λ u e z. refuse_if-Ends _ _ _ _ λ _.
      read-Ends _ _ _ _ λ old fs found.
        transaction-Ends _ _ _
          (λ x run. (u, e, z, delete_item_body-ItemDeleted u id old w.replica _ found run))
          (λ _. cache_delete-IsQuiet _ _ (pure-IsQuiet tt))

  handle_dict-Ends :
      (r : DictRequest) (w : World)
      → Ends (By ctx (λ u. DictChange env r u w.replica w.primary)) (handle_dict env ctx r) w
  unfolding handle_dict
  handle_dict-Ends (create_dict p) w = map-Ends _ tt w (create_dict-Ends p w)
  handle_dict-Ends (update_dict p) w = map-Ends _ tt w (update_dict-Ends p w)
  handle_dict-Ends (delete_dict id) w = delete_dict-Ends id w
  handle_dict-Ends (create_item p) w = map-Ends _ tt w (create_item-Ends p w)
  handle_dict-Ends (update_item p) w = map-Ends _ tt w (update_item-Ends p w)
  handle_dict-Ends (delete_item id) w = delete_item-Ends id w

  -- A request to the dictionary service that fails, at whatever step and for whatever reason,
  -- leaves the tables of the write node exactly as they were.
  pub handle_dict-is_atomic :
      (r : DictRequest) (w : World) {e : Error}
      → (handle_dict env ctx r w).0 ≡ err e
      → (handle_dict env ctx r w).1.primary ≡ w.primary
  handle_dict-is_atomic r w h =
      subst
        (λ res.
          Outcome (By ctx (λ u. DictChange env r u w.replica w.primary)) w.primary res
            (handle_dict env ctx r w).1)
        h (handle_dict-Ends r w).outcome

  -- A request to the dictionary service that succeeds was sent by a user of a positive id, and
  -- takes the tables of the write node to ones that its specification allows for that user, given
  -- the old row that the replica has.
  pub handle_dict-refines :
      (r : DictRequest) (w : World)
      → (handle_dict env ctx r w).0 ≡ ok tt
      → By ctx (λ u. DictChange env r u w.replica w.primary) (handle_dict env ctx r w).1.primary
  handle_dict-refines r w h =
      subst
        (λ res.
          Outcome (By ctx (λ u. DictChange env r u w.replica w.primary)) w.primary res
            (handle_dict env ctx r w).1)
        h (handle_dict-Ends r w).outcome
