-- ===== src/System/Dict/Consistency/Preserved.antt =====
-- Every change of the dictionary service keeps its tables consistent, where the replica is current.
use snowgo.Prelude.{
  ℕ, ◌≡◌, inl, inr, sym, ◌∙◌, subst, ap, true, ◌==◌, ◌∷◌, All-weaken, All-filter, All-keys-filter,
  ◌<◌, arith,
}
use snowgo.Xerror.{ok}
use snowgo.Extern.{Env}
use snowgo.Dal.Model.{SysDict, SysDictItem}
use snowgo.Dal.Tx.{Db}
use snowgo.Dao.Role.{first}
use snowgo.Dao.Dict.{get_dict_by_id, get_dict_item_by_id}
use snowgo.Account.Types.{UserContext}
use snowgo.Account.Consistency.{AreIds, AreIds-new, AreIds-filter}
use snowgo.System.Dict.Types.{DictParam, DictItemParam}
use snowgo.System.Dict.Tx.{dict_row}
use snowgo.System.Dict.Requests.{
  DictRequest, create_dict, update_dict, delete_dict, create_item, update_item, delete_item,
}
use snowgo.System.Dict.Handled.{DictChange}
use snowgo.System.Dict.Changes.{
  DictCreated, DictUpdated, DictDeleted, ItemCreated, ItemUpdated, ItemDeleted, saved_item,
}
use snowgo.System.Dict.Consistency.{
  has_dict, AreInStep, AreCodesDistinct, dict_ids, item_ids, IsDictConsistent,
}
use snowgo.System.Dict.Consistency.Rows.{
  first-any, first-All, first-has_dict, replaced, saved_dicts-there, replaced-AreCodesDistinct,
  filter-AreCodesDistinct, replaced-keeps_ids,
}
use snowgo.System.Dict.Consistency.Items.{
  recoded_items-recoded, recoded-keeps_ids, saved_dict_items-there, replaced_item-keeps_ids,
  replaced_item-All, filter-keeps_Distinct,
}
use snowgo.System.Dict.Consistency.Step.{recoded-AreInStep, kept-AreInStep, deleted-AreInStep}

-- The replica has the dictionary tables of the write node.
pub record IsCurrent (r d : Db) : Type 0 where
  pub same_dicts : r.dicts ≡ d.dicts
  pub same_items : r.dict_items ≡ d.dict_items

pub found_dict :
    {r d : Db} (id : ℕ) (x : SysDict)
    → IsCurrent r d
    → get_dict_by_id id r ≡ ok x
    → first (λ y. y.id == id) d.dicts ≡ ok x
unfolding get_dict_by_id
found_dict {r} {d} id x c h =
    subst (λ rows. first (λ y. y.id == id) rows ≡ ok x) c.same_dicts (ground arith)

pub found_item :
    {r d : Db} (id : ℕ) (x : SysDictItem)
    → IsCurrent r d
    → get_dict_item_by_id id r ≡ ok x
    → first (λ y. y.id == id) d.dict_items ≡ ok x
unfolding get_dict_item_by_id
found_item {r} {d} id x c h =
    subst (λ rows. first (λ y. y.id == id) rows ≡ ok x) c.same_items (ground arith)

DictCreated-IsDictConsistent :
    (u : UserContext) (p : DictParam) (d d' : Db)
    → IsDictConsistent d
    → DictCreated u p d d'
    → IsDictConsistent d'
DictCreated-IsDictConsistent u p d d' k c = subst IsDictConsistent (sym c.result) (record {
  dicts = AreIds-new d.next_dict (dict_ids d.dicts) k.dicts;
  items = k.items;
  codes = (c.code_free, k.codes);
  in_step =
      All-weaken (λ i. has_dict d.dicts i.dict_id i.dict_code ≡ true)
        (λ i. has_dict (dict_row d.next_dict p ∷ d.dicts) i.dict_id i.dict_code ≡ true) d.dict_items
        (λ i h. ground arith) k.in_step;
})

DictUpdated-IsDictConsistent :
    (env : Env) (u : UserContext) (p : DictParam) (r d d' : Db)
    → IsCurrent r d
    → IsDictConsistent d
    → DictUpdated env u p r d d'
    → IsDictConsistent d'
DictUpdated-IsDictConsistent env u p r d d' cur k c =
    let f = found_dict p.id c.old cur c.found in
    let (rows, free) = saved_dicts-there env (dict_row p.id p) d.dicts d'.dicts c.old f c.saved in
    subst IsDictConsistent (sym c.result) (record {
      dicts =
          subst (AreIds d.next_dict)
            (sym (ap dict_ids rows ∙ replaced-keeps_ids (dict_row p.id p) d.dicts)) k.dicts;
      items = elim c.recoded [
        | inl q ↦ subst (λ is. AreIds d.next_dict_item (item_ids is)) (sym q.1) k.items
        | inr q ↦
            subst (AreIds d.next_dict_item)
              (sym (
                ap item_ids (recoded_items-recoded p.id p.code d.dict_items d'.dict_items q.1)
                ∙ recoded-keeps_ids p.id p.code d.dict_items))
              k.items
      ];
      codes =
          subst AreCodesDistinct (sym rows)
            (replaced-AreCodesDistinct (dict_row p.id p) d.dicts k.dicts.distinct free k.codes);
      in_step =
          subst (λ ds. AreInStep ds d'.dict_items) (sym rows)
            (elim c.recoded [
              | inl q ↦ subst (AreInStep (replaced (dict_row p.id p) d.dicts)) (sym q.1) (
                  kept-AreInStep (dict_row p.id p) c.old d.dicts d.dict_items f k.dicts.distinct q.0
                    k.in_step)
              | inr q ↦
                  subst (AreInStep (replaced (dict_row p.id p) d.dicts))
                    (sym (recoded_items-recoded p.id p.code d.dict_items d'.dict_items q.1))
                    (recoded-AreInStep (dict_row p.id p) c.old d.dicts d.dict_items f k.in_step)
            ]);
    })

DictDeleted-IsDictConsistent :
    (u : UserContext) (id : ℕ) (r d d' : Db)
    → IsDictConsistent d
    → DictDeleted u id r d d'
    → IsDictConsistent d'
DictDeleted-IsDictConsistent u id r d d' k c = subst IsDictConsistent (sym c.result) (record {
  dicts = AreIds-filter (λ x. x.id) d.next_dict id d.dicts k.dicts;
  items = record {
    distinct = filter-keeps_Distinct _ d.dict_items k.items.distinct;
    below = All-keys-filter (λ i. i.id) (λ i. i < d.next_dict_item) _ d.dict_items k.items.below;
  };
  codes = filter-AreCodesDistinct _ d.dicts k.codes;
  in_step = deleted-AreInStep id d.dicts d.dict_items k.in_step;
})

ItemCreated-IsDictConsistent :
    (u : UserContext) (p : DictItemParam) (r d d' : Db)
    → IsCurrent r d
    → IsDictConsistent d
    → ItemCreated u p r d d'
    → IsDictConsistent d'
ItemCreated-IsDictConsistent u p r d d' cur k c = subst IsDictConsistent (sym c.result) (record {
  dicts = k.dicts;
  items = AreIds-new d.next_dict_item (item_ids d.dict_items) k.items;
  codes = k.codes;
  in_step = (
    (first-has_dict p.dict_id d.dicts c.dict (found_dict p.dict_id c.dict cur c.found)).1,
    k.in_step,
  );
})

ItemUpdated-IsDictConsistent :
    (env : Env) (u : UserContext) (p : DictItemParam) (r d d' : Db)
    → IsCurrent r d
    → IsDictConsistent d
    → ItemUpdated env u p r d d'
    → IsDictConsistent d'
ItemUpdated-IsDictConsistent env u p r d d' cur k c =
    let f = found_item p.id c.old cur c.found in
    let item = saved_item c.old p in
    let rows =
      saved_dict_items-there env item d.dict_items d'.dict_items
        (first-any (λ y. y.id == p.id) d.dict_items c.old f).1 c.saved in
    subst IsDictConsistent (sym c.result) (record {
      dicts = k.dicts;
      items =
          subst (AreIds d.next_dict_item)
            (sym (ap item_ids rows ∙ replaced_item-keeps_ids item d.dict_items)) k.items;
      codes = k.codes;
      in_step = subst (AreInStep d.dicts) (sym rows) (
          replaced_item-All (λ i. has_dict d.dicts i.dict_id i.dict_code ≡ true) item d.dict_items
            (first-All (λ i. has_dict d.dicts i.dict_id i.dict_code ≡ true) _ d.dict_items c.old f
              k.in_step)
            k.in_step);
    })

ItemDeleted-IsDictConsistent :
    (u : UserContext) (id : ℕ) (r d d' : Db)
    → IsDictConsistent d
    → ItemDeleted u id r d d'
    → IsDictConsistent d'
ItemDeleted-IsDictConsistent u id r d d' k c = subst IsDictConsistent (sym c.result) (record {
  dicts = k.dicts;
  items = AreIds-filter (λ i. i.id) d.next_dict_item id d.dict_items k.items;
  codes = k.codes;
  in_step =
      All-filter (λ i. has_dict d.dicts i.dict_id i.dict_code ≡ true) _ d.dict_items k.in_step;
})

-- Every change keeps the dictionary tables consistent, where the replica is current.
pub DictChange-IsDictConsistent :
    (env : Env) (q : DictRequest) (u : UserContext) (r d d' : Db)
    → IsCurrent r d
    → IsDictConsistent d
    → DictChange env q u r d d'
    → IsDictConsistent d'
DictChange-IsDictConsistent env (create_dict p) u r d d' cur k c =
    DictCreated-IsDictConsistent u p d d' k c
DictChange-IsDictConsistent env (update_dict p) u r d d' cur k c =
    DictUpdated-IsDictConsistent env u p r d d' cur k c
DictChange-IsDictConsistent env (delete_dict id) u r d d' cur k c =
    DictDeleted-IsDictConsistent u id r d d' k c
DictChange-IsDictConsistent env (create_item p) u r d d' cur k c =
    ItemCreated-IsDictConsistent u p r d d' cur k c
DictChange-IsDictConsistent env (update_item p) u r d d' cur k c =
    ItemUpdated-IsDictConsistent env u p r d d' cur k c
DictChange-IsDictConsistent env (delete_item id) u r d d' cur k c =
    ItemDeleted-IsDictConsistent u id r d d' k c
