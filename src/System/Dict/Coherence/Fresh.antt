-- ===== src/System/Dict/Coherence/Fresh.antt =====
-- The cached lists of items stay in step with the tables, when nothing fails.
use snowgo.Prelude.{
  ℕ, ◌≡◌, refl, sym, ap, subst, ◌∙◌, inl, inr, true, false, ◌==◌, List, map, some, arith, Option,
  String, str_eq, Bool-cases,
}
use snowgo.Xerror.{Result, ok, err}
use snowgo.Extern.{Env}
use snowgo.Dal.Tx.{Db}
use snowgo.Dao.Dict.{ordered}
use snowgo.Account.Types.{UserContext, ItemInfo, dict_items, items}
use snowgo.Account.Runtime.{Cache, without}
use snowgo.System.Dict.Types.{DictParam, DictItemParam}
use snowgo.System.Dict.Requests.{
  DictRequest, create_dict, update_dict, delete_dict, create_item, update_item, delete_item,
  handle_dict,
}
use snowgo.System.Dict.Changes.{
  DictUpdated, DictDeleted, ItemCreated, ItemUpdated, ItemDeleted, saved_item,
}
use snowgo.System.Dict.Handled.{DictChange, handle_dict-refines, handle_dict-is_atomic}
use snowgo.System.Dict.Consistency.{IsDictConsistent}
use snowgo.System.Dict.Consistency.Rows.{first-any, str_eq-sym, ok-injective}
use snowgo.System.Dict.Consistency.Items.{recoded_items-recoded, saved_dict_items-there}
use snowgo.System.Dict.Consistency.Preserved.{IsCurrent, found_dict, found_item}
use snowgo.System.Dict.{item_info}
use snowgo.System.Dict.Listing.{listing}
use snowgo.System.Dict.Calm.{still}
use snowgo.System.Dict.Coherence.{
  CacheAfter, Leaves, map-Leaves, Dropped, DroppedItem, DroppedBoth, create_dict-Leaves,
  update_dict-Leaves, delete_dict-Leaves, create_item-Leaves, update_item-Leaves,
  delete_item-Leaves,
}
use snowgo.System.Dict.Coherence.Kept.{
  coded, replaced_item-coded, deleted-coded, emptied-coded, recoded-coded,
}

-- Every list of items in the cache is the one that the tables have.
abbrev pub IsFresh : Cache → Db → Type 0
IsFresh c d =
    (code : String) (m : List ItemInfo) → c (dict_items code) ≡ some (items m) → m ≡ listing code d

-- The tables have the same items under the code.
abbrev Same : Db → Db → String → Type 0
Same d d' code = coded code d'.dict_items ≡ coded code d.dict_items

Same-listing : (d d' : Db) (code : String) → Same d d' code → listing code d ≡ listing code d'
Same-listing d d' code e = ap (λ rows. map item_info (ordered rows)) (sym e)

all-Same : (d d' : Db) (c : Cache) → ((code : String) → Same d d' code) → IsFresh c d → IsFresh c d'
all-Same d d' c e f code m h = f code m h ∙ Same-listing d d' code (e code)

-- The list under one code is dropped, and the others are the same.
others-Same :
    (d d' : Db) (c : Cache) (x : String)
    → ((code : String) → str_eq x code ≡ false → Same d d' code)
    → IsFresh c d
    → IsFresh (without (dict_items x) c) d'
others-Same d d' c x e f code m h = elim (Bool-cases (str_eq x code)) [
  | inl y ↦ absurd (grind (arith, str_eq-sym x code))
  | inr n ↦ f code m (grind (arith, str_eq-sym x code)) ∙ Same-listing d d' code (e code n)
]

-- The same with two codes.
others_both-Same :
    (d d' : Db) (c : Cache) (x y : String)
    → ((code : String) → str_eq x code ≡ false → str_eq y code ≡ false → Same d d' code)
    → IsFresh c d
    → IsFresh (without (dict_items y) (without (dict_items x) c)) d'
others_both-Same d d' c x y e f code m h = elim (Bool-cases (str_eq x code)) [
  | inl t ↦ absurd (grind (arith, str_eq-sym x code))
  | inr n ↦ elim (Bool-cases (str_eq y code)) [
    | inl t ↦ absurd (grind (arith, str_eq-sym y code))
    | inr n' ↦
        f code m (grind (arith, str_eq-sym x code, str_eq-sym y code))
        ∙ Same-listing d d' code (e code n n')
  ]
]

items_eq : {d d' : Db} → d ≡ d' → d.dict_items ≡ d'.dict_items
items_eq e = ap (λ d. d.dict_items) e

module _ (d r : Db) (c : Cache) (cur : IsCurrent r d) (k : IsDictConsistent d)
    (f : IsFresh c d) where
  -- The cache after a change that makes the tables `d'`.
  kept-IsFresh : (d' : Db) {c' : Cache} → c' ≡ c → d'.dict_items ≡ d.dict_items → IsFresh c' d'
  kept-IsFresh d' {c'} e s =
      subst (λ x. IsFresh x d') (sym e) (all-Same d d' c (λ code. ap (coded code) s) f)

  deleted-IsFresh :
      (u : UserContext) (id : ℕ) (d' : Db) {c' : Cache}
      → DictDeleted u id r d d'
      → Dropped r c id c'
      → IsFresh c' d'
  deleted-IsFresh u id d' ch (x, found, e) =
      subst (λ z. IsFresh z d') (sym e)
        (others-Same d d' c x.code
          (λ code n.
            ap (coded code) (items_eq ch.result)
            ∙ emptied-coded code id x d.dicts d.dict_items k.dicts.distinct
                (found_dict id x cur found) k.in_step n)
          f)

  created-IsFresh :
      (u : UserContext) (p : DictItemParam) (d' : Db) {c' : Cache}
      → ItemCreated u p r d d'
      → Dropped r c p.dict_id c'
      → IsFresh c' d'
  created-IsFresh u p d' ch (x, found, e) =
      let same = ok-injective ch.dict x (sym ch.found ∙ found) in
      subst (λ z. IsFresh z d') (sym e)
        (others-Same d d' c x.code
          (λ code n.
            ap (coded code) (items_eq ch.result)
            ∙ (let n' = subst (λ y. str_eq y.code code ≡ false) (sym same) n in ground arith))
          f)

  updated_item-IsFresh :
      (env : Env) (u : UserContext) (p : DictItemParam) (d' : Db) {c' : Cache}
      → ItemUpdated env u p r d d'
      → DroppedItem r c p.id c'
      → IsFresh c' d'
  updated_item-IsFresh env u p d' ch (x, found, e) =
      let there = found_item p.id ch.old cur ch.found in
      let item = saved_item ch.old p in
      let rows =
        saved_dict_items-there env item d.dict_items d'.dict_items
          (first-any (λ y. y.id == p.id) d.dict_items ch.old there).1 ch.saved in
      let same = ok-injective ch.old x (sym ch.found ∙ found) in
      subst (λ z. IsFresh z d') (sym (e ∙ ap (λ y. without (dict_items y.dict_code) c) (sym same)))
        (others-Same d d' c ch.old.dict_code
          (λ code n.
            ap (coded code) rows
            ∙ replaced_item-coded code item ch.old d.dict_items k.items.distinct there n n)
          f)

  deleted_item-IsFresh :
      (u : UserContext) (id : ℕ) (d' : Db) {c' : Cache}
      → ItemDeleted u id r d d'
      → DroppedItem r c id c'
      → IsFresh c' d'
  deleted_item-IsFresh u id d' ch (x, found, e) =
      subst (λ z. IsFresh z d') (sym e)
        (others-Same d d' c x.dict_code
          (λ code n.
            ap (coded code) (items_eq ch.result)
            ∙ deleted-coded code id x d.dict_items k.items.distinct (found_item id x cur found) n)
          f)

  updated-IsFresh :
      (env : Env) (u : UserContext) (p : DictParam) (d' : Db) {c' : Cache}
      → DictUpdated env u p r d d'
      → DroppedBoth r c p c'
      → IsFresh c' d'
  updated-IsFresh env u p d' {c'} ch (x, found, after) =
      let same = ok-injective ch.old x (sym ch.found ∙ found) in
      elim ch.recoded [
        | inl s ↦ elim after [
          | inl a ↦ kept-IsFresh d' a.1 s.1
          | inr a ↦
              subst (λ z. IsFresh z d') (sym a.1)
                (others_both-Same d d' c x.code p.code (λ code _ _. ap (coded code) s.1) f)
        ]
        | inr s ↦ elim after [
          | inl a ↦
              let t = subst (λ y. str_eq y.code p.code ≡ true) (sym same) a.0 in
              let n = s.0 in absurd cc
          | inr a ↦
              subst (λ z. IsFresh z d') (sym a.1)
                (others_both-Same d d' c x.code p.code
                  (λ code n n'.
                    ap (coded code)
                      (recoded_items-recoded p.id p.code d.dict_items d'.dict_items s.1)
                    ∙ recoded-coded code p.code p.id x d.dicts d.dict_items k.dicts.distinct
                        (found_dict p.id x cur found) k.in_step n n')
                  f)
        ]
      ]

module _ (env : Env) (ctx : Option UserContext) (d r : Db) (c : Cache) where
  -- What a request leaves in the cache.
  abbrev Dropping : DictRequest → Cache → Type 0
  Dropping (create_dict p) c' = c' ≡ c
  Dropping (update_dict p) c' = DroppedBoth r c p c'
  Dropping (delete_dict id) c' = Dropped r c id c'
  Dropping (create_item p) c' = Dropped r c p.dict_id c'
  Dropping (update_item p) c' = DroppedItem r c p.id c'
  Dropping (delete_item id) c' = DroppedItem r c id c'

  handle_dict-Leaves : (q : DictRequest) → Leaves (Dropping q) (handle_dict env ctx q) (still d r c)
  unfolding handle_dict
  handle_dict-Leaves (create_dict p) = map-Leaves _ tt _ (create_dict-Leaves ctx d r c p)
  handle_dict-Leaves (update_dict p) = map-Leaves _ tt _ (update_dict-Leaves ctx d r c env p)
  handle_dict-Leaves (delete_dict id) = delete_dict-Leaves ctx d r c id
  handle_dict-Leaves (create_item p) = map-Leaves _ tt _ (create_item-Leaves ctx d r c p)
  handle_dict-Leaves (update_item p) = map-Leaves _ tt _ (update_item-Leaves ctx d r c env p)
  handle_dict-Leaves (delete_item id) = delete_item-Leaves ctx d r c id

  change-IsFresh :
      (q : DictRequest) (u : UserContext) (d' : Db) (c' : Cache)
      → IsCurrent r d
      → IsDictConsistent d
      → IsFresh c d
      → DictChange env q u r d d'
      → Dropping q c'
      → IsFresh c' d'
  change-IsFresh (create_dict p) u d' c' cur k f ch e =
      kept-IsFresh d r c cur k f d' e (items_eq ch.result)
  change-IsFresh (update_dict p) u d' c' cur k f ch e =
      updated-IsFresh d r c cur k f env u p d' ch e
  change-IsFresh (delete_dict id) u d' c' cur k f ch e = deleted-IsFresh d r c cur k f u id d' ch e
  change-IsFresh (create_item p) u d' c' cur k f ch e = created-IsFresh d r c cur k f u p d' ch e
  change-IsFresh (update_item p) u d' c' cur k f ch e =
      updated_item-IsFresh d r c cur k f env u p d' ch e
  change-IsFresh (delete_item id) u d' c' cur k f ch e =
      deleted_item-IsFresh d r c cur k f u id d' ch e

  -- When nothing fails outside the tables, the replica has caught up with consistent dictionary
  -- tables and every cached list of items is the one that the tables have, so it is after any
  -- request to the dictionary service, whether it succeeds or is refused: no stale list is left.
  pub handle_dict-IsFresh :
      (q : DictRequest)
      → IsCurrent r d
      → IsDictConsistent d
      → IsFresh c d
      → IsFresh
          (handle_dict env ctx q (still d r c)).1.cache
          (handle_dict env ctx q (still d r c)).1.primary
  handle_dict-IsFresh q cur k f =
      by_result (handle_dict env ctx q (still d r c)).0 refl (handle_dict-Leaves q).cache
    where
      by_result :
          (x : Result (Unit {0}))
          → (handle_dict env ctx q (still d r c)).0 ≡ x
          → CacheAfter (Dropping q) c x (handle_dict env ctx q (still d r c)).1
          → IsFresh
              (handle_dict env ctx q (still d r c)).1.cache
              (handle_dict env ctx q (still d r c)).1.primary
      by_result (err e) h l =
          let same = handle_dict-is_atomic env ctx q (still d r c) h in
          subst (λ y. IsFresh y (handle_dict env ctx q (still d r c)).1.primary) (sym l)
            (subst (IsFresh c) (sym same) f)
      by_result (ok tt) h l =
          let (u, e, z, ch) = handle_dict-refines env ctx q (still d r c) h in
          change-IsFresh q u (handle_dict env ctx q (still d r c)).1.primary
            (handle_dict env ctx q (still d r c)).1.cache cur k f ch l
