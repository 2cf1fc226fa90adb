-- ===== src/System/Dict/Listing.antt =====
-- GetItemListByCode: what it gives, and in which order.
use snowgo.Prelude.{
  ◌≡◌, ◌∙◌, ◌<◌, ◌≤◌, ◌⊎◌, refl, sym, subst, Bool, true, false, List, [], ◌∷◌, map, filter,
  count_if, Option, none, some, arith, String, str_eq, All, if◌then◌else◌,
}
use snowgo.Xerror.{ok, err, Result, wrapped}
use snowgo.Dal.Model.{SysDictItem}
use snowgo.Dal.Tx.{Db}
use snowgo.Dao.Dict as DictDao
use snowgo.Dao.Dict.{comes_before, insert_ordered, ordered}
use snowgo.Account.Types.{ItemInfo, CacheKey, CacheValue, dict_items, items}
use snowgo.Account.Runtime.{
  World, pure, ◌>>=◌, ◌>>◌, bind_result, next_fault_cases, refuse_if-eq-ok, on_error, read,
  cache_get, cache_set,
}
use snowgo.System.Dict.Consistency.Rows.{ok-injective}
use snowgo.System.Dict.{cached_items, or_load, item_info, load_items, get_item_list_by_code}

-- The dictionary's items in the table.
abbrev pub items_of : String → Db → List SysDictItem
items_of code d = filter (λ r. str_eq r.dict_code code) d.dict_items

abbrev pub listing : String → Db → List ItemInfo
listing code d = map item_info (ordered (items_of code d))

-- By sort_order, and by id where that is the same.
abbrev pub Precedes : ItemInfo → ItemInfo → Type 0
Precedes a b = (a.sort_order < b.sort_order) ⊎ ((a.sort_order ≡ b.sort_order) × (a.id ≤ b.id))

abbrev pub IsOrdered : List ItemInfo → Type 0
IsOrdered [] = Unit
IsOrdered (a ∷ rest) = All (Precedes a) rest × IsOrdered rest

-- A list of the dictionary's items: each of them as often as in the table, in order.
pub record IsListing (code : String) (d : Db) (m : List ItemInfo) : Type 0 where
  pub in_order : IsOrdered m
  pub complete :
      (p : ItemInfo → Bool) → count_if p m ≡ count_if (λ r. p (item_info r)) (items_of code d)

comes_before-Precedes :
    (a b : SysDictItem) → comes_before a b ≡ true → Precedes (item_info a) (item_info b)
comes_before-Precedes a b h = ground arith

not_before-Precedes :
    (a b : SysDictItem) → comes_before a b ≡ false → Precedes (item_info b) (item_info a)
not_before-Precedes a b h = ground arith

Precedes-trans : (a b c : ItemInfo) → Precedes a b → Precedes b c → Precedes a c
Precedes-trans a b c h k = ground arith

All-Precedes :
    (a b : ItemInfo) (xs : List ItemInfo) → Precedes a b → All (Precedes b) xs → All (Precedes a) xs
All-Precedes a b [] h k = tt
All-Precedes a b (x ∷ xs) h k = (Precedes-trans a b x h k.0, All-Precedes a b xs h k.1)

insert_ordered-All :
    (P : ItemInfo → Type 0) (a : SysDictItem) (rs : List SysDictItem)
    → P (item_info a)
    → All P (map item_info rs)
    → All P (map item_info (insert_ordered a rs))
insert_ordered-All P a [] h k = (h, tt)
insert_ordered-All P a (b ∷ bs) h k =
    elim (comes_before a b)
      as (λ t. All P (map item_info (if t then a ∷ b ∷ bs else b ∷ insert_ordered a bs))) [
        | true ↦ (h, k)
        | false ↦ (k.0, insert_ordered-All P a bs h k.1)
      ]

insert_ordered-IsOrdered :
    (a : SysDictItem) (rs : List SysDictItem)
    → IsOrdered (map item_info rs)
    → IsOrdered (map item_info (insert_ordered a rs))
insert_ordered-IsOrdered a [] h = (tt, tt)
insert_ordered-IsOrdered a (b ∷ bs) h =
    by_test (comes_before a b) refl (insert_ordered-IsOrdered a bs h.1)
  where
    by_test :
        (t : Bool)
        → comes_before a b ≡ t
        → IsOrdered (map item_info (insert_ordered a bs))
        → IsOrdered (map item_info (if t then a ∷ b ∷ bs else b ∷ insert_ordered a bs))
    by_test true e rest =
        let first = comes_before-Precedes a b e in
        ((first, All-Precedes (item_info a) (item_info b) (map item_info bs) first h.0), h)
    by_test false e rest =
        (insert_ordered-All (Precedes (item_info b)) a bs (not_before-Precedes a b e) h.0, rest)

ordered-IsOrdered : (rs : List SysDictItem) → IsOrdered (map item_info (ordered rs))
ordered-IsOrdered [] = tt
ordered-IsOrdered (r ∷ rs) = insert_ordered-IsOrdered r (ordered rs) (ordered-IsOrdered rs)

insert_ordered-count :
    (p : ItemInfo → Bool) (a : SysDictItem) (rs : List SysDictItem)
    → count_if p (map item_info (insert_ordered a rs)) ≡ count_if p (map item_info (a ∷ rs))
insert_ordered-count p a [] = refl
insert_ordered-count p a (b ∷ bs) = grind (arith, insert_ordered-count p a bs)

ordered-count :
    (p : ItemInfo → Bool) (rs : List SysDictItem)
    → count_if p (map item_info (ordered rs)) ≡ count_if (λ r. p (item_info r)) rs
ordered-count p [] = refl
ordered-count p (r ∷ rs) = grind (arith, insert_ordered-count p r (ordered rs), ordered-count p rs)

pub listing-IsListing : (code : String) (d : Db) → IsListing code d (listing code d)
listing-IsListing code d = record {
  in_order = ordered-IsOrdered (items_of code d);
  complete = λ p. ordered-count p (items_of code d);
}

-- What the cache has for the dictionary, if it has a list, is what these tables have.
abbrev pub AgreesOn : String → World → Db → Type 0
AgreesOn code w d =
    (m : List ItemInfo) → w.cache (dict_items code) ≡ some (items m) → m ≡ listing code d

stored_items :
    (code : String) (d : Db) {rows : List SysDictItem}
    → DictDao.get_item_list_by_dict_code code d ≡ ok rows
    → rows ≡ ordered (items_of code d)
unfolding DictDao.get_item_list_by_dict_code
stored_items code d h = ground arith

-- Storing the list does not change what is given.
kept_list :
    (key : CacheKey) (value : CacheValue) (m : List ItemInfo) (w : World)
    → ((cache_set key value >> pure m) w).0 ≡ ok m
unfolding ◌>>=◌ pure cache_set
kept_list key value m w = ground arith

read_items :
    (code : String) (w : World) {rows : List SysDictItem}
    → (on_error (read (DictDao.get_item_list_by_dict_code code)) (wrapped "系统字典枚举列表查询失败") w).0
      ≡ ok rows
    → DictDao.get_item_list_by_dict_code code w.replica ≡ ok rows
unfolding on_error read
read_items code w h = ground arith

load_items-listing :
    (code : String) (w : World) {m : List ItemInfo}
    → (load_items code w).0 ≡ ok m
    → m ≡ listing code w.replica
unfolding load_items ◌>>=◌
load_items-listing code w h =
    grind (arith, read_items code w, stored_items code w.replica, kept_list)

or_load-listing :
    (code : String) (o : Option (List ItemInfo)) (w : World) {m : List ItemInfo}
    → ((x : List ItemInfo) → o ≡ some x → x ≡ listing code w.replica)
    → (or_load code o w).0 ≡ ok m
    → m ≡ listing code w.replica
unfolding pure
or_load-listing code (some x) w agrees h = sym (ok-injective x _ h) ∙ agrees x refl
or_load-listing code none w agrees h = load_items-listing code w h

cached_items-AgreesOn :
    (code : String) (w : World) (x : List ItemInfo)
    → AgreesOn code w w.replica
    → cached_items (ok (w.cache (dict_items code))) ≡ some x
    → x ≡ listing code w.replica
cached_items-AgreesOn code w x agrees h = agrees x (ground arith)

from_cache :
    (code : String) (w : World) {m : List ItemInfo}
    → AgreesOn code w w.replica
    → ((cache_get (dict_items code) >>= λ d. or_load code (cached_items d)) w).0 ≡ ok m
    → m ≡ listing code w.replica
unfolding ◌>>=◌ cache_get
from_cache code w {m} agrees =
    next_fault_cases {A = Result (Result (Option CacheValue)) × World}
      (λ r.
        (bind_result r.0 r.1 (λ d. or_load code (cached_items d))).0 ≡ ok m
        → m ≡ listing code w.replica)
      (λ fs. (ok (ok (w.cache (dict_items code))), record w { faults = fs }))
      (λ e fs. (ok (err e), record w { faults = fs })) w.faults
      (λ fs.
        or_load-listing code _ (record w { faults = fs })
          (λ x e. cached_items-AgreesOn code w x agrees e))
      (λ e fs. or_load-listing code none (record w { faults = fs }) (λ x e. absurd cc))

get_item_list-listing :
    (code : String) (w : World) {m : List ItemInfo}
    → AgreesOn code w w.replica
    → (get_item_list_by_code code w).0 ≡ ok m
    → m ≡ listing code w.replica
unfolding get_item_list_by_code
get_item_list-listing code w agrees h = from_cache code w agrees (refuse_if-eq-ok _ _ _ w h).1

-- Where the cache agrees with the replica on a dictionary, GetItemListByCode gives exactly the
-- items that the replica has under the code, each as often as there, by sort_order and then by id,
-- whenever it succeeds: whether the cache answers, is empty, holds something else or fails.
pub get_item_list-IsListing :
    (code : String) (w : World) {m : List ItemInfo}
    → AgreesOn code w w.replica
    → (get_item_list_by_code code w).0 ≡ ok m
    → IsListing code w.replica m
get_item_list-IsListing code w agrees h =
    subst (IsListing code w.replica) (sym (get_item_list-listing code w agrees h))
      (listing-IsListing code w.replica)
