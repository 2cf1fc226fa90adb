-- ===== src/System/Dict/Consistency/Items.antt =====
-- What the statements do to the rows of the items.
use snowgo.Prelude.{
  ℕ, ◌≡◌, refl, sym, Bool, true, false, ◌==◌, List, [], ◌∷◌, any, map, filter, contains, All,
  Distinct, arith, String, if◌then◌else◌,
}
use snowgo.Xerror.{ok}
use snowgo.Extern.{Env}
use snowgo.Dal.Model.{SysDictItem}
use snowgo.Dao.Dict.{saved_dict_items, recoded_items, recoded}
use snowgo.System.Dict.Consistency.{item_ids}
use snowgo.Account.Consistency.Ids.{kept}

filter-keeps_missing :
    (id : ℕ) (q : SysDictItem → Bool) (rows : List SysDictItem)
    → contains (item_ids rows) id ≡ false
    → contains (item_ids (filter q rows)) id ≡ false
filter-keeps_missing id q [] h = refl
filter-keeps_missing id q (r ∷ rs) h = grind (arith, filter-keeps_missing id q rs)

pub filter-keeps_Distinct :
    (q : SysDictItem → Bool) (rows : List SysDictItem)
    → Distinct (item_ids rows)
    → Distinct (item_ids (filter q rows))
filter-keeps_Distinct q [] h = tt
filter-keeps_Distinct q (r ∷ rs) h =
    grind (arith, filter-keeps_Distinct q rs h.1, filter-keeps_missing r.id q rs h.0)

-- UPDATE of the items' code.
pub recoded_items-recoded :
    (id : ℕ) (code : String) (rows rows' : List SysDictItem)
    → recoded_items id code rows ≡ ok rows'
    → rows' ≡ recoded id code rows
unfolding recoded_items
recoded_items-recoded id code rows rows' h = ground arith

pub recoded-keeps_ids :
    (id : ℕ) (code : String) (rows : List SysDictItem)
    → item_ids (recoded id code rows) ≡ item_ids rows
recoded-keeps_ids id code [] = refl
recoded-keeps_ids id code (r ∷ rs) = ground (arith, recoded-keeps_ids id code rs)

abbrev pub replaced_item : SysDictItem → List SysDictItem → List SysDictItem
replaced_item item rows = map (λ r. if r.id == item.id then item else r) rows

pub saved_dict_items-there :
    (env : Env) (item : SysDictItem) (rows rows' : List SysDictItem)
    → any (λ r. r.id == item.id) rows ≡ true
    → saved_dict_items env item rows ≡ ok rows'
    → rows' ≡ replaced_item item rows
unfolding saved_dict_items
saved_dict_items-there env item rows rows' there h = ground arith

pub replaced_item-keeps_ids :
    (item : SysDictItem) (rows : List SysDictItem)
    → item_ids (replaced_item item rows) ≡ item_ids rows
replaced_item-keeps_ids item rows =
    kept (λ r. r.id) item.id (λ _. item) rows (replaced_item item rows) (λ r e. sym e) refl

pub replaced_item-All :
    (P : SysDictItem → Type 0) (item : SysDictItem) (rows : List SysDictItem)
    → P item
    → All P rows
    → All P (replaced_item item rows)
replaced_item-All P item [] h k = tt
replaced_item-All P item (r ∷ rs) h k = (
  elim (r.id == item.id) as (λ b. P (if b then item else r)) [ true ↦ h | false ↦ k.0 ],
  replaced_item-All P item rs h k.1,
)
