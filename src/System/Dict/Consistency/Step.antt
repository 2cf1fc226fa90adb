-- ===== src/System/Dict/Consistency/Step.antt =====
-- Items that name a dictionary with its code, after a dictionary has changed.
use snowgo.Prelude.{
  ℕ, ◌≡◌, ◌∙◌, true, false, not, ◌==◌, ==-false, ==_iff, List, [], ◌∷◌, filter, Distinct,
  All-weaken, All-map, arith, str_eq, eq_iff, if◌then◌else◌,
}
use snowgo.Xerror.{ok}
use snowgo.Dal.Model.{SysDict, SysDictItem}
use snowgo.Dao.Role.{first}
use snowgo.Dao.Dict.{recoded}
use snowgo.System.Dict.Consistency.{has_dict, AreInStep, dict_ids}
use snowgo.System.Dict.Consistency.Rows.{
  first-code, replaced, replaced-has, replaced-others, filter-has,
}

-- An item of another dictionary, after the Save.
step_others :
    (dict : SysDict) (rows : List SysDict) (i : SysDictItem)
    → (i.dict_id == dict.id) ≡ false
    → has_dict rows i.dict_id i.dict_code ≡ true
    → has_dict (replaced dict rows) i.dict_id i.dict_code ≡ true
step_others dict rows i n h = replaced-others dict rows i.dict_id i.dict_code (==-false _ _ n) ∙ h

pub recoded-AreInStep :
    (dict old : SysDict) (rows : List SysDict) (items : List SysDictItem)
    → first (λ y. y.id == dict.id) rows ≡ ok old
    → AreInStep rows items
    → AreInStep (replaced dict rows) (recoded dict.id dict.code items)
recoded-AreInStep dict old rows items f h =
    All-map (λ i. has_dict (replaced dict rows) i.dict_id i.dict_code ≡ true)
      (λ r. if r.dict_id == dict.id then record r { dict_code = dict.code } else r) items
      (All-weaken (λ i. has_dict rows i.dict_id i.dict_code ≡ true) _ items
        (λ i k.
          grind (
            arith,
            replaced-has dict rows old f,
            step_others dict rows i,
            ==_iff i.dict_id dict.id,
          ))
        h)

pub kept-AreInStep :
    (dict old : SysDict) (rows : List SysDict) (items : List SysDictItem)
    → first (λ y. y.id == dict.id) rows ≡ ok old
    → Distinct (dict_ids rows)
    → str_eq old.code dict.code ≡ true
    → AreInStep rows items
    → AreInStep (replaced dict rows) items
kept-AreInStep dict old rows items f n e h =
    All-weaken (λ i. has_dict rows i.dict_id i.dict_code ≡ true) _ items
      (λ i k. grind (
        arith,
        replaced-has dict rows old f,
        step_others dict rows i,
        ==_iff i.dict_id dict.id,
        first-code dict.id i.dict_code rows old n f,
        eq_iff old.code dict.code,
        eq_iff old.code i.dict_code,
      ))
      h

pub deleted-AreInStep :
    (id : ℕ) (rows : List SysDict) (items : List SysDictItem)
    → AreInStep rows items
    → AreInStep (filter (λ x. not (x.id == id)) rows) (filter (λ i. not (i.dict_id == id)) items)
deleted-AreInStep id rows [] h = tt
deleted-AreInStep id rows (i ∷ is) h =
    let rest = deleted-AreInStep id rows is h.1 in
    grind (arith, filter-has id i.dict_id i.dict_code rows, ==-false i.dict_id id)
