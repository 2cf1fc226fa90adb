-- ===== src/System/Dict/Consistency/Rows.antt =====
-- What the statements do to the rows of the dictionary tables.
use snowgo.Prelude.{
  ℕ, ◌≡◌, ◌≢◌, refl, sym, Bool, true, false, not, ◌&&◌, ◌==◌, ==_iff, List, [], ◌∷◌, any, map,
  filter, find?, contains, All, none, some, subst, Distinct, arith, String, str_eq, eq_iff,
  if◌then◌else◌,
}
use snowgo.Xerror.{Result, ok, err, record_not_found}
use snowgo.Extern.{Env}
use snowgo.Dal.Model.{SysDict}
use snowgo.Dao.Role.{first}
use snowgo.Dao.Dict.{saved_dicts}
use snowgo.System.Dict.Consistency.{has_dict, AreCodesDistinct, dict_ids}
use snowgo.Account.Consistency.Ids.{kept}

pub str_eq_refl : (s : String) → str_eq s s ≡ true
str_eq_refl s = (eq_iff s s).1 refl

-- The row that a lookup finds passes the test, and is one of the rows.
pub first-any :
    {A : Type 0} (p : A → Bool) (rows : List A) (x : A)
    → first p rows ≡ ok x
    → (p x ≡ true) × (any p rows ≡ true)
first-any p [] x h = cc
first-any p (r ∷ rs) x h = grind (arith, first-any p rs x)

pub ok-injective : {A : Type 0} (a b : A) → ok a ≡ ok b → a ≡ b
ok-injective a b h = cc

pub first-All :
    {A : Type 0} (P : A → Type 0) (p : A → Bool) (rows : List A) (x : A)
    → first p rows ≡ ok x
    → All P rows
    → P x
first-All P p [] x h k = cc
first-All {A} P p (r ∷ rs) x h k = by_test (p r) (λ e. first-All P p rs x e k.1) h
  where
    by_test :
        (b : Bool)
        → (first p rs ≡ ok x → P x)
        → elim (if b then some r else find? p rs) as (λ _. Result A) [
          | none ↦ err record_not_found
          | some row ↦ ok row
        ]
          ≡ ok x
        → P x
    by_test true later h = subst P (ok-injective r x h) k.0
    by_test false later h = later h

-- The row that a lookup by id finds.
pub first-has_dict :
    (id : ℕ) (rows : List SysDict) (x : SysDict)
    → first (λ r. r.id == id) rows ≡ ok x
    → (x.id ≡ id) × (has_dict rows x.id x.code ≡ true)
first-has_dict id [] x h = cc
first-has_dict id (r ∷ rs) x h = grind (arith, first-has_dict id rs x, str_eq_refl x.code)

no_dict :
    (id : ℕ) (code : String) (rows : List SysDict)
    → contains (dict_ids rows) id ≡ false
    → has_dict rows id code ≡ false
no_dict id code [] h = refl
no_dict id code (r ∷ rs) h = grind (arith, no_dict id code rs)

-- Where ids are distinct, it is the only one.
pub first-code :
    (id : ℕ) (code : String) (rows : List SysDict) (x : SysDict)
    → Distinct (dict_ids rows)
    → first (λ r. r.id == id) rows ≡ ok x
    → has_dict rows id code ≡ true
    → str_eq x.code code ≡ true
first-code id code [] x n h k = cc
first-code id code (r ∷ rs) x n h k = grind (arith, first-code id code rs x, no_dict id code rs)

abbrev pub replaced : SysDict → List SysDict → List SysDict
replaced dict rows = map (λ r. if r.id == dict.id then dict else r) rows

-- The Save of a dictionary that is there.
pub saved_dicts-there :
    (env : Env) (dict : SysDict) (rows rows' : List SysDict) (x : SysDict)
    → first (λ r. r.id == dict.id) rows ≡ ok x
    → saved_dicts env dict rows ≡ ok rows'
    → (rows' ≡ replaced dict rows)
      × (any (λ r. str_eq r.code dict.code && not (r.id == dict.id)) rows ≡ false)
unfolding saved_dicts
saved_dicts-there env dict rows rows' x f h =
    let there = first-any (λ r. r.id == dict.id) rows x f in ground arith

pub replaced-has :
    (dict : SysDict) (rows : List SysDict) (x : SysDict)
    → first (λ r. r.id == dict.id) rows ≡ ok x
    → has_dict (replaced dict rows) dict.id dict.code ≡ true
replaced-has dict [] x h = cc
replaced-has dict (r ∷ rs) x h =
    grind (arith, replaced-has dict rs x, str_eq_refl dict.code, ==_iff dict.id dict.id)

pub replaced-others :
    (dict : SysDict) (rows : List SysDict) (id : ℕ) (code : String)
    → id ≢ dict.id
    → has_dict (replaced dict rows) id code ≡ has_dict rows id code
replaced-others dict [] id code n = refl
replaced-others dict (r ∷ rs) id code n = grind (arith, replaced-others dict rs id code n)

pub filter-has :
    (k id : ℕ) (code : String) (rows : List SysDict)
    → id ≢ k
    → has_dict (filter (λ x. not (x.id == k)) rows) id code ≡ has_dict rows id code
filter-has k id code [] n = refl
filter-has k id code (r ∷ rs) n = grind (arith, filter-has k id code rs n)

replaced-any :
    (q : SysDict → Bool) (dict : SysDict) (rows : List SysDict)
    → any q rows ≡ false
    → q dict ≡ false
    → any q (replaced dict rows) ≡ false
replaced-any q dict [] h k = refl
replaced-any q dict (r ∷ rs) h k = grind (arith, replaced-any q dict rs)

replaced-no_clash :
    (dict : SysDict) (rows : List SysDict)
    → contains (dict_ids rows) dict.id ≡ false
    → any (λ r. str_eq r.code dict.code && not (r.id == dict.id)) rows ≡ false
    → any (λ r. str_eq r.code dict.code) (replaced dict rows) ≡ false
replaced-no_clash dict [] n h = refl
replaced-no_clash dict (r ∷ rs) n h = grind (arith, replaced-no_clash dict rs)

pub str_eq-sym : (s t : String) → str_eq s t ≡ str_eq t s
str_eq-sym s t = grind (arith, eq_iff s t, eq_iff t s)

-- Codes stay distinct where the new one is free.
pub replaced-AreCodesDistinct :
    (dict : SysDict) (rows : List SysDict)
    → Distinct (dict_ids rows)
    → any (λ r. str_eq r.code dict.code && not (r.id == dict.id)) rows ≡ false
    → AreCodesDistinct rows
    → AreCodesDistinct (replaced dict rows)
replaced-AreCodesDistinct dict [] n h k = tt
replaced-AreCodesDistinct dict (r ∷ rs) n h k = grind (
  arith,
  replaced-no_clash dict rs,
  replaced-any (λ y. str_eq y.code r.code) dict rs k.0,
  str_eq-sym dict.code r.code,
  replaced-AreCodesDistinct dict rs n.1,
)

filter-any :
    {A : Type 0} (p q : A → Bool) (rows : List A)
    → any p rows ≡ false
    → any p (filter q rows) ≡ false
filter-any p q [] h = refl
filter-any p q (r ∷ rs) h = grind (arith, filter-any p q rs)

pub filter-AreCodesDistinct :
    (q : SysDict → Bool) (rows : List SysDict)
    → AreCodesDistinct rows
    → AreCodesDistinct (filter q rows)
filter-AreCodesDistinct q [] h = tt
filter-AreCodesDistinct q (r ∷ rs) h =
    grind (arith, filter-any (λ y. str_eq y.code r.code) q rs h.0, filter-AreCodesDistinct q rs h.1)

-- The rows after a Save have the ids that they had.
pub replaced-keeps_ids :
    (dict : SysDict) (rows : List SysDict) → dict_ids (replaced dict rows) ≡ dict_ids rows
replaced-keeps_ids dict rows =
    kept (λ r. r.id) dict.id (λ _. dict) rows (replaced dict rows) (λ r e. sym e) refl
