-- ===== src/Xmq/Pending/Laws.antt =====
-- What the operations of pendingList do to a list of distinct tags in order.
use snowgo.Prelude.{
  ◌&&◌, ==_iff, ℕ, zero, suc, ◌<◌, ◌≡◌, refl, Bool, true, false, not, List, [], ◌∷◌, ◌++◌, Option,
  none, some, ◌==◌, if◌then◌else◌, All, filter, contains, length, arith, subst, Distinct, reverse,
  reverse-cons, reverse-reverse, append-nil, sym, ap, ◌∙◌, ◌||◌,
}
use snowgo.Xmq.Pending.{pop_last, remove_within, remove_first, back}

-- Tags in the order in which they were handed out.
abbrev pub IsAscending : List ℕ → Type 0
IsAscending [] = Unit
IsAscending (t ∷ ts) = All (λ u. t < u) ts × IsAscending ts

abbrev pub others : ℕ → List ℕ → List ℕ
others want ts = filter (λ t. not (t == want)) ts

above_others : (want : ℕ) (ts : List ℕ) → All (λ u. want < u) ts → others want ts ≡ ts
above_others want [] h = refl
above_others want (t ∷ ts) h = grind (arith, above_others want ts h.1)

pub remove_first-others :
    (want : ℕ) (ts : List ℕ) {rest : List ℕ}
    → IsAscending ts
    → remove_first want ts ≡ some rest
    → rest ≡ others want ts
remove_first-others want [] a h = cc
remove_first-others want (t ∷ ts) {rest} a h =
    grind (arith, remove_first-others want ts a.1, above_others t ts a.0)

pub remove_first-missing :
    (want : ℕ) (ts : List ℕ) → remove_first want ts ≡ none → others want ts ≡ ts
remove_first-missing want [] h = refl
remove_first-missing want (t ∷ ts) h = grind (arith, remove_first-missing want ts)

pop_last-contains :
    (want : ℕ) (ts : List ℕ) {rest : List ℕ}
    → pop_last want ts ≡ some rest
    → contains ts want ≡ true
pop_last-contains want [] h = cc
pop_last-contains want (t ∷ []) h = ground arith
pop_last-contains want (t ∷ u ∷ ts) h = grind (arith, pop_last-contains want (u ∷ ts))

less : (t want : ℕ) (ts : List ℕ) → All (λ u. t < u) ts → contains ts want ≡ true → t < want
less t want [] h k = cc
less t want (u ∷ ts) h k = grind (arith, less t want ts h.1)

pub pop_last-others :
    (want : ℕ) (ts : List ℕ) {rest : List ℕ}
    → IsAscending ts
    → pop_last want ts ≡ some rest
    → rest ≡ others want ts
pop_last-others want [] a h = cc
pop_last-others want (t ∷ []) a h = ground arith
pop_last-others want (t ∷ u ∷ ts) a h = grind (
  arith,
  pop_last-others want (u ∷ ts) a.1,
  pop_last-contains want (u ∷ ts),
  less t want (u ∷ ts) a.0,
)

others-append :
    (want : ℕ) (ts us : List ℕ) → others want (ts ++ us) ≡ others want ts ++ others want us
others-append want [] us = refl
others-append want (t ∷ ts) us = grind (arith, others-append want ts us)

others-reverse : (want : ℕ) (ts : List ℕ) → others want (reverse ts) ≡ reverse (others want ts)
others-reverse want [] = refl
others-reverse want (t ∷ ts) =
    ap (others want) (reverse-cons t ts)
    ∙ others-append want (reverse ts) (t ∷ [])
    ∙ ap (λ x. x ++ others want (t ∷ [])) (others-reverse want ts)
    ∙ last (not (t == want))
  where
    last :
        (b : Bool)
        → reverse (others want ts) ++ (if b then t ∷ [] else [])
          ≡ reverse (if b then t ∷ others want ts else others want ts)
    last true = sym (reverse-cons t (others want ts))
    last false = append-nil (reverse (others want ts))

pub contains-snoc :
    (ts : List ℕ) (u t : ℕ) → contains (ts ++ (u ∷ [])) t ≡ (contains ts t || (u == t))
contains-snoc [] u t = ground arith
contains-snoc (x ∷ ts) u t = grind (arith, contains-snoc ts u t)

contains-reverse : (ts : List ℕ) (t : ℕ) → contains (reverse ts) t ≡ contains ts t
contains-reverse [] t = refl
contains-reverse (u ∷ ts) t =
    grind (arith, reverse-cons u ts, contains-snoc (reverse ts) u t, contains-reverse ts t)

Distinct-snoc :
    (ts : List ℕ) (u : ℕ) → Distinct ts → contains ts u ≡ false → Distinct (ts ++ (u ∷ []))
Distinct-snoc [] u h k = (refl, tt)
Distinct-snoc (x ∷ ts) u h k = grind (arith, contains-snoc ts u x, Distinct-snoc ts u h.1)

pub missing : (t : ℕ) (ts : List ℕ) → All (λ u. t < u) ts → contains ts t ≡ false
missing t [] h = refl
missing t (u ∷ ts) h = grind (arith, missing t ts h.1)

reverse-Distinct : (ts : List ℕ) → IsAscending ts → Distinct (reverse ts)
reverse-Distinct [] h = tt
reverse-Distinct (t ∷ ts) h = subst Distinct (sym (reverse-cons t ts)) (
    Distinct-snoc (reverse ts) t (reverse-Distinct ts h.1)
      (contains-reverse ts t ∙ missing t ts h.0))

missing-others : (want : ℕ) (ts : List ℕ) → contains ts want ≡ false → others want ts ≡ ts
missing-others want [] h = refl
missing-others want (t ∷ ts) h = grind (arith, missing-others want ts)

remove_within-others :
    (want limit : ℕ) (ts : List ℕ) {rest : List ℕ}
    → Distinct ts
    → remove_within want limit ts ≡ some rest
    → rest ≡ others want ts
remove_within-others want limit [] d h = cc
remove_within-others want zero (t ∷ ts) d h = cc
remove_within-others want (suc limit) (t ∷ ts) d h =
    grind (arith, remove_within-others want limit ts d.1, missing-others want ts)

pub back-others :
    (want limit : ℕ) (ts : List ℕ) {rest : List ℕ}
    → IsAscending ts
    → back (remove_within want limit (reverse ts)) ≡ some rest
    → rest ≡ others want ts
back-others want limit ts {rest} a h = grind (
  arith,
  remove_within-others want limit (reverse ts) (reverse-Distinct ts a),
  others-reverse want ts,
  reverse-reverse (others want ts),
)

-- A removal takes out exactly the wanted tag.
pub record TakesOut (want : ℕ) (ts : List ℕ) (rest : List ℕ) : Type 0 where
  pub left : rest ≡ others want ts
  pub there : contains ts want ≡ true

remove_first-contains :
    (want : ℕ) (ts : List ℕ) {rest : List ℕ}
    → remove_first want ts ≡ some rest
    → contains ts want ≡ true
remove_first-contains want [] h = cc
remove_first-contains want (t ∷ ts) h = grind (arith, remove_first-contains want ts)

remove_within-contains :
    (want limit : ℕ) (ts : List ℕ) {rest : List ℕ}
    → remove_within want limit ts ≡ some rest
    → contains ts want ≡ true
remove_within-contains want limit [] h = cc
remove_within-contains want zero (t ∷ ts) h = cc
remove_within-contains want (suc limit) (t ∷ ts) h =
    grind (arith, remove_within-contains want limit ts)

back-some : (o : Option (List ℕ)) {rest : List ℕ} → back o ≡ some rest → (r : List ℕ) × (o ≡ some r)
back-some none h = cc
back-some (some r) h = (r, refl)

pub pop_last-TakesOut :
    (want : ℕ) (ts : List ℕ) (rest : List ℕ)
    → IsAscending ts
    → pop_last want ts ≡ some rest
    → TakesOut want ts rest
pop_last-TakesOut want ts rest a h = record {
  left = pop_last-others want ts a h;
  there = pop_last-contains want ts h;
}

pub remove_first-TakesOut :
    (want : ℕ) (ts : List ℕ) (rest : List ℕ)
    → IsAscending ts
    → remove_first want ts ≡ some rest
    → TakesOut want ts rest
remove_first-TakesOut want ts rest a h = record {
  left = remove_first-others want ts a h;
  there = remove_first-contains want ts h;
}

pub back-TakesOut :
    (want limit : ℕ) (ts : List ℕ) (rest : List ℕ)
    → IsAscending ts
    → back (remove_within want limit (reverse ts)) ≡ some rest
    → TakesOut want ts rest
back-TakesOut want limit ts rest a h = record {
  left = back-others want limit ts a h;
  there =
      sym (contains-reverse ts want)
      ∙ remove_within-contains want limit (reverse ts) (back-some _ h).1;
}

pub others-length :
    (want : ℕ) (ts : List ℕ)
    → IsAscending ts
    → contains ts want ≡ true
    → suc (length (others want ts)) ≡ length ts
others-length want [] a h = cc
others-length want (t ∷ ts) a h = grind (arith, others-length want ts a.1, above_others t ts a.0)

pub others-contains :
    (want t : ℕ) (ts : List ℕ) → contains (others want ts) t ≡ (contains ts t && not (t == want))
others-contains want t [] = refl
others-contains want t (u ∷ ts) = grind (arith, others-contains want t ts, ==_iff u t)
