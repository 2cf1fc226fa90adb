-- ===== src/Xmq/Pending/Sound.antt =====
-- What every operation of pendingList keeps.
use snowgo.Prelude.{
  ℕ, ◌<◌, ◌≤◌, ◌≡◌, refl, sym, subst, ap, Bool, true, false, not, List, [], ◌∷◌, ◌++◌, Option, none,
  some, ◌==◌, if◌then◌else◌, All, All-weaken, All-filter, filter, length, length-append, arith,
}
use snowgo.Xmq.Pending.{Rec, PendingList, add, removed, with_rec}
use snowgo.Xmq.Pending.Laws.{IsAscending, others, TakesOut, others-length}

-- Nobody has answered or closed the tag's channel.
abbrev pub IsOpen : (ℕ → Rec) → ℕ → Type 0
IsOpen recs t = ((recs t).closed ≡ false) × ((recs t).buffer ≡ none)

-- Tags in order and at most `bound`, each one unanswered, and counted; no send has panicked.
pub record IsSound (bound : ℕ) (l : PendingList) : Type 0 where
  pub ascending : IsAscending l.list
  pub below : All (λ t. t ≤ bound) l.list
  pub unanswered : All (IsOpen l.recs) l.list
  pub counted : l.count ≡ length l.list
  pub calm : l.panicked ≡ false

snoc-All : (P : ℕ → Type 0) (ts : List ℕ) (t : ℕ) → All P ts → P t → All P (ts ++ (t ∷ []))
snoc-All P [] t h k = (k, tt)
snoc-All P (u ∷ ts) t h k = (h.0, snoc-All P ts t h.1 k)

snoc-IsAscending :
    (bound tag : ℕ) (ts : List ℕ)
    → bound < tag
    → All (λ t. t ≤ bound) ts
    → IsAscending ts
    → IsAscending (ts ++ (tag ∷ []))
snoc-IsAscending bound tag [] b h a = (tt, tt)
snoc-IsAscending bound tag (u ∷ ts) b h a = (
  snoc-All (λ t. u < t) ts tag a.0 (omega (arith, b, h.0)),
  snoc-IsAscending bound tag ts b h.1 a.1,
)

-- Another tag's channel is as it was.
pub other_IsOpen :
    (recs : ℕ → Rec) (tag : ℕ) (rec : Rec) (t : ℕ)
    → (t == tag) ≡ false
    → IsOpen recs t
    → IsOpen (with_rec tag rec recs) t
other_IsOpen recs tag rec t n h = ground arith

All-below :
    (bound tag : ℕ) (recs : ℕ → Rec) (rec : Rec) (ts : List ℕ)
    → bound < tag
    → All (λ t. t ≤ bound) ts
    → All (IsOpen recs) ts
    → All (IsOpen (with_rec tag rec recs)) ts
All-below bound tag recs rec [] b h k = tt
All-below bound tag recs rec (t ∷ ts) b h k = (
  other_IsOpen recs tag rec t (ground (arith, b, h.0)) k.0,
  All-below bound tag recs rec ts b h.1 k.1,
)

pub add-IsSound :
    (bound tag : ℕ) (l : PendingList) → bound < tag → IsSound bound l → IsSound tag (add tag l)
unfolding add
add-IsSound bound tag l b s = record {
  ascending = snoc-IsAscending bound tag l.list b s.below s.ascending;
  below =
      snoc-All (λ t. t ≤ tag) l.list tag
        (All-weaken (λ t. t ≤ bound) (λ t. t ≤ tag) l.list (λ t h. omega (arith, b, h)) s.below)
        (omega arith);
  unanswered =
      snoc-All _ l.list tag (All-below bound tag l.recs _ l.list b s.below s.unanswered)
        (ground arith);
  counted = omega (arith, s.counted, length-append l.list (tag ∷ []));
  calm = s.calm;
}

All-others :
    (want : ℕ) (recs : ℕ → Rec) (rec : Rec) (ts : List ℕ)
    → All (IsOpen recs) ts
    → All (IsOpen (with_rec want rec recs)) (others want ts)
All-others want recs rec [] h = tt
All-others want recs rec (t ∷ ts) h = by_test (t == want) refl (All-others want recs rec ts h.1)
  where
    by_test :
        (b : Bool)
        → (t == want) ≡ b
        → All (IsOpen (with_rec want rec recs)) (others want ts)
        → All
            (IsOpen (with_rec want rec recs))
            (if not b then t ∷ others want ts else others want ts)
    by_test true e rest = rest
    by_test false e rest = (other_IsOpen recs want rec t e h.0, rest)

pub filter-IsAscending : (q : ℕ → Bool) (ts : List ℕ) → IsAscending ts → IsAscending (filter q ts)
filter-IsAscending q [] a = tt
filter-IsAscending q (t ∷ ts) a =
    by_test (q t) (filter-IsAscending q ts a.1) (All-filter (λ u. t < u) q ts a.0)
  where
    by_test :
        (b : Bool)
        → IsAscending (filter q ts)
        → All (λ u. t < u) (filter q ts)
        → IsAscending (if b then t ∷ filter q ts else filter q ts)
    by_test true r h = (h, r)
    by_test false r h = r

pub removed-IsSound :
    (bound want : ℕ) (o : Option (List ℕ)) (l : PendingList)
    → ((rest : List ℕ) → o ≡ some rest → TakesOut want l.list rest)
    → IsSound bound l
    → IsSound bound (removed want o l).1
removed-IsSound bound want none l h s = s
removed-IsSound bound want (some rest) l h s =
    let out = h rest refl in
    record {
      ascending = subst IsAscending (sym out.left) (filter-IsAscending _ l.list s.ascending);
      below =
          subst (All (λ t. t ≤ bound)) (sym out.left)
            (All-filter (λ t. t ≤ bound) _ l.list s.below);
      unanswered =
          subst (All (IsOpen _)) (sym out.left) (All-others want l.recs _ l.list s.unanswered);
      counted =
          omega
            (arith, s.counted, others-length want l.list s.ascending out.there, ap length out.left);
      calm = s.calm;
    }
