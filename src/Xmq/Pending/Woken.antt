-- ===== src/Xmq/Pending/Woken.antt =====
-- Whom ackLE wakes, and with what.
use snowgo.Prelude.{
  ℕ, suc, ◌+◌, ◌<◌, ◌≤◌, ◌≡◌, refl, sym, subst, ap, ◌∙◌, Bool, true, false, not, ◌&&◌, List, [],
  ◌∷◌, some, leb, ==_iff, if◌then◌else◌, All, All-weaken, All-filter, filter, contains, length,
  arith,
}
use snowgo.Xmq.Pending.{Rec, PendingList, wake, wake_prefix, ack_le, with_rec, drain_all, max_tag}
use snowgo.Xmq.Pending.Laws.{IsAscending, missing}
use snowgo.Xmq.Pending.Sound.{IsOpen, IsSound, other_IsOpen, filter-IsAscending}

-- The tags that a confirmation leaves waiting.
abbrev pub after : ℕ → List ℕ → List ℕ
after tag ts = filter (λ t. not (leb t tag)) ts

-- A channel with the confirmation in it, closed.
abbrev pub answered : Bool → Rec
answered ack = record { buffer = some ack; closed = true }

pub after-contains :
    (tag t : ℕ) (ts : List ℕ) → contains (after tag ts) t ≡ (contains ts t && not (leb t tag))
after-contains tag t [] = refl
after-contains tag t (u ∷ ts) = grind (arith, after-contains tag t ts, ==_iff u t)

record Woken (tag : ℕ) (ack : Bool) (ts : List ℕ) (l : PendingList) (r : ℕ × List ℕ × PendingList)
    : Type 0 where
  pub left : r.1 ≡ after tag ts
  pub number : r.0 + length r.1 ≡ length ts
  pub calm : r.2.panicked ≡ false
  pub count : r.2.count ≡ l.count
  pub answers :
      (t : ℕ) → r.2.recs t ≡ (if contains ts t && leb t tag then answered ack else l.recs t)

nothing_below : (tag : ℕ) (ts : List ℕ) → All (λ u. tag < u) ts → after tag ts ≡ ts
nothing_below tag [] h = refl
nothing_below tag (t ∷ ts) h = grind (arith, nothing_below tag ts h.1)

still-IsOpen :
    (t : ℕ) (recs : ℕ → Rec) (rec : Rec) (ts : List ℕ)
    → All (λ u. t < u) ts
    → All (IsOpen recs) ts
    → All (IsOpen (with_rec t rec recs)) ts
still-IsOpen t recs rec [] h k = tt
still-IsOpen t recs rec (u ∷ ts) h k =
    (other_IsOpen recs t rec u (ground (arith, h.0)) k.0, still-IsOpen t recs rec ts h.1 k.1)

above : (t tag : ℕ) (ts : List ℕ) → leb t tag ≡ false → All (λ u. t < u) ts → All (λ u. tag < u) ts
above t tag [] n h = tt
above t tag (u ∷ ts) n h = (ground (arith, h.0), above t tag ts n h.1)

nobody : (t tag : ℕ) (ts : List ℕ) → All (λ u. tag < u) ts → (contains ts t && leb t tag) ≡ false
nobody t tag [] h = refl
nobody t tag (u ∷ ts) h = grind (arith, nobody t tag ts h.1)

woken_one :
    (t : ℕ) (ack : Bool) (l : PendingList)
    → IsOpen l.recs t
    → wake t ack l ≡ record l { recs = with_rec t (answered ack) l.recs }
unfolding wake
woken_one t ack l h = rw (h.0, h.1) refl

wake_prefix-Woken :
    (tag : ℕ) (ack : Bool) (ts : List ℕ) (l : PendingList)
    → IsAscending ts
    → All (IsOpen l.recs) ts
    → l.panicked ≡ false
    → Woken tag ack ts l (wake_prefix tag ack ts l)
wake_prefix-Woken tag ack [] l a o c = record {
  left = refl;
  number = refl;
  calm = c;
  count = refl;
  answers = λ t. refl;
}
wake_prefix-Woken tag ack (t ∷ ts) l a o c = by_test (leb t tag) refl (
    wake_prefix-Woken tag ack ts (record l { recs = with_rec t (answered ack) l.recs }) a.1
      (still-IsOpen t l.recs _ ts a.0 o.1) c)
  where
    by_test :
        (b : Bool)
        → leb t tag ≡ b
        → Woken tag ack ts
            (record l { recs = with_rec t (answered ack) l.recs })
            (wake_prefix tag ack ts (record l { recs = with_rec t (answered ack) l.recs }))
        → Woken tag ack (t ∷ ts) l (
            let rest = wake_prefix tag ack ts (wake t ack l) in
            if b then (suc rest.0, rest.1, rest.2) else (0, t ∷ ts, l))
    by_test true e w = rw (woken_one t ack l o.0) (record {
      left = w.left ∙ ground arith;
      number = omega (arith, w.number);
      calm = w.calm;
      count = w.count;
      answers = λ u. w.answers u ∙ grind (arith, missing t ts a.0);
    })
    by_test false e w = record {
      left = sym (ground (arith, nothing_below tag ts (above t tag ts e a.0)));
      number = omega arith;
      calm = c;
      count = refl;
      answers = λ u. grind (arith, nobody u tag ts (above t tag ts e a.0));
    }

-- What a confirmation does to the waiting publishes.
pub record Confirms (tag : ℕ) (ack : Bool) (l : PendingList) (r : ℕ × PendingList) : Type 0 where
  pub left : r.1.list ≡ after tag l.list
  pub number : r.0 + r.1.count ≡ l.count
  pub counted : r.1.count ≡ length r.1.list
  pub calm : r.1.panicked ≡ false
  pub answers :
      (t : ℕ) → r.1.recs t ≡ (if contains l.list t && leb t tag then answered ack else l.recs t)

-- On a sound list a confirmation answers exactly the publishes that wait with its tag or a lower
-- one, each with the confirmation's Ack, takes exactly these out of the list, and counts them. No
-- send panics, and no other channel is touched.
pub ack_le-Confirms :
    (bound tag : ℕ) (ack : Bool) (l : PendingList)
    → IsSound bound l
    → Confirms tag ack l (ack_le tag ack l)
unfolding ack_le
ack_le-Confirms bound tag ack l s =
    let w = wake_prefix-Woken tag ack l.list l s.ascending s.unanswered s.calm in
    record {
      left = w.left;
      number = omega (arith, w.number, w.count, s.counted);
      counted = omega (arith, w.number, w.count, s.counted);
      calm = w.calm;
      answers = w.answers;
    }

still_unanswered :
    (tag : ℕ) (ack : Bool) (ts : List ℕ) (recs recs' : ℕ → Rec)
    → ((t : ℕ) → leb t tag ≡ false → recs' t ≡ recs t)
    → All (IsOpen recs) ts
    → All (IsOpen recs') (after tag ts)
still_unanswered tag ack [] recs recs' f h = tt
still_unanswered tag ack (t ∷ ts) recs recs' f h =
    by_test (leb t tag) refl (still_unanswered tag ack ts recs recs' f h.1)
  where
    by_test :
        (b : Bool)
        → leb t tag ≡ b
        → All (IsOpen recs') (after tag ts)
        → All (IsOpen recs') (if not b then t ∷ after tag ts else after tag ts)
    by_test true e rest = rest
    by_test false e rest = (rw (f t e) h.0, rest)

pub ack_le-IsSound :
    (bound tag : ℕ) (ack : Bool) (l : PendingList)
    → IsSound bound l
    → IsSound bound (ack_le tag ack l).1
ack_le-IsSound bound tag ack l s =
    let c = ack_le-Confirms bound tag ack l s in
    record {
      ascending = subst IsAscending (sym c.left) (filter-IsAscending _ l.list s.ascending);
      below =
          subst (All (λ t. t ≤ bound)) (sym c.left) (All-filter (λ t. t ≤ bound) _ l.list s.below);
      unanswered = subst (All (IsOpen (ack_le tag ack l).1.recs)) (sym c.left) (
          still_unanswered tag ack l.list l.recs (ack_le tag ack l).1.recs
            (λ t e. c.answers t ∙ ground arith) s.unanswered);
      counted = c.counted;
      calm = c.calm;
    }

none_after : (tag : ℕ) (ts : List ℕ) → All (λ t. t ≤ tag) ts → after tag ts ≡ []
none_after tag [] h = refl
none_after tag (t ∷ ts) h = grind (arith, none_after tag ts h.1)

-- Every tag of a list that does not exceed an uint64 is answered when the list is drained.
pub drain_all-empty :
    (bound : ℕ) (l : PendingList)
    → bound ≤ max_tag
    → IsSound bound l
    → ((drain_all l).1.list ≡ []) × ((drain_all l).1.count ≡ 0)
unfolding drain_all
drain_all-empty bound l b s =
    let c = ack_le-Confirms bound max_tag false l s in
    let k = ack_le-IsSound bound max_tag false l s in
    let empty =
      c.left
      ∙ none_after max_tag l.list (
          All-weaken (λ t. t ≤ bound) (λ t. t ≤ max_tag) l.list (λ t h. omega (arith, b, h))
            s.below) in
    (empty, k.counted ∙ ap length empty)
