-- ===== src/Xmq/Confirm/Reached/Steps.antt =====
-- What each step of a channel keeps: its list is sound, who is told of an acknowledgement was
-- acknowledged, and nobody who has sent is forgotten.
use snowgo.Prelude.{
  ℕ, ◌+◌, ◌≤◌, ◌<◌, ◌≡◌, refl, sym, ap, ◌∙◌, Bool, true, false, not, ◌&&◌, ◌||◌, List, [], ◌∷◌,
  ◌==◌, leb, ltb, if◌then◌else◌, Option, some, none, arith, contains, ==_iff,
}
use snowgo.Xmq.Pending.{
  PendingList, add, ack_le, drain_all, max_tag, removed, pop_last, pop_tail_if_match, remove_by_tag,
  remove_tail_nearby,
}
use snowgo.Xmq.Pending.Laws.{
  pop_last-TakesOut, remove_first-TakesOut, back-TakesOut, TakesOut, others-contains, contains-snoc,
}
use snowgo.Xmq.Pending.Sound.{IsSound, add-IsSound, removed-IsSound}
use snowgo.Xmq.Pending.Woken.{ack_le-IsSound, ack_le-Confirms, answered, after-contains}
use snowgo.Xmq.Confirm.{
  ConfirmChannel, new_confirm_channel, close, enqueue, publish_failed, confirm, router_exit,
  timed_out, Answer, acked, nacked, ended, received, clean_up, give_up, or_nearby, or_anywhere,
}
use snowgo.Xmq.Confirm.Reached.{Event, sent, confirmed, acked_since, was_sent}

-- A confirmation that says Ack is one that the broker has sent.
abbrev pub Covered : List Event → PendingList → Type 0
Covered h l = (t : ℕ) → (l.recs t).buffer ≡ some true → acked_since t h ≡ true

-- A publish that was sent is on the list, or its own channel is closed.
abbrev pub AreKept : List Event → PendingList → Type 0
AreKept h l = (t : ℕ) → was_sent t h ≡ true → (contains l.list t || (l.recs t).closed) ≡ true

pub record IsSafe (h : List Event) (bound : ℕ) (l : PendingList) : Type 0 where
  pub sound : IsSound bound l
  pub fits : bound ≤ max_tag
  pub covered : Covered h l
  pub kept : AreKept h l

pub removed-IsSafe :
    (h : List Event) (bound want : ℕ) (o : Option (List ℕ)) (l : PendingList)
    → ((rest : List ℕ) → o ≡ some rest → TakesOut want l.list rest)
    → IsSafe h bound l
    → IsSafe h bound (removed want o l).1
removed-IsSafe h bound want none l out s = s
removed-IsSafe h bound want (some rest) l out s = record {
  sound = removed-IsSound bound want (some rest) l out s.sound;
  fits = s.fits;
  covered = λ t e. s.covered t (grind (arith, e));
  kept = λ t e. grind (arith, s.kept t e, others-contains want t l.list, (out rest refl).left);
}

pub pop_tail-IsSafe :
    (h : List Event) (bound seq : ℕ) (l : PendingList)
    → IsSafe h bound l
    → IsSafe h bound (pop_tail_if_match seq l).1
unfolding pop_tail_if_match
pop_tail-IsSafe h bound seq l s =
    removed-IsSafe h bound seq (pop_last seq l.list) l
      (λ rest e. pop_last-TakesOut seq l.list rest s.sound.ascending e) s

pub or_nearby-IsSafe :
    (h : List Event) (bound seq : ℕ) (x : Bool × PendingList)
    → IsSafe h bound x.1
    → IsSafe h bound (or_nearby seq x).1
unfolding remove_tail_nearby
or_nearby-IsSafe h bound seq (true, l) s = s
or_nearby-IsSafe h bound seq (false, l) s =
    removed-IsSafe h bound seq _ l
      (λ rest e. back-TakesOut seq 1024 l.list rest s.sound.ascending e) s

pub or_anywhere-IsSafe :
    (h : List Event) (bound seq : ℕ) (x : Bool × PendingList)
    → IsSafe h bound x.1
    → IsSafe h bound (or_anywhere seq x).1
unfolding remove_by_tag
or_anywhere-IsSafe h bound seq (true, l) s = s
or_anywhere-IsSafe h bound seq (false, l) s =
    removed-IsSafe h bound seq _ l
      (λ rest e. remove_first-TakesOut seq l.list rest s.sound.ascending e) s

pub clean_up-IsSafe :
    (h : List Event) (bound seq : ℕ) (l : PendingList)
    → IsSafe h bound l
    → IsSafe h bound (clean_up seq l)
unfolding clean_up
clean_up-IsSafe h bound seq l s =
    or_anywhere-IsSafe h bound seq _
      (or_nearby-IsSafe h bound seq _ (pop_tail-IsSafe h bound seq l s))

pub ack_le-IsSafe :
    (h h' : List Event) (bound tag : ℕ) (ack : Bool) (l : PendingList)
    → ((t : ℕ) → acked_since t h ≡ true → acked_since t h' ≡ true)
    → ((t : ℕ) → ack ≡ true → leb t tag ≡ true → acked_since t h' ≡ true)
    → ((t : ℕ) → was_sent t h' ≡ true → was_sent t h ≡ true)
    → IsSafe h bound l
    → IsSafe h' bound (ack_le tag ack l).1
ack_le-IsSafe h h' bound tag ack l more new old s = record {
  sound = ack_le-IsSound bound tag ack l s.sound;
  fits = s.fits;
  kept = λ t e.
      let c = ack_le-Confirms bound tag ack l s.sound in
      grind (arith, s.kept t (old t e), after-contains tag t l.list, c.left, c.answers t);
  covered = λ t e.
      by_test t (contains l.list t && leb t tag) refl
        (ap (λ r. r.buffer) (sym ((ack_le-Confirms bound tag ack l s.sound).answers t)) ∙ e);
}
  where
    by_test :
        (t : ℕ) (b : Bool)
        → (contains l.list t && leb t tag) ≡ b
        → (if b then answered ack else l.recs t).buffer ≡ some true
        → acked_since t h' ≡ true
    by_test t true q e = new t (ground arith) (ground arith)
    by_test t false q e = more t (s.covered t e)

pub add-IsSafe :
    (h : List Event) (bound seq : ℕ) (l : PendingList)
    → bound < seq
    → seq ≤ max_tag
    → IsSafe h bound l
    → IsSafe (sent seq ∷ h) seq (add seq l)
unfolding add
add-IsSafe h bound seq l b fits s = record {
  sound = add-IsSound bound seq l b s.sound;
  fits = fits;
  covered = λ t e. grind (arith, e, s.covered t);
  kept = λ t e. grind (arith, e, s.kept t, contains-snoc l.list seq t, ==_iff seq t, ==_iff t seq);
}

abbrev outcome : ℕ → ConfirmChannel → Bool → Bool × ConfirmChannel
outcome seq c t =
    if t
    then (false, give_up c)
    else (true, record c { last_seq = seq; pending = add seq c.pending })

pub enqueue-IsSafe :
    (h : List Event) (seq : ℕ) (c : ConfirmChannel)
    → seq ≤ max_tag
    → (enqueue seq c).0 ≡ true
    → IsSafe h c.last_seq c.pending
    → IsSafe (sent seq ∷ h) (enqueue seq c).1.last_seq (enqueue seq c).1.pending
unfolding enqueue close
enqueue-IsSafe h seq c b e s =
    by_test ((seq == 0) || (not (c.last_seq == 0) && leb seq c.last_seq)) refl e
  where
    by_test :
        (t : Bool)
        → ((seq == 0) || (not (c.last_seq == 0) && leb seq c.last_seq)) ≡ t
        → (outcome seq c t).0 ≡ true
        → IsSafe (sent seq ∷ h) (outcome seq c t).1.last_seq (outcome seq c t).1.pending
    by_test true q e = absurd cc
    by_test false q e = add-IsSafe h c.last_seq seq c.pending (ground arith) b s

pub refused-same :
    (seq : ℕ) (c : ConfirmChannel)
    → (enqueue seq c).0 ≡ false
    → ((enqueue seq c).1.last_seq ≡ c.last_seq) × ((enqueue seq c).1.pending ≡ c.pending)
unfolding enqueue close
refused-same seq c e = ground arith

pub failed-IsSafe :
    (h : List Event) (seq : ℕ) (c : ConfirmChannel)
    → IsSafe h c.last_seq c.pending
    → IsSafe h (publish_failed seq c).last_seq (publish_failed seq c).pending
unfolding publish_failed close
failed-IsSafe h seq c s = or_nearby-IsSafe h c.last_seq seq _ (by_test (c.last_seq == seq))
  where
    by_test :
        (b : Bool)
        → IsSafe h c.last_seq (if b then pop_tail_if_match seq c.pending else (false, c.pending)).1
    by_test true = pop_tail-IsSafe h c.last_seq seq c.pending s
    by_test false = s

pub confirm-IsSafe :
    (h : List Event) (tag : ℕ) (ack : Bool) (c : ConfirmChannel)
    → IsSafe h c.last_seq c.pending
    → IsSafe (confirmed tag ack ∷ h) (confirm tag ack c).last_seq (confirm tag ack c).pending
unfolding confirm
confirm-IsSafe h tag ack c s =
    ack_le-IsSafe h (confirmed tag ack ∷ h) c.last_seq tag ack c.pending (λ t e. ground arith)
      (λ t e k. ground arith) (λ t e. e) s

pub exit-IsSafe :
    (h : List Event) (c : ConfirmChannel)
    → IsSafe h c.last_seq c.pending
    → IsSafe h (router_exit c).last_seq (router_exit c).pending
unfolding router_exit drain_all
exit-IsSafe h c s =
    ack_le-IsSafe h h c.last_seq max_tag false c.pending (λ t e. e) (λ t e k. absurd cc) (λ t e. e)
      s

pub timed_out-IsSafe :
    (h : List Event) (seq threshold : ℕ) (c : ConfirmChannel)
    → IsSafe h c.last_seq c.pending
    → IsSafe h (timed_out seq threshold c).last_seq (timed_out seq threshold c).pending
unfolding timed_out close
timed_out-IsSafe h seq threshold c s =
    by_test (ltb 0 threshold && leb threshold (c.consec_to + 1))
      (clean_up-IsSafe h c.last_seq seq c.pending s)
  where
    by_test :
        (b : Bool)
        → IsSafe h c.last_seq (clean_up seq c.pending)
        → IsSafe h
            (if b
              then give_up
                  (record c { consec_to = c.consec_to + 1; pending = clean_up seq c.pending })
              else record c {
                consec_to = c.consec_to + 1;
                pending = clean_up seq c.pending;
              }).last_seq
            (if b
              then give_up
                  (record c { consec_to = c.consec_to + 1; pending = clean_up seq c.pending })
              else record c {
                consec_to = c.consec_to + 1;
                pending = clean_up seq c.pending;
              }).pending
    by_test true k = k
    by_test false k = k

pub received-IsSafe :
    (h : List Event) (a : Answer) (c : ConfirmChannel)
    → IsSafe h c.last_seq c.pending
    → IsSafe h (received a c).last_seq (received a c).pending
unfolding received close
received-IsSafe h acked c s = s
received-IsSafe h nacked c s = s
received-IsSafe h ended c s = s

pub start-IsSafe : IsSafe [] 0 new_confirm_channel.pending
start-IsSafe = record {
  sound = record { ascending = tt; below = tt; unanswered = tt; counted = refl; calm = refl };
  fits = omega arith;
  covered = λ t e. absurd cc;
  kept = λ t e. absurd cc;
}
