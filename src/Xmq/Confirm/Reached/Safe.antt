-- ===== src/Xmq/Confirm/Reached/Safe.antt =====
-- What holds of a channel all along, and when its router has ended.
use snowgo.Prelude.{
  ℕ, ◌≤◌, ◌≡◌, refl, sym, ap, subst, ◌∙◌, Bool, true, false, ◌&&◌, ◌||◌, List, [], ◌∷◌, leb,
  if◌then◌else◌, Option, some, none, arith, contains, All, ◌≢◌, ==_iff,
}
use snowgo.Xmq.Pending.{Rec, drain_all, max_tag}
use snowgo.Xmq.Pending.Sound.{IsSound}
use snowgo.Xmq.Pending.Woken.{ack_le-Confirms, drain_all-empty, answered}
use snowgo.Xmq.Confirm.{
  ConfirmChannel, close, enqueue, router_exit, abandoned, acked, nacked, answer, answer_of,
}
use snowgo.Xmq.Confirm.Reached.{
  Event, acked_since, Reached, start, publish, refuse, fail, route, exit, timeout, abandon, receive,
  shut, was_sent, pop_tail, pop_nearby, pop_anywhere, count_timeout, mark_broken,
}
use snowgo.Xmq.Confirm.Reached.Steps.{
  IsSafe, pop_tail-IsSafe, or_nearby-IsSafe, or_anywhere-IsSafe, clean_up-IsSafe, enqueue-IsSafe,
  refused-same, failed-IsSafe, confirm-IsSafe, exit-IsSafe, timed_out-IsSafe, received-IsSafe,
  start-IsSafe,
}

Reached-IsSafe : (h : List Event) (c : ConfirmChannel) → Reached h c → IsSafe h c.last_seq c.pending
unfolding abandoned close
Reached-IsSafe _ _ start = start-IsSafe
Reached-IsSafe _ _ (publish {h} {c} seq b e r) = enqueue-IsSafe h seq c b e (Reached-IsSafe h c r)
Reached-IsSafe _ _ (refuse {h} {c} seq e r) =
    let (a, b) = refused-same seq c e in
    subst (λ n. IsSafe h n (enqueue seq c).1.pending) (sym a)
      (subst (IsSafe h c.last_seq) (sym b) (Reached-IsSafe h c r))
Reached-IsSafe _ _ (fail {h} {c} seq r) = failed-IsSafe h seq c (Reached-IsSafe h c r)
Reached-IsSafe _ _ (route {h} {c} tag ack r) = confirm-IsSafe h tag ack c (Reached-IsSafe h c r)
Reached-IsSafe _ _ (exit {h} {c} r) = exit-IsSafe h c (Reached-IsSafe h c r)
Reached-IsSafe _ _ (timeout {h} {c} seq threshold r) =
    timed_out-IsSafe h seq threshold c (Reached-IsSafe h c r)
Reached-IsSafe _ _ (abandon {h} {c} seq r) =
    clean_up-IsSafe h c.last_seq seq c.pending (Reached-IsSafe h c r)
Reached-IsSafe _ _ (pop_tail {h} {c} seq r) =
    pop_tail-IsSafe h c.last_seq seq c.pending (Reached-IsSafe h c r)
Reached-IsSafe _ _ (pop_nearby {h} {c} seq r) =
    or_nearby-IsSafe h c.last_seq seq (false, c.pending) (Reached-IsSafe h c r)
Reached-IsSafe _ _ (pop_anywhere {h} {c} seq r) =
    or_anywhere-IsSafe h c.last_seq seq (false, c.pending) (Reached-IsSafe h c r)
Reached-IsSafe _ _ (count_timeout {h} {c} r) = Reached-IsSafe h c r
Reached-IsSafe _ _ (mark_broken {h} {c} r) = Reached-IsSafe h c r
Reached-IsSafe _ _ (receive {h} {c} seq a e r) = received-IsSafe h a c (Reached-IsSafe h c r)
Reached-IsSafe _ _ (shut {h} {c} r) = Reached-IsSafe h c r

-- However publishers, timers, the router and the broker take turns on a channel, the list of waiting
-- publishes stays sound: its tags are in order, its atomic count is its length, nobody on it has been
-- answered, and no send on a closed Go channel has panicked.
pub Reached-IsSound :
    (h : List Event) (c : ConfirmChannel) → Reached h c → IsSound c.last_seq c.pending
Reached-IsSound h c r = (Reached-IsSafe h c r).sound

-- Whatever has happened on a channel, a publish that is told Ack was acknowledged: the broker has
-- confirmed its number or a later one with Ack, after the publish was sent.
pub answer-acked_since :
    (h : List Event) (c : ConfirmChannel) (seq : ℕ)
    → Reached h c
    → answer seq c ≡ some acked
    → acked_since seq h ≡ true
unfolding answer
answer-acked_since h c seq r e =
    (Reached-IsSafe h c r).covered seq
      (read (c.pending.recs seq).buffer (c.pending.recs seq).closed e)
  where
    read : (b : Option Bool) (closed : Bool) → answer_of b closed ≡ some acked → b ≡ some true
    read b closed e = ground arith

contains-max_tag :
    (bound t : ℕ) (ts : List ℕ)
    → bound ≤ max_tag
    → All (λ u. u ≤ bound) ts
    → (contains ts t && leb t max_tag) ≡ contains ts t
contains-max_tag bound t [] b h = refl
contains-max_tag bound t (u ∷ ts) b h =
    let l : u ≤ max_tag = omega (arith, b, h.0) in
    grind (arith, contains-max_tag bound t ts b h.1, ==_iff u t)

abbrev told : Bool → Rec → Rec
told waits rec = if waits then answered false else rec

-- The end of the router tells the publishes on the list Nack, and nothing to the others.
router_exit-tells :
    (h : List Event) (c : ConfirmChannel) (seq : ℕ)
    → IsSafe h c.last_seq c.pending
    → (router_exit c).pending.recs seq ≡ told (contains c.pending.list seq) (c.pending.recs seq)
unfolding router_exit drain_all
router_exit-tells h c seq s =
    (ack_le-Confirms c.last_seq max_tag false c.pending s.sound).answers seq
    ∙ ap (λ b. told b (c.pending.recs seq))
        (contains-max_tag c.last_seq seq c.pending.list s.fits s.sound.below)

told-answer :
    (waits : Bool) (rec : Rec)
    → (waits || rec.closed) ≡ true
    → answer_of (told waits rec).buffer (told waits rec).closed ≢ none
told-answer true rec h = λ e. absurd cc
told-answer false rec h = by_buffer rec.buffer rec.closed h
  where
    by_buffer : (b : Option Bool) (closed : Bool) → closed ≡ true → answer_of b closed ≢ none
    by_buffer (some true) closed h = λ e. absurd cc
    by_buffer (some false) closed h = λ e. absurd cc
    by_buffer none true h = λ e. absurd cc
    by_buffer none false h = absurd cc

-- When the router of a channel ends, whatever has happened before, it leaves nobody waiting: no
-- publish is left on the list and the count is 0, every publish that was on it is told Nack, every
-- other one is told what it was told before, and every publish that was ever sent on the channel has
-- an answer, or the end of its own channel, to read.
pub router_exit-wakes :
    (h : List Event) (c : ConfirmChannel)
    → Reached h c
    → ((router_exit c).pending.list ≡ [])
      × ((router_exit c).pending.count ≡ 0)
      × ((seq : ℕ) → contains c.pending.list seq ≡ true → answer seq (router_exit c) ≡ some nacked)
      × ((seq : ℕ)
          → contains c.pending.list seq ≡ false
          → answer seq (router_exit c) ≡ answer seq c)
      × ((seq : ℕ) → was_sent seq h ≡ true → answer seq (router_exit c) ≢ none)
unfolding answer router_exit drain_all
router_exit-wakes h c r =
    let s = Reached-IsSafe h c r in
    let e = drain_all-empty c.last_seq c.pending s.fits s.sound in
    (
      e.0,
      e.1,
      λ seq q. reads (told_when seq s q),
      λ seq q. reads (told_when seq s q),
      λ seq q n.
          told-answer (contains c.pending.list seq) (c.pending.recs seq) (s.kept seq q)
            (sym (reads (router_exit-tells h c seq s)) ∙ n),
    )
  where
    reads : {a b : Rec} → a ≡ b → answer_of a.buffer a.closed ≡ answer_of b.buffer b.closed
    reads q = ap (λ r. answer_of r.buffer r.closed) q

    told_when :
        (seq : ℕ) {b : Bool}
        → IsSafe h c.last_seq c.pending
        → contains c.pending.list seq ≡ b
        → (router_exit c).pending.recs seq ≡ told b (c.pending.recs seq)
    told_when seq s q = router_exit-tells h c seq s ∙ ap (λ w. told w (c.pending.recs seq)) q
