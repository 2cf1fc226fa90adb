-- ===== src/Xmq/Confirm/Reached.antt =====
-- Whatever publishers, timers, the router and the broker do on a channel, and in whatever order.
pub mod Steps
pub mod Safe
use snowgo.Prelude.{
  ℕ, ◌+◌, ◌≤◌, ◌≡◌, Bool, true, false, ◌&&◌, ◌||◌, List, [], ◌∷◌, ◌==◌, leb, if◌then◌else◌, some,
}
use snowgo.Xmq.Pending.{max_tag, pop_tail_if_match, remove_tail_nearby, remove_by_tag}
use snowgo.Xmq.Confirm.{
  ConfirmChannel, new_confirm_channel, close, enqueue, publish_failed, confirm, router_exit,
  timed_out, abandoned, default_tail_scan_limit, Answer, answer, received,
}

-- What has happened between the channel and the broker, the last first.
pub data Event : Type 0 where
  sent : ℕ → Event
  confirmed : ℕ → Bool → Event

-- The broker has acknowledged the publish, or a later one, since it was sent.
abbrev pub acked_since : ℕ → List Event → Bool
acked_since seq [] = false
acked_since seq (sent s ∷ h) = let rest = acked_since seq h in if s == seq then false else rest
acked_since seq (confirmed tag ack ∷ h) = (ack && leb seq tag) || acked_since seq h

-- The publish was sent.
abbrev pub was_sent : ℕ → List Event → Bool
was_sent seq [] = false
was_sent seq (sent s ∷ h) = (s == seq) || was_sent seq h
was_sent seq (confirmed tag ack ∷ h) = was_sent seq h

-- The channels that are reached, with what has happened. A number of the channel is an uint64. The
-- three removals of a timeout lock the list one after another: they are steps of their own, with
-- anything in between, besides the timeout as a whole; so are its count, and the end of a channel.
pub data Reached : List Event → ConfirmChannel → Type 0 where
  start : Reached [] new_confirm_channel
  publish :
      {h : List Event} {c : ConfirmChannel} (seq : ℕ)
      → seq ≤ max_tag
      → (enqueue seq c).0 ≡ true
      → Reached h c
      → Reached (sent seq ∷ h) (enqueue seq c).1
  refuse :
      {h : List Event} {c : ConfirmChannel} (seq : ℕ)
      → (enqueue seq c).0 ≡ false
      → Reached h c
      → Reached h (enqueue seq c).1
  fail :
      {h : List Event} {c : ConfirmChannel} (seq : ℕ)
      → Reached h c
      → Reached h (publish_failed seq c)
  route :
      {h : List Event} {c : ConfirmChannel} (tag : ℕ) (ack : Bool)
      → Reached h c
      → Reached (confirmed tag ack ∷ h) (confirm tag ack c)
  exit : {h : List Event} {c : ConfirmChannel} → Reached h c → Reached h (router_exit c)
  timeout :
      {h : List Event} {c : ConfirmChannel} (seq threshold : ℕ)
      → Reached h c
      → Reached h (timed_out seq threshold c)
  abandon :
      {h : List Event} {c : ConfirmChannel} (seq : ℕ) → Reached h c → Reached h (abandoned seq c)
  pop_tail :
      {h : List Event} {c : ConfirmChannel} (seq : ℕ)
      → Reached h c
      → Reached h (record c { pending = (pop_tail_if_match seq c.pending).1 })
  pop_nearby :
      {h : List Event} {c : ConfirmChannel} (seq : ℕ)
      → Reached h c
      → Reached h
          (record c { pending = (remove_tail_nearby seq default_tail_scan_limit c.pending).1 })
  pop_anywhere :
      {h : List Event} {c : ConfirmChannel} (seq : ℕ)
      → Reached h c
      → Reached h (record c { pending = (remove_by_tag seq c.pending).1 })
  count_timeout :
      {h : List Event} {c : ConfirmChannel}
      → Reached h c
      → Reached h (record c { consec_to = c.consec_to + 1 })
  mark_broken :
      {h : List Event} {c : ConfirmChannel} → Reached h c → Reached h (record c { broken = true })
  receive :
      {h : List Event} {c : ConfirmChannel} (seq : ℕ) (a : Answer)
      → answer seq c ≡ some a
      → Reached h c
      → Reached h (received a c)
  shut : {h : List Event} {c : ConfirmChannel} → Reached h c → Reached h (close c)
