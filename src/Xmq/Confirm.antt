-- ===== src/Xmq/Confirm.antt =====
-- pkg/xmq/rabbitmq/conn_manager.go: confirmChannel, an AMQP channel on which publishes wait for the
-- broker's confirmation. Each operation here is what one goroutine does without giving up the mutex
-- that guards it, but for the ends of a publish, which lock the list several times and whose parts
-- are steps of Reached, too; the channel's own numbering of publishes is the argument `seq`. That a closed or
-- broken channel takes no further publish is left out: the steps are those of any channel.
pub mod Reached
pub mod CleanUp
use snowgo.Prelude.{
  ℕ, ◌+◌, Bool, true, false, not, ◌&&◌, ◌||◌, [], Option, none, some, ◌==◌, ltb, leb, if◌then◌else◌,
}
use snowgo.Xmq.Pending.{
  PendingList, add, ack_le, drain_all, pop_tail_if_match, remove_by_tag, remove_tail_nearby,
}

-- `closing`: closeCh is closed.
pub record ConfirmChannel : Type 0 where
  pub pending : PendingList
  pub closed : Bool
  pub broken : Bool
  pub closing : Bool
  pub consec_to : ℕ
  pub last_seq : ℕ

abbrev pub new_confirm_channel : ConfirmChannel
new_confirm_channel = record {
  pending = record {
    list = [];
    count = 0;
    recs = λ tag. record { buffer = none; closed = false };
    panicked = false;
  };
  closed = false;
  broken = false;
  closing = false;
  consec_to = 0;
  last_seq = 0;
}

-- closeOnce.Do
unfoldable pub close : ConfirmChannel → ConfirmChannel
close c = record c { closed = true; closing = true }

-- The channel is given up.
abbrev pub give_up : ConfirmChannel → ConfirmChannel
give_up c = close (record c { broken = true })

-- What publishWithConfirm does under the channel's mutex, up to the publish: whether the publish is
-- sent.
unfoldable pub enqueue : ℕ → ConfirmChannel → Bool × ConfirmChannel
enqueue seq c =
    if (seq == 0) || (not (c.last_seq == 0) && leb seq c.last_seq)
    then (false, give_up c)
    else (true, record c { last_seq = seq; pending = add seq c.pending })

abbrev pub default_tail_scan_limit : ℕ
default_tail_scan_limit = 1024

abbrev pub or_nearby : ℕ → Bool × PendingList → Bool × PendingList
or_nearby seq (true, l) = (true, l)
or_nearby seq (false, l) = remove_tail_nearby seq default_tail_scan_limit l

abbrev pub or_anywhere : ℕ → Bool × PendingList → Bool × PendingList
or_anywhere seq (true, l) = (true, l)
or_anywhere seq (false, l) = remove_by_tag seq l

-- The removal of a publish that nobody waits for any more.
unfoldable pub clean_up : ℕ → PendingList → PendingList
clean_up seq l = (or_anywhere seq (or_nearby seq (pop_tail_if_match seq l))).1

-- The publish itself has failed. The tail is looked at only while the publish is the last one.
unfoldable pub publish_failed : ℕ → ConfirmChannel → ConfirmChannel
publish_failed seq c =
    let first = if c.last_seq == seq then pop_tail_if_match seq c.pending else (false, c.pending) in
    give_up (record c { pending = (or_nearby seq first).1 })

-- confirmRouter, on one confirmation.
unfoldable pub confirm : ℕ → Bool → ConfirmChannel → ConfirmChannel
confirm tag ack c =
    let (handled, l) = ack_le tag ack c.pending in
    record c { pending = l; consec_to = if ltb 0 handled && ack then 0 else c.consec_to }

-- confirmRouter, when it ends.
unfoldable pub router_exit : ConfirmChannel → ConfirmChannel
router_exit c = record c { closed = true; pending = (drain_all c.pending).1 }

-- The wait for the confirmation is over after ConfirmTimeout.
unfoldable pub timed_out : ℕ → ℕ → ConfirmChannel → ConfirmChannel
timed_out seq consec_threshold c =
    let new_cnt = c.consec_to + 1 in
    let cleaned = record c { consec_to = new_cnt; pending = clean_up seq c.pending } in
    if ltb 0 consec_threshold && leb consec_threshold new_cnt then give_up cleaned else cleaned

-- The wait is over because the context or the channel is.
unfoldable pub abandoned : ℕ → ConfirmChannel → ConfirmChannel
abandoned seq c = record c { pending = clean_up seq c.pending }

-- What the wait reads from the publish's own channel: a confirmation, or its end.
pub data Answer : Type 0 where
  acked nacked ended : Answer

abbrev pub answer_of : Option Bool → Bool → Option Answer
answer_of (some true) closed = some acked
answer_of (some false) closed = some nacked
answer_of none true = some ended
answer_of none false = none

unfoldable pub answer : ℕ → ConfirmChannel → Option Answer
answer seq c = answer_of (c.pending.recs seq).buffer (c.pending.recs seq).closed

-- The channel after that.
unfoldable pub received : Answer → ConfirmChannel → ConfirmChannel
received acked c = record c { consec_to = 0 }
received nacked c = give_up (record c { consec_to = 0 })
received ended c = c
