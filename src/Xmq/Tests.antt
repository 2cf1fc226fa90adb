-- ===== src/Xmq/Tests.antt =====
-- A channel with two publishes, a worker and two registrations, and the theorems at work on them.
use snowgo.Prelude.{
  ℕ, zero, suc, ◌*◌, ◌^◌, ◌≡◌, ◌≢◌, false, contains, ◌↔◌, refl, true, List, [], ◌∷◌, none, some,
  All, arith,
}
use snowgo.Xmq.Pending.{add, ack_le, wake}
use snowgo.Xmq.Pending.Sound.{IsSound}
use snowgo.Xmq.Pending.Woken.{Confirms, ack_le-Confirms}
use snowgo.Xmq.Confirm.{
  ConfirmChannel, new_confirm_channel, enqueue, confirm, router_exit, answer, acked, nacked,
  clean_up,
}
use snowgo.Xmq.Confirm.Reached.{
  Event, sent, confirmed, acked_since, was_sent, Reached, start, publish, route,
}
use snowgo.Xmq.Confirm.Reached.Safe.{Reached-IsSound, answer-acked_since, router_exit-wakes}
use snowgo.Xmq.Confirm.CleanUp.{IsGone, clean_up-IsGone}
use snowgo.Xmq.Consumer.{
  HandlerResult, succeeded, failed, queue_not_found, ConsumerUnit, ConsumerConnConfig,
  initial_backoff, max_backoff, Workers, start_worker, work, worker_loop, grow_backoff,
}
use snowgo.Xmq.Consumer.Deliveries.{
  Registration, register_all, IsServed, AreQueuesDistinct, register_all-IsServed,
}
use snowgo.Xmq.Consumer.Backoff.{
  Rounds, Running, started, round, waits, least, worker_loop-ends, worker_loop-backoff,
}

abbrev one_waits : ConfirmChannel
one_waits = (enqueue 1 new_confirm_channel).1

abbrev two_wait : ConfirmChannel
two_wait = (enqueue 2 one_waits).1

abbrev both_sent : List Event
both_sent = sent 2 ∷ sent 1 ∷ []

sends_one : (enqueue 1 new_confirm_channel).0 ≡ true
unfolding enqueue
sends_one = refl

sends_two : (enqueue 2 one_waits).0 ≡ true
unfolding enqueue
sends_two = refl

one_is_reached : Reached (sent 1 ∷ []) one_waits
one_is_reached = publish 1 (omega arith) sends_one start

two_are_reached : Reached both_sent two_wait
two_are_reached = publish 2 (omega arith) sends_two one_is_reached

Reached-IsSound_example : IsSound two_wait.last_seq two_wait.pending
Reached-IsSound_example = Reached-IsSound both_sent two_wait two_are_reached

ack_le-Confirms_example : Confirms 1 true two_wait.pending (ack_le 1 true two_wait.pending)
ack_le-Confirms_example =
    ack_le-Confirms two_wait.last_seq 1 true two_wait.pending
      (Reached-IsSound both_sent two_wait two_are_reached)

is_told : answer 1 (confirm 2 true two_wait) ≡ some acked
unfolding answer confirm ack_le wake enqueue add
is_told = refl

answer-acked_since_example : acked_since 1 (confirmed 2 true ∷ both_sent) ≡ true
answer-acked_since_example =
    answer-acked_since (confirmed 2 true ∷ both_sent) (confirm 2 true two_wait) 1
      (route 2 true two_are_reached) is_told

router_exit-wakes_example :
    ((router_exit two_wait).pending.list ≡ [])
    × ((router_exit two_wait).pending.count ≡ 0)
    × ((seq : ℕ)
        → contains two_wait.pending.list seq ≡ true
        → answer seq (router_exit two_wait) ≡ some nacked)
    × ((seq : ℕ)
        → contains two_wait.pending.list seq ≡ false
        → answer seq (router_exit two_wait) ≡ answer seq two_wait)
    × ((seq : ℕ) → was_sent seq both_sent ≡ true → answer seq (router_exit two_wait) ≢ none)
router_exit-wakes_example = router_exit-wakes both_sent two_wait two_are_reached

clean_up-IsGone_example : IsGone 1 two_wait.pending (clean_up 1 two_wait.pending)
clean_up-IsGone_example =
    clean_up-IsGone two_wait.last_seq 1 two_wait.pending
      (Reached-IsSound both_sent two_wait two_are_reached)

-- The defaults, and a unit with two workers.
abbrev config : ConsumerConnConfig
config = record { consumer_backoff_base = 0; reconnect_max_delay = 0 }

abbrev two_workers : ConsumerUnit
two_workers = record {
  queue = "mails";
  meta = record { prefetch = 1; worker_num = 2; retry_limit = 1; handler_timeout = 1000 };
  handler = λ attempt. failed;
  not_found_count = 0;
}

abbrev begun : Workers
begun = start_worker config two_workers

abbrev after_one : Workers
after_one = worker_loop config 0 queue_not_found 1000 begun

abbrev after_two : Workers
after_two = worker_loop config 1 queue_not_found 1000 after_one

abbrev after_three : Workers
after_three = worker_loop config 0 queue_not_found 2000 after_two

abbrev after_four : Workers
after_four = worker_loop config 1 queue_not_found 2000 after_three

abbrev after_five : Workers
after_five = worker_loop config 0 queue_not_found 4000 after_four

abbrev four_misses : Rounds
four_misses =
    (1, queue_not_found) ∷ (0, queue_not_found) ∷ (1, queue_not_found) ∷ (0, queue_not_found) ∷ []

four_are_run : Running config two_workers four_misses after_four
unfolding start_worker worker_loop work grow_backoff
four_are_run = round 1 queue_not_found 2000 refl (
    round 0 queue_not_found 2000 refl
      (round 1 queue_not_found 1000 refl (round 0 queue_not_found 1000 refl started)))

fifth_is_run : Running config two_workers ((0, queue_not_found) ∷ four_misses) after_five
unfolding start_worker worker_loop work grow_backoff
fifth_is_run = round 0 queue_not_found 4000 refl four_are_run

-- The third miss of the first worker is the fifth of the two.
worker_loop-ends_example : (after_five.backoffs 0 ≡ none) ↔ (true ≡ true)
worker_loop-ends_example =
    worker_loop-ends config two_workers ((0, queue_not_found) ∷ four_misses) after_five 0 refl
      (omega arith) fifth_is_run

second_waits : after_five.backoffs 1 ≡ some 4000
unfolding start_worker worker_loop work grow_backoff
second_waits = refl

worker_loop-backoff_example :
    4000 ≡ least (initial_backoff config * 2 ^ waits 1 four_misses) (max_backoff config)
worker_loop-backoff_example =
    worker_loop-backoff config two_workers ((0, queue_not_found) ∷ four_misses) after_five 1
      (omega arith) fifth_is_run second_waits

-- The second attempt succeeds.
abbrev second : ℕ → HandlerResult
second zero = failed
second (suc n) = succeeded

abbrev mails : Registration
mails = record { queue = "mails"; handler = second; meta = none }

register_all-IsServed_example :
    All IsServed (register_all (mails ∷ mails ∷ []))
    × AreQueuesDistinct (register_all (mails ∷ mails ∷ []))
register_all-IsServed_example = register_all-IsServed (mails ∷ mails ∷ [])
