-- ===== src/Xmq/Consumer.antt =====
-- pkg/xmq/rabbitmq/consumer.go: what becomes of a message, which units are registered, and the loops
-- of a unit's workers, until the consumer is stopped. Durations are milliseconds; a number that is not positive is 0.
pub mod Deliveries
pub mod Backoff
use snowgo.Prelude.{
  ℕ, zero, suc, ◌+◌, ◌*◌, Bool, true, false, List, [], ◌∷◌, Option, none, some, ◌==◌, ltb, leb, any,
  if◌then◌else◌, String, str_eq,
}

-- How a call of the handler ends. A panic is caught around the delivery.
pub data HandlerResult : Type 0 where
  succeeded failed panicked : HandlerResult

-- What the broker is told: Ack(false), or Nack(false, false), which does not requeue.
pub data Reply : Type 0 where
  ack nack : Reply

pub record Delivery : Type 0 where
  pub calls : ℕ
  pub reply : Reply

abbrev pub called : Delivery → Delivery
called d = record d { calls = d.calls + 1 }

-- handleDeliveryInProcess under the recover of workerLoop: the attempts from `attempt` on.
abbrev pub attempts : (ℕ → HandlerResult) → ℕ → ℕ → Delivery
attempts handler attempt zero = record { calls = 0; reply = nack }
attempts handler attempt (suc left) =
    let rest = attempts handler (attempt + 1) left in
    elim (handler attempt) [
      | succeeded ↦ record { calls = 1; reply = ack }
      | failed ↦ called rest
      | panicked ↦ record { calls = 1; reply = nack }
    ]

unfoldable pub handle_delivery : (ℕ → HandlerResult) → ℕ → Delivery
handle_delivery handler retry_limit = attempts handler 0 retry_limit

pub record ConsumerMeta : Type 0 where
  pub prefetch : ℕ
  pub worker_num : ℕ
  pub retry_limit : ℕ
  pub handler_timeout : ℕ

abbrev pub default_meta : ConsumerMeta
default_meta = record { prefetch = 4; worker_num = 4; retry_limit = 2; handler_timeout = 60000 }

abbrev pub or_default : ℕ → ℕ → ℕ
or_default default n = if n == 0 then default else n

-- The defaults for fields that are not set.
unfoldable pub filled_meta : Option ConsumerMeta → ConsumerMeta
filled_meta none = default_meta
filled_meta (some m) = record {
  prefetch = or_default 1 m.prefetch;
  worker_num = or_default 1 m.worker_num;
  retry_limit = or_default 1 m.retry_limit;
  handler_timeout = or_default 60000 m.handler_timeout;
}

pub record ConsumerUnit : Type 0 where
  pub queue : String
  pub meta : ConsumerMeta
  pub handler : ℕ → HandlerResult
  pub not_found_count : ℕ

pub data RegisterError : Type 0 where
  empty_queue duplicate_handler : RegisterError

-- Register: the first unit of a queue stays.
unfoldable pub register :
    String
    → (ℕ → HandlerResult)
    → Option ConsumerMeta
    → List ConsumerUnit
    → Option RegisterError × List ConsumerUnit
register queue handler meta units =
    if str_eq queue ""
    then (some empty_queue, units)
    else (if any (λ u. str_eq u.queue queue) units then (some duplicate_handler, units) else (
      none,
      record { queue = queue; meta = filled_meta meta; handler = handler; not_found_count = 0 }
          ∷ units,
    ))

unfoldable pub grow_backoff : ℕ → ℕ → ℕ
grow_backoff curr max = let doubled = curr * 2 in if ltb max doubled then max else doubled

-- What one round of workerLoop meets before it reads messages.
pub data Round : Type 0 where
  no_channel no_qos queue_not_found not_consuming consuming : Round

pub record ConsumerConnConfig : Type 0 where
  pub consumer_backoff_base : ℕ
  pub reconnect_max_delay : ℕ

abbrev pub initial_backoff : ConsumerConnConfig → ℕ
initial_backoff cfg = or_default 1000 cfg.consumer_backoff_base

abbrev pub max_backoff : ConsumerConnConfig → ℕ
max_backoff cfg = or_default 30000 cfg.reconnect_max_delay

abbrev pub default_max_not_found : ℕ
default_max_not_found = 5

-- A round of a worker: its next wait, `none` where it ends, and the unit. A round that reads messages
-- ends when the broker closes the channel; what it has read before is handled as above.
unfoldable pub work : ConsumerConnConfig → Round → ℕ → ConsumerUnit → Option ℕ × ConsumerUnit
work cfg queue_not_found backoff u =
    let n = u.not_found_count + 1 in
    (
      if leb default_max_not_found n then none else some (grow_backoff backoff (max_backoff cfg)),
      record u { not_found_count = n },
    )
work cfg consuming backoff u = (some (initial_backoff cfg), record u { not_found_count = 0 })
work cfg _ backoff u = (some (grow_backoff backoff (max_backoff cfg)), u)

-- The unit, which its workers share, and the wait of each worker that has not ended.
pub record Workers : Type 0 where
  pub unit : ConsumerUnit
  pub backoffs : ℕ → Option ℕ

unfoldable pub start_worker : ConsumerConnConfig → ConsumerUnit → Workers
start_worker cfg u = record {
  unit = u;
  backoffs = λ w. if ltb w u.meta.worker_num then some (initial_backoff cfg) else none;
}

-- One round of workerLoop in one worker, whose wait is the given one.
unfoldable pub worker_loop : ConsumerConnConfig → ℕ → Round → ℕ → Workers → Workers
worker_loop cfg w r backoff ws =
    let done = work cfg r backoff ws.unit in
    record { unit = done.1; backoffs = λ v. if v == w then done.0 else ws.backoffs v }
