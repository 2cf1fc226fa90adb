-- ===== src/Xmq/Consumer/Deliveries.antt =====
-- What becomes of a message of a registered queue.
use snowgo.Prelude.{
  ℕ, zero, suc, ◌+◌, ◌≡◌, ◌≤◌, ◌<◌, ◌↔◌, refl, ap, ◌∙◌, any, Bool, true, false, List, [], ◌∷◌,
  Option, none, some, All, arith, String, str_eq, if◌then◌else◌,
}
use snowgo.Xmq.Consumer.{
  HandlerResult, succeeded, failed, panicked, ack, nack, Delivery, called, attempts,
  handle_delivery, ConsumerMeta, filled_meta, ConsumerUnit, register, RegisterError, empty_queue,
  duplicate_handler,
}

-- The first attempt from `attempt` on, among `left`, that does not fail is a success.
abbrev pub Succeeds : (ℕ → HandlerResult) → ℕ → ℕ → Type 0
Succeeds handler attempt left =
    (i : ℕ) × (i < left)
    × (handler (attempt + i) ≡ succeeded)
    × ((j : ℕ) → j < i → handler (attempt + j) ≡ failed)

at_shift :
    (handler : ℕ → HandlerResult) (attempt i : ℕ) {r : HandlerResult}
    → handler (attempt + 1 + i) ≡ r
    → handler (attempt + suc i) ≡ r
at_shift handler attempt i h = ap handler (omega arith) ∙ h

shift_failed :
    (handler : ℕ → HandlerResult) (attempt i : ℕ)
    → handler attempt ≡ failed
    → ((j : ℕ) → j < i → handler (attempt + 1 + j) ≡ failed)
    → (j : ℕ) → j < suc i
    → handler (attempt + j) ≡ failed
shift_failed handler attempt i e h zero l = ap handler (omega arith) ∙ e
shift_failed handler attempt i e h (suc j) l = at_shift handler attempt j (h j (omega (arith, l)))

abbrev after : Delivery → HandlerResult → Delivery
after rest succeeded = record { calls = 1; reply = ack }
after rest failed = called rest
after rest panicked = record { calls = 1; reply = nack }

attempts-Succeeds :
    (handler : ℕ → HandlerResult) (attempt left : ℕ)
    → (attempts handler attempt left).reply ≡ ack
    → Succeeds handler attempt left
attempts-Succeeds handler attempt zero h = absurd cc
attempts-Succeeds handler attempt (suc left) h =
    by_result (handler attempt) refl h (attempts-Succeeds handler (attempt + 1) left)
  where
    by_result :
        (r : HandlerResult)
        → handler attempt ≡ r
        → (after (attempts handler (attempt + 1) left) r).reply ≡ ack
        → ((attempts handler (attempt + 1) left).reply ≡ ack → Succeeds handler (attempt + 1) left)
        → Succeeds handler attempt (suc left)
    by_result succeeded e h rest =
        (0, omega arith, ap handler (omega arith) ∙ e, λ j l. absurd (omega (arith, l)))
    by_result panicked e h rest = absurd cc
    by_result failed e h rest =
        let (i, l, s, before) = rest h in
        (
          suc i,
          omega (arith, l),
          at_shift handler attempt i s,
          shift_failed handler attempt i e before,
        )

Succeeds-attempts :
    (handler : ℕ → HandlerResult) (attempt left i : ℕ)
    → i < left
    → handler (attempt + i) ≡ succeeded
    → ((j : ℕ) → j < i → handler (attempt + j) ≡ failed)
    → (attempts handler attempt left).reply ≡ ack
Succeeds-attempts handler attempt zero i l s h = absurd (omega (arith, l))
Succeeds-attempts handler attempt (suc left) zero l s h =
    let e : handler attempt ≡ succeeded = ap handler (omega arith) ∙ s in ground arith
Succeeds-attempts handler attempt (suc left) (suc i) l s h =
    let e : handler attempt ≡ failed = ap handler (omega arith) ∙ h 0 (omega arith) in
    let rest =
      Succeeds-attempts handler (attempt + 1) left i (omega (arith, l))
        (ap handler (omega arith) ∙ s)
        (λ j k. ap handler (omega arith) ∙ h (suc j) (omega (arith, k))) in
    ground arith

calls_bounds :
    (handler : ℕ → HandlerResult) (attempt left : ℕ)
    → ((attempts handler attempt left).calls ≤ left)
      × (0 < left → 0 < (attempts handler attempt left).calls)
calls_bounds handler attempt zero = (omega arith, λ l. l)
calls_bounds handler attempt (suc left) =
    ground (arith, (calls_bounds handler (attempt + 1) left).0)

-- A message of the unit is handed to its handler at least once and not more often than its limit,
-- and is acknowledged exactly when an attempt within the limit succeeds before any panics.
pub record IsServed (u : ConsumerUnit) : Type 0 where
  pub tried : 0 < (handle_delivery u.handler u.meta.retry_limit).calls
  pub bounded : (handle_delivery u.handler u.meta.retry_limit).calls ≤ u.meta.retry_limit
  pub replied :
      ((handle_delivery u.handler u.meta.retry_limit).reply ≡ ack)
      ↔ Succeeds u.handler 0 u.meta.retry_limit

handle_delivery-IsServed : (u : ConsumerUnit) → 0 < u.meta.retry_limit → IsServed u
unfolding handle_delivery
handle_delivery-IsServed u l = record {
  tried = (calls_bounds u.handler 0 u.meta.retry_limit).1 l;
  bounded = (calls_bounds u.handler 0 u.meta.retry_limit).0;
  replied = (
    attempts-Succeeds u.handler 0 u.meta.retry_limit,
    λ s. Succeeds-attempts u.handler 0 u.meta.retry_limit s.0 s.1 s.2 s.3,
  );
}

filled_meta-positive : (meta : Option ConsumerMeta) → 0 < (filled_meta meta).retry_limit
unfolding filled_meta
filled_meta-positive none = omega arith
filled_meta-positive (some m) = ground arith

-- A call of Register.
pub record Registration : Type 0 where
  pub queue : String
  pub handler : ℕ → HandlerResult
  pub meta : Option ConsumerMeta

abbrev pub register_all : List Registration → List ConsumerUnit
register_all [] = []
register_all (r ∷ rs) = (register r.queue r.handler r.meta (register_all rs)).1

-- One unit for a queue.
abbrev pub AreQueuesDistinct : List ConsumerUnit → Type 0
AreQueuesDistinct [] = Unit
AreQueuesDistinct (u ∷ us) = (any (λ v. str_eq v.queue u.queue) us ≡ false) × AreQueuesDistinct us

abbrev chosen :
    Bool → Bool → Registration → List ConsumerUnit → Option RegisterError × List ConsumerUnit
chosen a b r units =
    if a
    then (some empty_queue, units)
    else (if b then (some duplicate_handler, units) else (
      none,
      record {
        queue = r.queue;
        meta = filled_meta r.meta;
        handler = r.handler;
        not_found_count = 0;
      }
          ∷ units,
    ))

register-kept :
    (r : Registration) (units : List ConsumerUnit)
    → All IsServed units
    → AreQueuesDistinct units
    → All IsServed (register r.queue r.handler r.meta units).1
      × AreQueuesDistinct (register r.queue r.handler r.meta units).1
unfolding register
register-kept r units h d =
    by_test (str_eq r.queue "") (any (λ u. str_eq u.queue r.queue) units) refl
  where
    by_test :
        (a b : Bool)
        → any (λ u. str_eq u.queue r.queue) units ≡ b
        → All IsServed (chosen a b r units).1 × AreQueuesDistinct (chosen a b r units).1
    by_test true b e = (h, d)
    by_test false true e = (h, d)
    by_test false false e = ((handle_delivery-IsServed _ (filled_meta-positive r.meta), h), (e, d))

-- Whatever is registered, in whatever order, a queue has one unit at most, and each unit serves its
-- messages: the handler is called at least once and at most as often as the limit says, whatever the
-- limit was given as; the broker is told Ack if an attempt within the limit succeeds after none but
-- failures, and Nack without requeueing in every other case.
pub register_all-IsServed :
    (rs : List Registration) → All IsServed (register_all rs) × AreQueuesDistinct (register_all rs)
register_all-IsServed [] = (tt, tt)
register_all-IsServed (r ∷ rs) =
    let (h, d) = register_all-IsServed rs in register-kept r (register_all rs) h d
