-- ===== src/Xlimiter.antt =====
-- pkg/xlimiter/fixed_window_limiter.go: FixedWindowLimiter with its Lua script, over the one Redis
-- key of the limiter. Time is in seconds.
pub mod TokenBucket
pub mod Window
mod Tests
use snowgo.Prelude.{
  ℕ, suc, ◌+◌, ◌-◌, Bool, true, false, ◌||◌, not, List, [], ◌∷◌, Option, none, some, ltb, leb, ◌==◌,
  if◌then◌else◌,
}

pub record FixedWindowLimiter : Type 0 where
  pub window_sec : ℕ
  pub max_fails : ℕ

-- A parameter that is not positive is 0 here.
unfoldable pub new_fixed_window_limiter : ℕ → ℕ → FixedWindowLimiter
new_fixed_window_limiter window_second max_fails = record {
  window_sec = if window_second == 0 then 60 else window_second;
  max_fails = if max_fails == 0 then 1 else max_fails;
}

-- A counter in Redis and when it expires, if it does.
pub record Counter : Type 0 where
  pub count : ℕ
  pub expires : Option ℕ

-- What is left of the key at a time.
unfoldable pub live : ℕ → Option Counter → Option Counter
live now none = none
live now (some c) = elim c.expires [ none ↦ some c | some t ↦ if leb t now then none else some c ]

-- INCR
unfoldable pub incr : Option Counter → Counter
incr none = record { count = 1; expires = none }
incr (some c) = record c { count = c.count + 1 }

pub record Added : Type 0 where
  pub allowed : Bool
  pub count : ℕ
  pub ttl : ℕ
  pub counter : Counter

-- The end of the script: EXPIRE if the counter is new or has no expiry, and the answer.
unfoldable pub expire : FixedWindowLimiter → ℕ → Counter → Counter
expire f now c =
    let restarted = record c { expires = some (now + f.window_sec) } in
    if c.count == 1 then restarted else elim c.expires [ none ↦ restarted | some t ↦ c ]

abbrev ttl_of : ℕ → Counter → ℕ
ttl_of now c = elim c.expires [ none ↦ 0 | some t ↦ t - now ]

-- Add, when Redis answers.
unfoldable pub add : FixedWindowLimiter → ℕ → Option Counter → Added
add f now key =
    let c = expire f now (incr (live now key)) in
    record {
      allowed = not (ltb f.max_fails c.count);
      count = c.count;
      ttl = ttl_of now c;
      counter = c;
    }

-- Reset: the key is deleted.
abbrev pub reset : Option Counter → Option Counter
reset key = none
