-- ===== src/Xlimiter/Window.antt =====
-- How many calls of Add are allowed within a window.
use snowgo.Prelude.{
  ℕ, zero, suc, ◌+◌, ◌≤◌, ◌<◌, ◌≡◌, refl, ap, Bool, true, List, [], ◌∷◌, Option, none, some, leb,
  arith, length, All,
}
use snowgo.Xlimiter.{FixedWindowLimiter, Counter, live, incr, expire, add}

-- The answers to calls at these times, one after another.
abbrev pub allowances : FixedWindowLimiter → List ℕ → Option Counter → List Bool
allowances f [] key = []
allowances f (now ∷ times) key =
    let r = add f now key in r.allowed ∷ allowances f times (some r.counter)

-- Of n calls, numbered from i on, those up to number k are allowed.
abbrev pub allowed_up_to : ℕ → ℕ → ℕ → List Bool
allowed_up_to k i zero = []
allowed_up_to k i (suc n) = leb i k ∷ allowed_up_to k (suc i) n

pub add-within :
    (f : FixedWindowLimiter) (now end k : ℕ)
    → now < end
    → ((add f now (some (record { count = suc k; expires = some end }))).allowed
        ≡ leb (suc (suc k)) f.max_fails)
      × ((add f now (some (record { count = suc k; expires = some end }))).counter
          ≡ record { count = suc (suc k); expires = some end })
unfolding add live incr expire
add-within f now end k h = ground arith

counted :
    (f : FixedWindowLimiter) (end k : ℕ) (times : List ℕ)
    → All (λ t. t < end) times
    → allowances f times (some (record { count = suc k; expires = some end }))
      ≡ allowed_up_to f.max_fails (suc (suc k)) (length times)
counted f end k [] h = refl
counted f end k (t ∷ ts) h =
    let r = add-within f t end k h.0 in
    rw (r.0, r.1) (ap (λ l. leb (suc (suc k)) f.max_fails ∷ l) (counted f end (suc k) ts h.1))

pub add-first :
    (f : FixedWindowLimiter) (now : ℕ)
    → ((add f now none).allowed ≡ leb 1 f.max_fails)
      × ((add f now none).counter ≡ record { count = 1; expires = some (now + f.window_sec) })
unfolding add live incr expire
add-first f now = ground arith

-- Where there is no counter, the calls of Add from the first one on and before its window ends are
-- allowed exactly up to the limit: the i-th of them is allowed if and only if i is at most
-- `max_fails`.
pub allowances-within_window :
    (f : FixedWindowLimiter) (now : ℕ) (times : List ℕ)
    → All (λ t. t < now + f.window_sec) times
    → allowances f (now ∷ times) none ≡ allowed_up_to f.max_fails 1 (suc (length times))
allowances-within_window f now times h =
    let r = add-first f now in
    rw (r.0, r.1) (ap (λ l. leb 1 f.max_fails ∷ l) (counted f (now + f.window_sec) 0 times h))

-- The next call is allowed and begins a window.
abbrev pub Restarts : FixedWindowLimiter → ℕ → Counter → Type 0
Restarts f now c =
    ((add f now (some c)).allowed ≡ true)
    × ((add f now (some c)).counter ≡ record { count = 1; expires = some (now + f.window_sec) })

-- Once the window of a counter is over, the next call starts anew, whatever was counted: it is
-- allowed when the limit is positive, and the window begins at that call.
pub add-after_window :
    (f : FixedWindowLimiter) (now end count : ℕ)
    → end ≤ now
    → 0 < f.max_fails
    → Restarts f now (record { count = count; expires = some end })
unfolding add live incr expire
add-after_window f now end count h m = ground arith
