-- ===== src/Xlimiter/Tests.antt =====
-- A limiter of 3 calls in 60 seconds.
use snowgo.Prelude.{◌≡◌, some, none, [], ◌∷◌, arith}
use snowgo.Xlimiter.{FixedWindowLimiter}
use snowgo.Xlimiter.Window.{
  allowances, allowed_up_to, Restarts, allowances-within_window, add-after_window,
}

abbrev limiter : FixedWindowLimiter
limiter = record { window_sec = 60; max_fails = 3 }

allowances-within_window_example :
    allowances limiter (10 ∷ 11 ∷ 20 ∷ 30 ∷ 69 ∷ []) none ≡ allowed_up_to 3 1 5
allowances-within_window_example =
    allowances-within_window limiter 10 (11 ∷ 20 ∷ 30 ∷ 69 ∷ [])
      (omega arith, (omega arith, (omega arith, (omega arith, tt))))

add-after_window_example : Restarts limiter 70 (record { count = 9; expires = some 70 })
add-after_window_example = add-after_window limiter 70 70 9 (omega arith) (omega arith)
