-- ===== src/Router/Limiter/Tests.antt =====
-- A rate of one token for an interval, and clients that come too often.
use snowgo.Prelude.{
  ℕ, ◌+◌, ◌≡◌, ◌<◌, refl, ap, ◌∙◌, Bool, true, false, List, [], ◌∷◌, Option, none, some, String,
  leb, str_eq, arith, if◌then◌else◌,
}
use snowgo.Xerror.{ok, err, biz, key_too_many_requests, too_many_requests, http_forbidden}
use snowgo.Xlimiter.TokenBucket.{
  Rate, BucketLimiter, Limiters, with_key, with_limiter, new_token_bucket, allow, wait, close,
  cleanup, default_idle_threshold,
}
use snowgo.Xlimiter.TokenBucket.Separate.{
  start, got, allowed, cleaned, IsSeparate, Reached-IsSeparate,
}
use snowgo.Router.Limiter.{key_limiter, try_token, access_limiter, Net, networks, ip_white_list}
use snowgo.Router.Limiter.Metered.{
  Event, request, tick, served, metered, IsAsked, made, asked, Refills,
}
use snowgo.Router.Limiter.Metered.Answers.{key_limiter-metered}

-- The interval, and when the last token was taken.
abbrev Bucket : Type 0
Bucket = ℕ × Option ℕ

abbrev has_token : ℕ → Bucket → Bool
has_token t (interval, none) = true
has_token t (interval, some g) = leb (g + interval) t

abbrev take : ℕ → Bucket → Bool × Bucket
take t b = if has_token t b then (true, (b.0, some t)) else (false, b)

abbrev take_by : ℕ → ℕ → Bucket → Option ℕ × Bucket
take_by t deadline (interval, none) = (some t, (interval, some t))
take_by t deadline (interval, some g) =
    if leb (g + interval) deadline
    then (some (g + interval), (interval, some (g + interval)))
    else (none, (interval, some g))

abbrev single : Rate ℕ Bucket
single = record {
  new_limiter = λ interval burst. (interval, none);
  allow = take;
  wait = take_by;
  reserve = take;
  set_limit = λ t interval b. (interval, b.1);
  set_burst = λ t burst b. b;
}

take-interval : (t : ℕ) (x : Bucket) → (take t x).1.0 ≡ x.0
take-interval t x = by_token (has_token t x)
  where
    by_token :
        (c : Bool)
        → (if◌then◌else◌ {A = Bool × Bucket} c (true, (x.0, some t)) (false, x)).1.0 ≡ x.0
    by_token true = refl
    by_token false = refl

take-refused : (t : ℕ) (x : Bucket) → (take t x).0 ≡ false → (take t x).1 ≡ x
take-refused t x h = grind (arith, h)

take-granted : (t : ℕ) (x : Bucket) → (take t x).0 ≡ true → (take t x).1 ≡ (x.0, some t)
take-granted t x h = grind (arith, h)

asked_interval : (r b : ℕ) (x : Bucket) → IsAsked single r b x → x.0 ≡ r
asked_interval r b _ made = refl
asked_interval r b _ (asked {x} t h) = take-interval t x ∙ asked_interval r b x h

late :
    (g t : ℕ)
    → g + default_idle_threshold < t
    → take t (60000000000, some g) ≡ (true, (60000000000, some t))
late g t l = grind (arith, l)

single-Refills : Refills single 60000000000 1
single-Refills = record {
  refused = λ x t h. take-refused t x h;
  filled = λ x g t h e l.
      ap (take t) (take-granted g x e ∙ ap (λ i. (i, some g)) (asked_interval 60000000000 1 x h))
      ∙ late g t l;
}

abbrev heap : ℕ → BucketLimiter Bucket
heap a = record { key = ""; last_get_time = 0; limiter = (0, none) }

abbrev events : List Event
events =
    request 0 "10.0.0.1"
    ∷ request 5 "10.0.0.1"
    ∷ request 6 "10.0.0.2"
    ∷ tick 1800000000001
    ∷ request 1800000000002 "10.0.0.1"
    ∷ []

second_is_refused :
    served single 60000000000 1 events (record { limiter_map = λ k. none; heap = heap; next = 0 })
    ≡ some (ok tt ∷ err (biz key_too_many_requests) ∷ ok tt ∷ ok tt ∷ [])
unfolding key_limiter try_token new_token_bucket allow with_key with_limiter cleanup
second_is_refused = refl

key_limiter-metered_example :
    served single 60000000000 1 events (record { limiter_map = λ k. none; heap = heap; next = 0 })
    ≡ some (metered single events (λ k. (60000000000, none)))
key_limiter-metered_example =
    key_limiter-metered single 60000000000 1 events heap single-Refills refl
      (omega arith, (omega arith, (omega arith, (omega arith, (omega arith, tt)))))

abbrev begun : Limiters Bucket
begun = record { limiter_map = λ k. none; heap = heap; next = 0 }

abbrev with_client : Limiters Bucket
with_client = record {
  limiter_map = with_key "10.0.0.1" (some 0) (λ k. none);
  heap =
      with_limiter 0 (record { key = "10.0.0.1"; last_get_time = 3; limiter = (60000000000, none) })
        heap;
  next = 1;
}

client_is_made :
    new_token_bucket single 3 "10.0.0.1" 60000000000 1 begun ≡ some ((0, true), with_client)
unfolding new_token_bucket
client_is_made = refl

Reached-IsSeparate_example : IsSeparate (cleanup 5 (allow single 4 0 with_client).1)
Reached-IsSeparate_example =
    Reached-IsSeparate single (cleanup 5 (allow single 4 0 with_client).1)
      (cleaned 5 (allowed 4 0 (got 3 "10.0.0.1" 60000000000 1 client_is_made (start heap))))

-- A second client that waits longer than AccessLimiter lets it is refused.
access_is_refused :
    (access_limiter single 1000 5 0 (access_limiter single 1000 4 0 with_client).1).0
    ≡ err (biz too_many_requests)
unfolding access_limiter wait with_limiter
access_is_refused = refl

-- Close takes the limiter out of the map.
closed_is_gone : (close 0 with_client).limiter_map "10.0.0.1" ≡ none
unfolding close with_key with_limiter
closed_is_gone = refl

-- With a token an hour the cleanup gives one back after 30 minutes.
abbrev hourly : List Event
hourly = request 0 "10.0.0.1" ∷ tick 1800000000001 ∷ request 1800000000002 "10.0.0.1" ∷ []

hourly_is_forgotten : served single 3600000000000 1 hourly begun ≡ some (ok tt ∷ ok tt ∷ [])
unfolding key_limiter try_token new_token_bucket allow with_key with_limiter cleanup
hourly_is_forgotten = refl

hourly_is_due :
    metered single hourly (λ k. (3600000000000, none))
    ≡ ok tt ∷ err (biz key_too_many_requests) ∷ []
hourly_is_due = refl

-- A network is one address here, and a text with an empty name is none.
abbrev addresses : Net String String
addresses = record {
  parse_cidr = λ text. if str_eq text "" then none else some text;
  parse_ip = λ text. if str_eq text "" then none else some text;
  contains = λ network ip. str_eq network ip;
}

stranger_is_forbidden :
    ip_white_list addresses (networks addresses ("" ∷ "10.0.0.1" ∷ [])) "10.0.0.2"
    ≡ err (biz http_forbidden)
stranger_is_forbidden = refl
