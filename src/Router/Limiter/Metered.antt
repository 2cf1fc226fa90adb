-- ===== src/Router/Limiter/Metered.antt =====
-- KeyLimiter with the cleanup of idle limiters, and one bucket for each client that is never dropped.
pub mod Tracked
pub mod Answers
use snowgo.Prelude.{
  ℕ, zero, suc, ◌+◌, ◌≡◌, ◌<◌, ◌≤◌, refl, ap, fun_ext, subst, ◌∙◌, Bool, true, false, List, [], ◌∷◌,
  Option, none, some, String, str_eq, eq_iff, ◌==◌, ltb, if◌then◌else◌, arith,
}
use mathlib.Core.Option.{map as map_option}
use snowgo.Xerror.{Result, ok, err, biz, key_too_many_requests}
use snowgo.Xlimiter.TokenBucket.{
  Rate, BucketLimiter, Limiters, default_idle_threshold, with_key, with_limiter, new_token_bucket,
  new_bucket_limiter, load_or_store, stored, allow, put, used, at_once, cleanup, is_idle,
}
use snowgo.Xlimiter.TokenBucket.Separate.{
  IsSeparate, load_or_store-IsSeparate, put-IsSeparate, stored-IsSeparate, cleanup-IsSeparate,
}
use snowgo.Router.Limiter.{key_limiter, try_token}

pub data Event : Type 0 where
  request : ℕ → String → Event
  tick : ℕ → Event

abbrev pub time : Event → ℕ
time (request t client_ip) = t
time (tick t) = t

-- The clock does not go back.
abbrev pub IsOrdered : ℕ → List Event → Type 0
IsOrdered now [] = Unit
IsOrdered now (e ∷ es) = (now ≤ time e) × IsOrdered (time e) es

abbrev pub verdict : Bool → Result (Unit {0})
verdict granted = if granted then ok tt else err (biz key_too_many_requests)

abbrev pub then_add :
    Result (Unit {0}) → Option (List (Result (Unit {0}))) → Option (List (Result (Unit {0})))
then_add a none = none
then_add a (some rest) = some (a ∷ rest)

-- The answers to the requests, if none panics.
abbrev pub served_after :
    {Bucket : Type 0}
    → (Limiters Bucket → Option (List (Result (Unit {0}))))
    → Option (Result (Unit {0}) × Limiters Bucket)
    → Option (List (Result (Unit {0})))
served_after rest none = none
served_after rest (some (a, ls)) = then_add a (rest ls)

abbrev pub served :
    {Limit Bucket : Type 0}
    → Rate Limit Bucket
    → Limit
    → ℕ
    → List Event
    → Limiters Bucket
    → Option (List (Result (Unit {0})))
served rate r b [] ls = some []
served rate r b (request t client_ip ∷ es) ls =
    served_after (served rate r b es) (key_limiter rate r b t client_ip ls)
served rate r b (tick t ∷ es) ls = served rate r b es (cleanup t ls)

abbrev pub with_bucket : {Bucket : Type 0} → String → Bucket → (String → Bucket) → String → Bucket
with_bucket key v m k = if str_eq key k then v else m k

-- The answers where each client has a bucket that stays, and nothing else happens to it.
abbrev pub metered :
    {Limit Bucket : Type 0}
    → Rate Limit Bucket
    → List Event
    → (String → Bucket)
    → List (Result (Unit {0}))
metered rate [] buckets = []
metered rate (request t client_ip ∷ es) buckets =
    let a = rate.allow t (buckets client_ip) in
    verdict a.0 ∷ metered rate es (with_bucket client_ip a.1 buckets)
metered rate (tick t ∷ es) buckets = metered rate es buckets

-- A bucket that has been made with these parameters and asked for tokens.
pub data IsAsked {Limit Bucket : Type 0} (rate : Rate Limit Bucket) (r : Limit) (b : ℕ)
    : Bucket → Type 0 where
  made : IsAsked rate r b (rate.new_limiter r b)
  asked : {x : Bucket} (t : ℕ) → IsAsked rate r b x → IsAsked rate r b (rate.allow t x).1

-- An Allow that refuses takes nothing, and the rate fills the bucket within the idle threshold, so
-- that it then answers as a new one.
pub record Refills {Limit Bucket : Type 0} (rate : Rate Limit Bucket) (r : Limit) (b : ℕ)
    : Type 0 where
  pub refused : (x : Bucket) (t : ℕ) → (rate.allow t x).0 ≡ false → (rate.allow t x).1 ≡ x
  pub filled :
      (x : Bucket) (g t : ℕ)
      → IsAsked rate r b x
      → (rate.allow g x).0 ≡ true
      → g + default_idle_threshold < t
      → rate.allow t (rate.allow g x).1 ≡ rate.allow t (rate.new_limiter r b)
