-- ===== src/Xlimiter/TokenBucket/Separate.antt =====
-- Limiters under different keys.
use snowgo.Prelude.{
  ℕ, zero, suc, subst, ◌≡◌, ◌<◌, refl, Bool, Option, none, some, String, eq_iff, arith,
}
use snowgo.Xlimiter.TokenBucket.{
  Rate, BucketLimiter, Limiters, with_key, with_limiter, new_token_bucket, allow, wait, reserve,
  set_limit, set_burst, close, cleanup, put, stored, load_or_store, new_bucket_limiter,
}

-- What the process does with its limiters: by a pointer it has been given, whether or not the
-- limiter is still in the map.
pub data Reached {Limit Bucket : Type 0} (rate : Rate Limit Bucket) : Limiters Bucket → Type 0 where
  start :
      (heap : ℕ → BucketLimiter Bucket)
      → Reached rate (record { limiter_map = λ k. none; heap = heap; next = 0 })
  got :
      {ls ls' : Limiters Bucket} {p : ℕ × Bool} (now : ℕ) (key : String) (limit : Limit) (burst : ℕ)
      → new_token_bucket rate now key limit burst ls ≡ some (p, ls')
      → Reached rate ls
      → Reached rate ls'
  allowed :
      {ls : Limiters Bucket} (now p : ℕ) → Reached rate ls → Reached rate (allow rate now p ls).1
  waited :
      {ls : Limiters Bucket} (now deadline p : ℕ)
      → Reached rate ls
      → Reached rate (wait rate now deadline p ls).1
  reserved :
      {ls : Limiters Bucket} (now p : ℕ) → Reached rate ls → Reached rate (reserve rate now p ls).1
  limited :
      {ls : Limiters Bucket} (now : ℕ) (new_limit : Limit) (p : ℕ)
      → Reached rate ls
      → Reached rate (set_limit rate now new_limit p ls)
  widened :
      {ls : Limiters Bucket} (now new_burst p : ℕ)
      → Reached rate ls
      → Reached rate (set_burst rate now new_burst p ls)
  closed : {ls : Limiters Bucket} (p : ℕ) → Reached rate ls → Reached rate (close p ls)
  cleaned : {ls : Limiters Bucket} (now : ℕ) → Reached rate ls → Reached rate (cleanup now ls)

-- A limiter in the map is one that was made, for the key it stands under.
abbrev pub IsSeparate : {Bucket : Type 0} → Limiters Bucket → Type 0
IsSeparate ls =
    (k : String) (p : ℕ) → ls.limiter_map k ≡ some p → (p < ls.next) × ((ls.heap p).key ≡ k)

pub put-IsSeparate :
    {Bucket : Type 0} (p : ℕ) (bl : BucketLimiter Bucket) (ls : Limiters Bucket)
    → bl.key ≡ (ls.heap p).key
    → IsSeparate ls
    → IsSeparate (put p bl ls)
unfolding with_limiter
put-IsSeparate p bl ls e s k q h = grind (arith, s k q h)

pub stored-IsSeparate :
    {Bucket : Type 0} (bl : BucketLimiter Bucket) (ls : Limiters Bucket)
    → IsSeparate ls
    → IsSeparate (stored bl ls)
unfolding with_key with_limiter
stored-IsSeparate bl ls s k q h = grind (arith, s k q, (eq_iff bl.key k).0)

pub load_or_store-IsSeparate :
    {Bucket : Type 0} (bl : BucketLimiter Bucket) (found : Option ℕ) (ls : Limiters Bucket)
    → IsSeparate ls
    → IsSeparate (load_or_store bl found ls).1
load_or_store-IsSeparate bl none ls s = stored-IsSeparate bl ls s
load_or_store-IsSeparate bl (some p) ls s = s

-- What stands behind the only answer of NewTokenBucket that is not a panic.
pub new_token_bucket-stores :
    {Limit Bucket : Type 0} (rate : Rate Limit Bucket) (ls ls' : Limiters Bucket) (p : ℕ × Bool)
    (now : ℕ) (key : String) (limit : Limit) (burst : ℕ)
    → new_token_bucket rate now key limit burst ls ≡ some (p, ls')
    → load_or_store (new_bucket_limiter rate now key limit burst) (ls.limiter_map key) ls ≡ (p, ls')
unfolding new_token_bucket
new_token_bucket-stores rate ls ls' p now key limit zero e = absurd cc
new_token_bucket-stores rate ls ls' p now key limit (suc burst) e = grind (arith, e)

got-IsSeparate :
    {Limit Bucket : Type 0} (rate : Rate Limit Bucket) (ls ls' : Limiters Bucket) (p : ℕ × Bool)
    (now : ℕ) (key : String) (limit : Limit) (burst : ℕ)
    → new_token_bucket rate now key limit burst ls ≡ some (p, ls')
    → IsSeparate ls
    → IsSeparate ls'
got-IsSeparate rate ls ls' p now key limit burst e s =
    subst (λ r. IsSeparate r.1) (new_token_bucket-stores rate ls ls' p now key limit burst e)
      (load_or_store-IsSeparate (new_bucket_limiter rate now key limit burst) (ls.limiter_map key)
        ls s)

close-IsSeparate :
    {Bucket : Type 0} (p : ℕ) (ls : Limiters Bucket) → IsSeparate ls → IsSeparate (close p ls)
unfolding close with_key
close-IsSeparate p ls s k q h = grind (arith, s k q)

pub cleanup-IsSeparate :
    {Bucket : Type 0} (now : ℕ) (ls : Limiters Bucket) → IsSeparate ls → IsSeparate (cleanup now ls)
unfolding cleanup
cleanup-IsSeparate now ls s k q h = grind (arith, s k q)

-- Whatever is done with the limiters, in whatever order, two keys never have one limiter: a limiter
-- in the map is one that was made, and for the key it stands under.
pub Reached-IsSeparate :
    {Limit Bucket : Type 0} (rate : Rate Limit Bucket) (ls : Limiters Bucket)
    → Reached rate ls
    → IsSeparate ls
unfolding allow wait reserve set_limit set_burst
Reached-IsSeparate rate _ (start heap) = λ k p h. absurd cc
Reached-IsSeparate rate _ (got {ls} {ls'} {p} now key limit burst e r) =
    got-IsSeparate rate ls ls' p now key limit burst e (Reached-IsSeparate rate ls r)
Reached-IsSeparate rate _ (allowed {ls} now p r) =
    put-IsSeparate p _ ls refl (Reached-IsSeparate rate ls r)
Reached-IsSeparate rate _ (waited {ls} now deadline p r) =
    put-IsSeparate p _ ls refl (Reached-IsSeparate rate ls r)
Reached-IsSeparate rate _ (reserved {ls} now p r) =
    put-IsSeparate p _ ls refl (Reached-IsSeparate rate ls r)
Reached-IsSeparate rate _ (limited {ls} now new_limit p r) =
    put-IsSeparate p _ ls refl (Reached-IsSeparate rate ls r)
Reached-IsSeparate rate _ (widened {ls} now new_burst p r) =
    put-IsSeparate p _ ls refl (Reached-IsSeparate rate ls r)
Reached-IsSeparate rate _ (closed {ls} p r) = close-IsSeparate p ls (Reached-IsSeparate rate ls r)
Reached-IsSeparate rate _ (cleaned {ls} now r) =
    cleanup-IsSeparate now ls (Reached-IsSeparate rate ls r)
