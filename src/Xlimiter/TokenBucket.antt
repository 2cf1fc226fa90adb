-- ===== src/Xlimiter/TokenBucket.antt =====
-- pkg/xlimiter/token_bucket_limiter.go: the limiters of the process, shared by their keys. The
-- limiter of golang.org/x/time/rate is a parameter. Times are in nanoseconds.
pub mod Separate
use snowgo.Prelude.{
  ℕ, suc, ◌+◌, ◌*◌, Bool, true, false, Option, none, some, String, str_eq, ◌==◌, ltb, if◌then◌else◌,
}

-- rate.Limiter at a time. Wait is given its deadline, and gives when it returns or an error.
pub record Rate (Limit Bucket : Type 0) : Type 0 where
  pub new_limiter : Limit → ℕ → Bucket
  pub allow : ℕ → Bucket → Bool × Bucket
  pub wait : ℕ → ℕ → Bucket → Option ℕ × Bucket
  pub reserve : ℕ → Bucket → Bool × Bucket
  pub set_limit : ℕ → Limit → Bucket → Bucket
  pub set_burst : ℕ → ℕ → Bucket → Bucket

-- The prefix that all keys share is left out.
pub record BucketLimiter (Bucket : Type 0) : Type 0 where
  pub key : String
  pub last_get_time : ℕ
  pub limiter : Bucket

-- limiterMap with what its pointers point to. `next` is the first address that is free.
pub record Limiters (Bucket : Type 0) : Type 0 where
  pub limiter_map : String → Option ℕ
  pub heap : ℕ → BucketLimiter Bucket
  pub next : ℕ

-- 30 minutes
abbrev pub default_idle_threshold : ℕ
default_idle_threshold = 1800000000000

-- A map with one key set or deleted, and a heap with one limiter changed.
unfoldable pub with_key : String → Option ℕ → (String → Option ℕ) → String → Option ℕ
with_key key v m k = if str_eq key k then v else m k

unfoldable pub with_limiter :
    {Bucket : Type 0}
    → ℕ
    → BucketLimiter Bucket
    → (ℕ → BucketLimiter Bucket)
    → ℕ
    → BucketLimiter Bucket
with_limiter p bl heap a = if p == a then bl else heap a

abbrev pub put : {Bucket : Type 0} → ℕ → BucketLimiter Bucket → Limiters Bucket → Limiters Bucket
put p bl ls = record ls { heap = with_limiter p bl ls.heap }

-- A new limiter stored under its key, at the next address.
abbrev pub stored : {Bucket : Type 0} → BucketLimiter Bucket → Limiters Bucket → Limiters Bucket
stored bl ls = record {
  limiter_map = with_key bl.key (some ls.next) ls.limiter_map;
  heap = with_limiter ls.next bl ls.heap;
  next = suc ls.next;
}

abbrev pub new_bucket_limiter :
    {Limit Bucket : Type 0} → Rate Limit Bucket → ℕ → String → Limit → ℕ → BucketLimiter Bucket
new_bucket_limiter rate now key limit burst = record {
  key = key;
  last_get_time = now;
  limiter = rate.new_limiter limit burst;
}

-- LoadOrStore: the limiter and whether it is new.
abbrev pub load_or_store :
    {Bucket : Type 0}
    → BucketLimiter Bucket
    → Option ℕ
    → Limiters Bucket
    → (ℕ × Bool) × Limiters Bucket
load_or_store bl (some p) ls = ((p, false), ls)
load_or_store bl none ls = ((ls.next, true), stored bl ls)

-- A burst of 0 panics.
unfoldable pub new_token_bucket :
    {Limit Bucket : Type 0}
    → Rate Limit Bucket
    → ℕ
    → String
    → Limit
    → ℕ
    → Limiters Bucket
    → Option ((ℕ × Bool) × Limiters Bucket)
new_token_bucket rate now key limit burst ls =
    if burst == 0
    then none
    else some (load_or_store (new_bucket_limiter rate now key limit burst) (ls.limiter_map key) ls)

-- The limiter after a call, with the time of its success noted if there is one.
abbrev pub used :
    {Bucket : Type 0} → Option ℕ → Bucket → BucketLimiter Bucket → BucketLimiter Bucket
used finished b bl = record {
  key = bl.key;
  last_get_time = elim finished [ none ↦ bl.last_get_time | some t ↦ t ];
  limiter = b;
}

abbrev pub at_once : Bool → ℕ → Option ℕ
at_once granted now = if granted then some now else none

unfoldable pub allow :
    {Limit Bucket : Type 0} → Rate Limit Bucket → ℕ → ℕ → Limiters Bucket → Bool × Limiters Bucket
allow rate now p ls =
    let r = rate.allow now (ls.heap p).limiter in
    (r.0, put p (used (at_once r.0 now) r.1 (ls.heap p)) ls)

unfoldable pub wait :
    {Limit Bucket : Type 0}
    → Rate Limit Bucket
    → (now deadline p : ℕ) → Limiters Bucket
    → Option ℕ × Limiters Bucket
wait rate now deadline p ls =
    let r = rate.wait now deadline (ls.heap p).limiter in (r.0, put p (used r.0 r.1 (ls.heap p)) ls)

unfoldable pub reserve :
    {Limit Bucket : Type 0} → Rate Limit Bucket → ℕ → ℕ → Limiters Bucket → Bool × Limiters Bucket
reserve rate now p ls =
    let r = rate.reserve now (ls.heap p).limiter in
    (r.0, put p (used (at_once r.0 now) r.1 (ls.heap p)) ls)

unfoldable pub set_limit :
    {Limit Bucket : Type 0} → Rate Limit Bucket → ℕ → Limit → ℕ → Limiters Bucket → Limiters Bucket
set_limit rate now new_limit p ls =
    let bl = ls.heap p in put p (record bl { limiter = rate.set_limit now new_limit bl.limiter }) ls

unfoldable pub set_burst :
    {Limit Bucket : Type 0} → Rate Limit Bucket → ℕ → ℕ → ℕ → Limiters Bucket → Limiters Bucket
set_burst rate now new_burst p ls =
    let bl = ls.heap p in put p (record bl { limiter = rate.set_burst now new_burst bl.limiter }) ls

unfoldable pub close : {Bucket : Type 0} → ℕ → Limiters Bucket → Limiters Bucket
close p ls = record ls { limiter_map = with_key (ls.heap p).key none ls.limiter_map }

abbrev pub is_idle : {Bucket : Type 0} → ℕ → BucketLimiter Bucket → Bool
is_idle now bl = ltb (bl.last_get_time + default_idle_threshold) now

-- One tick of the cleanup.
unfoldable pub cleanup : {Bucket : Type 0} → ℕ → Limiters Bucket → Limiters Bucket
cleanup now ls = record ls {
  limiter_map = λ k. elim (ls.limiter_map k) [
    | none ↦ none
    | some p ↦ if is_idle now (ls.heap p) then none else some p
  ];
}
