-- ===== src/Router/Limiter/Metered/Answers.antt =====
-- KeyLimiter at one request, and at all of them.
use snowgo.Prelude.{
  ℕ, ◌≡◌, ◌≤◌, refl, ap, fun_ext, subst, ◌∙◌, Bool, true, false, List, [], ◌∷◌, Option, none, some,
  String, str_eq, eq_iff, ◌==◌, if◌then◌else◌, arith,
}
use mathlib.Core.Option.{map as map_option}
use snowgo.Xlimiter.TokenBucket.{
  Rate, BucketLimiter, Limiters, with_key, with_limiter, new_token_bucket, new_bucket_limiter,
  load_or_store, stored, allow, cleanup,
}
use snowgo.Router.Limiter.{key_limiter, try_token}
use snowgo.Router.Limiter.Metered.{
  Event, request, tick, IsOrdered, verdict, then_add, served, served_after, metered, with_bucket,
  made, Refills,
}
use snowgo.Router.Limiter.Metered.Tracked.{
  IsTracked, cleanup-IsTracked, stored-IsTracked, asked-IsTracked,
}

module _ {Limit Bucket : Type 0} (rate : Rate Limit Bucket) (r : Limit) (b : ℕ) where
  new_token_bucket-ok :
      (t : ℕ) (key : String) (ls : Limiters Bucket)
      → (b == 0) ≡ false
      → new_token_bucket rate t key r b ls
        ≡ some (load_or_store (new_bucket_limiter rate t key r b) (ls.limiter_map key) ls)
  unfolding new_token_bucket
  new_token_bucket-ok t key ls n = rw n refl

  -- The answer of the client's bucket, and what is left.
  record Answers (t : ℕ) (key : String) (ls : Limiters Bucket) (buckets : String → Bucket)
      : Type 0 where
    left : Limiters Bucket
    reply : key_limiter rate r b t key ls ≡ some (verdict (rate.allow t (buckets key)).0, left)
    tracked : IsTracked rate r b t left (with_bucket key (rate.allow t (buckets key)).1 buckets)

  later-IsTracked :
      (now t : ℕ) (ls : Limiters Bucket) (buckets : String → Bucket)
      → now ≤ t
      → IsTracked rate r b now ls buckets
      → IsTracked rate r b t ls buckets
  later-IsTracked now t ls buckets o s = record {
    separate = s.separate;
    unused = λ k h u o'. s.unused k h u (omega arith);
    current = s.current;
    full_after = s.full_after;
    all_asked = s.all_asked;
  }

  key_limiter-asks :
      (t : ℕ) (key : String) (ls : Limiters Bucket)
      → (b == 0) ≡ false
      → key_limiter rate r b t key ls
        ≡ some (
            try_token rate t
              (load_or_store (new_bucket_limiter rate t key r b) (ls.limiter_map key) ls))
  unfolding key_limiter
  key_limiter-asks t key ls n = ap (map_option (try_token rate t)) (new_token_bucket-ok t key ls n)

  same-IsTracked :
      (now : ℕ) (ls : Limiters Bucket) (buckets others : String → Bucket)
      → ((k : String) → buckets k ≡ others k)
      → IsTracked rate r b now ls buckets
      → IsTracked rate r b now ls others
  same-IsTracked now ls buckets others e = subst (IsTracked rate r b now ls) (fun_ext e)

  -- What the limiter answers that is found or made for a client.
  try_token-Answers :
      (t p : ℕ) (created : Bool) (key : String) (ls left : Limiters Bucket)
      (buckets at_hand : String → Bucket)
      → Refills rate r b
      → key_limiter rate r b t key ls ≡ some (try_token rate t ((p, created), left))
      → left.limiter_map key ≡ some p
      → rate.allow t (at_hand key) ≡ rate.allow t (buckets key)
      → ((k : String) → str_eq key k ≡ false → at_hand k ≡ buckets k)
      → IsTracked rate r b t left at_hand
      → Answers t key ls buckets
  unfolding try_token allow with_limiter
  try_token-Answers t p created key ls left buckets at_hand f c e a others s = record {
    left = (allow rate t p left).1;
    reply =
        c
        ∙ ap (λ x. some (verdict x.0, (allow rate t p left).1))
            (ap (rate.allow t) (s.current key p e) ∙ a);
    tracked =
        same-IsTracked t _ _ _ (λ k. by_key k (str_eq key k) (others k))
          (asked-IsTracked rate r b t p key left at_hand f e s);
  }
    where
      by_key :
          (k : String) (c : Bool)
          → (c ≡ false → at_hand k ≡ buckets k)
          → (if c then (rate.allow t (at_hand key)).1 else at_hand k)
            ≡ (if c then (rate.allow t (buckets key)).1 else buckets k)
      by_key k true h = ap (λ x. x.1) a
      by_key k false h = h refl

  key_limiter-Answers :
      (now t : ℕ) (key : String) (ls : Limiters Bucket) (buckets : String → Bucket)
      → Refills rate r b
      → (b == 0) ≡ false
      → now ≤ t
      → IsTracked rate r b now ls buckets
      → Answers t key ls buckets
  unfolding with_key
  key_limiter-Answers now t key ls buckets f n o s = by_found (ls.limiter_map key) refl
    where
      asks :
          (found : Option ℕ)
          → ls.limiter_map key ≡ found
          → key_limiter rate r b t key ls
            ≡ some (try_token rate t (load_or_store (new_bucket_limiter rate t key r b) found ls))
      asks found e =
          key_limiter-asks t key ls n
          ∙ ap
              (λ x.
                some (try_token rate t (load_or_store (new_bucket_limiter rate t key r b) x ls)))
              e

      self : str_eq key key ≡ true
      self = (eq_iff key key).1 refl

      by_found : (found : Option ℕ) → ls.limiter_map key ≡ found → Answers t key ls buckets
      by_found (some p) e =
          try_token-Answers t p false key ls ls buckets buckets f (asks (some p) e) e refl
            (λ k h. refl) (later-IsTracked now t ls buckets o s)
      by_found none e =
          try_token-Answers t ls.next true key ls (stored (new_bucket_limiter rate t key r b) ls)
            buckets (with_bucket key (rate.new_limiter r b) buckets) f (asks none e)
            (grind (arith, self)) (grind (arith, self, s.unused key e t o))
            (λ k h. grind (arith, h)) (stored-IsTracked rate r b now t key ls buckets o s)

  served-metered :
      (now : ℕ) (es : List Event) (ls : Limiters Bucket) (buckets : String → Bucket)
      → Refills rate r b
      → (b == 0) ≡ false
      → IsOrdered now es
      → IsTracked rate r b now ls buckets
      → served rate r b es ls ≡ some (metered rate es buckets)
  served-metered now [] ls buckets f n o s = refl
  served-metered now (tick t ∷ es) ls buckets f n o s =
      served-metered t es (cleanup t ls) buckets f n o.1
        (cleanup-IsTracked rate r b now t ls buckets o.0 s)
  served-metered now (request t key ∷ es) ls buckets f n o s =
      let a = key_limiter-Answers now t key ls buckets f n o.0 s in
      ap (served_after (served rate r b es)) a.reply
      ∙ ap (then_add (verdict (rate.allow t (buckets key)).0)) (
          served-metered t es a.left (with_bucket key (rate.allow t (buckets key)).1 buckets) f n
            o.1 a.tracked)

  -- Where the rate fills a bucket within the 30 minutes after which the cleanup drops an idle limiter,
  -- the cleanup is not seen: whatever requests arrive, at a clock that does not go back, and whenever
  -- the cleanup runs in between, KeyLimiter never panics for a positive burst, and admits and refuses
  -- exactly as if each client had its own bucket for ever.
  pub key_limiter-metered :
      (es : List Event) (heap : ℕ → BucketLimiter Bucket)
      → Refills rate r b
      → (b == 0) ≡ false
      → IsOrdered 0 es
      → served rate r b es (record { limiter_map = λ k. none; heap = heap; next = 0 })
        ≡ some (metered rate es (λ k. rate.new_limiter r b))
  key_limiter-metered es heap f n o =
      served-metered 0 es _ (λ k. rate.new_limiter r b) f n o
        (record {
          separate = λ k p h. absurd cc;
          unused = λ k h t l. refl;
          current = λ k p h. absurd cc;
          full_after = λ k p h. absurd cc;
          all_asked = λ k. made;
        })
