-- ===== src/Router/Limiter/Metered/Tracked.antt =====
-- The limiters of the process, as long as they answer as the buckets of the clients do.
use snowgo.Prelude.{
  ℕ, ◌+◌, ◌≡◌, ◌<◌, ◌≤◌, refl, ap, ◌∙◌, Bool, true, false, Option, none, some, String, str_eq,
  eq_iff, if◌then◌else◌, arith,
}
use snowgo.Xlimiter.TokenBucket.{
  Rate, BucketLimiter, Limiters, default_idle_threshold, with_key, with_limiter, new_bucket_limiter,
  stored, allow, used, at_once, cleanup,
}
use snowgo.Xlimiter.TokenBucket.Separate.{
  IsSeparate, put-IsSeparate, stored-IsSeparate, cleanup-IsSeparate,
}
use snowgo.Router.Limiter.Metered.{with_bucket, IsAsked, made, asked, Refills}

either_holds :
    {A : Type 0} (P : A → Type 0) (c : Bool) {x y : A} → P x → P y → P (if c then x else y)
either_holds P true h k = h
either_holds P false h k = k

module _ {Limit Bucket : Type 0} (rate : Rate Limit Bucket) (r : Limit) (b : ℕ) where
  -- From a time on the bucket answers as a new one.
  abbrev pub IsFull : ℕ → Bucket → Type 0
  IsFull now x = (t : ℕ) → now < t → rate.allow t x ≡ rate.allow t (rate.new_limiter r b)

  pub record IsTracked (now : ℕ) (ls : Limiters Bucket) (buckets : String → Bucket) : Type 0 where
    pub separate : IsSeparate ls
    pub unused :
        (k : String)
        → ls.limiter_map k ≡ none
        → (t : ℕ) → now ≤ t
        → rate.allow t (buckets k) ≡ rate.allow t (rate.new_limiter r b)
    pub current : (k : String) (p : ℕ) → ls.limiter_map k ≡ some p → (ls.heap p).limiter ≡ buckets k
    pub full_after :
        (k : String) (p : ℕ)
        → ls.limiter_map k ≡ some p
        → IsFull ((ls.heap p).last_get_time + default_idle_threshold) (buckets k)
    pub all_asked : (k : String) → IsAsked rate r b (buckets k)

  pub kept_limiter :
      (t : ℕ) (ls : Limiters Bucket) (k : String) (p : ℕ)
      → (cleanup t ls).limiter_map k ≡ some p
      → ls.limiter_map k ≡ some p
  unfolding cleanup
  kept_limiter t ls k p h = grind (arith, h)

  dropped_limiter :
      (t : ℕ) (ls : Limiters Bucket) (k : String) (p : ℕ)
      → (cleanup t ls).limiter_map k ≡ none
      → ls.limiter_map k ≡ some p
      → (ls.heap p).last_get_time + default_idle_threshold < t
  unfolding cleanup
  dropped_limiter t ls k p h e = grind (arith, h, e)

  pub cleanup-IsTracked :
      (now t : ℕ) (ls : Limiters Bucket) (buckets : String → Bucket)
      → now ≤ t
      → IsTracked now ls buckets
      → IsTracked t (cleanup t ls) buckets
  unfolding cleanup
  cleanup-IsTracked now t ls buckets o s = record {
    separate = cleanup-IsSeparate t ls s.separate;
    unused = λ k h u o'. by_found k h u o' (ls.limiter_map k) refl;
    current = λ k p h. s.current k p (kept_limiter t ls k p h);
    full_after = λ k p h. s.full_after k p (kept_limiter t ls k p h);
    all_asked = s.all_asked;
  }
    where
      by_found :
          (k : String)
          → (cleanup t ls).limiter_map k ≡ none
          → (u : ℕ) → t ≤ u
          → (found : Option ℕ) → ls.limiter_map k ≡ found
          → rate.allow u (buckets k) ≡ rate.allow u (rate.new_limiter r b)
      by_found k h u o' none e = s.unused k e u (omega arith)
      by_found k h u o' (some p) e =
          let d = dropped_limiter t ls k p h e in s.full_after k p e u (omega (arith, d, o'))

  -- A new limiter, and the client's bucket taken for a new one.
  pub stored-IsTracked :
      (now t : ℕ) (key : String) (ls : Limiters Bucket) (buckets : String → Bucket)
      → now ≤ t
      → IsTracked now ls buckets
      → IsTracked t
          (stored (new_bucket_limiter rate t key r b) ls)
          (with_bucket key (rate.new_limiter r b) buckets)
  unfolding with_key with_limiter
  stored-IsTracked now t key ls buckets o s = record {
    separate = stored-IsSeparate (new_bucket_limiter rate t key r b) ls s.separate;
    unused = λ k h u o'. grind (arith, s.unused k);
    current = λ k p h. grind (arith, s.current k p, s.separate k p);
    full_after = λ k p h u l. grind (arith, s.full_after k p, s.separate k p);
    all_asked = λ k. either_holds (IsAsked rate r b) (str_eq key k) made (s.all_asked k);
  }

  asked-IsFull :
      (t : ℕ) (x : Bucket) (bl : BucketLimiter Bucket) (granted : Bool)
      → Refills rate r b
      → IsAsked rate r b x
      → (rate.allow t x).0 ≡ granted
      → IsFull (bl.last_get_time + default_idle_threshold) x
      → IsFull
          ((used (at_once granted t) (rate.allow t x).1 bl).last_get_time + default_idle_threshold)
          (rate.allow t x).1
  asked-IsFull t x bl true f a e h u l = f.filled x t u a e l
  asked-IsFull t x bl false f a e h u l = ap (rate.allow u) (f.refused x t e) ∙ h u l

  -- A client's limiter is asked, and so is its bucket.
  pub asked-IsTracked :
      (t p : ℕ) (key : String) (ls : Limiters Bucket) (buckets : String → Bucket)
      → Refills rate r b
      → ls.limiter_map key ≡ some p
      → IsTracked t ls buckets
      → IsTracked t (allow rate t p ls).1 (with_bucket key (rate.allow t (buckets key)).1 buckets)
  unfolding allow with_limiter
  asked-IsTracked t p key ls buckets f e s = record {
    separate = put-IsSeparate p _ ls refl s.separate;
    unused = λ k h u o'. grind (arith, s.unused k, e, eq_iff key k);
    current = λ k q h.
        grind (
          arith,
          s.current k q,
          s.current key p e,
          s.separate k q,
          s.separate key p e,
          eq_iff key k,
        );
    full_after = λ k q h u l. grind (
      arith,
      s.current key p e,
      s.full_after k q h u,
      s.separate k q,
      s.separate key p e,
      eq_iff key k,
      asked-IsFull t (buckets key) (ls.heap p) (rate.allow t (buckets key)).0 f (s.all_asked key)
          refl (s.full_after key p e) u,
    );
    all_asked = λ k.
        either_holds (IsAsked rate r b) (str_eq key k) (asked t (s.all_asked key)) (s.all_asked k);
  }
