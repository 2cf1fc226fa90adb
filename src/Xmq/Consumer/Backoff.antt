-- ===== src/Xmq/Consumer/Backoff.antt =====
-- The workers of a unit, whose rounds take turns in any order: when a worker ends, and how long it
-- waits between its rounds.
use snowgo.Prelude.{
  ℕ, suc, ◌*◌, ◌^◌, ◌≡◌, ◌≤◌, ◌<◌, ◌↔◌, refl, Bool, true, false, ◌&&◌, ◌||◌, List, [], ◌∷◌, none,
  some, arith, ltb, leb, ◌==◌, ==_iff, if◌then◌else◌, ◌∙◌, ap, sym,
}
use native.Mathlib.Nat.{pow-suc, mul_assoc}
use snowgo.Xmq.Consumer.{
  Round, no_channel, no_qos, queue_not_found, not_consuming, consuming, ConsumerUnit,
  ConsumerConnConfig, initial_backoff, max_backoff, Workers, work, start_worker, worker_loop,
  grow_backoff,
}

-- The rounds so far, the last first, each with its worker.
abbrev pub Rounds : Type 0
Rounds = List (ℕ × Round)

-- What the workers of a unit come to. Only a worker that has not ended has a round.
pub data Running (cfg : ConsumerConnConfig) (u : ConsumerUnit) : Rounds → Workers → Type 0 where
  started : Running cfg u [] (start_worker cfg u)
  round :
      {h : Rounds} {ws : Workers} (w : ℕ) (r : Round) (backoff : ℕ)
      → ws.backoffs w ≡ some backoff
      → Running cfg u h ws
      → Running cfg u ((w, r) ∷ h) (worker_loop cfg w r backoff ws)

-- How often any worker has missed the queue since one of them last got to read.
abbrev missed : Rounds → ℕ
missed [] = 0
missed ((w, queue_not_found) ∷ h) = suc (missed h)
missed ((w, consuming) ∷ h) = 0
missed ((w, _) ∷ h) = missed h

abbrev misses_queue : Round → Bool
misses_queue queue_not_found = true
misses_queue _ = false

-- The worker has missed the queue after four misses or more, its own or others'.
abbrev has_fifth_miss : ℕ → Rounds → Bool
has_fifth_miss w [] = false
has_fifth_miss w ((v, r) ∷ h) = (v == w && misses_queue r && leb 4 (missed h)) || has_fifth_miss w h

count-missed :
    (cfg : ConsumerConnConfig) (u : ConsumerUnit) (h : Rounds) (ws : Workers)
    → u.not_found_count ≡ 0
    → Running cfg u h ws
    → ws.unit.not_found_count ≡ missed h
unfolding start_worker worker_loop work
count-missed cfg u _ _ z started = z
count-missed cfg u _ _ z (round {h} {ws} w no_channel b e r) = count-missed cfg u h ws z r
count-missed cfg u _ _ z (round {h} {ws} w no_qos b e r) = count-missed cfg u h ws z r
count-missed cfg u _ _ z (round {h} {ws} w not_consuming b e r) = count-missed cfg u h ws z r
count-missed cfg u _ _ z (round {h} {ws} w consuming b e r) = refl
count-missed cfg u _ _ z (round {h} {ws} w queue_not_found b e r) =
    let k = count-missed cfg u h ws z r in omega (arith, k)

-- A round ends its worker exactly where it misses the queue for at least the fifth time.
work-ends :
    (cfg : ConsumerConnConfig) (r : Round) (backoff m : ℕ) (u : ConsumerUnit)
    → u.not_found_count ≡ m
    → ((work cfg r backoff u).0 ≡ none) ↔ ((misses_queue r && leb 4 m) ≡ true)
unfolding work
work-ends cfg no_channel backoff m u e = ground arith
work-ends cfg no_qos backoff m u e = ground arith
work-ends cfg not_consuming backoff m u e = ground arith
work-ends cfg consuming backoff m u e = ground arith
work-ends cfg queue_not_found backoff m u e = ground arith

-- However the rounds of a unit's workers take turns, a worker that was started has ended exactly when
-- it has missed the queue at a time when the queue had been missed four times or more, by whichever
-- workers, since one of them last got to read from it. The unit is as Register makes it.
pub worker_loop-ends :
    (cfg : ConsumerConnConfig) (u : ConsumerUnit) (h : Rounds) (ws : Workers) (w : ℕ)
    → u.not_found_count ≡ 0
    → w < u.meta.worker_num
    → Running cfg u h ws
    → (ws.backoffs w ≡ none) ↔ (has_fifth_miss w h ≡ true)
unfolding start_worker worker_loop
worker_loop-ends cfg u _ _ w z l started = ground arith
worker_loop-ends cfg u _ _ w z l (round {h} {ws} v r b e run) =
    let k = worker_loop-ends cfg u h ws w z l run in
    let d = work-ends cfg r b (missed h) ws.unit (count-missed cfg u h ws z run) in
    (λ x. grind (arith, x, k.0, d.0, e, ==_iff v w), λ x. grind (arith, x, k.1, d.1, e, ==_iff v w))

abbrev pub least : ℕ → ℕ → ℕ
least a b = if leb a b then a else b

doubled :
    (p max : ℕ) → (if ltb max (least p max * 2) then max else least p max * 2) ≡ least (p * 2) max
doubled p max = ground arith

grow_backoff-doubles :
    (init max n : ℕ) → grow_backoff (least (init * 2 ^ n) max) max ≡ least (init * 2 ^ suc n) max
unfolding grow_backoff
grow_backoff-doubles init max n =
    let e : init * 2 ^ suc n ≡ init * 2 ^ n * 2 =
      ap (λ x. init * x) (pow-suc 2 n) ∙ sym (mul_assoc init (2 ^ n) 2) in
    rw e (doubled (init * 2 ^ n) max)

first : (init max : ℕ) → init ≤ max → init ≡ least (init * 2 ^ 0) max
first init max l = let e : init * 2 ^ 0 ≡ init = omega arith in rw e (ground arith)

abbrev next_waits : Round → ℕ → ℕ
next_waits consuming n = 0
next_waits _ n = suc n

-- How many rounds the worker has had since it last got to read.
abbrev pub waits : ℕ → Rounds → ℕ
waits w [] = 0
waits w ((v, r) ∷ h) = let n = waits w h in if w == v then next_waits r n else n

grown :
    (cfg : ConsumerConnConfig) (k b : ℕ) {backoff : ℕ}
    → b ≡ least (initial_backoff cfg * 2 ^ k) (max_backoff cfg)
    → some (grow_backoff b (max_backoff cfg)) ≡ some backoff
    → backoff ≡ least (initial_backoff cfg * 2 ^ suc k) (max_backoff cfg)
grown cfg k b {backoff} q e =
    let same : grow_backoff b (max_backoff cfg) ≡ backoff = cc in
    sym same
    ∙ ap (λ x. grow_backoff x (max_backoff cfg)) q
    ∙ grow_backoff-doubles (initial_backoff cfg) (max_backoff cfg) k

work-waits :
    (cfg : ConsumerConnConfig) (k : ℕ) (r : Round) (b : ℕ) (u : ConsumerUnit) {backoff : ℕ}
    → initial_backoff cfg ≤ max_backoff cfg
    → b ≡ least (initial_backoff cfg * 2 ^ k) (max_backoff cfg)
    → (work cfg r b u).0 ≡ some backoff
    → backoff ≡ least (initial_backoff cfg * 2 ^ next_waits r k) (max_backoff cfg)
unfolding work
work-waits cfg k no_channel b u l q e = grown cfg k b q e
work-waits cfg k no_qos b u l q e = grown cfg k b q e
work-waits cfg k not_consuming b u l q e = grown cfg k b q e
work-waits cfg k queue_not_found b u l q e = grown cfg k b q (ground arith)
work-waits cfg k consuming b u {backoff} l q e =
    let same : initial_backoff cfg ≡ backoff = cc in
    sym same ∙ first (initial_backoff cfg) (max_backoff cfg) l

-- Where the first wait is within the limit, the wait of a worker that has not ended is the first one
-- doubled once for each round that it has had since it last got to read, or the limit where that is
-- less, whatever the other workers do.
pub worker_loop-backoff :
    (cfg : ConsumerConnConfig) (u : ConsumerUnit) (h : Rounds) (ws : Workers) (w : ℕ) {backoff : ℕ}
    → initial_backoff cfg ≤ max_backoff cfg
    → Running cfg u h ws
    → ws.backoffs w ≡ some backoff
    → backoff ≡ least (initial_backoff cfg * 2 ^ waits w h) (max_backoff cfg)
unfolding start_worker worker_loop
worker_loop-backoff cfg u _ _ w {backoff} l started e =
    let q : initial_backoff cfg ≡ backoff = ground arith in
    sym q ∙ first (initial_backoff cfg) (max_backoff cfg) l
worker_loop-backoff cfg u _ _ w {backoff} l (round {h} {ws} v r b q run) e =
    by_worker (w == v) refl (λ other_wait mine. worker_loop-backoff cfg u h ws w l run mine) e
  where
    by_worker :
        (c : Bool)
        → (w == v) ≡ c
        → ((other_wait : ℕ)
            → ws.backoffs w ≡ some other_wait
            → other_wait ≡ least (initial_backoff cfg * 2 ^ waits w h) (max_backoff cfg))
        → (if c then (work cfg r b ws.unit).0 else ws.backoffs w) ≡ some backoff
        → backoff
          ≡ least
              (initial_backoff cfg * 2 ^ (if c then next_waits r (waits w h) else waits w h))
              (max_backoff cfg)
    by_worker true same before e =
        let mine : ws.backoffs w ≡ some b = grind (arith, q, same, ==_iff w v) in
        work-waits cfg (waits w h) r b ws.unit l (before b mine) e
    by_worker false other before e = before backoff e
