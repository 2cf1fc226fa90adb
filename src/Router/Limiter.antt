-- ===== src/Router/Limiter.antt =====
-- internal/router/middleware/limiter.go and ip_whitelist.go. A refusal is the error whose message it
-- shows. Networks and addresses are those of package net.
pub mod Metered
mod Tests
use snowgo.Prelude.{
  ℕ, ◌+◌, Bool, true, false, List, [], ◌∷◌, Option, none, some, String, any, if◌then◌else◌,
}
use mathlib.Core.Option.{map as map_option}
use snowgo.Xerror.{Result, ok, err, biz, http_forbidden, too_many_requests, key_too_many_requests}
use snowgo.Xlimiter.TokenBucket.{Rate, Limiters, new_token_bucket, allow, wait}

-- The token that KeyLimiter asks of the limiter it has got.
unfoldable pub try_token :
    {Limit Bucket : Type 0}
    → Rate Limit Bucket
    → ℕ
    → (ℕ × Bool) × Limiters Bucket
    → Result (Unit {0}) × Limiters Bucket
try_token rate now ((p, created), ls) =
    let a = allow rate now p ls in (if a.0 then ok tt else err (biz key_too_many_requests), a.1)

-- KeyLimiter at a request of a client.
unfoldable pub key_limiter :
    {Limit Bucket : Type 0}
    → Rate Limit Bucket
    → Limit
    → ℕ
    → ℕ
    → String
    → Limiters Bucket
    → Option (Result (Unit {0}) × Limiters Bucket)
key_limiter rate r b now client_ip ls =
    map_option (try_token rate now) (new_token_bucket rate now client_ip r b ls)

-- AccessLimiter at a request, with the limiter that it made when the routes were set up.
unfoldable pub access_limiter :
    {Limit Bucket : Type 0}
    → Rate Limit Bucket
    → (wait_time now p : ℕ) → Limiters Bucket
    → Result (Unit {0}) × Limiters Bucket
access_limiter rate wait_time now p ls =
    let w = wait rate now (now + wait_time) p ls in
    (elim w.0 [ some finished ↦ ok tt | none ↦ err (biz too_many_requests) ], w.1)

-- Package net.
pub record Net (Ip Network : Type 0) : Type 0 where
  pub parse_cidr : String → Option Network
  pub parse_ip : String → Option Ip
  pub contains : Network → Ip → Bool

-- The entries of the list that are networks: the others are passed over.
abbrev pub networks : {Ip Network : Type 0} → Net Ip Network → List String → List Network
networks net [] = []
networks net (cidr ∷ rest) = elim (net.parse_cidr cidr) [
  | some network ↦ network ∷ networks net rest
  | none ↦ networks net rest
]

-- IPWhiteList at a request.
abbrev pub ip_white_list :
    {Ip Network : Type 0} → Net Ip Network → List Network → String → Result (Unit {0})
ip_white_list net cidrs client_ip = elim (net.parse_ip client_ip) [
  | none ↦ err (biz http_forbidden)
  | some ip ↦
      if any (λ network. net.contains network ip) cidrs then ok tt else err (biz http_forbidden)
]
