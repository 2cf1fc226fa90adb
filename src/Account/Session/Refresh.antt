-- ===== src/Account/Session/Refresh.antt =====
-- A refresh token is exchanged at most once.
use snowgo.Prelude.{
  ℕ, ◌<◌, ◌≡◌, refl, ap, subst, Bool, true, false, Option, none, some, String, ◌==◌, if◌then◌else◌,
  arith, inl, inr, Option-cases,
}
use snowgo.Xerror.{biz, http_internal_server_error, Result, ok, err}
use snowgo.Account.Session.{
  Claims, Jwt, Token, Sessions, Outage, set_jti, refresh_claims, generate_tokens, is_refresh_token,
  refresh_tokens, save_jti, keep_new, renew,
}

-- A text that was signed is read as the claims that it was made of, if it is read at all.
abbrev pub ReadsSigned : Jwt → Type 0
ReadsSigned jwt =
    (now : ℕ) (c c' : Claims) (text : String)
    → jwt.signed_string c ≡ some text
    → jwt.parse_with_claims now text ≡ some c'
    → c' ≡ c

-- An id that was drawn and may not be used any more.
pub record IsSpent (id : ℕ) (s : Sessions) : Type 0 where
  pub drawn : id < s.next_uuid
  pub gone : s.jti id ≡ false

pub set_jti-IsSpent :
    (id k : ℕ) (b : Bool) (s : Sessions)
    → ((id == k) ≡ true → b ≡ false)
    → IsSpent id s
    → IsSpent id (set_jti k b s)
unfolding set_jti
set_jti-IsSpent id k b s f h =
    let drawn = h.drawn in let gone = h.gone in record { drawn = drawn; gone = ground arith }

-- New tokens leave the ids in the cache alone, and draw the next uuid for the refresh token.
pub generate_tokens-IsSpent :
    (jwt : Jwt) (now user_id : ℕ) (username : String) (id : ℕ) (s : Sessions)
    → IsSpent id s
    → IsSpent id (generate_tokens jwt now user_id username s).1
unfolding generate_tokens
generate_tokens-IsSpent jwt now user_id username id s h =
    let drawn = h.drawn in let gone = h.gone in record { drawn = ground arith; gone = ground arith }

pub generate_tokens-id :
    (jwt : Jwt) (now user_id : ℕ) (username : String) (s : Sessions) (token : Token) (later : ℕ)
    (c : Claims)
    → ReadsSigned jwt
    → (generate_tokens jwt now user_id username s).0 ≡ some token
    → jwt.parse_with_claims later token.refresh_token ≡ some c
    → c.id ≡ s.next_uuid
unfolding generate_tokens
generate_tokens-id jwt now user_id username s token later c reads h p =
    elim (Option-cases (jwt.signed_string (refresh_claims jwt now user_id username s.next_uuid))) [
      | inl e ↦ absurd (ground arith)
      | inr (text, e) ↦
          ap (λ x. x.id)
            (reads later (refresh_claims jwt now user_id username s.next_uuid) c text e
              (subst (λ t. jwt.parse_with_claims later t ≡ some c) (ground arith) p))
    ]

not_itself : (id n : ℕ) → id < n → (id == n) ≡ true → true ≡ false
not_itself id n l h = absurd (ground arith)

-- The id of the token that is kept is the new one.
pub save_jti-IsSpent :
    (jwt : Jwt) (now : ℕ) (set_fails : Bool) (token : Token) (id next : ℕ) (s : Sessions)
    → ((c : Claims) → jwt.parse_with_claims now token.refresh_token ≡ some c → c.id ≡ next)
    → id < next
    → IsSpent id s
    → IsSpent id (save_jti jwt now set_fails token s)
unfolding save_jti
save_jti-IsSpent jwt now set_fails token id next s f l h =
    by_claims (jwt.parse_with_claims now token.refresh_token) f
  where
    kept : (b : Bool) (c : Claims) → c.id ≡ next → IsSpent id (if b then s else set_jti c.id true s)
    kept true c e = h
    kept false c e = set_jti-IsSpent id c.id true s (λ q. not_itself id c.id (ground arith) q) h

    by_claims :
        (o : Option Claims)
        → ((c : Claims) → o ≡ some c → c.id ≡ next)
        → IsSpent id (elim o [ none ↦ s | some c ↦ if set_fails then s else set_jti c.id true s ])
    by_claims none g = h
    by_claims (some c) g = kept set_fails c (g c refl)

pub refresh_tokens-IsSpent :
    (jwt : Jwt) (now : ℕ) (text : String) (id : ℕ) (s : Sessions)
    → IsSpent id s
    → IsSpent id (refresh_tokens jwt now text s).1
unfolding refresh_tokens
refresh_tokens-IsSpent jwt now text id s h = by_claims (jwt.parse_with_claims now text)
  where
    by_type :
        (b : Bool) (c : Claims)
        → IsSpent id (if b then generate_tokens jwt now c.user_id c.username s else (none, s)).1
    by_type true c = generate_tokens-IsSpent jwt now c.user_id c.username id s h
    by_type false c = h

    by_claims :
        (o : Option Claims)
        → IsSpent id
            (elim o as (λ _. Option Token × Sessions) [
              | none ↦ (none, s)
              | some c ↦
                  if is_refresh_token c
                  then generate_tokens jwt now c.user_id c.username s
                  else (none, s)
            ]).1
    by_claims none = h
    by_claims (some c) = by_type (is_refresh_token c) c

pub refresh_tokens-id :
    (jwt : Jwt) (now : ℕ) (text : String) (s : Sessions) (token : Token) (later : ℕ) (c : Claims)
    → ReadsSigned jwt
    → (refresh_tokens jwt now text s).0 ≡ some token
    → jwt.parse_with_claims later token.refresh_token ≡ some c
    → c.id ≡ s.next_uuid
unfolding refresh_tokens
refresh_tokens-id jwt now text s token later c reads h p =
    elim (Option-cases (jwt.parse_with_claims now text)) [
      | inl e ↦ absurd (ground arith)
      | inr (old, e) ↦
          generate_tokens-id jwt now old.user_id old.username s token later c reads (ground arith) p
    ]

keep_new-IsSpent :
    (o : Outage) (token : Token) (c : Option Claims) (id next : ℕ) (s : Sessions)
    → ((n : Claims) → c ≡ some n → n.id ≡ next)
    → id < next
    → IsSpent id s
    → IsSpent id (keep_new o token c s).1
unfolding keep_new
keep_new-IsSpent o token none id next s f l h = h
keep_new-IsSpent o token (some c) id next s f l h = by_outage o.set_fails
  where
    by_outage :
        (b : Bool)
        → IsSpent id
            (if◌then◌else◌ {A = Result Token × Sessions} b
              (err (biz http_internal_server_error), s)
              (ok token, set_jti c.id true s)).1
    by_outage true = h
    by_outage false =
        let e = f c refl in
        set_jti-IsSpent id c.id true s (λ q. not_itself id c.id (ground arith) q) h

pub renew-IsSpent :
    (jwt : Jwt) (o : Outage) (now : ℕ) (token : Option Token) (id next : ℕ) (s : Sessions)
    → ((t : Token) (c : Claims)
        → token ≡ some t
        → jwt.parse_with_claims now t.refresh_token ≡ some c
        → c.id ≡ next)
    → id < next
    → IsSpent id s
    → IsSpent id (renew jwt o now token s).1
unfolding renew
renew-IsSpent jwt o now none id next s f l h = h
renew-IsSpent jwt o now (some t) id next s f l h =
    keep_new-IsSpent o t (jwt.parse_with_claims now t.refresh_token) id next s (λ c e. f t c refl e)
      l h
