-- ===== src/Xcryption/RoundTrip.antt =====
-- Code2Id undoes Id2Code, and does not overflow.
use snowgo.Prelude.{
  ℕ, zero, suc, ◌+◌, ◌*◌, ◌-◌, ◌/◌, ◌%◌, ◌^◌, ◌≤◌, ◌<◌, ◌≡◌, refl, ap, ◌∙◌, subst, Bool, true,
  false, [], ◌∷◌, ◌++◌, Option, none, some, ltb, ◌==◌, ◌&&◌, if◌then◌else◌, length, length-append,
  arith, Bool-cases, inl, inr,
}
use native.Mathlib.Omega.{pow_step}
use snowgo.Xerror.{ok}
use snowgo.Extern.{Bytes}
use snowgo.Xcryption.{
  pos, chars, divider, max_int64, char_at, index_byte, reverse_str, digits, padding, id_to_code,
  decode, code_to_id,
}

-- Whether a digit is found again, and is not the divider.
abbrev is_found : ℕ → Bool
is_found d =
    elim (index_byte chars (char_at chars d)) [ none ↦ false | some i ↦ i == d ]
    && (if char_at chars d == divider then false else true)

abbrev all_below : (ℕ → Bool) → ℕ → Bool
all_below p zero = true
all_below p (suc n) = p n && all_below p n

all_below-lt : (p : ℕ → Bool) (n d : ℕ) → all_below p n ≡ true → d < n → p d ≡ true
all_below-lt p zero d h l = absurd (omega (arith, l))
all_below-lt p (suc n) d h l = grind (arith, all_below-lt p n d)

digits_found : all_below is_found 32 ≡ true
unfolding index_byte char_at
digits_found = refl

digit_found :
    (d : ℕ)
    → d < 32
    → (index_byte chars (char_at chars d) ≡ some d) × ((char_at chars d == divider) ≡ false)
digit_found d l =
    split (index_byte chars (char_at chars d)) (char_at chars d == divider)
      (all_below-lt is_found 32 d digits_found l)
  where
    split :
        (o : Option ℕ) (b : Bool)
        → (elim o [ none ↦ false | some i ↦ i == d ] && (if b then false else true)) ≡ true
        → (o ≡ some d) × (b ≡ false)
    split o b h = ground arith

no_overflow : (d id : ℕ) → id * 32 + d < 2 ^ 63 → ltb ((max_int64 - d) / 32) id ≡ false
no_overflow d id b = ground arith

positive : (i : ℕ) → ltb 0 (suc i) ≡ true
positive i = ground arith

++-push : (xs : Bytes) (c : ℕ) (rest : Bytes) → (xs ++ c ∷ []) ++ rest ≡ xs ++ c ∷ rest
++-push [] c rest = refl
++-push (x ∷ xs) c rest = ap (λ t. x ∷ t) (++-push xs c rest)

-- One round of Code2Id on a digit.
decode-digit :
    (d i id : ℕ) (rest : Bytes)
    → d < 32
    → (i ≡ 0 → id ≡ 0)
    → id * 32 + d < 2 ^ 63
    → decode (char_at chars d ∷ rest) i id ≡ decode rest (suc i) (id * 32 + d)
unfolding decode
decode-digit d zero id rest l z b =
    let f = digit_found d l in rw (f.0, f.1) (ap (decode rest 1) (omega (arith, z refl)))
decode-digit d (suc i) id rest l z b =
    let f = digit_found d l in
    let no_overflow = no_overflow d id b in rw (f.0, f.1, no_overflow, positive i) refl

quotient_lt : (id m : ℕ) → id < 32 * m → id / 32 < m
quotient_lt id m h = omega (arith, h)

one_digit :
    (id : ℕ) (rest : Bytes)
    → id < 32
    → decode (char_at chars (id % 32) ∷ rest) 0 0 ≡ decode rest 1 id
one_digit id rest l =
    decode-digit (id % 32) 0 0 rest (omega arith) (λ _. refl) (omega arith)
    ∙ ap (decode rest 1) (omega (arith, l))

-- What Id2Code writes before the divider decodes to the id, whatever follows.
decode-digits :
    (fuel id : ℕ) (rest : Bytes)
    → id < 2 ^ 63
    → id < 32 ^ (suc fuel)
    → (i : ℕ) × (decode (reverse_str (digits fuel id) ++ rest) 0 0 ≡ decode rest (suc i) id)
unfolding digits reverse_str
decode-digits zero id rest b e = (0, one_digit id rest (omega (arith, e)))
decode-digits (suc fuel) id rest b e = elim (Bool-cases (ltb 0 (id / 32))) [
  | inr n ↦ (0, rw n (one_digit id rest (ground arith)))
  | inl y ↦
      let (i, h) =
        decode-digits fuel (id / 32) (char_at chars (id % 32) ∷ rest) (omega (arith, b))
          (quotient_lt id (32 ^ suc fuel) (subst (λ m. id < m) (pow_step 32 (suc fuel)) e)) in
      (
        suc i,
        rw (y, ++-push (reverse_str (digits fuel (id / 32))) (char_at chars (id % 32)) rest, h)
            (decode-digit (id % 32) (suc i) (id / 32) rest (omega arith)
                (λ e. absurd (omega (arith, e))) (omega (arith, b))
              ∙ ap (decode rest (suc (suc i))) (omega arith)),
      )
]

-- The code is read up to its end or up to the divider.
code_to_id-decode : (code : Bytes) (n : ℕ) → 0 < length code → code_to_id code ≡ decode code 0 0
unfolding code_to_id
code_to_id-decode [] n h = absurd (omega (arith, h))
code_to_id-decode (c ∷ cs) n h = refl

length-padding : (n : ℕ) (draws : ℕ → ℕ) → length (padding n draws) ≡ n
unfolding padding
length-padding zero draws = refl
length-padding (suc n) draws = ap suc (length-padding n (λ i. draws (suc i)))

++-nil : (xs : Bytes) → xs ++ [] ≡ xs
++-nil [] = refl
++-nil (x ∷ xs) = ap (λ t. x ∷ t) (++-nil xs)

reverse_str-positive : (xs : Bytes) → 0 < length xs → 0 < length (reverse_str xs)
unfolding reverse_str
reverse_str-positive [] h = h
reverse_str-positive (x ∷ xs) h = omega (arith, length-append (reverse_str xs) (x ∷ []))

digits-positive : (fuel id : ℕ) → 0 < length (digits fuel id)
unfolding digits
digits-positive zero id = omega arith
digits-positive (suc fuel) id = ground arith

-- What may follow the digits: nothing, or the divider and what is after it.
abbrev is_tail : Bytes → Bool
is_tail [] = true
is_tail (c ∷ cs) = c == divider

decode-tail : (rest : Bytes) (i id : ℕ) → is_tail rest ≡ true → decode rest i id ≡ ok id
unfolding decode
decode-tail [] i id h = refl
decode-tail (c ∷ cs) i id h = rw h refl

decoded :
    (id : ℕ) (rest : Bytes)
    → id < 2 ^ 63
    → is_tail rest ≡ true
    → code_to_id (reverse_str (digits 12 id) ++ rest) ≡ ok id
decoded id rest b t =
    let (i, h) = decode-digits 12 id rest b (omega (arith, b)) in
    code_to_id-decode (reverse_str (digits 12 id) ++ rest) id (
      omega (
        arith,
        length-append (reverse_str (digits 12 id)) rest,
        reverse_str-positive (digits 12 id) (digits-positive 12 id),
      ))
    ∙ h
    ∙ decode-tail rest (suc i) id t

-- There is a code of the id, long enough, that gives the id back.
abbrev pub Decodes : (ℕ → ℕ) → ℕ → ℕ → Type 0
Decodes draws id min_length =
    (code : Bytes) × (id_to_code draws (pos id) min_length ≡ ok code)
    × (code_to_id code ≡ ok id)
    × (min_length ≤ length code)

-- For every id of an int64 that is not negative, every minimal length and every run of the random
-- generator, Id2Code gives a code of at least that length, from which Code2Id gives the id back.
pub id_to_code-code_to_id :
    (draws : ℕ → ℕ) (id min_length : ℕ) → id < 2 ^ 63 → Decodes draws id min_length
unfolding id_to_code
id_to_code-code_to_id draws id min_length b =
    let code = reverse_str (digits 12 id) in
    elim (Bool-cases (ltb 0 (min_length - length code))) [
      | inr n ↦ (
        code,
        rw n refl,
        subst (λ c. code_to_id c ≡ ok id) (++-nil code) (decoded id [] b refl),
        ground arith,
      )
      | inl y ↦
          let rest = divider ∷ padding (min_length - length code - 1) draws in
          (
            code ++ rest,
            rw y refl,
            decoded id rest b refl,
            ground (
              arith,
              length-append code rest,
              length-padding (min_length - length code - 1) draws,
            ),
          )
    ]

index_byte-lt : (cs : Bytes) (b : ℕ) {i : ℕ} → index_byte cs b ≡ some i → i < length cs
unfolding index_byte
index_byte-lt [] b h = cc
index_byte-lt (c ∷ cs) b h = grind (arith, index_byte-lt cs b)

decode-fits : (cs : Bytes) (i id : ℕ) {n : ℕ} → id < 2 ^ 63 → decode cs i id ≡ ok n → n < 2 ^ 63
unfolding decode
decode-fits [] i id b h = ground arith
decode-fits (c ∷ cs) i id b h = grind (arith, index_byte-lt chars c, decode-fits cs)

-- Whatever text Code2Id accepts, the number is one of an int64: no step of its loop has overflowed.
pub code_to_id-fits : (code : Bytes) {id : ℕ} → code_to_id code ≡ ok id → id < 2 ^ 63
unfolding code_to_id
code_to_id-fits [] h = cc
code_to_id-fits (c ∷ cs) h = decode-fits (c ∷ cs) 0 0 (omega arith) h
