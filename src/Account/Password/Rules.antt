-- ===== src/Account/Password/Rules.antt =====
-- Which passwords validatePassword accepts.
use snowgo.Prelude.{
  ℕ, ◌+◌, ◌≤◌, ◌≡◌, ◌↔◌, refl, sym, ap, ◌∙◌, Bool, true, false, not, ◌&&◌, ◌||◌, [], ◌∷◌, none,
  some, ltb, leb, ◌==◌, if◌then◌else◌, length, any, all, arith, leb→le, le→leb,
}
use snowgo.Extern.{Bytes}
use snowgo.Xerror.{Code, pwd_complexity_error, pwd_length_error, pwd_invalid_char_error}
use snowgo.Account.Password.{
  is_letter, is_digit, is_symbol, is_allowed, Seen, see, count_types, nothing_seen,
  validate_password,
}

abbrev pub one_if : Bool → ℕ
one_if true = 1
one_if false = 0

-- How many of the three kinds of characters occur.
abbrev pub kinds : Bool → Bool → Bool → ℕ
kinds l d y = one_if l + one_if d + one_if y

digit-not_letter : (r : ℕ) → is_digit r ≡ true → is_letter r ≡ false
digit-not_letter r h = ground arith

symbol-not_letter : (r : ℕ) → is_symbol r ≡ true → is_letter r ≡ false
symbol-not_letter r h = ground arith

symbol-not_digit : (r : ℕ) → is_symbol r ≡ true → is_digit r ≡ false
symbol-not_digit r h = ground arith

-- What the loop has counted is what it has seen.
abbrev Counts : Seen → Type 0
Counts s = s.type_count ≡ kinds s.has_letter s.has_digit s.has_symbol

-- A round, by the kinds of its character.
abbrev mark : Seen → Bool → Bool → Bool → Seen
mark s a b c =
    if not s.has_letter && a
    then record s { has_letter = true; type_count = s.type_count + 1 }
    else if not s.has_digit && b
    then record s { has_digit = true; type_count = s.type_count + 1 }
    else if not s.has_symbol && c
    then record s { has_symbol = true; type_count = s.type_count + 1 }
    else s

see-mark : (s : Seen) (r : ℕ) → see s r ≡ mark s (is_letter r) (is_digit r) (is_symbol r)
unfolding see
see-mark s r = refl

-- It marks the character's kind, unless it was seen: no character is of two kinds.
mark_marks :
    (s : Seen) (a b c : Bool)
    → (b ≡ true → a ≡ false)
    → (c ≡ true → a ≡ false)
    → (c ≡ true → b ≡ false)
    → ((mark s a b c).has_letter ≡ (s.has_letter || a))
      × ((mark s a b c).has_digit ≡ (s.has_digit || b))
      × ((mark s a b c).has_symbol ≡ (s.has_symbol || c))
mark_marks s a b c f g h = ground arith

see_marks :
    (s : Seen) (r : ℕ)
    → ((see s r).has_letter ≡ (s.has_letter || is_letter r))
      × ((see s r).has_digit ≡ (s.has_digit || is_digit r))
      × ((see s r).has_symbol ≡ (s.has_symbol || is_symbol r))
see_marks s r = rw (see-mark s r) (
    mark_marks s (is_letter r) (is_digit r) (is_symbol r) (digit-not_letter r) (symbol-not_letter r)
      (symbol-not_digit r))

mark-Counts : (s : Seen) (a b c : Bool) → Counts s → Counts (mark s a b c)
mark-Counts s a b c h = ground arith

see-Counts : (s : Seen) (r : ℕ) → Counts s → Counts (see s r)
see-Counts s r h = rw (see-mark s r) (mark-Counts s _ _ _ h)

or_assoc : (a b c : Bool) → ((a || b) || c) ≡ (a || (b || c))
or_assoc true b c = refl
or_assoc false b c = refl

-- One round of the loop, whether it is left there or not.
round :
    (n rest : ℕ) (l d y l' d' y' : Bool)
    → n ≡ kinds l d y
    → leb 2 rest ≡ leb 2 (kinds (l || l') (d || d') (y || y'))
    → leb 2 (if leb 2 n then n else rest) ≡ leb 2 (kinds (l || l') (d || d') (y || y'))
round n rest l d y l' d' y' c h = ground arith

same_kinds :
    {l d y l' d' y' : Bool}
    → l ≡ l'
    → d ≡ d'
    → y ≡ y'
    → leb 2 (kinds l d y) ≡ leb 2 (kinds l' d' y')
same_kinds e f g = cc

count_types_lem :
    (s : Seen) (pw : Bytes)
    → Counts s
    → leb 2 (count_types s pw)
      ≡ leb 2 (
          kinds
            (s.has_letter || any is_letter pw)
            (s.has_digit || any is_digit pw)
            (s.has_symbol || any is_symbol pw))
unfolding count_types
count_types_lem s [] h = ground arith
count_types_lem s (r ∷ rs) h =
    let m = see_marks s r in
    round (see s r).type_count (count_types (see s r) rs) (see s r).has_letter (see s r).has_digit
      (see s r).has_symbol (any is_letter rs) (any is_digit rs) (any is_symbol rs)
      (see-Counts s r h) (count_types_lem (see s r) rs (see-Counts s r h))
    ∙ same_kinds (ap (λ b. b || any is_letter rs) m.0 ∙ or_assoc s.has_letter _ _)
        (ap (λ b. b || any is_digit rs) m.1 ∙ or_assoc s.has_digit _ _)
        (ap (λ b. b || any is_symbol rs) m.2 ∙ or_assoc s.has_symbol _ _)

-- What a password has to be.
pub record IsStrong (pw : Bytes) : Type 0 where
  pub long_enough : 6 ≤ length pw
  pub short_enough : length pw ≤ 32
  pub allowed : all is_allowed pw ≡ true
  pub varied : 2 ≤ kinds (any is_letter pw) (any is_digit pw) (any is_symbol pw)

tests_pass :
    (n k : ℕ) (a : Bool) (c1 c2 c3 c4 : Code)
    → ((if n == 0
          then some c1
          else if ltb n 6 || ltb 32 n
          then some c2
          else if not a
          then some c3
          else if ltb k 2
          then some c4
          else none)
        ≡ none)
      ↔ ((6 ≤ n) × (n ≤ 32) × (a ≡ true) × (leb 2 k ≡ true))
tests_pass n k a c1 c2 c3 c4 = ground arith

-- A password is accepted exactly when it has 6 to 32 bytes, all of them among the letters, digits
-- and symbols that are allowed, and characters of at least two of these three kinds.
pub validate_password-IsStrong : (pw : Bytes) → (validate_password pw ≡ none) ↔ IsStrong pw
unfolding validate_password
validate_password-IsStrong pw =
    let loop = count_types_lem nothing_seen pw refl in
    let t =
      tests_pass (length pw) (count_types nothing_seen pw) (all is_allowed pw) pwd_complexity_error
        pwd_length_error pwd_invalid_char_error pwd_complexity_error in
    (
      λ h. record {
        long_enough = (t.0 h).0;
        short_enough = (t.0 h).1;
        allowed = (t.0 h).2;
        varied = leb→le 2 _ (sym loop ∙ (t.0 h).3);
      },
      λ q. t.1 (q.long_enough, q.short_enough, q.allowed, loop ∙ le→leb 2 _ q.varied),
    )
