-- ===== src/Xcryption.antt =====
-- pkg/xcryption/encode.go: Id2Code and Code2Id, over bytes; ReverseStr of pkg/xstr_tool, which the
-- characters here make a reversal of bytes; WeakRandInt63n of pkg/common.go.
pub mod RoundTrip
mod Tests
use snowgo.Prelude.{
  ℕ, zero, suc, ◌+◌, ◌*◌, ◌-◌, ◌/◌, ◌%◌, ◌^◌, true, false, List, [], ◌∷◌, ◌++◌, Option, none, some,
  ltb, ◌==◌, if◌then◌else◌, length,
}
use snowgo.Xerror.{plain, Result, ok, err}
use snowgo.Extern.{Bytes}

-- int64: `negsuc n` is -(n + 1).
pub data ℤ : Type 0 where
  pos negsuc : ℕ → ℤ

-- "5dfucyar1j2txwgs8mvp4qhb3n6k7ez9"
abbrev pub chars : Bytes
chars =
    b'5' ∷ b'd' ∷ b'f' ∷ b'u' ∷ b'c' ∷ b'y' ∷ b'a' ∷ b'r' ∷ b'1' ∷ b'j' ∷ b'2' ∷ b't' ∷ b'x' ∷ b'w'
    ∷ b'g' ∷ b's' ∷ b'8' ∷ b'm' ∷ b'v' ∷ b'p' ∷ b'4' ∷ b'q' ∷ b'h' ∷ b'b' ∷ b'3' ∷ b'n' ∷ b'6'
    ∷ b'k' ∷ b'7' ∷ b'e' ∷ b'z' ∷ b'9' ∷ []

abbrev pub divider : ℕ
divider = b'i'

abbrev pub max_int64 : ℕ
max_int64 = 2 ^ 63 - 1

-- chars[i]; the program asks for no index past the end.
pub char_at : Bytes → ℕ → ℕ
char_at [] i = 0
char_at (c ∷ cs) zero = c
char_at (c ∷ cs) (suc i) = char_at cs i

-- strings.IndexByte
pub index_byte : Bytes → ℕ → Option ℕ
index_byte [] b = none
index_byte (c ∷ cs) b =
    let rest = index_byte cs b in
    if c == b then some 0 else elim rest [ none ↦ none | some i ↦ some (suc i) ]

pub reverse_str : Bytes → Bytes
reverse_str [] = []
reverse_str (c ∷ cs) = reverse_str cs ++ c ∷ []

-- The loop of Id2Code and the character after it: the digits of the id, the last one first.
pub digits : ℕ → ℕ → Bytes
digits zero id = char_at chars (id % 32) ∷ []
digits (suc fuel) id =
    let rest = digits fuel (id / 32) in
    if ltb 0 (id / 32) then char_at chars (id % 32) ∷ rest else char_at chars (id % 32) ∷ []

-- WeakRandInt63n(len(chars)) for each round, from the draws of the generator.
pub padding : ℕ → (ℕ → ℕ) → Bytes
padding zero draws = []
padding (suc n) draws = char_at chars (draws 0 % 32) ∷ padding n (λ i. draws (suc i))

-- An int64 has at most 13 digits in base 32.
pub id_to_code : (ℕ → ℕ) → ℤ → ℕ → Result Bytes
id_to_code draws (negsuc n) min_length = err (plain "id 不能为负数")
id_to_code draws (pos id) min_length =
    let code = reverse_str (digits 12 id) in
    let fix_len = min_length - length code in
    if ltb 0 fix_len then ok (code ++ divider ∷ padding (fix_len - 1) draws) else ok code

-- The loop of Code2Id at position i.
pub decode : Bytes → ℕ → ℕ → Result ℕ
decode [] i id = ok id
decode (c ∷ cs) i id = if c == divider then ok id else elim (index_byte chars c) [
  | none ↦ err (plain "code decode failed")
  | some char_index ↦
      if ltb 0 i
      then elim (ltb ((max_int64 - char_index) / 32) id) [
        | true ↦ err (plain "code overflow at position")
        | false ↦ decode cs (suc i) (id * 32 + char_index)
      ]
      else decode cs (suc i) char_index
]

pub code_to_id : Bytes → Result ℕ
code_to_id [] = err (plain "code is empty")
code_to_id (c ∷ cs) = decode (c ∷ cs) 0 0
