-- ===== src/Xcryption/Tests.antt =====
-- Codes of concrete ids.
use snowgo.Prelude.{ℕ, ◌≡◌, ◌<◌, ◌^◌, refl, [], ◌∷◌, arith}
use snowgo.Xerror.{ok}
use snowgo.Extern.{Bytes}
use snowgo.Xcryption.{code_to_id, decode, index_byte}
use snowgo.Xcryption.RoundTrip.{Decodes, id_to_code-code_to_id, code_to_id-fits}

abbrev draws : ℕ → ℕ
draws i = i

id_to_code-code_to_id_example : Decodes draws 1234567 8
id_to_code-code_to_id_example = id_to_code-code_to_id draws 1234567 8 (omega arith)

-- "dfi9" is 1 * 32 + 2, and what follows the divider is not read.
abbrev code : Bytes
code = b'd' ∷ b'f' ∷ b'i' ∷ b'9' ∷ []

code_value : code_to_id code ≡ ok 34
unfolding code_to_id decode index_byte
code_value = refl

code_to_id-fits_example : 34 < 2 ^ 63
code_to_id-fits_example = code_to_id-fits code code_value
