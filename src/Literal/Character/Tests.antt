-- ===== src/Literal/Character/Tests.antt =====
-- Runs of `dbcc_common_char_constant_value` (dbcc-common.c), and the theorems about it at concrete
-- constants.
use dbcc.Base.{ℕ, ◌+◌, ◌-◌, ◌*◌, ◌≡◌, refl, Option, none, some, [], ◌∷◌, ok, err, false}
use dbcc.Error.{bad_character_sequence}
use dbcc.Literal.Character.Forms.{multibyte, char_constant_value_lem}
use dbcc.Literal.Character.Spelling.{no_prefix, wide}
use dbcc.Literal.Character.Universal.{char_constant_value-universal}
use dbcc.Literal.Character.{char_constant_value, char_size, body, escape, simple_escape, close}
use dbcc.Literal.{Text, is_hex_digit}
use dbcc.Sample.{env}

-- The decoder on characters of two bytes.
abbrev two_bytes : ℕ → Text → Option (ℕ × ℕ)
two_bytes n (b ∷ c ∷ s) = some ((b - 192) * 64 + (c - 128), 2)
two_bytes n _ = none

-- `'\''` is accepted, and no code point is written.
quote_escape :
    char_constant_value two_bytes 0 env 4 (39 ∷ 92 ∷ 39 ∷ 39 ∷ [])
    ≡ some (ok (record { codepoint = none; sizeof_char = 1 }))
unfolding char_constant_value body escape simple_escape close char_size
quote_escape = refl

-- `'\\'` is not.
backslash_escape :
    char_constant_value two_bytes 0 env 4 (39 ∷ 92 ∷ 92 ∷ 39 ∷ [])
    ≡ some (err bad_character_sequence)
unfolding char_constant_value body escape simple_escape close char_size
backslash_escape = refl

-- `L'é'`.
char_constant_value_lem_example :
    char_constant_value two_bytes 0 env 5 (b'L' ∷ 39 ∷ 195 ∷ 169 ∷ 39 ∷ b';' ∷ [])
    ≡ some (ok (record { codepoint = some 233; sizeof_char = 4 }))
char_constant_value_lem_example =
    char_constant_value_lem two_bytes 0 env wide (b';' ∷ []) (multibyte 195 (169 ∷ []) 233)
      (refl, refl)

-- `'\u00e9'`, with fuel for a thousand rounds.
char_constant_value-universal_example :
    char_constant_value two_bytes 1000 env 8
      (39 ∷ 92 ∷ b'u' ∷ b'0' ∷ b'0' ∷ b'e' ∷ b'9' ∷ 39 ∷ b';' ∷ [])
    ≡ none
unfolding is_hex_digit
char_constant_value-universal_example =
    char_constant_value-universal two_bytes 999 env no_prefix false (b'0' ∷ b'0' ∷ b'e' ∷ b'9' ∷ [])
      (b';' ∷ [])
