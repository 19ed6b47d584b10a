-- ===== src/Literal/Character/Forms.antt =====
-- The characters and the simple escape sequences that `dbcc_common_char_constant_value`
-- (dbcc-common.c) understands.
use dbcc.Base.{
  ℕ, suc, ◌≡◌, refl, ◌∙◌, arith, true, false, Option, some, [], ◌∷◌, ◌++◌, length, ltb, ◌==◌, ok,
}
use dbcc.Literal.Character.Spelling.{Prefix, char_sizeof, quoted, char_constant_value-quoted}
use dbcc.Literal.Character.{
  quote, backslash, simple_escape, escape, close, literal_char, body, char_constant_value,
}
use dbcc.Literal.{Text}
use dbcc.Target.{TargetEnvironment}

pub data SimpleEscape : Type 0 where
  alert backspace form_feed new_line carriage_return horizontal_tab vertical_tab : SimpleEscape

abbrev pub letter : SimpleEscape → ℕ
letter alert = b'a'
letter backspace = b'b'
letter form_feed = b'f'
letter new_line = b'n'
letter carriage_return = b'r'
letter horizontal_tab = b't'
letter vertical_tab = b'v'

abbrev pub control_code : SimpleEscape → ℕ
control_code alert = 7
control_code backspace = 8
control_code form_feed = 12
control_code new_line = 10
control_code carriage_return = 13
control_code horizontal_tab = 9
control_code vertical_tab = 11

-- A multibyte character is its first byte, the others and its code point.
pub data Character : Type 0 where
  ascii : ℕ → Character
  simple : SimpleEscape → Character
  multibyte : ℕ → Text → ℕ → Character

abbrev pub spell_char : Character → Text
spell_char (ascii c) = c ∷ []
spell_char (simple e) = backslash ∷ letter e ∷ []
spell_char (multibyte b bs cp) = b ∷ bs

abbrev pub code_of : Character → ℕ
code_of (ascii c) = c
code_of (simple e) = control_code e
code_of (multibyte b bs cp) = cp

-- What follows a multibyte character is the closing quote and `rest`: from these bytes the decoder
-- takes the character.
abbrev pub IsCharacter : (ℕ → Text → Option (ℕ × ℕ)) → Text → Character → Type 0
IsCharacter decode rest (ascii c) = (ltb c 128 ≡ true) × ((c == backslash) ≡ false)
IsCharacter decode rest (simple e) = Unit
IsCharacter decode rest (multibyte b bs cp) =
    (ltb b 128 ≡ false)
    × (decode (suc (length (bs ++ (quote ∷ [])))) (b ∷ (bs ++ (quote ∷ [])) ++ rest)
        ≡ some (cp, length (b ∷ bs)))

simple_escape_lem :
    (decode : ℕ → Text → Option (ℕ × ℕ)) (fuel size : ℕ) (e : SimpleEscape) (rest : Text)
    → body decode fuel size 3 (backslash ∷ letter e ∷ quote ∷ rest)
      ≡ some (ok (record { codepoint = some (control_code e); sizeof_char = size }))
unfolding body escape simple_escape close
simple_escape_lem decode fuel size alert rest = refl
simple_escape_lem decode fuel size backspace rest = refl
simple_escape_lem decode fuel size form_feed rest = refl
simple_escape_lem decode fuel size new_line rest = refl
simple_escape_lem decode fuel size carriage_return rest = refl
simple_escape_lem decode fuel size horizontal_tab rest = refl
simple_escape_lem decode fuel size vertical_tab rest = refl

-- On a quoted ASCII character other than the backslash, a simple escape sequence with a letter, or
-- a multibyte character that the UTF-8 decoder takes from the text, with any of the prefixes L, u
-- and U or none, `dbcc_common_char_constant_value` returns, and writes the code point and the size
-- of the prefix's character type.
pub char_constant_value_lem :
    (decode : ℕ → Text → Option (ℕ × ℕ)) (fuel : ℕ) (env : TargetEnvironment) (p : Prefix)
    (rest : Text) (ch : Character)
    → IsCharacter decode rest ch
    → char_constant_value decode fuel env
        (length (quoted p (spell_char ch)))
        (quoted p (spell_char ch) ++ rest)
      ≡ some (ok (record { codepoint = some (code_of ch); sizeof_char = char_sizeof env p }))
unfolding body literal_char
char_constant_value_lem decode fuel env p rest (ascii c) h =
    char_constant_value-quoted decode fuel env p c [] rest ∙ (rw (h.1, h.0) refl)
char_constant_value_lem decode fuel env p rest (simple e) h =
    char_constant_value-quoted decode fuel env p backslash (letter e ∷ []) rest
    ∙ simple_escape_lem decode fuel (char_sizeof env p) e rest
char_constant_value_lem decode fuel env p rest (multibyte b bs cp) h =
    let other : (b == backslash) ≡ false = ground (arith, h.0) in
    char_constant_value-quoted decode fuel env p b bs rest ∙ (rw (other, h.0, h.1) refl)
