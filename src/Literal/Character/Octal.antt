-- ===== src/Literal/Character/Octal.antt =====
-- Octal escape sequences in `dbcc_common_char_constant_value` (dbcc-common.c).
use dbcc.Base.{
  ℕ, ◌≡◌, refl, ◌∙◌, arith, true, false, Option, none, some, [], ◌∷◌, ◌++◌, length, leb, ◌==◌, Run,
  ok, err, Bool-cases, inl, inr,
}
use dbcc.Error.{bad_character_sequence}
use dbcc.Literal.Character.Spelling.{Prefix, char_sizeof, quoted, char_constant_value-quoted}
use dbcc.Literal.Character.{
  CharConstant, quote, backslash, octal_loop, escape, close, body, char_constant_value,
}
use dbcc.Literal.{Text, is_octal_digit}
use dbcc.Target.{TargetEnvironment}

-- The digits behind the first one.
pub data MoreDigits : Type 0 where
  no_more : MoreDigits
  one_more : ℕ → MoreDigits
  two_more : ℕ → ℕ → MoreDigits

abbrev pub spell_digits : MoreDigits → Text
spell_digits no_more = []
spell_digits (one_more d) = d ∷ []
spell_digits (two_more d e) = d ∷ e ∷ []

abbrev pub AreOctal : MoreDigits → Type 0
AreOctal no_more = Unit
AreOctal (one_more d) = is_octal_digit d ≡ true
AreOctal (two_more d e) = (is_octal_digit d ≡ true) × (is_octal_digit e ≡ true)

abbrev pub octal_outcome : ℕ → MoreDigits → Run CharConstant
octal_outcome size (two_more d e) = err bad_character_sequence
octal_outcome size no_more = ok (record { codepoint = none; sizeof_char = size })
octal_outcome size (one_more d) = ok (record { codepoint = none; sizeof_char = size })

octal_body :
    (decode : ℕ → Text → Option (ℕ × ℕ)) (fuel size c : ℕ) (ds : MoreDigits) (rest : Text)
    → is_octal_digit c ≡ true
    → AreOctal ds
    → body decode fuel size
        (length (backslash ∷ c ∷ (spell_digits ds ++ (quote ∷ []))))
        (backslash ∷ c ∷ (spell_digits ds ++ (quote ∷ rest)))
      ≡ some (octal_outcome size ds)
unfolding body escape octal_loop close
octal_body decode fuel size c no_more rest h all = elim (Bool-cases (leb c b'3')) [
  | inl e ↦ rw (h, e) refl
  | inr e ↦ rw (h, e) refl
]
octal_body decode fuel size c (one_more d) rest h all = elim (Bool-cases (leb c b'3')) [
  | inl e ↦ rw (h, e, all) refl
  | inr e ↦ rw (h, e, all) refl
]
octal_body decode fuel size c (two_more d f) rest h all =
    let other : (f == quote) ≡ false = ground (arith, all.1) in
    elim (Bool-cases (leb c b'3')) [
      | inl e ↦ rw (h, e, all.0, other) refl
      | inr e ↦ rw (h, e, all.0, other) refl
    ]

-- On an octal escape sequence of one or two digits `dbcc_common_char_constant_value` returns true
-- and never writes the code point, and a sequence of three digits is an error.
pub char_constant_value-octal :
    (decode : ℕ → Text → Option (ℕ × ℕ)) (fuel : ℕ) (env : TargetEnvironment) (p : Prefix) (c : ℕ)
    (ds : MoreDigits) (rest : Text)
    → is_octal_digit c ≡ true
    → AreOctal ds
    → char_constant_value decode fuel env
        (length (quoted p (backslash ∷ c ∷ spell_digits ds)))
        (quoted p (backslash ∷ c ∷ spell_digits ds) ++ rest)
      ≡ some (octal_outcome (char_sizeof env p) ds)
char_constant_value-octal decode fuel env p c no_more rest h all =
    char_constant_value-quoted decode fuel env p backslash (c ∷ []) rest
    ∙ octal_body decode fuel (char_sizeof env p) c no_more rest h all
char_constant_value-octal decode fuel env p c (one_more d) rest h all =
    char_constant_value-quoted decode fuel env p backslash (c ∷ d ∷ []) rest
    ∙ octal_body decode fuel (char_sizeof env p) c (one_more d) rest h all
char_constant_value-octal decode fuel env p c (two_more d e) rest h all =
    char_constant_value-quoted decode fuel env p backslash (c ∷ d ∷ e ∷ []) rest
    ∙ octal_body decode fuel (char_sizeof env p) c (two_more d e) rest h all
