-- ===== src/Literal/Character/Universal.antt =====
-- Universal character names in `dbcc_common_char_constant_value` (dbcc-common.c): its loop over the
-- hexadecimal digits does not move on.
use dbcc.Base.{
  ℕ, zero, suc, ◌+◌, ◌-◌, ◌*◌, ◌%◌, ◌^◌, ◌≡◌, refl, ◌∙◌, arith, Bool, true, false, Option, none,
  some, [], ◌∷◌, ◌++◌, length, ltb, ◌==◌, if◌then◌else◌, ok, err, Bool-cases, inl, inr,
}
use dbcc.Error.{bad_character_sequence}
use dbcc.Literal.Character.Spelling.{Prefix, quoted, char_sizeof, char_constant_value-quoted}
use dbcc.Literal.Character.{
  quote, backslash, hex_digit, hex_loop, universal, escape, body, char_constant_value,
}
use dbcc.Literal.{Text, is_hex_digit}
use dbcc.Target.{TargetEnvironment}

abbrev pub name_letter : Bool → ℕ
name_letter true = b'U'
name_letter false = b'u'

-- What the code looks at behind the letter.
abbrev pub first_of : Text → ℕ
first_of [] = quote
first_of (c ∷ s) = c

hex_loop_lem :
    (fuel m cp n c : ℕ) (str : Text)
    → ltb 0 m ≡ true
    → is_hex_digit c ≡ true
    → hex_loop fuel m 0 cp (suc n) (c ∷ str) ≡ none
unfolding hex_loop
hex_loop_lem zero m cp n c str positive h = refl
hex_loop_lem (suc fuel) m cp n c str positive h =
    let left : ltb 0 (suc n) ≡ true = ground arith in
    rw (left, positive, h)
      (hex_loop_lem fuel m ((cp * 16 + hex_digit c) % 2 ^ 32) n c str positive h)

first_look :
    (fuel m n c : ℕ) (str : Text)
    → ltb 0 m ≡ true
    → is_hex_digit c ≡ false
    → hex_loop (suc fuel) m 0 0 (suc n) (c ∷ str)
      ≡ some (if c == quote then ok (0, 0) else err bad_character_sequence)
unfolding hex_loop
first_look fuel m n c str positive h =
    let left : ltb 0 (suc n) ≡ true = ground arith in
    elim (Bool-cases (c == quote)) [
      | inl e ↦ rw (left, positive, h, e) refl
      | inr e ↦ rw (left, positive, h, e) refl
    ]

universal_lem :
    (fuel type n c : ℕ) (str : Text)
    → universal (suc fuel) type (suc n) (c ∷ str)
      ≡ (if is_hex_digit c then none else some (err bad_character_sequence))
unfolding universal
universal_lem fuel type n c str =
    let m : ℕ = if type == b'u' then 4 else 8 in
    let left : (suc n == 0) ≡ false = ground arith in
    let positive : ltb 0 m ≡ true = ground arith in
    elim (Bool-cases (is_hex_digit c)) [
      | inl h ↦ rw (left, hex_loop_lem (suc fuel) m 0 n c str positive h, h) refl
      | inr h ↦ elim (Bool-cases (c == quote)) [
        | inl e ↦ rw (left, first_look fuel m n c str positive h, h, e) refl
        | inr e ↦ rw (left, first_look fuel m n c str positive h, h, e) refl
      ]
    ]

universal_body :
    (decode : ℕ → Text → Option (ℕ × ℕ)) (fuel size n c : ℕ) (big : Bool) (str : Text)
    → body decode (suc fuel) size (suc (suc (suc n))) (backslash ∷ name_letter big ∷ c ∷ str)
      ≡ (if is_hex_digit c then none else some (err bad_character_sequence))
unfolding body escape
universal_body decode fuel size n c true str =
    let one : suc (suc (suc n)) - 1 ≡ suc (suc n) = omega arith in
    let two : suc (suc n) - 1 ≡ suc n = omega arith in
    let left : (suc (suc n) == 0) ≡ false = ground arith in
    elim (Bool-cases (is_hex_digit c)) [
      | inl h ↦ rw (one, left, two, universal_lem fuel b'U' n c str, h) refl
      | inr h ↦ rw (one, left, two, universal_lem fuel b'U' n c str, h) refl
    ]
universal_body decode fuel size n c false str =
    let one : suc (suc (suc n)) - 1 ≡ suc (suc n) = omega arith in
    let two : suc (suc n) - 1 ≡ suc n = omega arith in
    let left : (suc (suc n) == 0) ≡ false = ground arith in
    elim (Bool-cases (is_hex_digit c)) [
      | inl h ↦ rw (one, left, two, universal_lem fuel b'u' n c str, h) refl
      | inr h ↦ rw (one, left, two, universal_lem fuel b'u' n c str, h) refl
    ]

-- Behind `\u` or `\U`, `dbcc_common_char_constant_value` does not end within any number of rounds
-- of its loop if a hexadecimal digit follows, and else reports an error.
pub char_constant_value-universal :
    (decode : ℕ → Text → Option (ℕ × ℕ)) (fuel : ℕ) (env : TargetEnvironment) (p : Prefix)
    (big : Bool) (s rest : Text)
    → char_constant_value decode
        (suc fuel)
        env
        (length (quoted p (backslash ∷ name_letter big ∷ s)))
        (quoted p (backslash ∷ name_letter big ∷ s) ++ rest)
      ≡ (if is_hex_digit (first_of s) then none else some (err bad_character_sequence))
char_constant_value-universal decode fuel env p big [] rest =
    char_constant_value-quoted decode (suc fuel) env p backslash (name_letter big ∷ []) rest
    ∙ universal_body decode fuel (char_sizeof env p) 0 quote big rest
char_constant_value-universal decode fuel env p big (c ∷ s) rest =
    char_constant_value-quoted decode (suc fuel) env p backslash (name_letter big ∷ c ∷ s) rest
    ∙ universal_body decode fuel (char_sizeof env p) (length (s ++ (quote ∷ []))) c big
        ((s ++ (quote ∷ [])) ++ rest)
