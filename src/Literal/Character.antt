-- ===== src/Literal/Character.antt =====
-- `dbcc_common_char_constant_value` (dbcc-common.c): the code point of a character constant.
-- The UTF-8 decoder `dsk_utf8_decode_unichar` of the dsk library is the parameter `decode`: from a
-- length and the bytes, the code point and the number of bytes that it takes.
-- A loop of the code does not always end: each run has fuel, and is `none` when the fuel is spent.
pub mod Spelling
pub mod Forms
pub mod Octal
pub mod Universal
mod Tests
use Prim.Native.Nat.{bit_or}
use dbcc.Base.{
  ℕ, zero, suc, ◌+◌, ◌-◌, ◌*◌, ◌%◌, ◌^◌, Bool, true, false, ◌&&◌, ◌||◌, Option, none, some, drop,
  ltb, leb, ◌==◌, if◌then◌else◌, Run, ok, err, fault, ◌>>=◌, assertion,
}
use dbcc.Error.{character_constant_too_short, bad_character_sequence, bad_utf8}
use dbcc.Literal.{Text, char_at, between, is_digit, is_octal_digit, is_hex_digit}
use dbcc.Target.{TargetEnvironment}

abbrev pub quote : ℕ
quote = 39

abbrev pub backslash : ℕ
backslash = 92

-- What a call that returns true has written: `none` is a `*codepoint_out` that was not written.
pub record CharConstant : Type 0 where
  pub codepoint : Option ℕ
  pub sizeof_char : ℕ

-- What is left behind an escape sequence: the code point that was written, `length` and `str`.
pub record Escaped : Type 0 where
  pub codepoint : Option ℕ
  pub length : ℕ
  pub str : Text

abbrev pub and_then {ℓ κ} :
    {A : Type ℓ} {B : Type κ} → Run A → (A → Option (Run B)) → Option (Run B)
and_then (ok a) next = next a
and_then (err e) next = some (err e)
and_then (fault k) next = some (fault k)

unfoldable pub char_size : TargetEnvironment → ℕ → Run ℕ
char_size env c =
    if c == b'L'
    then ok env.sizeof_wchar
    else if c == b'u'
    then ok 2
    else if c == b'U'
    then ok 4
    else if c == quote
    then ok 1
    else err bad_character_sequence

unfoldable pub simple_escape : ℕ → Option ℕ
simple_escape c =
    if c == b'a'
    then some 7
    else if c == b'b'
    then some 8
    else if c == b'f'
    then some 12
    else if c == b'n'
    then some 10
    else if c == b'r'
    then some 13
    else if c == b't'
    then some 9
    else if c == b'v'
    then some 11
    else none

-- The loop over octal digits, where the first argument is `max_octal_length - octal_length`.
unfoldable pub octal_loop : ℕ → ℕ → ℕ → ℕ → Text → Run Escaped
octal_loop zero octal_length cp length str =
    ok (record { codepoint = none; length = length; str = str })
octal_loop (suc n) octal_length cp length str =
    if ltb octal_length length
    then (do
      c ← char_at str 0
      let rest : Run Escaped =
          octal_loop n (octal_length + 1) (bit_or (cp * 8 % 2 ^ 32) (c - b'0')) (length - 1)
            (drop 1 str)
      if is_octal_digit c
          then (if length - 1 == 0 then err character_constant_too_short else rest)
          else if c == quote
          then ok (record { codepoint = some cp; length = length; str = str })
          else err bad_character_sequence)
    else ok (record { codepoint = none; length = length; str = str })

unfoldable pub hex_digit : ℕ → ℕ
hex_digit c =
    if is_digit c then c - b'0' else if between b'a' b'f' c then c - b'a' + 10 else c - b'A' + 10

-- The loop over hexadecimal digits, as (cur_hex_length, cp): neither the length nor `str` moves.
unfoldable pub hex_loop : ℕ → ℕ → ℕ → ℕ → ℕ → Text → Option (Run (ℕ × ℕ))
unfolding hex_digit is_hex_digit
hex_loop zero max_hex_length cur_hex_length cp length str = none
hex_loop (suc fuel) max_hex_length cur_hex_length cp length str =
    if ltb 0 length && ltb cur_hex_length max_hex_length
    then (and_then (char_at str 0) λ c.
        let rest =
          hex_loop fuel max_hex_length cur_hex_length ((cp * 16 + hex_digit c) % 2 ^ 32) length
            str in
        if is_hex_digit c
        then rest
        else if c == quote
        then some (ok (cur_hex_length, cp))
        else some (err bad_character_sequence))
    else some (ok (cur_hex_length, cp))

-- Behind `u` or `U`.
unfoldable pub universal : ℕ → ℕ → ℕ → Text → Option (Run Escaped)
universal fuel type length str =
    if length == 0
    then some (err character_constant_too_short)
    else elim (hex_loop fuel (if type == b'u' then 4 else 8) 0 0 length str) [
      | none ↦ none
      | some run ↦ and_then run λ at.
          if at.0 == 0
          then some (err bad_character_sequence)
          else some (ok (record { codepoint = some at.1; length = length; str = str }))
    ]

-- Behind the backslash. A character that has no case is not skipped.
unfoldable pub escape : ℕ → ℕ → Text → Option (Run Escaped)
escape fuel length str = and_then (char_at str 0) λ c.
    if is_octal_digit c
    then some
        (octal_loop ((if leb c b'3' then 3 else 2) - 1) 1 (c - b'0') (length - 1) (drop 1 str))
    else if c == b'u' || c == b'U'
    then universal fuel c (length - 1) (drop 1 str)
    else elim (simple_escape c) [
      | some cp ↦ some (ok (record { codepoint = some cp; length = length - 1; str = drop 1 str }))
      | none ↦ some (ok (record { codepoint = none; length = length; str = str }))
    ]

unfoldable pub close : ℕ → Escaped → Run CharConstant
close size out = if out.length == 0 then err bad_character_sequence else (do
  c ← char_at out.str 0
  if c == quote
      then ok (record { codepoint = out.codepoint; sizeof_char = size })
      else err bad_character_sequence)

-- A character that is no escape sequence. What follows it is not looked at.
unfoldable pub literal_char : (ℕ → Text → Option (ℕ × ℕ)) → ℕ → ℕ → Text → ℕ → Run CharConstant
literal_char decode size length str c =
    if ltb c 128
    then ok (record { codepoint = some c; sizeof_char = size })
    else elim (decode length str) [
      | none ↦ err bad_utf8
      | some (cp, n_used) ↦ ok (record { codepoint = some cp; sizeof_char = size })
    ]

-- Behind the opening quote.
unfoldable pub body : (ℕ → Text → Option (ℕ × ℕ)) → ℕ → ℕ → ℕ → Text → Option (Run CharConstant)
body decode fuel size length str = and_then (char_at str 0) λ c.
    if c == backslash
    then (if length - 1 == 0
        then some (fault assertion)
        else elim (escape fuel (length - 1) (drop 1 str)) [
          | none ↦ none
          | some run ↦ some (run >>= λ out. close size out)
        ])
    else some (literal_char decode size length str c)

-- The character behind a prefix is skipped, whatever it is.
unfoldable pub char_constant_value :
    (ℕ → Text → Option (ℕ × ℕ)) → ℕ → TargetEnvironment → ℕ → Text → Option (Run CharConstant)
unfolding char_size
char_constant_value decode fuel env length str =
    if ltb length 3
    then some (err character_constant_too_short)
    else and_then (char_at str 0) λ c. and_then (char_size env c) λ size.
      let opening : ℕ = if c == quote then 1 else 2 in
      body decode fuel size (length - opening) (drop opening str)
