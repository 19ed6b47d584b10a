-- ===== src/Literal/Floating.antt =====
-- `dbcc_common_floating_point_get_info` (dbcc-common.c): the test of a floating-point constant.
pub mod Cursor
pub mod Periods
pub mod Forms
pub mod Reads
mod Tests
use dbcc.Base.{
  ℕ, ◌+◌, ◌-◌, Bool, true, false, not, ◌&&◌, ◌||◌, Option, none, some, drop, ltb, ◌==◌,
  if◌then◌else◌, Run, ok, err, ◌>>=◌,
}
use dbcc.CType.{FloatType}
use dbcc.Error.{bad_number_constant}
use dbcc.Literal.{Text, char_at, is_digit, is_hex_digit, span}

-- `str[skip]`
abbrev pub peek : Text → ℕ → Run ℕ
peek str skip = char_at (drop skip str) 0

-- `TEST_END`
unfoldable pub test_end : ℕ → ℕ → Run (Unit {0})
test_end length skip = if skip == length then err bad_number_constant else ok tt

-- `while (skip < length && test (str[skip])) skip++;`
unfoldable pub scan : (ℕ → Bool) → ℕ → Text → ℕ → Run ℕ
scan test length str skip = span test (length - skip) (drop skip str) >>= λ l. ok (skip + l)

abbrev pub is_sign : ℕ → Bool
is_sign c = c == b'+' || c == b'-'

unfoldable pub skip_sign : ℕ → Text → ℕ → Run ℕ
skip_sign length str skip = do
  c ← peek str skip
  if is_sign c then (test_end length (skip + 1) >>= λ u. ok (skip + 1)) else ok skip

-- The optional exponent, behind `e` and `E` or `p` and `P`.
unfoldable pub exponent : ℕ → ℕ → ℕ → Text → ℕ → Run ℕ
exponent small big length str skip = do
  c ← peek str skip
  if ltb 0 length && (c == small || c == big)
      then (do
        u ← test_end length (skip + 1)
        at ← skip_sign length str (skip + 1)
        scan is_digit length str at)
      else ok skip

unfoldable pub finish : ℕ → ℕ → Run (Option FloatType)
finish length skip = if ltb skip length then err bad_number_constant else ok none

unfoldable pub hexadecimal_float : ℕ → Text → ℕ → Run (Option FloatType)
hexadecimal_float length str skip = do
  u ← test_end length skip
  digits ← scan is_hex_digit length str skip
  at ← exponent b'p' b'P' length str digits
  finish length at

unfoldable pub decimal_float : ℕ → Text → ℕ → Run (Option FloatType)
decimal_float length str skip = do
  digits ← scan is_digit length str skip
  at ← exponent b'e' b'E' length str digits
  finish length at

-- Behind the sign.
unfoldable pub unsigned_float : ℕ → Text → ℕ → Run (Option FloatType)
unsigned_float length str skip = do
  c ← peek str skip
  d ← (if ltb (2 + skip) length && c == b'0' then peek str (skip + 1) else ok 0)
  if ltb (2 + skip) length && (c == b'0' && d == b'x')
      then hexadecimal_float length str (skip + 2)
      else if not (is_digit c) && not (c == b'.')
      then err bad_number_constant
      else decimal_float length str skip

-- The result is what is written to `*float_type_out`, if anything is.
unfoldable pub floating_point_get_info : ℕ → Text → Run (Option FloatType)
floating_point_get_info length str = do
  c ← peek str 0
  let skip : ℕ = if is_sign c then 1 else 0
  u ← test_end length skip
  unsigned_float length str skip
