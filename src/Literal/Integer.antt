-- ===== src/Literal/Integer.antt =====
-- `dbcc_common_integer_get_info` (dbcc-common.c): the type of an integer constant.
pub mod Forms
pub mod Octal
mod Tests
use dbcc.Base.{
  ℕ, ◌+◌, ◌-◌, ◌%◌, ◌^◌, Bool, true, false, ◌&&◌, ◌||◌, Option, none, some, List, drop, ltb, leb,
  ◌==◌, if◌then◌else◌, Run, ok, err, ◌>>=◌,
}
use dbcc.Error.{ErrorCode, bad_number_constant}
use dbcc.Literal.{Text, char_at, between, is_digit, is_octal_digit, is_hex_digit, span}
use dbcc.Target.{TargetEnvironment}

-- What is written to `*sizeof_int_type_out`, `*is_signed_out` and `*error` by a call that returns
-- true. A call that returns false is an error.
pub record IntegerInfo : Type 0 where
  pub sizeof_int_type : Option ℕ
  pub is_signed : Option Bool
  pub error : Option ErrorCode

abbrev pub info : ℕ → Bool → IntegerInfo
info size is_signed = record {
  sizeof_int_type = some size;
  is_signed = some is_signed;
  error = none;
}

-- `length -= n`, of `size_t`.
abbrev pub minus : ℕ → ℕ → ℕ
minus length n = (length + (2 ^ 64 - n)) % 2 ^ 64

-- From `maybe_handle_suffix` on, behind the `u`.
unfoldable pub long_suffix : TargetEnvironment → Bool → ℕ → Text → Run IntegerInfo
long_suffix env is_signed length str =
    if length == 0 then ok (info env.sizeof_int is_signed) else (do
      c ← char_at str 0
      d ← (if leb 2 length && (c == b'l' || c == b'L') then char_at str 1 else ok 0)
      if leb 2 length && (c == b'l' && d == b'l' || c == b'L' && d == b'L')
          then ok (info env.sizeof_long_long_int is_signed)
          else if c == b'l' || c == b'L'
          then ok (info env.sizeof_long_int is_signed)
          else err bad_number_constant)

unfoldable pub maybe_handle_suffix : TargetEnvironment → ℕ → Text → Run IntegerInfo
unfolding long_suffix
maybe_handle_suffix env length str = if length == 0 then long_suffix env true length str else (do
  c ← char_at str 0
  if c == b'u' || c == b'U'
      then long_suffix env false (length - 1) (drop 1 str)
      else long_suffix env true length str)

-- Behind `0x`.
unfoldable pub hexadecimal : TargetEnvironment → ℕ → Text → Run IntegerInfo
unfolding span maybe_handle_suffix is_hex_digit
hexadecimal env length str = do
  l ← span is_hex_digit length str
  if l == 0 then err bad_number_constant else maybe_handle_suffix env (length - l) (drop l str)

-- The digits of a constant that starts with 0 are looked at, and not skipped.
unfoldable pub octal : TargetEnvironment → ℕ → Text → Run IntegerInfo
unfolding span maybe_handle_suffix
octal env length str = do
  l ← span is_octal_digit (length - 1) (drop 1 str)
  maybe_handle_suffix env length str

unfoldable pub decimal : TargetEnvironment → ℕ → Text → Run IntegerInfo
unfolding span maybe_handle_suffix
decimal env length str = do
  l ← span is_digit (length - 1) (drop 1 str)
  maybe_handle_suffix env (minus length (1 + l)) (drop (1 + l) str)

-- A constant without its sign.
unfoldable pub unsigned_info : TargetEnvironment → ℕ → Text → Run IntegerInfo
unfolding hexadecimal octal decimal
unsigned_info env length str = do
  c ← char_at str 0
  if c == b'0'
      then (do
        d ← char_at str 1
        if d == b'x' then hexadecimal env (minus length 2) (drop 2 str) else octal env length str)
      else if between b'1' b'9' c
      then decimal env length str
      else err bad_number_constant

-- Behind a minus sign nothing is an error that is set by a call that returns true.
unfoldable pub integer_get_info : TargetEnvironment → ℕ → Text → Run IntegerInfo
unfolding unsigned_info
integer_get_info env length str = do
  c ← char_at str 0
  if c == b'-'
      then (if minus length 1 == 0
          then ok (record {
            sizeof_int_type = none;
            is_signed = none;
            error = some bad_number_constant;
          })
          else unsigned_info env (minus length 1) (drop 1 str))
      else unsigned_info env length str
