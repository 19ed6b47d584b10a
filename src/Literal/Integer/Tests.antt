-- ===== src/Literal/Integer/Tests.antt =====
-- Runs of `dbcc_common_integer_get_info` (dbcc-common.c), and the theorems about it at concrete
-- constants.
use dbcc.Base.{◌≡◌, refl, arith, true, none, some, [], ◌∷◌, ok, err}
use dbcc.Error.{bad_number_constant}
use dbcc.Literal.Integer.Octal.{integer_get_info-octal}
use dbcc.Literal.Integer.{
  info, integer_get_info, unsigned_info, decimal, maybe_handle_suffix, long_suffix,
}
use dbcc.Literal.{span}
use dbcc.Sample.{env}

-- A lone minus sign sets the error of a call that returns true.
lone_minus :
    integer_get_info env 1 (b'-' ∷ [])
    ≡ ok (record { sizeof_int_type = none; is_signed = none; error = some bad_number_constant })
unfolding integer_get_info
lone_minus = refl

-- `7lx` is accepted.
behind_one_l : integer_get_info env 3 (b'7' ∷ b'l' ∷ b'x' ∷ []) ≡ ok (info 8 true)
unfolding integer_get_info unsigned_info decimal span maybe_handle_suffix long_suffix
behind_one_l = refl

-- `017`.
integer_get_info-octal_example :
    integer_get_info env 3 (b'0' ∷ b'1' ∷ b'7' ∷ b';' ∷ []) ≡ err bad_number_constant
integer_get_info-octal_example =
    integer_get_info-octal env b'1' 2 (b'7' ∷ b';' ∷ []) refl (omega arith)
