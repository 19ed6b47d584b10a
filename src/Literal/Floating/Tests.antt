-- ===== src/Literal/Floating/Tests.antt =====
-- Runs of `dbcc_common_floating_point_get_info` (dbcc-common.c), and the theorems about it at
-- concrete constants.
use dbcc.Base.{◌≡◌, refl, arith, none, [], ◌∷◌, ok}
use dbcc.Literal.Floating.Cursor.{plus, minus}
use dbcc.Literal.Floating.Forms.{small_e, floating_point_get_info_lem}
use dbcc.Literal.Floating.Reads.{Stays, floating_point_get_info-Stays}
use dbcc.Literal.Floating.{
  floating_point_get_info, unsigned_float, hexadecimal_float, test_end, scan, exponent, skip_sign,
  finish,
}
use dbcc.Literal.{span, is_hex_digit, is_alphanum}

-- `0x1p-2`.
hexadecimal :
    floating_point_get_info 6 (b'0' ∷ b'x' ∷ b'1' ∷ b'p' ∷ b'-' ∷ b'2' ∷ b';' ∷ []) ≡ ok none
unfolding floating_point_get_info unsigned_float hexadecimal_float test_end scan exponent skip_sign
    finish span is_hex_digit
hexadecimal = refl

-- `+12e-3`.
floating_point_get_info_lem_example :
    floating_point_get_info 6 (b'+' ∷ b'1' ∷ b'2' ∷ b'e' ∷ b'-' ∷ b'3' ∷ b';' ∷ []) ≡ ok none
unfolding is_alphanum
floating_point_get_info_lem_example =
    floating_point_get_info_lem plus b'1' (b'2' ∷ []) (small_e minus b'3' []) b';' []
      (refl, (refl, tt)) (refl, tt) refl

floating_point_get_info-Stays_example :
    Stays (floating_point_get_info 3 (b'1' ∷ b'e' ∷ b'5' ∷ b';' ∷ 0 ∷ [])) (λ r. Unit {0})
floating_point_get_info-Stays_example =
    floating_point_get_info-Stays 3 (b'1' ∷ b'e' ∷ b'5' ∷ b';' ∷ 0 ∷ []) (omega arith) (omega arith)
