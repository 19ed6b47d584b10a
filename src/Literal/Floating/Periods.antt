-- ===== src/Literal/Floating/Periods.antt =====
-- `dbcc_common_floating_point_get_info` (dbcc-common.c) on constants with a period.
use dbcc.Base.{ℕ, ◌+◌, ◌<◌, ◌≡◌, refl, ◌∙◌, arith, true, [], ◌∷◌, ◌++◌, length, drop, ltb, err}
use dbcc.Error.{bad_number_constant}
use dbcc.Literal.Floating.Cursor.{
  Sign, spell_sign, Begins, drop_length, scan_digits, floating_point_get_info-decimal,
}
use dbcc.Literal.Floating.{exponent, finish, decimal_float, floating_point_get_info}
use dbcc.Literal.Integer.Forms.{All}
use dbcc.Literal.{Text, is_digit}

decimal_float-period :
    (n skip : ℕ) (str ds s : Text)
    → drop skip str ≡ ds ++ (b'.' ∷ s)
    → All is_digit ds
    → skip + length ds < n
    → decimal_float n str skip ≡ err bad_number_constant
unfolding decimal_float exponent finish
decimal_float-period n skip str ds s here all h =
    let (run, there) = scan_digits n skip str ds s b'.' here all refl (omega arith) in
    let some_length : ltb 0 n ≡ true = ground arith in
    let garbage : ltb (skip + length ds) n ≡ true = ground arith in
    rw (run, there, some_length, garbage) refl

period-Begins : (ds : Text) → Begins ds b'.'
period-Begins [] = refl
period-Begins (d ∷ ds) = tt

-- `dbcc_common_floating_point_get_info` rejects every decimal constant with a period, with or
-- without a sign and digits before the period, and whatever follows it.
pub floating_point_get_info-period :
    (n : ℕ) (sign : Sign) (ds s : Text)
    → All is_digit ds
    → length (spell_sign sign) + length ds < n
    → floating_point_get_info n (spell_sign sign ++ (ds ++ (b'.' ∷ s))) ≡ err bad_number_constant
floating_point_get_info-period n sign ds s all h =
    floating_point_get_info-decimal n sign ds s b'.' all (period-Begins ds) refl (omega arith)
    ∙ decimal_float-period n (length (spell_sign sign)) (spell_sign sign ++ (ds ++ (b'.' ∷ s))) ds s
        (drop_length (spell_sign sign) (ds ++ (b'.' ∷ s))) all h
