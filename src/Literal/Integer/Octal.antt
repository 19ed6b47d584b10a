-- ===== src/Literal/Integer/Octal.antt =====
-- `dbcc_common_integer_get_info` (dbcc-common.c) on constants that start with 0 and no `x`.
use dbcc.Base.{
  ℕ, zero, suc, ◌-◌, ◌≤◌, ◌≡◌, refl, arith, Bool, false, [], ◌∷◌, ◌==◌, length, err, Returns,
  Bool-cases, inl, inr,
}
use dbcc.Error.{bad_number_constant}
use dbcc.Literal.{Text, is_octal_digit, span}
use dbcc.Literal.Integer.{maybe_handle_suffix, integer_get_info}
use dbcc.Target.{TargetEnvironment}

pub span-Returns :
    (test : ℕ → Bool) (n : ℕ) (str : Text) → n ≤ length str → Returns (span test n str) λ l. l ≤ n
unfolding span
span-Returns test zero str h = (0, refl, omega arith)
span-Returns test (suc n) [] h = absurd (omega arith)
span-Returns test (suc n) (c ∷ str) h = elim (Bool-cases (test c)) [
  | inl e ↦
      let (l, run, le) = span-Returns test n str (omega arith) in
      (suc l, rw (e, run) refl, omega arith)
  | inr e ↦ (0, rw e refl, omega arith)
]

-- A zero is no suffix.
not_a_suffix :
    (env : TargetEnvironment) (n : ℕ) (str : Text)
    → maybe_handle_suffix env (suc n) (b'0' ∷ str) ≡ err bad_number_constant
unfolding maybe_handle_suffix
not_a_suffix env n str = ground arith

-- `dbcc_common_integer_get_info` rejects every constant that starts with 0 and no x, if the text
-- has the bytes of the constant and at least two.
pub integer_get_info-octal :
    (env : TargetEnvironment) (c n : ℕ) (str : Text)
    → (c == b'x') ≡ false
    → n ≤ length (c ∷ str)
    → integer_get_info env (suc n) (b'0' ∷ c ∷ str) ≡ err bad_number_constant
unfolding integer_get_info
integer_get_info-octal env c n str h short =
    let (l, run, le) = span-Returns is_octal_digit n (c ∷ str) short in
    let count : suc n - 1 ≡ n = omega arith in rw (h, count, run) (not_a_suffix env n (c ∷ str))
