-- ===== src/Value/Floats.antt =====
-- The floating-point instructions of the host, which the code reaches through C's operators on
-- `float`, `double` and `long double`: a parameter of the model.
use dbcc.Base.{
  ℕ, ◌+◌, ◌++◌, Bool, Option, none, some, ℤ, Run, ok, fault, ◌>>=◌, length, take, drop, ltb,
  if◌then◌else◌, out_of_bounds,
}
use dbcc.CType.{FloatType, CType, float_type}
use dbcc.Value.{Value}

-- The C types of the host.
pub data Real : Type 0 where
  single double extended : Real

-- `of_int` converts an integer. `to_int` is the integral part, `none` for what is not a number.
pub record FloatOps : Type 0 where
  pub size : Real → ℕ
  pub add : Real → Value → Value → Value
  pub subtract : Real → Value → Value → Value
  pub multiply : Real → Value → Value → Value
  pub divide : Real → Value → Value → Value
  pub negate : Real → Value → Value
  pub of_int : Real → ℤ → Value
  pub to_int : Real → Value → Option ℤ
  pub cast : Real → Real → Value → Value
  pub less : Real → Value → Value → Bool
  pub equal : Real → Value → Value → Bool

pub data Part : Type 0 where
  real imaginary complex : Part

-- The type of the parts, and which parts there are.
unfoldable pub real_of : FloatType → Real
real_of FloatType.float = single
real_of FloatType.double = double
real_of FloatType.long_double = extended
real_of FloatType.complex_float = single
real_of FloatType.complex_double = double
real_of FloatType.complex_long_double = extended
real_of FloatType.imaginary_float = single
real_of FloatType.imaginary_double = double
real_of FloatType.imaginary_long_double = extended

unfoldable pub part_of : FloatType → Part
part_of FloatType.float = real
part_of FloatType.double = real
part_of FloatType.long_double = real
part_of FloatType.complex_float = complex
part_of FloatType.complex_double = complex
part_of FloatType.complex_long_double = complex
part_of FloatType.imaginary_float = imaginary
part_of FloatType.imaginary_double = imaginary
part_of FloatType.imaginary_long_double = imaginary

abbrev pub float_of : CType → Option FloatType
float_of (float_type _ f _) = some f
float_of _ = none

-- `((float *) v)[i]`, with the size of a part for `n`.
unfoldable pub get_part : ℕ → ℕ → Value → Run Value
get_part n i v = if ltb (length v) (i + n) then fault out_of_bounds else ok (take n (drop i v))

-- The cases of a `switch` on the float type that treat the parts of a complex number one by one.
unfoldable pub by_parts :
    FloatOps → FloatType → (Real → Value → Value → Value) → Value → Value → Run Value
unfolding get_part real_of part_of
by_parts ops f op a b =
    let r = real_of f in
    let n = ops.size r in
    elim (part_of f) [
      | complex ↦ do
        a0 ← get_part n 0 a
        b0 ← get_part n 0 b
        a1 ← get_part n n a
        b1 ← get_part n n b
        ok (op r a0 b0 ++ op r a1 b1)
      | _ ↦ do a0 ← get_part n 0 a; b0 ← get_part n 0 b; ok (op r a0 b0)
    ]
