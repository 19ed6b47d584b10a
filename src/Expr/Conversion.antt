-- ===== src/Expr/Conversion.antt =====
-- `usual_arithment_conversion_get_type` (dbcc-expr.c), the usual arithmetic conversions.
pub mod Symmetry
pub mod Integers
use dbcc.Base.{
  ℕ, ◌%◌, ◌^◌, Bool, true, false, not, ◌&&◌, ◌||◌, Option, none, some, ltb, if◌then◌else◌, max, Run,
  ok, fault, ◌>>=◌, assertion,
}
use dbcc.CType.Query.{is_arithmetic, dequalify, is_complex}
use dbcc.CType.{CType, FloatType, sizeof, int_type, enum_type, float_type}
use dbcc.Namespace.{Namespace, get_integer_type, get_floating_point_type}

unfoldable pub real_type_is_long_double : FloatType → Bool
real_type_is_long_double FloatType.long_double = true
real_type_is_long_double FloatType.imaginary_long_double = true
real_type_is_long_double FloatType.complex_long_double = true
real_type_is_long_double _ = false

unfoldable pub real_type_is_double : FloatType → Bool
real_type_is_double FloatType.double = true
real_type_is_double FloatType.imaginary_double = true
real_type_is_double FloatType.complex_double = true
real_type_is_double _ = false

unfoldable pub real_type_is_float : FloatType → Bool
real_type_is_float FloatType.float = true
real_type_is_float FloatType.imaginary_float = true
real_type_is_float FloatType.complex_float = true
real_type_is_float _ = false

unfoldable pub get_int_or_enum_is_signed : CType → Run Bool
get_int_or_enum_is_signed (int_type _ s) = ok s
get_int_or_enum_is_signed (enum_type _ _ s _ _ _) = ok s
get_int_or_enum_is_signed _ = fault assertion

-- `t->metatype == FLOAT && p (t->v_float.float_type)`
unfoldable pub float_with : (FloatType → Bool) → CType → Bool
float_with p (float_type _ f _) = p f
float_with p _ = false

-- One of the three paragraphs on floats: the type of the domain of the operands.
abbrev pub by_domain : Namespace → CType → CType → FloatType → FloatType → Run CType
unfolding is_complex get_floating_point_type
by_domain ns a b complex_one real_one =
    get_floating_point_type ns (if is_complex a || is_complex b then complex_one else real_one)

abbrev pub unsigned_size : CType → ℕ
unsigned_size t = sizeof t % 2 ^ 32

-- The paragraphs on integers.
unfoldable pub convert_integers : Namespace → CType → CType → Run CType
unfolding get_int_or_enum_is_signed get_integer_type
convert_integers ns a b = do
  a_is_signed ← get_int_or_enum_is_signed a
  b_is_signed ← get_int_or_enum_is_signed b
  let a_size = unsigned_size a
  let b_size = unsigned_size b
  if a_is_signed
      then (if b_is_signed
          then get_integer_type ns true (max a_size b_size)
          else if ltb b_size a_size
          then ok a
          else get_integer_type ns false (max a_size b_size))
      else (if b_is_signed
          then (if ltb a_size b_size then ok b else get_integer_type ns false (max a_size b_size))
          else get_integer_type ns false (max a_size b_size))

unfoldable pub convert_dequalified : Namespace → CType → CType → Run CType
unfolding float_with real_type_is_long_double real_type_is_double real_type_is_float
    convert_integers
convert_dequalified ns a b =
    if float_with real_type_is_long_double a || float_with real_type_is_long_double b
    then by_domain ns a b FloatType.complex_long_double FloatType.long_double
    else if float_with real_type_is_double a || float_with real_type_is_double b
    then by_domain ns a b FloatType.complex_double FloatType.double
    else if float_with real_type_is_float a || float_with real_type_is_float b
    then by_domain ns a b FloatType.complex_float FloatType.float
    else convert_integers ns a b

unfoldable pub usual_arithment_conversion_get_type : Namespace → CType → CType → Run CType
unfolding is_arithmetic dequalify convert_dequalified
usual_arithment_conversion_get_type ns a b =
    if is_arithmetic a && is_arithmetic b
    then convert_dequalified ns (dequalify a) (dequalify b)
    else fault assertion
