-- ===== src/CType/Query.antt =====
-- The predicates and projections of dbcc-type.c on types.
use Prim.Native.Nat.{bit_and}
use dbcc.Base.{◌≡◌, refl, ℕ, Bool, true, false, not, Option, none, some, ◌==◌}
use dbcc.CType.{
  FloatType, float, double, long_double, complex_float, complex_double, complex_long_double,
  imaginary_float, imaginary_double, imaginary_long_double, Metatype, CType, void_type, bool_type,
  array_type, variable_length_array_type, function_type, kr_function_type, int_type, float_type,
  struct_type, union_type, enum_type, pointer_type, typedef_type, qualified_type, metatype, address,
}

abbrev pub qualifier_const : ℕ
qualifier_const = 1

abbrev pub qualifier_restrict : ℕ
qualifier_restrict = 2

abbrev pub qualifier_volatile : ℕ
qualifier_volatile = 4

abbrev pub qualifier_atomic : ℕ
qualifier_atomic = 8

-- A test of a flag, `(q & flag) != 0`.
abbrev pub has_flag : ℕ → ℕ → Bool
has_flag q flag = not (bit_and q flag == 0)

-- The loop strips qualifiers and typedefs, in any order, until something else is reached.
unfoldable pub dequalify : CType → CType
dequalify (qualified_type _ t _) = dequalify t
dequalify (typedef_type _ t) = dequalify t
dequalify t = t

unfoldable pub is_complex_float : FloatType → Bool
is_complex_float complex_float = true
is_complex_float complex_double = true
is_complex_float complex_long_double = true
is_complex_float imaginary_float = true
is_complex_float imaginary_double = true
is_complex_float imaginary_long_double = true
is_complex_float _ = false

unfoldable pub is_complex : CType → Bool
unfolding is_complex_float
is_complex (float_type _ f _) = is_complex_float f
is_complex _ = false

-- `none` is NULL.
pointee : CType → Option CType
pointee (pointer_type _ target) = some target
pointee _ = none

unfoldable pub pointer_dereference : CType → Option CType
unfolding pointee dequalify
pointer_dereference t = pointee (dequalify t)

unfoldable pub is_incomplete : CType → Bool
is_incomplete (void_type _) = true
is_incomplete (struct_type _ _ _ _ incomplete) = incomplete
is_incomplete (union_type _ _ _ _ incomplete) = incomplete
is_incomplete _ = false

unfoldable pub get_qualifiers : CType → ℕ
get_qualifiers (qualified_type _ _ q) = q
get_qualifiers _ = 0

unfoldable pub types_compatible : CType → CType → Bool
unfolding dequalify
types_compatible a b = address (dequalify a) == address (dequalify b)

scalar_metatype : Metatype → Bool
scalar_metatype Metatype.bool = true
scalar_metatype Metatype.int = true
scalar_metatype Metatype.float = true
scalar_metatype Metatype.enum = true
scalar_metatype Metatype.pointer = true
scalar_metatype _ = false

unfoldable pub is_scalar : CType → Bool
unfolding scalar_metatype dequalify
is_scalar t = scalar_metatype (metatype (dequalify t))

integer_metatype : Metatype → Bool
integer_metatype Metatype.bool = true
integer_metatype Metatype.int = true
integer_metatype Metatype.enum = true
integer_metatype _ = false

unfoldable pub is_integer : CType → Bool
unfolding integer_metatype dequalify
is_integer t = integer_metatype (metatype (dequalify t))

unfoldable pub is_const : CType → Bool
unfolding get_qualifiers
is_const t = has_flag (get_qualifiers t) qualifier_const

unfoldable pub is_unsigned : CType → Bool
is_unsigned (bool_type _) = true
is_unsigned (int_type _ is_signed) = not is_signed
is_unsigned (enum_type _ _ _ _ _ _) = true
is_unsigned _ = false

arithmetic_metatype : Metatype → Bool
arithmetic_metatype Metatype.bool = true
arithmetic_metatype Metatype.int = true
arithmetic_metatype Metatype.enum = true
arithmetic_metatype Metatype.float = true
arithmetic_metatype _ = false

-- Unlike most of its neighbours this test does not look through qualifiers.
unfoldable pub is_arithmetic : CType → Bool
unfolding arithmetic_metatype
is_arithmetic t = arithmetic_metatype (metatype t)

float_metatype : Metatype → Bool
float_metatype Metatype.float = true
float_metatype _ = false

unfoldable pub is_floating_point : CType → Bool
unfolding float_metatype dequalify
is_floating_point t = float_metatype (metatype (dequalify t))

pointer_metatype : Metatype → Bool
pointer_metatype Metatype.pointer = true
pointer_metatype _ = false

unfoldable pub is_pointer : CType → Bool
unfolding pointer_metatype dequalify
is_pointer t = pointer_metatype (metatype (dequalify t))

-- `float_type < 3`
real_float : FloatType → Bool
real_float float = true
real_float double = true
real_float long_double = true
real_float _ = false

real_type : CType → Bool
unfolding real_float
real_type (int_type _ _) = true
real_type (bool_type _) = true
real_type (enum_type _ _ _ _ _ _) = true
real_type (float_type _ f _) = real_float f
real_type _ = false

unfoldable pub is_real : CType → Bool
unfolding real_type dequalify
is_real t = real_type (dequalify t)

pub dequalify_idem : (t : CType) → dequalify (dequalify t) ≡ dequalify t
unfolding dequalify
dequalify_idem (qualified_type b t q) = dequalify_idem t
dequalify_idem (typedef_type b t) = dequalify_idem t
dequalify_idem (void_type b) = refl
dequalify_idem (bool_type b) = refl
dequalify_idem (int_type b s) = refl
dequalify_idem (float_type b f c) = refl
dequalify_idem (array_type b n e) = refl
dequalify_idem (variable_length_array_type b e) = refl
dequalify_idem (struct_type b t m x i) = refl
dequalify_idem (union_type b t m x i) = refl
dequalify_idem (enum_type b t s v x y) = refl
dequalify_idem (pointer_type b t) = refl
dequalify_idem (function_type b r p v) = refl
dequalify_idem (kr_function_type b r p) = refl
