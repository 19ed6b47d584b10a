-- ===== src/Expr/Assignment/Tests.antt =====
-- The theorem about `check_simple_assignment` (dbcc-expr.c) at concrete types.
use dbcc.Base.{◌≡◌, refl, false, [], ◌∷◌, ok, err}
use dbcc.CType.Query.{
  dequalify, is_incomplete, is_pointer, is_floating_point, is_arithmetic, types_compatible,
}
use dbcc.CType.{CType, struct_type, qualified_type, pointer_type, no_members, FloatType, float_type}
use dbcc.Constant.{is_zero}
use dbcc.Error.{assignment_type_incomplete, assignment_types_incompatible}
use dbcc.Expr.Assignment.Structs.{check_simple_assignment-struct}
use dbcc.Expr.Assignment.{
  constant_expr, other_expr, check_simple_assignment, pointers_assignable, is_null_pointer_constant,
  is_zero_constant,
}
use dbcc.Expr.Operands.{typed, folded, pointed_at}
use dbcc.Sample.{base_of, int, char}

abbrev pair : CType
pair = struct_type (base_of 1 16) 0 no_members [] false

abbrev to_int : CType
to_int = pointer_type (base_of 2 8) int

-- `p = 0` for a pointer.
assign_null :
    check_simple_assignment to_int (constant_expr (folded int (0 ∷ 0 ∷ 0 ∷ 0 ∷ []))) ≡ ok tt
unfolding check_simple_assignment pointers_assignable is_null_pointer_constant is_zero_constant
    is_zero is_pointer is_floating_point dequalify is_incomplete is_arithmetic
assign_null = refl

-- A `char *` to an `int *`.
assign_other :
    check_simple_assignment to_int (other_expr (typed (pointer_type (base_of 4 8) char)))
    ≡ err assignment_types_incompatible
unfolding check_simple_assignment pointers_assignable is_null_pointer_constant is_pointer pointed_at
    types_compatible dequalify is_incomplete is_arithmetic
assign_other = refl

check_simple_assignment-struct_example :
    check_simple_assignment pair (other_expr (typed (qualified_type (base_of 3 16) pair 1)))
    ≡ err assignment_type_incomplete
unfolding dequalify is_incomplete
check_simple_assignment-struct_example =
    check_simple_assignment-struct pair (other_expr (typed (qualified_type (base_of 3 16) pair 1)))
      refl refl

abbrev double : CType
double = float_type (base_of 5 8) FloatType.double false
