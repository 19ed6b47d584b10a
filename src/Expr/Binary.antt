-- ===== src/Expr/Binary.antt =====
-- The handler of each binary operator (dbcc-expr.c), and `dbcc_expr_new_binary_operator`.
pub mod Folding
pub mod Broken
pub mod Unconditional
use dbcc.Base.{
  ℕ, Bool, true, false, not, ◌&&◌, ◌||◌, Option, none, some, ◌==◌, if◌then◌else◌, ℤ, pos, Run, ok,
  err, fault, ◌>>=◌, assertion, undefined,
}
use dbcc.CType.Query.{
  dequalify, is_arithmetic, is_pointer, is_integer, is_real, is_scalar, is_incomplete,
  pointer_dereference, types_compatible,
}
use dbcc.CType.{CType, Metatype, metatype, sizeof}
use dbcc.Constant.{Constant, value, typed_value_scalar_to_tristate}
use dbcc.Error.{
  bad_operator_types, pointer_math_on_imcomplete_type, pointer_subtraction_type_mismatch,
  nonarithmetic_multiply, cannot_compare_complex, cannot_compare, shift_of_noninteger_value,
  logical_operator_requires_scalars, noninteger_bitwise_op,
}
use dbcc.Expr.Conversion.{usual_arithment_conversion_get_type}
use dbcc.Expr.{Operand}
use dbcc.Namespace.{Namespace, get_int_type, get_ptrdiff_type}
use dbcc.Operator.{
  BinaryOperator, add, sub, mul, div, rem, lt, lteq, gt, gteq, eq, ne, shift_left, shift_right,
  logical_and, logical_or, bitwise_and, bitwise_or, bitwise_xor, comma, TriState, no, yes, maybe,
}
use dbcc.Value.Access.{typed_value_set_int64}
use dbcc.Value.Bitwise.{typed_value_bitwise_and, typed_value_bitwise_or, typed_value_bitwise_xor}
use dbcc.Value.Cast.{cast_value}
use dbcc.Value.Compare.{typed_value_compare}
use dbcc.Value.Floats.{FloatOps}
use dbcc.Value.Integer.{
  typed_value_add, typed_value_subtract, typed_value_multiply, typed_value_shift_left,
  typed_value_shift_right,
}
use dbcc.Value.{Value}
use dbcc.Expr.Arithmetic.{
  handle_add, handle_subtract, handle_multiply, handle_divide, handle_remainder,
}
use dbcc.Expr.Comparison.{handle_relational_operator, handle_equality_operator}
use dbcc.Expr.Logical.{
  handle_shift_operator, handle_logical_op, handle_bitwise_op, handle_comma_operator,
}

module _ (ops : FloatOps) (ns : Namespace) where
  -- The array `binary_operator_handlers`.
  unfoldable pub binary_operator_handler : BinaryOperator → Operand → Operand → Run Operand
  unfolding handle_add handle_subtract handle_multiply handle_divide handle_remainder
      handle_relational_operator handle_equality_operator handle_shift_operator handle_logical_op
      handle_bitwise_op handle_comma_operator
  binary_operator_handler add = handle_add ops ns
  binary_operator_handler sub = handle_subtract ops ns
  binary_operator_handler mul = handle_multiply ops ns
  binary_operator_handler div = handle_divide ops ns
  binary_operator_handler rem = handle_remainder ops ns
  binary_operator_handler lt = handle_relational_operator ops ns lt
  binary_operator_handler lteq = handle_relational_operator ops ns lteq
  binary_operator_handler gt = handle_relational_operator ops ns gt
  binary_operator_handler gteq = handle_relational_operator ops ns gteq
  binary_operator_handler eq = handle_equality_operator ops ns eq
  binary_operator_handler ne = handle_equality_operator ops ns ne
  binary_operator_handler shift_left = handle_shift_operator ops ns shift_left
  binary_operator_handler shift_right = handle_shift_operator ops ns shift_right
  binary_operator_handler logical_and = handle_logical_op ops ns logical_and
  binary_operator_handler logical_or = handle_logical_op ops ns logical_or
  binary_operator_handler bitwise_and = handle_bitwise_op ops ns bitwise_and
  binary_operator_handler bitwise_or = handle_bitwise_op ops ns bitwise_or
  binary_operator_handler bitwise_xor = handle_bitwise_op ops ns bitwise_xor
  binary_operator_handler comma = handle_comma_operator ops ns

  -- `none` is an expression whose type is not known yet.
  unfoldable pub expr_new_binary_operator :
      BinaryOperator → Option Operand → Option Operand → Run (Option Operand)
  unfolding binary_operator_handler
  expr_new_binary_operator op (some a) (some b) =
      binary_operator_handler op a b >>= λ e. ok (some e)
  expr_new_binary_operator op _ _ = ok none
