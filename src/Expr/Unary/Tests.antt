-- ===== src/Expr/Unary/Tests.antt =====
-- The theorem about the operator `!` (dbcc-expr.c) at a concrete operand, and its other operators.
use dbcc.Base.{◌≡◌, refl, some, true, false, Returns}
use dbcc.Expr.Operands.{folded}
use dbcc.Expr.Unary.Folding.{IsIntConstant, do_unary_operator_type_inference-logical_not}
use dbcc.Expr.Unary.{
  identifier, global, enum_value, access, other_form, is_lvalue, do_unary_operator_type_inference,
}
use dbcc.Namespace.Builtins.{HasBuiltins}
use dbcc.Namespace.{namespace_new_global}
use dbcc.Operator.{logical_not}
use dbcc.Sample.{ns, name_at, address_at, int, no_floats, six, six-IsValue}

ns-HasBuiltins : HasBuiltins ns
unfolding namespace_new_global
ns-HasBuiltins = (name_at, address_at, refl)

do_unary_operator_type_inference-logical_not_example :
    Returns
      (do_unary_operator_type_inference no_floats ns 7000 logical_not (folded int six) other_form)
      (IsIntConstant no_floats 4 1)
unfolding namespace_new_global dbcc.Value.word
do_unary_operator_type_inference-logical_not_example =
    do_unary_operator_type_inference-logical_not no_floats ns 7000 int six other_form ns-HasBuiltins
      refl refl six-IsValue

-- A member of a variable can be assigned, a member of a constant enumeration value cannot.
member_lvalue : is_lvalue (some int) (access false (some int) (identifier global)) ≡ true
unfolding is_lvalue dbcc.CType.Query.is_const
member_lvalue = refl

value_lvalue : is_lvalue (some int) (access false (some int) (identifier enum_value)) ≡ false
unfolding is_lvalue dbcc.CType.Query.is_const
value_lvalue = refl
