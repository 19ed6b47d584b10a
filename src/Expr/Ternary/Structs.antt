-- ===== src/Expr/Ternary/Structs.antt =====
-- The conditional operator (dbcc-expr.c) on two values of one struct or union.
use dbcc.Base.{◌≡◌, refl, arith, true, false, none, ok, err, ◌==◌}
use dbcc.CType.Query.{dequalify, is_scalar, is_arithmetic}
use dbcc.CType.{CType, address}
use dbcc.Error.{type_mismatch}
use dbcc.Expr.Assignment.{Expression, operand, struct_or_union}
use dbcc.Expr.Cast.{is_void}
use dbcc.Expr.Ternary.{
  Addresses, constant_condition, element_type, both_structs, pointer_branches,
  do_ternary_operator_type_inference, expr_new_ternary,
}
use dbcc.Expr.{Operand}
use dbcc.Namespace.{Namespace}
use dbcc.Operator.{TriState}
use dbcc.Value.Floats.{FloatOps}

not_arithmetic : (t : CType) → struct_or_union (dequalify t) ≡ true → is_arithmetic t ≡ false
unfolding is_arithmetic dequalify
not_arithmetic t h = ground (arith, h)

no_element : (t : CType) → struct_or_union t ≡ true → element_type t ≡ none
no_element t h = ground (arith, h)

struct_no_void : (t : CType) → struct_or_union t ≡ true → is_void t ≡ false
struct_no_void t h = ground (arith, h)

both_structs_same : (t : CType) → struct_or_union t ≡ true → both_structs t t ≡ true
both_structs_same t h = ground (arith, h)

same_address : (t : CType) → (address t == address t) ≡ true
same_address t = ground arith

pointer_branches-struct :
    (ops : FloatOps) (ns : Namespace) (at : Addresses) (a b : Expression) (c : TriState)
    → element_type (dequalify (operand a).value_type) ≡ none
    → element_type (dequalify (operand b).value_type) ≡ none
    → pointer_branches ops ns at c a b ≡ err type_mismatch
unfolding pointer_branches
pointer_branches-struct ops ns at a b c here there = rw (pointer_branches, here, there) refl

-- For a scalar condition whose constant can be read, and two values of one struct or union under
-- qualifiers and typedefs, `dbcc_expr_new_ternary` reports a type mismatch.
pub expr_new_ternary-struct :
    (ops : FloatOps) (ns : Namespace) (at : Addresses) (cond : Operand) (a b : Expression)
    (c : TriState)
    → is_scalar cond.value_type ≡ true
    → constant_condition cond ≡ ok c
    → struct_or_union (dequalify (operand a).value_type) ≡ true
    → dequalify (operand b).value_type ≡ dequalify (operand a).value_type
    → expr_new_ternary ops ns at cond a b ≡ err type_mismatch
unfolding expr_new_ternary do_ternary_operator_type_inference
expr_new_ternary-struct ops ns at cond a b c scalar known h same =
    let t = dequalify (operand a).value_type in
    rw
      (
        scalar,
        known,
        not_arithmetic (operand a).value_type h,
        same,
        both_structs_same t h,
        same_address t,
        struct_no_void t h,
      )
      (pointer_branches-struct ops ns at a b c (no_element t h) (rw same (no_element t h)))
