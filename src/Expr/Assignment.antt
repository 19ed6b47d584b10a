-- ===== src/Expr/Assignment.antt =====
-- `dbcc_expr_is_null_pointer_constant` and `check_simple_assignment` (dbcc-expr.c).
pub mod Structs
pub mod Inplace
mod Tests
use dbcc.Base.{
  Bool, true, false, not, ◌&&◌, ◌||◌, ◌==◌, none, some, if◌then◌else◌, Run, ok, err, fault, ◌>>=◌,
  undefined,
}
use dbcc.CType.Query.{
  dequalify, is_arithmetic, is_pointer, is_integer, is_floating_point, is_incomplete,
  types_compatible,
}
use dbcc.CType.{CType, Metatype, metatype, address, sizeof}
use dbcc.Constant.{Constant, value, is_zero}
use dbcc.Error.{assignment_type_incomplete, assignment_types_incompatible}
use dbcc.Expr.Cast.{is_void}
use dbcc.Expr.Operands.{pointed_at}
use dbcc.Expr.{Operand}

-- What `expr_type` tells apart here: DBCC_EXPR_TYPE_CONSTANT, DBCC_EXPR_TYPE_CAST with its
-- `pre_cast_expr`, and the others.
pub data Expression : Type 0 where
  constant_expr : Operand → Expression
  cast_expr : Operand → Expression → Expression
  other_expr : Operand → Expression

abbrev pub operand : Expression → Operand
operand (constant_expr e) = e
operand (cast_expr e inner) = e
operand (other_expr e) = e

-- A constant is read without a test for NULL.
unfoldable pub is_zero_constant : Operand → Run Bool
unfolding is_zero
is_zero_constant e = elim e.constant [
  | none ↦ fault undefined
  | some (value v) ↦ is_zero (sizeof e.value_type) v
  | _ ↦ ok false
]

abbrev pub is_integer_zero : Expression → Run Bool
is_integer_zero (constant_expr e) = if is_integer e.value_type then is_zero_constant e else ok false
is_integer_zero _ = ok false

unfoldable pub is_null_pointer_constant : Expression → Run Bool
unfolding is_zero_constant
is_null_pointer_constant (constant_expr e) =
    if is_floating_point e.value_type then ok false else is_zero_constant e
is_null_pointer_constant (cast_expr e inner) =
    if not (is_pointer e.value_type) then ok false else (do
      t ← pointed_at e.value_type
      if not (is_void (dequalify t)) then ok false else is_integer_zero inner)
is_null_pointer_constant (other_expr e) = ok false

abbrev pub struct_or_union : CType → Bool
struct_or_union t = elim (metatype t) [ Metatype.struct ↦ true | Metatype.union ↦ true | _ ↦ false ]

abbrev pub is_bool : CType → Bool
is_bool t = elim (metatype t) [ Metatype.bool ↦ true | _ ↦ false ]

-- The targets of two pointers are compatible, or the second is `void`.
unfoldable pub pointers_assignable : CType → CType → Run Bool
pointers_assignable a b =
    if is_pointer a && is_pointer b
    then (do t ← pointed_at a; u ← pointed_at b; ok (types_compatible t u || is_void (dequalify u)))
    else ok false

unfoldable pub check_simple_assignment : CType → Expression → Run (Unit {0})
check_simple_assignment inout_type b = do
  let b_type : CType = (operand b).value_type
  let dequal_a : CType = dequalify inout_type
  let dequal_b : CType = dequalify b_type
  let arithmetic : Bool = is_arithmetic inout_type && is_arithmetic b_type
  let struct_assign : Bool = struct_or_union dequal_a && address dequal_a == address dequal_b
  ptr_assign ← pointers_assignable dequal_a dequal_b
  assign_null ← (if is_pointer inout_type then is_null_pointer_constant b else ok false)
  let bool_from_ptr : Bool = is_bool dequal_a && is_pointer b_type
  if struct_assign && not (is_incomplete dequal_a)
      then err assignment_type_incomplete
      else if arithmetic || struct_assign || ptr_assign || assign_null || bool_from_ptr
      then ok tt
      else err assignment_types_incompatible
