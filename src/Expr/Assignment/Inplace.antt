-- ===== src/Expr/Assignment/Inplace.antt =====
-- `do_inplace_binary_type_inference` (dbcc-expr.c) on operands whose types are known.
use dbcc.Base.{◌≡◌, refl, arith, true, false, not, ◌&&◌, ◌||◌, if◌then◌else◌, Run, ok, err, ◌>>=◌}
use dbcc.CType.Query.{dequalify, is_arithmetic, is_pointer, is_integer, is_const}
use dbcc.CType.{CType}
use dbcc.Error.{
  const_lvalue, nonarithmetic_values, shift_of_noninteger_value, noninteger_bitwise_op,
}
use dbcc.Expr.Assignment.{Expression, operand, check_simple_assignment}
use dbcc.Expr.Logical.{handle_bitwise_op}
use dbcc.Expr.{Operand}
use dbcc.Namespace.{Namespace}
use dbcc.Operator.{BinaryOperator, bitwise_and, bitwise_xor, bitwise_or}
use dbcc.Value.Floats.{FloatOps}

-- `DBCC_InplaceBinaryOperator`
pub data InplaceBinaryOperator : Type 0 where
  assign mul_assign div_assign rem_assign add_assign sub_assign left_shift_assign
        right_shift_assign :
      InplaceBinaryOperator
  and_assign xor_assign or_assign : InplaceBinaryOperator

unfoldable pub check_add : CType → CType → Run (Unit {0})
check_add inout_type b_type =
    if (is_arithmetic inout_type && is_arithmetic b_type)
      || (is_pointer inout_type && is_integer b_type)
    then ok tt
    else err nonarithmetic_values

unfoldable pub check_arithmetic : CType → CType → Run (Unit {0})
check_arithmetic inout_type b_type =
    if not (is_arithmetic inout_type) || not (is_arithmetic b_type)
    then err nonarithmetic_values
    else ok tt

unfoldable pub check_shift : CType → CType → Run (Unit {0})
unfolding check_arithmetic
check_shift inout_type b_type = check_arithmetic inout_type b_type >>= λ u.
    if not (is_integer inout_type) || not (is_integer b_type)
    then err shift_of_noninteger_value
    else ok tt

unfoldable pub check_operator : InplaceBinaryOperator → CType → Expression → Run (Unit {0})
check_operator assign inout_type b = check_simple_assignment inout_type b
check_operator add_assign inout_type b = check_add inout_type (operand b).value_type
check_operator sub_assign inout_type b = check_add inout_type (operand b).value_type
check_operator left_shift_assign inout_type b = check_shift inout_type (operand b).value_type
check_operator right_shift_assign inout_type b = check_shift inout_type (operand b).value_type
check_operator mul_assign inout_type b = check_arithmetic inout_type (operand b).value_type
check_operator div_assign inout_type b = check_arithmetic inout_type (operand b).value_type
check_operator rem_assign inout_type b = check_arithmetic inout_type (operand b).value_type
check_operator and_assign inout_type b = check_arithmetic inout_type (operand b).value_type
check_operator xor_assign inout_type b = check_arithmetic inout_type (operand b).value_type
check_operator or_assign inout_type b = check_arithmetic inout_type (operand b).value_type

unfoldable pub do_inplace_binary_type_inference :
    InplaceBinaryOperator → CType → Expression → Run (Unit {0})
do_inplace_binary_type_inference op inout_type b =
    if is_const inout_type then err const_lvalue else check_operator op inout_type b

-- The bitwise operators, and the operators that they stand in.
pub data Bitwise : Type 0 where
  and xor or : Bitwise

abbrev pub inplace : Bitwise → InplaceBinaryOperator
inplace and = and_assign
inplace xor = xor_assign
inplace or = or_assign

abbrev pub binary : Bitwise → BinaryOperator
binary and = bitwise_and
binary xor = bitwise_xor
binary or = bitwise_or

arithmetic_lem :
    (t : CType)
    → is_arithmetic t ≡ true
    → (is_integer (dequalify t) ≡ is_integer t) × (is_const t ≡ false)
unfolding is_arithmetic is_integer is_const dequalify
arithmetic_lem t h = (ground (arith, h), ground (arith, h))

check_bitwise :
    (op : Bitwise) (t : CType) (b : Expression)
    → is_arithmetic t ≡ true
    → is_arithmetic (operand b).value_type ≡ true
    → check_operator (inplace op) t b ≡ ok tt
unfolding check_operator check_arithmetic
check_bitwise and t b h k = rw (h, k) refl
check_bitwise xor t b h k = rw (h, k) refl
check_bitwise or t b h k = rw (h, k) refl

rejected :
    (ops : FloatOps) (ns : Namespace) (op : BinaryOperator) (a b : Operand)
    → (is_integer (dequalify a.value_type) && is_integer (dequalify b.value_type)) ≡ false
    → handle_bitwise_op ops ns op a b ≡ err noninteger_bitwise_op
unfolding handle_bitwise_op
rejected ops ns op a b h = rw h refl

-- For unqualified arithmetic types that are not both integers, the operators `&=`, `^=` and `|=`
-- are accepted, although the handler of the operator that stands in them reports an error.
pub do_inplace_binary_type_inference-handle_bitwise_op :
    (ops : FloatOps) (ns : Namespace) (op : Bitwise) (a : Operand) (b : Expression)
    → is_arithmetic a.value_type ≡ true
    → is_arithmetic (operand b).value_type ≡ true
    → (is_integer a.value_type && is_integer (operand b).value_type) ≡ false
    → (do_inplace_binary_type_inference (inplace op) a.value_type b ≡ ok tt)
      × (handle_bitwise_op ops ns (binary op) a (operand b) ≡ err noninteger_bitwise_op)
unfolding do_inplace_binary_type_inference
do_inplace_binary_type_inference-handle_bitwise_op ops ns op a b h k neither =
    let (same, no_const) = arithmetic_lem a.value_type h in
    let (same', no_const') = arithmetic_lem (operand b).value_type k in
    (
      rw no_const (check_bitwise op a.value_type b h k),
      rejected ops ns (binary op) a (operand b) (rw (same, same') neither),
    )
