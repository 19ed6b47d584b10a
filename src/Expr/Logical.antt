-- ===== src/Expr/Logical.antt =====
-- The handlers of shifts, logical and bitwise operators and the comma (dbcc-expr.c).
use dbcc.Base.{
  Bool, true, false, not, ◌&&◌, ◌||◌, Option, none, some, if◌then◌else◌, pos, Run, ok, err, fault,
  ◌>>=◌, assertion, undefined,
}
use dbcc.CType.Query.{dequalify, is_integer, is_scalar}
use dbcc.CType.{CType}
use dbcc.Constant.{Constant, typed_value_scalar_to_tristate}
use dbcc.Error.{shift_of_noninteger_value, logical_operator_requires_scalars, noninteger_bitwise_op}
use dbcc.Expr.Conversion.{usual_arithment_conversion_get_type}
use dbcc.Expr.{Operand}
use dbcc.Namespace.{Namespace, get_int_type}
use dbcc.Operator.{
  BinaryOperator, shift_left, shift_right, logical_and, bitwise_and, bitwise_or, bitwise_xor,
  TriState, no, yes, maybe,
}
use dbcc.Value.Access.{typed_value_set_int64}
use dbcc.Value.Bitwise.{typed_value_bitwise_and, typed_value_bitwise_or, typed_value_bitwise_xor}
use dbcc.Value.Cast.{cast_value}
use dbcc.Value.Floats.{FloatOps}
use dbcc.Value.Integer.{typed_value_shift_left, typed_value_shift_right}
use dbcc.Value.{Value}
use dbcc.Expr.Operands.{typed, folded, raw_data_of, written, cast_and, fold}

module _ (ops : FloatOps) (ns : Namespace) where
  -- The data of a constant that may be NULL.
  abbrev pub data_through : Option Constant → Run Value
  data_through none = fault undefined
  data_through (some c) = raw_data_of c

  unfoldable pub shift_by : BinaryOperator → CType → Value → Value → Run (Option Value)
  unfolding typed_value_shift_left typed_value_shift_right
  shift_by shift_left type x y = typed_value_shift_left type x y
  shift_by shift_right type x y = typed_value_shift_right type x y
  shift_by _ type x y = fault assertion

  -- The constants are read without a test for NULL. After a folding the cast values are freed.
  unfoldable pub handle_shift_operator : BinaryOperator → Operand → Operand → Run Operand
  unfolding is_integer usual_arithment_conversion_get_type cast_value shift_by
  handle_shift_operator op a b =
      if not (is_integer a.value_type)
      then err shift_of_noninteger_value
      else if not (is_integer b.value_type)
      then err shift_of_noninteger_value
      else (do
        rv_type ← usual_arithment_conversion_get_type ns a.value_type b.value_type
        x ← data_through a.constant
        y ← data_through b.constant
        xo ← cast_value ops rv_type a.value_type x
        acasted ← written xo
        yo ← cast_value ops rv_type b.value_type y
        bcasted ← written yo
        v ← shift_by op rv_type acasted bcasted
        fault undefined)

  abbrev pub truth_of : TriState → Option Bool
  truth_of no = some false
  truth_of yes = some true
  truth_of maybe = none

  abbrev pub is_and : BinaryOperator → Bool
  is_and logical_and = true
  is_and _ = false

  unfoldable pub fold_logical : BinaryOperator → CType → Option Bool → Option Bool → Run Operand
  unfolding typed_value_set_int64
  fold_logical op int (some p) (some q) = do
    let r = if is_and op then p && q else p || q
    v ← typed_value_set_int64 ops int (if r then pos 1 else pos 0)
    ok (folded int v)
  fold_logical op int _ _ = ok (typed int)

  unfoldable pub handle_logical_op : BinaryOperator → Operand → Operand → Run Operand
  unfolding is_scalar get_int_type typed_value_scalar_to_tristate fold_logical
  handle_logical_op op a b =
      if not (is_scalar a.value_type)
      then err logical_operator_requires_scalars
      else if not (is_scalar b.value_type)
      then err logical_operator_requires_scalars
      else (do
        int ← get_int_type ns
        fold ops ns int a.constant b.constant (λ c d. do
          p ← typed_value_scalar_to_tristate a.value_type c
          q ← typed_value_scalar_to_tristate b.value_type d
          fold_logical op int (truth_of p) (truth_of q)))

  unfoldable pub bitwise_by : BinaryOperator → CType → Value → Value → Run Value
  unfolding typed_value_bitwise_and typed_value_bitwise_or typed_value_bitwise_xor
  bitwise_by bitwise_and type x y = typed_value_bitwise_and type x y
  bitwise_by bitwise_or type x y = typed_value_bitwise_or type x y
  bitwise_by bitwise_xor type x y = typed_value_bitwise_xor type x y
  bitwise_by _ type x y = fault assertion

  -- Here too the constants are read without a test for NULL.
  unfoldable pub handle_bitwise_op : BinaryOperator → Operand → Operand → Run Operand
  unfolding dequalify is_integer usual_arithment_conversion_get_type cast_and bitwise_by
  handle_bitwise_op op a b =
      let atype = dequalify a.value_type in
      let btype = dequalify b.value_type in
      if is_integer atype && is_integer btype
      then (do
        type ← usual_arithment_conversion_get_type ns atype btype
        x ← data_through a.constant
        y ← data_through b.constant
        v ← cast_and ops ns type atype btype x y (bitwise_by op type)
        ok (folded type v))
      else err noninteger_bitwise_op

  unfoldable pub handle_comma_operator : Operand → Operand → Run Operand
  handle_comma_operator a b = ok (typed b.value_type)
