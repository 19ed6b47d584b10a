-- ===== src/Expr/Arithmetic.antt =====
-- The handlers of `+`, `-`, `*`, `/` and `%` (dbcc-expr.c).
use dbcc.Base.{◌&&◌, if◌then◌else◌, Run, ok, err, fault, ◌>>=◌, undefined}
use dbcc.CType.Query.{
  dequalify, is_arithmetic, is_pointer, is_integer, is_incomplete, types_compatible,
}
use dbcc.Error.{
  bad_operator_types, pointer_math_on_imcomplete_type, pointer_subtraction_type_mismatch,
  nonarithmetic_multiply,
}
use dbcc.Expr.Conversion.{usual_arithment_conversion_get_type}
use dbcc.Expr.{Operand}
use dbcc.Namespace.{Namespace, get_ptrdiff_type}
use dbcc.Value.Floats.{FloatOps}
use dbcc.Value.Integer.{typed_value_add, typed_value_subtract, typed_value_multiply}
use dbcc.Expr.Operands.{
  typed, folded, data_of, raw_data_of, pointed_at, cast_and, add_pointer, fold,
}

module _ (ops : FloatOps) (ns : Namespace) where
  unfoldable pub handle_add : Operand → Operand → Run Operand
  unfolding dequalify is_arithmetic is_pointer is_integer usual_arithment_conversion_get_type
      cast_and typed_value_add add_pointer
  handle_add a b =
      let atype = dequalify a.value_type in
      let btype = dequalify b.value_type in
      if is_arithmetic atype && is_arithmetic btype
      then (do
        type ← usual_arithment_conversion_get_type ns atype btype
        fold ops ns type a.constant b.constant (λ c d. do
          x ← data_of c
          y ← data_of d
          v ← cast_and ops ns type atype btype x y (typed_value_add ops type)
          ok (folded type v)))
      else if is_integer atype && is_pointer btype
      then add_pointer ops ns b.value_type
      else if is_pointer atype && is_integer btype
      then add_pointer ops ns a.value_type
      else err bad_operator_types

  -- The folded value is written through the constant of the expression, which is NULL.
  -- Two pointers are tested with the left type on both sides.
  unfoldable pub handle_subtract : Operand → Operand → Run Operand
  unfolding dequalify is_arithmetic is_pointer is_integer usual_arithment_conversion_get_type
      cast_and typed_value_subtract pointed_at is_incomplete types_compatible get_ptrdiff_type
  handle_subtract a b =
      let atype = dequalify a.value_type in
      let btype = dequalify b.value_type in
      if is_arithmetic atype && is_arithmetic btype
      then (do
        type ← usual_arithment_conversion_get_type ns atype btype
        fold ops ns type a.constant b.constant (λ c d. do
          x ← data_of c
          y ← data_of d
          v ← cast_and ops ns type atype btype x y (typed_value_subtract ops type)
          fault undefined))
      else if is_pointer atype && is_pointer btype
      then (do
        t ← pointed_at atype
        u ← pointed_at atype
        r ← get_ptrdiff_type ns
        if types_compatible (dequalify t) (dequalify u)
            then ok (typed r)
            else err pointer_subtraction_type_mismatch)
      else if is_pointer atype && is_integer btype
      then (do
        t ← pointed_at atype
        if is_incomplete (dequalify t)
            then err pointer_math_on_imcomplete_type
            else ok (typed atype))
      else err bad_operator_types

  -- The cast values, which are on the stack, are freed.
  unfoldable pub handle_multiply : Operand → Operand → Run Operand
  unfolding dequalify is_arithmetic usual_arithment_conversion_get_type cast_and
      typed_value_multiply
  handle_multiply a b =
      let atype = dequalify a.value_type in
      let btype = dequalify b.value_type in
      if is_arithmetic atype && is_arithmetic btype
      then (do
        type ← usual_arithment_conversion_get_type ns atype btype
        fold ops ns type a.constant b.constant (λ c d. do
          x ← raw_data_of c
          y ← raw_data_of d
          v ← cast_and ops ns type atype btype x y (typed_value_multiply ops type)
          fault undefined))
      else err nonarithmetic_multiply

  -- The constants are multiplied.
  unfoldable pub handle_divide : Operand → Operand → Run Operand
  unfolding dequalify is_arithmetic usual_arithment_conversion_get_type cast_and
      typed_value_multiply
  handle_divide a b =
      let atype = dequalify a.value_type in
      let btype = dequalify b.value_type in
      if is_arithmetic atype && is_arithmetic btype
      then (do
        type ← usual_arithment_conversion_get_type ns atype btype
        fold ops ns type a.constant b.constant (λ c d. do
          x ← data_of c
          y ← data_of d
          v ← cast_and ops ns type atype btype x y (typed_value_multiply ops type)
          ok (folded type v)))
      else err nonarithmetic_multiply

  -- The constants are multiplied, and the cast values freed.
  unfoldable pub handle_remainder : Operand → Operand → Run Operand
  unfolding dequalify is_arithmetic usual_arithment_conversion_get_type cast_and
      typed_value_multiply
  handle_remainder a b =
      let atype = dequalify a.value_type in
      let btype = dequalify b.value_type in
      if is_arithmetic atype && is_arithmetic btype
      then (do
        type ← usual_arithment_conversion_get_type ns atype btype
        fold ops ns type a.constant b.constant (λ c d. do
          x ← data_of c
          y ← data_of d
          v ← cast_and ops ns type atype btype x y (typed_value_multiply ops type)
          fault undefined))
      else err nonarithmetic_multiply
