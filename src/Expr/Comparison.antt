-- ===== src/Expr/Comparison.antt =====
-- The handlers of relations and equalities (dbcc-expr.c).
use dbcc.Base.{Bool, true, false, ◌&&◌, ◌||◌, if◌then◌else◌, Run, ok, err, fault, ◌>>=◌, undefined}
use dbcc.CType.Query.{dequalify, is_arithmetic, is_pointer, is_real, types_compatible}
use dbcc.CType.{CType, Metatype, metatype}
use dbcc.Constant.{Constant}
use dbcc.Error.{cannot_compare_complex, cannot_compare}
use dbcc.Expr.Conversion.{usual_arithment_conversion_get_type}
use dbcc.Expr.{Operand}
use dbcc.Namespace.{Namespace, get_int_type}
use dbcc.Operator.{BinaryOperator}
use dbcc.Value.Cast.{cast_value}
use dbcc.Value.Compare.{typed_value_compare}
use dbcc.Value.Floats.{FloatOps}
use dbcc.Expr.Operands.{typed, data_of, written, pointed_at, fold}

module _ (ops : FloatOps) (ns : Namespace) where
  -- The folding of a comparison, up to the `free` of both cast values.
  unfoldable pub fold_comparison :
      BinaryOperator → CType → CType → Constant → Constant → Run Operand
  unfolding usual_arithment_conversion_get_type cast_value get_int_type typed_value_compare
  fold_comparison op atype btype c d = do
    x ← data_of c
    y ← data_of d
    cmp_type ← usual_arithment_conversion_get_type ns atype btype
    xo ← cast_value ops cmp_type atype x
    acasted ← written xo
    yo ← cast_value ops cmp_type btype y
    bcasted ← written yo
    int ← get_int_type ns
    res ← typed_value_compare ops int cmp_type op acasted bcasted
    fault undefined

  unfoldable pub handle_relational_operator : BinaryOperator → Operand → Operand → Run Operand
  unfolding dequalify is_arithmetic is_real get_int_type fold_comparison is_pointer pointed_at
      types_compatible
  handle_relational_operator op a b =
      let atype = dequalify a.value_type in
      let btype = dequalify b.value_type in
      if is_arithmetic atype && is_arithmetic btype
      then (if is_real atype && is_real btype
          then (do
            int ← get_int_type ns
            fold ops ns int a.constant b.constant (fold_comparison op atype btype))
          else err cannot_compare_complex)
      else if is_pointer atype && is_pointer btype
      then (do
        aref ← pointed_at atype
        bref ← pointed_at btype
        int ← get_int_type ns
        if types_compatible aref bref then ok (typed int) else err cannot_compare)
      else err cannot_compare

  abbrev pub is_void : CType → Bool
  is_void t = elim (metatype t) [ Metatype.void ↦ true | _ ↦ false ]

  unfoldable pub handle_equality_operator : BinaryOperator → Operand → Operand → Run Operand
  unfolding dequalify is_arithmetic get_int_type fold_comparison is_pointer pointed_at
      types_compatible
  handle_equality_operator op a b =
      let atype = dequalify a.value_type in
      let btype = dequalify b.value_type in
      if is_arithmetic atype && is_arithmetic btype
      then (do
        int ← get_int_type ns
        fold ops ns int a.constant b.constant (fold_comparison op atype btype))
      else if is_pointer atype && is_pointer btype
      then (do
        t ← pointed_at atype
        u ← pointed_at btype
        let aref = dequalify t
        let bref = dequalify u
        int ← get_int_type ns
        if is_void aref || is_void bref || types_compatible aref bref
            then ok (typed int)
            else err cannot_compare)
      else err cannot_compare
