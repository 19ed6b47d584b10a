-- ===== src/Expr/Cast.antt =====
-- `dbcc_expr_new_cast` (dbcc-expr.c).
pub mod Scalars
pub mod Integers
mod Tests
use dbcc.Base.{
  Bool, true, false, ◌&&◌, ◌||◌, none, some, if◌then◌else◌, Run, ok, err, ◌>>=◌, replicate,
}
use dbcc.CType.Query.{is_scalar, is_pointer, is_integer, is_floating_point}
use dbcc.CType.{CType, Metatype, metatype, sizeof}
use dbcc.Constant.{value}
use dbcc.Error.{bad_cast}
use dbcc.Expr.Operands.{typed, folded}
use dbcc.Expr.{Operand}
use dbcc.Value.Cast.{cast_value}
use dbcc.Value.Floats.{FloatOps}

abbrev pub is_void : CType → Bool
is_void t = elim (metatype t) [ Metatype.void ↦ true | _ ↦ false ]

-- The result of `dbcc_cast_value` is not looked at: if it writes nothing, the zeros stay.
unfoldable pub fold_cast : FloatOps → CType → Operand → Run Operand
fold_cast ops cast_type e = elim e.constant [
  | some (value v) ↦ do
    c ← cast_value ops cast_type e.value_type v
    ok (folded cast_type (elim c [ none ↦ replicate (sizeof cast_type) 0 | some x ↦ x ]))
  | _ ↦ ok (typed cast_type)
]

unfoldable pub do_cast_type_inference : FloatOps → CType → Operand → Run Operand
do_cast_type_inference ops cast_type e =
    if is_void cast_type
    then ok (typed cast_type)
    else if is_scalar cast_type && is_scalar e.value_type
    then fold_cast ops cast_type e
    else if is_pointer cast_type && is_pointer e.value_type
    then ok (typed cast_type)
    else if is_pointer cast_type && is_integer e.value_type
    then ok (typed cast_type)
    else if is_pointer cast_type && is_floating_point e.value_type
    then err bad_cast
    else if is_floating_point cast_type && is_pointer e.value_type
    then err bad_cast
    else err bad_cast

unfoldable pub expr_new_cast : FloatOps → CType → Operand → Run Operand
expr_new_cast ops type e = do_cast_type_inference ops type e
