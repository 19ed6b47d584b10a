-- ===== src/Expr/Constants.antt =====
-- The constants of dbcc-expr.c: integers, characters, floats, enumerators, and the results of `sizeof` and
-- `_Alignof`.
pub mod Sizes
mod Tests
use dbcc.Base.{ℕ, Bool, true, false, not, ◌||◌, if◌then◌else◌, ℤ, pos, Run, ok, err, ◌>>=◌}
use dbcc.CType.Query.{is_incomplete}
use dbcc.CType.{
  CType, FloatType, Metatype, EnumValue, metatype, sizeof, alignof, struct_type, union_type,
}
use dbcc.Error.{bad_alignof_argument, sizeof_incomplete_type}
use dbcc.Expr.Operands.{folded}
use dbcc.Expr.{Operand}
use dbcc.Namespace.{Namespace, get_size_type, get_floating_point_type}
use dbcc.Value.Access.{typed_value_set_int64, typed_value_set_long_double}
use dbcc.Value.Floats.{FloatOps}
use dbcc.Value.{Value, to_signed}

abbrev pub is_function : CType → Bool
is_function t = elim (metatype t) [ Metatype.function ↦ true | _ ↦ false ]

abbrev pub is_incomplete_struct : CType → Bool
is_incomplete_struct (struct_type _ _ _ _ incomplete) = incomplete
is_incomplete_struct (union_type _ _ _ _ incomplete) = incomplete
is_incomplete_struct _ = false

module _ (ops : FloatOps) where
  -- The value is a `uint64_t`, and is passed on as an `int64_t`.
  unfoldable pub expr_new_int_constant : CType → ℕ → Run Operand
  unfolding to_signed
  expr_new_int_constant type value =
      typed_value_set_int64 ops type (to_signed 8 value) >>= λ v. ok (folded type v)

  -- The value is a `uint32_t`.
  unfoldable pub expr_new_char_constant : CType → ℕ → Run Operand
  expr_new_char_constant type value =
      typed_value_set_int64 ops type (pos value) >>= λ v. ok (folded type v)

  -- The value is a `long double`.
  unfoldable pub expr_new_float_constant : Namespace → FloatType → Value → Run Operand
  expr_new_float_constant ns float_type value = do
    type ← get_floating_point_type ns float_type
    v ← typed_value_set_long_double ops type value
    ok (folded type v)

  unfoldable pub expr_new_enum_constant : CType → EnumValue → Run Operand
  expr_new_enum_constant type enum_value =
      typed_value_set_int64 ops type enum_value.value >>= λ v. ok (folded type v)

  unfoldable pub expr_new_alignof_type : Namespace → CType → Run Operand
  expr_new_alignof_type ns type =
      if is_function type
      then err bad_alignof_argument
      else if is_incomplete_struct type
      then err bad_alignof_argument
      else (do size_type ← get_size_type ns; expr_new_int_constant size_type (alignof type))

  -- The test is for the types that are complete.
  unfoldable pub expr_new_sizeof_type : Namespace → CType → Run Operand
  expr_new_sizeof_type ns type =
      if not (is_incomplete type)
      then err sizeof_incomplete_type
      else (do size_type ← get_size_type ns; expr_new_int_constant size_type (sizeof type))

  unfoldable pub expr_new_alignof_expr : Namespace → Operand → Run Operand
  unfolding expr_new_alignof_type
  expr_new_alignof_expr ns e = expr_new_alignof_type ns e.value_type

  unfoldable pub expr_new_sizeof_expr : Namespace → Operand → Run Operand
  unfolding expr_new_sizeof_type
  expr_new_sizeof_expr ns e = expr_new_sizeof_type ns e.value_type
