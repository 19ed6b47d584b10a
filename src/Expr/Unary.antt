-- ===== src/Expr/Unary.antt =====
-- `dbcc_expr_is_lvalue` and `do_unary_operator_type_inference` (dbcc-expr.c), for an operand whose
-- types are inferred.
pub mod Folding
mod Tests
use dbcc.Base.{
  ℕ, Bool, true, false, Option, none, some, if◌then◌else◌, pos, Run, ok, err, fault, ◌>>=◌,
  undefined,
}
use dbcc.CType.Query.{dequalify, is_arithmetic, is_scalar, is_integer, is_pointer, is_const}
use dbcc.CType.{CType}
use dbcc.Constant.{Constant, value, typed_value_scalar_to_tristate}
use dbcc.Construct.{type_new_pointer}
use dbcc.Error.{
  nonarithmetic_values, nonscalar_values, noninteger_bitwise_op, lvalue_required, pointer_required,
}
use dbcc.Expr.Operands.{typed, folded, pointed_at}
use dbcc.Expr.{Operand}
use dbcc.Namespace.{Namespace, get_int_type}
use dbcc.Operator.{
  UnaryOperator, noop, logical_not, bitwise_not, negate, reference, dereference, TriState, no, yes,
  maybe,
}
use dbcc.Value.Access.{typed_value_set_int64}
use dbcc.Value.Bitwise.{typed_value_bitwise_not}
use dbcc.Value.Floats.{FloatOps}

pub data IdentifierType : Type 0 where
  unknown global local enum_value : IdentifierType

-- What `dbcc_expr_is_lvalue` looks at, beside the type: the object of an access with its type.
pub data Form : Type 0 where
  identifier : IdentifierType → Form
  access : Bool → Option CType → Form → Form
  unary_op : UnaryOperator → Form
  other_form : Form

abbrev pub is_const_type : Option CType → Bool
is_const_type none = false
is_const_type (some t) = is_const t

abbrev pub is_dereference : UnaryOperator → Bool
is_dereference op = elim op [ dereference ↦ true | _ ↦ false ]

unfoldable pub is_lvalue : Option CType → Form → Bool
is_lvalue type (identifier unknown) = if is_const_type type then false else true
is_lvalue type (identifier global) = if is_const_type type then false else true
is_lvalue type (identifier local) = if is_const_type type then false else true
is_lvalue type (identifier enum_value) = false
is_lvalue type (access by_pointer object_type object) =
    let behind = is_lvalue object_type object in
    if is_const_type type then false else if by_pointer then true else behind
is_lvalue type (unary_op op) = if is_const_type type then false else is_dereference op
is_lvalue type other_form = false

-- `DBCC_TriState` as the `int64_t` that is passed on.
abbrev pub tristate_value : TriState → ℕ
tristate_value no = 0
tristate_value yes = 1
tristate_value maybe = 2

module _ (ops : FloatOps) (ns : Namespace) where
  -- The truth value of the operand is written, not its negation.
  unfoldable pub fold_logical_not : CType → CType → Option Constant → Run Operand
  fold_logical_not type subtype none = ok (typed type)
  fold_logical_not type subtype (some c) = do
    v ← typed_value_scalar_to_tristate subtype c
    elim v [
      | maybe ↦ ok (typed type)
      | no ↦ typed_value_set_int64 ops type (pos (tristate_value no)) >>= λ x. ok (folded type x)
      | yes ↦ typed_value_set_int64 ops type (pos (tristate_value yes)) >>= λ x. ok (folded type x)
    ]

  unfoldable pub fold_bitwise_not : CType → Option Constant → Run Operand
  fold_bitwise_not type (some (value v)) =
      typed_value_bitwise_not type v >>= λ x. ok (folded type x)
  fold_bitwise_not type _ = ok (typed type)

  -- `address` is that of a new pointer type. The constant that `+` and `-` test is the one of the
  -- expression that is made, which is NULL.
  unfoldable pub do_unary_operator_type_inference : ℕ → UnaryOperator → Operand → Form → Run Operand
  do_unary_operator_type_inference address noop sub form =
      if is_arithmetic sub.value_type
      then ok (typed (dequalify sub.value_type))
      else err nonarithmetic_values
  do_unary_operator_type_inference address negate sub form =
      if is_arithmetic sub.value_type
      then ok (typed (dequalify sub.value_type))
      else err nonarithmetic_values
  do_unary_operator_type_inference address logical_not sub form =
      if is_scalar sub.value_type
      then (get_int_type ns >>= λ t. fold_logical_not t sub.value_type sub.constant)
      else err nonscalar_values
  do_unary_operator_type_inference address bitwise_not sub form =
      if is_integer sub.value_type
      then fold_bitwise_not (dequalify sub.value_type) sub.constant
      else err noninteger_bitwise_op
  do_unary_operator_type_inference address reference sub form =
      if is_lvalue (some sub.value_type) form
      then ok (typed (type_new_pointer ns.target_env address sub.value_type))
      else err lvalue_required
  do_unary_operator_type_inference address dereference sub form =
      if is_pointer sub.value_type
      then (pointed_at sub.value_type >>= λ t. ok (typed t))
      else err pointer_required
