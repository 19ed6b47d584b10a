-- ===== src/Expr/Binary/Unconditional.antt =====
-- The handlers of dbcc-expr.c for shifts, bitwise operators and the subtraction of pointers.
use dbcc.Base.{◌≡◌, refl, true, ◌&&◌, none, Bool-cases, inl, Returns, inr, undefined, arith}
use dbcc.CType.Query.{
  dequalify, is_arithmetic, is_pointer, is_integer, types_compatible, pointer_dereference,
}
use dbcc.CType.{CType, TypeBase, pointer_type}
use dbcc.Error.{shift_of_noninteger_value, noninteger_bitwise_op}
use dbcc.Expr.Binary.Broken.{Fails, err-Fails, fault-Fails, then-Fails}
use dbcc.Expr.Arithmetic.{handle_subtract}
use dbcc.Expr.Logical.{handle_shift_operator, handle_bitwise_op, data_through, shift_by}
use dbcc.Expr.Operands.{written, pointed_at, typed}
use dbcc.Expr.Conversion.{usual_arithment_conversion_get_type}
use dbcc.Expr.{Operand}
use dbcc.Namespace.Builtins.{HasBuiltins, IsIntegerType, get_integer_type_lem}
use dbcc.Namespace.{Namespace, get_ptrdiff_type}
use dbcc.Operator.{BinaryOperator}
use dbcc.Value.Cast.{cast_value}
use dbcc.Value.{is_size}
use dbcc.Value.Floats.{FloatOps}

module _ (ops : FloatOps) (ns : Namespace) (op : BinaryOperator) (a b : Operand) where
  -- The handler of the shift operators never returns an expression, whatever the operands are.
  pub handle_shift_operator-Fails : Fails (handle_shift_operator ops ns op a b)
  unfolding handle_shift_operator
  handle_shift_operator-Fails = elim (Bool-cases (is_integer a.value_type)) [
    | inr e ↦ rw e (err-Fails shift_of_noninteger_value)
    | inl e ↦ elim (Bool-cases (is_integer b.value_type)) [
      | inr f ↦ rw (e, f) (err-Fails shift_of_noninteger_value)
      | inl f ↦
          rw (e, f)
            (then-Fails (usual_arithment_conversion_get_type ns a.value_type b.value_type) _ (λ t.
              then-Fails (data_through ops ns a.constant) _ (λ x.
                then-Fails (data_through ops ns b.constant) _ (λ y.
                  then-Fails (cast_value ops t a.value_type x) _ (λ xo.
                    then-Fails (written xo) _ (λ p.
                      then-Fails (cast_value ops t b.value_type y) _ (λ yo.
                        then-Fails (written yo) _ (λ q.
                          then-Fails (shift_by ops ns op t p q) _
                            (λ v. fault-Fails undefined)))))))))
    ]
  ]

  -- The handler of the bitwise operators never returns an expression if the left operand is not
  -- constant.
  pub handle_bitwise_op-Fails : (a.constant ≡ none) → Fails (handle_bitwise_op ops ns op a b)
  unfolding handle_bitwise_op
  handle_bitwise_op-Fails h =
      elim (Bool-cases
        (is_integer (dequalify a.value_type) && is_integer (dequalify b.value_type))) [
          | inr e ↦ rw e (err-Fails noninteger_bitwise_op)
          | inl e ↦
              rw (e, h)
                (then-Fails
                  (usual_arithment_conversion_get_type ns (dequalify a.value_type)
                    (dequalify b.value_type))
                  _ (λ t. fault-Fails undefined))
        ]

types_compatible_refl : (t : CType) → types_compatible t t ≡ true
unfolding types_compatible
types_compatible_refl t = ground arith

-- For two operands of pointer types under qualifiers and typedefs, to any two types, with the
-- built-in types in place and pointers of 1, 2, 4 or 8 bytes, the handler of `-` gives a signed
-- integer type of the size of a pointer and no constant: it reports no error where the pointers
-- point at incompatible types.
pub handle_subtract-pointers :
    (ops : FloatOps) (ns : Namespace) (a b : Operand) (d e : TypeBase) (t u : CType)
    → HasBuiltins ns
    → is_size ns.target_env.sizeof_pointer ≡ true
    → dequalify a.value_type ≡ pointer_type d t
    → dequalify b.value_type ≡ pointer_type e u
    → Returns
        (handle_subtract ops ns a b)
        λ r. IsIntegerType true ns.target_env.sizeof_pointer r.value_type × (r.constant ≡ none)
unfolding handle_subtract is_arithmetic is_pointer dequalify pointed_at pointer_dereference
    get_ptrdiff_type
handle_subtract-pointers ops ns a b d e t u builtins size left right =
    let (p, run, h) = get_integer_type_lem ns true ns.target_env.sizeof_pointer builtins size in
    (typed p, rw (left, right, run, types_compatible_refl (dequalify t)) refl, (h, refl))
