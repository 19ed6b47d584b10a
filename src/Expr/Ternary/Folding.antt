-- ===== src/Expr/Ternary/Folding.antt =====
-- The conditional operator (dbcc-expr.c) on integer constants, and on structs.
use dbcc.Base.{
  ◌==◌, max, ℕ, ◌≡◌, refl, arith, Bool, true, some, if◌then◌else◌, Returns, Bool-cases, inl, inr,
}
use dbcc.CType.Query.{dequalify, is_arithmetic}
use dbcc.CType.{CType, sizeof, metatype}
use dbcc.Constant.Zero.{typed_value_scalar_to_tristate_lem}
use dbcc.Constant.{value, tristate_metatype}
use dbcc.Expr.Assignment.{constant_expr}
use dbcc.Expr.Conversion.Integers.{common_signed, usual_arithment_conversion_get_type-IsInt}
use dbcc.Expr.Operands.{folded}
use dbcc.Expr.Ternary.{
  expression, Addresses, constant_condition, arithmetic_branches,
  do_ternary_operator_type_inference, expr_new_ternary,
}
use dbcc.Expr.Unary.Folding.{scalar_lem}
use dbcc.Expr.{Operand}
use dbcc.Namespace.Builtins.{HasBuiltins}
use dbcc.Namespace.{Namespace}
use dbcc.Operator.{no, yes}
use dbcc.Value.Bytes.{IsValue}
use dbcc.Value.Cast.Conversion.{IsInt, cast_value_lem}
use dbcc.Value.Cast.{integer, shape}
use dbcc.Value.Floats.{FloatOps}
use dbcc.Value.Integer.Products.{read}
use dbcc.Value.{Value, word, store, is_size}

integer_arithmetic : (t : CType) (s : Bool) → shape t ≡ integer s → is_arithmetic t ≡ true
unfolding shape is_arithmetic
integer_arithmetic t s h = ground (arith, h)

greater-is_size : (w v : ℕ) → is_size w ≡ true → is_size v ≡ true → is_size (max w v) ≡ true
greater-is_size w v hw hv = ground (arith, hw, hv)

-- The outcome of the usual arithmetic conversions, with the value `n` in it.
abbrev pub IsFolded : ℕ → Bool → Value → Operand → Type 0
IsFolded m s stored e = IsInt e.value_type m s × (e.constant ≡ some (value stored))

module _ (ops : FloatOps) (ns : Namespace) (at : Addresses) (a b : CType) (w v : ℕ) (s r : Bool)
    (c d : Value) where
  branches_lem :
      (is_zero : Bool)
      → HasBuiltins ns
      → dequalify a ≡ a
      → dequalify b ≡ b
      → IsInt a w s
      → IsInt b v r
      → IsValue w c
      → IsValue v d
      → Returns
          (arithmetic_branches ops ns at (if is_zero then no else yes) (folded a c) (folded b d))
          (IsFolded
            (max w v)
            (common_signed s w r v)
            (store (max w v) (if is_zero then read v r (word d) else read w s (word c))))
  unfolding arithmetic_branches
  branches_lem is_zero hb pa pb ta tb hc hd =
      let m = max w v in
      let (t, run, (sh, sz, plain)) =
        usual_arithment_conversion_get_type-IsInt ns a b w v s r hb pa pb ta tb in
      let tt' : IsInt t m (common_signed s w r v) =
        rw plain (sh, sz, greater-is_size w v ta.2 tb.2) in
      elim (Bool-cases is_zero) [
        | inl z ↦
            rw (run, z, cast_value_lem ops t b m v (common_signed s w r v) r d tt' tb hd)
              (_, refl, (tt', refl))
        | inr z ↦
            rw (run, z, cast_value_lem ops t a m w (common_signed s w r v) s c tt' ta hc)
              (_, refl, (tt', refl))
      ]

  -- With the built-in types in place, for unqualified integer types of the two values, all operands
  -- constant and the condition's type a float, integer, enumeration or pointer type,
  -- `dbcc_expr_new_ternary` gives a constant of the type of the usual arithmetic conversions: the
  -- number of the second value if all bytes of the condition are 0, and of the first if not, modulo
  -- the range.
  pub expr_new_ternary-IsInt :
      (t : CType) (u : Value)
      → tristate_metatype (metatype t) ≡ true
      → IsValue (sizeof t) u
      → HasBuiltins ns
      → dequalify a ≡ a
      → dequalify b ≡ b
      → IsInt a w s
      → IsInt b v r
      → IsValue w c
      → IsValue v d
      → Returns
          (expr_new_ternary ops ns at
            (folded t u)
            (constant_expr (folded a c))
            (constant_expr (folded b d)))
          (λ result.
            (e : Operand) × (result ≡ expression e)
            × IsFolded
                (max w v)
                (common_signed s w r v)
                (store (max w v) (if word u == 0 then read v r (word d) else read w s (word c)))
                e)
  unfolding expr_new_ternary do_ternary_operator_type_inference constant_condition
  expr_new_ternary-IsInt t u ht hu hb pa pb ta tb hc hd =
      let (e, run, h) = branches_lem (word u == 0) hb pa pb ta tb hc hd in
      let zero = typed_value_scalar_to_tristate_lem t u ht hu in
      let left = integer_arithmetic a s (rw pa at ta.0) in
      let right = integer_arithmetic b r (rw pb at tb.0) in
      (expression e, rw (scalar_lem t ht, zero, left, right, run) refl, (e, refl, h))
