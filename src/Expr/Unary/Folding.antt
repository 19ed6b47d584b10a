-- ===== src/Expr/Unary/Folding.antt =====
-- The constants that `do_unary_operator_type_inference` (dbcc-expr.c) makes of constants.
use dbcc.Base.{
  ℕ, ◌≡◌, refl, ◌∙◌, ap, arith, Bool, true, false, not, some, pos, ◌==◌, if◌then◌else◌, ok, ◌>>=◌,
  Returns, bind_inv, Bool-cases, inl, inr,
}
use dbcc.CType.Query.{dequalify, is_scalar, is_unsigned}
use dbcc.CType.{CType, sizeof, metatype}
use dbcc.Constant.Zero.{typed_value_scalar_to_tristate_lem}
use dbcc.Constant.{value, tristate_metatype}
use dbcc.Expr.Operands.{folded}
use dbcc.Expr.Unary.{Form, do_unary_operator_type_inference, fold_logical_not}
use dbcc.Expr.{Operand}
use dbcc.Namespace.Builtins.{HasBuiltins, IsIntegerType, get_integer_type_lem}
use dbcc.Namespace.{Namespace, get_int_type}
use dbcc.Operator.{logical_not}
use dbcc.Value.Access.RoundTrip.{InRange, typed_value_get_int64-typed_value_set_int64}
use dbcc.Value.Access.{typed_value_get_int64, typed_value_set_int64}
use dbcc.Value.Bytes.{IsValue}
use dbcc.Value.Cast.{integer, shape}
use dbcc.Value.Floats.{FloatOps}
use dbcc.Value.Words.{Integral, convert-pos, by_sizes}
use dbcc.Value.{Value, word, convert, is_size, fits, int_or_enum}

signed_shape :
    (t : CType) → shape t ≡ integer true → (int_or_enum t ≡ true) × (is_unsigned t ≡ false)
unfolding shape is_unsigned
signed_shape t h = (ground (arith, h), ground (arith, h))

abbrev bit : Bool → ℕ
bit false = 0
bit true = 1

bit-fits : (b : Bool) (w : ℕ) → is_size w ≡ true → fits w (pos (bit b)) ≡ true
unfolding fits
bit-fits false w h = by_sizes (λ w. fits w (pos 0) ≡ true) refl refl refl refl w h
bit-fits true w h = by_sizes (λ w. fits w (pos 1) ≡ true) refl refl refl refl w h

convert-bit : (b : Bool) → convert 8 (pos (bit b)) ≡ bit b
convert-bit false = convert-pos 8 0
convert-bit true = convert-pos 8 1

-- A constant of `int`, of `w` bytes, that reads back as `n`.
abbrev pub IsIntConstant : FloatOps → ℕ → ℕ → Operand → Type 0
IsIntConstant ops w n e =
    IsIntegerType true w e.value_type
    × ((v : Value) × (e.constant ≡ some (value v))
        × (typed_value_get_int64 ops e.value_type v ≡ ok n))

bit_constant :
    (ops : FloatOps) (t : CType) (w : ℕ) (b : Bool)
    → IsIntegerType true w t
    → is_size w ≡ true
    → Returns
        (typed_value_set_int64 ops t (pos (bit b)) >>= λ x. ok (folded t x))
        (IsIntConstant ops w (bit b))
bit_constant ops t w b h k =
    let (int, signed) = signed_shape t h.0 in
    let integral : Integral t w = rw (h.2) (int, h.1, k) in
    let range : InRange w (not (is_unsigned (dequalify t))) (pos (bit b)) =
      rw (h.2, signed) (bit-fits b w k) in
    let (v, stored, loaded) =
      bind_inv (typed_value_set_int64 ops t (pos (bit b))) _ (convert 8 (pos (bit b)))
        (typed_value_get_int64-typed_value_set_int64 ops t w (pos (bit b)) integral range) in
    (folded t v, rw stored refl, (h, (v, refl, loaded ∙ ap ok (convert-bit b))))

pub scalar_lem : (t : CType) → tristate_metatype (metatype t) ≡ true → is_scalar t ≡ true
unfolding is_scalar dequalify
scalar_lem t h = ground (arith, h)

-- With the built-in types in place and an `int` of 1, 2, 4 or 8 bytes, the operator `!` on a
-- constant value of a float, integer, enumeration or pointer type gives a constant of `int` that
-- reads back as 0 if all bytes of the value are 0 and as 1 if not: the truth value itself.
pub do_unary_operator_type_inference-logical_not :
    (ops : FloatOps) (ns : Namespace) (address : ℕ) (t : CType) (v : Value) (form : Form)
    → HasBuiltins ns
    → is_size ns.target_env.sizeof_int ≡ true
    → tristate_metatype (metatype t) ≡ true
    → IsValue (sizeof t) v
    → Returns
        (do_unary_operator_type_inference ops ns address logical_not (folded t v) form)
        (IsIntConstant ops ns.target_env.sizeof_int (if word v == 0 then 0 else 1))
unfolding do_unary_operator_type_inference get_int_type fold_logical_not
do_unary_operator_type_inference-logical_not ops ns address t v form builtins k m hv =
    let w = ns.target_env.sizeof_int in
    let (u, run, h) = get_integer_type_lem ns true w builtins k in
    let truth = typed_value_scalar_to_tristate_lem t v m hv in
    elim (Bool-cases (word v == 0)) [
      | inl z ↦
          let (e, run', h') = bit_constant ops u w false h k in
          (e, rw (scalar_lem t m, run, truth, z) run', rw z h')
      | inr z ↦
          let (e, run', h') = bit_constant ops u w true h k in
          (e, rw (scalar_lem t m, run, truth, z) run', rw z h')
    ]
