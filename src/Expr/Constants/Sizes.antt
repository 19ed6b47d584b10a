-- ===== src/Expr/Constants/Sizes.antt =====
-- The integer constants that `sizeof` and `_Alignof` make (dbcc-expr.c).
use dbcc.Base.{
  ℕ, ◌∙◌, ap, ◌^◌, ◌<◌, ◌*◌, ◌≡◌, refl, arith, Bool, true, false, not, some, pos, ltb,
  if◌then◌else◌, Run, ok, err, ◌>>=◌, Returns, bind_inv, lt→ltb,
}
use dbcc.CType.Query.{dequalify, is_unsigned, is_incomplete}
use dbcc.CType.{CType, sizeof, alignof}
use dbcc.Constant.{value}
use dbcc.Error.{sizeof_incomplete_type}
use dbcc.Expr.Constants.{
  is_function, is_incomplete_struct, expr_new_int_constant, expr_new_alignof_type,
  expr_new_sizeof_type,
}
use dbcc.Expr.Operands.{folded}
use dbcc.Expr.{Operand}
use dbcc.Namespace.Builtins.{HasBuiltins, IsIntegerType, get_integer_type_lem}
use dbcc.Namespace.{Namespace, get_size_type}
use dbcc.Value.Access.RoundTrip.{InRange, typed_value_get_int64-typed_value_set_int64}
use dbcc.Value.Access.{typed_value_get_int64, typed_value_set_int64}
use dbcc.Value.Cast.{integer, shape}
use dbcc.Value.Floats.{FloatOps}
use dbcc.Value.Words.{Integral, convert-pos}
use dbcc.Value.{Value, to_signed, convert, is_size, int_or_enum}
use native.Mathlib.Nat.{mod-eq_of_lt}

-- A constant of `size_t`, of `w` bytes, that reads back as `n`.
abbrev pub IsSizeConstant : FloatOps → ℕ → ℕ → Operand → Type 0
IsSizeConstant ops w n e =
    IsIntegerType false w e.value_type
    × ((v : Value) × (e.constant ≡ some (value v))
        × (typed_value_get_int64 ops e.value_type v ≡ ok n))

shape_lem : (t : CType) → shape t ≡ integer false → (int_or_enum t ≡ true) × (is_unsigned t ≡ true)
unfolding shape is_unsigned
shape_lem t h = (ground (arith, h), ground (arith, h))

size-convert : (n : ℕ) → n < 2 ^ 63 → (to_signed 8 n ≡ pos n) × (convert 8 (pos n) ≡ n)
unfolding to_signed
size-convert n h =
    let low : ltb (2 * n) (256 ^ 8) ≡ true = lt→ltb (2 * n) (256 ^ 8) (omega arith) in
    (rw low refl, convert-pos 8 n ∙ mod-eq_of_lt (omega arith))

int_constant_lem :
    (ops : FloatOps) (t : CType) (w n : ℕ)
    → IsIntegerType false w t
    → is_size w ≡ true
    → n < 256 ^ w
    → n < 2 ^ 63
    → Returns (expr_new_int_constant ops t n) (IsSizeConstant ops w n)
unfolding expr_new_int_constant
int_constant_lem ops t w n h k small positive =
    let (int, unsigned) = shape_lem t h.0 in
    let (same, back) = size-convert n positive in
    let integral : Integral t w = rw (h.2) (int, h.1, k) in
    let range : InRange w (not (is_unsigned (dequalify t))) (pos n) =
      rw (h.2, unsigned) (n, refl, small) in
    let (v, stored, loaded) =
      bind_inv (typed_value_set_int64 ops t (pos n)) _ (convert 8 (pos n))
        (typed_value_get_int64-typed_value_set_int64 ops t w (pos n) integral range) in
    (folded t v, rw (same, stored) refl, (h, (v, refl, loaded ∙ ap ok back)))

-- For a type that is incomplete, or not.
abbrev pub SizeofOutcome : FloatOps → ℕ → CType → Bool → Run Operand → Type 0
SizeofOutcome ops w type true run = Returns run (IsSizeConstant ops w (sizeof type))
SizeofOutcome ops w type false run = run ≡ err sizeof_incomplete_type

module _ (ops : FloatOps) (ns : Namespace) (builtins : HasBuiltins ns)
    (pointers : is_size ns.target_env.sizeof_pointer ≡ true) (type : CType) where
  size_constant_lem :
      (n : ℕ)
      → n < 256 ^ ns.target_env.sizeof_pointer
      → n < 2 ^ 63
      → Returns
          (get_size_type ns >>= λ t. expr_new_int_constant ops t n)
          (IsSizeConstant ops ns.target_env.sizeof_pointer n)
  unfolding get_size_type
  size_constant_lem n small positive =
      let (t, run, h) =
        get_integer_type_lem ns false ns.target_env.sizeof_pointer builtins pointers in
      let (e, run', h') =
        int_constant_lem ops t ns.target_env.sizeof_pointer n h pointers small positive in
      (e, rw (run, run') refl, h')

  pub expr_new_alignof_type_lem :
      is_function type ≡ false
      → is_incomplete_struct type ≡ false
      → alignof type < 256 ^ ns.target_env.sizeof_pointer
      → alignof type < 2 ^ 63
      → Returns
          (expr_new_alignof_type ops ns type)
          (IsSizeConstant ops ns.target_env.sizeof_pointer (alignof type))
  unfolding expr_new_alignof_type
  expr_new_alignof_type_lem f s small positive =
      let (e, run, h) = size_constant_lem (alignof type) small positive in
      (e, rw (f, s, run) refl, h)

  -- With the built-in types in place, pointers of 1, 2, 4 or 8 bytes, and a size below 2^63 that
  -- `size_t` holds, `dbcc_expr_new_sizeof_type` reports an error for every complete type, and for
  -- an incomplete one gives a constant of `size_t` that reads back as its size.
  pub expr_new_sizeof_type_lem :
      sizeof type < 256 ^ ns.target_env.sizeof_pointer
      → sizeof type < 2 ^ 63
      → SizeofOutcome ops ns.target_env.sizeof_pointer type
          (is_incomplete type)
          (expr_new_sizeof_type ops ns type)
  unfolding expr_new_sizeof_type
  expr_new_sizeof_type_lem small positive =
      let (e, run, h) = size_constant_lem (sizeof type) small positive in
      elim (is_incomplete type)
        as (λ b. SizeofOutcome ops ns.target_env.sizeof_pointer type b (
          if not b
          then err sizeof_incomplete_type
          else get_size_type ns >>= λ t. expr_new_int_constant ops t (sizeof type))) [
            | true ↦ (e, run, h)
            | false ↦ refl
          ]
