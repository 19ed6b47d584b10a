-- ===== src/Expr/Cast/Scalars.antt =====
-- Which casts `dbcc_expr_new_cast` (dbcc-expr.c) allows.
use dbcc.Base.{◌≡◌, refl, arith, Bool, true, false, ◌&&◌, ◌||◌, if◌then◌else◌, Run, ok, err}
use dbcc.CType.Query.{is_scalar, is_pointer, is_integer, is_floating_point}
use dbcc.CType.{CType}
use dbcc.Error.{bad_cast}
use dbcc.Expr.Cast.{is_void, fold_cast, do_cast_type_inference, expr_new_cast}
use dbcc.Expr.Operands.{typed}
use dbcc.Expr.{Operand}
use dbcc.Value.Floats.{FloatOps}

pointers_scalar : (t : CType) → is_pointer t ≡ true → is_scalar t ≡ true
unfolding is_pointer is_scalar
pointers_scalar t h = ground (arith, h)

integers_scalar : (t : CType) → is_integer t ≡ true → is_scalar t ≡ true
unfolding is_integer is_scalar
integers_scalar t h = ground (arith, h)

-- The branches for pointers come behind the one for scalars, which pointers are.
branches :
    (void scalar scalar' pointer pointer' integer' float' float : Bool) (cast : Run Operand)
    → (pointer ≡ true → scalar ≡ true)
    → (pointer' ≡ true → scalar' ≡ true)
    → (integer' ≡ true → scalar' ≡ true)
    → (if void
        then cast
        else if scalar && scalar'
        then cast
        else if pointer && pointer'
        then cast
        else if pointer && integer'
        then cast
        else if pointer && float'
        then err bad_cast
        else if float && pointer'
        then err bad_cast
        else err bad_cast)
      ≡ (if void || (scalar && scalar') then cast else err bad_cast)
branches true s s' p p' i' f' f c h h' k = refl
branches false true true p p' i' f' f c h h' k = refl
branches false false s' p p' i' f' f c h h' k = ground (arith, h)
branches false true false p p' i' f' f c h h' k = ground (arith, h', k)

-- `dbcc_expr_new_cast` of an operand without a constant gives the type of the cast if that is
-- `void` or if both types are scalar, between pointers and floating types too, and else reports a
-- bad cast.
pub expr_new_cast-typed :
    (ops : FloatOps) (cast_type t : CType)
    → expr_new_cast ops cast_type (typed t) ≡ (
        if is_void cast_type || (is_scalar cast_type && is_scalar t)
        then ok (typed cast_type)
        else err bad_cast)
unfolding expr_new_cast do_cast_type_inference fold_cast
expr_new_cast-typed ops cast_type t =
    branches (is_void cast_type) (is_scalar cast_type) (is_scalar t) (is_pointer cast_type)
      (is_pointer t) (is_integer t) (is_floating_point t) (is_floating_point cast_type)
      (ok (typed cast_type)) (pointers_scalar cast_type) (pointers_scalar t) (integers_scalar t)
