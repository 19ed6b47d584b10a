-- ===== src/Expr/Cast/Integers.antt =====
-- `dbcc_expr_new_cast` (dbcc-expr.c) on constants of integer types.
use dbcc.Base.{ℕ, ◌≡◌, refl, arith, Bool, true, false, ok}
use dbcc.CType.Query.{dequalify, is_scalar}
use dbcc.CType.{CType}
use dbcc.Expr.Cast.{is_void, fold_cast, do_cast_type_inference, expr_new_cast}
use dbcc.Expr.Operands.{folded}
use dbcc.Value.Bytes.{IsValue}
use dbcc.Value.Cast.Conversion.{IsInt, cast_value_lem}
use dbcc.Value.Cast.{integer, shape}
use dbcc.Value.Floats.{FloatOps}
use dbcc.Value.Integer.Products.{read}
use dbcc.Value.{Value, word, store}

integer_scalar : (t : CType) (s : Bool) → shape (dequalify t) ≡ integer s → is_scalar t ≡ true
unfolding shape is_scalar
integer_scalar t s h = ground (arith, h)

integer_no_void : (t : CType) (s : Bool) → shape (dequalify t) ≡ integer s → is_void t ≡ false
unfolding shape dequalify
integer_no_void t s h = ground (arith, h)

-- A cast of a constant from one integer type to another succeeds, and `dbcc_expr_new_cast` folds it
-- to the number that the bytes stand for in the signedness of the constant's type, modulo the range
-- of the type of the cast.
pub expr_new_cast-IsInt :
    (ops : FloatOps) (dst src : CType) (d w : ℕ) (ds ss : Bool) (v : Value)
    → IsInt dst d ds
    → IsInt src w ss
    → IsValue w v
    → expr_new_cast ops dst (folded src v) ≡ ok (folded dst (store d (read w ss (word v))))
unfolding expr_new_cast do_cast_type_inference fold_cast
expr_new_cast-IsInt ops dst src d w ds ss v hd hw hv =
    rw
      (
        integer_no_void dst ds hd.0,
        integer_scalar dst ds hd.0,
        integer_scalar src ss hw.0,
        cast_value_lem ops dst src d w ds ss v hd hw hv,
      )
      refl
