-- ===== src/Expr/Cast/Tests.antt =====
-- The theorems about `dbcc_expr_new_cast` (dbcc-expr.c) at concrete operands.
use dbcc.Base.{◌≡◌, refl, true, false, ok}
use dbcc.CType.Query.{dequalify}
use dbcc.CType.{CType, FloatType, float_type, pointer_type}
use dbcc.Expr.Cast.Integers.{expr_new_cast-IsInt}
use dbcc.Expr.Cast.{expr_new_cast}
use dbcc.Expr.Operands.{folded}
use dbcc.Sample.{base_of, int, long, no_floats, minus_seven, seven-IsValue}
use dbcc.Value.Cast.{shape}
use dbcc.Value.Integer.Products.{read}
use dbcc.Value.{word, store}

abbrev double : CType
double = float_type (base_of 10 8) FloatType.double false

abbrev to_int : CType
to_int = pointer_type (base_of 11 8) int

expr_new_cast-IsInt_example :
    expr_new_cast no_floats long (folded int minus_seven)
    ≡ ok (folded long (store 8 (read 4 true (word minus_seven))))
unfolding shape dequalify
expr_new_cast-IsInt_example =
    expr_new_cast-IsInt no_floats long int 8 4 true true minus_seven (refl, refl, refl)
      (refl, refl, refl) seven-IsValue
