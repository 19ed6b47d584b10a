-- ===== src/Expr/Constants/Tests.antt =====
-- The theorems about `sizeof` and `_Alignof` (dbcc-expr.c) at concrete types.
use dbcc.Base.{◌≡◌, refl, arith, some, [], ◌∷◌, ok, ◌>>=◌}
use dbcc.CType.{FloatType}
use dbcc.Constant.{value}
use dbcc.CType.Query.{is_incomplete}
use dbcc.Expr.Constants.Sizes.{SizeofOutcome, expr_new_sizeof_type_lem}
use dbcc.Expr.Constants.{expr_new_sizeof_type, expr_new_float_constant}
use dbcc.Namespace.Builtins.{HasBuiltins}
use dbcc.Namespace.{namespace_new_global, init_ns_builtins, get_floating_point_type}
use dbcc.Value.Access.{typed_value_set_long_double}
use dbcc.Sample.{ns, name_at, address_at, long, no_floats}

ns-HasBuiltins : HasBuiltins ns
unfolding namespace_new_global
ns-HasBuiltins = (name_at, address_at, refl)

expr_new_sizeof_type_lem_example :
    SizeofOutcome no_floats 8 long (is_incomplete long) (expr_new_sizeof_type no_floats ns long)
unfolding namespace_new_global
expr_new_sizeof_type_lem_example =
    expr_new_sizeof_type_lem no_floats ns ns-HasBuiltins refl long (omega arith) (omega arith)

float_constant :
    (expr_new_float_constant no_floats ns FloatType.long_double (7 ∷ []) >>= λ e. ok e.constant)
    ≡ ok (some (value (7 ∷ [])))
unfolding expr_new_float_constant typed_value_set_long_double get_floating_point_type
    namespace_new_global init_ns_builtins
float_constant = refl
