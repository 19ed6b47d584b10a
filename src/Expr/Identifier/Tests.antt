-- ===== src/Expr/Identifier/Tests.antt =====
-- The theorem about enumerators (dbcc-expr.c) at a concrete namespace, and a subscript.
use dbcc.Base.{◌≡◌, refl, arith, true, [], ◌∷◌, pos, some, ok, ◌>>=◌, Returns, inl}
use dbcc.CType.Query.{dequalify, is_unsigned}
use dbcc.CType.{CType, EnumValue, enum_type, pointer_type}
use dbcc.Expr.Identifier.Enumerators.{IsEnumerator, do_symbol_type_inference-enum_value}
use dbcc.Expr.Identifier.{do_symbol_type_inference, expr_new_subscript}
use dbcc.Expr.Operands.{typed}
use dbcc.Namespace.{NamespaceEntry, namespace_new_global}
use dbcc.PtrTable.Laws.{init-IsValid}
use dbcc.PtrTable.{set_value}
use dbcc.Sample.{base_of, ns, int, no_floats}

abbrev purple : EnumValue
purple = record { name = 12; value = pos 2 }

abbrev color : CType
color = enum_type (base_of 600 4) 11 true (purple ∷ []) [] []

do_symbol_type_inference-enum_value_example :
    Returns
      (set_value ns.symbols 12 (some (NamespaceEntry.enum_value color purple)) >>= λ u.
        do_symbol_type_inference no_floats (record ns { symbols = u }) (λ a. int) 12)
      (IsEnumerator no_floats color (pos 2))
unfolding dequalify is_unsigned namespace_new_global
do_symbol_type_inference-enum_value_example =
    do_symbol_type_inference-enum_value no_floats ns (λ a. int) 12 color 4 purple init-IsValid
      (inl refl) (refl, refl, refl) (2, refl, omega arith)

-- `p[i]` for a pointer to `int`.
subscript :
    expr_new_subscript no_floats ns 7000 (typed (pointer_type (base_of 5 8) int)) (typed int)
    ≡ ok (typed int)
unfolding expr_new_subscript dbcc.Expr.Binary.expr_new_binary_operator
    dbcc.Expr.Unary.do_unary_operator_type_inference
subscript = refl
