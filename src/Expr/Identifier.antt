-- ===== src/Expr/Identifier.antt =====
-- `do_symbol_type_inference` and `dbcc_expr_new_subscript` (dbcc-expr.c).
-- The type of a global or local, which an entry names by its address, is read from `type_at`.
pub mod Enumerators
mod Tests
use dbcc.Base.{ℕ, none, some, Run, ok, err, fault, ◌>>=◌, undefined}
use dbcc.CType.{CType, Symbol}
use dbcc.Error.{identifier_not_found, identifier_is_typedef}
use dbcc.Expr.Binary.{expr_new_binary_operator}
use dbcc.Expr.Constants.{expr_new_enum_constant}
use dbcc.Expr.Operands.{typed}
use dbcc.Expr.Unary.{
  IdentifierType, unknown, enum_value, other_form, do_unary_operator_type_inference,
}
use dbcc.Expr.{Operand}
use dbcc.Namespace.{Namespace, NamespaceEntry, namespace_lookup}
use dbcc.Operator.{add, dereference}
use dbcc.Value.Floats.{FloatOps}

module _ (ops : FloatOps) (ns : Namespace) where
  -- For a global or local the kind of the identifier is not set.
  unfoldable pub do_symbol_type_inference : (ℕ → CType) → Symbol → Run (IdentifierType × Operand)
  do_symbol_type_inference type_at name = elim (namespace_lookup ns name) [
    | none ↦ err identifier_not_found
    | some (NamespaceEntry.typedef t) ↦ err identifier_is_typedef
    | some (NamespaceEntry.enum_value t e) ↦
        expr_new_enum_constant ops t e >>= λ operand. ok (enum_value, operand)
    | some (NamespaceEntry.global a) ↦ ok (unknown, typed (type_at a))
    | some (NamespaceEntry.local a) ↦ ok (unknown, typed (type_at a))
  ]

  -- The sum of two operands with types has a type.
  unfoldable pub expr_new_subscript : ℕ → Operand → Operand → Run Operand
  expr_new_subscript address object subscript = do
    sum ← expr_new_binary_operator ops ns add (some object) (some subscript)
    elim sum [
      | none ↦ fault undefined
      | some e ↦ do_unary_operator_type_inference ops ns address dereference e other_form
    ]
