-- ===== src/Expr/Identifier/Enumerators.antt =====
-- Enumerators as identifiers (dbcc-expr.c), from the table of the namespace.
use dbcc.Base.{ℕ, ◌≡◌, refl, arith, not, some, ℤ, ok, ◌>>=◌, Returns, bind_inv}
use dbcc.CType.Query.{dequalify, is_unsigned}
use dbcc.CType.{CType, Symbol, EnumValue}
use dbcc.Constant.{value}
use dbcc.Expr.Constants.{expr_new_enum_constant}
use dbcc.Expr.Identifier.{do_symbol_type_inference}
use dbcc.Expr.Unary.{IdentifierType, enum_value}
use dbcc.Expr.{Operand}
use dbcc.Namespace.{Namespace, NamespaceEntry, namespace_lookup}
use dbcc.PtrTable.Laws.{HasRoom, set_value_lem}
use dbcc.PtrTable.Steps.{IsValid}
use dbcc.PtrTable.{set_value, lookup_value}
use dbcc.Value.Access.RoundTrip.{InRange, typed_value_get_int64-typed_value_set_int64}
use dbcc.Value.Access.{typed_value_get_int64, typed_value_set_int64}
use dbcc.Value.Floats.{FloatOps}
use dbcc.Value.Words.{Integral}
use dbcc.Value.{Value, convert}

-- An enumerator of the type `t` whose constant reads back as the 64-bit pattern of `z`.
abbrev pub IsEnumerator : FloatOps → CType → ℤ → IdentifierType × Operand → Type 0
IsEnumerator ops t z r =
    (r.0 ≡ enum_value)
    × (r.1.value_type ≡ t)
    × ((v : Value) × (r.1.constant ≡ some (value v))
        × (typed_value_get_int64 ops t v ≡ ok (convert 8 z)))

enum_constant_lem :
    (ops : FloatOps) (t : CType) (w : ℕ) (e : EnumValue)
    → Integral t w
    → InRange w (not (is_unsigned (dequalify t))) e.value
    → Returns
        (expr_new_enum_constant ops t e >>= λ operand. ok (enum_value, operand))
        (IsEnumerator ops t e.value)
unfolding expr_new_enum_constant
enum_constant_lem ops t w e integral range =
    let (v, stored, loaded) =
      bind_inv (typed_value_set_int64 ops t e.value) _ (convert 8 e.value)
        (typed_value_get_int64-typed_value_set_int64 ops t w e.value integral range) in
    (_, rw stored refl, (refl, refl, (v, refl, loaded)))

-- On a well-formed table of symbols that has allocated nothing yet or has a size left to grow to,
-- after an enumerator of an integer or enumeration type that holds its value is stored under a
-- name, `do_symbol_type_inference` of the name gives a constant of that type that reads back as the
-- value, in 64 bits.
pub do_symbol_type_inference-enum_value :
    (ops : FloatOps) (ns : Namespace) (type_at : ℕ → CType) (name : Symbol) (t : CType) (w : ℕ)
    (e : EnumValue)
    → IsValid ns.symbols
    → HasRoom ns.symbols
    → Integral t w
    → InRange w (not (is_unsigned (dequalify t))) e.value
    → Returns
        (set_value ns.symbols name (some (NamespaceEntry.enum_value t e)) >>= λ u.
          do_symbol_type_inference ops (record ns { symbols = u }) type_at name)
        (IsEnumerator ops t e.value)
unfolding do_symbol_type_inference namespace_lookup
do_symbol_type_inference-enum_value ops ns type_at name t w e valid room integral range =
    let (u, run, (_, reads)) =
      set_value_lem ns.symbols name (some (NamespaceEntry.enum_value t e)) valid room in
    let here : lookup_value u name ≡ some (NamespaceEntry.enum_value t e) =
      ground (arith, reads name) in
    let (r, run', h) = enum_constant_lem ops t w e integral range in
    (r, rw (run, do_symbol_type_inference, here) run', h)
