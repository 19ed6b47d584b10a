-- ===== src/Expr/Ternary/Tests.antt =====
-- The theorems about the conditional operator (dbcc-expr.c) at concrete operands, and its other cases.
use dbcc.Base.{◌≡◌, refl, true, false, [], ◌∷◌, ok, err, Returns, max}
use dbcc.CType.Query.{
  dequalify, is_scalar, is_arithmetic, is_pointer, is_floating_point, get_qualifiers,
  types_compatible,
}
use dbcc.CType.{CType, TypeBase, struct_type, pointer_type, qualified_type, no_members}
use dbcc.Construct.{type_new_qualified, type_new_pointer}
use dbcc.Error.{type_mismatch}
use dbcc.Expr.Assignment.{constant_expr, other_expr, is_null_pointer_constant}
use dbcc.Expr.Conversion.Integers.{common_signed}
use dbcc.Expr.Operands.{typed, folded, pointed_at}
use dbcc.Expr.Ternary.Folding.{IsFolded, expr_new_ternary-IsInt}
use dbcc.Expr.Ternary.Structs.{expr_new_ternary-struct}
use dbcc.Expr.{Operand}
use dbcc.Constant.{typed_value_scalar_to_tristate}
use dbcc.Value.Access.{typed_value_alloc0}
use dbcc.Expr.Ternary.{
  expression, over_bytes, Addresses, constant_condition, expr_new_ternary,
  do_ternary_operator_type_inference, pointer_branches, null_false_value, combine_ptr_and_npc,
  pointers_to, types_make_composite,
}
use dbcc.Namespace.Builtins.{HasBuiltins}
use dbcc.Namespace.{namespace_new_global}
use dbcc.Operator.{maybe}
use dbcc.Sample.{
  base_of, ns, env, name_at, address_at, int, uint, no_floats, six, six-IsValue, minus_seven,
  seven-IsValue, two, two-IsValue,
}
use dbcc.Value.Cast.{shape}
use dbcc.Value.Integer.Products.{read}
use dbcc.Value.{word, store}

ns-HasBuiltins : HasBuiltins ns
unfolding namespace_new_global
ns-HasBuiltins = (name_at, address_at, refl)

abbrev fresh : Addresses
fresh = record { composite = 7000; pointer = 7100; qualified = 7200 }

-- `2 ? -7 : 6u`
expr_new_ternary-IsInt_example :
    Returns
      (expr_new_ternary no_floats ns fresh
        (folded int two)
        (constant_expr (folded int minus_seven))
        (constant_expr (folded uint six)))
      (λ result.
        (e : Operand) × (result ≡ expression e)
        × IsFolded
            (max 4 4)
            (common_signed true 4 false 4)
            (store (max 4 4) (read 4 true (word minus_seven)))
            e)
unfolding dequalify shape word
expr_new_ternary-IsInt_example =
    expr_new_ternary-IsInt no_floats ns fresh int uint 4 4 true false minus_seven six int two refl
      two-IsValue ns-HasBuiltins refl refl (refl, refl, refl) (refl, refl, refl) seven-IsValue
      six-IsValue

abbrev pair : CType
pair = struct_type (base_of 1 16) 0 no_members [] false

expr_new_ternary-struct_example :
    expr_new_ternary no_floats ns fresh
      (typed int)
      (other_expr (typed pair))
      (other_expr (typed (qualified_type (base_of 3 16) pair 1)))
    ≡ err type_mismatch
unfolding is_scalar dequalify constant_condition
expr_new_ternary-struct_example =
    expr_new_ternary-struct no_floats ns fresh (typed int) (other_expr (typed pair))
      (other_expr (typed (qualified_type (base_of 3 16) pair 1))) maybe refl refl refl refl

abbrev const_int : CType
const_int = qualified_type (base_of 4 4) int 1

abbrev to : CType → CType
to t = pointer_type (base_of 5 8) t

abbrev unaligned : TypeBase
unaligned = record { address = 7000; name = 0; sizeof_instance = 4; alignof_instance = 0 }

-- `c ? p : q` for a pointer to `int` and one to `const int`: to `const int`.
ternary_pointers :
    expr_new_ternary no_floats ns fresh
      (typed int)
      (other_expr (typed (to int)))
      (other_expr (typed (to const_int)))
    ≡ ok (expression (typed (type_new_pointer env 7100 (qualified_type unaligned int 1))))
unfolding expr_new_ternary is_scalar do_ternary_operator_type_inference constant_condition
    is_arithmetic pointer_branches is_null_pointer_constant pointers_to types_compatible
    types_make_composite type_new_qualified get_qualifiers namespace_new_global type_new_pointer
ternary_pointers = refl

-- `c ? p : 0`
ternary_null :
    expr_new_ternary no_floats ns fresh
      (typed int)
      (other_expr (typed (to int)))
      (constant_expr (folded int (0 ∷ 0 ∷ 0 ∷ 0 ∷ [])))
    ≡ ok (expression (typed (to int)))
unfolding expr_new_ternary is_scalar do_ternary_operator_type_inference constant_condition
    is_arithmetic pointer_branches is_null_pointer_constant is_floating_point null_false_value
    combine_ptr_and_npc pointed_at is_pointer get_qualifiers
ternary_null = refl

-- `2 ? p : 0`
ternary_bytes :
    expr_new_ternary no_floats ns fresh
      (folded int two)
      (other_expr (typed (to int)))
      (constant_expr (folded int (0 ∷ 0 ∷ 0 ∷ 0 ∷ [])))
    ≡ ok (over_bytes (to int) (0 ∷ 0 ∷ 0 ∷ 0 ∷ 0 ∷ 0 ∷ 0 ∷ 0 ∷ []))
unfolding expr_new_ternary is_scalar do_ternary_operator_type_inference constant_condition
    is_arithmetic pointer_branches is_null_pointer_constant is_floating_point null_false_value
    combine_ptr_and_npc pointed_at is_pointer get_qualifiers typed_value_scalar_to_tristate
    typed_value_alloc0
ternary_bytes = refl
