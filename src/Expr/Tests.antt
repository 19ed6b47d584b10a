-- ===== src/Expr/Tests.antt =====
-- Runs of the handlers of dbcc-expr.c, and the theorems about them and about the built-in types
-- (dbcc-namespace.c) at concrete operands.
use dbcc.Base.{
  ◌+◌, ◌*◌, ◌%◌, ◌^◌, ◌≡◌, refl, true, false, none, some, [], ◌∷◌, max, ok, ◌>>=◌, Returns, ◌*ℤ◌,
}
use dbcc.CType.Query.{dequalify}
use dbcc.CType.{CType, pointer_type}
use dbcc.Constant.{value}
use dbcc.Expr.Binary.Folding.{integer_constant, handle_add_lem, handle_divide_product}
use dbcc.Expr.Binary.Unconditional.{handle_subtract-pointers}
use dbcc.Expr.Arithmetic.{handle_add, handle_divide, handle_subtract}
use dbcc.Expr.Binary.{expr_new_binary_operator}
use dbcc.Expr.Operands.{typed}
use dbcc.Expr.Conversion.Integers.{common_signed, usual_arithment_conversion_get_type-IsInt}
use dbcc.Expr.Conversion.{usual_arithment_conversion_get_type}
use dbcc.Namespace.Builtins.{HasBuiltins, IsIntegerType}
use dbcc.Namespace.{namespace_new_global}
use dbcc.Operator.{div}
use dbcc.Sample.{
  ns, name_at, address_at, base_of, char, int, long, uint, no_floats, six, two, minus_seven,
  six-IsValue, two-IsValue, seven-IsValue,
}
use dbcc.Value.Cast.Conversion.{IsInt}
use dbcc.Value.Cast.{shape}
use dbcc.Value.Integer.Products.{read, overflow}
use dbcc.Value.{word, bytes, convert}

ns-HasBuiltins : HasBuiltins ns
unfolding namespace_new_global
ns-HasBuiltins = (name_at, address_at, refl)

-- 6 / 2 is folded to 12.
six_by_two :
    (expr_new_binary_operator no_floats ns div
        (some (integer_constant int six))
        (some (integer_constant int two))
      >>= λ e. ok (elim e [ none ↦ none | some e ↦ e.constant ]))
    ≡ ok (some (value (12 ∷ 0 ∷ 0 ∷ 0 ∷ [])))
unfolding expr_new_binary_operator namespace_new_global ◌*ℤ◌
six_by_two = refl

usual_arithment_conversion_get_type-IsInt_example :
    Returns
      (usual_arithment_conversion_get_type ns uint long)
      (IsIntegerType (common_signed false 4 true 8) (max 4 8))
unfolding dequalify shape
usual_arithment_conversion_get_type-IsInt_example =
    usual_arithment_conversion_get_type-IsInt ns uint long 4 8 false true ns-HasBuiltins refl refl
      (refl, refl, refl) (refl, refl, refl)

handle_add_lem_example :
    Returns
      (handle_add no_floats ns (integer_constant int minus_seven) (integer_constant uint six))
      (λ e.
        IsInt e.value_type (max 4 4) (common_signed true 4 false 4)
        × (e.constant
            ≡ some (
                value (
                  bytes (max 4 4) (
                    (convert (max 4 4) (read 4 true (word minus_seven))
                      + convert (max 4 4) (read 4 false (word six)))
                    % 256 ^ max 4 4)))))
unfolding dequalify shape
handle_add_lem_example =
    handle_add_lem no_floats ns int uint 4 4 true false minus_seven six ns-HasBuiltins
      (refl, refl, refl) (refl, refl, refl) seven-IsValue six-IsValue

handle_divide_product_example :
    Returns
      (handle_divide no_floats ns (integer_constant uint six) (integer_constant uint two))
      (λ e.
        IsInt e.value_type (max 4 4) (common_signed false 4 false 4)
        × (e.constant
            ≡ some (
                value (
                  bytes (max 4 4) (
                    convert (max 4 4) (read 4 false (word six))
                    * convert (max 4 4) (read 4 false (word two))
                    % 256 ^ max 4 4)))))
unfolding dequalify shape overflow
handle_divide_product_example =
    handle_divide_product no_floats ns uint uint 4 4 false false six two ns-HasBuiltins
      (refl, refl, refl) (refl, refl, refl) six-IsValue two-IsValue refl

abbrev to_int : CType
to_int = pointer_type (base_of 900 8) int

abbrev to_char : CType
to_char = pointer_type (base_of 1000 8) char

handle_subtract-pointers_example :
    Returns
      (handle_subtract no_floats ns (typed to_int) (typed to_char))
      λ r. IsIntegerType true 8 r.value_type × (r.constant ≡ none)
unfolding dequalify namespace_new_global
handle_subtract-pointers_example =
    handle_subtract-pointers no_floats ns (typed to_int) (typed to_char) (base_of 900 8)
      (base_of 1000 8) int char ns-HasBuiltins refl refl refl
