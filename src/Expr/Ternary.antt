-- ===== src/Expr/Ternary.antt =====
-- `combine_ptr_and_npc`, `do_ternary_operator_type_inference` and `dbcc_expr_new_ternary`
-- (dbcc-expr.c) and `dbcc_types_make_composite` (dbcc-type.c), for operands whose types are inferred.
pub mod Folding
pub mod Structs
mod Tests
use Prim.Native.Nat.{bit_or}
use dbcc.Base.{
  ℕ, Bool, true, false, not, ◌&&◌, ◌||◌, ◌==◌, Option, none, some, if◌then◌else◌, Run, ok, err,
  fault, ◌>>=◌, assertion, undefined,
}
use dbcc.CType.Query.{
  dequalify, is_arithmetic, is_scalar, is_pointer, get_qualifiers, types_compatible,
}
use dbcc.CType.{CType, Metatype, metatype, address, array_type, pointer_type}
use dbcc.Constant.{
  Constant, value, constant_copy, constant_new_value0, typed_value_scalar_to_tristate,
}
use dbcc.Construct.{type_new_pointer, type_new_qualified}
use dbcc.Error.{nonscalar_values, type_mismatch}
use dbcc.Expr.Assignment.{Expression, operand, is_null_pointer_constant}
use dbcc.Expr.Cast.{is_void}
use dbcc.Expr.Conversion.{usual_arithment_conversion_get_type}
use dbcc.Expr.Operands.{typed, folded, pointed_at, written}
use dbcc.Expr.{Operand}
use dbcc.Namespace.{Namespace}
use dbcc.Operator.{TriState, no, yes, maybe}
use dbcc.Target.{TargetEnvironment}
use dbcc.Value.Access.{typed_value_alloc0}
use dbcc.Value.{Value}
use dbcc.Value.Cast.{cast_value}
use dbcc.Value.Floats.{FloatOps}

-- `address` is that of a new type.
unfoldable pub types_make_composite : ℕ → CType → CType → Run CType
types_make_composite address a b =
    if types_compatible a b
    then type_new_qualified address (dequalify a) (bit_or (get_qualifiers a) (get_qualifiers b))
    else fault assertion

-- `a_pointed_at`, of a type without qualifiers.
abbrev pub element_type : CType → Option CType
element_type (array_type _ _ t) = some t
element_type (pointer_type _ t) = some t
element_type _ = none

-- Whether both are structs or both unions.
abbrev pub both_structs : CType → CType → Bool
both_structs a b = elim (metatype a) [
  | Metatype.struct ↦ elim (metatype b) [ Metatype.struct ↦ true | _ ↦ false ]
  | Metatype.union ↦ elim (metatype b) [ Metatype.union ↦ true | _ ↦ false ]
  | _ ↦ false
]

unfoldable pub constant_condition : Operand → Run TriState
constant_condition cond = elim cond.constant [
  | none ↦ ok maybe
  | some c ↦ typed_value_scalar_to_tristate cond.value_type c
]

-- `const_cond ? aexpr : bexpr`, for a condition that is known.
abbrev pub chosen : TriState → Operand → Operand → Option Operand
chosen no a b = some b
chosen yes a b = some a
chosen maybe a b = none

-- A copy of the constant of a null pointer constant, if it has one.
unfoldable pub with_copy : CType → Operand → Run Operand
with_copy type e = elim e.constant [
  | none ↦ ok (typed type)
  | some c ↦
      constant_copy e.value_type c >>= λ d. ok (record { value_type = type; constant = some d })
]

-- The expression, or its type with the bytes that its constant points to where these are no
-- `DBCC_Constant` (any later use of the constant is undefined).
pub data Result : Type 0 where
  expression : Operand → Result
  over_bytes : CType → Value → Result

abbrev pub plain : Run Operand → Run Result
plain run = run >>= λ e. ok (expression e)

-- The addresses of three new types.
pub record Addresses : Type 0 where
  pub composite : ℕ
  pub pointer : ℕ
  pub qualified : ℕ

module _ (ops : FloatOps) (ns : Namespace) (at : Addresses) where
  unfoldable pub combine_ptr_and_npc : CType → Operand → Run CType
  combine_ptr_and_npc ptr null_ptr_constant = do
    let null_type : CType = null_ptr_constant.value_type
    target ← pointed_at ptr
    null_qual ←
        (if is_pointer null_type
          then (pointed_at null_type >>= λ t. ok (get_qualifiers t))
          else ok 0)
    let pqual : ℕ = get_qualifiers target
    let qualifiers : ℕ = bit_or null_qual pqual
    if qualifiers == pqual
        then ok (dequalify ptr)
        else (type_new_qualified at.qualified target qualifiers >>= λ qtype.
            ok (type_new_pointer ns.target_env at.pointer qtype))

  -- CASE1
  unfoldable pub arithmetic_branches : TriState → Operand → Operand → Run Operand
  arithmetic_branches c a b = do
    type ← usual_arithment_conversion_get_type ns a.value_type b.value_type
    elim (chosen c a b) [
      | none ↦ ok (typed type)
      | some v ↦ elim v.constant [
        | some (value x) ↦
            cast_value ops type v.value_type x >>= λ o. written o >>= λ y. ok (folded type y)
        | _ ↦ ok (typed type)
      ]
    ]

  -- The true value is a pointer, the false one a null pointer constant. For a true condition the
  -- zero bytes themselves are stored in place of a `DBCC_Constant`.
  unfoldable pub null_false_value : TriState → Operand → Operand → Run Result
  null_false_value c a b = do
    type ← combine_ptr_and_npc a.value_type b
    elim c [
      | no ↦ plain (with_copy type b)
      | yes ↦ ok (over_bytes type (typed_value_alloc0 type))
      | maybe ↦ ok (expression (typed type))
    ]

  unfoldable pub null_true_value : TriState → Operand → Operand → Run Operand
  null_true_value c a b = do
    type ← combine_ptr_and_npc b.value_type a
    elim c [
      | yes ↦ with_copy type a
      | no ↦ constant_new_value0 type >>= λ d. ok (record { value_type = type; constant = some d })
      | maybe ↦ ok (typed type)
    ]

  -- A pointer type itself, if it points at `composite`.
  abbrev pub reusable : CType → CType → Option CType
  reusable (pointer_type b t) composite =
      if address t == address composite then some (pointer_type b t) else none
  reusable _ composite = none

  unfoldable pub pointers_to : CType → CType → CType → CType → Run Operand
  pointers_to atype btype a_pointed_at b_pointed_at =
      if not (types_compatible a_pointed_at b_pointed_at) then err type_mismatch else (do
        composite ← types_make_composite at.composite a_pointed_at b_pointed_at
        let ptr_type : CType = elim (reusable atype composite) [
          | some t ↦ t
          | none ↦ elim (reusable btype composite) [
            | some t ↦ t
            | none ↦ type_new_pointer ns.target_env at.pointer composite
          ]
        ]
        let q : ℕ = bit_or (get_qualifiers atype) (get_qualifiers btype)
        qtype ← type_new_qualified at.qualified ptr_type q
        ok (typed qtype))

  -- CASE4
  unfoldable pub pointer_branches : TriState → Expression → Expression → Run Result
  pointer_branches c a b = do
    let atype : CType = (operand a).value_type
    let btype : CType = (operand b).value_type
    elim (element_type (dequalify atype)) [
      | none ↦ elim (element_type (dequalify btype)) [
        | none ↦ err type_mismatch
        | some u ↦ is_null_pointer_constant a >>= λ null_a.
            if null_a then plain (null_true_value c (operand a) (operand b)) else err type_mismatch
      ]
      | some t ↦ is_null_pointer_constant b >>= λ null_b.
          if null_b
          then null_false_value c (operand a) (operand b)
          else elim (element_type (dequalify btype)) [
            | none ↦ err type_mismatch
            | some u ↦ is_null_pointer_constant a >>= λ null_a.
                if null_a
                then plain (null_true_value c (operand a) (operand b))
                else plain ((pointers_to atype btype t u))
          ]
    ]

  -- For one struct the value type is set, and the tests of CASE4 follow.
  unfoldable pub do_ternary_operator_type_inference : Operand → Expression → Expression → Run Result
  do_ternary_operator_type_inference cond a b =
      if not (is_scalar cond.value_type) then err nonscalar_values else (do
        c ← constant_condition cond
        let atype : CType = (operand a).value_type
        let btype : CType = (operand b).value_type
        let adeq : CType = dequalify atype
        let bdeq : CType = dequalify btype
        if is_arithmetic atype && is_arithmetic btype
            then plain (arithmetic_branches c (operand a) (operand b))
            else if both_structs adeq bdeq && not (address adeq == address bdeq)
            then err type_mismatch
            else if is_void adeq && is_void bdeq
            then ok (expression (typed adeq))
            else pointer_branches c a b)

  unfoldable pub expr_new_ternary : Operand → Expression → Expression → Run Result
  expr_new_ternary cond a b =
      if not (is_scalar cond.value_type)
      then err nonscalar_values
      else do_ternary_operator_type_inference cond a b
