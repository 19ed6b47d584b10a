-- ===== src/Expr/Call/Tests.antt =====
-- The theorem about calls (dbcc-expr.c) at a concrete call, and calls with other outcomes.
use dbcc.Base.{◌≡◌, refl, true, some, [], ◌∷◌, err, fault, undefined}
use dbcc.CType.Query.{is_pointer, dequalify, types_compatible}
use dbcc.CType.{CType, Params, no_params, param, function_type, kr_function_type, pointer_type}
use dbcc.Error.{not_a_function, too_few_arguments}
use dbcc.Expr.Call.Arguments.{CallOutcome, by_pointer, expr_new_call_lem}
use dbcc.Expr.Call.{called, check_prototype, do_call_type_inference, expr_new_call}
use dbcc.Sample.{base_of, int, long}

-- `int f (long, int, ...)`
abbrev params : Params
params = param long 11 (param int 12 no_params)

abbrev variadic : CType
variadic = function_type (base_of 6000 1) int params true

abbrev kr : CType
kr = kr_function_type (base_of 6100 1) int (11 ∷ [])

expr_new_call_lem_example : CallOutcome types_compatible params true (long ∷ int ∷ int ∷ []) (
    expr_new_call types_compatible
      (some (pointer_type (base_of 6200 8) variadic))
      (some long ∷ some int ∷ some int ∷ []))
expr_new_call_lem_example =
    expr_new_call_lem types_compatible params true (pointer_type (base_of 6200 8) variadic)
      (long ∷ int ∷ int ∷ []) by_pointer

call_few : expr_new_call types_compatible (some variadic) (some long ∷ []) ≡ err too_few_arguments
unfolding expr_new_call do_call_type_inference check_prototype called is_pointer dequalify
call_few = refl

call_kr : expr_new_call types_compatible (some kr) (some int ∷ []) ≡ fault undefined
unfolding expr_new_call do_call_type_inference called is_pointer dequalify
call_kr = refl

call_int : expr_new_call types_compatible (some int) [] ≡ err not_a_function
unfolding expr_new_call do_call_type_inference called is_pointer dequalify
call_int = refl
