-- ===== src/Expr/Call.antt =====
-- `do_call_type_inference` and `dbcc_expr_new_call` (dbcc-expr.c).
-- `dbcc_type_implicitly_convertable` is declared in dbcc-type.c and defined nowhere: it is the
-- parameter `convertible`.
pub mod Arguments
mod Tests
use dbcc.Base.{
  ℕ, suc, Bool, true, false, not, ◌&&◌, Option, none, some, List, [], ◌∷◌, length, ltb,
  if◌then◌else◌, Run, ok, err, fault, ◌>>=◌, out_of_bounds, undefined,
}
use dbcc.CType.Query.{is_pointer}
use dbcc.CType.{CType, Symbol, Params, no_params, param, function_type, kr_function_type}
use dbcc.Error.{too_few_arguments, too_many_arguments, not_a_function, type_mismatch}
use dbcc.Expr.Operands.{pointed_at}

-- `n_params`
abbrev pub param_count : Params → ℕ
param_count no_params = 0
param_count (param t name ps) = suc (param_count ps)

-- The parameters of a function with a prototype, and whether more arguments are allowed.
abbrev pub prototype : CType → Option (Params × Bool)
prototype (function_type _ _ ps varargs) = some (ps, varargs)
prototype _ = none

abbrev pub kr_prototype : CType → Option (List Symbol)
kr_prototype (kr_function_type _ _ names) = some names
kr_prototype _ = none

-- The type of the head or what that points at, where `get` knows it.
unfoldable pub called : {A : Type 0} → (CType → Option A) → CType → Run (Option A)
called get t = elim (get t) [
  | some a ↦ ok (some a)
  | none ↦ if is_pointer t then (pointed_at t >>= λ u. ok (get u)) else ok none
]

-- The types of all arguments, if each has one.
abbrev pub resolved : List (Option CType) → Option (List CType)
resolved [] = some []
resolved (none ∷ types) = none
resolved (some t ∷ types) = elim (resolved types) [ none ↦ none | some ts ↦ some (t ∷ ts) ]

module _ (convertible : CType → CType → Bool) where
  -- The loop over the parameters.
  unfoldable pub check_arguments : Params → List CType → Run (Unit {0})
  check_arguments no_params args = ok tt
  check_arguments (param t name ps) [] = fault out_of_bounds
  check_arguments (param t name ps) (a ∷ args) =
      let rest = check_arguments ps args in if convertible t a then rest else err type_mismatch

  unfoldable pub check_prototype : Params → Bool → List CType → Run (Unit {0})
  check_prototype ps varargs args =
      if ltb (length args) (param_count ps)
      then err too_few_arguments
      else if ltb (param_count ps) (length args) && not varargs
      then err too_many_arguments
      else check_arguments ps args

  -- For a function without a prototype the parameters are read through `fct`, which is NULL.
  unfoldable pub do_call_type_inference : CType → List CType → Run (Unit {0})
  do_call_type_inference head_type args = do
    fct ← called prototype head_type
    kr_fct ← called kr_prototype head_type
    elim fct [
      | some p ↦ check_prototype p.0 p.1 args
      | none ↦ elim kr_fct [ some names ↦ fault undefined | none ↦ err not_a_function ]
    ]

  -- The value type of the new expression, which stays NULL.
  unfoldable pub expr_new_call : Option CType → List (Option CType) → Run (Option CType)
  expr_new_call none args = ok none
  expr_new_call (some head_type) args = elim (resolved args) [
    | none ↦ ok none
    | some types ↦ do_call_type_inference head_type types >>= λ _. ok none
  ]
