-- ===== src/Expr/Call/Arguments.antt =====
-- The check of the arguments of a call in `dbcc_expr_new_call` (dbcc-expr.c).
use dbcc.Base.{
  ◌<◌, ◌≤◌, ◌≡◌, refl, arith, Bool, true, false, Option, none, some, List, [], ◌∷◌, map, length,
  ltb, Run, ok, err, ◌>>=◌, Bool-cases, inl, inr, ◌⊎◌,
}
use dbcc.CType.Query.{dequalify, is_pointer, pointer_dereference}
use dbcc.CType.{CType, TypeBase, Symbol, Params, no_params, param, function_type, pointer_type}
use dbcc.Error.{too_few_arguments, too_many_arguments, type_mismatch}
use dbcc.Expr.Call.{
  param_count, prototype, kr_prototype, called, check_arguments, check_prototype,
  do_call_type_inference, resolved, expr_new_call,
}
use dbcc.Expr.Operands.{pointed_at}

-- `a` is the type of the argument for a parameter of the type `t`.
pub data Argument : Params → List CType → CType → CType → Type 0 where
  here :
      {t a : CType} {name : Symbol} {ps : Params} {args : List CType}
      → Argument (param t name ps) (a ∷ args) t a
  there :
      {t u a b : CType} {name : Symbol} {ps : Params} {args : List CType}
      → Argument ps args t a
      → Argument (param u name ps) (b ∷ args) t a

abbrev pub Convertible : (CType → CType → Bool) → Params → List CType → Type 0
Convertible convertible ps args = (t a : CType) → Argument ps args t a → convertible t a ≡ true

abbrev pub Mismatch : (CType → CType → Bool) → Params → List CType → Type 0
Mismatch convertible ps args =
    (t : CType) × (a : CType) × Argument ps args t a × (convertible t a ≡ false)

no_argument : {args : List CType} (t a : CType) → Argument no_params args t a → ⊥
no_argument t a x = elim x [ ]

module _ (convertible : CType → CType → Bool) where
  convertible-cons :
      (t a : CType) (name : Symbol) (ps : Params) (args : List CType)
      → convertible t a ≡ true
      → Convertible convertible ps args
      → Convertible convertible (param t name ps) (a ∷ args)
  convertible-cons t a name ps args h all _ _ here = h
  convertible-cons t a name ps args h all u b (there later) = all u b later

  check_arguments_lem :
      (ps : Params) (args : List CType)
      → param_count ps ≤ length args
      → (Convertible convertible ps args × (check_arguments convertible ps args ≡ ok tt))
        ⊎ (Mismatch convertible ps args × (check_arguments convertible ps args ≡ err type_mismatch))
  unfolding check_arguments
  check_arguments_lem no_params args h = inl ((λ t a x. absurd (no_argument t a x)), refl)
  check_arguments_lem (param t name ps) [] h = absurd (omega (arith, h))
  check_arguments_lem (param t name ps) (a ∷ args) h = elim (Bool-cases (convertible t a)) [
    | inr e ↦ inr ((t, a, here, e), rw e refl)
    | inl e ↦ elim (check_arguments_lem ps args (omega (arith, h))) [
      | inl (all, run) ↦ inl (convertible-cons t a name ps args e all, rw e run)
      | inr ((u, b, later, e'), run) ↦ inr ((u, b, there later, e'), rw e run)
    ]
  ]

-- The head of the call is a function with a prototype, or a pointer to one.
pub data Calls (ps : Params) (varargs : Bool) : CType → Type 0 where
  direct : {b : TypeBase} {r : CType} → Calls ps varargs (function_type b r ps varargs)
  by_pointer :
      {c b : TypeBase} {r : CType}
      → Calls ps varargs (pointer_type c (function_type b r ps varargs))

called-Calls :
    (ps : Params) (varargs : Bool) (head : CType)
    → Calls ps varargs head
    → (called prototype head ≡ ok (some (ps, varargs))) × (called kr_prototype head ≡ ok none)
unfolding called is_pointer dequalify pointed_at pointer_dereference
called-Calls ps varargs _ direct = (refl, refl)
called-Calls ps varargs _ by_pointer = (refl, refl)

resolved-map : (args : List CType) → resolved (map some args) ≡ some args
resolved-map [] = refl
resolved-map (a ∷ args) = rw (resolved-map args) refl

abbrev pub CountFits : Params → Bool → List CType → Type 0
CountFits ps varargs args =
    (param_count ps ≡ length args) ⊎ ((param_count ps < length args) × (varargs ≡ true))

-- How a call ends, and when: the value type is not set.
pub data CallOutcome (convertible : CType → CType → Bool) (ps : Params) (varargs : Bool)
    (args : List CType) : Run (Option CType) → Type 0 where
  accepted :
      CountFits ps varargs args
      → Convertible convertible ps args
      → CallOutcome convertible ps varargs args (ok none)
  mismatch :
      CountFits ps varargs args
      → Mismatch convertible ps args
      → CallOutcome convertible ps varargs args (err type_mismatch)
  too_few :
      length args < param_count ps → CallOutcome convertible ps varargs args (err too_few_arguments)
  too_many :
      param_count ps < length args
      → varargs ≡ false
      → CallOutcome convertible ps varargs args (err too_many_arguments)

module _ (convertible : CType → CType → Bool) (ps : Params) where
  arguments_outcome :
      (varargs : Bool) (args : List CType)
      → CountFits ps varargs args
      → param_count ps ≤ length args
      → CallOutcome convertible ps varargs args
          (check_arguments convertible ps args >>= λ _. ok none)
  arguments_outcome varargs args fits h = elim (check_arguments_lem convertible ps args h) [
    | inl (all, run) ↦ rw run (accepted fits all)
    | inr (some_not, run) ↦ rw run (mismatch fits some_not)
  ]

  more_arguments :
      (varargs : Bool) (args : List CType)
      → ltb (length args) (param_count ps) ≡ false
      → ltb (param_count ps) (length args) ≡ true
      → CallOutcome convertible ps varargs args
          (check_prototype convertible ps varargs args >>= λ _. ok none)
  unfolding check_prototype
  more_arguments true args enough more =
      rw (enough, more) (arguments_outcome true args (inr (ground arith, refl)) (ground arith))
  more_arguments false args enough more = rw (enough, more) (too_many (ground arith) refl)

  check_prototype_lem :
      (varargs : Bool) (args : List CType)
      → CallOutcome convertible ps varargs args
          (check_prototype convertible ps varargs args >>= λ _. ok none)
  unfolding check_prototype
  check_prototype_lem varargs args = elim (Bool-cases (ltb (length args) (param_count ps))) [
    | inl few ↦ rw few (too_few (ground arith))
    | inr enough ↦ elim (Bool-cases (ltb (param_count ps) (length args))) [
      | inr same ↦
          rw (enough, same) (arguments_outcome varargs args (inl (ground arith)) (ground arith))
      | inl more ↦ more_arguments varargs args enough more
    ]
  ]

  -- Where the head is a function with a prototype or a pointer to one, and all arguments have
  -- types, `dbcc_expr_new_call` accepts the call exactly if the arguments are as many as the
  -- parameters, or more for variadic functions, and each converts to the type of its parameter;
  -- otherwise it reports too few arguments, too many, or a type mismatch. The value type of an
  -- accepted call is not set.
  pub expr_new_call_lem :
      (varargs : Bool) (head : CType) (args : List CType)
      → Calls ps varargs head
      → CallOutcome convertible ps varargs args
          (expr_new_call convertible (some head) (map some args))
  unfolding expr_new_call do_call_type_inference
  expr_new_call_lem varargs head args h =
      let (found, no_kr) = called-Calls ps varargs head h in
      rw (expr_new_call, resolved-map args, found, no_kr) (check_prototype_lem varargs args)
