-- ===== src/Statement/Build/Valid.antt =====
-- What holds of each statement that the functions of dbcc-statement.c build.
use mathlib.Core.Path.{subst}
use dbcc.Base.{
  ℕ, ◌≡◌, refl, Bool, true, false, Option, List, [], if◌then◌else◌, Run, ok, err, fault, ◌>>=◌,
  Bool-cases, inl, inr, arith, bind_inv,
}
use dbcc.Error.{ErrorCode, expr_not_condition}
use dbcc.Statement.Switch.Cases.{labels, distinct_values}
use dbcc.Statement.Switch.Collecting.{Collects, process-Collects}
use dbcc.Statement.Switch.Tree.{values, RbtreeInsert}
use dbcc.Statement.Switch.{
  ValueCasePair, leaf, Insert, process, has_integer_type, case_table, statement_new_switch,
}
use dbcc.Statement.{
  Expr, Statement, Statements, Nullable, compound_statement, for_statement, while_statement,
  do_while_statement, switch_statement, if_statement, goto_statement, break_statement,
  continue_statement, return_statement, label_statement, case_statement, default_statement,
  expr_statement, declaration_statement, done, next, null, ptr, has_scalar_type, is_condition,
  statement_new_empty, statement_new_compound, statement_new_if, statement_new_for,
  statement_new_while, statement_new_do_while,
}
use dbcc.Value.Floats.{FloatOps}
use dbcc.Statement.Build.{
  Built, BuiltAll, BuiltNullable, is_simple, simple, new_empty, new_compound, new_if, new_for,
  new_while, new_do_while, new_switch, nothing, more, absent, present,
}

-- At every depth: a condition of a known type is scalar, or an integer at a switch, and the labels
-- of a switch are constants of distinct values.
abbrev mutual
  pub IsValid : FloatOps → Statement → Type 0
  IsValid ops (compound_statement ss defines_scope) = AllValid ops ss
  IsValid ops (for_statement init e advance body) =
      (is_condition e ≡ true)
      × NullableValid ops init
      × NullableValid ops advance
      × NullableValid ops body
  IsValid ops (while_statement e body) = (is_condition e ≡ true) × NullableValid ops body
  IsValid ops (do_while_statement body e) = (is_condition e ≡ true) × NullableValid ops body
  IsValid ops (switch_statement body e cases) =
      (has_integer_type e ≡ true)
      × ((vs : List ℕ) × (distinct_values ops [] (labels body) ≡ ok vs))
      × IsValid ops body
  IsValid ops (if_statement e body else_body) =
      (has_scalar_type e ≡ true) × IsValid ops body × NullableValid ops else_body
  IsValid ops (goto_statement label) = Unit
  IsValid ops break_statement = Unit
  IsValid ops continue_statement = Unit
  IsValid ops (return_statement e) = Unit
  IsValid ops (label_statement name) = Unit
  IsValid ops (case_statement e) = Unit
  IsValid ops default_statement = Unit
  IsValid ops (expr_statement e) = Unit
  IsValid ops (declaration_statement storage type name opt_value) = Unit

  pub AllValid : FloatOps → Statements → Type 0
  AllValid ops done = Unit
  AllValid ops (next s ss) = IsValid ops s × AllValid ops ss

  pub NullableValid : FloatOps → Nullable → Type 0
  NullableValid ops null = Unit
  NullableValid ops (ptr s) = IsValid ops s

simple_lem : (ops : FloatOps) (s : Statement) → is_simple s ≡ true → IsValid ops s
simple_lem ops (goto_statement label) h = tt
simple_lem ops break_statement h = tt
simple_lem ops continue_statement h = tt
simple_lem ops (return_statement e) h = tt
simple_lem ops (label_statement name) h = tt
simple_lem ops (case_statement e) h = tt
simple_lem ops default_statement h = tt
simple_lem ops (expr_statement e) h = tt
simple_lem ops (declaration_statement storage type name opt_value) h = tt
simple_lem ops (compound_statement ss d) h = absurd (cc)
simple_lem ops (for_statement i c a b) h = absurd (cc)
simple_lem ops (while_statement c b) h = absurd (cc)
simple_lem ops (do_while_statement b c) h = absurd (cc)
simple_lem ops (switch_statement b e cs) h = absurd (cc)
simple_lem ops (if_statement e b c) h = absurd (cc)

test_inv {ℓ} :
    {A : Type ℓ} (test : Bool) (a b : A) (code : ErrorCode)
    → (if test then ok a else err code) ≡ ok b
    → (test ≡ true) × (a ≡ b)
test_inv true a b code h = (refl, cc)
test_inv false a b code h = absurd (cc)

module _ (ops : FloatOps) (insert : Insert) (laws : RbtreeInsert insert) where
  collected :
      (r : Run ValueCasePair) (l : Run (List ℕ)) (k : ValueCasePair → Run Statement) (s : Statement)
      → Collects ops insert laws r l
      → (r >>= k) ≡ ok s
      → (t : ValueCasePair) × (l ≡ ok (values t)) × (k t ≡ ok s)
  collected (ok t) l k s h e = (t, h.1, e)
  collected (err code) l k s h e = absurd (cc)
  collected (fault kind) l k s h e = absurd (cc)

  switch_lem :
      (s : Statement) (e : Option Expr) (body : Statement)
      → IsValid ops body
      → statement_new_switch ops insert e body ≡ ok s
      → IsValid ops s
  unfolding statement_new_switch
  switch_lem s e body valid h = elim (Bool-cases (has_integer_type e)) [
    | inr f ↦ absurd (ground (arith, h, f))
    | inl f ↦
        let (t, found, tabled) =
          collected (process ops insert leaf body) (distinct_values ops [] (labels body)) _ s
            (process-Collects ops insert laws body) (rw f at h) in
        let (cases, run, built) = bind_inv (case_table t) _ s tabled in
        let same : switch_statement body e cases ≡ s = cc (built) in
        subst (IsValid ops) same (f, (values t, found), valid)
  ]

  mutual
    unfolding statement_new_if statement_new_for statement_new_while statement_new_do_while
        statement_new_empty statement_new_compound

    built_lem : (s : Statement) → Built ops insert s → IsValid ops s
    built_lem _ (simple s h) = simple_lem ops s h
    built_lem _ (new_empty s h) = subst (IsValid ops) h (tt)
    built_lem _ (new_compound s ss d b h) = subst (IsValid ops) h (all_lem ss b)
    built_lem _ (new_if s e body else_body b c h) =
        let (test, same) =
          test_inv (has_scalar_type e) (if_statement e body else_body) s expr_not_condition h in
        subst (IsValid ops) same (test, built_lem body b, nullable_lem else_body c)
    built_lem _ (new_for s init e advance body a b c h) =
        let (test, same) =
          test_inv (is_condition e) (for_statement init e advance body) s expr_not_condition h in
        subst (IsValid ops) same
          (test, nullable_lem init a, nullable_lem advance b, nullable_lem body c)
    built_lem _ (new_while s e body b h) =
        let (test, same) =
          test_inv (is_condition e) (while_statement e body) s expr_not_condition h in
        subst (IsValid ops) same (test, nullable_lem body b)
    built_lem _ (new_do_while s body e b h) =
        let (test, same) =
          test_inv (is_condition e) (do_while_statement body e) s expr_not_condition h in
        subst (IsValid ops) same (test, nullable_lem body b)
    built_lem _ (new_switch s e body b h) = switch_lem s e body (built_lem body b) h

    all_lem : (ss : Statements) → BuiltAll ops insert ss → AllValid ops ss
    all_lem _ nothing = tt
    all_lem _ (more s ss b bs) = (built_lem s b, all_lem ss bs)

    nullable_lem : (s : Nullable) → BuiltNullable ops insert s → NullableValid ops s
    nullable_lem _ absent = tt
    nullable_lem _ (present s b) = built_lem s b

-- If `DSK_RBTREE_INSERT` does what is documented, then at every depth of a statement that the
-- functions of dbcc-statement.c built, a condition of `if`, `for`, `while` or `do` whose type is
-- known is scalar, the expression of a switch whose type is known has an integer type, and the
-- labels of a switch are constants of distinct values.
pub statement-IsValid :
    (ops : FloatOps) (insert : Insert) (laws : RbtreeInsert insert) (s : Statement)
    → Built ops insert s
    → IsValid ops s
statement-IsValid ops insert laws s b = built_lem ops insert laws s b
