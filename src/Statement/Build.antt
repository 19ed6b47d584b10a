-- ===== src/Statement/Build.antt =====
-- The statements that the functions of dbcc-statement.c build: their conditions and labels.
mod Tests
pub mod Valid
use mathlib.Core.Path.{subst}
use dbcc.Base.{
  ℕ, ◌≡◌, refl, sym, ◌∙◌, Bool, true, false, Option, List, [], if◌then◌else◌, Run, ok, err, fault,
  ◌>>=◌, Bool-cases, inl, inr, arith, bind_inv,
}
use dbcc.Error.{ErrorCode, expr_not_condition}
use dbcc.Statement.Switch.Cases.{labels, distinct_values}
use dbcc.Statement.Switch.Collecting.{Collects, process-Collects}
use dbcc.Statement.Switch.Tree.{values, RbtreeInsert}
use dbcc.Statement.Switch.{
  ValueCasePair, leaf, Insert, process, has_integer_type, case_table, statement_new_switch,
}
use dbcc.Statement.{
  Expr, Statement, Statements, Nullable, compound_statement, for_statement, while_statement,
  do_while_statement, switch_statement, if_statement, goto_statement, break_statement,
  continue_statement, return_statement, label_statement, case_statement, default_statement,
  expr_statement, declaration_statement, done, next, null, ptr, has_scalar_type, is_condition,
  statement_new_empty, statement_new_compound, statement_new_declaration, statement_new_if,
  statement_new_for, statement_new_while, statement_new_do_while,
}
use dbcc.Value.Floats.{FloatOps}

abbrev pub is_simple : Statement → Bool
is_simple (goto_statement label) = true
is_simple break_statement = true
is_simple continue_statement = true
is_simple (return_statement e) = true
is_simple (label_statement name) = true
is_simple (case_statement e) = true
is_simple default_statement = true
is_simple (expr_statement e) = true
is_simple (declaration_statement storage type name opt_value) = true
is_simple _ = false

module _ (ops : FloatOps) (insert : Insert) where
  -- What calls of the functions build, from statements that such calls built.
  mutual
    pub data Built : Statement → Type 0 where
      simple : (s : Statement) → is_simple s ≡ true → Built s
      new_empty : (s : Statement) → statement_new_empty ≡ s → Built s
      new_compound :
          (s : Statement) (ss : Statements) (defines_scope : Bool)
          → BuiltAll ss
          → statement_new_compound ss defines_scope ≡ s
          → Built s
      new_if :
          (s : Statement) (e : Expr) (body : Statement) (else_body : Nullable)
          → Built body
          → BuiltNullable else_body
          → statement_new_if e body else_body ≡ ok s
          → Built s
      new_for :
          (s : Statement) (init : Nullable) (e : Option Expr) (advance body : Nullable)
          → BuiltNullable init
          → BuiltNullable advance
          → BuiltNullable body
          → statement_new_for init e advance body ≡ ok s
          → Built s
      new_while :
          (s : Statement) (e : Option Expr) (body : Nullable)
          → BuiltNullable body
          → statement_new_while e body ≡ ok s
          → Built s
      new_do_while :
          (s : Statement) (body : Nullable) (e : Option Expr)
          → BuiltNullable body
          → statement_new_do_while body e ≡ ok s
          → Built s
      new_switch :
          (s : Statement) (e : Option Expr) (body : Statement)
          → Built body
          → statement_new_switch ops insert e body ≡ ok s
          → Built s

    pub data BuiltAll : Statements → Type 0 where
      nothing : BuiltAll done
      more : (s : Statement) (ss : Statements) → Built s → BuiltAll ss → BuiltAll (next s ss)

    pub data BuiltNullable : Nullable → Type 0 where
      absent : BuiltNullable null
      present : (s : Statement) → Built s → BuiltNullable (ptr s)
