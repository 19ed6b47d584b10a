-- ===== src/Statement.antt =====
-- dbcc-statement.c and dbcc-statement.h: statements, and the conditions that they accept.
-- A pointer that the code tests for NULL is an Option, or a `Nullable` where it points to a
-- statement. Code positions are left out.
pub mod Switch
pub mod Build
use dbcc.Base.{ℕ, Bool, true, false, not, Option, none, some, List, [], if◌then◌else◌, Run, ok, err}
use dbcc.CType.Query.{is_scalar}
use dbcc.CType.{CType, Symbol}
use dbcc.Constant.{Constant}
use dbcc.Error.{expr_not_condition}

-- What statements read of an expression. Before type inference it has no type.
pub record Expr : Type 0 where
  pub value_type : Option CType
  pub constant : Option Constant

mutual
  -- A `switch_statement` has the values of its `cases`: their `case_statement` is never written.
  pub data Statement : Type 0 where
    compound_statement : Statements → Bool → Statement
    for_statement : Nullable → Option Expr → Nullable → Nullable → Statement
    while_statement : Option Expr → Nullable → Statement
    do_while_statement : Nullable → Option Expr → Statement
    switch_statement : Statement → Option Expr → List ℕ → Statement
    if_statement : Expr → Statement → Nullable → Statement
    goto_statement : Symbol → Statement
    break_statement : Statement
    continue_statement : Statement
    return_statement : Option Expr → Statement
    label_statement : Symbol → Statement
    case_statement : Expr → Statement
    default_statement : Statement
    expr_statement : Expr → Statement
    declaration_statement : ℕ → CType → Symbol → Option Expr → Statement

  pub data Statements : Type 0 where
    done : Statements
    next : Statement → Statements → Statements

  pub data Nullable : Type 0 where
    null : Nullable
    ptr : Statement → Nullable

unfoldable pub has_scalar_type : Expr → Bool
has_scalar_type e = elim e.value_type [ none ↦ true | some t ↦ is_scalar t ]

-- The test of the loops: a condition that is there and has a type.
unfoldable pub is_condition : Option Expr → Bool
unfolding has_scalar_type
is_condition none = true
is_condition (some e) = has_scalar_type e

unfoldable pub statement_new_empty : Statement
statement_new_empty = compound_statement done false

unfoldable pub statement_new_compound : Statements → Bool → Statement
statement_new_compound statements defines_scope = compound_statement statements defines_scope

unfoldable pub statement_new_declaration : ℕ → CType → Symbol → Statement
statement_new_declaration storage_specs type name =
    declaration_statement storage_specs type name none

unfoldable pub statement_new_if : Expr → Statement → Nullable → Run Statement
unfolding has_scalar_type
statement_new_if expr body else_body =
    if has_scalar_type expr then ok (if_statement expr body else_body) else err expr_not_condition

unfoldable pub statement_new_for : Nullable → Option Expr → Nullable → Nullable → Run Statement
unfolding is_condition
statement_new_for init condition advance body =
    if is_condition condition
    then ok (for_statement init condition advance body)
    else err expr_not_condition

unfoldable pub statement_new_while : Option Expr → Nullable → Run Statement
unfolding is_condition
statement_new_while condition body =
    if is_condition condition then ok (while_statement condition body) else err expr_not_condition

unfoldable pub statement_new_do_while : Nullable → Option Expr → Run Statement
unfolding is_condition
statement_new_do_while body condition =
    if is_condition condition
    then ok (do_while_statement body condition)
    else err expr_not_condition
