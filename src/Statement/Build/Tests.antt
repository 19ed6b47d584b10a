-- ===== src/Statement/Build/Tests.antt =====
-- The theorem about what the functions of dbcc-statement.c build, at a concrete statement.
use dbcc.Base.{◌≡◌, refl, true, none, some, [], ◌∷◌, ok}
use dbcc.Sample.{int, no_floats}
use dbcc.Statement.Build.{Built, simple, new_compound, new_if, new_switch, nothing, more, absent}
use dbcc.Statement.Build.Valid.{IsValid, statement-IsValid}
use dbcc.Statement.Switch.Spine.{insert_spine, spine}
use dbcc.Statement.Switch.{
  case_value, insert_case, process, has_integer_type, case_table, update_switch_cases_recursive,
  put_case, value_cases_count, statement_new_switch,
}
use dbcc.Statement.{
  Expr, Statement, compound_statement, switch_statement, case_statement, break_statement,
  if_statement, done, next, null, has_scalar_type, statement_new_compound, statement_new_if,
}
use dbcc.CType.Query.{is_integer, is_scalar}
use dbcc.Constant.{value}
use dbcc.Value.Access.{typed_value_get_int64}

abbrev selector : Expr
selector = record { value_type = some int; constant = none }

abbrev seven : Expr
seven = record { value_type = some int; constant = some (value (7 ∷ 0 ∷ 0 ∷ 0 ∷ [])) }

-- `{ case 7: break; }`
abbrev block : Statement
block = compound_statement (next (case_statement seven) (next break_statement done)) true

block-Built : Built no_floats insert_spine block
unfolding statement_new_compound
block-Built =
    new_compound block _ true
      (more (case_statement seven) _ (simple (case_statement seven) refl)
        (more break_statement _ (simple break_statement refl) nothing))
      refl

-- `switch (x) { case 7: break; }`
abbrev switched : Statement
switched = switch_statement block (some selector) (7 ∷ [])

switch_built : statement_new_switch no_floats insert_spine (some selector) block ≡ ok switched
unfolding statement_new_switch has_integer_type is_integer process insert_case case_value
    typed_value_get_int64 insert_spine case_table update_switch_cases_recursive put_case
    value_cases_count
switch_built = refl

-- `if (x) switch (x) { case 7: break; }`
abbrev conditional : Statement
conditional = if_statement selector switched null

conditional-Built : Built no_floats insert_spine conditional
unfolding statement_new_if has_scalar_type is_scalar
conditional-Built =
    new_if conditional selector switched null
      (new_switch switched (some selector) block block-Built switch_built) absent refl

statement-IsValid_example : IsValid no_floats conditional
statement-IsValid_example =
    statement-IsValid no_floats insert_spine spine conditional conditional-Built
