-- ===== src/Statement/Switch/Tests.antt =====
-- Runs of `dbcc_statement_new_switch` (dbcc-statement.c), and the theorems about it at concrete
-- statements.
use dbcc.Base.{
  ℕ, ◌≡◌, refl, true, false, none, some, [], ◌∷◌, length, ◌≤◌, ◌↔◌, ok, fault, out_of_bounds,
  assertion,
}
use dbcc.CType.Query.{is_integer}
use dbcc.Constant.{value}
use dbcc.Sample.{int, no_floats}
use dbcc.Statement.Switch.Cases.{labels, distinct_values, add_label}
use dbcc.Statement.Switch.Collecting.{Collects, process-Collects}
use dbcc.Statement.Switch.Spine.{insert_spine, spine}
use dbcc.Statement.Switch.Table.{statement_new_switch_lem}
use dbcc.Statement.Switch.{
  leaf, node, case_value, insert_case, process, has_integer_type, case_table,
  update_switch_cases_recursive, put_case, value_cases_count, statement_new_switch,
}
use dbcc.Statement.{
  Expr, Statement, compound_statement, switch_statement, case_statement, break_statement,
  while_statement, done, next, ptr,
}
use dbcc.Value.Access.{typed_value_get_int64}

abbrev pub literal : ℕ → Expr
literal b = record { value_type = some int; constant = some (value (b ∷ 0 ∷ 0 ∷ 0 ∷ [])) }

abbrev selector : Expr
selector = record { value_type = some int; constant = none }

-- `{ case 7: break; while (..) case 3: }`
abbrev two_labels : Statement
two_labels =
    compound_statement
      (next (case_statement (literal 7)) (
        next break_statement (next (while_statement none (ptr (case_statement (literal 3)))) done)))
      true

abbrev pub one_label : Statement
one_label = compound_statement (next (case_statement (literal 7)) (next break_statement done)) true

labels_found : distinct_values no_floats [] (labels two_labels) ≡ ok (3 ∷ 7 ∷ [])
unfolding distinct_values add_label labels case_value typed_value_get_int64
labels_found = refl

pub one_found : distinct_values no_floats [] (labels one_label) ≡ ok (7 ∷ [])
unfolding distinct_values add_label labels case_value typed_value_get_int64
one_found = refl

-- Two cases whose tree leans to the right: one value is written, and the final assertion fails.
two_cases : statement_new_switch no_floats insert_spine (some selector) two_labels ≡ fault assertion
unfolding statement_new_switch has_integer_type is_integer process insert_case case_value
    typed_value_get_int64 insert_spine case_table update_switch_cases_recursive put_case
    value_cases_count
two_cases = refl

-- Two cases whose tree leans to the left: three values are written to an array of two.
to_the_left :
    case_table (node (node leaf 3 break_statement true leaf) 7 break_statement false leaf)
    ≡ fault out_of_bounds
unfolding case_table update_switch_cases_recursive put_case value_cases_count
to_the_left = refl

process-Collects_example :
    Collects no_floats insert_spine spine
      (process no_floats insert_spine leaf two_labels)
      (distinct_values no_floats [] (labels two_labels))
process-Collects_example = process-Collects no_floats insert_spine spine two_labels

statement_new_switch_lem_example :
    (statement_new_switch no_floats insert_spine (some selector) two_labels
      ≡ ok (switch_statement two_labels (some selector) (3 ∷ 7 ∷ [])))
    ↔ (length {A = ℕ} (3 ∷ 7 ∷ []) ≤ 1)
unfolding has_integer_type is_integer
statement_new_switch_lem_example =
    statement_new_switch_lem no_floats insert_spine spine (some selector) two_labels (3 ∷ 7 ∷ [])
      refl labels_found
