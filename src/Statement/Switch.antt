-- ===== src/Statement/Switch.antt =====
-- `dbcc_statement_new_switch` (dbcc-statement.c): the table of the cases of a switch.
-- `DSK_RBTREE_INSERT` of the dsk library is the parameter `insert`: the tree with the node for a
-- value and its case-statement added, or `none` where a node with that value is found.
pub mod Cases
pub mod Tree
pub mod Collecting
pub mod Table
pub mod Spine
mod Tests
use dbcc.Base.{
  ℕ, ◌+◌, Bool, true, false, Option, none, some, List, [], ◌∷◌, ◌++◌, length, ltb, ◌==◌,
  if◌then◌else◌, Run, ok, err, fault, ◌>>=◌, undefined, out_of_bounds, assertion,
}
use dbcc.CType.Query.{is_integer}
use dbcc.Constant.{Constant, value}
use dbcc.Error.{expr_not_condition, case_expr_nonconstant, case_duplicate}
use dbcc.Statement.{
  Expr, Statement, Statements, Nullable, compound_statement, for_statement, while_statement,
  do_while_statement, switch_statement, if_statement, goto_statement, break_statement,
  continue_statement, return_statement, label_statement, case_statement, default_statement,
  expr_statement, declaration_statement, done, next, null, ptr,
}
use dbcc.Value.Access.{typed_value_get_int64}
use dbcc.Value.Floats.{FloatOps}

-- `left`, `value`, `case_statement`, `is_red` and `right`; `leaf` is NULL.
pub data ValueCasePair : Type 0 where
  leaf : ValueCasePair
  node : ValueCasePair → ℕ → Statement → Bool → ValueCasePair → ValueCasePair

abbrev pub Insert : Type 0
Insert = ValueCasePair → ℕ → Statement → Option ValueCasePair

-- The value of a case, an `int64_t` as its 64 bits.
unfoldable pub case_value : FloatOps → Expr → Run ℕ
case_value ops e = elim e.constant [
  | some (value v) ↦ elim e.value_type [
    | none ↦ fault undefined
    | some type ↦ typed_value_get_int64 ops type v
  ]
  | _ ↦ err case_expr_nonconstant
]

module _ (ops : FloatOps) (insert : Insert) where
  unfoldable pub insert_case : ValueCasePair → Expr → Run ValueCasePair
  unfolding case_value
  insert_case tree e = do
    v ← case_value ops e
    elim (insert tree v (case_statement e)) [ none ↦ err case_duplicate | some t ↦ ok t ]

  -- `switch_map_construct_data_process`, for a statement, for those of a block and for one that may
  -- be NULL. An error is the one that is left in the construct data by a call that returns false.
  unfoldable mutual
    unfolding insert_case

    pub process : ValueCasePair → Statement → Run ValueCasePair
    process tree (compound_statement ss defines_scope) = process_all tree ss
    process tree (for_statement init condition advance body) = do
      t ← process_nullable tree init
      u ← process_nullable t advance
      process_nullable u body
    process tree (while_statement condition body) = process_nullable tree body
    process tree (do_while_statement body condition) = process_nullable tree body
    process tree (switch_statement body value_expr cases) = ok tree
    process tree (if_statement condition body else_body) = do
      t ← process tree body
      process_nullable t else_body
    process tree (case_statement e) = insert_case tree e
    process tree (goto_statement label) = ok tree
    process tree break_statement = ok tree
    process tree continue_statement = ok tree
    process tree (return_statement e) = ok tree
    process tree (label_statement name) = ok tree
    process tree default_statement = ok tree
    process tree (expr_statement e) = ok tree
    process tree (declaration_statement storage type name opt_value) = ok tree

    pub process_all : ValueCasePair → Statements → Run ValueCasePair
    process_all tree done = ok tree
    process_all tree (next s ss) = do t ← process tree s; process_all t ss

    pub process_nullable : ValueCasePair → Nullable → Run ValueCasePair
    process_nullable tree null = ok tree
    process_nullable tree (ptr s) = process tree s

unfoldable pub value_cases_count : ValueCasePair → ℕ
value_cases_count leaf = 0
value_cases_count (node left v s red right) = value_cases_count left + 1 + value_cases_count right

-- `(*p_at)->value = value; *p_at += 1;` in an array of `n_cases`, of which `cases` is written.
unfoldable pub put_case : ℕ → ℕ → List ℕ → Run (List ℕ)
put_case n_cases v cases =
    if ltb (length cases) n_cases then ok (cases ++ (v ∷ [])) else fault out_of_bounds

-- The left subtree is visited twice, the right one never.
unfoldable pub update_switch_cases_recursive : ℕ → ValueCasePair → List ℕ → Run (List ℕ)
update_switch_cases_recursive n_cases leaf cases = ok cases
update_switch_cases_recursive n_cases (node left v s red right) cases = do
  before ← update_switch_cases_recursive n_cases left cases
  at ← put_case n_cases v before
  update_switch_cases_recursive n_cases left at

unfoldable pub has_integer_type : Option Expr → Bool
has_integer_type none = true
has_integer_type (some e) = elim e.value_type [ none ↦ true | some t ↦ is_integer t ]

unfoldable pub case_table : ValueCasePair → Run (List ℕ)
case_table tree = do
  cases ← update_switch_cases_recursive (value_cases_count tree) tree []
  if length cases == value_cases_count tree then ok cases else fault assertion

unfoldable pub statement_new_switch : FloatOps → Insert → Option Expr → Statement → Run Statement
statement_new_switch ops insert expr switch_body =
    if has_integer_type expr
    then (do
      tree ← process ops insert leaf switch_body
      cases ← case_table tree
      ok (switch_statement switch_body expr cases))
    else err expr_not_condition
