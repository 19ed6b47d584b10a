-- ===== src/Statement/Switch/Cases.antt =====
-- The case labels that belong to a switch statement, and the set of their values: what
-- `switch_map_construct_data_process` (dbcc-statement.c) is to find.
use dbcc.Base.{
  ℕ, ◌+◌, ◌%◌, ◌^◌, Bool, false, ◌||◌, List, [], ◌∷◌, ◌++◌, ltb, ◌==◌, if◌then◌else◌, Run, ok, err,
  ◌>>=◌,
}
use dbcc.Error.{case_duplicate}
use dbcc.Statement.Switch.{case_value}
use dbcc.Statement.{
  Expr, Statement, Statements, Nullable, compound_statement, for_statement, while_statement,
  do_while_statement, switch_statement, if_statement, goto_statement, break_statement,
  continue_statement, return_statement, label_statement, case_statement, default_statement,
  expr_statement, declaration_statement, done, next, null, ptr,
}
use dbcc.Value.Floats.{FloatOps}

-- The labels in the order of the source, without those of a switch statement inside.
unfoldable mutual
  pub labels : Statement → List Expr
  labels (compound_statement ss defines_scope) = labels_all ss
  labels (for_statement init condition advance body) =
      labels_nullable init ++ (labels_nullable advance ++ labels_nullable body)
  labels (while_statement condition body) = labels_nullable body
  labels (do_while_statement body condition) = labels_nullable body
  labels (switch_statement body value_expr cases) = []
  labels (if_statement condition body else_body) = labels body ++ labels_nullable else_body
  labels (case_statement e) = e ∷ []
  labels (goto_statement label) = []
  labels break_statement = []
  labels continue_statement = []
  labels (return_statement e) = []
  labels (label_statement name) = []
  labels default_statement = []
  labels (expr_statement e) = []
  labels (declaration_statement storage type name opt_value) = []

  pub labels_all : Statements → List Expr
  labels_all done = []
  labels_all (next s ss) = labels s ++ labels_all ss

  pub labels_nullable : Nullable → List Expr
  labels_nullable null = []
  labels_nullable (ptr s) = labels s

unfoldable pub member : ℕ → List ℕ → Bool
member v [] = false
member v (w ∷ vs) = w == v || member v vs

-- `<` of two `int64_t`, of their 64 bits.
unfoldable pub int64_less : ℕ → ℕ → Bool
int64_less a b = ltb ((a + 2 ^ 63) % 2 ^ 64) ((b + 2 ^ 63) % 2 ^ 64)

unfoldable pub insert_sorted : ℕ → List ℕ → List ℕ
unfolding int64_less
insert_sorted v [] = v ∷ []
insert_sorted v (w ∷ vs) = if int64_less v w then v ∷ w ∷ vs else w ∷ insert_sorted v vs

unfoldable pub add_label : FloatOps → List ℕ → Expr → Run (List ℕ)
unfolding member insert_sorted
add_label ops vs e = do
  v ← case_value ops e
  if member v vs then err case_duplicate else ok (insert_sorted v vs)

-- The sorted values of the labels, where `vs` are those of the labels before.
unfoldable pub distinct_values : FloatOps → List ℕ → List Expr → Run (List ℕ)
distinct_values ops vs [] = ok vs
distinct_values ops vs (e ∷ es) = add_label ops vs e >>= λ ws. distinct_values ops ws es
