-- ===== src/Statement/Switch/Table.antt =====
-- `update_switch_cases_recursive` and `dbcc_statement_new_switch` (dbcc-statement.c): when the table
-- of the cases is right.
use mathlib.Core.List.{append_assoc, append-nil}
use mathlib.Core.Path.{subst}
use dbcc.Base.{
  ℕ, ◌≤◌, ◌≡◌, refl, sym, ◌∙◌, ap, arith, true, false, ◌||◌, Option, List, [], ◌∷◌, ◌++◌, length,
  ◌==◌, Run, ok, err, fault, ◌↔◌, Bool-cases, inl, inr, length-append, eq→==, bind_inv,
}
use dbcc.Statement.Switch.Cases.{
  labels, member, insert_sorted, add_label, distinct_values, int64_less,
}
use dbcc.Statement.Switch.Collecting.{Collects, process-Collects}
use dbcc.Statement.Switch.Tree.{values, RbtreeInsert}
use dbcc.Statement.Switch.{
  ValueCasePair, leaf, node, Insert, case_value, process, value_cases_count, put_case,
  update_switch_cases_recursive, has_integer_type, case_table, statement_new_switch,
}
use dbcc.Statement.{Expr, Statement, switch_statement}
use dbcc.Value.Floats.{FloatOps}

-- What `update_switch_cases_recursive` writes.
abbrev written : ValueCasePair → List ℕ
written leaf = []
written (node left v s red right) = written left ++ (v ∷ written left)

count-values : (t : ValueCasePair) → value_cases_count t ≡ length (values t)
unfolding value_cases_count values
count-values leaf = refl
count-values (node left v s red right) =
    omega
      (arith, count-values left, count-values right, length-append (values left) (v ∷ values right))

put_case_lem : (n v : ℕ) (cases r : List ℕ) → put_case n v cases ≡ ok r → r ≡ cases ++ (v ∷ [])
unfolding put_case
put_case_lem n v cases r h = ground (arith, h)

update_lem :
    (n : ℕ) (t : ValueCasePair) (cases r : List ℕ)
    → update_switch_cases_recursive n t cases ≡ ok r
    → r ≡ cases ++ written t
unfolding update_switch_cases_recursive
update_lem n leaf cases r h = cc (append-nil cases)
update_lem n (node left v s red right) cases r h =
    let (before, first, h1) = bind_inv (update_switch_cases_recursive n left cases) _ r h in
    let (at, second, h2) = bind_inv (put_case n v before) _ r h1 in
    let to_left = update_lem n left cases before first in
    let to_v = put_case_lem n v before at second in
    rw
      (
        update_lem n left at r h2,
        to_v,
        to_left,
        append_assoc (cases ++ written left) (v ∷ []) (written left),
        append_assoc cases (written left) (v ∷ written left),
      )
      refl

-- Distinct values.
abbrev Distinct : List ℕ → Type 0
Distinct [] = Unit
Distinct (v ∷ vs) = (member v vs ≡ false) × Distinct vs

member-append : (v : ℕ) (xs ys : List ℕ) → member v (xs ++ ys) ≡ (member v xs || member v ys)
unfolding member
member-append v [] ys = refl
member-append v (x ∷ xs) ys = ground (arith, member-append v xs ys)

member-insert_sorted :
    (x v : ℕ) (vs : List ℕ) → member x (insert_sorted v vs) ≡ (v == x || member x vs)
unfolding member insert_sorted
member-insert_sorted x v [] = refl
member-insert_sorted x v (w ∷ vs) = elim (Bool-cases (int64_less v w)) [
  | inl e ↦ rw e refl
  | inr e ↦ rw (e, member-insert_sorted x v vs) (ground arith)
]

insert_sorted-Distinct :
    (v : ℕ) (vs : List ℕ) → member v vs ≡ false → Distinct vs → Distinct (insert_sorted v vs)
unfolding member insert_sorted
insert_sorted-Distinct v [] h d = (refl, tt)
insert_sorted-Distinct v (w ∷ vs) h d = elim (Bool-cases (int64_less v w)) [
  | inl e ↦ rw e (h, d)
  | inr e ↦
      let apart : (w == v) ≡ false = ground (arith, h) in
      let apart' : (v == w) ≡ false = ground (arith, apart) in
      let rest : member v vs ≡ false = ground (arith, h) in
      rw e (rw (member-insert_sorted w v vs, apart') d.0, insert_sorted-Distinct v vs rest d.1)
]

distinct_values-Distinct :
    (ops : FloatOps) (vs ws : List ℕ) (es : List Expr)
    → Distinct vs
    → distinct_values ops vs es ≡ ok ws
    → Distinct ws
unfolding distinct_values add_label
distinct_values-Distinct ops vs ws [] d h = let e : vs ≡ ws = cc in rw (sym e) d
distinct_values-Distinct ops vs ws (e ∷ es) d h =
    let (us, first, h1) = bind_inv (add_label ops vs e) _ ws h in
    let (v, run, h2) = bind_inv (case_value ops e) _ us first in
    elim (Bool-cases (member v vs)) [
      | inl m ↦ absurd (ground (arith, h2, m))
      | inr m ↦
          let eq : insert_sorted v vs ≡ us = ground (arith, h2, m) in
          distinct_values-Distinct ops us ws es (rw (sym eq) (insert_sorted-Distinct v vs m d)) h1
    ]

-- A value that stands twice.
twice : (w v : ℕ) (ws : List ℕ) → Distinct ((w ∷ ws) ++ (v ∷ w ∷ ws)) → ⊥
unfolding member
twice w v ws d =
    let again = eq→== w w refl in ground (arith, d.0, member-append w ws (v ∷ w ∷ ws), again)

written_once : (v : ℕ) (ws vs : List ℕ) → ws ++ (v ∷ ws) ≡ vs → Distinct vs → length vs ≤ 1
written_once v [] vs h d = rw (sym h) (omega arith)
written_once v (w ∷ ws) vs h d = absurd (twice w v ws (subst Distinct (sym h) d))

no_values : (t : ValueCasePair) → length (values t) ≤ 0 → t ≡ leaf
unfolding values
no_values leaf h = refl
no_values (node left v s red right) h =
    absurd (omega (arith, length-append (values left) (v ∷ values right)))

right_once :
    (t : ValueCasePair) → Distinct (values t) → case_table t ≡ ok (values t) → length (values t) ≤ 1
unfolding case_table values
right_once leaf d h = omega arith
right_once (node left v s red right) d h =
    let t : ValueCasePair = node left v s red right in
    let (cases, run, checked) =
      bind_inv (update_switch_cases_recursive (value_cases_count t) t []) _ (values t) h in
    let all = update_lem (value_cases_count t) t [] cases run in
    let same : cases ≡ values t = ground (arith, checked) in
    written_once v (written left) (values t) (sym all ∙ same) d

once_right : (t : ValueCasePair) → length (values t) ≤ 1 → case_table t ≡ ok (values t)
unfolding case_table values update_switch_cases_recursive value_cases_count put_case
once_right leaf h = refl
once_right (node left v s red right) h =
    let count = length-append (values left) (v ∷ values right) in
    rw (no_values left (omega (arith, count)), no_values right (omega (arith, count))) refl

case_table_lem :
    (t : ValueCasePair)
    → Distinct (values t)
    → (case_table t ≡ ok (values t)) ↔ (length (values t) ≤ 1)
case_table_lem t d = (right_once t d, once_right t)

module _ (ops : FloatOps) (insert : Insert) (laws : RbtreeInsert insert) (expr : Option Expr)
    (switch_body : Statement) (vs : List ℕ) where
  processed :
      (r : Run ValueCasePair) (l : Run (List ℕ))
      → Collects ops insert laws r l
      → l ≡ ok vs
      → (t : ValueCasePair) × (r ≡ ok t) × (values t ≡ vs)
  processed (ok t) l h e = let same : values t ≡ vs = cc (h.1) in (t, refl, same)
  processed (err code) l h e = absurd (cc)
  processed (fault k) l h e = absurd (cc)

  -- If `DSK_RBTREE_INSERT` does what is documented, the expression is of an integer type or has
  -- none yet, and the labels of the body are constants of distinct values, then
  -- `dbcc_statement_new_switch` builds the statement with these values in order as its cases
  -- exactly if there is at most one.
  pub statement_new_switch_lem :
      has_integer_type expr ≡ true
      → distinct_values ops [] (labels switch_body) ≡ ok vs
      → (statement_new_switch ops insert expr switch_body
          ≡ ok (switch_statement switch_body expr vs))
        ↔ (length vs ≤ 1)
  unfolding statement_new_switch
  statement_new_switch_lem typed found =
      let (t, run, same) =
        processed (process ops insert leaf switch_body)
          (distinct_values ops [] (labels switch_body))
          (process-Collects ops insert laws switch_body) found in
      let distinct =
        subst Distinct (sym same)
          (distinct_values-Distinct ops [] vs (labels switch_body) (tt) found) in
      let table =
        subst (λ us. (case_table t ≡ ok us) ↔ (length us ≤ 1)) same (case_table_lem t distinct) in
      (
        (λ h.
            let (cases, tabled, built) =
              bind_inv (case_table t) _ (switch_statement switch_body expr vs)
                (rw (typed, run) at h) in
            let right : cases ≡ vs = cc (built) in table.0 (tabled ∙ ap ok right)),
        (λ h. rw (typed, run, table.1 h) refl),
      )
