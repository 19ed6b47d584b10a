-- ===== src/Statement/Switch/Collecting.antt =====
-- `switch_map_construct_data_process` (dbcc-statement.c) finds the case labels of the statement.
use mathlib.Core.Path.{subst}
use dbcc.Base.{
  ℕ, ◌≡◌, refl, sym, List, [], ◌∷◌, ◌++◌, if◌then◌else◌, Run, ok, err, fault, ◌>>=◌, none, some,
  Bool-cases, inl, inr, ap,
}
use dbcc.Error.{case_duplicate}
use dbcc.Statement.Switch.Cases.{
  labels, labels_all, labels_nullable, member, insert_sorted, add_label, distinct_values,
}
use dbcc.Statement.Switch.Tree.{values, RbtreeInsert}
use dbcc.Statement.Switch.{
  ValueCasePair, leaf, Insert, case_value, insert_case, process, process_all, process_nullable,
}
use dbcc.Statement.{
  Expr, Statement, Statements, Nullable, compound_statement, for_statement, while_statement,
  do_while_statement, switch_statement, if_statement, goto_statement, break_statement,
  continue_statement, return_statement, label_statement, case_statement, default_statement,
  expr_statement, declaration_statement, done, next, null, ptr,
}
use dbcc.Value.Floats.{FloatOps}

bind_cong {ℓ κ ι} :
    {A : Type ℓ} {B : Type κ} {C : Type ι} (r : Run A) (f : A → Run C) (g : A → Run B)
    (h : B → Run C)
    → ((a : A) → f a ≡ (g a >>= h))
    → (r >>= f) ≡ ((r >>= g) >>= h)
bind_cong (ok a) f g h e = e a
bind_cong (err code) f g h e = refl
bind_cong (fault k) f g h e = refl

bind_ok {ℓ} : {A : Type ℓ} (r : Run A) → r ≡ (r >>= ok)
bind_ok (ok a) = refl
bind_ok (err code) = refl
bind_ok (fault k) = refl

-- Labels one after the other.
distinct_values-append :
    (ops : FloatOps) (vs : List ℕ) (es fs : List Expr)
    → distinct_values ops vs (es ++ fs)
      ≡ (distinct_values ops vs es >>= λ ws. distinct_values ops ws fs)
unfolding distinct_values
distinct_values-append ops vs [] fs = refl
distinct_values-append ops vs (e ∷ es) fs =
    bind_cong (add_label ops vs e) _ _ _ (λ ws. distinct_values-append ops ws es fs)

module _ (ops : FloatOps) (insert : Insert) (laws : RbtreeInsert insert) where
  -- The run ends with a tree of these values, or as the other run does.
  abbrev pub Collects : Run ValueCasePair → Run (List ℕ) → Type 0
  Collects (ok t) r = laws.IsTree t × (r ≡ ok (values t))
  Collects (err e) r = r ≡ err e
  Collects (fault k) r = r ≡ fault k

  bind-Collects :
      (run : Run ValueCasePair) (r : Run (List ℕ)) (k : ValueCasePair → Run ValueCasePair)
      (l : List ℕ → Run (List ℕ))
      → Collects run r
      → ((t : ValueCasePair) → laws.IsTree t → Collects (k t) (l (values t)))
      → Collects (run >>= k) (r >>= l)
  bind-Collects (ok t) r k l h step = rw (h.1) (step t h.0)
  bind-Collects (err e) r k l h step = rw h refl
  bind-Collects (fault e) r k l h step = rw h refl

  insert_case-Collects :
      (tree : ValueCasePair) (e : Expr)
      → laws.IsTree tree
      → Collects (insert_case ops insert tree e) (add_label ops (values tree) e)
  unfolding insert_case add_label
  insert_case-Collects tree e h =
      elim (case_value ops e)
        as (λ r.
          Collects
            (r >>= λ v. elim (insert tree v (case_statement e)) [
              | none ↦ err case_duplicate
              | some t ↦ ok t
            ])
            (r >>= λ v.
              if member v (values tree)
              then err case_duplicate
              else ok (insert_sorted v (values tree)))) [
                | ok v ↦ elim (Bool-cases (member v (values tree))) [
                  | inl m ↦ rw (laws.found tree v (case_statement e) h m, m) refl
                  | inr m ↦
                      let (t, run, is, eq) = laws.added tree v (case_statement e) h m in
                      rw (run, m) (is, ap ok (sym eq))
                ]
                | err code ↦ refl
                | fault k ↦ refl
              ]

  -- A part of a statement and what follows it.
  then-Collects :
      (run : Run ValueCasePair) (k : ValueCasePair → Run ValueCasePair) (vs : List ℕ)
      (es fs : List Expr)
      → Collects run (distinct_values ops vs es)
      → ((t : ValueCasePair) → laws.IsTree t → Collects (k t) (distinct_values ops (values t) fs))
      → Collects (run >>= k) (distinct_values ops vs (es ++ fs))
  then-Collects run k vs es fs h step =
      rw (distinct_values-append ops vs es fs)
        (bind-Collects run (distinct_values ops vs es) k (λ ws. distinct_values ops ws fs) h step)

  mutual
    unfolding process labels distinct_values

    pub process_lem :
        (tree : ValueCasePair) (s : Statement)
        → laws.IsTree tree
        → Collects (process ops insert tree s) (distinct_values ops (values tree) (labels s))
    process_lem tree (compound_statement ss defines_scope) h = process_all_lem tree ss h
    process_lem tree (for_statement init condition advance body) h =
        then-Collects _ _ (values tree) (labels_nullable init) _ (process_nullable_lem tree init h)
          (λ t is.
            then-Collects _ _ (values t) (labels_nullable advance) _
              (process_nullable_lem t advance is) (λ u is_u. process_nullable_lem u body is_u))
    process_lem tree (while_statement condition body) h = process_nullable_lem tree body h
    process_lem tree (do_while_statement body condition) h = process_nullable_lem tree body h
    process_lem tree (switch_statement body value_expr cases) h = (h, refl)
    process_lem tree (if_statement condition body else_body) h =
        then-Collects _ _ (values tree) (labels body) _ (process_lem tree body h)
          (λ t is. process_nullable_lem t else_body is)
    process_lem tree (case_statement e) h =
        subst (Collects (insert_case ops insert tree e)) (bind_ok (add_label ops (values tree) e))
          (insert_case-Collects tree e h)
    process_lem tree (goto_statement label) h = (h, refl)
    process_lem tree break_statement h = (h, refl)
    process_lem tree continue_statement h = (h, refl)
    process_lem tree (return_statement e) h = (h, refl)
    process_lem tree (label_statement name) h = (h, refl)
    process_lem tree default_statement h = (h, refl)
    process_lem tree (expr_statement e) h = (h, refl)
    process_lem tree (declaration_statement storage type name opt_value) h = (h, refl)

    process_all_lem :
        (tree : ValueCasePair) (ss : Statements)
        → laws.IsTree tree
        → Collects
            (process_all ops insert tree ss)
            (distinct_values ops (values tree) (labels_all ss))
    process_all_lem tree done h = (h, refl)
    process_all_lem tree (next s ss) h =
        then-Collects _ _ (values tree) (labels s) _ (process_lem tree s h)
          (λ t is. process_all_lem t ss is)

    process_nullable_lem :
        (tree : ValueCasePair) (s : Nullable)
        → laws.IsTree tree
        → Collects
            (process_nullable ops insert tree s)
            (distinct_values ops (values tree) (labels_nullable s))
    process_nullable_lem tree null h = (h, refl)
    process_nullable_lem tree (ptr s) h = process_lem tree s h

-- If `DSK_RBTREE_INSERT` finds the node with an equal value or adds the new one in its place of the
-- order, then `switch_map_construct_data_process` on the body of a switch ends with a tree of the
-- distinct values of the body's case labels, without those of a switch statement inside, in the
-- order of `int64_t`; or, at the first label where there is one, with the error for a label that is
-- not constant or for a value that a label before has, or with the fault of reading its value.
pub process-Collects :
    (ops : FloatOps) (insert : Insert) (laws : RbtreeInsert insert) (switch_body : Statement)
    → Collects ops insert laws
        (process ops insert leaf switch_body)
        (distinct_values ops [] (labels switch_body))
unfolding values
process-Collects ops insert laws switch_body =
    process_lem ops insert laws leaf switch_body laws.empty
