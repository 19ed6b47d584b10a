-- ===== src/Statement/Switch/Tree.antt =====
-- The documented behaviour of `DSK_RBTREE_INSERT` (dsk-rbtree-macros.h) on the tree of the cases
-- (dbcc-statement.c), and the values in a tree.
use dbcc.Base.{ℕ, ◌≡◌, true, false, none, some, List, [], ◌∷◌, ◌++◌}
use dbcc.Statement.Switch.Cases.{member, insert_sorted}
use dbcc.Statement.Switch.{ValueCasePair, leaf, node, Insert}
use dbcc.Statement.{Statement}

unfoldable pub values : ValueCasePair → List ℕ
values leaf = []
values (node left v s red right) = values left ++ (v ∷ values right)

-- An equivalent node is found and nothing is changed, or the node is added in its place of the
-- order. `IsTree` is what the library keeps true of its trees.
pub record RbtreeInsert (insert : Insert) : Type 1 where
  pub IsTree : ValueCasePair → Type 0
  pub empty : IsTree leaf
  pub found :
      (tree : ValueCasePair) (v : ℕ) (s : Statement)
      → IsTree tree
      → member v (values tree) ≡ true
      → insert tree v s ≡ none
  pub added :
      (tree : ValueCasePair) (v : ℕ) (s : Statement)
      → IsTree tree
      → member v (values tree) ≡ false
      → (t : ValueCasePair) × (insert tree v s ≡ some t)
        × IsTree t
        × (values t ≡ insert_sorted v (values tree))
