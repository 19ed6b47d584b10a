-- ===== src/Statement/Switch/Spine.antt =====
-- A concrete tree for the tests and examples: the nodes in their order, each to the right of the one
-- before.
use dbcc.Base.{ℕ, ◌≡◌, refl, true, false, none, some, if◌then◌else◌, Bool-cases, inl, inr}
use dbcc.Statement.Switch.Cases.{member, insert_sorted, int64_less}
use dbcc.Statement.Switch.Tree.{values, RbtreeInsert}
use dbcc.Statement.Switch.{ValueCasePair, leaf, node, Insert}
use dbcc.Statement.{Statement}

unfoldable pub put : ValueCasePair → ℕ → Statement → ValueCasePair
unfolding int64_less
put leaf v s = node leaf v s false leaf
put (node left u t red right) v s =
    let rest = put right v s in
    if int64_less v u then node leaf v s false (node left u t red right) else node left u t red rest

unfoldable pub insert_spine : Insert
unfolding put values member
insert_spine tree v s = if member v (values tree) then none else some (put tree v s)

abbrev pub IsSpine : ValueCasePair → Type 0
IsSpine leaf = Unit
IsSpine (node leaf v s red right) = IsSpine right
IsSpine (node (node l w t b r) v s red right) = ⊥

put-IsSpine : (tree : ValueCasePair) (v : ℕ) (s : Statement) → IsSpine tree → IsSpine (put tree v s)
unfolding put
put-IsSpine leaf v s h = tt
put-IsSpine (node leaf u t red right) v s h = elim (Bool-cases (int64_less v u)) [
  | inl e ↦ rw e h
  | inr e ↦ rw e (put-IsSpine right v s h)
]
put-IsSpine (node (node l w x b r) u t red right) v s h = absurd h

values-put :
    (tree : ValueCasePair) (v : ℕ) (s : Statement)
    → IsSpine tree
    → values (put tree v s) ≡ insert_sorted v (values tree)
unfolding put values insert_sorted
values-put leaf v s h = refl
values-put (node leaf u t red right) v s h = elim (Bool-cases (int64_less v u)) [
  | inl e ↦ rw e refl
  | inr e ↦ rw (e, values-put right v s h) refl
]
values-put (node (node l w x b r) u t red right) v s h = absurd h

pub insert_spine_found :
    (tree : ValueCasePair) (v : ℕ) (s : Statement)
    → IsSpine tree
    → member v (values tree) ≡ true
    → insert_spine tree v s ≡ none
unfolding insert_spine
insert_spine_found tree v s h m = rw m refl

pub insert_spine-IsSpine :
    (tree : ValueCasePair) (v : ℕ) (s : Statement)
    → IsSpine tree
    → member v (values tree) ≡ false
    → (t : ValueCasePair) × (insert_spine tree v s ≡ some t)
      × IsSpine t
      × (values t ≡ insert_sorted v (values tree))
unfolding insert_spine
insert_spine-IsSpine tree v s h m =
    (put tree v s, rw m refl, put-IsSpine tree v s h, values-put tree v s h)

abbrev pub spine : RbtreeInsert insert_spine
spine = record {
  IsTree = IsSpine;
  empty = tt;
  found = insert_spine_found;
  added = insert_spine-IsSpine;
}
