-- ===== src/PtrTable/Tests.antt =====
-- Runs of the pointer table (dbcc-ptr-table.c), and the theorems about it at concrete tables.
use dbcc.Base.{
  Run, ℕ, ◌+◌, ◌≡◌, ◌≤◌, refl, arith, Option, none, some, inl, List, [], ◌∷◌, ◌==◌, if◌then◌else◌,
  replicate, ok, fault, out_of_bounds, ◌>>=◌, Returns,
}
use dbcc.PtrTable.Chain.{find, assign, count}
use dbcc.PtrTable.Growth.{set_all, last_value, set_all_lem, set_all_overrun}
use dbcc.PtrTable.Laws.{init-IsValid, force_lem, foreach_once}
use dbcc.PtrTable.Steps.{IsValid, entry_at, is_none}
use dbcc.PtrTable.{ptr_to_int, PtrTable, init, lookup, lookup_value, force, set_value, foreach}

abbrev pairs : List (ℕ × Option ℕ)
pairs = (1, some 10) ∷ (8, some 20) ∷ (1, some 30) ∷ (4294967297, some 40) ∷ []

abbrev report : PtrTable ℕ → Run (Option ℕ × Option ℕ × ℕ × ℕ)
report t = ok (lookup_value t 1, lookup_value t 8, t.size, t.occupancy)

session : set_all pairs init >>= report ≡ ok (some 30, some 20, 97, 3)
unfolding set_all set_value lookup_value ptr_to_int find assign
session = refl

set_all_lem_example :
    Returns
      (set_all pairs init)
      λ u. IsValid u × ((q : ℕ) → lookup_value u q ≡ last_value pairs q none)
set_all_lem_example = set_all_lem pairs (omega arith)

abbrev repeated : List (ℕ × Option ℕ)
repeated = replicate 14 (5, some 1)

set_all_overrun_example : set_all repeated init ≡ fault out_of_bounds
set_all_overrun_example = set_all_overrun repeated (omega arith)

abbrev sample : PtrTable ℕ
sample = set_all_lem_example.0

force_lem_example : Returns (force (init {V = ℕ}) 6) λ r.
    IsValid r.1
    × ((q : ℕ)
        → lookup r.1 q ≡ (
            if 6 == q
            then some (entry_at 6 (lookup (init {V = ℕ}) 6))
            else lookup (init {V = ℕ}) q))
    × (r.0 ≡ is_none (lookup (init {V = ℕ}) 6))
    × (r.1.occupancy ≡ 0 + (if r.0 then 1 else 0))
    × (7 ≤ r.1.size)
force_lem_example = force_lem init 6 init-IsValid (inl refl)

foreach_once_example : count 8 (foreach sample.table) ≡ (if is_none (lookup sample 8) then 0 else 1)
foreach_once_example = foreach_once sample 8 set_all_lem_example.2.0
