-- ===== src/PtrTable/Laws.antt =====
-- The operations of dbcc-ptr-table.c as those of a finite map from pointers to pointers.
use dbcc.Base.{ℕ, ◌+◌, ◌<◌, ◌≤◌, ◌≡◌, refl, arith, Option, some, ◌⊎◌, ◌==◌, if◌then◌else◌, Returns}
use dbcc.PtrTable.Chain.{count}
use dbcc.PtrTable.Buckets.{Placed-scan, count_all-eq-zero, find_all-eq-none}
use dbcc.PtrTable.Entries.{count-foreach}
use dbcc.PtrTable.Steps.{IsValid, lookup-view, prepare_lem, enter_lem, write_lem, is_none, entry_at}
use dbcc.PtrTable.{PtrTable, init, lookup, lookup_value, force, set_value, enter, write, foreach}

module _ {V : Type 0} where
  pub init-IsValid : IsValid (init {V = V})
  unfolding foreach count
  init-IsValid = record {
    sized = λ h. absurd (h refl);
    placed = record { width = refl; once = λ q i. omega arith };
    counted = refl;
  }

  -- Room for one more call: nothing is allocated yet, or a size is left to grow to.
  abbrev pub HasRoom : PtrTable V → Type 0
  HasRoom t = (t.size ≡ 0) ⊎ (t.size_index + 1 < 13)

  -- On a well-formed table that has allocated nothing yet or has a size left to grow to,
  -- `dbcc_ptr_table_force` succeeds, leaves a well-formed table of at least 7 chains, adds an entry
  -- with a NULL value exactly if the key was missing and says so, counts it, and changes no other
  -- key's entry.
  pub force_lem :
      (t : PtrTable V) (k : ℕ)
      → IsValid t
      → HasRoom t
      → Returns (force t k) λ r.
        IsValid r.1
        × ((q : ℕ) → lookup r.1 q ≡ (if k == q then some (entry_at k (lookup t k)) else lookup t q))
        × (r.0 ≡ is_none (lookup t k))
        × (r.1.occupancy ≡ t.occupancy + (if r.0 then 1 else 0))
        × (7 ≤ r.1.size)
  unfolding force
  force_lem t k v room =
      let (u, run, (valid, wide, same, kept)) = prepare_lem t v room in
      let r = enter_lem u k valid wide in
      (
        enter u k,
        rw (run, force),
        (
          r.valid,
          λ q. rw (r.reads q, same k, same q),
          rw (r.created, same k),
          omega (arith, r.occupied),
          omega (arith, r.same_size),
        ),
      )

  -- On a well-formed table that has allocated nothing yet or has a size left to grow to,
  -- `dbcc_ptr_table_set` succeeds and leaves a well-formed table whose lookup gives the new value
  -- for the key and what it gave before for every other key.
  pub set_value_lem :
      (t : PtrTable V) (k : ℕ) (value : Option V)
      → IsValid t
      → HasRoom t
      → Returns (set_value t k value) λ u.
        IsValid u × ((q : ℕ) → lookup_value u q ≡ (if k == q then value else lookup_value t q))
  unfolding set_value lookup_value
  set_value_lem t k value v room =
      let (r, run, (valid, reads, _, _, wide)) = force_lem t k v room in
      let here : lookup r.1 k ≡ some (entry_at k (lookup t k)) = ground (arith, reads k) in
      let (valid', reads', _) = write_lem r.1 k value (entry_at k (lookup t k)) valid wide here in
      (write r.1 k value, rw (run, set_value), (valid', λ q. ground (arith, reads q, reads' q)))

  -- On a well-formed table `dbcc_ptr_table_foreach` visits a key exactly once if it is in the
  -- table, and never otherwise.
  pub foreach_once :
      (t : PtrTable V) (q : ℕ)
      → IsValid t
      → count q (foreach t.table) ≡ (if is_none (lookup t q) then 0 else 1)
  foreach_once t q v =
      let (hit, once) = Placed-scan t.size t.table q v.placed in
      ground (
        arith,
        count-foreach q t.table,
        lookup-view t q v,
        count_all-eq-zero q t.table,
        find_all-eq-none q t.table,
      )
