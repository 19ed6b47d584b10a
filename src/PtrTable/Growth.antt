-- ===== src/PtrTable/Growth.antt =====
-- Runs of calls of `dbcc_ptr_table_set` (dbcc-ptr-table.c) from an initialised table.
use dbcc.Base.{
  ℕ, zero, suc, ◌+◌, ◌<◌, ◌≤◌, ◌≡◌, refl, ap, ◌∙◌, arith, Option, none, some, inl, inr, List, [],
  ◌∷◌, ◌==◌, if◌then◌else◌, length, replicate, Run, ok, fault, out_of_bounds, ◌>>=◌, Returns,
  Bool-cases, ==→eq,
}
use mathlib.Core.Path.{subst}
use dbcc.PtrTable.Steps.{IsValid, first_table, resize_lem, enter_lem, write_lem, entry_at}
use dbcc.PtrTable.Entries.{ptr_table_sizes_bounds}
use dbcc.PtrTable.Laws.{init-IsValid}
use dbcc.PtrTable.{
  PtrTable, init, lookup, lookup_value, needs_resize, resize, prepare, enter, force, write,
  set_value,
}

module _ {V : Type 0} where
  -- Calls of `dbcc_ptr_table_set`, one after the other.
  unfoldable pub set_all : List (ℕ × Option V) → PtrTable V → Run (PtrTable V)
  set_all [] t = ok t
  set_all ((k, value) ∷ kvs) t = set_value t k value >>= set_all kvs

  -- The value of the last pair with a key, and `d` where there is none.
  pub last_value : List (ℕ × Option V) → ℕ → Option V → Option V
  last_value [] q d = d
  last_value ((k, value) ∷ kvs) q d = last_value kvs q (if k == q then value else d)

  -- After `n` calls.
  record Grown (n : ℕ) (t : PtrTable V) : Type 0 where
    valid : IsValid t
    started : n ≡ 0 → t.size ≡ 0
    index : 0 < n → t.size_index + 1 ≡ n
    wide : 0 < n → 7 ≤ t.size
    sparse : t.occupancy ≤ n

  narrow : (t : PtrTable V) → IsValid t → t.size ≤ 80021
  narrow t v = elim (Bool-cases (t.size == 0)) [
    | inl empty ↦ ground arith
    | inr full ↦ (ptr_table_sizes_bounds t.size_index t.size (v.sized (ground arith))).1
  ]

  prepare-resize : (n : ℕ) (t : PtrTable V) → Grown n t → 0 < n → n ≤ 13 → prepare t ≡ resize t
  unfolding prepare needs_resize
  prepare-resize n t g pos small = ground (arith, g.wide pos, g.sparse, narrow t g.valid)

  -- Call `n + 1` works on the table size of number `n`.
  prepare-Grown :
      (n : ℕ) (t : PtrTable V)
      → Grown n t
      → n < 13
      → Returns (prepare t) λ u.
        IsValid u
        × (7 ≤ u.size)
        × ((q : ℕ) → lookup u q ≡ lookup t q)
        × (u.occupancy ≡ t.occupancy)
        × (u.size_index ≡ n)
  prepare-Grown zero t g h =
      let empty : t.size ≡ 0 = g.started refl in
      let (valid, wide, same, kept) = first_table t g.valid empty in
      (
        record { size = 7; size_index = 0; occupancy = 0; table = replicate 7 [] },
        unfold prepare in rw empty,
        (valid, wide, same, kept, refl),
      )
  prepare-Grown (suc n) t g h =
      let (u, run, (valid, wide, same, kept, index)) =
        resize_lem t g.valid (omega (arith, g.index (omega arith))) in
      (
        u,
        prepare-resize (suc n) t g (omega arith) (omega arith) ∙ run,
        (valid, wide, same, kept, omega (arith, g.index (omega arith))),
      )

  set_value-Grown :
      (n : ℕ) (t : PtrTable V) (k : ℕ) (value : Option V)
      → Grown n t
      → n < 13
      → Returns (set_value t k value) λ u.
        Grown (suc n) u
        × ((q : ℕ) → lookup_value u q ≡ (if k == q then value else lookup_value t q))
  unfolding set_value force lookup_value
  set_value-Grown n t k value g h =
      let (u, run, (valid, wide, same, kept, index)) = prepare-Grown n t g h in
      let r = enter_lem u k valid wide in
      let w : PtrTable V = write (enter u k).1 k value in
      let there : lookup (enter u k).1 k ≡ some (entry_at k (lookup u k)) =
        ground (arith, r.reads k) in
      let (valid', reads', kept') =
        write_lem (enter u k).1 k value _ r.valid (omega (arith, r.same_size)) there in
      (
        w,
        rw (run, set_value, force),
        (
          record {
            valid = valid';
            started = λ e. absurd (omega arith);
            index = λ _. unfold write in omega (arith, r.same_index);
            wide = λ _. unfold write in omega (arith, r.same_size);
            sparse = ground (arith, r.occupied, g.sparse);
          },
          λ q. ground (arith, reads' q, r.reads q, same q),
        ),
      )

  set_value_full :
      (t : PtrTable V) (k : ℕ) (value : Option V)
      → Grown 13 t
      → set_value t k value ≡ fault out_of_bounds
  unfolding set_value force resize
  set_value_full t k value g =
      let last : t.size_index ≡ 12 = omega (arith, g.index (omega arith)) in
      rw (prepare-resize 13 t g (omega arith) (omega arith), set_value, force) (rw (last, resize))

  init-Grown : Grown 0 (init {V = V})
  init-Grown = record {
    valid = init-IsValid;
    started = λ _. refl;
    index = λ h. absurd (omega arith);
    wide = λ h. absurd (omega arith);
    sparse = omega arith;
  }

  set_all-Grown :
      (kvs : List (ℕ × Option V)) (n : ℕ) (t : PtrTable V)
      → Grown n t
      → n + length kvs ≤ 13
      → Returns
          (set_all kvs t)
          λ u. IsValid u × ((q : ℕ) → lookup_value u q ≡ last_value kvs q (lookup_value t q))
  unfolding set_all last_value
  set_all-Grown [] n t g h = (t, refl, (g.valid, λ q. refl))
  set_all-Grown ((k, value) ∷ kvs) n t g h =
      let (u, run, (g', step)) = set_value-Grown n t k value g (omega arith) in
      let (w, run', (valid, reads)) = set_all-Grown kvs (suc n) u g' (omega arith) in
      (w, rw (run, set_all) run', (valid, λ q. reads q ∙ ap (last_value kvs q) (step q)))

  set_all_full :
      (kvs : List (ℕ × Option V)) (n : ℕ) (t : PtrTable V)
      → Grown n t
      → n ≤ 13
      → 13 < n + length kvs
      → set_all kvs t ≡ fault out_of_bounds
  unfolding set_all
  set_all_full [] n t g small h = absurd (omega arith)
  set_all_full ((k, value) ∷ kvs) n t g small h = elim (Bool-cases (n == 13)) [
    | inl full ↦ rw (set_value_full t k value (subst (λ m. Grown m t) (==→eq n 13 full) g))
    | inr room ↦
        let (u, run, (g', _)) = set_value-Grown n t k value g (ground arith) in
        rw (run, set_all) (set_all_full kvs (suc n) u g' (ground arith) (omega arith))
  ]

  -- From an initialised table, up to thirteen calls of `dbcc_ptr_table_set` succeed, and then the
  -- table is well formed and a lookup gives the last value set for a key, NULL if there is none.
  pub set_all_lem :
      (kvs : List (ℕ × Option V))
      → length kvs ≤ 13
      → Returns
          (set_all kvs init)
          λ u. IsValid u × ((q : ℕ) → lookup_value u q ≡ last_value kvs q none)
  unfolding lookup_value
  set_all_lem kvs h = set_all-Grown kvs 0 init init-Grown (omega arith)

  -- From an initialised table, a run of more than thirteen calls of `dbcc_ptr_table_set` reads past
  -- the end of the array of sizes, whatever the keys are.
  pub set_all_overrun :
      (kvs : List (ℕ × Option V)) → 13 < length kvs → set_all kvs init ≡ fault out_of_bounds
  set_all_overrun kvs h = set_all_full kvs 0 init init-Grown (omega arith) (omega arith)
