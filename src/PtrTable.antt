-- ===== src/PtrTable.antt =====
-- dbcc-ptr-table.c: a chained hash table from pointers to pointers.
-- A key is a pointer as a number, and a value is `none` for NULL. An entry that a function
-- returns by its address is named by its key.
mod Chain
mod Buckets
mod Entries
pub mod Steps
pub mod Laws
pub mod Growth
mod Tests
use Chain.{Entry, Bucket, find, assign}
use dbcc.Base.{
  ℕ, ◌+◌, ◌*◌, ◌%◌, ◌^◌, Bool, true, false, Option, none, some, List, [], ◌∷◌, leb, ◌==◌,
  if◌then◌else◌, get_elem?, get_or, set, replicate, Run, ok, fault, out_of_bounds, ◌>>=◌, ◌++◌,
}

abbrev pub max_occ_numer : ℕ
max_occ_numer = 1

abbrev pub max_occ_denom : ℕ
max_occ_denom = 4

abbrev pub ptr_table_sizes : List ℕ
ptr_table_sizes =
    7 ∷ 19 ∷ 43 ∷ 97 ∷ 271 ∷ 571 ∷ 1171 ∷ 2341 ∷ 4993 ∷ 10211 ∷ 19183 ∷ 40039 ∷ 80021 ∷ []

-- `unsigned` keeps the low 32 bits of the address.
pub ptr_to_int : ℕ → ℕ
ptr_to_int key = key % 2 ^ 32

-- The index of the chain of a key.
abbrev pub home : ℕ → ℕ → ℕ
home size key = ptr_to_int key % size

pub record PtrTable (V : Type 0) : Type 0 where
  pub size : ℕ
  pub size_index : ℕ
  pub occupancy : ℕ
  pub table : List (Bucket V)

module _ {V : Type 0} where
  abbrev pub init : PtrTable V
  init = record { size = 0; size_index = 0; occupancy = 0; table = [] }

  -- The chain that a key is looked for in.
  abbrev pub bucket_of : List (Bucket V) → ℕ → ℕ → Bucket V
  bucket_of table size key = get_or table (home size key) []

  pub lookup : PtrTable V → ℕ → Option (Entry V)
  lookup t key = if t.size == 0 then none else find key (bucket_of t.table t.size key)

  pub lookup_value : PtrTable V → ℕ → Option V
  unfolding lookup
  lookup_value t key = elim (lookup t key) [ none ↦ none | some e ↦ e.value ]

  -- The inner loop of the rehash: pop the head of the old chain, push it on its new chain.
  pub move_bucket : ℕ → Bucket V → List (Bucket V) → List (Bucket V)
  move_bucket new_size [] newtab = newtab
  move_bucket new_size (e ∷ es) newtab =
      move_bucket new_size es
        (set newtab (home new_size e.key) (e ∷ bucket_of newtab new_size e.key))

  pub move_all : ℕ → List (Bucket V) → List (Bucket V) → List (Bucket V)
  unfolding move_bucket
  move_all new_size [] newtab = newtab
  move_all new_size (b ∷ bs) newtab = move_all new_size bs (move_bucket new_size b newtab)

  -- The test before a rehash. Both sides are computed in 64 bits.
  pub needs_resize : PtrTable V → Bool
  needs_resize t = leb (t.occupancy * max_occ_numer % 2 ^ 64) (t.size * max_occ_denom % 2 ^ 64)

  -- The rehash reads the next size from the array of sizes, which has an end.
  pub resize : PtrTable V → Run (PtrTable V)
  unfolding move_all
  resize t = elim (get_elem? ptr_table_sizes (t.size_index + 1)) [
    | none ↦ fault out_of_bounds
    | some new_size ↦ ok (record t {
      size = new_size;
      size_index = t.size_index + 1;
      table = move_all new_size t.table (replicate new_size []);
    })
  ]

  -- The first part of `dbcc_ptr_table_force`: allocate, or rehash, or neither.
  pub prepare : PtrTable V → Run (PtrTable V)
  unfolding needs_resize resize
  prepare t =
      if t.size == 0
      then ok (record { size = 7; size_index = 0; occupancy = 0; table = replicate 7 [] })
      else if needs_resize t
      then resize t
      else ok t

  -- The second part: find the entry, or push a new one with a NULL value. The flag is
  -- `*created_opt_out`.
  pub enter : PtrTable V → ℕ → Bool × PtrTable V
  enter t key =
      let b = bucket_of t.table t.size key in
      elim (find key b) [
        | some _ ↦ (false, t)
        | none ↦ (
          true,
          record t {
            occupancy = t.occupancy + 1;
            table = set t.table (home t.size key) (record { key = key; value = none } ∷ b);
          },
        )
      ]

  pub force : PtrTable V → ℕ → Run (Bool × PtrTable V)
  unfolding prepare enter
  force t key = do u ← prepare t; ok (enter u key)

  -- `e->value = value`, through the entry that `force` returned.
  pub write : PtrTable V → ℕ → Option V → PtrTable V
  write t key value = record t {
    table = set t.table (home t.size key) (assign key value (bucket_of t.table t.size key));
  }

  pub set_value : PtrTable V → ℕ → Option V → Run (PtrTable V)
  unfolding force write
  set_value t key value = do (_, u) ← force t key; ok (write u key value)

  -- The entries in the order in which `dbcc_ptr_table_foreach` visits them.
  pub foreach : List (Bucket V) → List (Entry V)
  foreach [] = []
  foreach (b ∷ bs) = b ++ foreach bs
