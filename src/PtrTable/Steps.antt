-- ===== src/PtrTable/Steps.antt =====
-- The well-formedness of a table (dbcc-ptr-table.c) and the parts of `dbcc_ptr_table_force`.
use dbcc.Base.{
  ℕ, ◌+◌, ◌<◌, ◌≤◌, ◌≡◌, ◌≢◌, refl, sym, ◌∙◌, ap, arith, true, false, Bool, Option, none, some, ◌⊎◌,
  inl, inr, List, [], ◌∷◌, ◌==◌, if◌then◌else◌, ==→eq, Bool-cases, Option-cases, length, get_or,
  get_elem?, set, replicate, length-replicate, Returns,
}
use dbcc.PtrTable.Chain.{
  Entry, Bucket, find, assign, count-assign, find-assign_ne, find-assign_self,
}
use dbcc.PtrTable.Buckets.{
  Placed, view, home_congr, replace-Placed, view-replace, push-Placed, view-push, view-rehash,
  empty-Placed, view-empty,
}
use dbcc.PtrTable.Entries.{
  length-foreach-set, length-assign, length-foreach-rehash, ptr_table_sizes_bounds,
  ptr_table_sizes-some,
}
use dbcc.PtrTable.{
  PtrTable, home, bucket_of, ptr_table_sizes, lookup, needs_resize, resize, prepare, enter, write,
  foreach, move_all,
}

abbrev pub is_none {ℓ} : {A : Type ℓ} → Option A → Bool
is_none none = true
is_none (some _) = false

-- The entry under a key: the one that is there, or a new one with a NULL value.
abbrev pub entry_at : {V : Type 0} → ℕ → Option (Entry V) → Entry V
entry_at k none = record { key = k; value = none }
entry_at k (some e) = e

module _ {V : Type 0} where
  -- The size is the one that the index names (a table that holds nothing yet has size 0), every
  -- key has one entry at most, on its own chain, and the entries are counted.
  pub record IsValid (t : PtrTable V) : Type 0 where
    pub sized : t.size ≢ 0 → get_elem? ptr_table_sizes t.size_index ≡ some t.size
    pub placed : Placed t.size t.table
    pub counted : t.occupancy ≡ length (foreach t.table)

  nothing_there : (q i : ℕ) (bs : List (Bucket V)) → length bs ≡ 0 → find q (get_or bs i []) ≡ none
  unfolding find
  nothing_there q i [] h = refl
  nothing_there q i (b ∷ bs) h = absurd (omega arith)

  pub lookup-view : (t : PtrTable V) (q : ℕ) → IsValid t → lookup t q ≡ view t.size t.table q
  unfolding lookup find
  lookup-view t q v = ground (arith, nothing_there q (home t.size q) t.table)

  -- What a rehash returns where a next size is left.
  pub resize_lem :
      (t : PtrTable V)
      → IsValid t
      → t.size_index + 1 < 13
      → Returns (resize t) λ u.
        IsValid u
        × (7 ≤ u.size)
        × ((q : ℕ) → lookup u q ≡ lookup t q)
        × (u.occupancy ≡ t.occupancy)
        × (u.size_index ≡ t.size_index + 1)
  unfolding resize
  resize_lem t v h =
      let (n, e) = ptr_table_sizes-some (t.size_index + 1) h in
      let pos : 7 ≤ n = (ptr_table_sizes_bounds _ n e).0 in
      let (placed, reads) = view-rehash n (omega arith) t.size t.table v.placed in
      let u : PtrTable V = record t {
        size = n;
        size_index = t.size_index + 1;
        table = move_all n t.table (replicate n []);
      } in
      let valid : IsValid u = record {
        sized = λ _. e;
        placed = placed;
        counted =
            v.counted ∙ sym (length-foreach-rehash n (omega arith) t.table (length-replicate n []));
      } in
      (
        u,
        rw (e, resize),
        (valid, pos, λ q. lookup-view u q valid ∙ reads q ∙ sym (lookup-view t q v), refl, refl),
      )

  no_entries : (bs : List (Bucket V)) → length bs ≡ 0 → length (foreach bs) ≡ 0
  unfolding foreach
  no_entries [] h = refl
  no_entries (b ∷ bs) h = absurd (omega arith)

  wide_enough : (t : PtrTable V) → IsValid t → t.size ≢ 0 → 7 ≤ t.size
  wide_enough t v h = (ptr_table_sizes_bounds t.size_index t.size (v.sized h)).0

  -- The first call allocates the smallest table.
  pub first_table :
      (t : PtrTable V)
      → IsValid t
      → t.size ≡ 0
      → let u : PtrTable V = record {
        size = 7;
        size_index = 0;
        occupancy = 0;
        table = replicate 7 [];
      } in
        IsValid u × (7 ≤ u.size) × ((q : ℕ) → lookup u q ≡ lookup t q) × (u.occupancy ≡ t.occupancy)
  first_table t v h =
      let u : PtrTable V = record {
        size = 7;
        size_index = 0;
        occupancy = 0;
        table = replicate 7 [];
      } in
      let valid : IsValid u = record {
        sized = λ _. refl;
        placed = empty-Placed 7;
        counted = unfold foreach in refl;
      } in
      (
        valid,
        omega arith,
        λ q.
            lookup-view u q valid
            ∙ view-empty 7 7 q
            ∙ sym
                (lookup-view t q v ∙ nothing_there q (home t.size q) t.table (v.placed.width ∙ h)),
        sym (v.counted ∙ no_entries t.table (v.placed.width ∙ h)),
      )

  -- `prepare` gives a table of at least 7 chains with the same entries, where it has a size left
  -- to grow to.
  pub prepare_lem :
      (t : PtrTable V)
      → IsValid t
      → (t.size ≡ 0) ⊎ (t.size_index + 1 < 13)
      → Returns (prepare t) λ u.
        IsValid u × (7 ≤ u.size) × ((q : ℕ) → lookup u q ≡ lookup t q) × (u.occupancy ≡ t.occupancy)
  unfolding prepare
  prepare_lem t v room = elim (Bool-cases (t.size == 0)) [
    | inl empty ↦ (
      record { size = 7; size_index = 0; occupancy = 0; table = replicate 7 [] },
      rw (empty, prepare),
      first_table t v (==→eq _ _ empty),
    )
    | inr full ↦ elim (Bool-cases (needs_resize t)) [
      | inl grow ↦
          let (u, run, (valid, wide, same, kept, _)) = resize_lem t v (ground arith) in
          (u, rw (full, grow, prepare) run, (valid, wide, same, kept))
      | inr keep ↦
          (t, rw (full, keep, prepare), (v, wide_enough t v (ground arith), λ q. refl, refl))
    ]
  ]

  pub record Enters (t : PtrTable V) (k : ℕ) (r : Bool × PtrTable V) : Type 0 where
    pub valid : IsValid r.1
    pub reads :
        (q : ℕ) → lookup r.1 q ≡ (if k == q then some (entry_at k (lookup t k)) else lookup t q)
    pub created : r.0 ≡ is_none (lookup t k)
    pub occupied : r.1.occupancy ≡ t.occupancy + (if r.0 then 1 else 0)
    pub same_size : r.1.size ≡ t.size
    pub same_index : r.1.size_index ≡ t.size_index

  lookup_congr : (t : PtrTable V) (k q : ℕ) → (k == q) ≡ true → lookup t k ≡ lookup t q
  lookup_congr t k q h = ap (lookup t) (==→eq k q h)

  enter-found :
      (t : PtrTable V) (k : ℕ) (e : Entry V)
      → IsValid t
      → lookup t k ≡ some e
      → Enters t k (false, t)
  enter-found t k e v found = record {
    valid = v;
    reads = λ q. ground (arith, lookup_congr t k q);
    created = rw found;
    occupied = omega arith;
    same_size = refl;
    same_index = refl;
  }

  enter-fresh :
      (t : PtrTable V) (k : ℕ)
      → IsValid t
      → 7 ≤ t.size
      → lookup t k ≡ none
      → Enters t k (
        true,
        record t {
          occupancy = t.occupancy + 1;
          table =
              set t.table
                (home t.size k)
                (record { key = k; value = none } ∷ bucket_of t.table t.size k);
        },
      )
  enter-fresh t k v wide missing =
      let e : Entry V = record { key = k; value = none } in
      let c = e ∷ bucket_of t.table t.size k in
      let fresh : view t.size t.table k ≡ none = sym (lookup-view t k v) ∙ missing in
      let u : PtrTable V = record t {
        occupancy = t.occupancy + 1;
        table = set t.table (home t.size k) c;
      } in
      let valid : IsValid u = record {
        sized = v.sized;
        placed = push-Placed t.size t.table (omega arith) v.placed e fresh;
        counted = omega (
          arith,
          v.counted,
          length-foreach-set t.table (home t.size k) c (omega (arith, v.placed.width)),
        );
      } in
      record {
        valid = valid;
        reads = λ q.
            lookup-view u q valid
            ∙ view-push t.size t.table (omega arith) v.placed e fresh q
            ∙ rw (missing, lookup-view t q v);
        created = rw missing;
        occupied = omega arith;
        same_size = refl;
        same_index = refl;
      }

  -- `enter` finds the entry of the key, or adds one, counts it and says so.
  pub enter_lem : (t : PtrTable V) (k : ℕ) → IsValid t → 7 ≤ t.size → Enters t k (enter t k)
  unfolding enter
  enter_lem t k v wide = elim (Option-cases (find k (bucket_of t.table t.size k))) [
    | inr (e, found) ↦ rw (found, enter) (enter-found t k e v (lookup-view t k v ∙ found))
    | inl fresh ↦ rw (fresh, enter) (enter-fresh t k v wide (lookup-view t k v ∙ fresh))
  ]

  -- A write through an entry that is there changes its value and nothing else.
  pub write_lem :
      (t : PtrTable V) (k : ℕ) (value : Option V) (e : Entry V)
      → IsValid t
      → 7 ≤ t.size
      → lookup t k ≡ some e
      → IsValid (write t k value)
        × ((q : ℕ)
            → lookup (write t k value) q
              ≡ (if k == q then some (record { key = k; value = value }) else lookup t q))
        × ((write t k value).occupancy ≡ t.occupancy)
  unfolding write
  write_lem t k value e v wide found =
      let b = bucket_of t.table t.size k in
      let c = assign k value b in
      let pos : 0 < t.size = omega arith in
      let valid : IsValid (write t k value) = record {
        sized = v.sized;
        placed =
            replace-Placed t.size t.table pos v.placed k c
              (λ q. rw (count-assign k q value b) (v.placed.once q (home t.size k)));
        counted = omega (
          arith,
          v.counted,
          length-assign k value b,
          length-foreach-set t.table (home t.size k) c (omega (arith, v.placed.width)),
        );
      } in
      (
        valid,
        λ q.
            lookup-view (write t k value) q valid
            ∙ view-replace t.size t.table pos v.placed k c q
            ∙ ground (
              arith,
              home_congr t.size k q,
              find-assign_ne k q value b,
              find-assign_self k value b e (sym (lookup-view t k v) ∙ found),
              lookup-view t q v,
              ==→eq k q,
            ),
        refl,
      )
