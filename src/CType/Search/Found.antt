-- ===== src/CType/Search/Found.antt =====
-- The searches of dbcc-type.c for a symbol in a sorted index.
use dbcc.Base.{
  ℕ, zero, suc, ◌+◌, ◌-◌, ◌/◌, ◌≤◌, ◌<◌, ◌≡◌, ◌⊎◌, inl, inr, refl, arith, Bool, Option, none, some,
  List, ltb, ◌==◌, length, get_elem?, Run, ok, Bool-cases, Option-cases,
}
use dbcc.CType.Search.{entry, search, names, find_symbol, struct_lookup_member, union_lookup_branch}
use dbcc.CType.{Symbol, TypeBase, Members, struct_type, union_type}

-- Every entry of the index is in bounds, their symbols do not decrease, and every symbol has an
-- entry.
pub record IsIndex (sorted : List ℕ) (keys : List Symbol) : Type 0 where
  pub bounded :
      (p : ℕ) → p < length keys → (i : ℕ) × (k : Symbol) × (entry sorted keys p ≡ some (i, k))
  pub ordered :
      (p q i j : ℕ) (k l : Symbol)
      → p ≤ q
      → entry sorted keys p ≡ some (i, k)
      → entry sorted keys q ≡ some (j, l)
      → k ≤ l
  pub complete :
      (i : ℕ) (k : Symbol)
      → get_elem? keys i ≡ some k
      → (p : ℕ) × (p < length keys) × (entry sorted keys p ≡ some (i, k))

-- Either a place from `start` on, `n` long, has the symbol, and its number is the result, or none
-- has it.
abbrev pub Answer : List ℕ → List Symbol → Symbol → ℕ → ℕ → Run (Option ℕ) → Type 0
Answer sorted keys name start n r =
    ((i : ℕ) × (r ≡ ok (some i))
      × ((p : ℕ) × (start ≤ p) × (p < start + n) × (entry sorted keys p ≡ some (i, name))))
    ⊎ ((r ≡ ok none)
        × ((p i : ℕ) → start ≤ p → p < start + n → entry sorted keys p ≡ some (i, name) → ⊥))

-- A smaller symbol stands at a smaller place.
before :
    {sorted : List ℕ} {keys : List Symbol} {p q i j : ℕ} {k l : Symbol}
    → IsIndex sorted keys
    → entry sorted keys p ≡ some (i, k)
    → entry sorted keys q ≡ some (j, l)
    → l < k
    → q < p
before {p} {q} {i} {j} {k} {l} h ep eq less = elim (Bool-cases (ltb q p)) [
  | inl e ↦ ground arith
  | inr e ↦ let le : k ≤ l = h.ordered p q i j k l (ground arith) ep eq in absurd (omega arith)
]

-- The places that have the symbol are in a part of the range.
extend :
    (sorted : List ℕ) (keys : List Symbol) (name : Symbol) (start n start' n' : ℕ)
    (r : Run (Option ℕ))
    → start ≤ start'
    → start' + n' ≤ start + n
    → ((p i : ℕ)
        → start ≤ p
        → p < start + n
        → entry sorted keys p ≡ some (i, name)
        → (start' ≤ p) × (p < start' + n'))
    → Answer sorted keys name start' n' r
    → Answer sorted keys name start n r
extend sorted keys name start n start' n' r lo hi inside (inl (i, e, (p, a, b, at))) =
    inl (i, e, (p, omega arith, omega arith, at))
extend sorted keys name start n start' n' r lo hi inside (inr (e, f)) =
    inr (e, λ p i a b at. let q = inside p i a b at in f p i q.0 q.1 at)

search-Answer :
    (sorted : List ℕ) (keys : List Symbol) (name : Symbol) (fuel start n : ℕ)
    → IsIndex sorted keys
    → start + n ≤ length keys
    → n ≤ fuel
    → Answer sorted keys name start n (search ltb sorted keys name fuel start n)
unfolding search
search-Answer sorted keys name zero start n h room enough = inr (refl, λ p i lo hi e. omega arith)
search-Answer sorted keys name (suc fuel) start n h room enough = elim (Bool-cases (n == 0)) [
  | inl e ↦ rw e (inr (refl, λ p i lo hi eq. ground arith))
  | inr e ↦
      let mid = start + n / 2 in
      let (i, k, at) = h.bounded mid (ground arith) in
      elim (Bool-cases (ltb name k)) [
        | inl l ↦
            rw (e, at, l)
              (extend sorted keys name start n start (n / 2)
                (search ltb sorted keys name fuel start (n / 2)) (omega arith) (omega arith)
                (λ p j lo hi eq. (lo, before h at eq (ground arith)))
                (search-Answer sorted keys name fuel start (n / 2) h (omega arith) (ground arith)))
        | inr l ↦ elim (Bool-cases (ltb k name)) [
          | inl g ↦
              rw (e, at, l, g)
                (extend sorted keys name start n (mid + 1) (start + n - (mid + 1))
                  (search ltb sorted keys name fuel (mid + 1) (start + n - (mid + 1))) (omega arith)
                  (ground arith)
                  (λ p j lo hi eq. (
                    omega (arith, before h eq at (ground arith)),
                    omega (arith, before h eq at (ground arith)),
                  ))
                  (search-Answer sorted keys name fuel (mid + 1) (start + n - (mid + 1)) h
                    (ground arith) (ground arith)))
          | inr g ↦
              let same : k ≡ name = ground arith in
              rw (e, at, l, g) (inl (i, refl, (mid, omega arith, ground arith, rw same at at)))
        ]
      ]
]

entry-key :
    (sorted : List ℕ) (keys : List Symbol) (p i : ℕ) (k : Symbol)
    → entry sorted keys p ≡ some (i, k)
    → get_elem? keys i ≡ some k
entry-key sorted keys p i k e = elim (Option-cases (get_elem? sorted p)) [
  | inl n ↦ ground arith
  | inr (j, at) ↦ elim (Option-cases (get_elem? keys j)) [
    | inl n ↦ ground arith
    | inr (l, at') ↦ ground arith
  ]
]

-- What a search must answer: a place of the symbol, or NULL if it has none.
abbrev pub Located : List Symbol → Symbol → Run (Option ℕ) → Type 0
Located keys name r =
    ((i : ℕ) × (r ≡ ok (some i)) × (get_elem? keys i ≡ some name))
    ⊎ ((r ≡ ok none) × ((i : ℕ) → get_elem? keys i ≡ some name → ⊥))

find_symbol-Located :
    (sorted : List ℕ) (keys : List Symbol) (name : Symbol)
    → IsIndex sorted keys
    → Located keys name (find_symbol sorted keys name)
find_symbol-Located sorted keys name h =
    elim (search-Answer sorted keys name (length keys) 0 (length keys) h (omega arith)
      (omega arith)) [
        | inl (i, e, (p, lo, hi, at)) ↦ inl (i, e, entry-key sorted keys p i name at)
        | inr (e, f) ↦ inr (
          e,
          λ i at. let (p, lt, q) = h.complete i name at in f p i (omega arith) (omega arith) q,
        )
      ]

-- If the struct's index lists its members in ascending order of their names,
-- `dbcc_type_struct_lookup_member` finds a member with the name if there is one, and NULL if not.
pub struct_lookup_member_lem :
    (b : TypeBase) (tag : Symbol) (ms : Members) (sorted : List ℕ) (incomplete : Bool)
    (name : Symbol)
    → IsIndex sorted (names ms)
    → Located (names ms) name (struct_lookup_member (struct_type b tag ms sorted incomplete) name)
unfolding struct_lookup_member
struct_lookup_member_lem b tag ms sorted incomplete name h =
    find_symbol-Located sorted (names ms) name h

-- If the union's index lists its branches in ascending order of their names,
-- `dbcc_type_union_lookup_branch` finds a branch with the name if there is one, and NULL if not.
pub union_lookup_branch_lem :
    (b : TypeBase) (tag : Symbol) (ms : Members) (sorted : List ℕ) (incomplete : Bool)
    (name : Symbol)
    → IsIndex sorted (names ms)
    → Located (names ms) name (union_lookup_branch (union_type b tag ms sorted incomplete) name)
unfolding union_lookup_branch
union_lookup_branch_lem b tag ms sorted incomplete name h =
    find_symbol-Located sorted (names ms) name h
