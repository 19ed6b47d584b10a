-- ===== src/Construct/Duplicates.antt =====
-- The check of neighbours of `get_members_by_sym` (dbcc-type.c), and its comparison.
use dbcc.Base.{
  ℕ, ◌≤◌, ◌<◌, ◌≡◌, ◌⊎◌, inl, inr, refl, arith, false, List, [], ◌∷◌, get_or, ltb, pos_part,
  Bool-cases,
}
use dbcc.CType.{Symbol}
use dbcc.Construct.{comp_by_symbol, has_duplicates}

-- The comparison by which `get_members_by_sym` sorts never says that its first argument is the
-- larger one.
pub comp_by_symbol-pos_part :
    (names : List Symbol) (a b : ℕ) → pos_part (comp_by_symbol names a b) ≡ 0
unfolding comp_by_symbol
comp_by_symbol-pos_part names a b = elim (Bool-cases (ltb (get_or names a 0) (get_or names b 0))) [
  | inl e ↦ rw e refl
  | inr e ↦ rw e refl
]

-- The symbols do not decrease along the index.
abbrev pub Sorted : List Symbol → List ℕ → Type 0
Sorted names [] = Unit
Sorted names (i ∷ []) = Unit
Sorted names (i ∷ j ∷ rest) = (get_or names i 0 ≤ get_or names j 0) × Sorted names (j ∷ rest)

-- The symbol `s`, unless it is NULL, is below those of the index.
abbrev pub Above : List Symbol → Symbol → List ℕ → Type 0
Above names s [] = Unit
Above names s (i ∷ rest) = ((s ≡ 0) ⊎ (s < get_or names i 0)) × Above names s rest

-- No symbol but NULL stands twice.
abbrev pub Distinct : List Symbol → List ℕ → Type 0
Distinct names [] = Unit
Distinct names (i ∷ rest) = Above names (get_or names i 0) rest × Distinct names rest

Above-le :
    (names : List Symbol) (s t : Symbol) (l : List ℕ)
    → ((s ≡ 0) ⊎ (0 < t))
    → s ≤ t
    → Above names t l
    → Above names s l
Above-le names s t [] z h a = tt
Above-le names s t (i ∷ rest) z h (inl e, a) =
    (inl (omega (arith, z)), Above-le names s t rest z h a)
Above-le names s t (i ∷ rest) z h (inr l, a) = (inr (omega arith), Above-le names s t rest z h a)

-- If an index lists the members in ascending order of their names and the check of neighbours in
-- `get_members_by_sym` finds no duplicate, the names other than NULL are distinct.
pub has_duplicates-Distinct :
    (names : List Symbol) (index : List ℕ)
    → Sorted names index
    → has_duplicates names index ≡ false
    → Distinct names index
unfolding has_duplicates
has_duplicates-Distinct names [] s h = tt
has_duplicates-Distinct names (i ∷ []) s h = (tt, tt)
has_duplicates-Distinct names (i ∷ j ∷ rest) (le, s) h =
    let d = has_duplicates-Distinct names (j ∷ rest) s (ground arith) in
    let first : (get_or names i 0 ≡ 0) ⊎ (get_or names i 0 < get_or names j 0) = ground arith in
    (
      (
        first,
        Above-le names (get_or names i 0) (get_or names j 0) rest (omega (arith, first)) le d.0,
      ),
      d,
    )
