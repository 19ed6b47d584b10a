-- ===== src/Construct/Qualify.antt =====
-- `dbcc_type_new_qualified` (dbcc-type.c) on the qualifiers that a type has already.
use Prim.Native.Nat.{bit_or}
use dbcc.Base.{
  ℕ, ◌≡◌, ◌≢◌, ◌⊎◌, inl, inr, refl, arith, true, false, ◌&&◌, some, none, ◌==◌, ==→eq, sym, ◌∙◌,
  if◌then◌else◌, Run, ok, err, Bool-cases,
}
use dbcc.CType.Query.{dequalify, get_qualifiers, has_flag, qualifier_restrict, qualifier_atomic}
use dbcc.CType.{
  CType, TypeBase, qualified_type, void_type, bool_type, int_type, float_type, array_type,
  variable_length_array_type, struct_type, union_type, enum_type, pointer_type, typedef_type,
  function_type, kr_function_type, sizeof,
}
use dbcc.Construct.{
  type_new_qualified, qualify, split_qualified, new_base, is_pointer_type, is_array_or_function,
}
use dbcc.Error.{bad_restricted_type, bad_atomic_type}

-- The qualifiers of the type with the new ones, and the type below its qualifiers.
abbrev pub merged : CType → ℕ → ℕ
merged t q = elim (split_qualified t) [ some (old_q, u) ↦ bit_or old_q q | none ↦ q ]

abbrev pub below : CType → CType
below t = elim (split_qualified t) [ some (old_q, u) ↦ u | none ↦ t ]

abbrev pub MayRestrict : ℕ → CType → Type 0
MayRestrict q low = (has_flag q qualifier_restrict ≡ false) ⊎ (is_pointer_type low ≡ true)

abbrev pub MayBeAtomic : ℕ → CType → Type 0
MayBeAtomic q low = (has_flag q qualifier_atomic ≡ false) ⊎ (is_array_or_function low ≡ false)

-- The type `t` with the qualifiers `q`, the type below its own being `low`, or one of the errors.
pub data Qualified (t : CType) (q : ℕ) (low : CType) : Run CType → Type 0 where
  nothing_new : get_qualifiers t ≡ q → Qualified t q low (ok t)
  qualified :
      (u : CType)
      → get_qualifiers t ≢ q
      → MayRestrict q low
      → MayBeAtomic q low
      → dequalify u ≡ dequalify t
      → get_qualifiers u ≡ q
      → Qualified t q low (ok u)
  restrict_refused :
      get_qualifiers t ≢ q
      → has_flag q qualifier_restrict ≡ true
      → is_pointer_type low ≡ false
      → Qualified t q low (err bad_restricted_type)
  atomic_refused :
      get_qualifiers t ≢ q
      → MayRestrict q low
      → has_flag q qualifier_atomic ≡ true
      → is_array_or_function low ≡ true
      → Qualified t q low (err bad_atomic_type)

-- The part after the test for `restrict`.
check_atomic :
    (addr : ℕ) (t low : CType) (q : ℕ)
    → get_qualifiers t ≢ q
    → dequalify low ≡ dequalify t
    → MayRestrict q low
    → Qualified t q low (
        if has_flag q qualifier_atomic && is_array_or_function low
        then err bad_atomic_type
        else ok (qualified_type (new_base addr (sizeof low)) low q))
unfolding dequalify get_qualifiers
check_atomic addr t low q new e may = elim (Bool-cases (has_flag q qualifier_atomic)) [
  | inr no_atomic ↦ rw no_atomic (qualified _ new may (inl no_atomic) e refl)
  | inl atomic ↦ elim (Bool-cases (is_array_or_function low)) [
    | inl array ↦ rw (atomic, array) (atomic_refused new may atomic array)
    | inr other ↦ rw (atomic, other) (qualified _ new may (inr other) e refl)
  ]
]

qualify-Qualified :
    (addr : ℕ) (t low : CType) (q : ℕ)
    → get_qualifiers t ≢ q
    → dequalify low ≡ dequalify t
    → Qualified t q low (qualify addr low q)
unfolding qualify dequalify get_qualifiers
qualify-Qualified addr t low q new e = elim (Bool-cases (has_flag q qualifier_restrict)) [
  | inr no_restrict ↦ rw no_restrict (check_atomic addr t low q new e (inl no_restrict))
  | inl restrict ↦ elim (Bool-cases (is_pointer_type low)) [
    | inl pointer ↦ rw (restrict, pointer) (check_atomic addr t low q new e (inr pointer))
    | inr other ↦ rw (restrict, other) (restrict_refused new restrict other)
  ]
]

==-false : (a b : ℕ) → (a == b) ≡ false → a ≢ b
==-false a b h e = ground arith

nonzero : (q : ℕ) → q ≢ 0 → (q == 0) ≡ false
nonzero q h = elim (Bool-cases (q == 0)) [ inl e ↦ absurd (h (==→eq q 0 e)) | inr e ↦ e ]

-- A type that is not qualified.
plain :
    (addr : ℕ) (t : CType) (q : ℕ)
    → q ≢ 0
    → split_qualified t ≡ none
    → get_qualifiers t ≡ 0
    → Qualified t q t (type_new_qualified addr t q)
unfolding type_new_qualified
plain addr t q h e none_yet =
    rw (nonzero q h, type_new_qualified, e)
      (qualify-Qualified addr t t q (λ same. h (sym same ∙ none_yet)) refl)

already :
    (addr : ℕ) (b : TypeBase) (t : CType) (p q : ℕ)
    → q ≢ 0
    → Qualified
        (qualified_type b t p)
        (bit_or p q)
        t
        (type_new_qualified addr (qualified_type b t p) q)
unfolding type_new_qualified dequalify get_qualifiers
already addr b t p q h = elim (Bool-cases (p == bit_or p q)) [
  | inl e ↦ rw (nonzero q h, e) (nothing_new (==→eq p (bit_or p q) e))
  | inr e ↦
      rw (nonzero q h, e)
        (qualify-Qualified addr (qualified_type b t p) t (bit_or p q) (==-false p (bit_or p q) e)
          refl)
]

-- For qualifiers that are not empty, `dbcc_type_new_qualified` gives the type itself if it has them
-- already. Otherwise, of the old and new qualifiers together, it reports `restrict` on what is no
-- pointer, if that is not so `_Atomic` on an array or a function, and if neither is so puts them on
-- the type below the old ones.
pub type_new_qualified_lem :
    (addr : ℕ) (t : CType) (q : ℕ)
    → q ≢ 0
    → Qualified t (merged t q) (below t) (type_new_qualified addr t q)
unfolding get_qualifiers
type_new_qualified_lem addr (qualified_type b t p) q h = already addr b t p q h
type_new_qualified_lem addr (void_type b) q h = plain addr (void_type b) q h refl refl
type_new_qualified_lem addr (bool_type b) q h = plain addr (bool_type b) q h refl refl
type_new_qualified_lem addr (int_type b s) q h = plain addr (int_type b s) q h refl refl
type_new_qualified_lem addr (float_type b f c) q h = plain addr (float_type b f c) q h refl refl
type_new_qualified_lem addr (array_type b n e) q h = plain addr (array_type b n e) q h refl refl
type_new_qualified_lem addr (variable_length_array_type b e) q h =
    plain addr (variable_length_array_type b e) q h refl refl
type_new_qualified_lem addr (struct_type b t m x i) q h =
    plain addr (struct_type b t m x i) q h refl refl
type_new_qualified_lem addr (union_type b t m x i) q h =
    plain addr (union_type b t m x i) q h refl refl
type_new_qualified_lem addr (enum_type b t s v x y) q h =
    plain addr (enum_type b t s v x y) q h refl refl
type_new_qualified_lem addr (pointer_type b t) q h = plain addr (pointer_type b t) q h refl refl
type_new_qualified_lem addr (typedef_type b t) q h = plain addr (typedef_type b t) q h refl refl
type_new_qualified_lem addr (function_type b r p v) q h =
    plain addr (function_type b r p v) q h refl refl
type_new_qualified_lem addr (kr_function_type b r p) q h =
    plain addr (kr_function_type b r p) q h refl refl
