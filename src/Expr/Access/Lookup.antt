-- ===== src/Expr/Access/Lookup.antt =====
-- `dbcc_expr_new_access` (dbcc-expr.c) on structs and unions.
use dbcc.Base.{
  ℕ, zero, suc, ◌≡◌, refl, Bool, true, false, ◌⊎◌, inl, inr, Option, some, List, get_elem?, Run, ok,
  err, ◌>>=◌,
}
use dbcc.CType.Query.{dequalify, is_pointer}
use dbcc.CType.Search.Found.{IsIndex, Located, struct_lookup_member_lem, union_lookup_branch_lem}
use dbcc.CType.Search.{names}
use dbcc.CType.{CType, Members, no_members, member, Symbol, TypeBase, struct_type, union_type}
use dbcc.Error.{member_access_incomplete_type, unknown_member_access}
use dbcc.Expr.Access.{
  Access, member_type, found_member, object_type, access_member, expr_new_access,
}
use dbcc.Expr.Operands.{pointed_at}
use dbcc.Expr.{Operand}

abbrev pub aggregate : Bool → TypeBase → Symbol → Members → List ℕ → Bool → CType
aggregate false b tag ms sorted incomplete = struct_type b tag ms sorted incomplete
aggregate true b tag ms sorted incomplete = union_type b tag ms sorted incomplete

-- A member of the name, with its type, or the error if there is none.
abbrev pub Finds : Members → Bool → Symbol → Run Access → Type 0
Finds ms is_union name run =
    ((i : ℕ) × (t : CType) × (run
        ≡ ok (record { value_type = t; sub_info = i; is_union = is_union }))
      × (get_elem? (names ms) i ≡ some name)
      × (member_type ms i ≡ ok t))
    ⊎ ((run ≡ err unknown_member_access) × ((i : ℕ) → get_elem? (names ms) i ≡ some name → ⊥))

abbrev pub AccessOutcome : Bool → Members → Bool → Symbol → Run Access → Type 0
AccessOutcome true ms is_union name run = run ≡ err member_access_incomplete_type
AccessOutcome false ms is_union name run = Finds ms is_union name run

member_type-Returns :
    (ms : Members) (i : ℕ) (name : Symbol)
    → get_elem? (names ms) i ≡ some name
    → (t : CType) × (member_type ms i ≡ ok t)
unfolding member_type
member_type-Returns no_members i name h = absurd (cc)
member_type-Returns (member t n offset ms) zero name h = (t, refl)
member_type-Returns (member t n offset ms) (suc i) name h = member_type-Returns ms i name h

Located-Finds :
    (ms : Members) (is_union : Bool) (name : Symbol) (run : Run (Option ℕ))
    → Located (names ms) name run
    → Finds ms is_union name (run >>= λ m. found_member ms is_union m)
unfolding found_member
Located-Finds ms is_union name run (inl (i, e, at)) =
    let (t, typed) = member_type-Returns ms i name at in inl (i, t, rw (e, typed) refl, at, typed)
Located-Finds ms is_union name run (inr (e, f)) = inr (rw e refl, f)

access_member_lem :
    (is_union incomplete : Bool) (b : TypeBase) (tag : Symbol) (ms : Members) (sorted : List ℕ)
    (name : Symbol)
    → IsIndex sorted (names ms)
    → AccessOutcome incomplete ms is_union name
        (access_member (aggregate is_union b tag ms sorted incomplete) name)
unfolding access_member
access_member_lem false true b tag ms sorted name h = refl
access_member_lem true true b tag ms sorted name h = refl
access_member_lem false false b tag ms sorted name h =
    Located-Finds ms false name _ (struct_lookup_member_lem b tag ms sorted false name h)
access_member_lem true false b tag ms sorted name h =
    Located-Finds ms true name _ (union_lookup_branch_lem b tag ms sorted false name h)

-- The operand is an object of the type, or a pointer to one, under qualifiers and typedefs.
abbrev pub Denotes : Bool → CType → CType → Type 0
Denotes false type u = dequalify type ≡ u
Denotes true type u =
    (is_pointer (dequalify type) ≡ true)
    × ((p : CType) × (pointed_at (dequalify type) ≡ ok p) × (dequalify p ≡ u))

object_type_lem :
    (by_pointer : Bool) (type u : CType)
    → Denotes by_pointer type u
    → object_type by_pointer type ≡ ok u
unfolding object_type
object_type_lem false type u h = rw h refl
object_type_lem true type u (pointer, (p, target, plain)) = rw (pointer, target, plain) refl

-- For an object of a struct or union type, or with `->` a pointer to one, under qualifiers and
-- typedefs, whose index lists the names in ascending order, `dbcc_expr_new_access` reports an
-- incomplete type; for a complete one it gives the type and the number of a member with the name,
-- and reports an unknown member if there is none.
pub expr_new_access_lem :
    (by_pointer : Bool) (e : Operand) (name : Symbol) (is_union incomplete : Bool) (b : TypeBase)
    (tag : Symbol) (ms : Members) (sorted : List ℕ)
    → Denotes by_pointer e.value_type (aggregate is_union b tag ms sorted incomplete)
    → IsIndex sorted (names ms)
    → AccessOutcome incomplete ms is_union name (expr_new_access by_pointer e name)
unfolding expr_new_access
expr_new_access_lem by_pointer e name is_union incomplete b tag ms sorted h index =
    rw (object_type_lem by_pointer e.value_type (aggregate is_union b tag ms sorted incomplete) h)
      (access_member_lem is_union incomplete b tag ms sorted name index)
