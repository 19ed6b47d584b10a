-- ===== src/CType/Layout/Union.antt =====
-- The layout of unions by `init_type_union_branches` (dbcc-type.c).
use dbcc.Base.{ℕ, ◌+◌, ◌%◌, ◌^◌, ◌≤◌, ◌≡◌, refl, ap, arith, List, [], ◌∷◌, map}
use dbcc.CType.{Members, no_members, member, sizeof, alignof}
use dbcc.CType.Layout.Align.{IsAlign, IsAlign-mod, align_up_lem}
use dbcc.CType.Layout.Struct.{AllAligned, extent, AlignsTo, declared, raise_to-IsAlign}
use dbcc.CType.Layout.{Param, align_up, Layout, raise_to, place_branches, init_type_union_branches}
use dbcc.Target.{TargetEnvironment}

-- Every branch stands at 0 and ends at `hi` at most.
abbrev pub Overlaid : Members → ℕ → Type 0
Overlaid no_members hi = Unit
Overlaid (member t name offset ms) hi = (offset ≡ 0) × (sizeof t ≤ hi) × Overlaid ms hi

Overlaid-le : (ms : Members) (hi hi' : ℕ) → hi ≤ hi' → Overlaid ms hi → Overlaid ms hi'
Overlaid-le no_members hi hi' h o = tt
Overlaid-le (member t name offset ms) hi hi' h o =
    (o.0, omega (arith, o.1), Overlaid-le ms hi hi' h o.2)

record Places (ps : List Param) (size align : ℕ) (r : Members × ℕ × ℕ) : Type 0 where
  over : Overlaid r.0 r.1
  divides : AlignsTo r.2 r.0
  aligned : IsAlign r.2
  larger : size ≤ r.1
  grows : align ≤ r.2
  bounded : r.1 + r.2 ≤ size + align + extent ps
  same : declared r.0 ≡ map (λ (p : Param). (p.type, p.name)) ps

place_branches-Places :
    (ps : List Param) (size align : ℕ)
    → AllAligned ps
    → IsAlign align
    → Places ps size align (place_branches ps size align)
unfolding place_branches
place_branches-Places [] size align all h = record {
  over = tt;
  divides = tt;
  aligned = h;
  larger = omega arith;
  grows = omega arith;
  bounded = omega arith;
  same = refl;
}
place_branches-Places (p ∷ ps) size align (hp, all) h =
    let a = alignof p.type in
    let r =
      place_branches-Places ps (raise_to size (sizeof p.type)) (raise_to align a) all
        (raise_to-IsAlign align a h hp) in
    let next = place_branches ps (raise_to size (sizeof p.type)) (raise_to align a) in
    record {
      over = (refl, ground (arith, r.larger), r.over);
      divides = (IsAlign-mod a next.2 hp r.aligned (ground (arith, r.grows)), r.divides);
      aligned = r.aligned;
      larger = ground (arith, r.larger);
      grows = ground (arith, r.grows);
      bounded = ground (arith, r.bounded);
      same = ap (λ l. (p.type, p.name) ∷ l) r.same;
    }

-- What is promised of a union's layout.
pub record UnionLayout (env : TargetEnvironment) (ps : List Param) (l : Layout) : Type 0 where
  pub over : Overlaid l.members l.sizeof_instance
  pub divides : AlignsTo l.alignof_instance l.members
  pub aligned : IsAlign l.alignof_instance
  pub whole : l.sizeof_instance % l.alignof_instance ≡ 0
  pub big : env.min_struct_sizeof ≤ l.sizeof_instance
  pub same : declared l.members ≡ map (λ (p : Param). (p.type, p.name)) ps

-- If the alignments of the branches and the target's least alignment of a struct are powers of two
-- that `size_t` holds, and the target's least size and alignment, the branches' sizes and twice
-- their alignments sum to at most 2^63, then `init_type_union_branches` keeps the types and names
-- in order, places every branch at 0, and gives the union a power of two for its alignment, which
-- every branch's divides, and a size that holds every branch, is at least the least size, and is a
-- multiple of the alignment.
pub init_type_union_branches_lem :
    (env : TargetEnvironment) (ps : List Param)
    → AllAligned ps
    → IsAlign env.min_struct_alignof
    → env.min_struct_sizeof + env.min_struct_alignof + extent ps ≤ 2 ^ 63
    → UnionLayout env ps (init_type_union_branches env ps)
unfolding init_type_union_branches
init_type_union_branches_lem env ps all h fits =
    let r = place_branches ps env.min_struct_sizeof env.min_struct_alignof in
    let p = place_branches-Places ps env.min_struct_sizeof env.min_struct_alignof all h in
    let up = align_up_lem r.1 r.2 p.aligned (omega (arith, p.bounded)) in
    record {
      over = Overlaid-le r.0 r.1 (align_up r.1 r.2) up.0 p.over;
      divides = p.divides;
      aligned = p.aligned;
      whole = up.2;
      big = omega (arith, up, p.larger);
      same = p.same;
    }
