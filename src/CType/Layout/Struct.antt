-- ===== src/CType/Layout/Struct.antt =====
-- The layout of structs by `init_type_struct_members` (dbcc-type.c).
use dbcc.Base.{
  ℕ, ◌+◌, ◌*◌, ◌%◌, ◌^◌, ◌≤◌, ◌≡◌, refl, ap, arith, ◌⊎◌, inl, inr, List, [], ◌∷◌, map, ltb,
  Bool-cases,
}
use dbcc.CType.{Symbol, CType, Members, no_members, member, sizeof, alignof}
use dbcc.CType.Layout.Align.{IsAlign, IsAlign-mod, align_up_lem}
use dbcc.CType.Layout.{
  Param, size_mod, align_up, Layout, raise_to, place_members, init_type_struct_members,
}
use dbcc.Target.{TargetEnvironment}

-- Every member's type has a power of two for its alignment.
abbrev pub AllAligned : List Param → Type 0
AllAligned [] = Unit
AllAligned (p ∷ ps) = IsAlign (alignof p.type) × AllAligned ps

-- A bound on the bytes that the members can take with the gaps between them.
abbrev pub extent : List Param → ℕ
extent [] = 0
extent (p ∷ ps) = sizeof p.type + 2 * alignof p.type + extent ps

-- From `lo` on the members stand one after the other, each on a multiple of its alignment, and
-- the last one ends at `hi` at most.
abbrev pub LaidOut : ℕ → Members → ℕ → Type 0
LaidOut lo no_members hi = lo ≤ hi
LaidOut lo (member t name offset ms) hi =
    (lo ≤ offset) × (offset % alignof t ≡ 0) × LaidOut (offset + sizeof t) ms hi

-- Every member's alignment divides `a`.
abbrev pub AlignsTo : ℕ → Members → Type 0
AlignsTo a no_members = Unit
AlignsTo a (member t name offset ms) = (a % alignof t ≡ 0) × AlignsTo a ms

-- The types and names of the members, in order.
abbrev pub declared : Members → List (CType × Symbol)
declared no_members = []
declared (member t name offset ms) = (t, name) ∷ declared ms

record Places (ps : List Param) (cur align : ℕ) (r : Members × ℕ × ℕ) : Type 0 where
  apart : LaidOut cur r.0 r.1
  divides : AlignsTo r.2 r.0
  aligned : IsAlign r.2
  grows : align ≤ r.2
  bounded : r.1 + r.2 ≤ cur + align + extent ps
  same : declared r.0 ≡ map (λ (p : Param). (p.type, p.name)) ps

pub raise_to-IsAlign : (a b : ℕ) → IsAlign a → IsAlign b → IsAlign (raise_to a b)
raise_to-IsAlign a b ha hb = elim (Bool-cases (ltb a b)) [ inl e ↦ rw e hb | inr e ↦ rw e ha ]

place_members-Places :
    (ps : List Param) (cur align : ℕ)
    → AllAligned ps
    → IsAlign align
    → cur + align + extent ps ≤ 2 ^ 63
    → Places ps cur align (place_members ps cur align)
unfolding place_members
place_members-Places [] cur align all h fits = record {
  apart = omega arith;
  divides = tt;
  aligned = h;
  grows = omega arith;
  bounded = omega arith;
  same = refl;
}
place_members-Places (p ∷ ps) cur align (hp, all) h fits =
    let a = alignof p.type in
    let up = align_up_lem cur a hp (omega arith) in
    let offset = align_up cur a in
    let wrap : (offset + sizeof p.type) % size_mod ≡ offset + sizeof p.type = omega (arith, up) in
    let next = place_members ps (offset + sizeof p.type) (raise_to align a) in
    let r =
      place_members-Places ps (offset + sizeof p.type) (raise_to align a) all
        (raise_to-IsAlign align a h hp) (ground (arith, up)) in
    rw wrap (record {
      apart = (up.0, up.2, r.apart);
      divides = (IsAlign-mod a (next.2) hp r.aligned (ground (arith, r.grows)), r.divides);
      aligned = r.aligned;
      grows = ground (arith, r.grows);
      bounded = ground (arith, r.bounded, up);
      same = ap (λ l. (p.type, p.name) ∷ l) r.same;
    })

LaidOut-le : (ms : Members) (lo hi hi' : ℕ) → hi ≤ hi' → LaidOut lo ms hi → LaidOut lo ms hi'
LaidOut-le no_members lo hi hi' h l = omega arith
LaidOut-le (member t name offset ms) lo hi hi' h l =
    (l.0, l.1, LaidOut-le ms (offset + sizeof t) hi hi' h l.2)

-- What is promised of a struct's layout.
pub record StructLayout (env : TargetEnvironment) (ps : List Param) (l : Layout) : Type 0 where
  pub apart : LaidOut 0 l.members l.sizeof_instance
  pub divides : AlignsTo l.alignof_instance l.members
  pub aligned : IsAlign l.alignof_instance
  pub whole :
      (l.sizeof_instance % l.alignof_instance ≡ 0) ⊎ (l.sizeof_instance ≡ env.min_struct_sizeof)
  pub big : env.min_struct_sizeof ≤ l.sizeof_instance
  pub same : declared l.members ≡ map (λ (p : Param). (p.type, p.name)) ps

-- If the alignments of the members and the target's least alignment of a struct are powers of two
-- that `size_t` holds, and that least alignment, the members' sizes and twice their alignments sum
-- to at most 2^63, then `init_type_struct_members` keeps the types and names in order, places each
-- member at a multiple of its alignment after the end of the one before, and gives the struct a
-- power of two for its alignment, which every member's divides, and a size that holds all members,
-- is at least the target's least size, and is a multiple of the alignment or that least size.
pub init_type_struct_members_lem :
    (env : TargetEnvironment) (ps : List Param)
    → AllAligned ps
    → IsAlign env.min_struct_alignof
    → env.min_struct_alignof + extent ps ≤ 2 ^ 63
    → StructLayout env ps (init_type_struct_members env ps)
unfolding init_type_struct_members
init_type_struct_members_lem env ps all h fits =
    let r = place_members ps 0 env.min_struct_alignof in
    let p = place_members-Places ps 0 env.min_struct_alignof all h (omega arith) in
    let up = align_up_lem r.1 r.2 p.aligned (omega (arith, p.bounded)) in
    let size = raise_to (align_up r.1 r.2) env.min_struct_sizeof in
    record {
      apart = LaidOut-le r.0 0 r.1 size (ground (arith, up)) p.apart;
      divides = p.divides;
      aligned = p.aligned;
      whole = elim (Bool-cases (ltb (align_up r.1 r.2) env.min_struct_sizeof)) [
        | inl e ↦ inr (rw e refl)
        | inr e ↦ inl (rw e up.2)
      ];
      big = ground (arith, up);
      same = p.same;
    }
