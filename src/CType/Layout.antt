-- ===== src/CType/Layout.antt =====
-- The layout of structs and unions in dbcc-type.c, and the macro `DBCC_ALIGN` of dbcc.h.
-- `size_t` has 64 bits.
pub mod Align
pub mod Struct
pub mod Union
use Prim.Native.Nat.{bit_and}
use dbcc.Base.{ℕ, ◌+◌, ◌-◌, ◌%◌, ◌^◌, List, [], ◌∷◌, ltb, if◌then◌else◌, ℤ}
use dbcc.CType.{Symbol, CType, Members, no_members, member, sizeof, alignof}
use dbcc.Target.{TargetEnvironment}

-- `DBCC_Param`
pub record Param : Type 0 where
  pub type : CType
  pub name : Symbol
  pub bit_width : ℤ

abbrev pub size_mod : ℕ
size_mod = 2 ^ 64

-- `DBCC_ALIGN(offset, align)`: a sum, a difference and a complement of `size_t`.
unfoldable pub align_up : ℕ → ℕ → ℕ
align_up offset align =
    bit_and ((offset + align + (size_mod - 1)) % size_mod)
      (size_mod - 1 - (align + (size_mod - 1)) % size_mod)

-- What `init_type_struct_members` and `init_type_union_branches` store in the type.
pub record Layout : Type 0 where
  pub members : Members
  pub sizeof_instance : ℕ
  pub alignof_instance : ℕ

-- `if (a < b) a = b`
abbrev pub raise_to : ℕ → ℕ → ℕ
raise_to a b = if ltb a b then b else a

-- The loop over the members, with `cur_offset` and `align`. It gives the members with their
-- offsets, and both variables at its end.
unfoldable pub place_members : List Param → ℕ → ℕ → Members × ℕ × ℕ
place_members [] cur_offset align = (no_members, cur_offset, align)
place_members (p ∷ ps) cur_offset align =
    let offset = align_up cur_offset (alignof p.type) in
    let (ms, end_offset, end_align) =
      place_members ps ((offset + sizeof p.type) % size_mod) (raise_to align (alignof p.type)) in
    (member p.type p.name offset ms, end_offset, end_align)

unfoldable pub init_type_struct_members : TargetEnvironment → List Param → Layout
unfolding place_members align_up
init_type_struct_members env ps =
    let (ms, cur_offset, align) = place_members ps 0 env.min_struct_alignof in
    record {
      members = ms;
      sizeof_instance = raise_to (align_up cur_offset align) env.min_struct_sizeof;
      alignof_instance = align;
    }

-- The loop over the branches, with `max_size` and `align`.
unfoldable pub place_branches : List Param → ℕ → ℕ → Members × ℕ × ℕ
place_branches [] max_size align = (no_members, max_size, align)
place_branches (p ∷ ps) max_size align =
    let (ms, end_size, end_align) =
      place_branches ps (raise_to max_size (sizeof p.type)) (raise_to align (alignof p.type)) in
    (member p.type p.name 0 ms, end_size, end_align)

unfoldable pub init_type_union_branches : TargetEnvironment → List Param → Layout
unfolding place_branches align_up
init_type_union_branches env ps =
    let (ms, max_size, align) = place_branches ps env.min_struct_sizeof env.min_struct_alignof in
    record { members = ms; sizeof_instance = align_up max_size align; alignof_instance = align }
