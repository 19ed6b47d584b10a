-- ===== src/Construct/Pointers.antt =====
-- The layout of members whose type has no alignment, such as pointers and arrays (dbcc-type.c).
use dbcc.Base.{ℕ, ◌+◌, ◌%◌, ◌≡◌, refl, some, List, [], ◌∷◌, ◌++◌, length, get_elem?}
use dbcc.CType.Layout.Align.{align_up-zero}
use dbcc.CType.Layout.{Param, size_mod, align_up, raise_to, place_members, init_type_struct_members}
use dbcc.CType.{CType, Members, no_members, member, sizeof, alignof}
use dbcc.Construct.{type_new_pointer}
use dbcc.Target.{TargetEnvironment}

abbrev pub offsets : Members → List ℕ
offsets no_members = []
offsets (member t name offset ms) = offset ∷ offsets ms

place_members-zero :
    (before after : List Param) (p : Param) (cur align : ℕ)
    → alignof p.type ≡ 0
    → get_elem? (offsets (place_members (before ++ p ∷ after) cur align).0) (length before) ≡ some 0
unfolding place_members
place_members-zero [] after p cur align h = rw (h, align_up-zero cur) refl
place_members-zero (q ∷ before) after p cur align h =
    place_members-zero before after p ((align_up cur (alignof q.type) + sizeof q.type) % size_mod)
      (raise_to align (alignof q.type)) h

-- A member whose type has alignment 0 is put at offset 0, whatever members stand before it.
pub init_type_struct_members-zero :
    (env : TargetEnvironment) (before after : List Param) (p : Param)
    → alignof p.type ≡ 0
    → get_elem?
        (offsets (init_type_struct_members env (before ++ p ∷ after)).members)
        (length before)
      ≡ some 0
unfolding init_type_struct_members
init_type_struct_members-zero env before after p h =
    place_members-zero before after p 0 env.min_struct_alignof h

pub alignof-type_new_pointer :
    (env : TargetEnvironment) (addr : ℕ) (target : CType)
    → alignof (type_new_pointer env addr target) ≡ 0
unfolding type_new_pointer
alignof-type_new_pointer env addr target = refl
