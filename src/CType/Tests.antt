-- ===== src/CType/Tests.antt =====
-- The theorems about layouts and searches of members (dbcc-type.c) at a concrete struct.
use dbcc.Base.{◌≡◌, refl, arith, some, List, [], ◌∷◌, ok, negsuc, false}
use dbcc.CType.Layout.Struct.{StructLayout, init_type_struct_members_lem}
use dbcc.CType.Layout.Union.{UnionLayout, init_type_union_branches_lem}
use dbcc.CType.Layout.{Param, init_type_struct_members, init_type_union_branches}
use dbcc.CType.Search.Found.{Located, struct_lookup_member_lem}
use dbcc.CType.Search.Example.{members, index, index-IsIndex}
use dbcc.CType.Search.{names, struct_lookup_member}
use dbcc.CType.{struct_type}
use dbcc.Sample.{env, base_of, char, int, long}

abbrev params : List Param
params =
    record { type = char; name = 30; bit_width = negsuc 0 }
    ∷ record { type = long; name = 10; bit_width = negsuc 0 }
    ∷ record { type = int; name = 20; bit_width = negsuc 0 }
    ∷ []

size : (init_type_struct_members env params).sizeof_instance ≡ 24
unfolding init_type_struct_members
size = refl

init_type_struct_members_lem_example : StructLayout env params (init_type_struct_members env params)
init_type_struct_members_lem_example =
    init_type_struct_members_lem env params
      ((0, omega arith, refl), ((3, omega arith, refl), ((2, omega arith, refl), tt)))
      (0, omega arith, refl) (omega arith)

init_type_union_branches_lem_example : UnionLayout env params (init_type_union_branches env params)
init_type_union_branches_lem_example =
    init_type_union_branches_lem env params
      ((0, omega arith, refl), ((3, omega arith, refl), ((2, omega arith, refl), tt)))
      (0, omega arith, refl) (omega arith)

struct_lookup_member_lem_example :
    Located
      (names members)
      20
      (struct_lookup_member (struct_type (base_of 1 16) 0 members index false) 20)
struct_lookup_member_lem_example =
    struct_lookup_member_lem (base_of 1 16) 0 members index false 20 index-IsIndex

found : struct_lookup_member (struct_type (base_of 1 16) 0 members index false) 20 ≡ ok (some 0)
unfolding struct_lookup_member
found = refl
