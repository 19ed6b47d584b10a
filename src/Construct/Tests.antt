-- ===== src/Construct/Tests.antt =====
-- The theorems about the constructors of types (dbcc-type.c) at concrete types.
use dbcc.Base.{◌≡◌, refl, arith, some, [], ◌∷◌, ◌++◌, length, get_elem?, err, negsuc}
use dbcc.CType.Layout.{Param, init_type_struct_members}
use dbcc.Construct.Duplicates.{Distinct, has_duplicates-Distinct}
use dbcc.Construct.Pointers.{offsets, init_type_struct_members-zero}
use dbcc.Construct.Qualify.{Qualified, merged, below, type_new_qualified_lem}
use dbcc.Construct.{type_new_pointer, type_new_qualified, has_duplicates}
use dbcc.Error.{bad_restricted_type}
use dbcc.Sample.{env, char, int, const_int}

restrict_int : type_new_qualified 1 int 2 ≡ err bad_restricted_type
unfolding type_new_qualified
restrict_int = refl

type_new_qualified_lem_example :
    Qualified const_int (merged const_int 4) (below const_int) (type_new_qualified 1 const_int 4)
type_new_qualified_lem_example = type_new_qualified_lem 1 const_int 4 (λ e. ground arith)

abbrev char_param : Param
char_param = record { type = char; name = 30; bit_width = negsuc 0 }

abbrev pointer_param : Param
pointer_param = record { type = type_new_pointer env 2000 int; name = 10; bit_width = negsuc 0 }

init_type_struct_members-zero_example :
    get_elem?
      (offsets (init_type_struct_members env ((char_param ∷ []) ++ pointer_param ∷ [])).members)
      (length (char_param ∷ []))
    ≡ some 0
unfolding type_new_pointer
init_type_struct_members-zero_example =
    init_type_struct_members-zero env (char_param ∷ []) [] pointer_param refl

has_duplicates-Distinct_example : Distinct (30 ∷ 0 ∷ 10 ∷ 0 ∷ []) (1 ∷ 3 ∷ 2 ∷ 0 ∷ [])
unfolding has_duplicates
has_duplicates-Distinct_example =
    has_duplicates-Distinct (30 ∷ 0 ∷ 10 ∷ 0 ∷ []) (1 ∷ 3 ∷ 2 ∷ 0 ∷ [])
      (omega arith, (omega arith, (omega arith, tt))) refl
