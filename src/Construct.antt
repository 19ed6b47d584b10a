-- ===== src/Construct.antt =====
-- The constructors of types in dbcc-type.c. `addr` is the address that `calloc` gives the new
-- type. The sort of dsk/dsk-qsort-macro.h is a parameter.
mod Tests
pub mod Qualify
pub mod Duplicates
pub mod Pointers
use Prim.Native.Nat.{bit_or}
use dbcc.Base.{
  ℕ, zero, suc, ◌*◌, ◌%◌, ◌^◌, Bool, true, false, not, ◌&&◌, ◌||◌, Option, none, some, List, [],
  ◌∷◌, ltb, ◌==◌, if◌then◌else◌, ℤ, pos, negsuc, map, length, get_elem?, get_or, Run, ok, err,
  fault, ◌>>=◌, out_of_bounds, assertion,
}
use dbcc.CType.Layout.{Param, Layout, init_type_struct_members, init_type_union_branches, size_mod}
use dbcc.CType.Query.{has_flag, qualifier_restrict, qualifier_atomic}
use dbcc.CType.{
  Symbol, CType, TypeBase, EnumValue, Metatype, Members, no_members, Params, no_params, param,
  metatype, sizeof, array_type, variable_length_array_type, struct_type, union_type, enum_type,
  pointer_type, qualified_type, function_type,
}
use dbcc.Error.{
  struct_empty, struct_duplicates, enum_duplicates, bad_restricted_type, bad_atomic_type,
  duplicate_tag,
}
use dbcc.Namespace.{Namespace, namespace_add_by_tag}
use dbcc.PtrTable.{lookup_value, set_value}
use dbcc.Target.{TargetEnvironment}

-- `DSK_QSORT` with a comparison, which gives -1, 0 or 1.
abbrev pub Sort : Type 0
Sort = (ℕ → ℕ → ℤ) → List ℕ → List ℕ

-- `NEW_TYPE`, with the size: all else is 0.
abbrev pub new_base : ℕ → ℕ → TypeBase
new_base addr size = record {
  address = addr;
  name = 0;
  sizeof_instance = size;
  alignof_instance = 0;
}

unfoldable pub type_new_pointer : TargetEnvironment → ℕ → CType → CType
type_new_pointer env addr target = pointer_type (new_base addr env.sizeof_pointer) target

abbrev pub count_or_zero : ℤ → ℕ
count_or_zero (pos n) = n
count_or_zero (negsuc n) = 0

unfoldable pub type_new_array : ℕ → ℤ → CType → CType
type_new_array addr count element_type =
    array_type (new_base addr (sizeof element_type * count_or_zero count % size_mod)) count
      element_type

unfoldable pub type_new_varlen_array : ℕ → CType → CType
type_new_varlen_array addr element_type = variable_length_array_type (new_base addr 0) element_type

abbrev pub is_void : CType → Bool
is_void t = elim (metatype t) [ Metatype.void ↦ true | _ ↦ false ]

abbrev pub function_params : List Param → Params
function_params [] = no_params
function_params (p ∷ ps) = param p.type p.name (function_params ps)

-- A single parameter without a name, of type void, stands for none.
abbrev pub drop_void : List Param → List Param
drop_void [] = []
drop_void (p ∷ []) = if p.name == 0 && is_void p.type then [] else p ∷ []
drop_void (p ∷ q ∷ ps) = p ∷ q ∷ ps

unfoldable pub type_new_function : ℕ → CType → List Param → Bool → CType
type_new_function addr rettype params has_varargs =
    function_type (new_base addr 0) rettype (function_params (drop_void params)) has_varargs

abbrev pub is_pointer_type : CType → Bool
is_pointer_type t = elim (metatype t) [ Metatype.pointer ↦ true | _ ↦ false ]

abbrev pub is_array_or_function : CType → Bool
is_array_or_function t = elim (metatype t) [
  | Metatype.function ↦ true
  | Metatype.array ↦ true
  | Metatype.variable_length_array ↦ true
  | _ ↦ false
]

-- The part after the qualifiers of the base type are merged.
unfoldable pub qualify : ℕ → CType → ℕ → Run CType
qualify addr base_type q =
    if has_flag q qualifier_restrict && not (is_pointer_type base_type)
    then err bad_restricted_type
    else if has_flag q qualifier_atomic && is_array_or_function base_type
    then err bad_atomic_type
    else ok (qualified_type (new_base addr (sizeof base_type)) base_type q)

-- The qualifiers of a qualified type, and what is below them.
abbrev pub split_qualified : CType → Option (ℕ × CType)
split_qualified (qualified_type b t q) = some (q, t)
split_qualified _ = none

unfoldable pub type_new_qualified : ℕ → CType → ℕ → Run CType
unfolding qualify
type_new_qualified addr base_type q =
    if q == 0 then ok base_type else elim (split_qualified base_type) [
      | some (old_q, t) ↦
          if old_q == bit_or old_q q then ok base_type else qualify addr t (bit_or old_q q)
      | none ↦ qualify addr base_type q
    ]

-- `COMP_MIA` and `COMP_VIA`: both tests ask for the same order.
unfoldable pub comp_by_symbol : List Symbol → ℕ → ℕ → ℤ
comp_by_symbol names a b =
    let symbol_a = get_or names a 0 in
    let symbol_b = get_or names b 0 in
    if ltb symbol_a symbol_b then negsuc 0 else if ltb symbol_a symbol_b then pos 1 else pos 0

abbrev pub upto : ℕ → ℕ → List ℕ
upto i zero = []
upto i (suc n) = i ∷ upto (suc i) n

-- The loop over neighbours in the sorted order: NULL names may repeat.
unfoldable pub has_duplicates : List Symbol → List ℕ → Bool
has_duplicates names [] = false
has_duplicates names (i ∷ []) = false
has_duplicates names (i ∷ j ∷ rest) =
    (not (get_or names i 0 == 0) && (get_or names i 0 == get_or names j 0))
    || has_duplicates names (j ∷ rest)

unfoldable pub get_members_by_sym : Sort → List Param → Run (List ℕ)
unfolding comp_by_symbol has_duplicates
get_members_by_sym sort members =
    let names = map (λ (p : Param). p.name) members in
    let rv = sort (comp_by_symbol names) (upto 0 (length members)) in
    if length members == 0
    then err struct_empty
    else if has_duplicates names rv
    then err struct_duplicates
    else ok rv

abbrev pub laid_out : ℕ → Layout → TypeBase
laid_out addr l = record {
  address = addr;
  name = 0;
  sizeof_instance = l.sizeof_instance;
  alignof_instance = l.alignof_instance;
}

unfoldable pub type_new_struct : Sort → Namespace → ℕ → Symbol → List Param → Run CType
unfolding get_members_by_sym init_type_struct_members
type_new_struct sort ns addr tag members = do
  by_sym ← get_members_by_sym sort members
  let l = init_type_struct_members ns.target_env members
  ok (struct_type (laid_out addr l) tag l.members by_sym false)

unfoldable pub type_new_incomplete_struct : ℕ → Symbol → CType
type_new_incomplete_struct addr tag = struct_type (new_base addr 0) tag no_members [] true

-- The type after the call. The mark of an incomplete type stays.
unfoldable pub type_complete_struct : Sort → TargetEnvironment → CType → List Param → Run CType
unfolding get_members_by_sym init_type_struct_members
type_complete_struct sort env (struct_type b tag ms sorted true) members = do
  by_sym ← get_members_by_sym sort members
  let l = init_type_struct_members env members
  ok (
      struct_type
        (record b { sizeof_instance = l.sizeof_instance; alignof_instance = l.alignof_instance })
        tag l.members by_sym true)
type_complete_struct sort env _ members = fault assertion

-- NULL.
abbrev pub is_free : {A : Type 0} → Option A → Bool
is_free none = true
is_free (some a) = false

-- The namespace has the new union under its tag.
unfoldable pub type_new_union : Sort → Namespace → ℕ → Symbol → List Param → Run (CType × Namespace)
unfolding get_members_by_sym init_type_union_branches
type_new_union sort ns addr tag branches =
    if not (tag == 0) && not (is_free (lookup_value ns.union_tag_symbols tag))
    then err duplicate_tag
    else (do
      by_sym ← get_members_by_sym sort branches
      let l = init_type_union_branches ns.target_env branches
      let t = union_type (laid_out addr l) tag l.members by_sym false
      if tag == 0 then ok (t, ns) else (do
        table ← set_value ns.union_tag_symbols tag (some t)
        ok (t, record ns { union_tag_symbols = table })))

unfoldable pub type_new_incomplete_union : ℕ → Symbol → CType
type_new_incomplete_union addr tag = union_type (new_base addr 0) tag no_members [] true

unfoldable pub type_complete_union : Sort → TargetEnvironment → CType → List Param → Run CType
unfolding get_members_by_sym init_type_union_branches
type_complete_union sort env (union_type b tag ms sorted true) members = do
  by_sym ← get_members_by_sym sort members
  let l = init_type_union_branches env members
  ok (
      union_type
        (record b { sizeof_instance = l.sizeof_instance; alignof_instance = l.alignof_instance })
        tag l.members by_sym true)
type_complete_union sort env _ members = fault assertion

-- `COMPARE_BY_PTR`
abbrev pub compare_by_ptr : ℕ → ℕ → ℤ
compare_by_ptr a b = if ltb a b then negsuc 0 else if ltb b a then pos 1 else pos 0

abbrev pub equal_neighbours : List Symbol → Bool
equal_neighbours [] = false
equal_neighbours (a ∷ []) = false
equal_neighbours (a ∷ b ∷ rest) = (a == b) || equal_neighbours (b ∷ rest)

-- The array of indices by value is never allocated: the first write to it goes through NULL.
unfoldable pub type_new_enum :
    Sort → Namespace → ℕ → Symbol → List EnumValue → Run (CType × Namespace)
unfolding namespace_add_by_tag
type_new_enum sort ns addr tag [] =
    if not (tag == 0) && not (is_free (lookup_value ns.enum_tag_symbols tag))
    then err duplicate_tag
    else (let t = enum_type (new_base addr ns.target_env.sizeof_int) tag false [] [] [] in
        if tag == 0 then ok (t, ns) else (do ns' ← namespace_add_by_tag ns t; ok (t, ns')))
type_new_enum sort ns addr tag (v ∷ vs) =
    if not (tag == 0) && not (is_free (lookup_value ns.enum_tag_symbols tag))
    then err duplicate_tag
    else if equal_neighbours (sort compare_by_ptr (map (λ (v : EnumValue). v.name) (v ∷ vs)))
    then err enum_duplicates
    else fault out_of_bounds
