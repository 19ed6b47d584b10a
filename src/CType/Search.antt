-- ===== src/CType/Search.antt =====
-- The binary searches of dbcc-type.c (`dbcc_type_struct_lookup_member`,
-- `dbcc_type_union_lookup_branch`, `dbcc_type_enum_lookup_value_by_name` and
-- `dbcc_type_enum_lookup_value`), over sorted indices of members.
-- The loop runs on fuel, the number of entries: each turn makes the rest smaller.
pub mod Found
pub mod Example
use dbcc.Base.{
  ℕ, zero, suc, ◌+◌, ◌-◌, ◌/◌, Bool, Option, none, some, List, [], ◌∷◌, ltb, ltb_ℤ, ◌==◌, ◌||◌,
  if◌then◌else◌, ℤ, length, get_elem?, map, Run, ok, fault, ◌>>=◌, out_of_bounds, assertion,
}
use dbcc.CType.{
  Symbol, CType, Members, no_members, member, EnumValue, struct_type, union_type, enum_type,
}

module _ {K : Type 0} where
  -- The key of the entry at a place of the index: its number and its key.
  abbrev pub entry : List ℕ → List K → ℕ → Option (ℕ × K)
  entry sorted keys p = elim (get_elem? sorted p) [
    | none ↦ none
    | some i ↦ elim (get_elem? keys i) [ none ↦ none | some k ↦ some (i, k) ]
  ]

  -- `none` is NULL.
  unfoldable pub search : (K → K → Bool) → List ℕ → List K → K → ℕ → ℕ → ℕ → Run (Option ℕ)
  search less sorted keys name zero start n = ok none
  search less sorted keys name (suc fuel) start n =
      if n == 0
      then ok none
      else (let mid = start + n / 2 in
          elim (entry sorted keys mid) [
            | none ↦ fault out_of_bounds
            | some (i, k) ↦
                let left = less name k in
                let right = less k name in
                let rest =
                  search less sorted keys name fuel (if left then start else mid + 1)
                    (if left then n / 2 else start + n - (mid + 1)) in
                if left || right then rest else ok (some i)
          ])

abbrev pub names : Members → List Symbol
names no_members = []
names (member t name offset ms) = name ∷ names ms

abbrev pub find_symbol : List ℕ → List Symbol → Symbol → Run (Option ℕ)
find_symbol sorted keys name = search ltb sorted keys name (length keys) 0 (length keys)

-- The result is the index of the member.
unfoldable pub struct_lookup_member : CType → Symbol → Run (Option ℕ)
unfolding search
struct_lookup_member (struct_type b tag ms sorted incomplete) name =
    find_symbol sorted (names ms) name
struct_lookup_member _ name = fault assertion

unfoldable pub union_lookup_branch : CType → Symbol → Run (Option ℕ)
unfolding search
union_lookup_branch (union_type b tag ms sorted incomplete) name =
    find_symbol sorted (names ms) name
union_lookup_branch _ name = fault assertion

unfoldable pub enum_lookup_value_by_name : CType → Symbol → Run (Option ℕ)
unfolding search
enum_lookup_value_by_name (enum_type b tag s vs by_sym by_value) name =
    find_symbol by_sym (map (λ (v : EnumValue). v.name) vs) name
enum_lookup_value_by_name _ name = fault assertion

unfoldable pub enum_lookup_value : CType → ℤ → Run (Option ℕ)
unfolding search
enum_lookup_value (enum_type b tag s vs by_sym by_value) value =
    let values = map (λ (v : EnumValue). v.value) vs in
    search ltb_ℤ by_value values value (length values) 0 (length values)
enum_lookup_value _ value = fault assertion
