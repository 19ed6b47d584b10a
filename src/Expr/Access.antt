-- ===== src/Expr/Access.antt =====
-- `dbcc_expr_new_access` (dbcc-expr.c): `.` and `->` on an object whose type is known.
pub mod Lookup
mod Tests
use dbcc.Base.{
  ℕ, zero, suc, Bool, true, false, not, Option, none, some, if◌then◌else◌, Run, ok, err, fault,
  ◌>>=◌, out_of_bounds,
}
use dbcc.CType.Query.{dequalify, is_pointer}
use dbcc.CType.Search.{struct_lookup_member, union_lookup_branch}
use dbcc.CType.{CType, Members, no_members, member, Symbol, struct_type, union_type}
use dbcc.Error.{
  expected_pointer, member_access_incomplete_type, unknown_member_access,
  bad_type_for_member_access,
}
use dbcc.Expr.Operands.{pointed_at}
use dbcc.Expr.{Operand}

-- The value type, and `sub_info` as the number of the member or branch.
pub record Access : Type 0 where
  pub value_type : CType
  pub sub_info : ℕ
  pub is_union : Bool

unfoldable pub member_type : Members → ℕ → Run CType
member_type no_members i = fault out_of_bounds
member_type (member t name offset ms) zero = ok t
member_type (member t name offset ms) (suc i) = member_type ms i

unfoldable pub found_member : Members → Bool → Option ℕ → Run Access
found_member ms is_union none = err unknown_member_access
found_member ms is_union (some i) =
    member_type ms i >>= λ t. ok (record { value_type = t; sub_info = i; is_union = is_union })

-- The type of the object behind `.` or `->`, without qualifiers.
unfoldable pub object_type : Bool → CType → Run CType
object_type false type = ok (dequalify type)
object_type true type =
    if not (is_pointer (dequalify type))
    then err expected_pointer
    else (pointed_at (dequalify type) >>= λ u. ok (dequalify u))

unfoldable pub access_member : CType → Symbol → Run Access
access_member (struct_type b tag ms sorted incomplete) name =
    if incomplete
    then err member_access_incomplete_type
    else struct_lookup_member (struct_type b tag ms sorted incomplete) name >>= λ m.
        found_member ms false m
access_member (union_type b tag ms sorted incomplete) name =
    if incomplete
    then err member_access_incomplete_type
    else union_lookup_branch (union_type b tag ms sorted incomplete) name >>= λ m.
        found_member ms true m
access_member _ name = err bad_type_for_member_access

unfoldable pub expr_new_access : Bool → Operand → Symbol → Run Access
expr_new_access by_pointer e name =
    object_type by_pointer e.value_type >>= λ type. access_member type name
