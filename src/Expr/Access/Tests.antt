-- ===== src/Expr/Access/Tests.antt =====
-- The theorem about `dbcc_expr_new_access` (dbcc-expr.c) at a concrete struct.
use dbcc.Base.{◌≡◌, refl, true, false, ok}
use dbcc.CType.Query.{dequalify, is_pointer}
use dbcc.CType.Search.Example.{members, index, index-IsIndex}
use dbcc.CType.Search.{struct_lookup_member}
use dbcc.CType.{CType, struct_type, pointer_type, qualified_type}
use dbcc.Expr.Access.Lookup.{AccessOutcome, expr_new_access_lem}
use dbcc.Expr.Access.{expr_new_access, object_type, access_member, found_member, member_type}
use dbcc.Expr.Operands.{typed, pointed_at}
use dbcc.Sample.{base_of, long}

abbrev pair : CType
pair = struct_type (base_of 1 16) 0 members index false

-- A pointer to a constant pair.
abbrev to_pair : CType
to_pair = pointer_type (base_of 2 8) (qualified_type (base_of 3 16) pair 1)

second :
    expr_new_access true (typed to_pair) 10
    ≡ ok (record { value_type = long; sub_info = 1; is_union = false })
unfolding expr_new_access object_type is_pointer dequalify pointed_at access_member
    struct_lookup_member found_member member_type
second = refl

expr_new_access_lem_example :
    AccessOutcome false members false 10 (expr_new_access true (typed to_pair) 10)
unfolding is_pointer dequalify pointed_at
expr_new_access_lem_example =
    expr_new_access_lem true (typed to_pair) 10 false false (base_of 1 16) 0 members index
      (refl, (qualified_type (base_of 3 16) pair 1, refl, refl)) index-IsIndex
