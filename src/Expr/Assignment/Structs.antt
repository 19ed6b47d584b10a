-- ===== src/Expr/Assignment/Structs.antt =====
-- `check_simple_assignment` (dbcc-expr.c) on structs and unions.
use dbcc.Base.{◌≡◌, refl, arith, Bool, true, false, ◌&&◌, ◌==◌, Run, ok, err, Bool-cases, inl, inr}
use dbcc.CType.Query.{dequalify, is_pointer, is_incomplete, is_arithmetic}
use dbcc.CType.{CType, address}
use dbcc.Error.{assignment_type_incomplete}
use dbcc.Expr.Assignment.{
  Expression, operand, struct_or_union, pointers_assignable, check_simple_assignment,
}

-- For a type that is incomplete, or not.
abbrev pub struct_outcome : Bool → Run (Unit {0})
struct_outcome true = ok tt
struct_outcome false = err assignment_type_incomplete

plain_no_pointer : (u : CType) → struct_or_union u ≡ true → is_pointer u ≡ false
unfolding is_pointer dequalify
plain_no_pointer u h = ground (arith, h)

no_pointer : (t : CType) → struct_or_union (dequalify t) ≡ true → is_pointer t ≡ false
unfolding is_pointer
no_pointer t h = ground (arith, h)

-- If both types are one struct or union under qualifiers and typedefs, `check_simple_assignment`
-- reports an incomplete type if it is complete, and allows the assignment if it is incomplete.
pub check_simple_assignment-struct :
    (a : CType) (b : Expression)
    → struct_or_union (dequalify a) ≡ true
    → (address (dequalify a) == address (dequalify (operand b).value_type)) ≡ true
    → check_simple_assignment a b ≡ struct_outcome (is_incomplete (dequalify a))
unfolding check_simple_assignment pointers_assignable
check_simple_assignment-struct a b h same =
    let here = plain_no_pointer (dequalify a) h in
    let arithmetic = is_arithmetic a && is_arithmetic (operand b).value_type in
    elim (Bool-cases (is_incomplete (dequalify a))) [
      | inr e ↦ rw (here, no_pointer a h, h, same, e) refl
      | inl e ↦ elim (Bool-cases arithmetic) [
        | inl r ↦ rw (here, no_pointer a h, h, same, e, r) refl
        | inr r ↦ rw (here, no_pointer a h, h, same, e, r) refl
      ]
    ]
