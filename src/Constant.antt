-- ===== src/Constant.antt =====
-- `DBCC_Constant` (dbcc.h), dbcc-constant.c, `dbcc_is_zero` (dbcc-common.c) and
-- `dbcc_typed_value_scalar_to_tristate` (dbcc-type.c).
mod Tests
pub mod Zero
use dbcc.Base.{
  ℕ, zero, suc, Bool, true, false, Option, none, some, [], ◌∷◌, ◌==◌, if◌then◌else◌, ℤ, Run, ok,
  fault, ◌>>=◌, replicate, out_of_bounds,
}
use dbcc.CType.{CType, Metatype, metatype, sizeof, Symbol}
use dbcc.Operator.{TriState, no, yes, maybe}
use dbcc.Value.Cast.{copy}
use dbcc.Value.{Value}

-- `none` for a local address is one that was not written.
pub data Constant : Type 0 where
  value : Value → Constant
  link_address : Symbol → Constant
  unit_address : Symbol → ℕ → Constant
  local_address : Option ℕ → Constant
  offset : Constant → ℤ → Constant

-- `none` is NULL: the value is filled with zeros.
unfoldable pub constant_new_value : CType → Option Value → Run Constant
unfolding copy
constant_new_value type none = ok (value (replicate (sizeof type) 0))
constant_new_value type (some v) = copy (sizeof type) v >>= λ x. ok (value x)

abbrev pub constant_new_value0 : CType → Run Constant
constant_new_value0 type = constant_new_value type none

unfoldable pub constant_copy : CType → Constant → Run Constant
unfolding copy
constant_copy type (value v) = copy (sizeof type) v >>= λ x. ok (value x)
constant_copy type (link_address s) = ok (link_address s)
constant_copy type (unit_address s a) = ok (unit_address s a)
constant_copy type (local_address a) = ok (local_address none)
constant_copy type (offset c z) = constant_copy type c >>= λ d. ok (offset d z)

unfoldable pub is_zero : ℕ → Value → Run Bool
is_zero zero v = ok true
is_zero (suc n) [] = fault out_of_bounds
is_zero (suc n) (b ∷ bs) = if b == 0 then is_zero n bs else ok false

-- The metatypes with a case.
abbrev pub tristate_metatype : Metatype → Bool
tristate_metatype m = elim m [
  | Metatype.float ↦ true
  | Metatype.int ↦ true
  | Metatype.enum ↦ true
  | Metatype.pointer ↦ true
  | _ ↦ false
]

-- The tests do not look through qualifiers.
unfoldable pub typed_value_scalar_to_tristate : CType → Constant → Run TriState
unfolding is_zero
typed_value_scalar_to_tristate type c =
    if tristate_metatype (metatype type)
    then elim c [
      | value v ↦ is_zero (sizeof type) v >>= λ z. ok (if z then no else yes)
      | _ ↦ ok maybe
    ]
    else ok maybe
