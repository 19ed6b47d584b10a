-- ===== src/Constant/Zero.antt =====
-- Truth values and copies of constants (dbcc-type.c, dbcc-constant.c).
use dbcc.Base.{
  ℕ, zero, suc, ◌≡◌, refl, ap, arith, true, [], ◌∷◌, ◌==◌, if◌then◌else◌, Bool-cases, inl, inr, ok,
}
use dbcc.CType.{CType, metatype, sizeof}
use dbcc.Constant.{
  Constant, value, link_address, unit_address, local_address, offset, is_zero, constant_copy,
  tristate_metatype, typed_value_scalar_to_tristate,
}
use dbcc.Operator.{no, yes}
use dbcc.Value.Bytes.{IsValue}
use dbcc.Value.Cast.Conversion.{copy-IsValue}
use dbcc.Value.{Value, word}

pub is_zero_lem : (w : ℕ) (v : Value) → IsValue w v → is_zero w v ≡ ok (word v == 0)
unfolding is_zero word
is_zero_lem zero [] h = refl
is_zero_lem zero (b ∷ bs) h = elim h [ ]
is_zero_lem (suc w) [] h = elim h [ ]
is_zero_lem (suc w) (b ∷ bs) h = elim (Bool-cases (b == 0)) [
  | inl e ↦ rw (e, is_zero_lem w bs h.1) (ap (λ b. ok b) (ground arith))
  | inr e ↦ rw e (ap (λ b. ok b) (ground arith))
]

-- For a float, integer, enumeration or pointer type and a constant value of the type's size,
-- `dbcc_typed_value_scalar_to_tristate` gives DBCC_NO if all bytes are 0, and DBCC_YES if not.
pub typed_value_scalar_to_tristate_lem :
    (type : CType) (v : Value)
    → tristate_metatype (metatype type) ≡ true
    → IsValue (sizeof type) v
    → typed_value_scalar_to_tristate type (value v) ≡ ok (if word v == 0 then no else yes)
unfolding typed_value_scalar_to_tristate
typed_value_scalar_to_tristate_lem type v h hv = rw (h, is_zero_lem (sizeof type) v hv) refl

-- Every value in the constant has the size of the type, and no address of the compiler's own
-- memory is in it.
abbrev pub Whole : CType → Constant → Type 0
Whole type (value v) = IsValue (sizeof type) v
Whole type (link_address s) = Unit
Whole type (unit_address s a) = Unit
Whole type (local_address a) = ⊥
Whole type (offset c z) = Whole type c

-- The copy of a constant equals it, if it has no local address and a value has the type's size.
pub constant_copy_lem : (type : CType) (c : Constant) → Whole type c → constant_copy type c ≡ ok c
unfolding constant_copy
constant_copy_lem type (value v) h = rw (copy-IsValue (sizeof type) v h) refl
constant_copy_lem type (link_address s) h = refl
constant_copy_lem type (unit_address s a) h = refl
constant_copy_lem type (local_address a) h = elim h [ ]
constant_copy_lem type (offset c z) h = rw (constant_copy_lem type c h) refl
