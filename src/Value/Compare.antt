-- ===== src/Value/Compare.antt =====
-- `dbcc_typed_value_compare`.
pub mod Relations
use dbcc.Base.{
  ℕ, ◌+◌, Bool, true, false, not, ◌||◌, Option, none, some, if◌then◌else◌, ◌==◌, ℤ, pos, ltb_ℤ,
  pos_part, neg_part, Run, ok, fault, ◌>>=◌, ◌&&◌, assertion,
}
use dbcc.CType.{CType, Metatype, metatype, sizeof}
use dbcc.CType.Query.{dequalify, is_unsigned}
use dbcc.Operator.{BinaryOperator, lt, lteq, gt, gteq, eq, ne}
use dbcc.Value.Access.{typed_value_set_int64}
use dbcc.Value.Floats.{FloatOps, Part, real, float_of, real_of, part_of, get_part}
use dbcc.Value.{Value, load_int, is_size}

-- `IMPLEMENT_ALL_OPS`, over the host's order and equality of the two values.
unfoldable pub all_ops {ℓ} :
    {A : Type ℓ} → BinaryOperator → (A → A → Bool) → (A → A → Bool) → A → A → Run Bool
all_ops lt less equal a b = ok (less a b)
all_ops lteq less equal a b = ok (less a b || equal a b)
all_ops gt less equal a b = ok (less b a)
all_ops gteq less equal a b = ok (less b a || equal a b)
all_ops eq less equal a b = ok (equal a b)
all_ops ne less equal a b = ok (not (equal a b))
all_ops _ less equal a b = fault assertion

abbrev pub eqb_ℤ : ℤ → ℤ → Bool
eqb_ℤ a b = pos_part a + neg_part b == pos_part b + neg_part a

abbrev pub is_whole : CType → Bool
is_whole t = elim (metatype t) [
  | Metatype.bool ↦ true
  | Metatype.int ↦ true
  | Metatype.enum ↦ true
  | _ ↦ false
]

-- `none`: nothing is written, for a size that has no case.
unfoldable pub compare_bool : FloatOps → CType → BinaryOperator → Value → Value → Run (Option Bool)
unfolding load_int all_ops is_unsigned part_of real_of get_part
compare_bool ops t op a b =
    if is_whole t
    then (if is_size (sizeof t)
        then (do
          x ← load_int (sizeof t) (not (is_unsigned t)) a
          y ← load_int (sizeof t) (not (is_unsigned t)) b
          r ← all_ops op ltb_ℤ eqb_ℤ x y
          ok (some r))
        else ok none)
    else elim (float_of t) [
      | none ↦ fault assertion
      | some f ↦ elim (part_of f) [
        | real ↦ do
          x ← get_part (ops.size (real_of f)) 0 a
          y ← get_part (ops.size (real_of f)) 0 b
          r ← all_ops op (ops.less (real_of f)) (ops.equal (real_of f)) x y
          ok (some r)
        | _ ↦ fault assertion
      ]
    ]

-- The result is a value of the `int` of the namespace.
unfoldable pub typed_value_compare :
    FloatOps → CType → CType → BinaryOperator → Value → Value → Run (Option Value)
unfolding dequalify compare_bool typed_value_set_int64
typed_value_compare ops ns_int type op a b = compare_bool ops (dequalify type) op a b >>= λ r.
    elim r [
      | none ↦ ok none
      | some r ↦ typed_value_set_int64 ops ns_int (if r then pos 1 else pos 0) >>= λ v. ok (some v)
    ]
