-- ===== src/Expr/Operands.antt =====
-- The operands and results of the handlers of dbcc-expr.c: casts of constants and their folding.
-- A handler sets the value type and the constant of the expression, whose constant was NULL.
-- An access through NULL and `free` of what `alloca` gave are faults.
use dbcc.Base.{Option, none, some, if◌then◌else◌, Run, ok, err, fault, ◌>>=◌, assertion, undefined}
use dbcc.CType.Query.{dequalify, is_incomplete, pointer_dereference}
use dbcc.CType.{CType}
use dbcc.Constant.{Constant, value}
use dbcc.Error.{pointer_math_on_imcomplete_type}
use dbcc.Expr.{Operand}
use dbcc.Namespace.{Namespace}
use dbcc.Value.Cast.{cast_value}
use dbcc.Value.Floats.{FloatOps}
use dbcc.Value.{Value}

abbrev pub typed : CType → Operand
typed t = record { value_type = t; constant = none }

abbrev pub folded : CType → Value → Operand
folded t v = record { value_type = t; constant = some (value v) }

-- `assert (constant_type == DBCC_CONSTANT_TYPE_VALUE)`, and the data.
abbrev pub data_of : Constant → Run Value
data_of (value v) = ok v
data_of _ = fault assertion

-- The data without the assertion: of another constant it is a part of the union never written.
abbrev pub raw_data_of : Constant → Run Value
raw_data_of (value v) = ok v
raw_data_of _ = fault undefined

-- `if (!dbcc_cast_value (...)) assert (0);`
abbrev pub must : {A : Type 0} → Option A → Run A
must none = fault assertion
must (some a) = ok a

-- A cast whose result is not looked at: a buffer that it did not write has no value.
abbrev pub written : {A : Type 0} → Option A → Run A
written none = fault undefined
written (some a) = ok a

-- What the `*` of a pointer type points at, for a pointer.
unfoldable pub pointed_at : CType → Run CType
unfolding pointer_dereference
pointed_at t = elim (pointer_dereference t) [ none ↦ fault undefined | some u ↦ ok u ]

module _ (ops : FloatOps) (ns : Namespace) where
  -- Both operands cast to `type`, and `op` on them.
  unfoldable pub cast_and :
      {A : Type 0} → CType → CType → CType → Value → Value → (Value → Value → Run A) → Run A
  unfolding cast_value
  cast_and type atype btype x y op = do
    xo ← cast_value ops type atype x
    acasted ← must xo
    yo ← cast_value ops type btype y
    bcasted ← must yo
    op acasted bcasted

  -- The addition of an offset to a pointer.
  unfoldable pub add_pointer : CType → Run Operand
  unfolding pointed_at is_incomplete dequalify
  add_pointer ptr = do
    t ← pointed_at ptr
    if is_incomplete (dequalify t) then err pointer_math_on_imcomplete_type else ok (typed ptr)

  -- Constants that are both there are folded by `op`.
  abbrev pub fold :
      CType → Option Constant → Option Constant → (Constant → Constant → Run Operand) → Run Operand
  fold type (some x) (some y) op = op x y
  fold type _ _ op = ok (typed type)
