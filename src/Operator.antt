-- ===== src/Operator.antt =====
-- The operators of dbcc.h.

-- `DBCC_BinaryOperator`
pub data BinaryOperator : Type 0 where
  add sub mul div rem : BinaryOperator
  lt lteq gt gteq eq ne : BinaryOperator
  shift_left shift_right : BinaryOperator
  logical_and logical_or : BinaryOperator
  bitwise_and bitwise_or bitwise_xor : BinaryOperator
  comma : BinaryOperator

-- `DBCC_UnaryOperator`
pub data UnaryOperator : Type 0 where
  noop logical_not bitwise_not negate reference dereference : UnaryOperator

-- `DBCC_TriState`
pub data TriState : Type 0 where
  no yes maybe : TriState
