-- ===== src/Expr.antt =====
-- dbcc-expr.c: the types of expressions and the folding of constants.
-- An expression is what the handlers read and write of it, its value type and its constant.
mod Tests
pub mod Conversion
pub mod Operands
pub mod Arithmetic
pub mod Comparison
pub mod Logical
pub mod Binary
pub mod Cast
pub mod Unary
pub mod Call
pub mod Ternary
pub mod Identifier
pub mod Assignment
pub mod Access
pub mod Constants
use dbcc.Base.{Option}
use dbcc.CType.{CType}
use dbcc.Constant.{Constant}

pub record Operand : Type 0 where
  pub value_type : CType
  pub constant : Option Constant
