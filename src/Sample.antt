-- ===== src/Sample.antt =====
-- Concrete data for the tests and examples: a 64-bit target, its namespace, some types and values,
-- and stand-ins for the floating-point instructions and the sort.
use dbcc.Base.{ℕ, ◌+◌, ◌*◌, arith, true, false, [], ◌∷◌, none}
use dbcc.CType.{CType, TypeBase, int_type, qualified_type}
use dbcc.Namespace.{Namespace, namespace_new_global}
use dbcc.Target.{TargetEnvironment}
use dbcc.Value.Bytes.{IsValue}
use dbcc.Value.Floats.{FloatOps}
use dbcc.Value.{Value}

abbrev pub env : TargetEnvironment
env = record {
  is_char_signed = true;
  sizeof_int = 4;
  sizeof_long_int = 8;
  sizeof_long_long_int = 8;
  sizeof_pointer = 8;
  sizeof_wchar = 4;
  alignof_int16 = 2;
  alignof_int32 = 4;
  alignof_int64 = 8;
  alignof_float = 4;
  alignof_double = 8;
  sizeof_long_double = 16;
  alignof_long_double = 16;
  sizeof_bool = 1;
  alignof_bool = 1;
  min_struct_alignof = 1;
  min_struct_sizeof = 1;
}

abbrev pub name_at : ℕ → ℕ
name_at i = 1000 + i

abbrev pub address_at : ℕ → ℕ
address_at i = 5000 + 100 * i

abbrev pub ns : Namespace
ns = namespace_new_global name_at address_at env

abbrev pub base_of : ℕ → ℕ → TypeBase
base_of addr size = record {
  address = addr;
  name = 0;
  sizeof_instance = size;
  alignof_instance = size;
}

abbrev pub char : CType
char = int_type (base_of 100 1) true

abbrev pub short : CType
short = int_type (base_of 200 2) true

abbrev pub int : CType
int = int_type (base_of 300 4) true

abbrev pub long : CType
long = int_type (base_of 400 8) true

abbrev pub uint : CType
uint = int_type (base_of 500 4) false

abbrev pub const_int : CType
const_int = qualified_type (base_of 600 4) int 1

-- No test computes with floats: each instruction gives the same bytes.
abbrev pub no_floats : FloatOps
no_floats = record {
  size = λ r. 1;
  add = λ r a b. 0 ∷ [];
  subtract = λ r a b. 0 ∷ [];
  multiply = λ r a b. 0 ∷ [];
  divide = λ r a b. 0 ∷ [];
  negate = λ r a. 0 ∷ [];
  of_int = λ r z. 0 ∷ [];
  to_int = λ r a. none;
  cast = λ r s a. 0 ∷ [];
  less = λ r a b. false;
  equal = λ r a b. true;
}

-- Values of four bytes.
abbrev pub six : Value
six = 6 ∷ 0 ∷ 0 ∷ 0 ∷ []

abbrev pub two : Value
two = 2 ∷ 0 ∷ 0 ∷ 0 ∷ []

abbrev pub minus_seven : Value
minus_seven = 249 ∷ 255 ∷ 255 ∷ 255 ∷ []

pub six-IsValue : IsValue 4 six
six-IsValue = (omega arith, (omega arith, (omega arith, (omega arith, tt))))

pub two-IsValue : IsValue 4 two
two-IsValue = (omega arith, (omega arith, (omega arith, (omega arith, tt))))

pub seven-IsValue : IsValue 4 minus_seven
seven-IsValue = (omega arith, (omega arith, (omega arith, (omega arith, tt))))
