-- ===== src/Value/Access.antt =====
-- `dbcc_typed_value_get_int64`, `dbcc_typed_value_set_int64`, `dbcc_typed_value_set_long_double`,
-- `dbcc_typed_value_alloc0` and `dbcc_type_value_to_uint64`.
pub mod RoundTrip
use dbcc.Base.{
  ℕ, ◌++◌, ◌==◌, Bool, true, false, not, Option, none, some, if◌then◌else◌, ℤ, pos, Run, ok, fault,
  ◌>>=◌, replicate, undefined, assertion,
}
use dbcc.CType.{CType, FloatType, Metatype, metatype, sizeof, int_type}
use dbcc.CType.Query.{dequalify, is_unsigned}
use dbcc.Value.Floats.{
  FloatOps, Real, single, double, extended, Part, real, imaginary, complex, float_of, real_of,
  part_of, get_part,
}
use dbcc.Value.{Value, load_int, store, convert, fits, is_size, by_size}

unfoldable pub typed_value_alloc0 : CType → Value
typed_value_alloc0 type = replicate (sizeof type) 0

-- `(int64_t) (* (const float *) value)`
unfoldable pub float_to_int64 : FloatOps → FloatType → Value → Run ℤ
unfolding get_part real_of fits
float_to_int64 ops f v = do
  x ← get_part (ops.size (real_of f)) 0 v
  elim (ops.to_int (real_of f) x) [
    | some z ↦ if fits 8 z then ok z else fault undefined
    | none ↦ fault undefined
  ]

-- The result is a `uint64_t`.
unfoldable pub typed_value_get_int64 : FloatOps → CType → Value → Run ℕ
unfolding dequalify is_unsigned load_int convert float_to_int64 part_of
typed_value_get_int64 ops type v =
    let t = dequalify type in
    elim (float_of t) [
      | some f ↦ elim (part_of f) [
        | real ↦ float_to_int64 ops f v >>= λ z. ok (convert 8 z)
        | _ ↦ ok 0
      ]
      | none ↦
          if is_size (sizeof t)
          then (load_int (sizeof t) (not (is_unsigned t)) v >>= λ z. ok (convert 8 z))
          else ok 0
    ]

unfoldable pub float_of_int64 : FloatOps → FloatType → ℤ → Run Value
unfolding real_of part_of
float_of_int64 ops f z =
    let r = real_of f in
    elim (part_of f) [
      | real ↦ ok (ops.of_int r z)
      | complex ↦ ok (ops.of_int r z ++ ops.of_int r (pos 0))
      | imaginary ↦ fault assertion
    ]

unfoldable pub typed_value_set_int64 : FloatOps → CType → ℤ → Run Value
unfolding dequalify store float_of_int64
typed_value_set_int64 ops type z =
    let t = dequalify type in
    elim (float_of t) [
      | some f ↦ float_of_int64 ops f z
      | none ↦ by_size (sizeof t) (λ w. ok (store w z))
    ]

-- A `long double` in the host's type for a part.
abbrev pub long_double_as : FloatOps → Real → Value → Value
long_double_as ops single v = ops.cast single extended v
long_double_as ops double v = ops.cast double extended v
long_double_as ops extended v = v

unfoldable pub float_of_long_double : FloatOps → FloatType → Value → Run Value
unfolding real_of part_of
float_of_long_double ops f v =
    let r = real_of f in
    elim (part_of f) [
      | real ↦ ok (long_double_as ops r v)
      | complex ↦ ok (long_double_as ops r v ++ ops.of_int r (pos 0))
      | imaginary ↦ fault assertion
    ]

-- The signed type that the number goes through on its way into one of `w` bytes, also where that is
-- unsigned. For one byte it is `int`.
abbrev pub carrier_size : ℕ → ℕ
carrier_size w = if w == 1 then 4 else w

unfoldable pub int_of_long_double : FloatOps → ℕ → Value → Run Value
unfolding fits store
int_of_long_double ops w v = elim (ops.to_int extended v) [
  | some z ↦ if fits (carrier_size w) z then ok (store w z) else fault undefined
  | none ↦ fault undefined
]

-- Both signednesses have the same cases.
unfoldable pub typed_value_set_long_double : FloatOps → CType → Value → Run Value
unfolding dequalify float_of_long_double int_of_long_double
typed_value_set_long_double ops type v =
    let t = dequalify type in
    elim (float_of t) [
      | some f ↦ float_of_long_double ops f v
      | none ↦ by_size (sizeof t) (λ w. int_of_long_double ops w v)
    ]

-- `none` is the failed assertion on the metatype.
abbrev pub uint64_signed : CType → Option Bool
uint64_signed t = elim t [
  | CType.int_type b s ↦ some s
  | CType.enum_type b tag s vs x y ↦ some true
  | _ ↦ none
]

-- -1 as a `uint64_t` for a size without a case.
unfoldable pub type_value_to_uint64 : CType → Value → Run ℕ
unfolding load_int convert
type_value_to_uint64 type v = elim (uint64_signed type) [
  | some s ↦
      if is_size (sizeof type)
      then (load_int (sizeof type) s v >>= λ z. ok (convert 8 z))
      else ok 18446744073709551615
  | none ↦ fault assertion
]
