-- ===== src/Value/Cast.antt =====
-- `dbcc_cast_value` and its cases for integers and floats.
pub mod Conversion
use dbcc.Base.{
  ℕ, ◌++◌, Bool, true, false, not, Option, none, some, ltb, ◌==◌, if◌then◌else◌, ℤ, pos, negsuc,
  Run, ok, fault, ◌>>=◌, length, take, ◌^◌, undefined, assertion, out_of_bounds,
}
use dbcc.CType.{CType, FloatType, sizeof, int_type}
use dbcc.CType.Query.{dequalify}
use dbcc.Value.Floats.{
  FloatOps, Real, single, double, extended, Part, real, imaginary, complex, float_of, real_of,
  part_of, get_part,
}
use dbcc.Value.{Value, load_int, store, fits, by_size}

-- `memcpy (dst_value, src_value, n)`
unfoldable pub copy : ℕ → Value → Run Value
copy n v = if ltb (length v) n then fault out_of_bounds else ok (take n v)

unfoldable pub cast_value_i2i : ℕ → ℕ → Bool → Value → Run Value
unfolding copy load_int store
cast_value_i2i dst_size src_size src_signed v = if dst_size == src_size then copy dst_size v else do
  z ← by_size src_size (λ w. load_int w src_signed v)
  by_size dst_size (λ w. ok (store w z))

-- `none` is the result false.
unfoldable pub cast_value_i2f : FloatOps → FloatType → ℕ → Bool → Value → Run (Option Value)
unfolding load_int real_of part_of
cast_value_i2f ops f src_size src_signed v = do
  z ← by_size src_size (λ w. load_int w src_signed v)
  let r = real_of f
  ok (elim (part_of f) [
    | real ↦ some (ops.of_int r z)
    | complex ↦ some (ops.of_int r z ++ ops.of_int r (pos 0))
    | imaginary ↦ none
  ])

-- A conversion from a float is defined where the integral part has a place in the type.
unfoldable pub fits_type : ℕ → Bool → ℤ → Bool
unfolding fits
fits_type w true z = fits w z
fits_type w false (pos n) = ltb n (256 ^ w)
fits_type w false (negsuc n) = false

unfoldable pub cast_value_f2i : FloatOps → ℕ → Bool → FloatType → Value → Run (Option Value)
unfolding get_part real_of part_of fits_type store
cast_value_f2i ops dst_size dst_signed f v =
    let r = real_of f in
    elim (part_of f) [
      | real ↦ do
        x ← get_part (ops.size r) 0 v
        by_size dst_size (λ w. elim (ops.to_int r x) [
          | some z ↦ if fits_type w dst_signed z then ok (some (store w z)) else fault undefined
          | none ↦ fault undefined
        ])
      | _ ↦ ok none
    ]

abbrev pub same_real : Real → Real → Bool
same_real single single = true
same_real double double = true
same_real extended extended = true
same_real _ _ = false

abbrev pub same_part : Part → Part → Bool
same_part real real = true
same_part imaginary imaginary = true
same_part complex complex = true
same_part _ _ = false

abbrev pub same_float : FloatType → FloatType → Bool
unfolding real_of part_of
same_float a b =
    if same_real (real_of a) (real_of b) then same_part (part_of a) (part_of b) else false

-- The `switch` on both types. It has no case for a long double complex number from a double one.
abbrev pub f2f_case : FloatOps → FloatType → FloatType → Value → Run (Option Value)
unfolding real_of part_of get_part
f2f_case ops d s v =
    let n = ops.size (real_of s) in
    let conv = ops.cast (real_of d) (real_of s) in
    let null = ops.of_int (real_of d) (pos 0) in
    elim (part_of d) [
      | complex ↦ elim (part_of s) [
        | real ↦ get_part n 0 v >>= λ x. ok (some (conv x ++ null))
        | imaginary ↦ get_part n 0 v >>= λ x. ok (some (null ++ conv x))
        | complex ↦
            if same_float d FloatType.complex_long_double
            then (if same_float s FloatType.complex_double
                then ok none
                else (get_part n 0 v >>= λ x. get_part n n v >>= λ y. ok (some (conv x ++ conv y))))
            else (get_part n 0 v >>= λ x. get_part n n v >>= λ y. ok (some (conv x ++ conv y)))
      ]
      | real ↦ elim (part_of s) [ real ↦ get_part n 0 v >>= λ x. ok (some (conv x)) | _ ↦ ok none ]
      | imaginary ↦ elim (part_of s) [
        | imaginary ↦ get_part n 0 v >>= λ x. ok (some (conv x))
        | _ ↦ ok none
      ]
    ]

unfoldable pub cast_value_f2f : FloatOps → ℕ → FloatType → FloatType → Value → Run (Option Value)
unfolding copy real_of part_of get_part
cast_value_f2f ops dst_size d s v =
    if same_float d s then (copy dst_size v >>= λ x. ok (some x)) else f2f_case ops d s v

-- What the `switch` on both metatypes looks at.
pub data Shape : Type 0 where
  integer : Bool → Shape
  floating : FloatType → Shape
  other : Shape

unfoldable pub shape : CType → Shape
shape (int_type _ s) = integer s
shape (CType.float_type _ f _) = floating f
shape _ = other

unfoldable pub cast_value : FloatOps → CType → CType → Value → Run (Option Value)
unfolding dequalify shape cast_value_i2i cast_value_i2f cast_value_f2i cast_value_f2f
cast_value ops dst_type src_type v =
    let d = dequalify dst_type in
    let s = dequalify src_type in
    elim (shape s) [
      | integer ss ↦ elim (shape d) [
        | integer ds ↦ cast_value_i2i (sizeof d) (sizeof s) ss v >>= λ x. ok (some x)
        | floating df ↦ cast_value_i2f ops df (sizeof s) ss v
        | other ↦ ok none
      ]
      | floating sf ↦ elim (shape d) [
        | integer ds ↦ cast_value_f2i ops (sizeof d) ds sf v
        | floating df ↦ cast_value_f2f ops (sizeof d) df sf v
        | other ↦ ok none
      ]
      | other ↦ ok none
    ]
