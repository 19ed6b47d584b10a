-- ===== src/Value/Tests.antt =====
-- Runs of the operations on values (dbcc-type.c), and the theorems about them at concrete values.
use dbcc.Base.{
  ◌*◌, ◌%◌, ◌^◌, ◌≡◌, ◌↔◌, refl, inl, arith, Bool, true, false, some, [], ◌∷◌, ◌*ℤ◌, ◌+ℤ◌,
  if◌then◌else◌, pos, ok, fault, ◌>>=◌, Returns, undefined,
}
use dbcc.CType.Query.{dequalify, is_unsigned}
use dbcc.Sample.{
  int, uint, long, char, short, const_int, no_floats, six, two, minus_seven, six-IsValue,
  two-IsValue, seven-IsValue,
}
use dbcc.Value.Bitwise.Complement.{negate-bitwise_not}
use dbcc.Value.Bitwise.{typed_value_bitwise_not}
use dbcc.Value.Cast.Conversion.{cast_value-Wider}
use dbcc.Value.Cast.{cast_value, shape}
use dbcc.Value.Compare.Relations.{typed_value_compare_lem, less, operator, Holds}
use dbcc.Value.Compare.{typed_value_compare}
use dbcc.Value.Integer.Division.{Divides, typed_value_divide-typed_value_remainder}
use dbcc.Value.Integer.Products.{read, overflow, typed_value_multiply_lem}
use dbcc.Value.Integer.{
  typed_value_add, typed_value_multiply, typed_value_negate, typed_value_shift_right,
}
use dbcc.Value.{Value, word, bytes, store, to_signed}

sums : typed_value_add no_floats const_int six minus_seven ≡ ok (255 ∷ 255 ∷ 255 ∷ 255 ∷ [])
unfolding typed_value_add ◌+ℤ◌
sums = refl

-- Products of two unsigned 16-bit values are computed in `int`, which overflows.
narrow_overflow :
    typed_value_multiply no_floats
      (dbcc.CType.int_type (dbcc.Sample.base_of 700 2) false)
      (255 ∷ 255 ∷ [])
      (255 ∷ 255 ∷ [])
    ≡ fault undefined
unfolding typed_value_multiply ◌*ℤ◌
narrow_overflow = refl

-- A qualified unsigned type is shifted as a signed one.
signed_shift :
    typed_value_shift_right
      (dbcc.CType.qualified_type (dbcc.Sample.base_of 800 4) uint 1)
      (0 ∷ 0 ∷ 0 ∷ 128 ∷ [])
      (4 ∷ 0 ∷ 0 ∷ 0 ∷ [])
    ≡ ok (some (0 ∷ 0 ∷ 0 ∷ 248 ∷ []))
unfolding typed_value_shift_right
signed_shift = refl

typed_value_multiply_lem_example : typed_value_multiply no_floats int six minus_seven ≡ (
    if overflow 4 true (read 4 true (word six) *ℤ read 4 true (word minus_seven))
    then fault undefined
    else ok (bytes 4 (word six * word minus_seven % 256 ^ 4)))
unfolding dequalify is_unsigned
typed_value_multiply_lem_example =
    typed_value_multiply_lem no_floats int 4 six minus_seven (refl, refl, refl) six-IsValue
      seven-IsValue

typed_value_divide-typed_value_remainder_example : Divides no_floats int 4 true minus_seven two
unfolding dequalify is_unsigned word to_signed
typed_value_divide-typed_value_remainder_example =
    typed_value_divide-typed_value_remainder no_floats int 4 minus_seven two (refl, refl, refl) refl
      seven-IsValue two-IsValue (omega arith) (λ least. absurd (cc least.1))

negate-bitwise_not_example :
    (typed_value_bitwise_not int six >>= λ c. typed_value_add no_floats int c (bytes 4 1))
    ≡ typed_value_negate no_floats int six
unfolding dequalify word
negate-bitwise_not_example =
    negate-bitwise_not no_floats int 4 six (refl, refl, refl) refl six-IsValue refl

cast_value-Wider_example : Returns (cast_value no_floats long int minus_seven) (λ o.
    (c : Value) × (o ≡ some c)
    × (read 8 true (word c) ≡ read 4 true (word minus_seven))
    × (cast_value no_floats int long c ≡ ok (some minus_seven)))
unfolding dequalify shape
cast_value-Wider_example =
    cast_value-Wider no_floats long int 8 4 true true minus_seven (refl, refl, refl)
      (refl, refl, refl) (inl (refl, omega arith)) seven-IsValue

typed_value_compare_lem_example :
    (c : Bool) × ((c ≡ true) ↔ Holds less (read 4 true (word minus_seven)) (read 4 true (word six)))
    × (typed_value_compare no_floats int const_int (operator less) minus_seven six
        ≡ ok (some (store 4 (if c then pos 1 else pos 0))))
unfolding dequalify is_unsigned
typed_value_compare_lem_example =
    typed_value_compare_lem no_floats int const_int 4 4 less minus_seven six (refl, refl, refl)
      (refl, refl, refl) seven-IsValue six-IsValue
