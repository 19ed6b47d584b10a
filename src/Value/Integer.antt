-- ===== src/Value/Integer.antt =====
-- `dbcc_typed_value_add` to `dbcc_typed_value_shift_right` and `dbcc_typed_value_negate`.
pub mod Sums
pub mod Products
pub mod Division
pub mod Ranges
use dbcc.Base.{
  ℕ, suc, ◌+◌, ◌-◌, ◌*◌, ◌/◌, ◌%◌, ◌^◌, Bool, true, false, not, ◌&&◌, ◌||◌, Option, none, some, ltb,
  leb, ◌==◌, if◌then◌else◌, ℤ, pos, negsuc, ◌++◌, ◌+ℤ◌, ◌-ℤ◌, ◌*ℤ◌, pos_part, neg_part, sub_ℕ, Run,
  ok, fault, ◌>>=◌, undefined, assertion,
}
use dbcc.CType.{CType, FloatType, sizeof}
use dbcc.CType.Query.{dequalify, is_integer, is_unsigned}
use dbcc.Value.Floats.{
  FloatOps, Real, Part, real, imaginary, complex, float_of, by_parts, get_part, real_of, part_of,
}
use dbcc.Value.{
  Value, load, load_int, store, arithmetic, promoted_size, promoted_signed, by_size, int_or_enum,
}

-- `*(T *) out = *(const T *) a op *(const T *) b`, with the C type of `w` bytes for `T`.
unfoldable pub binary : ℕ → Bool → (ℤ → ℤ → Run ℤ) → Value → Value → Run Value
unfolding load_int store
binary w is_signed op a b = do
  x ← load_int w is_signed a
  y ← load_int w is_signed b
  z ← op x y
  ok (store w z)

-- A function of the operands' values, in C's arithmetic.
abbrev pub exact : ℕ → Bool → (ℤ → ℤ → ℤ) → ℤ → ℤ → Run ℤ
exact w is_signed op x y = arithmetic w is_signed (op x y)

unfoldable pub typed_value_add : FloatOps → CType → Value → Value → Run Value
unfolding dequalify binary arithmetic by_parts
typed_value_add ops type a b =
    let t = dequalify type in
    if int_or_enum t
    then by_size (sizeof t) (λ w. binary w false (exact w false (λ x y. x +ℤ y)) a b)
    else elim (float_of t) [ some f ↦ by_parts ops f ops.add a b | none ↦ fault assertion ]

unfoldable pub typed_value_subtract : FloatOps → CType → Value → Value → Run Value
unfolding dequalify binary arithmetic by_parts
typed_value_subtract ops type a b =
    let t = dequalify type in
    if int_or_enum t
    then by_size (sizeof t) (λ w. binary w false (exact w false (λ x y. x -ℤ y)) a b)
    else elim (float_of t) [ some f ↦ by_parts ops f ops.subtract a b | none ↦ fault assertion ]

-- Complex numbers are multiplied part by part.
unfoldable pub typed_value_multiply : FloatOps → CType → Value → Value → Run Value
unfolding dequalify binary arithmetic by_parts is_unsigned
typed_value_multiply ops type a b =
    let t = dequalify type in
    if int_or_enum t
    then (let s = not (is_unsigned t) in
        by_size (sizeof t) (λ w. binary w s (exact w s (λ x y. x *ℤ y)) a b))
    else elim (float_of t) [ some f ↦ by_parts ops f ops.multiply a b | none ↦ fault assertion ]

-- C's division truncates.
abbrev pub magnitude : ℤ → ℕ
magnitude (pos n) = n
magnitude (negsuc n) = suc n

abbrev pub is_negative : ℤ → Bool
is_negative (pos _) = false
is_negative (negsuc _) = true

unfoldable pub quotient : ℤ → ℤ → ℤ
quotient x y =
    let q = magnitude x / magnitude y in
    if is_negative x
    then (if is_negative y then pos q else sub_ℕ 0 q)
    else (if is_negative y then sub_ℕ 0 q else pos q)

unfoldable pub remainder : ℤ → ℤ → ℤ
remainder x y = let r = magnitude x % magnitude y in if is_negative x then sub_ℕ 0 r else pos r

unfoldable pub divide : ℕ → Bool → ℤ → ℤ → Run ℤ
unfolding quotient arithmetic
divide w is_signed x y =
    if magnitude y == 0 then fault undefined else arithmetic w is_signed (quotient x y)

-- `%` is undefined where `/` is.
unfoldable pub modulo : ℕ → Bool → ℤ → ℤ → Run ℤ
unfolding divide remainder
modulo w is_signed x y = do q ← divide w is_signed x y; ok (remainder x y)

-- The shift count is below the number of bits of the promoted left operand.
abbrev pub bad_count : ℕ → ℤ → Bool
bad_count w y = is_negative y || leb (8 * promoted_size w) (pos_part y)

unfoldable pub shift_left : ℕ → Bool → ℤ → ℤ → Run ℤ
unfolding arithmetic
shift_left w is_signed x y =
    if bad_count w y || is_negative x
    then fault undefined
    else arithmetic w is_signed (pos (pos_part x * 2 ^ pos_part y))

-- A negative number is shifted with copies of its sign.
abbrev pub shifted : ℤ → ℕ → ℤ
shifted (pos n) k = pos (n / 2 ^ k)
shifted (negsuc n) k = negsuc (n / 2 ^ k)

unfoldable pub shift_right : ℕ → Bool → ℤ → ℤ → Run ℤ
shift_right w is_signed x y = if bad_count w y then fault undefined else ok (shifted x (pos_part y))

-- `DO_COMPLEX_FLOAT_DIVIDE`
unfoldable pub complex_divide : FloatOps → Real → Value → Value → Run Value
unfolding get_part
complex_divide ops r a b =
    let n = ops.size r in
    do
      ar ← get_part n 0 a
      ai ← get_part n n a
      br ← get_part n 0 b
      bi ← get_part n n b
      let zero = ops.of_int r (pos 0)
      let br_mag = if ops.less r br zero then ops.negate r br else br
      let bi_mag = if ops.less r bi zero then ops.negate r bi else bi
      let bi_over_br = ops.divide r bi br
      let denom = ops.add r br (ops.multiply r bi bi_over_br)
      let br_over_bi = ops.divide r br bi
      let denom' = ops.add r (ops.multiply r br br_over_bi) bi
      ok (
          if ops.less r bi_mag br_mag || ops.equal r bi_mag br_mag
          then ops.divide r (ops.add r ar (ops.multiply r ai bi_over_br)) denom
            ++ ops.divide r (ops.add r ai (ops.multiply r ar bi_over_br)) denom
          else ops.divide r (ops.add r (ops.multiply r ar br_over_bi) ai) denom'
            ++ ops.divide r (ops.subtract r (ops.multiply r ai br_over_bi) ar) denom')

unfoldable pub float_divide : FloatOps → FloatType → Value → Value → Run Value
unfolding complex_divide real_of part_of get_part
float_divide ops f a b =
    let r = real_of f in
    elim (part_of f) [
      | real ↦ do
        a0 ← get_part (ops.size r) 0 a
        b0 ← get_part (ops.size r) 0 b
        ok (ops.divide r a0 b0)
      | imaginary ↦ fault assertion
      | complex ↦ complex_divide ops r a b
    ]

unfoldable pub typed_value_divide : FloatOps → CType → Value → Value → Run Value
unfolding dequalify binary divide float_divide is_unsigned
typed_value_divide ops type a b =
    let t = dequalify type in
    if int_or_enum t
    then (let s = not (is_unsigned t) in by_size (sizeof t) (λ w. binary w s (divide w s) a b))
    else elim (float_of t) [ some f ↦ float_divide ops f a b | none ↦ fault assertion ]

-- `none` is false. Unlike its neighbours this operation, and the shifts too, ask for the
-- signedness of the type with its qualifiers.
unfoldable pub integer_only :
    (ℕ → Bool → ℤ → ℤ → Run ℤ) → CType → Value → Value → Run (Option Value)
unfolding is_integer is_unsigned binary
integer_only op type a b =
    if is_integer type
    then by_size (sizeof type)
        (λ w. let s = not (is_unsigned type) in binary w s (op w s) a b >>= λ v. ok (some v))
    else ok none

unfoldable pub typed_value_remainder : CType → Value → Value → Run (Option Value)
unfolding modulo integer_only
typed_value_remainder type a b = integer_only modulo type a b

unfoldable pub typed_value_shift_left : CType → Value → Value → Run (Option Value)
unfolding shift_left integer_only
typed_value_shift_left type a b = integer_only shift_left type a b

unfoldable pub typed_value_shift_right : CType → Value → Value → Run (Option Value)
unfolding shift_right integer_only
typed_value_shift_right type a b = integer_only shift_right type a b

unfoldable pub float_negate : FloatOps → FloatType → Value → Run Value
unfolding real_of part_of get_part
float_negate ops f a =
    let r = real_of f in
    let n = ops.size r in
    elim (part_of f) [
      | complex ↦ do
        a0 ← get_part n 0 a
        a1 ← get_part n n a
        ok (ops.negate r a0 ++ ops.negate r a1)
      | _ ↦ do a0 ← get_part n 0 a; ok (ops.negate r a0)
    ]

-- Integers are read as signed ones.
unfoldable pub typed_value_negate : FloatOps → CType → Value → Run Value
unfolding dequalify load_int arithmetic store float_negate
typed_value_negate ops type a =
    let t = dequalify type in
    if int_or_enum t
    then by_size (sizeof t)
        (λ w. do x ← load_int w true a; z ← arithmetic w true (pos 0 -ℤ x); ok (store w z))
    else elim (float_of t) [ some f ↦ float_negate ops f a | none ↦ fault assertion ]
