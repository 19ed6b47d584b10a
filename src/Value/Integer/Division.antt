-- ===== src/Value/Integer/Division.antt =====
-- Quotients and remainders of integers (dbcc-type.c).
use native.Mathlib.Nat.{div-add-mod', mod-lt}
use dbcc.Base.{
  ℕ, suc, ◌+◌, ◌*◌, ◌/◌, ◌%◌, ◌<◌, ◌≡◌, refl, arith, Bool, true, false, not, some, Bool-cases, inl,
  inr, ◌==◌, ℤ, pos, negsuc, pos_part, neg_part, ◌*ℤ◌, ◌+ℤ◌, sub_ℕ, ok, ◌>>=◌,
}
use dbcc.CType.{CType, sizeof}
use dbcc.CType.Query.{dequalify, is_unsigned, is_integer}
use dbcc.Value.Bytes.{IsValue}
use dbcc.Value.Floats.{FloatOps}
use dbcc.Value.Access.RoundTrip.{read-store}
use dbcc.Value.Integer.Ranges.{
  LeastByMinusOne, read-InRange, quotient-InRange, remainder-InRange, InRange-overflow,
}
use dbcc.Value.Integer.Products.{read, load_int-read, overflow, settle_any}
use dbcc.Value.Integer.{
  typed_value_divide, typed_value_remainder, binary, quotient, remainder, magnitude, is_negative,
  divide, modulo, integer_only,
}
use dbcc.Value.Words.{Integral}
use dbcc.Value.{Value, word, store, arithmetic, promoted_signed, promoted_size, fits, int_or_enum}

sub_ℕ-unique : (a b : ℕ) (x : ℤ) → a + neg_part x ≡ pos_part x + b → sub_ℕ a b ≡ x
sub_ℕ-unique a b (pos n) e = ground arith
sub_ℕ-unique a b (negsuc n) e = ground arith

sub_ℕ-parts : (a b : ℕ) → pos_part (sub_ℕ a b) + b ≡ neg_part (sub_ℕ a b) + a
sub_ℕ-parts a b = ground arith

multiply-add_unique :
    (q y r x : ℤ)
    → pos_part q * pos_part y + neg_part q * neg_part y + pos_part r + neg_part x
      ≡ pos_part x + (pos_part q * neg_part y + neg_part q * pos_part y) + neg_part r
    → q *ℤ y +ℤ r ≡ x
unfolding ◌*ℤ◌ ◌+ℤ◌
multiply-add_unique q y r x e =
    let a = pos_part q * pos_part y + neg_part q * neg_part y in
    let b = pos_part q * neg_part y + neg_part q * pos_part y in
    sub_ℕ-unique (pos_part (sub_ℕ a b) + pos_part r) (neg_part (sub_ℕ a b) + neg_part r) x
      (omega (arith, e, sub_ℕ-parts a b))

pos_part-negated : (q : ℕ) → pos_part (sub_ℕ 0 q) ≡ 0
pos_part-negated q = ground arith

neg_part-negated : (q : ℕ) → neg_part (sub_ℕ 0 q) ≡ q
neg_part-negated q = ground arith

pub quotient-remainder : (x y : ℤ) → quotient x y *ℤ y +ℤ remainder x y ≡ x
unfolding quotient remainder
quotient-remainder (pos a) (pos b) =
    multiply-add_unique (pos (a / b)) (pos b) (pos (a % b)) (pos a)
      (omega (arith, div-add-mod' a b))
quotient-remainder (pos a) (negsuc b) =
    multiply-add_unique (sub_ℕ 0 (a / suc b)) (negsuc b) (pos (a % suc b)) (pos a) (
      rw (pos_part-negated (a / suc b), neg_part-negated (a / suc b))
        (omega (arith, div-add-mod' a (suc b))))
quotient-remainder (negsuc a) (pos b) =
    multiply-add_unique (sub_ℕ 0 (suc a / b)) (pos b) (sub_ℕ 0 (suc a % b)) (negsuc a) (
      rw
        (
          pos_part-negated (suc a / b),
          neg_part-negated (suc a / b),
          pos_part-negated (suc a % b),
          neg_part-negated (suc a % b),
        )
        (omega (arith, div-add-mod' (suc a) b)))
quotient-remainder (negsuc a) (negsuc b) =
    multiply-add_unique (pos (suc a / suc b)) (negsuc b) (sub_ℕ 0 (suc a % suc b)) (negsuc a) (
      rw (pos_part-negated (suc a % suc b), neg_part-negated (suc a % suc b))
        (omega (arith, div-add-mod' (suc a) (suc b))))

magnitude-negated : (q : ℕ) → magnitude (sub_ℕ 0 q) ≡ q
magnitude-negated q = ground arith

remainder-small : (x y : ℤ) → 0 < magnitude y → magnitude (remainder x y) < magnitude y
unfolding remainder
remainder-small (pos a) y h = omega (arith, mod-lt a h)
remainder-small (negsuc a) y h = rw (magnitude-negated (suc a % magnitude y)) (mod-lt (suc a) h)

-- What both operators write on `a` and `b`, and the numbers that it stands for: the quotient is
-- truncated.
pub record Divides (ops : FloatOps) (type : CType) (w : ℕ) (s : Bool) (a b : Value) : Type 0 where
  pub quotient_bytes : Value
  pub remainder_bytes : Value
  pub divided : typed_value_divide ops type a b ≡ ok quotient_bytes
  pub rest : typed_value_remainder type a b ≡ ok (some remainder_bytes)
  pub whole :
      read w s (word quotient_bytes) *ℤ read w s (word b) +ℤ read w s (word remainder_bytes)
      ≡ read w s (word a)
  pub small : magnitude (read w s (word remainder_bytes)) < magnitude (read w s (word b))
  pub negative :
      is_negative (read w s (word a)) ≡ true → pos_part (read w s (word remainder_bytes)) ≡ 0
  pub positive :
      is_negative (read w s (word a)) ≡ false → neg_part (read w s (word remainder_bytes)) ≡ 0

remainder-negative : (x y : ℤ) → is_negative x ≡ true → pos_part (remainder x y) ≡ 0
unfolding remainder
remainder-negative (pos a) y h = absurd (cc)
remainder-negative (negsuc a) y h = pos_part-negated (suc a % magnitude y)

remainder-positive : (x y : ℤ) → is_negative x ≡ false → neg_part (remainder x y) ≡ 0
unfolding remainder
remainder-positive (pos a) y h = refl
remainder-positive (negsuc a) y h = absurd (cc)

int_or_enum-is_integer : (t : CType) → int_or_enum (dequalify t) ≡ true → is_integer t ≡ true
unfolding is_integer
int_or_enum-is_integer t h = ground arith

pos→== : (n : ℕ) → 0 < n → (n == 0) ≡ false
pos→== n h = ground arith

true-ne-false : (true ≡ false) → ⊥
true-ne-false h = ground arith

modulo-defined :
    (w : ℕ) (s : Bool) (x y : ℤ)
    → 0 < magnitude y
    → overflow w s (quotient x y) ≡ false
    → modulo w s x y ≡ ok (remainder x y)
unfolding modulo divide arithmetic overflow
modulo-defined w s x y y-pos h = elim (Bool-cases (promoted_signed w s)) [
  | inr e ↦ rw (pos→== (magnitude y) y-pos, e) refl
  | inl e ↦ elim (Bool-cases (fits (promoted_size w) (quotient x y))) [
    | inl f ↦ rw (pos→== (magnitude y) y-pos, e, f) refl
    | inr f ↦ absurd (true-ne-false (rw (e, f) at h))
  ]
]

divide-defined :
    (w : ℕ) (s : Bool) (x y : ℤ)
    → 0 < magnitude y
    → overflow w s (quotient x y) ≡ false
    → (divide w s x y >>= λ z. ok (store w z)) ≡ ok (store w (quotient x y))
unfolding divide store
divide-defined w s x y y-pos h =
    rw (pos→== (magnitude y) y-pos, settle_any w s (quotient x y), h) refl

-- For an unqualified integer type, a divisor that is not 0, and unless the least number of a signed
-- type is divided by -1, `dbcc_typed_value_divide` and `dbcc_typed_value_remainder` succeed, and of
-- the numbers that they write the quotient times the divisor plus the remainder is the dividend,
-- the remainder is smaller in magnitude than the divisor, and it is 0 or has the dividend's sign.
pub typed_value_divide-typed_value_remainder :
    (ops : FloatOps) (type : CType) (w : ℕ) (a b : Value)
    → Integral type w
    → dequalify type ≡ type
    → IsValue w a
    → IsValue w b
    → 0 < magnitude (read w (not (is_unsigned type)) (word b))
    → (LeastByMinusOne w
          (not (is_unsigned type))
          (read w (not (is_unsigned type)) (word a))
          (read w (not (is_unsigned type)) (word b))
        → ⊥)
    → Divides ops type w (not (is_unsigned type)) a b
unfolding typed_value_divide typed_value_remainder binary integer_only
typed_value_divide-typed_value_remainder ops type w a b (i, e, h) plain ha hb y-pos apart =
    let s = not (is_unsigned type) in
    let x = read w s (word a) in
    let y = read w s (word b) in
    let e' : sizeof type ≡ w = rw plain at e in
    let i' : int_or_enum type ≡ true = rw plain at i in
    let range =
      quotient-InRange w s x y h (read-InRange w s a h ha) (read-InRange w s b h hb) apart in
    let fine = InRange-overflow w s (quotient x y) h range in
    let q-read = read-store w s (quotient x y) range h in
    let r-read =
      read-store w s (remainder x y) (remainder-InRange w s x y (read-InRange w s a h ha)) h in
    record {
      quotient_bytes = store w (quotient x y);
      remainder_bytes = store w (remainder x y);
      divided =
          rw (plain, i', e', h, load_int-read w s a ha, load_int-read w s b hb)
            (divide-defined w s x y y-pos fine);
      rest =
          rw
            (
              int_or_enum-is_integer type i,
              e',
              h,
              load_int-read w s a ha,
              load_int-read w s b hb,
              modulo-defined w s x y y-pos fine,
            )
            refl;
      whole = rw (q-read, r-read) (quotient-remainder x y);
      small = rw r-read (remainder-small x y y-pos);
      negative = λ n. rw r-read (remainder-negative x y n);
      positive = λ n. rw r-read (remainder-positive x y n);
    }
