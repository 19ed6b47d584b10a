-- ===== src/Value/Integer/Sums.antt =====
-- Sums, differences and negations of integers (dbcc-type.c).
use dbcc.Base.{
  ℕ, ◌+◌, ◌-◌, ◌*◌, ◌%◌, ◌^◌, ◌≤◌, ◌<◌, ◌≡◌, refl, ◌∙◌, ◌⊎◌, inl, inr, ◌>>=◌, Bool-cases, le→ltb,
  leb, ◌&&◌, ◌==◌, arith, Bool, true, false, ltb, if◌then◌else◌, ℤ, pos, ◌+ℤ◌, ◌-ℤ◌, ok, fault,
  undefined,
}
use native.Mathlib.Nat.{mod-eq_of_lt, mod-lt}
use dbcc.CType.{CType}
use dbcc.Value.Bytes.{IsValue, word-lt, bytes-word, word-bytes, bytes-IsValue, size-pos, convert-lt}
use dbcc.Value.Floats.{FloatOps}
use dbcc.Value.Integer.{typed_value_add, typed_value_subtract, typed_value_negate, binary, exact}
use dbcc.Value.Words.{Integral, by_sizes, load_int-unsigned, load_int-signed, convert-pos}
use dbcc.Value.{Value, word, bytes, to_signed, convert, store, arithmetic, is_size, fits}

convert-add : (w x y : ℕ) → convert w (pos x +ℤ pos y) ≡ (x + y) % 256 ^ w
unfolding convert ◌+ℤ◌
convert-add w x y = ground arith

convert-sub :
    (w x y : ℕ)
    → is_size w ≡ true
    → x < 256 ^ w
    → y < 256 ^ w
    → convert w (pos x -ℤ pos y) ≡ (x + 256 ^ w - y) % 256 ^ w
unfolding convert ◌-ℤ◌
convert-sub w x y h hx hy =
    by_sizes
      (λ w.
        (x y : ℕ)
        → x < 256 ^ w
        → y < 256 ^ w
        → convert w (pos x -ℤ pos y) ≡ (x + 256 ^ w - y) % 256 ^ w)
      (λ x y hx hy. ground arith) (λ x y hx hy. ground arith) (λ x y hx hy. ground arith)
      (λ x y hx hy. ground arith) w h x y hx hy

pub wrap : (w : ℕ) (z : ℤ) → convert w (pos (convert w z)) ≡ convert w z
wrap w z = convert-pos w (convert w z) ∙ mod-eq_of_lt (convert-lt w z)

-- An unsigned result that `int` holds, or that is computed in an unsigned type, is stored
-- modulo 256 ^ w.
pub settle :
    (w : ℕ) (z : ℤ)
    → (fits 4 z ≡ true) ⊎ (4 ≤ w)
    → (arithmetic w false z >>= λ z. ok (store w z)) ≡ ok (bytes w (convert w z))
unfolding arithmetic store
settle w z (inl f) = elim (Bool-cases (ltb w 4)) [
  | inl e ↦ rw (e, f) refl
  | inr e ↦ rw (e, wrap w z) refl
]
settle w z (inr big) = rw (le→ltb 4 w big, wrap w z) refl

-- One unsigned operation on two values of `w` bytes.
pub binary-unsigned :
    (w : ℕ) (op : ℤ → ℤ → ℤ) (a b : Value)
    → IsValue w a
    → IsValue w b
    → (fits 4 (op (pos (word a)) (pos (word b))) ≡ true) ⊎ (4 ≤ w)
    → binary w false (exact w false op) a b
      ≡ ok (bytes w (convert w (op (pos (word a)) (pos (word b)))))
unfolding binary
binary-unsigned w op a b ha hb small =
    rw (load_int-unsigned w a ha, load_int-unsigned w b hb)
      (settle w (op (pos (word a)) (pos (word b))) small)

sum-small :
    (w x y : ℕ)
    → is_size w ≡ true
    → x < 256 ^ w
    → y < 256 ^ w
    → (fits 4 (pos x +ℤ pos y) ≡ true) ⊎ (4 ≤ w)
unfolding fits ◌+ℤ◌
sum-small w x y h hx hy =
    by_sizes
      (λ w. (x y : ℕ) → x < 256 ^ w → y < 256 ^ w → (fits 4 (pos x +ℤ pos y) ≡ true) ⊎ (4 ≤ w))
      (λ x y hx hy. inl (ground arith)) (λ x y hx hy. inl (ground arith))
      (λ x y hx hy. inr (omega arith)) (λ x y hx hy. inr (omega arith)) w h x y hx hy

difference-small :
    (w x y : ℕ)
    → is_size w ≡ true
    → x < 256 ^ w
    → y < 256 ^ w
    → (fits 4 (pos x -ℤ pos y) ≡ true) ⊎ (4 ≤ w)
unfolding fits ◌-ℤ◌
difference-small w x y h hx hy =
    by_sizes
      (λ w. (x y : ℕ) → x < 256 ^ w → y < 256 ^ w → (fits 4 (pos x -ℤ pos y) ≡ true) ⊎ (4 ≤ w))
      (λ x y hx hy. inl (ground arith)) (λ x y hx hy. inl (ground arith))
      (λ x y hx hy. inr (omega arith)) (λ x y hx hy. inr (omega arith)) w h x y hx hy

-- On integers of w bytes `dbcc_typed_value_add` gives the sum of the two words modulo 256^w.
pub typed_value_add_lem :
    (ops : FloatOps) (type : CType) (w : ℕ) (a b : Value)
    → Integral type w
    → IsValue w a
    → IsValue w b
    → typed_value_add ops type a b ≡ ok (bytes w ((word a + word b) % 256 ^ w))
unfolding typed_value_add
typed_value_add_lem ops type w a b (i, e, h) ha hb =
    rw
      (
        i,
        e,
        h,
        binary-unsigned w (λ x y. x +ℤ y) a b ha hb
            (sum-small w (word a) (word b) h (word-lt w a ha) (word-lt w b hb)),
        convert-add w (word a) (word b),
      )
      refl

-- On integers of w bytes `dbcc_typed_value_subtract` gives the difference of the two words modulo
-- 256^w.
pub typed_value_subtract_lem :
    (ops : FloatOps) (type : CType) (w : ℕ) (a b : Value)
    → Integral type w
    → IsValue w a
    → IsValue w b
    → typed_value_subtract ops type a b ≡ ok (bytes w ((word a + 256 ^ w - word b) % 256 ^ w))
unfolding typed_value_subtract
typed_value_subtract_lem ops type w a b (i, e, h) ha hb =
    rw
      (
        i,
        e,
        h,
        binary-unsigned w (λ x y. x -ℤ y) a b ha hb
            (difference-small w (word a) (word b) h (word-lt w a ha) (word-lt w b hb)),
        convert-sub w (word a) (word b) h (word-lt w a ha) (word-lt w b hb),
      )
      refl

undo :
    (w x y : ℕ)
    → is_size w ≡ true
    → x < 256 ^ w
    → y < 256 ^ w
    → ((x + y) % 256 ^ w + 256 ^ w - y) % 256 ^ w ≡ x
undo w x y h hx hy =
    by_sizes
      (λ w. (x y : ℕ) → x < 256 ^ w → y < 256 ^ w → ((x + y) % 256 ^ w + 256 ^ w - y) % 256 ^ w ≡ x)
      (λ x y hx hy. omega arith) (λ x y hx hy. omega arith) (λ x y hx hy. omega arith)
      (λ x y hx hy. omega arith) w h x y hx hy

-- On integers, the subtraction of b from the sum of a and b gives the bytes of a again.
pub typed_value_subtract-typed_value_add :
    (ops : FloatOps) (type : CType) (w : ℕ) (a b : Value)
    → Integral type w
    → IsValue w a
    → IsValue w b
    → (typed_value_add ops type a b >>= λ c. typed_value_subtract ops type c b) ≡ ok a
typed_value_subtract-typed_value_add ops type w a b i ha hb =
    let n = (word a + word b) % 256 ^ w in
    let lt : n < 256 ^ w = mod-lt (word a + word b) (size-pos w) in
    rw
      (
        typed_value_add_lem ops type w a b i ha hb,
        typed_value_subtract_lem ops type w (bytes w n) b i (bytes-IsValue w n) hb,
        word-bytes w n lt,
        undo w (word a) (word b) i.2 (word-lt w a ha) (word-lt w b hb),
        bytes-word w a ha,
      )
      refl

-- The negation of the smallest signed number overflows where it is not computed in a wider type.
abbrev pub overflows : ℕ → ℕ → Bool
overflows w n = leb 4 w && (2 * n == 256 ^ w)

negation-arithmetic :
    (w n : ℕ)
    → is_size w ≡ true
    → n < 256 ^ w
    → arithmetic w true (pos 0 -ℤ to_signed w n)
      ≡ (if overflows w n then fault undefined else ok (pos 0 -ℤ to_signed w n))
unfolding arithmetic fits ◌-ℤ◌ to_signed
negation-arithmetic w n h lt =
    by_sizes
      (λ w.
        (n : ℕ)
        → n < 256 ^ w
        → arithmetic w true (pos 0 -ℤ to_signed w n)
          ≡ (if overflows w n then fault undefined else ok (pos 0 -ℤ to_signed w n)))
      (λ n lt. ground arith) (λ n lt. ground arith) (λ n lt. ground arith) (λ n lt. ground arith) w
      h n lt

convert-negation :
    (w n : ℕ)
    → is_size w ≡ true
    → n < 256 ^ w
    → convert w (pos 0 -ℤ to_signed w n) ≡ (256 ^ w - n) % 256 ^ w
unfolding convert ◌-ℤ◌ to_signed
convert-negation w n h lt =
    by_sizes
      (λ w. (n : ℕ) → n < 256 ^ w → convert w (pos 0 -ℤ to_signed w n) ≡ (256 ^ w - n) % 256 ^ w)
      (λ n lt. ground arith) (λ n lt. ground arith) (λ n lt. ground arith) (λ n lt. ground arith) w
      h n lt

-- On integers of w bytes `dbcc_typed_value_negate` gives the two's complement of the word, and is
-- undefined exactly for the least `int` of 4 bytes and the least number of 8 bytes.
pub typed_value_negate_lem :
    (ops : FloatOps) (type : CType) (w : ℕ) (a : Value)
    → Integral type w
    → IsValue w a
    → typed_value_negate ops type a ≡ (
        if overflows w (word a)
        then fault undefined
        else ok (bytes w ((256 ^ w - word a) % 256 ^ w)))
unfolding typed_value_negate store
typed_value_negate_lem ops type w a (i, e, h) ha =
    rw (i, e, h, load_int-signed w a ha, negation-arithmetic w (word a) h (word-lt w a ha))
      (elim (Bool-cases (overflows w (word a))) [
        | inl o ↦ rw o refl
        | inr o ↦ rw (o, convert-negation w (word a) h (word-lt w a ha)) refl
      ])
