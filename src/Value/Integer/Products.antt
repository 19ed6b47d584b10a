-- ===== src/Value/Integer/Products.antt =====
-- Products of integers (dbcc-type.c, `dbcc_typed_value_multiply`).
use native.Mathlib.Nat.{
  mul_comm, mod-eq_of_lt, mod-lt, add-mul, mul-add, add-mul-mod_self_right, div-add-mod',
}
use dbcc.Base.{
  ℕ, ◌+◌, ◌-◌, ◌*◌, ◌/◌, ◌%◌, ◌^◌, ◌≤◌, ◌<◌, ◌≡◌, refl, ap, ◌∙◌, ◌⊎◌, inl, inr, arith, Bool, true,
  false, not, Bool-cases, leb, ltb, ◌&&◌, if◌then◌else◌, ℤ, pos_part, neg_part, pos, ◌*ℤ◌, sub_ℕ,
  ok, fault, ◌>>=◌, undefined,
}
use dbcc.CType.{CType}
use dbcc.CType.Query.{dequalify, is_unsigned}
use dbcc.Value.Bytes.{IsValue, word-lt, size-pos}
use dbcc.Value.Floats.{FloatOps}
use dbcc.Value.Integer.Sums.{wrap}
use dbcc.Value.Integer.{typed_value_multiply, binary}
use dbcc.Value.Words.{Integral, load_int-unsigned, load_int-signed}
use dbcc.Value.{
  Value, word, bytes, load_int, to_signed, promoted_signed, convert, store, arithmetic, fits,
  promoted_size,
}

split-multiple : (j k m : ℕ) → j ≤ k → k * m ≡ j * m + (k - j) * m
split-multiple j k m h =
    let e : k ≡ j + (k - j) = omega arith in ap (λ n. n * m) e ∙ add-mul j (k - j) m

-- A difference, converted, is what it is congruent to.
convert-sub_ℕ :
    (w a b r k j : ℕ)
    → r < 256 ^ w
    → a + k * 256 ^ w ≡ b + r + j * 256 ^ w
    → convert w (sub_ℕ a b) ≡ r
unfolding convert
convert-sub_ℕ w a b r k j lt e =
    let m = 256 ^ w in
    elim (Bool-cases (leb k j)) [
      | inl le ↦
          let s = split-multiple k j m (ground arith) in
          let n : a - b ≡ r + (j - k) * m = omega (arith, s) in
          let ge : leb b a ≡ true = ground (arith, s) in
          rw (ge, n, add-mul-mod_self_right r (j - k) m) (mod-eq_of_lt lt)
      | inr gt ↦
          let s = split-multiple j k m (ground arith) in
          let t = split-multiple 1 (k - j) m (ground arith) in
          let one : 1 * m ≡ m = omega arith in
          let n : b - a - 1 ≡ m - 1 - r + (k - j - 1) * m = omega (arith, s, t, one) in
          let small : (m - 1 - r) % m ≡ m - 1 - r = mod-eq_of_lt (omega arith) in
          let lt' : leb b a ≡ false = ground (arith, s, t, one) in
          rw (lt', n, add-mul-mod_self_right (m - 1 - r) (k - j - 1) m, small) (omega arith)
    ]

-- `z` is `x`, or `x` less `m`.
abbrev Represents : ℤ → ℕ → ℕ → Type 0
Represents z x m = ((pos_part z ≡ x) × (neg_part z ≡ 0)) ⊎ ((pos_part z ≡ 0) × (neg_part z + x ≡ m))

to_signed-Represents : (w x : ℕ) → x < 256 ^ w → Represents (to_signed w x) x (256 ^ w)
unfolding to_signed
to_signed-Represents w x h = elim (Bool-cases (ltb (2 * x) (256 ^ w))) [
  | inl e ↦ rw e (inl (refl, refl))
  | inr e ↦ rw e (inr (refl, omega arith))
]

expand : (n n' x y : ℕ) → n * n' + (x * (n' + y) + y * (n + x)) ≡ x * y + (n + x) * (n' + y)
expand n n' x y = grind arith

product-Represents :
    (w x y : ℕ) (z z' : ℤ)
    → Represents z x (256 ^ w)
    → Represents z' y (256 ^ w)
    → convert w (z *ℤ z') ≡ x * y % 256 ^ w
unfolding ◌*ℤ◌
product-Represents w x y z z' rx ry =
    let m = 256 ^ w in
    let q = x * y / m in
    let r = x * y % m in
    let lt : r < m = mod-lt (x * y) (size-pos w) in
    let qr : q * m + r ≡ x * y = div-add-mod' (x * y) m in
    elim rx [
      | inl (p, n) ↦ elim ry [
        | inl (p', n') ↦
            rw (p, n, p', n')
              (convert-sub_ℕ w (x * y + 0 * 0) (x * 0 + 0 * y) r 0 q lt (omega (arith, qr)))
        | inr (p', n') ↦
            rw (p, n, p')
              (convert-sub_ℕ w (x * 0 + 0 * neg_part z') (x * neg_part z' + 0 * 0) r x q lt
                (omega (arith, qr, mul-add x (neg_part z') y, ap (λ m. x * m) n')))
      ]
      | inr (p, n) ↦ elim ry [
        | inl (p', n') ↦
            rw (p, p', n')
              (convert-sub_ℕ w (0 * y + neg_part z * 0) (0 * 0 + neg_part z * y) r y q lt (
                omega (
                  arith,
                  qr,
                  mul-add y (neg_part z) x,
                  ap (λ m. y * m) n,
                  mul_comm y x,
                  mul_comm y (neg_part z),
                )))
        | inr (p', n') ↦
            let ex : neg_part z * neg_part z' + (x * m + y * m) ≡ x * y + m * m =
              rw (n, n') at (expand (neg_part z) (neg_part z') x y) in
            rw (p, p')
              (convert-sub_ℕ w (0 * 0 + neg_part z * neg_part z') (0 * neg_part z' + neg_part z * 0)
                r (x + y) (q + m) lt (omega (arith, ex, qr, add-mul x y m, add-mul q m m)))
      ]
    ]

convert-product :
    (w x y : ℕ)
    → x < 256 ^ w
    → y < 256 ^ w
    → convert w (to_signed w x *ℤ to_signed w y) ≡ x * y % 256 ^ w
convert-product w x y hx hy =
    product-Represents w x y (to_signed w x) (to_signed w y) (to_signed-Represents w x hx)
      (to_signed-Represents w y hy)

-- The two operands as C computes with them.
abbrev pub read : ℕ → Bool → ℕ → ℤ
read w s n = if s then to_signed w n else pos n

pub load_int-read :
    (w : ℕ) (s : Bool) (v : Value) → IsValue w v → load_int w s v ≡ ok (read w s (word v))
load_int-read w true v h = load_int-signed w v h
load_int-read w false v h = load_int-unsigned w v h

-- The result `z` of an operator overflows a signed type.
unfoldable pub overflow : ℕ → Bool → ℤ → Bool
unfolding fits
overflow w s z = promoted_signed w s && not (fits (promoted_size w) z)

pub settle_any :
    (w : ℕ) (s : Bool) (z : ℤ)
    → (arithmetic w s z >>= λ z. ok (store w z))
      ≡ (if overflow w s z then fault undefined else ok (bytes w (convert w z)))
unfolding arithmetic store overflow
settle_any w s z = elim (Bool-cases (promoted_signed w s)) [
  | inr e ↦ rw (e, wrap w z) refl
  | inl e ↦ elim (Bool-cases (fits (promoted_size w) z)) [
    | inl f ↦ rw (e, f) refl
    | inr f ↦ rw (e, f) refl
  ]
]

read-Represents : (w : ℕ) (s : Bool) (x : ℕ) → x < 256 ^ w → Represents (read w s x) x (256 ^ w)
read-Represents w true x h = to_signed-Represents w x h
read-Represents w false x h = inl (refl, refl)

-- On integers of w bytes `dbcc_typed_value_multiply` gives the product of the two words modulo
-- 256^w, and is undefined exactly if the product overflows the type that C multiplies in.
pub typed_value_multiply_lem :
    (ops : FloatOps) (type : CType) (w : ℕ) (a b : Value)
    → Integral type w
    → IsValue w a
    → IsValue w b
    → let s = not (is_unsigned (dequalify type)) in
      typed_value_multiply ops type a b ≡ (
        if overflow w s (read w s (word a) *ℤ read w s (word b))
        then fault undefined
        else ok (bytes w (word a * word b % 256 ^ w)))
unfolding typed_value_multiply binary
typed_value_multiply_lem ops type w a b (i, e, h) ha hb =
    let s = not (is_unsigned (dequalify type)) in
    let x = read w s (word a) in
    let y = read w s (word b) in
    let c : convert w (x *ℤ y) ≡ word a * word b % 256 ^ w =
      product-Represents w (word a) (word b) x y (read-Represents w s (word a) (word-lt w a ha))
        (read-Represents w s (word b) (word-lt w b hb)) in
    rw (i, e, h, load_int-read w s a ha, load_int-read w s b hb, settle_any w s (x *ℤ y), c) refl
