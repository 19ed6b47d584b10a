-- ===== src/Bits.antt =====
-- Masks in the arithmetic of `size_t`: `&` with a mask, as a quotient and a product.
use Prim.Native.Nat.{bit_and, digits, bit_and-bitwise}
use native.Mathlib.Nat.{add-zero, pow-suc, one-le-pow, mul_assoc, mul_comm, div-div-eq-div-mul}
use dbcc.Base.{
  ℕ, zero, suc, ◌+◌, ◌-◌, ◌*◌, ◌/◌, ◌%◌, ◌^◌, ◌≤◌, ◌<◌, min, ◌≡◌, refl, sym, ◌∙◌, arith,
}

-- The binary digits of `&`, up to a number of digits.
abbrev and_digits : ℕ → ℕ → ℕ → ℕ
and_digits width a b = digits (λ _. zero) min width a b

no_ones : (width a : ℕ) → and_digits width a 0 ≡ 0
no_ones zero a = refl
no_ones (suc width) zero = refl
no_ones (suc width) (suc a) = omega (arith, no_ones width (suc a / 2))

all_ones : (j width a : ℕ) → a ≤ width → a < 2 ^ j → and_digits width a (2 ^ j - 1) ≡ a
all_ones j zero a le lt = omega arith
all_ones j (suc width) zero le lt = refl
all_ones zero (suc width) (suc a) le lt = absurd (omega arith)
all_ones (suc j) (suc width) (suc a) le lt =
    let double = pow-suc 2 j in
    let positive = one-le-pow j 2 (omega arith) in
    let half : (2 ^ suc j - 1) / 2 ≡ 2 ^ j - 1 = omega arith in
    let odd : (2 ^ suc j - 1) % 2 ≡ 1 = omega arith in
    let rest = all_ones j width (suc a / 2) (omega arith) (omega arith) in
    rw (half, odd, rest) (omega arith)

-- The mask with the bits `k` to `j + k - 1`.
ones_above :
    (k j width a : ℕ)
    → a ≤ width
    → a < 2 ^ (j + k)
    → and_digits width a (2 ^ (j + k) - 2 ^ k) ≡ a / 2 ^ k * 2 ^ k
ones_above zero j width a le lt =
    let whole : j + 0 ≡ j = omega arith in
    rw whole (rw (all_ones j width a le (rw whole at lt)) (omega arith))
ones_above (suc k) j zero a le lt = ground arith
ones_above (suc k) j (suc width) zero le lt = ground (arith, one-le-pow (suc k) 2)
ones_above (suc k) j (suc width) (suc a) le lt =
    let next : j + suc k ≡ suc (j + k) = omega arith in
    let double = pow-suc 2 (j + k) in
    let twice = pow-suc 2 k in
    let half : (2 ^ suc (j + k) - 2 ^ suc k) / 2 ≡ 2 ^ (j + k) - 2 ^ k = omega arith in
    let even : (2 ^ suc (j + k) - 2 ^ suc k) % 2 ≡ 0 = omega arith in
    let rest = ones_above k j width (suc a / 2) (omega arith) (omega (arith, rw next at lt)) in
    let quotient : suc a / 2 ^ suc k ≡ suc a / 2 / 2 ^ k =
      rw (twice, mul_comm (2 ^ k) 2) (sym (div-div-eq-div-mul (suc a) 2 (2 ^ k))) in
    rw (next, half, even, rest, quotient, twice)
      (omega (arith, mul_assoc (suc a / 2 / 2 ^ k) (2 ^ k) 2))

pub bit_and-zero : (a : ℕ) → bit_and a 0 ≡ 0
bit_and-zero a = bit_and-bitwise a 0 ∙ no_ones a a

pub bit_and_high :
    (j k a : ℕ) → a < 2 ^ (j + k) → bit_and a (2 ^ (j + k) - 2 ^ k) ≡ a / 2 ^ k * 2 ^ k
bit_and_high j k a fits =
    bit_and-bitwise a (2 ^ (j + k) - 2 ^ k) ∙ ones_above k j a a (omega arith) fits

pub pow-add : (j k : ℕ) → 2 ^ (j + k) ≡ 2 ^ j * 2 ^ k
pow-add j zero = rw add-zero (omega arith)
pow-add j (suc k) =
    let next : j + suc k ≡ suc (j + k) = omega arith in
    rw (next, pow-suc 2 (j + k), pow-suc 2 k, pow-add j k) (mul_assoc (2 ^ j) (2 ^ k) 2)

digits-le : (width a b : ℕ) → and_digits width a b ≤ b
digits-le zero a b = omega arith
digits-le (suc width) zero b = omega arith
digits-le (suc width) (suc a) b = omega (arith, digits-le width (suc a / 2) (b / 2))

pub bit_and-le : (a b : ℕ) → bit_and a b ≤ b
bit_and-le a b = rw (bit_and-bitwise a b) (digits-le a a b)
