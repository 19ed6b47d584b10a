-- ===== src/CType/Layout/Align.antt =====
-- `DBCC_ALIGN` (dbcc.h) on powers of two, and at 0.
use native.Mathlib.Nat.{one-le-pow, pow-le-pow_right, pow-suc, mul-mod_left}
use dbcc.Base.{
  ℕ, ◌+◌, ◌-◌, ◌*◌, ◌/◌, ◌%◌, ◌^◌, ◌≤◌, ◌<◌, ◌≡◌, arith, suc, ltb, Bool-cases, inl, inr,
}
use dbcc.Bits.{bit_and-zero, pow-add, bit_and_high}
use dbcc.CType.Layout.{align_up, size_mod}

-- A power of two that `size_t` holds.
abbrev pub IsAlign : ℕ → Type 0
IsAlign a = (k : ℕ) × (k < 64) × (a ≡ 2 ^ k)

-- The two operands of `&`.
operands :
    (p offset : ℕ)
    → 1 ≤ p
    → p ≤ 2 ^ 63
    → offset + p ≤ size_mod
    → ((offset + p + (size_mod - 1)) % size_mod ≡ offset + p - 1)
      × (size_mod - 1 - (p + (size_mod - 1)) % size_mod ≡ size_mod - p)
operands p offset pos small fits = omega arith

pow-le : (k : ℕ) → k < 64 → 2 ^ k ≤ 2 ^ 63
pow-le k h = pow-le-pow_right (omega arith) {j = 63} (omega arith)

align_up_pow :
    (k offset : ℕ)
    → k < 64
    → offset + 2 ^ k ≤ size_mod
    → align_up offset (2 ^ k) ≡ (offset + 2 ^ k - 1) / 2 ^ k * 2 ^ k
unfolding align_up
align_up_pow k offset h fits =
    let pos = one-le-pow k 2 (omega arith) in
    let (sum, mask) = operands (2 ^ k) offset pos (pow-le k h) fits in
    let w : 64 - k + k ≡ 64 = omega arith in
    rw (sum, mask) (rw w at (bit_and_high (64 - k) k (offset + 2 ^ k - 1) (rw w (omega arith))))

round_up :
    (p offset : ℕ)
    → 1 ≤ p
    → let r = (offset + p - 1) / p * p in (offset ≤ r) × (r < offset + p) × (r % p ≡ 0)
round_up p offset pos = (grind arith, grind arith, mul-mod_left ((offset + p - 1) / p) p)

-- On a power of two, without an overflow, `DBCC_ALIGN` gives the least multiple that is not below
-- the offset.
pub align_up_lem :
    (offset align : ℕ)
    → IsAlign align
    → offset + align ≤ size_mod
    → (offset ≤ align_up offset align)
      × (align_up offset align < offset + align)
      × (align_up offset align % align ≡ 0)
align_up_lem offset align (k, h, e) fits =
    rw (e, align_up_pow k offset h (rw e at fits))
      (round_up (2 ^ k) offset (one-le-pow k 2 (omega arith)))

pub IsAlign-pos : {a : ℕ} → IsAlign a → 0 < a
IsAlign-pos (k, h, e) = rw e (one-le-pow k 2 (omega arith))

pow-order : (k m : ℕ) → 2 ^ k ≤ 2 ^ m → k ≤ m
pow-order k m h =
    let pos = one-le-pow m 2 (omega arith) in
    elim (Bool-cases (ltb m k)) [
      | inl e ↦
          let big : 2 ^ suc m ≤ 2 ^ k = pow-le-pow_right (omega arith) {j = k} (ground arith) in
          absurd (omega (arith, pow-suc 2 m))
      | inr e ↦ ground arith
    ]

-- Of two powers of two the smaller one divides the larger one.
pub IsAlign-mod : (a b : ℕ) → IsAlign a → IsAlign b → a ≤ b → b % a ≡ 0
IsAlign-mod a b (k, _, ea) (m, _, eb) h =
    let le = pow-order k m (rw (← ea, ← eb) h) in
    let split : m - k + k ≡ m = omega arith in
    rw (ea, eb, ← split, pow-add (m - k) k) (mul-mod_left (2 ^ (m - k)) (2 ^ k))

-- On an alignment of 0, which the types of pointers have, `DBCC_ALIGN` gives 0.
pub align_up-zero : (offset : ℕ) → align_up offset 0 ≡ 0
unfolding align_up
align_up-zero offset = bit_and-zero ((offset + 0 + (size_mod - 1)) % size_mod)
