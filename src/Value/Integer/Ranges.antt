-- ===== src/Value/Integer/Ranges.antt =====
-- The range of quotients and remainders of integers of one type (dbcc-type.c).
use native.Mathlib.Nat.{div-add-mod', mod-le, div-le_self}
use dbcc.Base.{
  ℕ, suc, zero, ◌*◌, ◌/◌, ◌%◌, ◌^◌, ◌<◌, ◌≤◌, ◌≡◌, ◌≢◌, ltb, ◌&&◌, not, refl, arith, Bool, true,
  false, ℤ, pos, negsuc, sub_ℕ,
}
use dbcc.Value.Access.RoundTrip.{InRange}
use dbcc.Value.Bytes.{IsValue, word-lt}
use dbcc.Value.Integer.Products.{read, overflow}
use dbcc.Value.Integer.{quotient, remainder, magnitude}
use dbcc.Value.Words.{by_sizes, to_signed-fits}
use dbcc.Value.{Value, word, fits, is_size, promoted_size}

-- The division of the least signed number by -1.
abbrev pub LeastByMinusOne : ℕ → Bool → ℤ → ℤ → Type 0
LeastByMinusOne w s x y = (s ≡ true) × (y ≡ negsuc 0) × (2 * magnitude x ≡ 256 ^ w)

pub read-InRange :
    (w : ℕ) (s : Bool) (v : Value)
    → is_size w ≡ true
    → IsValue w v
    → InRange w s (read w s (word v))
read-InRange w true v h hv = to_signed-fits w (word v) h (word-lt w v hv)
read-InRange w false v h hv = (word v, refl, word-lt w v hv)

div-half : (a b : ℕ) → 2 * (a / suc (suc b)) ≤ a
div-half a b = omega (arith, div-add-mod' a (suc (suc b)))

fits-pos : (w a q : ℕ) → fits w (pos a) ≡ true → q ≤ a → fits w (pos q) ≡ true
unfolding fits
fits-pos w a q h le = ground arith

fits-opposite : (w a q : ℕ) → fits w (pos a) ≡ true → q ≤ a → fits w (sub_ℕ 0 q) ≡ true
unfolding fits
fits-opposite w a zero h le = ground arith
fits-opposite w a (suc q) h le = ground arith

fits-negated : (w a q : ℕ) → fits w (negsuc a) ≡ true → q ≤ suc a → fits w (sub_ℕ 0 q) ≡ true
unfolding fits
fits-negated w a zero h le = ground arith
fits-negated w a (suc q) h le = ground arith

twice-lt :
    (w a : ℕ)
    → is_size w ≡ true
    → fits w (negsuc a) ≡ true
    → 2 * suc a ≢ 256 ^ w
    → 2 * suc a < 256 ^ w
unfolding fits
twice-lt w a h f apart =
    by_sizes (λ w. fits w (negsuc a) ≡ true → 2 * suc a ≢ 256 ^ w → 2 * suc a < 256 ^ w)
      (λ f e. ground arith) (λ f e. ground arith) (λ f e. ground arith) (λ f e. ground arith) w h f
      apart

-- Where both are negative, the quotient may be one too large.
positive_quotient :
    (w a b : ℕ)
    → is_size w ≡ true
    → fits w (negsuc a) ≡ true
    → (LeastByMinusOne w true (negsuc a) (negsuc b) → ⊥)
    → fits w (pos (suc a / suc b)) ≡ true
unfolding fits
positive_quotient w a zero h f apart =
    let apart' : 2 * suc a ≢ 256 ^ w = λ e. apart (refl, refl, e) in
    ground (arith, twice-lt w a h f apart', div-le_self (suc a) 1)
positive_quotient w a (suc b) h f apart = ground (arith, div-half (suc a) b)

pub quotient-InRange :
    (w : ℕ) (s : Bool) (x y : ℤ)
    → is_size w ≡ true
    → InRange w s x
    → InRange w s y
    → (LeastByMinusOne w s x y → ⊥)
    → InRange w s (quotient x y)
unfolding quotient
quotient-InRange w false x y h (a, e, lt) (b, e', lt') apart =
    rw (e, e') (a / b, refl, omega (arith, div-le_self a b, lt))
quotient-InRange w true (pos a) (pos b) h r r' apart = fits-pos w a (a / b) r (div-le_self a b)
quotient-InRange w true (pos a) (negsuc b) h r r' apart =
    fits-opposite w a (a / suc b) r (div-le_self a (suc b))
quotient-InRange w true (negsuc a) (pos b) h r r' apart =
    fits-negated w a (suc a / b) r (div-le_self (suc a) b)
quotient-InRange w true (negsuc a) (negsuc b) h r r' apart = positive_quotient w a b h r apart

pub remainder-InRange : (w : ℕ) (s : Bool) (x y : ℤ) → InRange w s x → InRange w s (remainder x y)
unfolding remainder
remainder-InRange w true (pos a) y r = fits-pos w a (a % magnitude y) r (mod-le a (magnitude y))
remainder-InRange w true (negsuc a) y r =
    fits-negated w a (suc a % magnitude y) r (mod-le (suc a) (magnitude y))
remainder-InRange w false x y (a, e, lt) =
    rw e (a % magnitude y, refl, omega (arith, mod-le a (magnitude y), lt))

wider : (w v : ℕ) (z : ℤ) → 256 ^ w ≤ 256 ^ v → fits w z ≡ true → fits v z ≡ true
unfolding fits
wider w v (pos n) le f = ground arith
wider w v (negsuc n) le f = ground arith

pub InRange-overflow :
    (w : ℕ) (s : Bool) (z : ℤ) → is_size w ≡ true → InRange w s z → overflow w s z ≡ false
unfolding overflow fits
InRange-overflow w true z h r =
    rw
      (by_sizes (λ w. fits w z ≡ true → fits (promoted_size w) z ≡ true) (wider 1 4 z (omega arith))
        (wider 2 4 z (omega arith)) (λ f. f) (λ f. f) w h r)
      refl
InRange-overflow w false z h (n, e, lt) = rw e (
    by_sizes (λ w. n < 256 ^ w → (ltb w 4 && not (fits (promoted_size w) (pos n))) ≡ false)
      (λ lt. ground arith) (λ lt. ground arith) (λ lt. refl) (λ lt. refl) w h lt)
