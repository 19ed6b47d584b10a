-- ===== src/Value/Words.antt =====
-- Integers of the sizes that the code knows, and reads of them.
use dbcc.Base.{ℕ, ◌%◌, ◌^◌, ◌<◌, ◌≡◌, refl, arith, true, false, ℤ, pos, negsuc, ok, inl, inr, ◌⊎◌}
use dbcc.CType.{CType, sizeof}
use dbcc.CType.Query.{dequalify}
use dbcc.Value.Bytes.{IsValue, load-IsValue}
use dbcc.Value.{Value, word, to_signed, convert, load_int, fits, is_size, int_or_enum}

-- `type` is an integer or an enum of `w` bytes, under its qualifiers.
abbrev pub Integral : CType → ℕ → Type 0
Integral type w =
    (int_or_enum (dequalify type) ≡ true) × (sizeof (dequalify type) ≡ w) × (is_size w ≡ true)

pub is_size-cases : (w : ℕ) → is_size w ≡ true → (w ≡ 1) ⊎ ((w ≡ 2) ⊎ ((w ≡ 4) ⊎ (w ≡ 8)))
is_size-cases w h = ground arith

pub by_sizes {ℓ} : (P : ℕ → Type ℓ) → P 1 → P 2 → P 4 → P 8 → (w : ℕ) → is_size w ≡ true → P w
by_sizes P p1 p2 p4 p8 w h = elim (is_size-cases w h) [
  | inl e ↦ rw e p1
  | inr (inl e) ↦ rw e p2
  | inr (inr (inl e)) ↦ rw e p4
  | inr (inr (inr e)) ↦ rw e p8
]

pub load_int-unsigned : (w : ℕ) (v : Value) → IsValue w v → load_int w false v ≡ ok (pos (word v))
unfolding load_int
load_int-unsigned w v h = rw (load-IsValue w v h) refl

pub load_int-signed :
    (w : ℕ) (v : Value) → IsValue w v → load_int w true v ≡ ok (to_signed w (word v))
unfolding load_int
load_int-signed w v h = rw (load-IsValue w v h) refl

pub convert-pos : (w n : ℕ) → convert w (pos n) ≡ n % 256 ^ w
unfolding convert
convert-pos w n = refl

-- The conversions are inverse to each other.
pub convert-to_signed : (w n : ℕ) → is_size w ≡ true → n < 256 ^ w → convert w (to_signed w n) ≡ n
unfolding convert to_signed
convert-to_signed w n h lt =
    by_sizes (λ w. (n : ℕ) → n < 256 ^ w → convert w (to_signed w n) ≡ n) (λ n lt. ground arith)
      (λ n lt. ground arith) (λ n lt. ground arith) (λ n lt. ground arith) w h n lt

pub to_signed-convert :
    (w : ℕ) (z : ℤ) → is_size w ≡ true → fits w z ≡ true → to_signed w (convert w z) ≡ z
unfolding convert to_signed fits
to_signed-convert w (pos n) h f =
    by_sizes (λ w. (n : ℕ) → fits w (pos n) ≡ true → to_signed w (convert w (pos n)) ≡ pos n)
      (λ n f. ground arith) (λ n f. ground arith) (λ n f. ground arith) (λ n f. ground arith) w h n
      f
to_signed-convert w (negsuc n) h f =
    by_sizes
      (λ w. (n : ℕ) → fits w (negsuc n) ≡ true → to_signed w (convert w (negsuc n)) ≡ negsuc n)
      (λ n f. ground arith) (λ n f. ground arith) (λ n f. ground arith) (λ n f. ground arith) w h n
      f

pub to_signed-fits : (w n : ℕ) → is_size w ≡ true → n < 256 ^ w → fits w (to_signed w n) ≡ true
unfolding to_signed fits
to_signed-fits w n h lt =
    by_sizes (λ w. (n : ℕ) → n < 256 ^ w → fits w (to_signed w n) ≡ true) (λ n lt. ground arith)
      (λ n lt. ground arith) (λ n lt. ground arith) (λ n lt. ground arith) w h n lt
