-- ===== src/Value/Bytes.antt =====
-- Reading and writing of integers as bytes.
use native.Mathlib.Nat.{one-le-pow, pow-suc}
use dbcc.Base.{
  ℕ, zero, suc, ◌+◌, ◌*◌, ◌/◌, ◌%◌, ◌^◌, ◌≤◌, ◌<◌, ◌≡◌, refl, ap, arith, ◌∷◌, [], ℤ, pos, negsuc,
  ok, length, take,
}
use dbcc.Value.{Value, word, bytes, load, convert, store}

-- A value of `w` bytes.
abbrev pub IsValue : ℕ → Value → Type 0
IsValue zero [] = Unit
IsValue zero (b ∷ bs) = ⊥
IsValue (suc w) [] = ⊥
IsValue (suc w) (b ∷ bs) = (b < 256) × IsValue w bs

pub bytes-IsValue : (w n : ℕ) → IsValue w (bytes w n)
unfolding bytes
bytes-IsValue zero n = tt
bytes-IsValue (suc w) n = (omega arith, bytes-IsValue w (n / 256))

pub word-lt : (w : ℕ) (v : Value) → IsValue w v → word v < 256 ^ w
unfolding word
word-lt zero [] h = omega arith
word-lt zero (b ∷ bs) h = elim h [ ]
word-lt (suc w) [] h = elim h [ ]
word-lt (suc w) (b ∷ bs) h = rw (pow-suc 256 w) (omega (arith, h.0, word-lt w bs h.1))

pub IsValue-length : (w : ℕ) (v : Value) → IsValue w v → length v ≡ w
IsValue-length zero [] h = refl
IsValue-length zero (b ∷ bs) h = elim h [ ]
IsValue-length (suc w) [] h = elim h [ ]
IsValue-length (suc w) (b ∷ bs) h = ap suc (IsValue-length w bs h.1)

pub IsValue-take : (w : ℕ) (v : Value) → IsValue w v → take w v ≡ v
IsValue-take zero [] h = refl
IsValue-take zero (b ∷ bs) h = elim h [ ]
IsValue-take (suc w) [] h = elim h [ ]
IsValue-take (suc w) (b ∷ bs) h = ap (λ l. b ∷ l) (IsValue-take w bs h.1)

pub bytes-word : (w : ℕ) (v : Value) → IsValue w v → bytes w (word v) ≡ v
unfolding bytes word
bytes-word zero [] h = refl
bytes-word zero (b ∷ bs) h = elim h [ ]
bytes-word (suc w) [] h = elim h [ ]
bytes-word (suc w) (b ∷ bs) h =
    let low : (b + 256 * word bs) % 256 ≡ b = omega (arith, h.0) in
    let high : (b + 256 * word bs) / 256 ≡ word bs = omega (arith, h.0) in
    rw (low, high, bytes-word w bs h.1) refl

pub word-bytes : (w n : ℕ) → n < 256 ^ w → word (bytes w n) ≡ n
unfolding bytes word
word-bytes zero n h = omega arith
word-bytes (suc w) n h =
    let lt : n / 256 < 256 ^ w = omega (arith, pow-suc 256 w) in
    omega (arith, word-bytes w (n / 256) lt)

pub load-IsValue : (w : ℕ) (v : Value) → IsValue w v → load w v ≡ ok (word v)
unfolding load
load-IsValue w v h = rw (IsValue-length w v h, IsValue-take w v h) (ground arith)

pub size-pos : (w : ℕ) → 1 ≤ 256 ^ w
size-pos w = one-le-pow w 256 (omega arith)

pub convert-lt : (w : ℕ) (z : ℤ) → convert w z < 256 ^ w
unfolding convert
convert-lt w (pos n) = ground (arith, size-pos w)
convert-lt w (negsuc n) = ground (arith, size-pos w)

pub store-IsValue : (w : ℕ) (z : ℤ) → IsValue w (store w z)
unfolding store
store-IsValue w z = bytes-IsValue w (convert w z)

pub word-store : (w : ℕ) (z : ℤ) → word (store w z) ≡ convert w z
unfolding store
word-store w z = word-bytes w (convert w z) (convert-lt w z)
