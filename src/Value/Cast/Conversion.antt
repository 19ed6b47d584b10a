-- ===== src/Value/Cast/Conversion.antt =====
-- Casts between integer types (dbcc-type.c, `dbcc_cast_value`).
use native.Mathlib.Nat.{mod-eq_of_lt, pow-le-pow_right, pow-suc}
use dbcc.Base.{
  ℕ, suc, ◌⊎◌, Returns, ◌^◌, ◌≤◌, ◌<◌, ◌≡◌, refl, ap, ◌∙◌, arith, Bool, true, false, some, ℤ, pos,
  negsuc, ok, ◌==◌, Bool-cases, inl, inr, ==→eq,
}
use dbcc.CType.{CType, sizeof}
use dbcc.CType.Query.{dequalify}
use dbcc.Value.Bytes.{
  IsValue, IsValue-length, IsValue-take, bytes-word, store-IsValue, word-store, word-lt,
}
use dbcc.Value.Cast.{cast_value, cast_value_i2i, copy, integer, shape}
use dbcc.Value.Floats.{FloatOps}
use dbcc.Value.Integer.Products.{read, load_int-read}
use dbcc.Value.Words.{to_signed-convert, to_signed-fits, convert-to_signed, convert-pos}
use dbcc.Value.{Value, word, store, convert, to_signed, is_size, fits}

-- `type` is an integer type of `w` bytes under its qualifiers, signed if `s`.
abbrev pub IsInt : CType → ℕ → Bool → Type 0
IsInt type w s =
    (shape (dequalify type) ≡ integer s) × (sizeof (dequalify type) ≡ w) × (is_size w ≡ true)

pub copy-IsValue : (w : ℕ) (v : Value) → IsValue w v → copy w v ≡ ok v
unfolding copy
copy-IsValue w v h = rw (IsValue-length w v h, IsValue-take w v h) (ground arith)

pub convert-read :
    (w n : ℕ) (s : Bool) → is_size w ≡ true → n < 256 ^ w → convert w (read w s n) ≡ n
convert-read w n true h lt = convert-to_signed w n h lt
convert-read w n false h lt = convert-pos w n ∙ mod-eq_of_lt lt

store-read :
    (w : ℕ) (s : Bool) (v : Value)
    → is_size w ≡ true
    → IsValue w v
    → store w (read w s (word v)) ≡ v
unfolding store
store-read w s v h hv = rw (convert-read w (word v) s h (word-lt w v hv)) (bytes-word w v hv)

pub cast_value_i2i_lem :
    (d w : ℕ) (s : Bool) (v : Value)
    → is_size d ≡ true
    → is_size w ≡ true
    → IsValue w v
    → cast_value_i2i d w s v ≡ ok (store d (read w s (word v)))
unfolding cast_value_i2i
cast_value_i2i_lem d w s v hd hw hv = elim (Bool-cases (d == w)) [
  | inl e ↦ rw (e, ==→eq d w e, copy-IsValue w v hv, store-read w s v hw hv) refl
  | inr e ↦ rw (e, hd, hw, load_int-read w s v hv) refl
]

-- A cast from one integer type to another writes the number that the bytes stand for in the
-- source's signedness, modulo the destination's range.
pub cast_value_lem :
    (ops : FloatOps) (dst src : CType) (d w : ℕ) (ds ss : Bool) (v : Value)
    → IsInt dst d ds
    → IsInt src w ss
    → IsValue w v
    → cast_value ops dst src v ≡ ok (some (store d (read w ss (word v))))
unfolding cast_value
cast_value_lem ops dst src d w ds ss v (sd, ed, hd) (sw, ew, hw) hv =
    rw (cast_value, sw, sd, ed, ew, cast_value_i2i_lem d w ss v hd hw hv) refl

-- The type of `d` bytes has a place for every value of the type of `w` bytes.
abbrev pub Wider : ℕ → Bool → ℕ → Bool → Type 0
Wider d ds w ss = ((ds ≡ ss) × (w ≤ d)) ⊎ ((ds ≡ true) × (ss ≡ false) × (w < d))

size-le : (w d : ℕ) → w ≤ d → 256 ^ w ≤ 256 ^ d
size-le w d h = pow-le-pow_right {n = 256} (omega arith) {j = d} h

fits_mono : (w d : ℕ) (z : ℤ) → w ≤ d → fits w z ≡ true → fits d z ≡ true
unfolding fits
fits_mono w d (pos n) h f = ground (arith, size-le w d h)
fits_mono w d (negsuc n) h f = ground (arith, size-le w d h)

-- A wider type reads back what it is given.
widen :
    (d w n : ℕ) (ds ss : Bool)
    → is_size d ≡ true
    → is_size w ≡ true
    → n < 256 ^ w
    → Wider d ds w ss
    → read d ds (convert d (read w ss n)) ≡ read w ss n
unfolding fits
widen d w n true true hd hw lt (inl (_, le)) =
    to_signed-convert d (to_signed w n) hd
      (fits_mono w d (to_signed w n) le (to_signed-fits w n hw lt))
widen d w n false false hd hw lt (inl (_, le)) =
    let small : n < 256 ^ d = omega (arith, size-le w d le) in
    rw (convert-pos d n, mod-eq_of_lt small) refl
widen d w n true false hd hw lt (inl (e, le)) = absurd (ground arith)
widen d w n false true hd hw lt (inl (e, le)) = absurd (ground arith)
widen d w n ds ss hd hw lt (inr (e, e', le)) =
    let f : fits d (pos n) ≡ true = ground (arith, size-le (suc w) d le, pow-suc 256 w) in
    rw (e, e') (to_signed-convert d (pos n) hd f)

-- A cast of an integer to a type of the same signedness that is at least as wide, or of an unsigned
-- integer to a wider signed type, keeps the number that the bytes stand for, and the cast back
-- gives the first bytes again.
pub cast_value-Wider :
    (ops : FloatOps) (dst src : CType) (d w : ℕ) (ds ss : Bool) (v : Value)
    → IsInt dst d ds
    → IsInt src w ss
    → Wider d ds w ss
    → IsValue w v
    → Returns (cast_value ops dst src v) (λ o.
      (c : Value) × (o ≡ some c)
      × (read d ds (word c) ≡ read w ss (word v))
      × (cast_value ops src dst c ≡ ok (some v)))
cast_value-Wider ops dst src d w ds ss v hd hw wide hv =
    let c = store d (read w ss (word v)) in
    let kept : read d ds (word c) ≡ read w ss (word v) =
      ap (read d ds) (word-store d (read w ss (word v)))
      ∙ widen d w (word v) ds ss hd.2 hw.2 (word-lt w v hv) wide in
    (
      some c,
      cast_value_lem ops dst src d w ds ss v hd hw hv,
      (
        c,
        refl,
        kept,
        cast_value_lem ops src dst w d ss ds c hw hd (store-IsValue d (read w ss (word v)))
            ∙ ap (λ z. ok (some (store w z))) kept
            ∙ ap (λ l. ok (some l)) (store-read w ss v hw.2 hv),
      ),
    )
