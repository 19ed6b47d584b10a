-- ===== src/Value/Access/RoundTrip.antt =====
-- `dbcc_typed_value_set_int64` and `dbcc_typed_value_get_int64` (dbcc-type.c) in turn.
use dbcc.Base.{ℕ, ◌^◌, ◌<◌, ◌≡◌, refl, arith, Bool, true, false, not, none, ℤ, pos, ok, ◌>>=◌}
use dbcc.CType.{CType}
use dbcc.CType.Query.{dequalify, is_unsigned}
use dbcc.Value.Access.{typed_value_get_int64, typed_value_set_int64}
use dbcc.Value.Bytes.{IsValue, word-store, store-IsValue}
use dbcc.Value.Floats.{FloatOps, float_of}
use dbcc.Value.Integer.Products.{read, load_int-read}
use dbcc.Value.Words.{Integral, to_signed-convert, convert-pos}
use dbcc.Value.{Value, word, store, convert, fits, int_or_enum, load_int}
use native.Mathlib.Nat.{mod-eq_of_lt}

pub int_or_enum-float_of : (t : CType) → int_or_enum t ≡ true → float_of t ≡ none
int_or_enum-float_of t h = ground arith

-- What an integer type of `w` bytes can hold.
abbrev pub InRange : ℕ → Bool → ℤ → Type 0
InRange w true z = fits w z ≡ true
InRange w false z = (n : ℕ) × (z ≡ pos n) × (n < 256 ^ w)

pub typed_value_get_int64_lem :
    (ops : FloatOps) (type : CType) (w : ℕ) (v : Value)
    → Integral type w
    → IsValue w v
    → typed_value_get_int64 ops type v
      ≡ ok (convert 8 (read w (not (is_unsigned (dequalify type))) (word v)))
unfolding typed_value_get_int64
typed_value_get_int64_lem ops type w v (i, e, h) hv =
    rw
      (
        typed_value_get_int64,
        int_or_enum-float_of (dequalify type) i,
        e,
        h,
        load_int-read w (not (is_unsigned (dequalify type))) v hv,
      )
      refl

pub read-store :
    (w : ℕ) (s : Bool) (z : ℤ)
    → InRange w s z
    → (h : dbcc.Value.is_size w ≡ true) → read w s (word (store w z)) ≡ z
read-store w true z r h = rw (word-store w z) (to_signed-convert w z h r)
read-store w false z (n, e, lt) h =
    rw (e, word-store w (pos n), convert-pos w n, mod-eq_of_lt lt) refl

-- A number in the range of an integer type that `dbcc_typed_value_set_int64` writes is what
-- `dbcc_typed_value_get_int64` reads, as a `uint64_t`.
pub typed_value_get_int64-typed_value_set_int64 :
    (ops : FloatOps) (type : CType) (w : ℕ) (z : ℤ)
    → Integral type w
    → InRange w (not (is_unsigned (dequalify type))) z
    → (typed_value_set_int64 ops type z >>= λ v. typed_value_get_int64 ops type v)
      ≡ ok (convert 8 z)
unfolding typed_value_set_int64
typed_value_get_int64-typed_value_set_int64 ops type w z (i, e, h) r =
    let s = not (is_unsigned (dequalify type)) in
    rw
      (
        typed_value_set_int64,
        int_or_enum-float_of (dequalify type) i,
        e,
        h,
        typed_value_get_int64_lem ops type w (store w z) (i, e, h) (store-IsValue w z),
        read-store w s z r h,
      )
      refl
