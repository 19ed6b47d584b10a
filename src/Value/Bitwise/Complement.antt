-- ===== src/Value/Bitwise/Complement.antt =====
-- The bitwise complement and the negation of an integer (dbcc-type.c).
use native.Mathlib.Nat.{pow-suc}
use dbcc.Base.{
  ℕ, zero, suc, ◌+◌, ◌-◌, ◌%◌, ◌^◌, ◌≡◌, refl, ap, arith, false, [], ◌∷◌, ◌>>=◌, Returns,
}
use dbcc.CType.{CType, sizeof}
use dbcc.Value.Bitwise.{complement, typed_value_bitwise_not}
use dbcc.Value.Bytes.{IsValue, bytes-IsValue, word-bytes}
use dbcc.Value.Floats.{FloatOps}
use dbcc.Value.Integer.Sums.{typed_value_add_lem, typed_value_negate_lem, overflows}
use dbcc.Value.Integer.{typed_value_add, typed_value_negate}
use dbcc.Value.Words.{Integral}
use dbcc.Value.{Value, word, bytes}

complement_lem :
    (w : ℕ) (v : Value)
    → IsValue w v
    → Returns (complement w v) (λ c. IsValue w c × (word c + word v + 1 ≡ 256 ^ w))
unfolding complement word
complement_lem zero [] h = ([], refl, (tt, omega arith))
complement_lem zero (b ∷ bs) h = elim h [ ]
complement_lem (suc w) [] h = elim h [ ]
complement_lem (suc w) (b ∷ bs) h =
    let (c, e, (hc, sum)) = complement_lem w bs h.1 in
    ((255 - b) ∷ c, rw e refl, ((omega arith, hc), omega (arith, sum, h.0, pow-suc 256 w)))

-- Where the negation of an integer does not overflow, adding 1 to its bitwise complement gives the
-- result of `dbcc_typed_value_negate`.
pub negate-bitwise_not :
    (ops : FloatOps) (type : CType) (w : ℕ) (a : Value)
    → Integral type w
    → sizeof type ≡ w
    → IsValue w a
    → overflows w (word a) ≡ false
    → (typed_value_bitwise_not type a >>= λ c. typed_value_add ops type c (bytes w 1))
      ≡ typed_value_negate ops type a
unfolding typed_value_bitwise_not
negate-bitwise_not ops type w a (i, e, h) plain ha n =
    let (c, run, (hc, sum)) = complement_lem w a ha in
    let small : w % 2 ^ 32 ≡ w = ground arith in
    let one : word (bytes w 1) ≡ 1 = word-bytes w 1 (ground arith) in
    let eq : (word c + 1) % 256 ^ w ≡ (256 ^ w - word a) % 256 ^ w =
      ap (λ n. n % 256 ^ w) (omega (arith, sum)) in
    rw
      (
        plain,
        small,
        run,
        typed_value_add_lem ops type w c (bytes w 1) (i, e, h) hc (bytes-IsValue w 1),
        typed_value_negate_lem ops type w a (i, e, h) ha,
        n,
        one,
        eq,
      )
      refl
