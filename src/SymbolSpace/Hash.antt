-- ===== src/SymbolSpace/Hash.antt =====
-- The hash of dbcc-symbol.c, `lookup3`, in the arithmetic of `uint32_t`. The blocks of four bytes
-- are read on a little-endian host.
use Prim.Native.Nat.{bit_xor, bit_or}
use dbcc.Base.{ℕ, ◌+◌, ◌-◌, ◌*◌, ◌/◌, ◌%◌, ◌^◌, List, [], ◌∷◌, length, get_or}

abbrev u32 : ℕ
u32 = 2 ^ 32

add : ℕ → ℕ → ℕ
add a b = (a + b) % u32

subtract : ℕ → ℕ → ℕ
subtract a b = (a + u32 - b) % u32

-- `rot`
rotate : ℕ → ℕ → ℕ
rotate x k = bit_or (x * 2 ^ k % u32) (x / 2 ^ (32 - k))

-- The variables `a`, `b` and `c`.
pub record Lanes : Type 0 where
  pub a : ℕ
  pub b : ℕ
  pub c : ℕ

-- `x -= z; x ^= rot (z, k);`
mix_step : ℕ → ℕ → ℕ → ℕ
unfolding subtract rotate
mix_step k x z = bit_xor (subtract x z) (rotate z k)

-- `lookup3_mix`
unfoldable pub lookup3_mix : Lanes → Lanes
unfolding add mix_step
lookup3_mix s =
    let a1 = mix_step 4 s.a s.c in
    let c1 = add s.c s.b in
    let b1 = mix_step 6 s.b a1 in
    let a2 = add a1 c1 in
    let c2 = mix_step 8 c1 b1 in
    let b2 = add b1 a2 in
    let a3 = mix_step 16 a2 c2 in
    let c3 = add c2 b2 in
    let b3 = mix_step 19 b2 a3 in
    let a4 = add a3 c3 in
    let c4 = mix_step 4 c3 b3 in let b4 = add b3 a4 in record { a = a4; b = b4; c = c4 }

-- `x ^= y; x -= rot (y, k);`
final_step : ℕ → ℕ → ℕ → ℕ
unfolding subtract rotate
final_step k x y = subtract (bit_xor x y) (rotate y k)

-- `lookup3_final`, of which `c` is used.
unfoldable pub lookup3_final : Lanes → ℕ
unfolding final_step
lookup3_final s =
    let c1 = final_step 14 s.c s.b in
    let a1 = final_step 11 s.a c1 in
    let b1 = final_step 25 s.b a1 in
    let c2 = final_step 16 c1 b1 in
    let a2 = final_step 4 a1 c2 in let b2 = final_step 14 b1 a2 in final_step 24 c2 b2

-- The bytes `i` to `i + 3` of the key that are there, lowest first.
unfoldable pub word_at : List ℕ → ℕ → ℕ
word_at k i =
    get_or k i 0
    + get_or k (i + 1) 0 * 2 ^ 8
    + get_or k (i + 2) 0 * 2 ^ 16
    + get_or k (i + 3) 0 * 2 ^ 24

add_block : List ℕ → Lanes → Lanes
unfolding add word_at
add_block k s = record {
  a = add s.a (word_at k 0);
  b = add s.b (word_at k 4);
  c = add s.c (word_at k 8);
}

-- The loop over whole blocks of 12 bytes while more than 12 are left, and the `switch` on the rest.
unfoldable pub lookup3_loop : List ℕ → Lanes → ℕ
unfolding lookup3_mix lookup3_final add_block
lookup3_loop (k0 ∷ k1 ∷ k2 ∷ k3 ∷ k4 ∷ k5 ∷ k6 ∷ k7 ∷ k8 ∷ k9 ∷ k10 ∷ k11 ∷ k12 ∷ k) s =
    lookup3_loop (k12 ∷ k)
      (lookup3_mix (add_block (k0 ∷ k1 ∷ k2 ∷ k3 ∷ k4 ∷ k5 ∷ k6 ∷ k7 ∷ k8 ∷ k9 ∷ k10 ∷ k11 ∷ []) s))
lookup3_loop [] s = s.c
lookup3_loop k s = lookup3_final (add_block k s)

unfoldable pub lookup3 : List ℕ → ℕ → ℕ
unfolding add lookup3_loop
lookup3 key initval =
    let start = add (add 0xdeadbeef (length key % u32 * 4 % u32)) initval in
    lookup3_loop key (record { a = start; b = start; c = start })

abbrev pub lookup3_hash_initval : ℕ
lookup3_hash_initval = 0x125df2a7

unfoldable pub symbol_hash_len : List ℕ → ℕ
unfolding lookup3
symbol_hash_len str = lookup3 str lookup3_hash_initval
