-- ===== src/SymbolSpace.antt =====
-- dbcc-symbol.c: the symbols of a program, interned in a chained hash table.
-- A string is the memory from its address on, as bytes; a read past its end is a fault. A new
-- symbol gets its address from `malloc`, an argument here. Its text follows it in memory.
pub mod Hash
pub mod Chain
pub mod Laws
pub mod Interning
mod Tests
use Prim.Native.Nat.{bit_and}
use dbcc.Base.{
  ℕ, zero, suc, ◌+◌, ◌-◌, ◌*◌, ◌%◌, ◌^◌, Bool, true, false, ◌&&◌, Option, none, some, List, [], ◌∷◌,
  ◌++◌, ltb, ◌==◌, if◌then◌else◌, length, get_or, set, take, replicate, Run, ok, fault, ◌>>=◌,
  out_of_bounds, undefined,
}
use Hash.{symbol_hash_len}

-- `DBCC_Symbol`; `text` is the string after it without its NUL.
pub record Symbol : Type 0 where
  pub address : ℕ
  pub hash : ℕ
  pub n_bytes : ℕ
  pub text : List ℕ

pub record SymbolSpace : Type 0 where
  pub ht_size_log2 : ℕ
  pub ht : List (List Symbol)
  pub n_symbols : ℕ

unfoldable pub symbol_space_new : SymbolSpace
symbol_space_new = record { ht_size_log2 = 8; ht = replicate 256 []; n_symbols = 0 }

-- `strlen`
unfoldable pub strlen : List ℕ → Run ℕ
strlen [] = fault out_of_bounds
strlen (c ∷ str) = let rest = strlen str in if c == 0 then ok 0 else rest >>= λ n. ok (suc n)

-- `strcmp (a, b) == 0`
unfoldable pub strcmp_eq : List ℕ → List ℕ → Run Bool
strcmp_eq [] b = fault out_of_bounds
strcmp_eq (c ∷ a) [] = fault out_of_bounds
strcmp_eq (c ∷ a) (d ∷ b) =
    let rest = strcmp_eq a b in if c == d then (if c == 0 then ok true else rest) else ok false

-- `memcmp (a, b, n) == 0`, where both have `n` bytes.
unfoldable pub memcmp_eq : List ℕ → List ℕ → Bool
memcmp_eq [] [] = true
memcmp_eq [] (d ∷ b) = false
memcmp_eq (c ∷ a) [] = false
memcmp_eq (c ∷ a) (d ∷ b) = c == d && memcmp_eq a b

-- The `len` bytes from `str` on, which the hash and `memcpy` read.
unfoldable pub read_bytes : ℕ → List ℕ → Run (List ℕ)
read_bytes len str = if ltb (length str) len then fault out_of_bounds else ok (take len str)

-- `h & ((1 << ht_size_log2) - 1)`, where 1 is an `int`.
unfoldable pub bin_of : SymbolSpace → ℕ → Run ℕ
bin_of space h =
    if ltb space.ht_size_log2 31
    then ok (bit_and h (2 ^ space.ht_size_log2 - 1))
    else fault undefined

-- The loop of `dbcc_symbol_space_force_len` over a chain.
unfoldable pub find_string : List Symbol → List ℕ → Run (Option Symbol)
unfolding strcmp_eq
find_string [] str = ok none
find_string (at ∷ chain) str =
    let next = find_string chain str in
    strcmp_eq (at.text ++ 0 ∷ []) str >>= λ same. if same then ok (some at) else next

-- The loop of `dbcc_symbol_space_try_len` over a chain.
unfoldable pub find_bytes : List Symbol → List ℕ → Option Symbol
unfolding memcmp_eq
find_bytes [] key = none
find_bytes (at ∷ chain) key =
    if length key == at.n_bytes && memcmp_eq at.text key then some at else find_bytes chain key

abbrev pub resize_upward_occupancy_rate : ℕ
resize_upward_occupancy_rate = 3

-- `while ((1ULL << new_ht_size_log2) < min_ht_size)`: the shift is defined up to 63, and `left`
-- counts the values that are.
unfoldable pub grow : ℕ → ℕ → ℕ → Run ℕ
grow zero log2 min_ht_size = fault undefined
grow (suc left) log2 min_ht_size =
    let rest = grow left (suc log2) min_ht_size in
    if ltb (2 ^ log2) min_ht_size then rest else ok log2

-- The inner loop of the rehash.
unfoldable pub move_chain : ℕ → List Symbol → List (List Symbol) → List (List Symbol)
move_chain mask [] new_ht = new_ht
move_chain mask (at ∷ chain) new_ht =
    let b = bit_and at.hash mask in move_chain mask chain (set new_ht b (at ∷ get_or new_ht b []))

unfoldable pub move_chains : ℕ → List (List Symbol) → List (List Symbol) → List (List Symbol)
unfolding move_chain
move_chains mask [] new_ht = new_ht
move_chains mask (chain ∷ ht) new_ht = move_chains mask ht (move_chain mask chain new_ht)

unfoldable pub resize : SymbolSpace → Run SymbolSpace
unfolding grow move_chains
resize space =
    let min_ht_size = space.n_symbols * resize_upward_occupancy_rate % 2 ^ 64 in
    if ltb (2 ^ space.ht_size_log2) min_ht_size
    then (do
      log2 ← grow (63 - space.ht_size_log2) (suc space.ht_size_log2) min_ht_size
      ok (record space {
        ht_size_log2 = log2;
        ht = move_chains (2 ^ log2 - 1) space.ht (replicate (2 ^ log2) []);
      }))
    else ok space

-- The new symbol is pushed on its chain. The count of symbols stays as it is.
unfoldable pub push : SymbolSpace → ℕ → Symbol → SymbolSpace
push space bin rv = record space { ht = set space.ht bin (rv ∷ get_or space.ht bin []) }

unfoldable pub symbol_space_force_len : SymbolSpace → ℕ → ℕ → List ℕ → Run (Symbol × SymbolSpace)
unfolding read_bytes bin_of find_string resize push
symbol_space_force_len space addr len str = do
  key ← read_bytes len str
  let h = symbol_hash_len key
  bin ← bin_of space h
  found ← find_string (get_or space.ht bin []) str
  elim found [
    | some at ↦ ok (at, space)
    | none ↦ do
      sized ← resize space
      bin' ← bin_of sized h
      let rv : Symbol = record { address = addr; hash = h; n_bytes = len; text = key }
      ok (rv, push sized bin' rv)
  ]

unfoldable pub symbol_space_try_len : SymbolSpace → ℕ → List ℕ → Run (Option Symbol)
unfolding read_bytes bin_of find_bytes
symbol_space_try_len space len str = do
  key ← read_bytes len str
  bin ← bin_of space (symbol_hash_len key)
  ok (find_bytes (get_or space.ht bin []) key)

unfoldable pub symbol_space_force : SymbolSpace → ℕ → List ℕ → Run (Symbol × SymbolSpace)
unfolding strlen symbol_space_force_len
symbol_space_force space addr str = strlen str >>= λ n. symbol_space_force_len space addr n str

unfoldable pub symbol_space_try : SymbolSpace → List ℕ → Run (Option Symbol)
unfolding strlen symbol_space_try_len
symbol_space_try space str = strlen str >>= λ n. symbol_space_try_len space n str
