-- ===== src/SymbolSpace/Tests.antt =====
-- Runs of the functions of dbcc-symbol.c, and the theorems about them at concrete strings.
use Prim.Native.Char.{code}
use Prim.Native.String.{String}
use dbcc.Base.{
  ℕ, ◌+◌, ◌%◌, ◌^◌, ◌≡◌, ◌⊎◌, ◌↔◌, refl, arith, some, List, [], ◌∷◌, ◌++◌, if◌then◌else◌, length,
  ok, Returns, get_or-replicate,
}
use dbcc.SymbolSpace.Chain.{NoNul}
use dbcc.SymbolSpace.Hash.{symbol_hash_len}
use dbcc.SymbolSpace.Interning.{
  symbol_space_force_lem, force_both, symbol_space_force-symbol_space_force,
  symbol_space_force_len-prefix,
}
use dbcc.SymbolSpace.Laws.{IsValid, Fresh, Interned, symbol_space_new-IsValid}
use dbcc.SymbolSpace.{
  Symbol, symbol_space_new, memcmp_eq, symbol_space_force, symbol_space_force_len, symbol_space_try,
}

abbrev codes : String → List ℕ
codes String.[] = []
codes (String.◌∷◌ c s) = code c ∷ codes s

empty_hash : symbol_hash_len [] ≡ (0xdeadbeef + 0x125df2a7) % 2 ^ 32
unfolding symbol_hash_len
empty_hash = refl

abbrev int8 : List ℕ
int8 = codes "int8"

abbrev int16 : List ℕ
int16 = codes "int16"

int8-NoNul : NoNul int8
int8-NoNul = omega arith

int16-NoNul : NoNul int16
int16-NoNul = omega arith

nothing_held : (a : Symbol) → Interned symbol_space_new a → ⊥
unfolding symbol_space_new
nothing_held a (i, h) = rw (get_or-replicate {A = List Symbol} 256 i []) at h

new-Fresh : (addr : ℕ) → Fresh symbol_space_new addr
new-Fresh addr a held e = nothing_held a held

symbol_space_force_lem_example :
    Returns (symbol_space_force symbol_space_new 4096 (int8 ++ 0 ∷ [])) λ r.
      IsValid r.1
      × (r.0.text ≡ int8)
      × (symbol_space_try r.1 (int16 ++ 0 ∷ []) ≡ (
          if memcmp_eq int8 int16
          then ok (some r.0)
          else symbol_space_try symbol_space_new (int16 ++ 0 ∷ [])))
symbol_space_force_lem_example =
    symbol_space_force_lem symbol_space_new 4096 int8 [] int16 symbol_space_new-IsValid int8-NoNul
      int16-NoNul (new-Fresh 4096)

symbol_space_force-symbol_space_force_example :
    Returns
      (force_both symbol_space_new 4096 8192 int8 int16)
      λ r. (r.0.address ≡ r.1.address) ↔ (int8 ≡ int16)
symbol_space_force-symbol_space_force_example =
    symbol_space_force-symbol_space_force symbol_space_new 4096 8192 int8 int16
      symbol_space_new-IsValid int8-NoNul int16-NoNul (new-Fresh 4096) (new-Fresh 8192)
      (omega arith)

symbol_space_force_len-prefix_example :
    Returns
      (symbol_space_force_len symbol_space_new 4096
        (length int8)
        ((int8 ++ b' ' ∷ int16) ++ 0 ∷ []))
      λ r. ((r.0.address ≡ 4096) × (r.0.text ≡ int8)) ⊎ (r.0.text ≡ int8 ++ b' ' ∷ int16)
symbol_space_force_len-prefix_example =
    symbol_space_force_len-prefix symbol_space_new 4096 b' ' int8 int16 [] symbol_space_new-IsValid
      (omega arith)
