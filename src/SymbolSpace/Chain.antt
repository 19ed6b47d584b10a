-- ===== src/SymbolSpace/Chain.antt =====
-- One chain of the table of symbols (dbcc-symbol.c), and comparisons of strings in memory.
use dbcc.Base.{
  ℕ, ◌≤◌, ◌≡◌, ◌≢◌, ◌⊎◌, inl, inr, refl, ap, sym, arith, true, false, some, List, [], ◌∷◌, ◌++◌,
  ◌==◌, length, take, ok, Bool-cases, ◌&&◌,
}
use dbcc.SymbolSpace.{
  Symbol, strlen, strcmp_eq, memcmp_eq, read_bytes, find_string, find_bytes, symbol_hash_len,
}

-- A string without a NUL in it.
abbrev pub NoNul : List ℕ → Type 0
NoNul [] = Unit
NoNul (c ∷ s) = (c ≢ 0) × NoNul s

pub strlen_lem : (s rest : List ℕ) → NoNul s → strlen (s ++ 0 ∷ rest) ≡ ok (length s)
unfolding strlen
strlen_lem [] rest h = refl
strlen_lem (c ∷ s) rest h = rw (strlen_lem s rest h.1) (ground arith)

pub memcmp_eq_refl : (s : List ℕ) → memcmp_eq s s ≡ true
unfolding memcmp_eq
memcmp_eq_refl [] = refl
memcmp_eq_refl (c ∷ s) = ground (arith, memcmp_eq_refl s)

pub memcmp_eq→≡ : (s t : List ℕ) → memcmp_eq s t ≡ true → s ≡ t
unfolding memcmp_eq
memcmp_eq→≡ [] [] h = refl
memcmp_eq→≡ [] (d ∷ t) h = cc
memcmp_eq→≡ (c ∷ s) [] h = cc
memcmp_eq→≡ (c ∷ s) (d ∷ t) h = ground (arith, memcmp_eq→≡ s t)

pub strcmp_eq_lem :
    (s t rest : List ℕ)
    → NoNul s
    → NoNul t
    → strcmp_eq (s ++ 0 ∷ []) (t ++ 0 ∷ rest) ≡ ok (memcmp_eq s t)
unfolding strcmp_eq memcmp_eq
strcmp_eq_lem [] [] rest hs ht = refl
strcmp_eq_lem [] (d ∷ t) rest hs ht = ground arith
strcmp_eq_lem (c ∷ s) [] rest hs ht = ground arith
strcmp_eq_lem (c ∷ s) (d ∷ t) rest hs ht =
    rw (strcmp_eq_lem s t rest hs.1 ht.1) (ground (arith, hs.0))

-- What the code writes into a symbol.
pub record IsSymbol (a : Symbol) : Type 0 where
  pub whole : NoNul a.text
  pub counted : a.n_bytes ≡ length a.text
  pub hashed : a.hash ≡ symbol_hash_len a.text

abbrev pub AllSymbols : List Symbol → Type 0
AllSymbols [] = Unit
AllSymbols (a ∷ chain) = IsSymbol a × AllSymbols chain

abbrev pub Holds : List Symbol → Symbol → Type 0
Holds [] a = ⊥
Holds (b ∷ chain) a = (a ≡ b) ⊎ Holds chain a

memcmp_eq-length : (s t : List ℕ) → memcmp_eq s t ≡ true → (length t == length s) ≡ true
memcmp_eq-length s t h = rw (memcmp_eq→≡ s t h) (ground arith)

-- On symbols the test of the length adds nothing.
same_string :
    (a : Symbol) (s : List ℕ)
    → IsSymbol a
    → (length s == a.n_bytes && memcmp_eq a.text s) ≡ memcmp_eq a.text s
same_string a s h = elim (Bool-cases (memcmp_eq a.text s)) [
  | inl e ↦ rw (e, h.counted, memcmp_eq-length a.text s e) refl
  | inr e ↦ rw e (ground arith)
]

pub find_string_lem :
    (chain : List Symbol) (s rest : List ℕ)
    → AllSymbols chain
    → NoNul s
    → find_string chain (s ++ 0 ∷ rest) ≡ ok (find_bytes chain s)
unfolding find_string find_bytes
find_string_lem [] s rest h hs = refl
find_string_lem (a ∷ chain) s rest h hs =
    rw
      (
        strcmp_eq_lem a.text s rest h.0.whole hs,
        find_string_lem chain s rest h.1 hs,
        same_string a s h.0,
      )
      (ground arith)

pub find_bytes-text :
    (chain : List Symbol) (s : List ℕ) (a : Symbol)
    → AllSymbols chain
    → find_bytes chain s ≡ some a
    → (a.text ≡ s) × Holds chain a
unfolding find_bytes
find_bytes-text [] s a h e = cc
find_bytes-text (b ∷ chain) s a h e = elim (Bool-cases (memcmp_eq b.text s)) [
  | inl same ↦
      let e' : some b ≡ some a = rw (same_string b s h.0, same) at e in
      let eq : b ≡ a = cc in (rw (← eq) (memcmp_eq→≡ b.text s same), inl (sym eq))
  | inr other ↦
      let e' : find_bytes chain s ≡ some a = rw (same_string b s h.0, other) at e in
      let (t, held) = find_bytes-text chain s a h.1 e' in (t, inr held)
]

pub find_bytes-push_ne :
    (a : Symbol) (chain : List Symbol) (s : List ℕ)
    → memcmp_eq a.text s ≡ false
    → find_bytes (a ∷ chain) s ≡ find_bytes chain s
unfolding find_bytes
find_bytes-push_ne a chain s h = rw h (ground arith)

pub find_bytes-push_self :
    (a : Symbol) (chain : List Symbol) → IsSymbol a → find_bytes (a ∷ chain) a.text ≡ some a
unfolding find_bytes
find_bytes-push_self a chain h = rw (same_string a a.text h, memcmp_eq_refl a.text) refl

pub take-append : (s rest : List ℕ) → take (length s) (s ++ rest) ≡ s
take-append [] rest = refl
take-append (c ∷ s) rest = ap (λ (t : List ℕ). c ∷ t) (take-append s rest)

pub length-le : (s rest : List ℕ) → length s ≤ length (s ++ rest)
length-le [] rest = omega arith
length-le (c ∷ s) rest = omega (arith, length-le s rest)

pub read_bytes_lem : (s rest : List ℕ) → read_bytes (length s) (s ++ rest) ≡ ok s
unfolding read_bytes
read_bytes_lem s rest = rw (take-append s rest) (ground (arith, length-le s rest))
