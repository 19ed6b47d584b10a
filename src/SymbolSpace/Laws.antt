-- ===== src/SymbolSpace/Laws.antt =====
-- Interning by the functions of dbcc-symbol.c: a space as a map from strings to symbols.
use Prim.Native.Nat.{bit_and}
use dbcc.Base.{
  ℕ, ◌<◌, ◌≡◌, ◌≢◌, ◌⊎◌, inl, inr, refl, sym, ap, ◌∙◌, arith, false, Option, none, some, List, [],
  ◌∷◌, ◌++◌, ◌==◌, if◌then◌else◌, length, get_or, ok, Returns, Bool-cases, eq→==, ==→eq,
  Option-cases, length-set, get_or-set, replicate, length-replicate, get_or-replicate,
}
use dbcc.Bits.{bit_and-le}
use dbcc.SymbolSpace.Chain.{
  NoNul, IsSymbol, AllSymbols, Holds, strlen_lem, memcmp_eq→≡, find_string_lem, find_bytes-text,
  find_bytes-push_ne, find_bytes-push_self, read_bytes_lem,
}
use dbcc.SymbolSpace.Hash.{symbol_hash_len}
use dbcc.SymbolSpace.{
  Symbol, SymbolSpace, symbol_space_new, memcmp_eq, find_bytes, find_string, bin_of, resize, push,
  symbol_space_force_len, symbol_space_try_len, symbol_space_force, symbol_space_try,
}

abbrev pub home : List ℕ → ℕ
home s = bit_and (symbol_hash_len s) 255

pub home-lt : (s : List ℕ) → home s < 256
home-lt s = omega (arith, bit_and-le (symbol_hash_len s) 255)

-- A symbol that stands in the table.
abbrev pub Interned : SymbolSpace → Symbol → Type 0
Interned space a = (i : ℕ) × Holds (get_or space.ht i []) a

-- The table has 256 chains of whole symbols at different addresses, and counts none of them.
pub record IsValid (space : SymbolSpace) : Type 0 where
  pub small : space.ht_size_log2 ≡ 8
  pub uncounted : space.n_symbols ≡ 0
  pub wide : length space.ht ≡ 256
  pub symbols : (i : ℕ) → AllSymbols (get_or space.ht i [])
  pub apart : (a b : Symbol) → Interned space a → Interned space b → a.address ≡ b.address → a ≡ b

-- `malloc` gives an address that no symbol has.
abbrev pub Fresh : SymbolSpace → ℕ → Type 0
Fresh space addr = (a : Symbol) → Interned space a → a.address ≢ addr

pub symbol_space_new-IsValid : IsValid symbol_space_new
unfolding symbol_space_new
symbol_space_new-IsValid = record {
  small = refl;
  uncounted = refl;
  wide = length-replicate {A = List Symbol} 256 [];
  symbols = λ i. rw (get_or-replicate {A = List Symbol} 256 i []) tt;
  apart = λ a b (i, h) g e. elim (nowhere a i h) [ ];
}
  where
    nowhere : (a : Symbol) (i : ℕ) → Holds (get_or (replicate 256 []) i []) a → ⊥
    nowhere a i h = rw (get_or-replicate {A = List Symbol} 256 i []) at h

-- What a space says of a string.
abbrev pub view : SymbolSpace → List ℕ → Option Symbol
view space s = find_bytes (get_or space.ht (home s) []) s

pub bin_of_lem :
    (space : SymbolSpace) (s : List ℕ)
    → IsValid space
    → bin_of space (symbol_hash_len s) ≡ ok (home s)
unfolding bin_of
bin_of_lem space s v = rw v.small refl

pub resize_lem : (space : SymbolSpace) → IsValid space → resize space ≡ ok space
unfolding resize
resize_lem space v = rw (v.small, v.uncounted) refl

-- The search in both functions, for a string in memory.
find_lem :
    (space : SymbolSpace) (s rest : List ℕ)
    → IsValid space
    → NoNul s
    → find_string (get_or space.ht (home s) []) (s ++ 0 ∷ rest) ≡ ok (view space s)
find_lem space s rest v h =
    find_string_lem (get_or space.ht (home s) []) s rest (v.symbols (home s)) h

pub try_lem :
    (space : SymbolSpace) (s rest : List ℕ)
    → IsValid space
    → NoNul s
    → symbol_space_try space (s ++ 0 ∷ rest) ≡ ok (view space s)
unfolding symbol_space_try symbol_space_try_len
try_lem space s rest v h =
    rw (strlen_lem s rest h, read_bytes_lem s (0 ∷ rest), bin_of_lem space s v) refl

abbrev pub new_symbol : ℕ → List ℕ → Symbol
new_symbol addr s = record {
  address = addr;
  hash = symbol_hash_len s;
  n_bytes = length s;
  text = s;
}

module _ (space : SymbolSpace) (addr : ℕ) (s : List ℕ) (v : IsValid space) where
  chains-push :
      (i : ℕ)
      → get_or (push space (home s) (new_symbol addr s)).ht i [] ≡ (
          if home s == i
          then (new_symbol addr s) ∷ get_or space.ht (home s) []
          else get_or space.ht i [])
  unfolding push
  chains-push i =
      get_or-set space.ht (home s) i (new_symbol addr s ∷ get_or space.ht (home s) []) []
        (omega (arith, home-lt s, v.wide))

  Interned-push :
      (a : Symbol)
      → Interned (push space (home s) (new_symbol addr s)) a
      → (a ≡ (new_symbol addr s)) ⊎ Interned space a
  Interned-push a (i, h) = elim (Bool-cases (home s == i)) [
    | inl e ↦
        let h' : Holds (new_symbol addr s ∷ get_or space.ht (home s) []) a =
          rw (chains-push i, e) at h in
        elim h' [ inl new ↦ inl new | inr old ↦ inr (home s, old) ]
    | inr e ↦ let h' : Holds (get_or space.ht i []) a = rw (chains-push i, e) at h in inr (i, h')
  ]

  module _ (h : NoNul s) (fresh : Fresh space addr) where
    new_symbol-IsSymbol : IsSymbol (new_symbol addr s)
    new_symbol-IsSymbol = record { whole = h; counted = refl; hashed = refl }

    symbols_push : (i : ℕ) → AllSymbols (get_or (push space (home s) (new_symbol addr s)).ht i [])
    symbols_push i = elim (Bool-cases (home s == i)) [
      | inl e ↦ rw (chains-push i, e) (new_symbol-IsSymbol, v.symbols (home s))
      | inr e ↦ rw (chains-push i, e) (v.symbols i)
    ]

    apart_push :
        (a b : Symbol)
        → Interned (push space (home s) (new_symbol addr s)) a
        → Interned (push space (home s) (new_symbol addr s)) b
        → a.address ≡ b.address
        → a ≡ b
    apart_push a b ha hb e = elim (Interned-push a ha) [
      | inl new ↦ elim (Interned-push b hb) [
        | inl new' ↦ new ∙ sym new'
        | inr old' ↦ absurd (fresh b old' (sym e ∙ ap (λ (c : Symbol). c.address) new))
      ]
      | inr old ↦ elim (Interned-push b hb) [
        | inl new' ↦ absurd (fresh a old (e ∙ ap (λ (c : Symbol). c.address) new'))
        | inr old' ↦ v.apart a b old old' e
      ]
    ]

    push-IsValid : IsValid (push space (home s) (new_symbol addr s))
    unfolding push
    push-IsValid = record {
      small = v.small;
      uncounted = v.uncounted;
      wide =
          length-set space.ht (home s) (new_symbol addr s ∷ get_or space.ht (home s) []) ∙ v.wide;
      symbols = symbols_push;
      apart = apart_push;
    }

    view-push_self : view (push space (home s) (new_symbol addr s)) s ≡ some (new_symbol addr s)
    view-push_self =
        rw (chains-push (home s), eq→== (home s) (home s) refl)
          (find_bytes-push_self (new_symbol addr s) (get_or space.ht (home s) [])
            new_symbol-IsSymbol)

    view-push_ne :
        (q : List ℕ)
        → memcmp_eq s q ≡ false
        → view (push space (home s) (new_symbol addr s)) q ≡ view space q
    view-push_ne q ne = elim (Bool-cases (home s == home q)) [
      | inl e ↦
          rw (chains-push (home q), e, ==→eq (home s) (home q) e)
            (find_bytes-push_ne (new_symbol addr s) (get_or space.ht (home q) []) q ne)
      | inr e ↦ rw (chains-push (home q), e) refl
    ]

    view-push :
        (q : List ℕ)
        → view (push space (home s) (new_symbol addr s)) q
          ≡ (if memcmp_eq s q then some (new_symbol addr s) else view space q)
    view-push q = elim (Bool-cases (memcmp_eq s q)) [
      | inl e ↦ rw e (rw (← memcmp_eq→≡ s q e) view-push_self)
      | inr e ↦ rw e (view-push_ne q e)
    ]

-- The strings of `a` and of what a space says of `s`.
pub view-text :
    (space : SymbolSpace) (s : List ℕ) (a : Symbol)
    → IsValid space
    → view space s ≡ some a
    → (a.text ≡ s) × Interned space a
view-text space s a v e =
    let (t, held) = find_bytes-text (get_or space.ht (home s) []) s a (v.symbols (home s)) e in
    (t, (home s, held))

module _ (space : SymbolSpace) (addr : ℕ) (s rest : List ℕ) where
  force_old :
      (a : Symbol)
      → IsValid space
      → NoNul s
      → view space s ≡ some a
      → symbol_space_force space addr (s ++ 0 ∷ rest) ≡ ok (a, space)
  unfolding symbol_space_force symbol_space_force_len
  force_old a v h e =
      rw
        (
          strlen_lem s rest h,
          read_bytes_lem s (0 ∷ rest),
          bin_of_lem space s v,
          find_lem space s rest v h,
          e,
        )
        refl

  force_new :
      IsValid space
      → NoNul s
      → view space s ≡ none
      → symbol_space_force space addr (s ++ 0 ∷ rest)
        ≡ ok (new_symbol addr s, push space (home s) (new_symbol addr s))
  unfolding symbol_space_force symbol_space_force_len
  force_new v h e =
      rw
        (
          strlen_lem s rest h,
          read_bytes_lem s (0 ∷ rest),
          bin_of_lem space s v,
          find_lem space s rest v h,
          e,
          resize_lem space v,
          bin_of_lem space s v,
        )
        refl

-- The effect of `dbcc_symbol_space_force` on the view.
pub record Forces (space : SymbolSpace) (addr : ℕ) (s : List ℕ) (r : Symbol × SymbolSpace)
    : Type 0 where
  pub valid : IsValid r.1
  pub there : view r.1 s ≡ some r.0
  pub others : (q : List ℕ) → memcmp_eq s q ≡ false → view r.1 q ≡ view space q
  pub old : (a : Symbol) → view space s ≡ some a → r.0 ≡ a
  pub new : (a : Symbol) → Interned r.1 a → (a.address ≡ addr) ⊎ Interned space a

pub force-Forces :
    (space : SymbolSpace) (addr : ℕ) (s rest : List ℕ)
    → IsValid space
    → NoNul s
    → Fresh space addr
    → Returns (symbol_space_force space addr (s ++ 0 ∷ rest)) (Forces space addr s)
force-Forces space addr s rest v h fresh = elim (Option-cases (view space s)) [
  | inl e ↦ (
    _,
    force_new space addr s rest v h e,
    record {
      valid = push-IsValid space addr s v h fresh;
      there = view-push_self space addr s v h fresh;
      others = view-push_ne space addr s v h fresh;
      old = λ a e'. cc (e, e');
      new = λ a held. elim (Interned-push space addr s v a held) [
        | inl n ↦ inl (ap (λ (c : Symbol). c.address) n)
        | inr o ↦ inr o
      ];
    },
  )
  | inr (a, e) ↦ (
    _,
    force_old space addr s rest a v h e,
    record {
      valid = v;
      there = e;
      others = λ q ne. refl;
      old = λ b e'. ground (arith, e, e');
      new = λ b held. inr held;
    },
  )
]
