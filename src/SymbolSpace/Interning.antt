-- ===== src/SymbolSpace/Interning.antt =====
-- `dbcc_symbol_space_force`, `dbcc_symbol_space_try` and `dbcc_symbol_space_force_len`
-- (dbcc-symbol.c) in turn.
use mathlib.Core.List.{append_assoc}
use dbcc.Base.{
  ℕ, ◌≡◌, ◌≢◌, ◌⊎◌, ◌↔◌, inl, inr, refl, sym, ap, ◌∙◌, some, List, [], ◌∷◌, ◌++◌, if◌then◌else◌,
  length, get_or, Run, ok, ◌>>=◌, Returns, Bool-cases, Option-cases,
}
use dbcc.SymbolSpace.Chain.{NoNul, memcmp_eq→≡, find_string_lem, read_bytes_lem, find_bytes-text}
use dbcc.SymbolSpace.Laws.{
  IsValid, Fresh, new_symbol, Forces, force-Forces, try_lem, view, view-text, home, bin_of_lem,
  resize_lem,
}
use dbcc.SymbolSpace.{
  Symbol, SymbolSpace, push, memcmp_eq, read_bytes, find_bytes, symbol_space_force,
  symbol_space_force_len, symbol_space_try,
}

-- In a valid symbol space, with a new address from the allocation, `dbcc_symbol_space_force`
-- succeeds and leaves a valid space; the symbol has the text of the string, `dbcc_symbol_space_try`
-- then gives it for that string, and for every other string what it gave before.
pub symbol_space_force_lem :
    (space : SymbolSpace) (addr : ℕ) (s rest q : List ℕ)
    → IsValid space
    → NoNul s
    → NoNul q
    → Fresh space addr
    → Returns (symbol_space_force space addr (s ++ 0 ∷ rest)) λ r.
      IsValid r.1
      × (r.0.text ≡ s)
      × (symbol_space_try r.1 (q ++ 0 ∷ [])
          ≡ (if memcmp_eq s q then ok (some r.0) else symbol_space_try space (q ++ 0 ∷ [])))
symbol_space_force_lem space addr s rest q v hs hq fresh =
    let (r, run, f) = force-Forces space addr s rest v hs fresh in
    let text = (view-text r.1 s r.0 f.valid f.there).0 in
    let now = try_lem r.1 q [] f.valid hq in
    let before = try_lem space q [] v hq in
    (
      r,
      run,
      (
        f.valid,
        text,
        elim (Bool-cases (memcmp_eq s q)) [
          | inl e ↦ rw (now, e, ← memcmp_eq→≡ s q e, f.there) refl
          | inr e ↦ rw (now, before, e, f.others q e) refl
        ],
      ),
    )

-- Both symbols of two calls in turn.
unfoldable pub force_both : SymbolSpace → ℕ → ℕ → List ℕ → List ℕ → Run (Symbol × Symbol)
force_both space addr addr' s t = do
  (x, space') ← symbol_space_force space addr (s ++ 0 ∷ [])
  (y, space'') ← symbol_space_force space' addr' (t ++ 0 ∷ [])
  ok (x, y)

same_address :
    (space : SymbolSpace) (addr addr' : ℕ) (s t : List ℕ) (r u : Symbol × SymbolSpace)
    → Forces space addr s r
    → Forces r.1 addr' t u
    → (r.0.address ≡ u.0.address) ↔ (s ≡ t)
same_address space addr addr' s t r u f g = (to, from)
  where
    from : s ≡ t → r.0.address ≡ u.0.address
    from e = ap (λ (c : Symbol). c.address) (sym (g.old r.0 (ap (view r.1) (sym e) ∙ f.there)))

    to : r.0.address ≡ u.0.address → s ≡ t
    to e = elim (Bool-cases (memcmp_eq t s)) [
      | inl same ↦ sym (memcmp_eq→≡ t s same)
      | inr other ↦
          let still = g.others s other ∙ f.there in
          let (tx, held) = view-text u.1 s r.0 g.valid still in
          let (ty, held') = view-text u.1 t u.0 g.valid g.there in
          let eq = g.valid.apart r.0 u.0 held held' e in
          sym tx ∙ ap (λ (c : Symbol). c.text) eq ∙ ty
    ]

-- In a valid symbol space, with new addresses from the allocations, two calls of
-- `dbcc_symbol_space_force` in turn succeed, and their symbols are the same pointer exactly if the
-- strings are equal.
pub symbol_space_force-symbol_space_force :
    (space : SymbolSpace) (addr addr' : ℕ) (s t : List ℕ)
    → IsValid space
    → NoNul s
    → NoNul t
    → Fresh space addr
    → Fresh space addr'
    → addr ≢ addr'
    → Returns (force_both space addr addr' s t) λ r. (r.0.address ≡ r.1.address) ↔ (s ≡ t)
unfolding force_both
symbol_space_force-symbol_space_force space addr addr' s t v hs ht fresh fresh' ne =
    let (r, run, f) = force-Forces space addr s [] v hs fresh in
    let (u, run', g) =
      force-Forces r.1 addr' t [] f.valid ht
        (λ a held e. elim (f.new a held) [ inl e' ↦ ne (sym e' ∙ e) | inr old ↦ fresh' a old e ]) in
    ((r.0, u.0), rw (run, run') refl, same_address space addr addr' s t r u f g)

-- Asked for the first bytes of a longer string, `dbcc_symbol_space_force_len` in a valid symbol
-- space succeeds with a newly allocated symbol of these bytes or with a symbol whose text is the
-- whole string: never with a symbol of these bytes that was there before.
pub symbol_space_force_len-prefix :
    (space : SymbolSpace) (addr c : ℕ) (s t rest : List ℕ)
    → IsValid space
    → NoNul (s ++ c ∷ t)
    → Returns
        (symbol_space_force_len space addr (length s) ((s ++ c ∷ t) ++ 0 ∷ rest))
        λ r. ((r.0.address ≡ addr) × (r.0.text ≡ s)) ⊎ (r.0.text ≡ s ++ c ∷ t)
unfolding symbol_space_force_len
symbol_space_force_len-prefix space addr c s t rest v h =
    let u = s ++ c ∷ t in
    let chain = get_or space.ht (home s) [] in
    let key : read_bytes (length s) (u ++ 0 ∷ rest) ≡ ok s =
      rw (append_assoc s (c ∷ t) (0 ∷ rest)) (read_bytes_lem s (c ∷ t ++ 0 ∷ rest)) in
    let search_lem = find_string_lem chain u rest (v.symbols (home s)) h in
    elim (Option-cases (find_bytes chain u)) [
      | inl e ↦ (
        (new_symbol addr s, push space (home s) (new_symbol addr s)),
        rw (key, bin_of_lem space s v, search_lem, e, resize_lem space v, bin_of_lem space s v)
            refl,
        inl (refl, refl),
      )
      | inr (a, e) ↦ (
        (a, space),
        rw (key, bin_of_lem space s v, search_lem, e) refl,
        inr (find_bytes-text chain u a (v.symbols (home s)) e).0,
      )
    ]
