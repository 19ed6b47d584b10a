-- ===== src/CType/Search/Example.antt =====
-- A struct with the index of its members (dbcc-type.c), for the tests and examples.
use dbcc.Base.{ℕ, ◌≡◌, ◌≤◌, ◌<◌, refl, ap, arith, some, none, List, [], ◌∷◌, get_elem?, suc, zero}
use dbcc.CType.Search.Found.{IsIndex}
use dbcc.CType.Search.{entry, names}
use dbcc.CType.{Symbol, Members, no_members, member}
use dbcc.Sample.{char, long}

abbrev pub members : Members
members = member char 20 0 (member long 10 8 no_members)

abbrev pub index : List ℕ
index = 1 ∷ 0 ∷ []

bounded : (p : ℕ) → p < 2 → (i : ℕ) × (k : Symbol) × (entry index (names members) p ≡ some (i, k))
bounded zero h = (1, 10, refl)
bounded (suc zero) h = (0, 20, refl)
bounded (suc (suc p)) h = absurd (omega arith)

ordered :
    (p q i j : ℕ) (k l : Symbol)
    → p ≤ q
    → entry index (names members) p ≡ some (i, k)
    → entry index (names members) q ≡ some (j, l)
    → k ≤ l
ordered zero zero i j k l h ep eq = ground arith
ordered zero (suc zero) i j k l h ep eq = ground arith
ordered zero (suc (suc q)) i j k l h ep eq = ground arith
ordered (suc zero) zero i j k l h ep eq = absurd (omega arith)
ordered (suc zero) (suc zero) i j k l h ep eq = ground arith
ordered (suc zero) (suc (suc q)) i j k l h ep eq = ground arith
ordered (suc (suc p)) q i j k l h ep eq = ground arith

complete :
    (i : ℕ) (k : Symbol)
    → get_elem? (names members) i ≡ some k
    → (p : ℕ) × (p < 2) × (entry index (names members) p ≡ some (i, k))
complete zero k e = (1, omega arith, ap (λ o. elim o [ none ↦ none | some k ↦ some (0, k) ]) e)
complete (suc zero) k e =
    (0, omega arith, ap (λ o. elim o [ none ↦ none | some k ↦ some (1, k) ]) e)
complete (suc (suc i)) k e = absurd (ground arith)

pub index-IsIndex : IsIndex index (names members)
index-IsIndex = record { bounded = bounded; ordered = ordered; complete = complete }
