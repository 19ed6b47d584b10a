-- ===== src/PtrTable/Chain.antt =====
-- One chain of the pointer table (dbcc-ptr-table.c), a list linked through `next`.
use dbcc.Base.{
  ℕ, ◌+◌, ◌≡◌, refl, arith, false, Option, none, some, List, [], ◌∷◌, ◌==◌, if◌then◌else◌,
}

pub record Entry {ℓ} (V : Type ℓ) : Type ℓ where
  pub key : ℕ
  pub value : Option V

abbrev pub Bucket {ℓ} : Type ℓ → Type ℓ
Bucket V = List (Entry V)

module _ {ℓ} {V : Type ℓ} where
  -- The loop of `dbcc_ptr_table_lookup`.
  unfoldable pub find : ℕ → Bucket V → Option (Entry V)
  find key [] = none
  find key (e ∷ es) = if e.key == key then some e else find key es

  -- A write to the value of the entry that the loop stops at.
  unfoldable pub assign : ℕ → Option V → Bucket V → Bucket V
  assign key v [] = []
  assign key v (e ∷ es) = if e.key == key then record e { value = v } ∷ es else e ∷ assign key v es

  -- How many entries of a chain have a key.
  unfoldable pub count : ℕ → Bucket V → ℕ
  count q [] = 0
  count q (e ∷ es) = (if e.key == q then 1 else 0) + count q es

  pub find-eq-none : (q : ℕ) (b : Bucket V) → count q b ≡ 0 → find q b ≡ none
  unfolding find count
  find-eq-none q [] h = refl
  find-eq-none q (e ∷ es) h = ground (arith, find-eq-none q es)

  pub count-eq-zero : (q : ℕ) (b : Bucket V) → find q b ≡ none → count q b ≡ 0
  unfolding find count
  count-eq-zero q [] h = refl
  count-eq-zero q (e ∷ es) h = ground (arith, count-eq-zero q es)

  pub find-key : (q : ℕ) (b : Bucket V) (e : Entry V) → find q b ≡ some e → e.key ≡ q
  unfolding find
  find-key q [] e h = ground arith
  find-key q (d ∷ es) e h = ground (arith, find-key q es e)

  pub count-assign : (k q : ℕ) (v : Option V) (b : Bucket V) → count q (assign k v b) ≡ count q b
  unfolding count assign
  count-assign k q v [] = refl
  count-assign k q v (e ∷ es) = ground (arith, count-assign k q v es)

  pub find-assign_ne :
      (k q : ℕ) (v : Option V) (b : Bucket V) → (k == q) ≡ false → find q (assign k v b) ≡ find q b
  unfolding find assign
  find-assign_ne k q v [] h = refl
  find-assign_ne k q v (e ∷ es) h = ground (arith, find-assign_ne k q v es)

  pub find-assign_self :
      (k : ℕ) (v : Option V) (b : Bucket V) (e : Entry V)
      → find k b ≡ some e
      → find k (assign k v b) ≡ some (record { key = k; value = v })
  unfolding find assign
  find-assign_self k v [] e h = ground arith
  find-assign_self k v (d ∷ es) e h = ground (arith, find-assign_self k v es e)
