-- ===== src/PtrTable/Entries.antt =====
-- The entries of the array of chains of dbcc-ptr-table.c: their number and their order in a visit.
use dbcc.Base.{
  ℕ, zero, suc, ◌+◌, ◌<◌, ◌≤◌, ◌≡◌, refl, ◌∙◌, arith, Option, some, List, [], ◌∷◌, ◌++◌, length,
  get_elem?, get_or, set, replicate, length-append, length-set,
}
use dbcc.PtrTable.Chain.{Bucket, count, assign}
use dbcc.PtrTable.Buckets.{count_all}
use dbcc.PtrTable.{home, bucket_of, move_bucket, move_all, foreach, ptr_table_sizes}

length-foreach-replicate : (V : Type 0) (n : ℕ) → length (foreach {V = V} (replicate n [])) ≡ 0
unfolding foreach
length-foreach-replicate V zero = refl
length-foreach-replicate V (suc n) = length-foreach-replicate V n

module _ {V : Type 0} where
  pub length-foreach-set :
      (bs : List (Bucket V)) (i : ℕ) (c : Bucket V)
      → i < length bs
      → length (foreach (set bs i c)) + length (get_or bs i []) ≡ length (foreach bs) + length c
  unfolding foreach
  length-foreach-set [] i c h = absurd (omega arith)
  length-foreach-set (b ∷ bs) zero c h =
      omega (arith, length-append {0} c (foreach bs), length-append {0} b (foreach bs))
  length-foreach-set (b ∷ bs) (suc i) c h = omega (
    arith,
    length-append {0} b (foreach bs),
    length-append {0} b (foreach (set bs i c)),
    length-foreach-set bs i c (omega arith),
  )

  pub length-assign : (k : ℕ) (v : Option V) (b : Bucket V) → length (assign k v b) ≡ length b
  unfolding assign
  length-assign k v [] = refl
  length-assign k v (e ∷ es) = ground (arith, length-assign k v es)

  module _ (n : ℕ) (pos : 0 < n) where
    length-move_bucket :
        (es : Bucket V) (bs : List (Bucket V)) → length (move_bucket n es bs) ≡ length bs
    unfolding move_bucket
    length-move_bucket [] bs = refl
    length-move_bucket (e ∷ es) bs = length-move_bucket es _ ∙ length-set bs _ _

    length-foreach-move_bucket :
        (es : Bucket V) (bs : List (Bucket V))
        → length bs ≡ n
        → length (foreach (move_bucket n es bs)) ≡ length es + length (foreach bs)
    unfolding move_bucket
    length-foreach-move_bucket [] bs w = omega arith
    length-foreach-move_bucket (e ∷ es) bs w =
        let c = e ∷ bucket_of bs n e.key in
        omega (
          arith,
          length-foreach-set bs (home n e.key) c (omega arith),
          length-foreach-move_bucket es (set bs (home n e.key) c) (length-set bs _ c ∙ w),
        )

    length-foreach-move_all :
        (olds bs : List (Bucket V))
        → length bs ≡ n
        → length (foreach (move_all n olds bs)) ≡ length (foreach olds) + length (foreach bs)
    unfolding move_all foreach
    length-foreach-move_all [] bs w = omega arith
    length-foreach-move_all (b ∷ olds) bs w = omega (
      arith,
      length-append {0} b (foreach olds),
      length-foreach-move_bucket b bs w,
      length-foreach-move_all olds (move_bucket n b bs) (length-move_bucket b bs ∙ w),
    )

    -- A rehash keeps the number of entries.
    pub length-foreach-rehash :
        (olds : List (Bucket V))
        → length (replicate {A = Bucket V} n []) ≡ n
        → length (foreach (move_all n olds (replicate n []))) ≡ length (foreach olds)
    length-foreach-rehash olds w =
        omega (arith, length-foreach-move_all olds (replicate n []) w, length-foreach-replicate V n)

  pub count-append : (q : ℕ) (b c : Bucket V) → count q (b ++ c) ≡ count q b + count q c
  unfolding count
  count-append q [] c = omega arith
  count-append q (e ∷ b) c = omega (arith, count-append q b c)

  pub count-foreach : (q : ℕ) (bs : List (Bucket V)) → count q (foreach bs) ≡ count_all q bs
  unfolding foreach count_all count
  count-foreach q [] = refl
  count-foreach q (b ∷ bs) = omega (arith, count-append q b (foreach bs), count-foreach q bs)

abbrev Between : ℕ → ℕ → List ℕ → Type 0
Between lo hi [] = Unit
Between lo hi (x ∷ xs) = (lo ≤ x) × (x ≤ hi) × Between lo hi xs

get_elem?-Between :
    (lo hi : ℕ) (xs : List ℕ) (i n : ℕ)
    → Between lo hi xs
    → get_elem? xs i ≡ some n
    → (lo ≤ n) × (n ≤ hi)
get_elem?-Between lo hi [] i n b h = ground arith
get_elem?-Between lo hi (x ∷ xs) zero n b h = ground arith
get_elem?-Between lo hi (x ∷ xs) (suc i) n b h = get_elem?-Between lo hi xs i n b.2 h

-- The sizes lie between those of the first and of the last table.
pub ptr_table_sizes_bounds :
    (i n : ℕ) → get_elem? ptr_table_sizes i ≡ some n → (7 ≤ n) × (n ≤ 80021)
ptr_table_sizes_bounds i n h = get_elem?-Between 7 80021 ptr_table_sizes i n (omega arith) h

get_elem?-some :
    {A : Type 0} (xs : List A) (i : ℕ) → i < length xs → (a : A) × (get_elem? xs i ≡ some a)
get_elem?-some [] i h = absurd (omega arith)
get_elem?-some (x ∷ xs) zero h = (x, refl)
get_elem?-some (x ∷ xs) (suc i) h = get_elem?-some xs i (omega arith)

-- There are thirteen of them.
pub ptr_table_sizes-some : (i : ℕ) → i < 13 → (n : ℕ) × (get_elem? ptr_table_sizes i ≡ some n)
ptr_table_sizes-some i h = get_elem?-some ptr_table_sizes i h
