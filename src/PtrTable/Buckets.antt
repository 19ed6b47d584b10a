-- ===== src/PtrTable/Buckets.antt =====
-- The array of chains of dbcc-ptr-table.c: the places of entries, writes to one chain, rehashes.
use mathlib.Core.Option.{or_else}
use dbcc.Base.{
  ℕ, zero, suc, ◌+◌, ◌≤◌, ◌<◌, ◌≡◌, refl, ◌∙◌, ap, arith, true, Option, none, some, List, [], ◌∷◌,
  ◌==◌, if◌then◌else◌, ==→eq, length, get_or, set, replicate, length-set, get_or-set,
  length-replicate, get_or-replicate,
}
use dbcc.PtrTable.Chain.{Entry, Bucket, find, count, find-eq-none, count-eq-zero}
use dbcc.PtrTable.{home, bucket_of, move_bucket, move_all}

pub home_congr : (n a b : ℕ) → (a == b) ≡ true → home n a ≡ home n b
home_congr n a b h = ap (home n) (==→eq a b h)

module _ {V : Type 0} where
  -- An array of `n` chains where a key has one entry at most, on its own chain.
  pub record Placed (n : ℕ) (bs : List (Bucket V)) : Type 0 where
    pub width : length bs ≡ n
    pub once : (q i : ℕ) → count q (get_or bs i []) ≤ (if i == home n q then 1 else 0)

  abbrev pub view : ℕ → List (Bucket V) → ℕ → Option (Entry V)
  view n bs q = find q (bucket_of bs n q)

  module _ (n : ℕ) (bs : List (Bucket V)) (pos : 0 < n) (p : Placed n bs) where
    home-lt : (k : ℕ) → home n k < length bs
    home-lt k = omega (arith, p.width)

    pub replace-Placed :
        (k : ℕ) (c : Bucket V)
        → ((q : ℕ) → count q c ≤ (if home n k == home n q then 1 else 0))
        → Placed n (set bs (home n k) c)
    replace-Placed k c h = record {
      width = length-set bs (home n k) c ∙ p.width;
      once = λ q i. ground (arith, get_or-set bs (home n k) i c [] (home-lt k), h q, p.once q i);
    }

    pub view-replace :
        (k : ℕ) (c : Bucket V) (q : ℕ)
        → view n (set bs (home n k) c) q ≡ (if home n k == home n q then find q c else view n bs q)
    view-replace k c q = ground (arith, get_or-set bs (home n k) (home n q) c [] (home-lt k))

    -- Pushing an entry under a key that is not there.
    module _ (e : Entry V) (fresh : view n bs e.key ≡ none) where
      push-count :
          (q : ℕ) → count q (e ∷ bucket_of bs n e.key) ≤ (if home n e.key == home n q then 1 else 0)
      unfolding count
      push-count q = ground (
        arith,
        home_congr n e.key q,
        count-eq-zero e.key (bucket_of bs n e.key) fresh,
        p.once q (home n e.key),
        ==→eq e.key q,
      )

      pub push-Placed : Placed n (set bs (home n e.key) (e ∷ bucket_of bs n e.key))
      push-Placed = replace-Placed e.key (e ∷ bucket_of bs n e.key) push-count

      pub view-push :
          (q : ℕ)
          → view n (set bs (home n e.key) (e ∷ bucket_of bs n e.key)) q
            ≡ (if e.key == q then some e else view n bs q)
      unfolding find
      view-push q =
          ground (arith, home_congr n e.key q, view-replace e.key (e ∷ bucket_of bs n e.key) q)

  -- The keys of a chain that is moved are not in the new table yet.
  module _ (n : ℕ) (pos : 0 < n) where
    head_fresh :
        (e : Entry V) (es : Bucket V) (bs : List (Bucket V))
        → ((q : ℕ) → count q (e ∷ es) + count q (bucket_of bs n q) ≤ 1)
        → view n bs e.key ≡ none
    unfolding count
    head_fresh e es bs h = find-eq-none e.key (bucket_of bs n e.key) (ground (arith, h e.key))

    tail_apart :
        (e : Entry V) (es : Bucket V) (bs : List (Bucket V))
        → Placed n bs
        → ((q : ℕ) → count q (e ∷ es) + count q (bucket_of bs n q) ≤ 1)
        → view n bs e.key ≡ none
        → (q : ℕ)
        → count q es + count q (bucket_of (set bs (home n e.key) (e ∷ bucket_of bs n e.key)) n q)
          ≤ 1
    unfolding count
    tail_apart e es bs p h fresh q = ground (
      arith,
      get_or-set bs (home n e.key) (home n q) (e ∷ bucket_of bs n e.key) []
          (home-lt n bs pos p e.key),
      home_congr n e.key q,
      h q,
    )

    pub move_bucket-Placed :
        (es : Bucket V) (bs : List (Bucket V))
        → Placed n bs
        → ((q : ℕ) → count q es + count q (bucket_of bs n q) ≤ 1)
        → Placed n (move_bucket n es bs)
    unfolding move_bucket
    move_bucket-Placed [] bs p h = p
    move_bucket-Placed (e ∷ es) bs p h =
        let fresh = head_fresh e es bs h in
        move_bucket-Placed es _ (push-Placed n bs pos p e fresh) (tail_apart e es bs p h fresh)

    moved_once :
        (e : Entry V) (es : Bucket V) (bs : List (Bucket V))
        → Placed n bs
        → ((q : ℕ) → count q (e ∷ es) + count q (bucket_of bs n q) ≤ 1)
        → view n bs e.key ≡ none
        → (q : ℕ)
        → or_else (find q es) (view n (set bs (home n e.key) (e ∷ bucket_of bs n e.key)) q)
          ≡ or_else (find q (e ∷ es)) (view n bs q)
    unfolding count find or_else
    moved_once e es bs p h fresh q =
        rw (view-push n bs pos p e fresh q) (ground (arith, h q, find-eq-none q es))

    -- After the move a lookup finds the moved entries first, and then what was there.
    pub view-move_bucket :
        (es : Bucket V) (bs : List (Bucket V))
        → Placed n bs
        → ((q : ℕ) → count q es + count q (bucket_of bs n q) ≤ 1)
        → (q : ℕ) → view n (move_bucket n es bs) q ≡ or_else (find q es) (view n bs q)
    unfolding move_bucket
    view-move_bucket [] bs p h q = unfold find or_else in refl
    view-move_bucket (e ∷ es) bs p h q =
        let fresh = head_fresh e es bs h in
        view-move_bucket es _ (push-Placed n bs pos p e fresh) (tail_apart e es bs p h fresh) q
        ∙ moved_once e es bs p h fresh q

  -- The old array as one chain: the first hit in it, and how often a key stands in it.
  pub find_all : ℕ → List (Bucket V) → Option (Entry V)
  find_all q [] = none
  find_all q (b ∷ bs) = or_else (find q b) (find_all q bs)

  unfoldable pub count_all : ℕ → List (Bucket V) → ℕ
  count_all q [] = 0
  count_all q (b ∷ bs) = count q b + count_all q bs

  pub view-empty : (n m q : ℕ) → view n (replicate m []) q ≡ none
  unfolding find
  view-empty n m q = rw (get_or-replicate {A = Bucket V} m (home n q) [])

  pub empty-Placed : (n : ℕ) → Placed n (replicate n [])
  unfolding count
  empty-Placed n = record {
    width = length-replicate n [];
    once = λ q i. rw (get_or-replicate {A = Bucket V} n i []) (omega arith);
  }

  absent_all :
      (q : ℕ) (bs : List (Bucket V))
      → ((i : ℕ) → count q (get_or bs i []) ≤ 0)
      → (find_all q bs ≡ none) × (count_all q bs ≡ 0)
  unfolding find_all count_all or_else
  absent_all q [] h = (refl, refl)
  absent_all q (b ∷ bs) h =
      let rest = absent_all q bs (λ i. h (suc i)) in
      (rw (find-eq-none q b (omega (arith, h 0))) rest.0, omega (arith, h 0))

  -- Where a key stands on one chain only, a scan of all the chains finds what its chain has.
  scan :
      (q k : ℕ) (bs : List (Bucket V))
      → ((i : ℕ) → count q (get_or bs i []) ≤ (if i == k then 1 else 0))
      → (find_all q bs ≡ find q (get_or bs k [])) × (count_all q bs ≤ 1)
  unfolding find_all count_all or_else
  scan q k [] h = (unfold find in refl, omega arith)
  scan q zero (b ∷ bs) h =
      let rest = absent_all q bs (λ i. ground (arith, h (suc i))) in
      (rw rest.0 (ground arith), ground (arith, h 0))
  scan q (suc k) (b ∷ bs) h =
      let rest = scan q k bs (λ i. ground (arith, h (suc i))) in
      (rw (find-eq-none q b (ground (arith, h 0))) rest.0, ground (arith, h 0))

  pub Placed-scan :
      (n : ℕ) (bs : List (Bucket V)) (q : ℕ)
      → Placed n bs
      → (find_all q bs ≡ view n bs q) × (count_all q bs ≤ 1)
  Placed-scan n bs q p = scan q (home n q) bs (λ i. p.once q i)

  pub count_all-eq-zero : (q : ℕ) (bs : List (Bucket V)) → find_all q bs ≡ none → count_all q bs ≡ 0
  unfolding find_all count_all or_else
  count_all-eq-zero q [] h = refl
  count_all-eq-zero q (b ∷ bs) h = ground (arith, count-eq-zero q b, count_all-eq-zero q bs)

  pub find_all-eq-none : (q : ℕ) (bs : List (Bucket V)) → count_all q bs ≡ 0 → find_all q bs ≡ none
  unfolding find_all count_all or_else
  find_all-eq-none q [] h = refl
  find_all-eq-none q (b ∷ bs) h =
      rw (find-eq-none q b (omega arith)) (find_all-eq-none q bs (omega arith))

  module _ (n : ℕ) (pos : 0 < n) where
    move_all_apart :
        (b : Bucket V) (olds bs : List (Bucket V)) (q : ℕ)
        → count_all q (b ∷ olds) + count q (bucket_of bs n q) ≤ 1
        → Placed n (move_bucket n b bs)
        → view n (move_bucket n b bs) q ≡ or_else (find q b) (view n bs q)
        → count_all q olds + count q (bucket_of (move_bucket n b bs) n q) ≤ 1
    unfolding count_all or_else
    move_all_apart b olds bs q h p e = ground (
      arith,
      p.once q (home n q),
      find-eq-none q b,
      find-eq-none q (bucket_of bs n q),
      count-eq-zero q (bucket_of (move_bucket n b bs) n q),
    )

    move_all_once :
        (b : Bucket V) (olds bs : List (Bucket V)) (q : ℕ)
        → count_all q (b ∷ olds) + count q (bucket_of bs n q) ≤ 1
        → view n (move_bucket n b bs) q ≡ or_else (find q b) (view n bs q)
        → or_else (find_all q olds) (view n (move_bucket n b bs) q)
          ≡ or_else (find_all q (b ∷ olds)) (view n bs q)
    unfolding count_all find_all or_else
    move_all_once b olds bs q h e = ground (arith, find-eq-none q b, find_all-eq-none q olds)

    view-move_all :
        (olds bs : List (Bucket V))
        → Placed n bs
        → ((q : ℕ) → count_all q olds + count q (bucket_of bs n q) ≤ 1)
        → Placed n (move_all n olds bs)
          × ((q : ℕ) → view n (move_all n olds bs) q ≡ or_else (find_all q olds) (view n bs q))
    unfolding move_all find_all count_all
    view-move_all [] bs p h = (p, λ q. unfold or_else in refl)
    view-move_all (b ∷ olds) bs p h =
        let apart : (q : ℕ) → count q b + count q (bucket_of bs n q) ≤ 1 =
          λ q. omega (arith, h q) in
        let mid = move_bucket-Placed n pos b bs p apart in
        let (q, r) =
          view-move_all olds (move_bucket n b bs) mid
            (λ q. move_all_apart b olds bs q (h q) mid (view-move_bucket n pos b bs p apart q)) in
        (q, λ k. r k ∙ move_all_once b olds bs k (h k) (view-move_bucket n pos b bs p apart k))

    rehash_reads :
        (m : ℕ) (olds : List (Bucket V))
        → Placed m olds
        → (q : ℕ) → or_else (find_all q olds) (view n (replicate n []) q) ≡ view m olds q
    unfolding or_else
    rehash_reads m olds p q = rw (view-empty n n q) (ground (arith, (Placed-scan m olds q p).0))

    -- A rehash into `n` chains keeps every lookup.
    pub view-rehash :
        (m : ℕ) (olds : List (Bucket V))
        → Placed m olds
        → Placed n (move_all n olds (replicate n []))
          × ((q : ℕ) → view n (move_all n olds (replicate n [])) q ≡ view m olds q)
    view-rehash m olds p =
        let none_yet : (q : ℕ) → count q (bucket_of (replicate {A = Bucket V} n []) n q) ≡ 0 =
          λ q. count-eq-zero q _ (view-empty n n q) in
        let (placed, reads) =
          view-move_all olds (replicate n []) (empty-Placed n)
            (λ q. omega (arith, (Placed-scan m olds q p).1, none_yet q)) in
        (placed, λ q. reads q ∙ rehash_reads m olds p q)
