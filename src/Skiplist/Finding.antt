-- ===== src/Skiplist/Finding.antt =====
-- zslGetRank of struct/t_zset.c: the rank that its loop over the levels ends with.
use learnredis.Base.{
  ℕ, zero, suc, ◌+◌, ◌≤◌, ◌<◌, ◌≡◌, refl, sym, ◌∙◌, ◌⊎◌, inl, inr, true, false, none, some, [], ◌∷◌,
  ◌++◌, arith, length, length-append, append_assoc, ltb, Bool-cases, All,
}
use learnredis.Skiplist.{
  Pointer, Node, Heap, Zskiplist, Test, Comparing, walk, has_obj, rank_loop, zsl_get_rank, less,
  less_eq,
}
use learnredis.Skiplist.Links.{Nodes-split, All-at, Cell, Cells, Nodes, Headed, Stored, IsSkiplist}
use learnredis.Skiplist.Walking.{spot, spot_rank}
use learnredis.Skiplist.Searching.{Start}
use learnredis.Skiplist.Ranking.{Walks, Walks-split, last_node, positive, Answers-keys}
use learnredis.Skiplist.Ordering.{
  less_eq-split, IsNumber, IsOrder, IsSorted, IsSorted-before, IsSorted-behind, Lacks,
}

module _ {ℓ} {D O : Type ℓ} (o : Comparing D O) (obj : O) where
  -- The walk ends at a node without the object.
  Misses : Heap (D × O) → ℕ → Type ℓ
  Misses h x = (n : Node (D × O)) × (h x ≡ some n) × (has_obj o obj n.key ≡ false)

  spot-Misses :
      (i : ℕ) (h : Heap (D × O)) (x : ℕ) (b post : Cells (D × O)) (back : Pointer)
      → Nodes h back (b ++ post)
      → Lacks o obj b
      → Misses h x
      → Misses h (spot i x b)
  unfolding spot Nodes Stored Misses has_obj
  spot-Misses i h x [] post back s a m = m
  spot-Misses i h x (n ∷ b) post back s a m = elim (Bool-cases (ltb i n.height)) [
    | inl e ↦
        let (level, f, g) = s.0 in
        rw e (spot-Misses i h n.addr b post (some n.addr) s.1 a.1 (_, f, a.0))
    | inr e ↦ rw e (spot-Misses i h x b post (some n.addr) s.1 a.1 m)
  ]

  rank_hit :
      (i fuel : ℕ) (go : Test (D × O)) (h : Heap (D × O)) (x r y q : ℕ) (n : Node (D × O))
      → walk fuel go h i x r ≡ some (y, q)
      → h y ≡ some n
      → has_obj o obj n.key ≡ true
      → rank_loop o (suc i) fuel go obj h x r ≡ some q
  unfolding rank_loop
  rank_hit i fuel go h x r y q n e f g = rw (e, f, rank_loop, g) refl

  rank_miss :
      (i fuel : ℕ) (go : Test (D × O)) (h : Heap (D × O)) (x r y q : ℕ)
      → walk fuel go h i x r ≡ some (y, q)
      → Misses h y
      → rank_loop o (suc i) fuel go obj h x r ≡ rank_loop o i fuel go obj h y q
  unfolding rank_loop Misses
  rank_miss i fuel go h x r y q e (n, f, g) = rw (e, f, rank_loop, g) refl

  module _ (go : Test (D × O)) (h : Heap (D × O)) (header top fuel : ℕ) where
    -- No node before the place has the object.
    rank_loop-absent :
        (pre post : Cells (D × O)) (i x r : ℕ)
        → Walks go h header top fuel pre
        → Nodes h none (pre ++ post)
        → Lacks o obj pre
        → Misses h header
        → i ≤ top
        → Start header top pre i x r
        → rank_loop o i fuel go obj h x r ≡ some 0
    unfolding rank_loop
    rank_loop-absent pre post zero x r w s l m b t = refl
    rank_loop-absent pre post (suc i) x r w s l m b t =
        rank_miss i fuel go h x r _ _ (w i x r b t) (spot-Misses i h header pre post none s l m)
        ∙ rank_loop-absent pre post i _ _ w s l m (omega (arith, b)) (inr (b, refl, refl))

    module _ (pre : Cells (D × O)) (n : Cell (D × O)) (post : Cells (D × O))
        (w : Walks go h header top fuel (pre ++ (n ∷ []))) (node : Node (D × O))
        (here : h n.addr ≡ some node) (hit : has_obj o obj node.key ≡ true)
        (s : Nodes h none (pre ++ (n ∷ post))) (l : Lacks o obj pre) (m : Misses h header)
        (tall : 0 < n.height) where
      rank_round :
          (i x r : ℕ)
          → suc i ≤ top
          → Start header top (pre ++ (n ∷ [])) (suc i) x r
          → (rank_loop o (suc i) fuel go obj h x r ≡ some (length pre + 1))
            ⊎ ((ltb i n.height ≡ false)
                × (rank_loop o (suc i) fuel go obj h x r
                    ≡ rank_loop o i fuel go obj h
                        (spot i header (pre ++ (n ∷ [])))
                        (spot_rank i 0 0 (pre ++ (n ∷ [])))))
      rank_round i x r b t = elim (last_node i header pre n) [
        | inl (e, f, g) ↦ inl (
            rank_hit i fuel go h x r n.addr (length pre + 1) node (rw (f, g) at (w i x r b t)) here
              hit)
        | inr (e, f, g) ↦ inr (
          e,
          rank_miss i fuel go h x r _ _ (w i x r b t)
              (rw f (spot-Misses i h header pre (n ∷ post) none s l m)),
        )
      ]

      rank_loop-present :
          (i x r : ℕ)
          → suc i ≤ top
          → Start header top (pre ++ (n ∷ [])) (suc i) x r
          → rank_loop o (suc i) fuel go obj h x r ≡ some (length pre + 1)
      rank_loop-present zero x r b t = elim (rank_round 0 x r b t) [
        | inl e ↦ e
        | inr (e, f) ↦ absurd (ground (arith, e, tall))
      ]
      rank_loop-present (suc j) x r b t = elim (rank_round (suc j) x r b t) [
        | inl e ↦ e
        | inr (e, f) ↦ f ∙ rank_loop-present j _ _ (omega (arith, b)) (inr (b, refl, refl))
      ]

module _ {ℓ} {D O : Type ℓ} (o : Comparing D O) where
  header-Misses :
      (obj : O) (h : Heap (D × O)) (z : Zskiplist) (xs : Cells (D × O))
      → IsSkiplist h z xs
      → Misses o obj h z.header
  unfolding Misses Headed has_obj
  header-Misses obj h z xs s = let (level, e, f, g) = s.header in (_, e, refl)

  All-prefix :
      (P : Cell (D × O) → Type 0) (pre post : Cells (D × O)) → All P (pre ++ post) → All P pre
  All-prefix P [] post a = tt
  All-prefix P (n ∷ pre) post a = (a.0, All-prefix P pre post a.1)

  All-less_eq :
      (k : D × O) (xs : Cells (D × O))
      → IsOrder o
      → All (λ c. less o c.key k ≡ true) xs
      → All (λ c. less_eq o c.key k ≡ true) xs
  All-less_eq k [] ord a = tt
  All-less_eq k (n ∷ xs) ord a = (ord.less_eq-less n.key k a.0, All-less_eq k xs ord a.1)

  All-more :
      (k : D × O) (xs : Cells (D × O))
      → IsOrder o
      → All (λ c. less o k c.key ≡ true) xs
      → All (λ c. less_eq o c.key k ≡ false) xs
  All-more k [] ord a = tt
  All-more k (n ∷ xs) ord a = (ord.less_eq-more k n.key a.0, All-more k xs ord a.1)

  All-join :
      (P : Cell (D × O) → Type 0) (xs : Cells (D × O)) (n : Cell (D × O))
      → All P xs
      → P n
      → All P (xs ++ (n ∷ []))
  All-join P [] n a p = (p, tt)
  All-join P (m ∷ xs) n a p = (a.0, All-join P xs n a.1 p)

  -- On a skip list of sorted keys with a node that has the given score and object, the score a
  -- number, and no node of the object before it, `zslGetRank` does not fault and returns the place
  -- of the node, counted from 1.
  pub zsl_get_rank_lem :
      (h : Heap (D × O)) (z : Zskiplist) (pre : Cells (D × O)) (n : Cell (D × O))
      (post : Cells (D × O))
      → IsOrder o
      → IsSkiplist h z (pre ++ (n ∷ post))
      → IsSorted o (pre ++ (n ∷ post))
      → IsNumber o n.key
      → Lacks o n.key.1 pre
      → zsl_get_rank o n.key.0 n.key.1 h z ≡ some (length pre + 1)
  unfolding zsl_get_rank Nodes Stored has_obj
  zsl_get_rank_lem h z pre n post ord s t i l =
      let k : D × O = (n.key.0, n.key.1) in
      let (m, e) = positive z.level s.levels.0 in
      let (level, here, rest) = (Nodes-split h none pre (n ∷ post) s.nodes).0 in
      let size : length (pre ++ (n ∷ [])) ≡ length pre + 1 =
        omega (arith, length-append pre (n ∷ [])) in
      rw e (
        rank_loop-present o n.key.1 (λ r c. less_eq o c k) h z.header z.level (z.length + 1) pre n
          post
          (Walks-split (λ r c. less_eq o c k) h z (pre ++ (n ∷ [])) post
            (rw (sym (append_assoc pre (n ∷ []) post)) at s)
            (Answers-keys (λ c. less_eq o c k) true 0 (pre ++ (n ∷ []))
              (All-join (λ c. less_eq o c.key k ≡ true) pre n
                (All-less_eq k pre ord (IsSorted-before o pre n post t))
                (ord.less_eq_refl n.key i)))
            (Answers-keys (λ c. less_eq o c k) false (length (pre ++ (n ∷ []))) post
              (All-more k post ord (IsSorted-behind o pre n post t))))
          _ here (ord.equal_refl n.key.1) s.nodes l
          (header-Misses n.key.1 h z (pre ++ (n ∷ post)) s)
          (All-at (λ c. (0 < c.height) × (c.height ≤ z.level)) pre n post s.heights).0 m z.header 0
          (omega (arith, e)) (inl (refl, refl)))

  -- On a skip list of sorted keys of which none has the object, `zslGetRank` does not fault and
  -- returns 0, whatever the score.
  pub zsl_get_rank-Lacks :
      (score : D) (obj : O) (h : Heap (D × O)) (z : Zskiplist) (xs : Cells (D × O))
      → IsOrder o
      → IsSkiplist h z xs
      → IsSorted o xs
      → Lacks o obj xs
      → zsl_get_rank o score obj h z ≡ some 0
  unfolding zsl_get_rank
  zsl_get_rank-Lacks score obj h z xs ord s t l =
      let (pre, post, e, b, c) = less_eq-split o (score, obj) xs ord t in
      let s' : IsSkiplist h z (pre ++ post) = rw e at s in
      rank_loop-absent o obj (λ r k. less_eq o k (score, obj)) h z.header z.level (z.length + 1) pre
        post z.level z.header 0
        (Walks-split (λ r k. less_eq o k (score, obj)) h z pre post s'
          (Answers-keys (λ k. less_eq o k (score, obj)) true 0 pre b)
          (Answers-keys (λ k. less_eq o k (score, obj)) false (length pre) post c))
        s'.nodes (All-prefix (λ n. o.equal_obj n.key.1 obj ≡ false) pre post (rw e at l))
        (header-Misses obj h z xs s) (omega arith) (inl (refl, refl))
