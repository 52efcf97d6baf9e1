-- ===== src/Skiplist/Ranking.antt =====
-- zslGetElementByRank of struct/t_zset.c: the node that its loop over the levels ends at.
use learnredis.Base.{
  ℕ, zero, suc, ◌+◌, ◌≤◌, ◌<◌, ◌≡◌, refl, sym, ◌∙◌, ◌⊎◌, inl, inr, Bool, true, false, some, [], ◌∷◌,
  ◌++◌, arith, length, length-append, append_assoc, ltb, leb, ◌==◌, ==_iff, Bool-cases, All,
}
use learnredis.Skiplist.{Heap, Zskiplist, Test, walk, element_loop, zsl_get_element_by_rank}
use learnredis.Skiplist.Links.{All-at, Cell, Cells, IsSkiplist}
use learnredis.Skiplist.Walking.{spot, spot_rank, Answers}
use learnredis.Skiplist.Searching.{spot-append, spot_rank-append, walk-Start, Start}

pub positive : (n : ℕ) → 0 < n → (m : ℕ) × (n ≡ suc m)
positive zero e = absurd (omega (arith, e))
positive (suc m) e = (m, refl)

module _ {ℓ} {K : Type ℓ} where
  pub spot_rank_bound : (i r k : ℕ) (b : Cells K) → r ≤ k → spot_rank i r k b ≤ k + length b
  unfolding spot_rank
  spot_rank_bound i r k [] e = omega (arith, e)
  spot_rank_bound i r k (n ∷ b) e = elim (Bool-cases (ltb i n.height)) [
    | inl f ↦ rw f (omega (arith, spot_rank_bound i (suc k) (suc k) b (omega arith)))
    | inr f ↦ rw f (omega (arith, spot_rank_bound i r (suc k) b (omega (arith, e))))
  ]

  -- A test of keys alone gives the same answer wherever the nodes stand.
  pub Answers-keys :
      (t : K → Bool) (answer : Bool) (k : ℕ) (b : Cells K)
      → All (λ n. t n.key ≡ answer) b
      → Answers (λ r key. t key) answer k b
  Answers-keys t answer k [] a = tt
  Answers-keys t answer k (n ∷ b) a = (a.0, Answers-keys t answer (suc k) b a.1)

  pub Answers-below :
      (rank k : ℕ) (b : Cells K) → k + length b ≤ rank → Answers (λ r key. leb r rank) true k b
  Answers-below rank k [] e = tt
  Answers-below rank k (n ∷ b) e =
      (ground (arith, e), Answers-below rank (suc k) b (omega (arith, e)))

  pub Answers-above :
      (rank k : ℕ) (b : Cells K) → rank ≤ k → Answers (λ r key. leb r rank) false k b
  Answers-above rank k [] e = tt
  Answers-above rank k (n ∷ b) e =
      (ground (arith, e), Answers-above rank (suc k) b (omega (arith, e)))

  -- At the level `i` the walk up to the node `n` ends at `n`, or at a node before it.
  pub last_node :
      (i header : ℕ) (pre : Cells K) (n : Cell K)
      → ((ltb i n.height ≡ true)
          × (spot i header (pre ++ (n ∷ [])) ≡ n.addr)
          × (spot_rank i 0 0 (pre ++ (n ∷ [])) ≡ length pre + 1))
        ⊎ ((ltb i n.height ≡ false)
            × (spot i header (pre ++ (n ∷ [])) ≡ spot i header pre)
            × (spot_rank i 0 0 (pre ++ (n ∷ [])) ≡ spot_rank i 0 0 pre))
  unfolding spot spot_rank
  last_node i header pre n = elim (Bool-cases (ltb i n.height)) [
    | inl e ↦ inl (
      e,
      spot-append i header pre (n ∷ []) ∙ (rw e refl),
      spot_rank-append i 0 0 pre (n ∷ []) ∙ (rw e (omega arith)),
    )
    | inr e ↦ inr (
      e,
      spot-append i header pre (n ∷ []) ∙ (rw e refl),
      spot_rank-append i 0 0 pre (n ∷ []) ∙ (rw e refl),
    )
  ]

  -- Every walk up to the node `n` ends where it should.
  abbrev pub Walks : Test K → Heap K → ℕ → ℕ → ℕ → Cells K → Type 0
  Walks go h header top fuel pre =
      (i x r : ℕ)
      → suc i ≤ top
      → Start header top pre (suc i) x r
      → walk fuel go h i x r ≡ some (spot i header pre, spot_rank i 0 0 pre)

  element_hit :
      (i fuel rank : ℕ) (h : Heap K) (x r y q : ℕ)
      → walk fuel (λ r' k. leb r' rank) h i x r ≡ some (y, q)
      → (q == rank) ≡ true
      → element_loop (suc i) fuel rank h x r ≡ some (some y)
  unfolding element_loop
  element_hit i fuel rank h x r y q e f = rw (e, element_loop, f) refl

  element_miss :
      (i fuel rank : ℕ) (h : Heap K) (x r y q : ℕ)
      → walk fuel (λ r' k. leb r' rank) h i x r ≡ some (y, q)
      → (q == rank) ≡ false
      → element_loop (suc i) fuel rank h x r ≡ element_loop i fuel rank h y q
  unfolding element_loop
  element_miss i fuel rank h x r y q e f = rw (e, element_loop, f) refl

  module _ (h : Heap K) (header top fuel : ℕ) (pre : Cells K) (n : Cell K)
      (w : Walks (λ r' k. leb r' (length pre + 1)) h header top fuel (pre ++ (n ∷ [])))
      (tall : 0 < n.height) where
    -- One level of the loop: it ends at the node, or goes on below from the node before it.
    element_round :
        (i x r : ℕ)
        → suc i ≤ top
        → Start header top (pre ++ (n ∷ [])) (suc i) x r
        → (element_loop (suc i) fuel (length pre + 1) h x r ≡ some (some n.addr))
          ⊎ ((ltb i n.height ≡ false)
              × (element_loop (suc i) fuel (length pre + 1) h x r
                  ≡ element_loop i fuel
                      (length pre + 1)
                      h
                      (spot i header (pre ++ (n ∷ [])))
                      (spot_rank i 0 0 (pre ++ (n ∷ [])))))
    element_round i x r b s = elim (last_node i header pre n) [
      | inl (e, f, g) ↦ inl (
          element_hit i fuel (length pre + 1) h x r n.addr (length pre + 1)
            (rw (f, g) at (w i x r b s)) ((==_iff (length pre + 1) (length pre + 1)).1 refl))
      | inr (e, f, g) ↦
          let bound : spot_rank i 0 0 pre ≤ 0 + length pre =
            spot_rank_bound i 0 0 pre (omega arith) in
          let other : (spot_rank i 0 0 (pre ++ (n ∷ [])) == length pre + 1) ≡ false =
            ground (arith, bound, g) in
          inr (e, element_miss i fuel (length pre + 1) h x r _ _ (w i x r b s) other)
    ]

    element_loop_lem :
        (i x r : ℕ)
        → suc i ≤ top
        → Start header top (pre ++ (n ∷ [])) (suc i) x r
        → element_loop (suc i) fuel (length pre + 1) h x r ≡ some (some n.addr)
    element_loop_lem zero x r b s = elim (element_round 0 x r b s) [
      | inl e ↦ e
      | inr (e, f) ↦ absurd (ground (arith, e, tall))
    ]
    element_loop_lem (suc j) x r b s = elim (element_round (suc j) x r b s) [
      | inl e ↦ e
      | inr (e, f) ↦ f ∙ element_loop_lem j _ _ (omega (arith, b)) (inr (b, refl, refl))
    ]

  pub Walks-split :
      (go : Test K) (h : Heap K) (z : Zskiplist) (pre post : Cells K)
      → IsSkiplist h z (pre ++ post)
      → Answers go true 0 pre
      → Answers go false (length pre) post
      → Walks go h z.header z.level (z.length + 1) pre
  Walks-split go h z pre post s a c i x r b t =
      walk-Start go h z.header z.level (z.length + 1) pre post s.header s.nodes a c s.levels.1
        (omega (arith, s.length, length-append pre post)) i x r b t

  -- On a skip list `zslGetElementByRank` of the place of a node, counted from 1, does not fault
  -- and returns this node.
  pub zsl_get_element_by_rank_lem :
      (h : Heap K) (z : Zskiplist) (pre : Cells K) (n : Cell K) (post : Cells K)
      → IsSkiplist h z (pre ++ (n ∷ post))
      → zsl_get_element_by_rank (length pre + 1) h z ≡ some (some n.addr)
  unfolding zsl_get_element_by_rank
  zsl_get_element_by_rank_lem h z pre n post s =
      let (m, e) = positive z.level s.levels.0 in
      let size : length (pre ++ (n ∷ [])) ≡ length pre + 1 =
        omega (arith, length-append pre (n ∷ [])) in
      rw e (
        element_loop_lem h z.header z.level (z.length + 1) pre n
          (Walks-split (λ r k. leb r (length pre + 1)) h z (pre ++ (n ∷ [])) post
            (rw (sym (append_assoc pre (n ∷ []) post)) at s)
            (Answers-below (length pre + 1) 0 (pre ++ (n ∷ [])) (omega (arith, size)))
            (Answers-above (length pre + 1) (length (pre ++ (n ∷ []))) post (omega (arith, size))))
          (All-at (λ c. (0 < c.height) × (c.height ≤ z.level)) pre n post s.heights).0 m z.header 0
          (omega (arith, e)) (inl (refl, refl)))
