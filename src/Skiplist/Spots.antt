-- ===== src/Skiplist/Spots.antt =====
-- The node of a skip list of struct/t_zset.c behind which a level changes: where it stands, and what
-- it holds.
use learnredis.Base.{
  ℕ, suc, ◌+◌, ◌<◌, ◌≡◌, refl, sym, ap, ◌∙◌, ◌⊎◌, inl, inr, true, false, some, [], ◌∷◌, ◌++◌, arith,
  length, ltb, ◌==◌, ==_iff, Bool-cases,
}
use learnredis.Skiplist.{Pointer, Heap}
use learnredis.Skiplist.Links.{Cell, Cells, link, occurs, Nodes, link-high, link-low}
use learnredis.Skiplist.Walking.{spot, spot_rank, Before, Before-low, Stored-Before}

module _ {ℓ} {K : Type ℓ} where
  -- None of the nodes `q` has the level `i`.
  unfoldable pub Low : ℕ → Cells K → Type ℓ
  Low i q =
      ((x : ℕ) → spot i x q ≡ x)
      × ((r k : ℕ) → spot_rank i r k q ≡ r)
      × ((ys : Cells K)
          → link i (q ++ ys)
            ≡ record { forward = (link i ys).forward; span = length q + (link i ys).span })

  -- One of them has: what comes behind them does not matter.
  unfoldable pub High : ℕ → Cells K → Type ℓ
  High i q =
      ((x : ℕ) → 0 < occurs (spot i x q) q)
      × ((ys zs : Cells K) → link i (q ++ ys) ≡ link i (q ++ zs))

  spot-high :
      (i x : ℕ) (n : Cell K) (q : Cells K)
      → ltb i n.height ≡ true
      → spot i x (n ∷ q) ≡ spot i n.addr q
  unfolding spot
  spot-high i x n q e = rw e refl

  spot-low :
      (i x : ℕ) (n : Cell K) (q : Cells K) → ltb i n.height ≡ false → spot i x (n ∷ q) ≡ spot i x q
  unfolding spot
  spot-low i x n q e = rw e refl

  pub level_cases : (i : ℕ) (q : Cells K) → Low i q ⊎ High i q
  unfolding Low High spot spot_rank occurs
  level_cases i [] = inl (
    λ x. refl,
    λ r k. refl,
    λ ys. ap (λ s. record { forward = (link i ys).forward; span = s }) (omega arith),
  )
  level_cases i (n ∷ q) = elim (Bool-cases (ltb i n.height)) [
    | inl e ↦ inr (
      λ x. elim (level_cases i q) [
        | inl (f, g, l) ↦
            let p : spot i x (n ∷ q) ≡ n.addr = spot-high i x n q e ∙ f n.addr in
            let here : (spot i x (n ∷ q) == n.addr) ≡ true =
              (==_iff (spot i x (n ∷ q)) n.addr).1 p in
            rw here (omega arith)
        | inr (f, g) ↦
            let p : occurs (spot i x (n ∷ q)) q ≡ occurs (spot i n.addr q) q =
              ap (λ a. occurs a q) (spot-high i x n q e) in
            omega (arith, f n.addr, p)
      ],
      λ ys zs. link-high i n (q ++ ys) e ∙ sym (link-high i n (q ++ zs) e),
    )
    | inr e ↦ elim (level_cases i q) [
      | inl (f, g, l) ↦ inl (
        λ x. rw e (f x),
        λ r k. rw e (g r (suc k)),
        λ ys.
            link-low i n (q ++ ys) e
            ∙ ap (λ m. record { forward = m.forward; span = suc (m.span) }) (l ys)
            ∙ ap (λ s. record { forward = (link i ys).forward; span = s }) (omega arith),
      )
      | inr (f, g) ↦ inr (
        λ x.
            let p : occurs (spot i x (n ∷ q)) q ≡ occurs (spot i x q) q =
              ap (λ a. occurs a q) (spot-low i x n q e) in
            omega (arith, f x, p),
        λ ys zs.
            link-low i n (q ++ ys) e
            ∙ ap (λ m. record { forward = m.forward; span = suc (m.span) }) (g ys zs)
            ∙ sym (link-low i n (q ++ zs) e),
      )
    ]
  ]

  -- The node is `x` or one of `b`.
  pub spot-occurs :
      (i x a : ℕ) (b : Cells K) → (a == x) ≡ false → occurs a b ≡ 0 → (a == spot i x b) ≡ false
  unfolding spot occurs
  spot-occurs i x a [] e f = e
  spot-occurs i x a (n ∷ b) e f = elim (Bool-cases (ltb i n.height)) [
    | inl g ↦ rw g (spot-occurs i n.addr a b (ground (arith, f)) (omega (arith, f)))
    | inr g ↦ rw g (spot-occurs i x a b e (omega (arith, f)))
  ]

  -- Its level leads over `m` nodes to those behind `b`.
  pub spot-Before :
      (h : Heap K) (i : ℕ) (b post : Cells K) (back : Pointer) (x r k at : ℕ)
      → Nodes h back (b ++ post)
      → Before h i x k (b ++ post)
      → r + k ≡ at
      → (m : ℕ) × Before h i (spot i x b) m post × (spot_rank i r at b + m ≡ at + length b)
  unfolding spot spot_rank Nodes
  spot-Before h i [] post back x r k at s l e = (k, l, omega (arith, e))
  spot-Before h i (n ∷ b) post back x r k at s l e = elim (Bool-cases (ltb i n.height)) [
    | inl g ↦
        let (m, l', e') =
          spot-Before h i b post (some n.addr) n.addr (suc at) 0 (suc at) s.1
            (Stored-Before h i n back (b ++ post) g s.0) (omega arith) in
        rw g (m, l', e' ∙ omega arith)
    | inr g ↦
        let (m, l', e') =
          spot-Before h i b post (some n.addr) x r (suc k) (suc at) s.1
            (Before-low h i x k n (b ++ post) g l) (omega (arith, e)) in
        rw g (m, l', e' ∙ omega arith)
  ]
