-- ===== src/Skiplist/Fitting.antt =====
-- The heights, the number and the addresses of the nodes of a skip list of struct/t_zset.c when one
-- comes or goes.
use learnredis.Base.{
  ltb, refl, none, some, Bool-cases, inl, inr, ℕ, ◌+◌, ◌≤◌, ◌<◌, ◌≡◌, [], ◌∷◌, ◌++◌, arith, length,
  length-append, ◌==◌, if◌then◌else◌, All,
}
use learnredis.Skiplist.Links.{link, Cell, Cells, occurs, occurs-append}
use learnredis.Skiplist.Raising.{Under}
use learnredis.Skiplist.Linking.{Tall}

module _ {ℓ} {K : Type ℓ} where
  abbrev pub Fits : ℕ → Cell K → Type 0
  Fits top n = (0 < n.height) × (n.height ≤ top)

  pub Fits-Under : (top : ℕ) (xs : Cells K) → All (Fits top) xs → Under top xs
  Fits-Under top [] a = tt
  Fits-Under top (n ∷ xs) a = (a.0.1, Fits-Under top xs a.1)

  pub Fits-Tall : (top : ℕ) (xs : Cells K) → All (Fits top) xs → Tall xs
  Fits-Tall top [] a = tt
  Fits-Tall top (n ∷ xs) a = (a.0.0, Fits-Tall top xs a.1)

  -- Room for the new node among the others
  pub Fits-new :
      (top top' : ℕ) (pre post : Cells K) (n : Cell K)
      → top ≤ top'
      → Fits top' n
      → All (Fits top) (pre ++ post)
      → All (Fits top') (pre ++ (n ∷ post))
  Fits-new top top' [] [] n b f a = (f, tt)
  Fits-new top top' [] (m ∷ post) n b f a =
      (f, ((a.0.0, omega (arith, b, a.0.1)), (Fits-new top top' [] post n b f a.1).1))
  Fits-new top top' (m ∷ pre) post n b f a =
      ((a.0.0, omega (arith, b, a.0.1)), Fits-new top top' pre post n b f a.1)

  pub Tall-parts : (pre post : Cells K) → Tall (pre ++ post) → Tall pre × Tall post
  Tall-parts [] post t = (tt, t)
  Tall-parts (n ∷ pre) post t = let (u, v) = Tall-parts pre post t.1 in ((t.0, u), v)

  pub occurs-new :
      (a : ℕ) (pre post : Cells K) (n : Cell K)
      → occurs a (pre ++ (n ∷ post)) ≡ (if a == n.addr then 1 else 0) + occurs a (pre ++ post)
  unfolding occurs
  occurs-new a pre post n = omega (arith, occurs-append a pre (n ∷ post), occurs-append a pre post)

  pub length-new :
      (pre post : Cells K) (n : Cell K) → length (pre ++ (n ∷ post)) ≡ length (pre ++ post) + 1
  length-new pre post n = omega (arith, length-append pre (n ∷ post), length-append pre post)

  -- The others keep their heights when a node goes.
  pub Fits-without :
      (top : ℕ) (pre post : Cells K) (n : Cell K)
      → All (Fits top) (pre ++ (n ∷ post))
      → All (Fits top) (pre ++ post)
  Fits-without top [] post n a = a.1
  Fits-without top (m ∷ pre) post n a = (a.0, Fits-without top pre post n a.1)

  pub Fits-Under-join :
      (top low : ℕ) (xs : Cells K) → All (Fits top) xs → Under low xs → All (Fits low) xs
  Fits-Under-join top low [] a u = tt
  Fits-Under-join top low (n ∷ xs) a u = ((a.0.0, u.0), Fits-Under-join top low xs a.1 u.1)

  -- The number of levels that the nodes take; an empty list has one.
  unfoldable pub highest : Cells K → ℕ
  highest [] = 1
  highest (n ∷ xs) = if ltb (highest xs) n.height then n.height else highest xs

  -- A node more
  pub highest-new :
      (pre post : Cells K) (n : Cell K)
      → highest (pre ++ (n ∷ post))
        ≡ (if ltb (highest (pre ++ post)) n.height then n.height else highest (pre ++ post))
  unfolding highest
  highest-new [] post n = refl
  highest-new (m ∷ pre) post n = rw (highest-new pre post n) (ground arith)

  pub highest-le : (top : ℕ) (xs : Cells K) → 0 < top → Under top xs → highest xs ≤ top
  unfolding highest
  highest-le top [] p u = p
  highest-le top (n ∷ xs) p u = ground (arith, u.0, highest-le top xs p u.1)

  pub highest_pos : (xs : Cells K) → 0 < highest xs
  unfolding highest
  highest_pos [] = omega arith
  highest_pos (n ∷ xs) = ground (arith, highest_pos xs)

  -- A level that leads to a node is one of them.
  pub link-highest : (j : ℕ) (xs : Cells K) (a : ℕ) → (link j xs).forward ≡ some a → j < highest xs
  unfolding link highest
  link-highest j [] a e = let clash : none ≡ some a = e in cc
  link-highest j (n ∷ xs) a e = elim (Bool-cases (ltb j n.height)) [
    | inl f ↦ ground (arith, f)
    | inr f ↦ ground (arith, link-highest j xs a (rw f at e))
  ]
