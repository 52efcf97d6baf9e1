-- ===== src/Skiplist/Walking.antt =====
-- The searches of a skip list in struct/t_zset.c: where a walk along a level ends.
use learnredis.Base.{
  ℕ, zero, suc, ◌+◌, ◌<◌, ◌≡◌, refl, ap, ◌∙◌, inl, inr, Bool, true, false, none, some, [], ◌∷◌,
  ◌++◌, arith, length, ltb, if◌then◌else◌, Bool-cases,
}
use learnredis.Skiplist.{Pointer, Level, Heap, Test, get_level, walk, key_test}
use learnredis.Skiplist.Links.{Cell, Cells, link, Stored, Nodes, link-high, link-low}

pub at_zero : (n : ℕ) → n + 0 ≡ n
at_zero n = omega arith

at_suc : (n m : ℕ) → n + suc m ≡ suc n + m
at_suc n m = omega arith

module _ {ℓ} {K : Type ℓ} where
  -- The last of `x` and the nodes `b` that has the level `i`, and its rank; `k` nodes are before `b`.
  unfoldable pub spot : ℕ → ℕ → Cells K → ℕ
  spot i x [] = x
  spot i x (n ∷ b) = spot i (if ltb i n.height then n.addr else x) b

  unfoldable pub spot_rank : ℕ → ℕ → ℕ → Cells K → ℕ
  spot_rank i r k [] = r
  spot_rank i r k (n ∷ b) = spot_rank i (if ltb i n.height then suc k else r) (suc k) b

  -- The test of a walk gives `answer` on the nodes of which `k` are before.
  abbrev pub Answers : Test K → Bool → ℕ → Cells K → Type 0
  Answers go answer k [] = Unit
  Answers go answer k (n ∷ b) = (go (suc k) n.key ≡ answer) × Answers go answer (suc k) b

  module _ (h : Heap K) (i : ℕ) where
    -- There are `k` nodes that are too low between `x` and the nodes `xs`.
    abbrev pub Before : ℕ → ℕ → Cells K → Type 0
    Before x k xs =
        get_level h x i
        ≡ some (record { forward = (link i xs).forward; span = k + (link i xs).span })

    pub Before-high :
        (x k : ℕ) (n : Cell K) (xs : Cells K)
        → ltb i n.height ≡ true
        → Before x k (n ∷ xs)
        → get_level h x i ≡ some (record { forward = some n.addr; span = k + 1 })
    Before-high x k n xs e b =
        b ∙ ap (λ l. some (record { forward = l.forward; span = k + l.span })) (link-high i n xs e)

    pub Before-low :
        (x k : ℕ) (n : Cell K) (xs : Cells K)
        → ltb i n.height ≡ false
        → Before x k (n ∷ xs)
        → Before x (suc k) xs
    Before-low x k n xs e b =
        b
        ∙ ap (λ l. some (record { forward = l.forward; span = k + l.span })) (link-low i n xs e)
        ∙ ap (λ s. some (record { forward = (link i xs).forward; span = s })) (omega arith)

    pub Stored-Before :
        (n : Cell K) (back : Pointer) (xs : Cells K)
        → ltb i n.height ≡ true
        → Stored h n back xs
        → Before n.addr 0 xs
    unfolding Stored get_level
    Stored-Before n back xs e (level, s, l) =
        rw (s, e)
          (ap some (
            l i (ground (arith, e))
            ∙ ap (λ s. record { forward = (link i xs).forward; span = s }) (omega arith)))

  module _ (go : Test K) (h : Heap K) (i : ℕ) where
    walk_end :
        (fuel x r : ℕ) (l : Level)
        → get_level h x i ≡ some l
        → l.forward ≡ none
        → walk (suc fuel) go h i x r ≡ some (x, r)
    unfolding walk
    walk_end fuel x r l e f = rw (e, walk, f) refl

    walk_step :
        (fuel x r f : ℕ) (l : Level) (key : K) (b : Bool)
        → get_level h x i ≡ some l
        → l.forward ≡ some f
        → key_test go (r + l.span) (h f) ≡ some b
        → walk (suc fuel) go h i x r ≡ (if b then walk fuel go h i f (r + l.span) else some (x, r))
    unfolding walk
    walk_step fuel x r f l key true e n t = rw (e, walk, n, t) refl
    walk_step fuel x r f l key false e n t = rw (e, walk, n, t) refl

    key-Stored :
        (n : Cell K) (back : Pointer) (xs : Cells K) (r : ℕ)
        → Stored h n back xs
        → key_test go r (h n.addr) ≡ some (go r n.key)
    unfolding Stored
    key-Stored n back xs r (level, s, l) = rw s refl

    walk-stops :
        (post : Cells K) (back : Pointer) (fuel x r k at : ℕ)
        → Nodes h back post
        → Before h i x k post
        → r + k ≡ at
        → Answers go false at post
        → walk (suc fuel) go h i x r ≡ some (x, r)
    unfolding Nodes link
    walk-stops [] back fuel x r k at s b p a = walk_end fuel x r _ b refl
    walk-stops (n ∷ post) back fuel x r k at s b p a = elim (Bool-cases (ltb i n.height)) [
      | inl e ↦
          let next : r + (k + 1) ≡ suc at = omega (arith, p) in
          walk_step fuel x r n.addr _ n.key false (Before-high h i x k n post e b) refl
            (key-Stored n back post (r + (k + 1)) s.0 ∙ ap some (ap (λ j. go j n.key) next ∙ a.0))
      | inr e ↦
          walk-stops post (some n.addr) fuel x r (suc k) (suc at) s.1
            (Before-low h i x k n post e b) (omega (arith, p)) a.1
    ]

    -- The walk passes the nodes `b` and stops before the nodes `post`.
    pub walk-spot :
        (b post : Cells K) (back : Pointer) (fuel x r k at : ℕ)
        → Nodes h back (b ++ post)
        → Before h i x k (b ++ post)
        → r + k ≡ at
        → Answers go true at b
        → Answers go false (at + length b) post
        → length b < fuel
        → walk fuel go h i x r ≡ some (spot i x b, spot_rank i r at b)
    unfolding Nodes spot spot_rank
    walk-spot b post back zero x r k at s l p a c f = absurd (omega (arith, f))
    walk-spot [] post back (suc fuel) x r k at s l p a c f =
        walk-stops post back fuel x r k at s l p (rw (at_zero at) at c)
    walk-spot (n ∷ b) post back (suc fuel) x r k at s l p a c f =
        elim (Bool-cases (ltb i n.height)) [
          | inl e ↦
              let next : r + (k + 1) ≡ suc at = omega (arith, p) in
              rw e (
                walk_step fuel x r n.addr _ n.key true (Before-high h i x k n (b ++ post) e l) refl
                  (key-Stored n back (b ++ post) (r + (k + 1)) s.0
                    ∙ ap some (ap (λ j. go j n.key) next ∙ a.0))
                ∙ (rw next (
                    walk-spot b post (some n.addr) fuel n.addr (suc at) 0 (suc at) s.1
                      (Stored-Before h i n back (b ++ post) e s.0) (omega arith) a.1
                      (rw (at_suc at (length b)) at c) (omega (arith, f)))))
          | inr e ↦ rw e (
              walk-spot b post (some n.addr) (suc fuel) x r (suc k) (suc at) s.1
                (Before-low h i x k n (b ++ post) e l) (omega (arith, p)) a.1
                (rw (at_suc at (length b)) at c) (omega (arith, f)))
        ]
