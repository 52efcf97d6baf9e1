-- ===== src/Skiplist/Deleting/Lowering.antt =====
-- The end of zslDeleteNode in struct/t_zset.c: the number of levels goes down to those in use.
use learnredis.Base.{
  ℕ, zero, suc, ◌≤◌, ◌<◌, ◌≡◌, refl, ap, ◌∙◌, inl, inr, none, some, [], ◌∷◌, arith, ltb, ◌==◌,
  ==_iff, Bool-cases, Option-cases,
}
use learnredis.Skiplist.{Heap, zskiplist_maxlevel, get_level}
use learnredis.Skiplist.Links.{Cells, link, Headed}
use learnredis.Skiplist.Changing.{get_level_at}
use learnredis.Skiplist.Raising.{Under}
use learnredis.Skiplist.Fitting.{highest, highest-le, highest_pos, link-highest}
use learnredis.Skiplist.Deleting.{lower_loop}

module _ {ℓ} {K : Type ℓ} where
  -- A level that leads nowhere has no nodes.
  link-empty : (j : ℕ) (xs : Cells K) → (link j xs).forward ≡ none → Under j xs
  unfolding link
  link-empty j [] e = tt
  link-empty j (n ∷ xs) e = elim (Bool-cases (ltb j n.height)) [
    | inl f ↦ let clash : some n.addr ≡ none = rw f at e in cc
    | inr f ↦ (ground (arith, f), link-empty j xs (rw f at e))
  ]

  module _ (h : Heap K) (header : ℕ) (xs : Cells K) where
    -- One level less
    Headed-less :
        (j : ℕ)
        → suc j ≤ zskiplist_maxlevel
        → Headed h header (suc j) xs
        → (link j xs).forward ≡ none
        → Headed h header j xs
    unfolding Headed
    Headed-less j b (level, e, f, g) is = (
      level,
      e,
      λ i c. f i (omega (arith, c)),
      λ i c d. elim (Bool-cases (i == j)) [
        | inl q ↦ rw ((==_iff i j).0 q) (ap (λ l. l.forward) (f j (omega arith)) ∙ is)
        | inr q ↦ g i (ground (arith, c, q)) d
      ],
    )

    header_level :
        (j top : ℕ)
        → j < top
        → top ≤ zskiplist_maxlevel
        → Headed h header top xs
        → get_level h header j ≡ some (link j xs)
    unfolding Headed
    header_level j top c b (level, e, f, g) =
        get_level_at h header j _ e (ground (arith, b, c)) ∙ ap some (f j c)

    pub lower_loop-Headed :
        (top : ℕ)
        → 0 < top
        → top ≤ zskiplist_maxlevel
        → Headed h header top xs
        → Under top xs
        → (top' : ℕ) × (lower_loop top h header ≡ some top')
          × ((0 < top') × (top' ≤ zskiplist_maxlevel))
          × Headed h header top' xs
          × Under top' xs
          × (top' ≡ highest xs)
    unfolding lower_loop
    lower_loop-Headed zero c b s u = absurd (omega (arith, c))
    lower_loop-Headed (suc zero) c b s u = (
      1,
      refl,
      (omega arith, b),
      s,
      u,
      omega (arith, highest-le 1 xs (omega arith) u, highest_pos xs),
    )
    lower_loop-Headed (suc (suc i)) c b s u =
        let read : get_level h header (suc i) ≡ some (link (suc i) xs) =
          header_level (suc i) (suc (suc i)) (omega arith) b s in
        elim (Option-cases (link (suc i) xs).forward) [
          | inl e ↦
              let (top', f, d, s', u', exact) =
                lower_loop-Headed (suc i) (omega arith) (omega (arith, b))
                  (Headed-less (suc i) b s e) (link-empty (suc i) xs e) in
              (top', rw (read, e) f, d, s', u', exact)
          | inr (a, e) ↦ (
            suc (suc i),
            (rw (read, e) refl),
            (omega arith, b),
            s,
            u,
            omega (arith, highest-le (suc (suc i)) xs (omega arith) u, link-highest (suc i) xs a e),
          )
        ]
