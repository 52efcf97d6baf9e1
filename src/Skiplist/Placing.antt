-- ===== src/Skiplist/Placing.antt =====
-- What the nodes of a skip list of struct/t_zset.c hold after a loop that changes the levels where a
-- search has ended.
use learnredis.Base.{
  ℕ, suc, ◌+◌, ◌≤◌, ◌<◌, ◌≡◌, refl, sym, ap, ◌∙◌, inl, inr, true, false, ◌&&◌, Option, none, some,
  [], ◌∷◌, ◌++◌, arith, length, length-append, append_assoc, ltb, ◌==◌, ==_iff, if◌then◌else◌,
  Bool-cases, All, update,
}
use learnredis.Skiplist.{Pointer, Level, Node, Heap, zskiplist_maxlevel}
use learnredis.Skiplist.Links.{
  Cell, Cells, link, occurs, occurs-append, Nodes, Headed, Stored, last_addr,
}
use learnredis.Skiplist.Walking.{spot, spot_rank}
use learnredis.Skiplist.Searching.{spot-append, spot_rank-append}
use learnredis.Skiplist.Spots.{spot-occurs}
use learnredis.Skiplist.Changing.{Others}

module _ {ℓ} {K : Type ℓ} where
  -- The nodes `xs` with the nodes `ys` behind them
  unfoldable pub Prefix : Heap K → Pointer → Cells K → Cells K → Type ℓ
  Prefix h back [] ys = Unit
  Prefix h back (n ∷ xs) ys = Stored h n back (xs ++ ys) × Prefix h (some n.addr) xs ys

  pub Nodes-join :
      (h : Heap K) (back : Pointer) (xs ys : Cells K)
      → Prefix h back xs ys
      → Nodes h (last_addr back xs) ys
      → Nodes h back (xs ++ ys)
  unfolding Prefix Nodes last_addr
  Nodes-join h back [] ys p s = s
  Nodes-join h back (n ∷ xs) ys p s = (p.0, Nodes-join h (some n.addr) xs ys p.1 s)

  pub Prefix-update :
      (h : Heap K) (a : ℕ) (v : Option (Node K)) (back : Pointer) (xs ys : Cells K)
      → occurs a xs ≡ 0
      → Prefix h back xs ys
      → Prefix (update h a v) back xs ys
  unfolding Prefix Stored occurs
  Prefix-update h a v back [] ys e s = tt
  Prefix-update h a v back (n ∷ xs) ys e ((level, f, g), s) =
      let other : (n.addr == a) ≡ false = ground (arith, e) in
      ((level, (rw other f), g), Prefix-update h a v (some n.addr) xs ys (omega (arith, e)) s)

  -- Where the level `j` goes from the node at `a`, of which the rank is `k`, with `q` behind it
  abbrev pub Trail : ℕ → Cells K → ℕ → ℕ → ℕ → Cells K → Type 0
  Trail header pre j a k q =
      (spot j header pre ≡ spot j a q) × (spot_rank j 0 0 pre ≡ spot_rank j k k q)

  -- A change of the last levels before `xs` makes them right before `ys`.
  abbrev pub Corrects : ℕ → Cells K → Cells K → Cells K → (ℕ → Level → Level) → Type ℓ
  Corrects header pre xs ys change =
      (j a k : ℕ) (q : Cells K) (l : Level)
      → Trail header pre j a k q
      → k + length q ≡ length pre
      → occurs a q ≡ 0
      → l ≡ link j (q ++ xs)
      → (if a == spot j header pre then change j l else l) ≡ link j (q ++ ys)

  module _ (h : Heap K) (header : ℕ) (pre xs ys : Cells K) (fresh : ℕ) (change : ℕ → Level → Level)
      (correct : Corrects header pre xs ys change) (top : ℕ) (g : Heap K)
      (others : Others h header pre fresh change top g) where
    trail :
        (j : ℕ) (p : Cells K) (n : Cell K) (q : Cells K)
        → pre ≡ p ++ (n ∷ q)
        → ltb j n.height ≡ true
        → Trail header pre j n.addr (suc (0 + length p)) q
    unfolding spot spot_rank
    trail j p n q e high = (
      ap (spot j header) e ∙ spot-append j header p (n ∷ q) ∙ (rw high refl),
      ap (spot_rank j 0 0) e ∙ spot_rank-append j 0 0 p (n ∷ q) ∙ (rw high refl),
    )

    -- An old node and what its levels in use have become
    place :
        (a : ℕ) (n : Node K)
        → (a == fresh) ≡ false
        → h a ≡ some n
        → (level' : ℕ → Level) × (g a ≡ some (record n { level = level' }))
          × ((j : ℕ)
              → level' j ≡ (
                  if ltb j top && (a == spot j header pre)
                  then change j (n.level j)
                  else n.level j))
    unfolding Others
    place a n apart at = others a n apart at

    pub place-Prefix :
        (p q : Cells K) (back : Pointer)
        → pre ≡ p ++ q
        → All (λ n. n.height ≤ top) q
        → ((a : ℕ) → occurs a pre ≤ 1)
        → occurs fresh q ≡ 0
        → Nodes h back (q ++ xs)
        → Prefix g back q ys
    unfolding Prefix Nodes Stored occurs
    place-Prefix p [] back e b d f s = tt
    place-Prefix p (n ∷ q) back e b d f ((old, at, links), s) =
        let apart : (n.addr == fresh) ≡ false = ground (arith, f) in
        let (level', at', same) =
          place n.addr
            (record { key = some n.key; backward = back; height = n.height; level = old }) apart
            at in
        let own : (n.addr == n.addr) ≡ true = (==_iff n.addr n.addr).1 refl in
        let alone : occurs n.addr q ≡ 0 =
          ground (arith, own, d n.addr, ap (occurs n.addr) e, occurs-append n.addr p (n ∷ q)) in
        (
          (
            level',
            at',
            λ j c.
                let high : ltb j n.height ≡ true = ground (arith, c) in
                let used : ltb j top ≡ true = ground (arith, c, b.0) in
                same j
                ∙ (rw used (
                    correct j n.addr (suc (0 + length p)) q (old j) (trail j p n q e high)
                      (omega (arith, ap length e, length-append p (n ∷ q))) alone (links j c))),
          ),
          place-Prefix (p ++ (n ∷ [])) q (some n.addr) (e ∙ sym (append_assoc p (n ∷ []) q)) b.1 d
              (omega (arith, f)) s,
        )

    pub place-Headed :
        Headed h header top (pre ++ xs)
        → occurs header pre ≡ 0
        → (header == fresh) ≡ false
        → Headed g header top (pre ++ ys)
    unfolding Headed
    place-Headed (old, at, links, ends) alone apart =
        let (level', at', same) =
          place header
            (record { key = none; backward = none; height = zskiplist_maxlevel; level = old }) apart
            at in
        (
          level',
          at',
          (λ j c.
              let used : ltb j top ≡ true = ground (arith, c) in
              same j
              ∙ (rw used
                  (correct j header 0 pre (old j) (refl, refl) (omega arith) alone (links j c)))),
          (λ j c d.
              let free : ltb j top ≡ false = ground (arith, c) in
              let kept : level' j ≡ old j = same j ∙ (rw free refl) in rw kept (ends j c d)),
        )

    -- The nodes behind the new one stay as they are.
    pub place-Nodes :
        (back : Pointer) (zs : Cells K)
        → ((a : ℕ)
            → 0 < occurs a zs
            → ((a == header) ≡ false) × (occurs a pre ≡ 0) × ((a == fresh) ≡ false))
        → Nodes h back zs
        → Nodes g back zs
    unfolding Nodes Stored occurs
    place-Nodes back [] d s = tt
    place-Nodes back (n ∷ zs) d ((old, at, links), s) =
        let own : (n.addr == n.addr) ≡ true = (==_iff n.addr n.addr).1 refl in
        let (apart, alone, unlike) = d n.addr (ground (arith, own)) in
        let (level', at', same) =
          place n.addr
            (record { key = some n.key; backward = back; height = n.height; level = old }) unlike
            at in
        (
          (
            level',
            at',
            λ j c.
                let other : (n.addr == spot j header pre) ≡ false =
                  spot-occurs j header n.addr pre apart alone in
                same j
                ∙ (rw other (elim (Bool-cases (ltb j top)) [
                  | inl t ↦ rw t (links j c)
                  | inr t ↦ rw t (links j c)
                ])),
          ),
          place-Nodes (some n.addr) zs (λ a e. d a (omega (arith, e))) s,
        )
