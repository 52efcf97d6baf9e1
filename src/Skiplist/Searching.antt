-- ===== src/Skiplist/Searching.antt =====
-- The descent through the levels of a skip list in struct/t_zset.c: what `update` and `rank` hold.
use learnredis.Base.{
  ℕ, zero, suc, ◌+◌, ◌≤◌, ◌<◌, ◌≡◌, refl, sym, ap, ◌∙◌, ◌⊎◌, inl, inr, Bool, true, false, none,
  some, [], ◌∷◌, ◌++◌, arith, length, length-append, append_assoc, ltb, ◌==◌, ==_iff, if◌then◌else◌,
  Bool-cases,
}
use learnredis.Skiplist.{
  Pointer, Heap, Route, Test, zskiplist_maxlevel, get_level, walk, descend, set_path,
}
use learnredis.Skiplist.Links.{Cells, link, last_addr, Nodes, Headed, Nodes-split}
use learnredis.Skiplist.Walking.{
  spot, spot_rank, Answers, Before, Stored-Before, walk-spot, at_zero,
}

longer : {x y : ℕ} → (k m : ℕ) → {r : ℕ} → (x ≡ y) × (r ≡ suc k + m) → (x ≡ y) × (r ≡ k + suc m)
longer k m (e, f) = (e, f ∙ omega arith)

with_zero : {x y : ℕ} → (k : ℕ) → {r : ℕ} → (x ≡ y) × (r ≡ k) → (x ≡ y) × (r ≡ k + 0)
with_zero k (e, f) = (e, f ∙ omega arith)

module _ {ℓ} {K : Type ℓ} where
  pub spot-append : (i x : ℕ) (a b : Cells K) → spot i x (a ++ b) ≡ spot i (spot i x a) b
  unfolding spot
  spot-append i x [] b = refl
  spot-append i x (n ∷ a) b = spot-append i (if ltb i n.height then n.addr else x) a b

  pub spot_rank-append :
      (i r k : ℕ) (a b : Cells K)
      → spot_rank i r k (a ++ b) ≡ spot_rank i (spot_rank i r k a) (k + length a) b
  unfolding spot_rank
  spot_rank-append i r k [] b = ap (λ n. spot_rank i r n b) (omega arith)
  spot_rank-append i r k (n ∷ a) b =
      spot_rank-append i (if ltb i n.height then suc k else r) (suc k) a b
      ∙ ap (λ m. spot_rank i (spot_rank i (if ltb i n.height then suc k else r) (suc k) a) m b)
          (omega arith)

  Answers-append :
      (go : Test K) (answer : Bool) (k : ℕ) (a b : Cells K)
      → Answers go answer k (a ++ b)
      → Answers go answer (k + length a) b
  Answers-append go answer k [] b s = rw (at_zero k) s
  Answers-append go answer k (n ∷ a) b s =
      let e : k + length (n ∷ a) ≡ suc k + length a = omega arith in
      rw e (Answers-append go answer (suc k) a b s.1)

  module _ (h : Heap K) (i j : ℕ) (below : i ≤ j) where
    -- No node of `pre` has the level `j`.
    Stays : Cells K → Type 0
    Stays pre = (x r k : ℕ) → (spot j x pre ≡ x) × (spot_rank j r k pre ≡ r)

    -- A node of `pre` is the last with level `j`, and the nodes `a` are those up to it.
    Goes : Cells K → Cells K → Type ℓ
    Goes pre post =
        (a b : Cells K) × (y : ℕ) × (pre ≡ a ++ b)
        × ((x r k : ℕ) → (spot j x pre ≡ y) × (spot_rank j r k pre ≡ k + length a))
        × ((x r k : ℕ) → (spot i x a ≡ y) × (spot_rank i r k a ≡ k + length a))
        × Before h i y 0 (b ++ post)

    spot_cases :
        (pre post : Cells K) (back : Pointer)
        → Nodes h back (pre ++ post)
        → Stays pre ⊎ Goes pre post
    unfolding spot spot_rank Nodes Stays Goes
    spot_cases [] post back s = inl (λ x r k. (refl, refl))
    spot_cases (n ∷ pre) post back s = elim (spot_cases pre post (some n.addr) s.1) [
      | inr (a, b, y, e, f, g, l) ↦ inr (
        n ∷ a,
        b,
        y,
        ap (λ m. n ∷ m) e,
        λ x r k. longer k (length a) (
            f (if ltb j n.height then n.addr else x) (if ltb j n.height then suc k else r) (suc k)),
        λ x r k. longer k (length a) (
            g (if ltb i n.height then n.addr else x) (if ltb i n.height then suc k else r) (suc k)),
        l,
      )
      | inl stays ↦ elim (Bool-cases (ltb j n.height)) [
        | inl e ↦
            let e' : ltb i n.height ≡ true = ground (arith, e, below) in
            inr (
              n ∷ [],
              pre,
              n.addr,
              refl,
              λ x r k. rw e (longer k 0 (with_zero (suc k) (stays n.addr (suc k) (suc k)))),
              λ x r k. rw e' (refl, omega arith),
              Stored-Before h i n back (pre ++ post) e' s.0,
            )
        | inr e ↦ inl (λ x r k. rw e (stays x r (suc k)))
      ]
    ]

  -- What a search leaves in the arrays for the levels below `n`
  abbrev pub Found : ℕ → Cells K → Route → ℕ → Type 0
  Found header pre path n =
      (i : ℕ)
      → i < n
      → (path.nodes i ≡ some (spot i header pre)) × (path.rank i ≡ some (spot_rank i 0 0 pre))

  pub header-Before :
      (h : Heap K) (header top : ℕ) (xs : Cells K)
      → Headed h header top xs
      → top ≤ zskiplist_maxlevel
      → (i : ℕ) → i < top
      → Before h i header 0 xs
  unfolding Headed get_level
  header-Before h header top xs (level, e, f, g) low i b =
      let inside : ltb i zskiplist_maxlevel ≡ true = ground (arith, b, low) in
      rw (e, inside)
        (ap some
          (f i b ∙ ap (λ m. record { forward = (link i xs).forward; span = m }) (omega arith)))

  -- Where the walk along the level below `i` starts
  abbrev pub Start : ℕ → ℕ → Cells K → ℕ → ℕ → ℕ → Type 0
  Start header top pre i x r =
      ((x ≡ header) × (r ≡ 0)) ⊎ ((i < top) × (x ≡ spot i header pre) × (r ≡ spot_rank i 0 0 pre))

  module _ (go : Test K) (h : Heap K) (header top fuel : ℕ) (pre post : Cells K)
      (headed : Headed h header top (pre ++ post)) (nodes : Nodes h none (pre ++ post))
      (passes : Answers go true 0 pre) (stops : Answers go false (length pre) post)
      (low : top ≤ zskiplist_maxlevel) (enough : length pre < fuel) where
    pub from_header :
        (i : ℕ)
        → i < top
        → walk fuel go h i header 0 ≡ some (spot i header pre, spot_rank i 0 0 pre)
    from_header i b =
        let none_before : 0 + length pre ≡ length pre = omega arith in
        walk-spot go h i pre post none fuel header 0 0 0 nodes
          (header-Before h header top (pre ++ post) headed low i b) refl passes
          (rw none_before stops) enough

    from_split :
        (i : ℕ) (a c : Cells K) (y : ℕ)
        → pre ≡ a ++ c
        → (spot i header a ≡ y) × (spot_rank i 0 0 a ≡ 0 + length a)
        → Before h i y 0 (c ++ post)
        → walk fuel go h i y (0 + length a) ≡ some (spot i header pre, spot_rank i 0 0 pre)
    from_split i a c y e (f, g) l =
        let nodes' : Nodes h none (a ++ (c ++ post)) =
          rw (sym (append_assoc a c post), sym e) nodes in
        let len : length pre ≡ 0 + length a + length c =
          omega (arith, ap length e, length-append a c) in
        let spots : spot i header pre ≡ spot i y c =
          ap (spot i header) e ∙ spot-append i header a c ∙ ap (λ x. spot i x c) f in
        let ranks : spot_rank i 0 0 pre ≡ spot_rank i (0 + length a) (0 + length a) c =
          ap (spot_rank i 0 0) e
          ∙ spot_rank-append i 0 0 a c
          ∙ ap (λ r. spot_rank i r (0 + length a) c) g in
        rw (spots, ranks)
          (walk-spot go h i c post (last_addr none a) fuel y (0 + length a) 0 (0 + length a)
            (Nodes-split h none a (c ++ post) nodes') l (omega arith)
            (Answers-append go true 0 a c (rw e at passes)) (rw len at stops)
            (omega (arith, len, enough)))

    from_level :
        (i : ℕ)
        → suc i < top
        → walk fuel go h i (spot (suc i) header pre) (spot_rank (suc i) 0 0 pre)
          ≡ some (spot i header pre, spot_rank i 0 0 pre)
    unfolding Stays Goes
    from_level i b = elim (spot_cases h i (suc i) (omega arith) pre post none nodes) [
      | inl stays ↦ let (e, f) = stays header 0 0 in rw (e, f) (from_header i (omega (arith, b)))
      | inr (a, c, y, e, f, g, l) ↦
          let (u, v) = f header 0 0 in rw (u, v) (from_split i a c y e (g header 0 0) l)
    ]

    pub walk-Start :
        (i x r : ℕ)
        → suc i ≤ top
        → Start header top pre (suc i) x r
        → walk fuel go h i x r ≡ some (spot i header pre, spot_rank i 0 0 pre)
    walk-Start i x r b (inl (e, f)) = rw (e, f) (from_header i b)
    walk-Start i x r b (inr (l, e, f)) = rw (e, f) (from_level i l)

    pub descend-Found :
        (i x r : ℕ) (path : Route)
        → i ≤ top
        → Start header top pre i x r
        → (path' : Route) × (descend i fuel go h x r path ≡ some path')
          × Found header pre path' i
          × ((j : ℕ) → i ≤ j → (path'.nodes j ≡ path.nodes j) × (path'.rank j ≡ path.rank j))
    unfolding descend
    descend-Found zero x r path b s =
        (path, refl, (λ i k. absurd (omega (arith, k))), λ j k. (refl, refl))
    descend-Found (suc i) x r path b s =
        let y = spot i header pre in
        let q = spot_rank i 0 0 pre in
        let (path', e, found, kept) =
          descend-Found i y q (set_path path i y q) (omega (arith, b)) (inr (b, refl, refl)) in
        (
          path',
          rw (walk-Start i x r b s) e,
          λ j k. elim (Bool-cases (j == i)) [
            | inl g ↦
                let at : j ≡ i = (==_iff j i).0 g in
                let (u, v) = kept j (omega (arith, at)) in
                (u ∙ (rw (g, at) refl), v ∙ (rw (g, at) refl))
            | inr g ↦ found j (ground (arith, g, k))
          ],
          λ j k.
              let other : (j == i) ≡ false = ground (arith, k) in
              let (u, v) = kept j (omega (arith, k)) in (u ∙ (rw other refl), v ∙ (rw other refl)),
        )
