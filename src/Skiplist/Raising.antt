-- ===== src/Skiplist/Raising.antt =====
-- The new levels that zslInsert of struct/t_zset.c gives the header when a node is higher than the list.
use learnredis.Base.{
  if◌then◌else◌, ℕ, zero, suc, ◌+◌, ◌-◌, ◌≤◌, ◌<◌, ◌≡◌, refl, sym, ap, ◌∙◌, inl, inr, true, false,
  Option, none, some, [], ◌∷◌, ◌++◌, arith, length, ltb, ◌==◌, ==_iff, Bool-cases, All, update,
}
use learnredis.Skiplist.{
  Pointer, Level, Node, Heap, Zskiplist, Route, set_path, zskiplist_maxlevel, raise_loop, raise,
  get_level, set_level,
}
use learnredis.Skiplist.Links.{Cells, link, link-low, occurs, Nodes, Headed, Stored}
use learnredis.Skiplist.Walking.{spot, spot_rank}
use learnredis.Skiplist.Searching.{Found}
use learnredis.Skiplist.Changing.{get_level_at, set_level_at}

module _ {ℓ} {K : Type ℓ} where
  -- No node is higher than `i`.
  abbrev pub Under : ℕ → Cells K → Type 0
  Under i xs = All (λ n. n.height ≤ i) xs

  pub Under-more : (i j : ℕ) (xs : Cells K) → i ≤ j → Under i xs → Under j xs
  Under-more i j [] b u = tt
  Under-more i j (n ∷ xs) b u = (omega (arith, b, u.0), Under-more i j xs b u.1)

  pub Under-prefix : (i : ℕ) (xs ys : Cells K) → Under i (xs ++ ys) → Under i xs
  Under-prefix i [] ys u = tt
  Under-prefix i (n ∷ xs) ys u = (u.0, Under-prefix i xs ys u.1)

  link-Under :
      (i : ℕ) (xs : Cells K) → Under i xs → link i xs ≡ record { forward = none; span = length xs }
  unfolding link
  link-Under i [] u = refl
  link-Under i (n ∷ xs) u =
      link-low i n xs (ground (arith, u.0))
      ∙ ap (λ l. record { forward = l.forward; span = suc (l.span) }) (link-Under i xs u.1)

  spot-Under :
      (i x r k : ℕ) (xs : Cells K) → Under i xs → (spot i x xs ≡ x) × (spot_rank i r k xs ≡ r)
  unfolding spot spot_rank
  spot-Under i x r k [] u = (refl, refl)
  spot-Under i x r k (n ∷ xs) u =
      let e : ltb i n.height ≡ false = ground (arith, u.0) in rw e (spot-Under i x r (suc k) xs u.1)

  pub Nodes-update :
      (h : Heap K) (a : ℕ) (v : Option (Node K)) (back : Pointer) (xs : Cells K)
      → occurs a xs ≡ 0
      → Nodes h back xs
      → Nodes (update h a v) back xs
  unfolding Nodes Stored occurs
  Nodes-update h a v back [] e s = tt
  Nodes-update h a v back (n ∷ xs) e ((level, f, g), s) =
      let other : (n.addr == a) ≡ false = ground (arith, e) in
      ((level, (rw other f), g), Nodes-update h a v (some n.addr) xs (omega (arith, e)) s)

  module _ (z : Zskiplist) (pre post : Cells K) (size : z.length ≡ length (pre ++ post))
      (apart : occurs z.header (pre ++ post) ≡ 0) where
    -- One round: the level `i` leads over all nodes to the end.
    raise-round :
        (h : Heap K) (i : ℕ)
        → i < zskiplist_maxlevel
        → Under i (pre ++ post)
        → Headed h z.header i (pre ++ post)
        → Nodes h none (pre ++ post)
        → (l : Level) × (h' : Heap K) × (get_level h z.header i ≡ some l)
          × (set_level h z.header i (record l { span = z.length }) ≡ some h')
          × Headed h' z.header (i + 1) (pre ++ post)
          × Nodes h' none (pre ++ post)
    unfolding Headed
    raise-round h i b u (level, e, f, g) s =
        let xs : Cells K = pre ++ post in
        let l : Level = record (level i) { span = z.length } in
        let inside : ltb i zskiplist_maxlevel ≡ true = ground (arith, b) in
        let new : l ≡ link i xs =
          ap (λ p. record { forward = p; span = z.length }) (g i (omega arith) b)
          ∙ ap (λ s. record { forward = none; span = s }) size
          ∙ sym (link-Under i xs u) in
        (
          level i,
          update h z.header (
              some (record {
                key = none;
                backward = none;
                height = zskiplist_maxlevel;
                level = update level i l;
              })),
          get_level_at h z.header i _ e inside,
          set_level_at h z.header i _ l e inside,
          (
            update level i l,
            (rw ((==_iff z.header z.header).1 refl) refl),
            (λ j c. elim (Bool-cases (j == i)) [
              | inl q ↦ rw ((==_iff j i).0 q, (==_iff i i).1 refl) new
              | inr q ↦ rw q (f j (ground (arith, q, c)))
            ]),
            (λ j c d.
                let other : (j == i) ≡ false = ground (arith, c) in
                rw other (g j (omega (arith, c)) d)),
          ),
          Nodes-update h z.header _ none xs apart s,
        )

    raise_loop-Headed :
        (n i top : ℕ) (h : Heap K) (path : Route)
        → i + n ≡ top
        → top ≤ zskiplist_maxlevel
        → Under i (pre ++ post)
        → Headed h z.header i (pre ++ post)
        → Nodes h none (pre ++ post)
        → Found z.header pre path i
        → (h' : Heap K) × (path' : Route) × (raise_loop n i h z path ≡ some (h', path'))
          × Headed h' z.header top (pre ++ post)
          × Nodes h' none (pre ++ post)
          × Found z.header pre path' top
    unfolding raise_loop
    raise_loop-Headed zero i top h path e b u s t found =
        let end : i ≡ top = omega (arith, e) in (h, path, refl, rw end at s, t, rw end at found)
    raise_loop-Headed (suc n) i top h path e b u s t found =
        let (l, h1, r, w, s1, t1) = raise-round h i (omega (arith, e, b)) u s t in
        let (p, q) = spot-Under i z.header 0 0 pre (Under-prefix i pre post u) in
        let (h2, path2, e2, s2, t2, found2) =
          raise_loop-Headed n (i + 1) top h1 (set_path path i z.header 0) (omega (arith, e)) b
            (Under-more i (i + 1) (pre ++ post) (omega arith) u) s1 t1
            (λ j c. elim (Bool-cases (j == i)) [
              | inl f ↦ let at : j ≡ i = (==_iff j i).0 f in rw (f, at, p, q) (refl, refl)
              | inr f ↦ rw f (found j (ground (arith, c, f)))
            ]) in
        (h2, path2, rw (r, w) e2, s2, t2, found2)

    -- What `raise` leaves, with the number of levels
    pub raise-Raised :
        (level : ℕ) (h : Heap K) (path : Route)
        → level ≤ zskiplist_maxlevel
        → z.level ≤ zskiplist_maxlevel
        → Under z.level (pre ++ post)
        → Headed h z.header z.level (pre ++ post)
        → Nodes h none (pre ++ post)
        → Found z.header pre path z.level
        → (top : ℕ) × (h' : Heap K) × (path' : Route) × (raise level h z path
            ≡ some (h', record z { level = top }, path'))
          × ((level ≤ top)
              × (z.level ≤ top)
              × (top ≤ zskiplist_maxlevel)
              × (top ≡ (if ltb z.level level then level else z.level)))
          × Headed h' z.header top (pre ++ post)
          × Nodes h' none (pre ++ post)
          × Found z.header pre path' top
    raise-Raised level h path b c u s t found = elim (Bool-cases (ltb z.level level)) [
      | inl e ↦
          let less : z.level < level = ground (arith, e) in
          let (h', path', f, s', t', found') =
            raise_loop-Headed (level - z.level) z.level level h path (omega (arith, less)) b u s t
              found in
          (
            level,
            h',
            path',
            (rw (e, f) refl),
            (omega arith, omega (arith, less), b, (rw e refl)),
            s',
            t',
            found',
          )
      | inr e ↦ (
        z.level,
        h,
        path,
        (rw e refl),
        (ground (arith, e), omega arith, c, (rw e refl)),
        s,
        t,
        found,
      )
    ]
