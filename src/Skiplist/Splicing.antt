-- ===== src/Skiplist/Splicing.antt =====
-- The loops of zslInsert in struct/t_zset.c that put a node into its levels and stretch the others.
use learnredis.Base.{
  ℕ, zero, suc, ◌+◌, ◌-◌, ◌≤◌, ◌<◌, ◌≡◌, refl, sym, ap, ◌∙◌, inl, inr, true, false, none, some,
  arith, ltb, ◌==◌, ==_iff, if◌then◌else◌, Bool-cases, update, update_self,
}
use learnredis.Skiplist.{
  Level, Node, Heap, Route, get_level, set_level, splice_at, splice_loop, stretch_loop,
}
use learnredis.Skiplist.Links.{Cells, link}
use learnredis.Skiplist.Walking.{spot, spot_rank}
use learnredis.Skiplist.Searching.{Found}
use learnredis.Skiplist.Changing.{
  get_level_at, set_level_at, Others, Others-at, touch-Others, old-Others, spot-level,
}

module _ {ℓ} {K : Type ℓ} where
  module _ (h : Heap K) (header : ℕ) (pre post : Cells K) (fresh level : ℕ) (key : K) where
    -- What the level `i` of the node before the new one becomes, with the distance `d` to it
    abbrev pub changed : ℕ → Level → Level
    changed i l =
        if ltb i level
        then record { forward = some fresh; span = spot_rank 0 0 0 pre - spot_rank i 0 0 pre + 1 }
        else record l { span = l.span + 1 }

    -- The old nodes after the rounds for the levels below `i`
    abbrev pub Spliced : ℕ → Heap K → Type ℓ
    Spliced i g = Others h header pre fresh changed i g

    -- The new node in it
    unfoldable pub New : ℕ → Heap K → Type ℓ
    New i g =
        (level' : ℕ → Level) × (g fresh
          ≡ some (record { key = some key; backward = none; height = level; level = level' }))
        × ((j : ℕ) → j < i → j < level → level' j ≡ link j post)

    -- The node whose level `i` changes
    unfoldable pub Spot : ℕ → Type ℓ
    Spot i =
        (n : Node K) × (m : ℕ) × (h (spot i header pre) ≡ some n)
        × (ltb i n.height ≡ true)
        × (n.level i ≡ record { forward = (link i post).forward; span = m + (link i post).span })
        × (spot_rank i 0 0 pre + m ≡ spot_rank 0 0 0 pre)
        × ((spot i header pre == fresh) ≡ false)

    pub splice-round :
        (i : ℕ) (g : Heap K) (path : Route)
        → Spot i
        → i < level
        → path.nodes i ≡ some (spot i header pre)
        → path.rank i ≡ some (spot_rank i 0 0 pre)
        → path.rank 0 ≡ some (spot_rank 0 0 0 pre)
        → Spliced i g
        → New i g
        → (g' : Heap K) × (splice_at g fresh path i ≡ some g') × Spliced (i + 1) g' × New (i + 1) g'
    unfolding Spot New
    splice-round i g path (n, m, at, high, old, dist, apart) b e f f0 s (lx, gx, done) =
        let u = spot i header pre in
        let (lu, gu, same) = Others-at h header pre fresh changed i g u n apart at s in
        let l : Level = record { forward = (link i post).forward; span = m + (link i post).span } in
        let d = spot_rank 0 0 0 pre - spot_rank i 0 0 pre in
        let x : Level = record { forward = l.forward; span = l.span - d } in
        let y : Level = record { forward = some fresh; span = d + 1 } in
        let nx : Node K = record {
          key = some key;
          backward = none;
          height = level;
          level = update lx i x;
        } in
        let g1 = update g fresh (some nx) in
        let g2 = update g1 u (some (record n { level = update lu i y })) in
        let inside : ltb i level ≡ true = ground (arith, b) in
        let read : get_level g u i ≡ some l =
          get_level_at g u i (record n { level = lu }) gu high
          ∙ ap some (spot-level h header pre fresh changed i lu n l old same) in
        let write1 : set_level g fresh i x ≡ some g1 =
          set_level_at g fresh i (record nx { level = lx }) x gx inside in
        let write2 : set_level g1 u i y ≡ some g2 =
          set_level_at g1 u i (record n { level = lu }) y (rw apart gu) high in
        let other : (fresh == u) ≡ false = ground (arith, apart) in
        let left : link i post ≡ x =
          ap (λ s. record { forward = (link i post).forward; span = s }) (omega (arith, dist)) in
        (
          g2,
          rw (e, f0, f, read, write1, write2) refl,
          rw inside at (
              touch-Others h header pre fresh changed i g1 n lu at same
                (old-Others h header pre fresh changed i g nx s)),
          (
            update lx i x,
            rw other (update_self g fresh (some nx)),
            λ j c k. elim (Bool-cases (j == i)) [
              | inl q ↦ rw ((==_iff j i).0 q, (==_iff i i).1 refl) (sym left)
              | inr q ↦ rw q (done j (ground (arith, c, q)) k)
            ],
          ),
        )

    pub stretch-round :
        (i : ℕ) (g : Heap K)
        → Spot i
        → level ≤ i
        → Spliced i g
        → New i g
        → (l : Level) × (g' : Heap K) × (get_level g (spot i header pre) i ≡ some l)
          × (set_level g (spot i header pre) i (record l { span = l.span + 1 }) ≡ some g')
          × Spliced (i + 1) g'
          × New (i + 1) g'
    unfolding Spot New
    stretch-round i g (n, m, at, high, old, dist, apart) b s (lx, gx, done) =
        let u = spot i header pre in
        let (lu, gu, same) = Others-at h header pre fresh changed i g u n apart at s in
        let l : Level = n.level i in
        let y : Level = record l { span = l.span + 1 } in
        let outside : ltb i level ≡ false = ground (arith, b) in
        let other : (fresh == u) ≡ false = ground (arith, apart) in
        (
          l,
          update g u (some (record n { level = update lu i y })),
          get_level_at g u i (record n { level = lu }) gu high
              ∙ ap some (spot-level h header pre fresh changed i lu n l refl same),
          set_level_at g u i (record n { level = lu }) y gu high,
          rw outside at (touch-Others h header pre fresh changed i g n lu at same s),
          (lx, rw other gx, λ j c k. done j (omega (arith, b, k)) k),
        )

    pub splice_loop-Spliced :
        (n i : ℕ) (g : Heap K) (path : Route)
        → i + n ≡ level
        → ((j : ℕ) → j < level → Spot j)
        → Found header pre path level
        → Spliced i g
        → New i g
        → (g' : Heap K) × (splice_loop n i g fresh path ≡ some g') × Spliced level g' × New level g'
    unfolding splice_loop
    splice_loop-Spliced zero i g path e spots found s t =
        let end : i ≡ level = omega (arith, e) in (g, refl, rw end at s, rw end at t)
    splice_loop-Spliced (suc n) i g path e spots found s t =
        let b : i < level = omega (arith, e) in
        let (g1, e1, s1, t1) =
          splice-round i g path (spots i b) b (found i b).0 (found i b).1
            (found 0 (omega (arith, b))).1 s t in
        let (g2, e2, s2, t2) =
          splice_loop-Spliced n (i + 1) g1 path (omega (arith, e)) spots found s1 t1 in
        (g2, rw e1 e2, s2, t2)

    pub stretch_loop-Spliced :
        (n i top : ℕ) (g : Heap K) (path : Route)
        → i + n ≡ top
        → level ≤ i
        → ((j : ℕ) → j < top → Spot j)
        → Found header pre path top
        → Spliced i g
        → New i g
        → (g' : Heap K) × (stretch_loop n i g path ≡ some g') × Spliced top g' × New top g'
    unfolding stretch_loop
    stretch_loop-Spliced zero i top g path e c spots found s t =
        let end : i ≡ top = omega (arith, e) in (g, refl, rw end at s, rw end at t)
    stretch_loop-Spliced (suc n) i top g path e c spots found s t =
        let b : i < top = omega (arith, e) in
        let (l, g1, r1, w1, s1, t1) = stretch-round i g (spots i b) c s t in
        let (g2, e2, s2, t2) =
          stretch_loop-Spliced n (i + 1) top g1 path (omega (arith, e)) (omega (arith, c)) spots
            found s1 t1 in
        (g2, rw ((found i b).0, r1, w1) e2, s2, t2)
