-- ===== src/Skiplist/Deleting/Shrinking.antt =====
-- The loop of zslDeleteNode in struct/t_zset.c: its levels are those of the shorter list.
use learnredis.Base.{
  ℕ, zero, suc, ◌+◌, ◌-◌, ◌<◌, ◌≡◌, refl, sym, ap, ◌∙◌, inl, inr, true, false, some, [], ◌∷◌, arith,
  length, ltb, ◌==◌, ==_iff, Bool-cases, update,
}
use learnredis.Skiplist.{Pointer, Level, Node, Heap, Route, get_level, set_level}
use learnredis.Skiplist.Links.{Cell, Cells, link, link-high, link-low, occurs, Stored}
use learnredis.Skiplist.Walking.{spot}
use learnredis.Skiplist.Searching.{Found}
use learnredis.Skiplist.Spots.{Low, High, level_cases}
use learnredis.Skiplist.Changing.{
  get_level_at, set_level_at, Others, Others-at, touch-Others, spot-level,
}
use learnredis.Skiplist.Placing.{Corrects}
use learnredis.Skiplist.Deleting.{points_to, shrunk, delete_loop}

module _ {ℓ} {K : Type ℓ} where
  -- The next node is one of the list.
  link-apart :
      (j x : ℕ) (xs : Cells K) → occurs x xs ≡ 0 → points_to ((link j xs).forward) x ≡ false
  unfolding link occurs points_to
  link-apart j x [] e = refl
  link-apart j x (n ∷ xs) e = elim (Bool-cases (ltb j n.height)) [
    | inl f ↦ rw f (ground (arith, e))
    | inr f ↦ rw f (link-apart j x xs (omega (arith, e)))
  ]

  module _ (h : Heap K) (header : ℕ) (pre : Cells K) (n : Cell K) (post : Cells K) where
    -- What the level `j` of the node before `n` becomes
    abbrev pub shorter : ℕ → Level → Level
    shorter j l = record {
      forward = (link j post).forward;
      span = l.span - (link j (n ∷ post)).span + (link j post).span;
    }

    pub shorter-Corrects : Corrects header pre (n ∷ post) post shorter
    unfolding Low High
    shorter-Corrects j a k q l (e, f) size apart is = elim (level_cases j q) [
      | inl (s, r, low) ↦
          let here : (a == spot j header pre) ≡ true =
            (==_iff a (spot j header pre)).1 (sym (e ∙ s a)) in
          let start : l.span ≡ length q + (link j (n ∷ post)).span =
            ap (λ m. m.span) (is ∙ low (n ∷ post)) in
          rw here (
            ap (λ s. record { forward = (link j post).forward; span = s }) (omega (arith, start))
            ∙ sym (low post))
      | inr (s, high) ↦
          let there : (a == spot j header pre) ≡ false =
            elim (Bool-cases (a == spot j header pre)) [
              | inl t ↦
                  let same : spot j a q ≡ a = sym e ∙ sym ((==_iff a (spot j header pre)).0 t) in
                  let clash : occurs (spot j a q) q ≡ 0 = rw same apart in
                  absurd (omega (arith, clash, s a))
              | inr t ↦ t
            ] in
          rw there (is ∙ high (n ∷ post) post)
    ]

    abbrev pub Shrunk : ℕ → Heap K → Type ℓ
    Shrunk i g = Others h header pre n.addr shorter i g

    -- The node whose level `i` changes
    unfoldable pub Place : ℕ → Type ℓ
    Place i =
        (u : Node K) × (m : ℕ) × (h (spot i header pre) ≡ some u)
        × (ltb i u.height ≡ true)
        × (u.level i
            ≡ record { forward = (link i (n ∷ post)).forward; span = m + (link i (n ∷ post)).span })
        × ((spot i header pre == n.addr) ≡ false)

    -- The node that goes, which the loop only reads
    unfoldable pub Going : Pointer → Heap K → Type ℓ
    Going back g = Stored g n back post

    shrunk_lem :
        (i m : ℕ) (g : Heap K) (back : Pointer)
        → Going back g
        → occurs n.addr post ≡ 0
        → shrunk g n.addr i
            (record { forward = (link i (n ∷ post)).forward; span = m + (link i (n ∷ post)).span })
          ≡ some (
              shorter i (record {
                forward = (link i (n ∷ post)).forward;
                span = m + (link i (n ∷ post)).span;
              }))
    unfolding Going Stored points_to
    shrunk_lem i m g back (level, at, links) once = elim (Bool-cases (ltb i n.height)) [
      | inl e ↦
          let read : get_level g n.addr i ≡ some (link i post) =
            get_level_at g n.addr i _ at e ∙ ap some (links i (ground (arith, e))) in
          rw (link-high i n post e, (==_iff n.addr n.addr).1 refl, read)
            (ap (λ s. some (record { forward = (link i post).forward; span = s })) (omega arith))
      | inr e ↦
          rw (link-low i n post e, link-apart i n.addr post once)
            (ap (λ s. some (record { forward = (link i post).forward; span = s })) (omega arith))
    ]

    delete-round :
        (i : ℕ) (g : Heap K) (back : Pointer)
        → Place i
        → occurs n.addr post ≡ 0
        → Shrunk i g
        → Going back g
        → (l l' : Level) × (g' : Heap K) × (get_level g (spot i header pre) i ≡ some l)
          × (shrunk g n.addr i l ≡ some l')
          × (set_level g (spot i header pre) i l' ≡ some g')
          × Shrunk (i + 1) g'
          × Going back g'
    unfolding Place Going Stored
    delete-round i g back (nu, m, at, high, old, apart) once s (lx, gx, links) =
        let u = spot i header pre in
        let (lu, gu, same) = Others-at h header pre n.addr shorter i g u nu apart at s in
        let l : Level = record {
          forward = (link i (n ∷ post)).forward;
          span = m + (link i (n ∷ post)).span;
        } in
        let other : (n.addr == u) ≡ false = ground (arith, apart) in
        (
          l,
          shorter i l,
          update g u (some (record nu { level = update lu i (shorter i l) })),
          get_level_at g u i (record nu { level = lu }) gu high
              ∙ ap some (spot-level h header pre n.addr shorter i lu nu l old same),
          shrunk_lem i m g back (lx, gx, links) once,
          set_level_at g u i (record nu { level = lu }) (shorter i l) gu high,
          rw old at (touch-Others h header pre n.addr shorter i g nu lu at same s),
          (lx, (rw other gx), links),
        )

    pub delete_loop-Shrunk :
        (k i top : ℕ) (g : Heap K) (path : Route) (back : Pointer)
        → i + k ≡ top
        → ((j : ℕ) → j < top → Place j)
        → Found header pre path top
        → occurs n.addr post ≡ 0
        → Shrunk i g
        → Going back g
        → (g' : Heap K) × (delete_loop k i g n.addr path ≡ some g') × Shrunk top g' × Going back g'
    unfolding delete_loop
    delete_loop-Shrunk zero i top g path back e places found once s t =
        let end : i ≡ top = omega (arith, e) in (g, refl, rw end at s, t)
    delete_loop-Shrunk (suc k) i top g path back e places found once s t =
        let b : i < top = omega (arith, e) in
        let (l, l', g1, r, c, w, s1, t1) = delete-round i g back (places i b) once s t in
        let (g2, e2, s2, t2) =
          delete_loop-Shrunk k (i + 1) top g1 path back (omega (arith, e)) places found once s1
            t1 in
        (g2, rw ((found i b).0, r, c, w) e2, s2, t2)
