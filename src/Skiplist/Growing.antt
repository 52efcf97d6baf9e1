-- ===== src/Skiplist/Growing.antt =====
-- The levels that zslInsert of struct/t_zset.c writes are those of the longer list.
use learnredis.Base.{
  ℕ, suc, ◌+◌, ◌≡◌, sym, ap, ◌∙◌, inl, inr, true, false, some, ◌∷◌, ◌++◌, arith, length, ltb, ◌==◌,
  ==_iff, Bool-cases,
}
use learnredis.Skiplist.{Heap}
use learnredis.Skiplist.Links.{Cell, Cells, link, link-high, link-low, occurs}
use learnredis.Skiplist.Walking.{spot, spot_rank}
use learnredis.Skiplist.Spots.{Low, High, level_cases}
use learnredis.Skiplist.Splicing.{changed}
use learnredis.Skiplist.Placing.{Corrects}

module _ {ℓ} {K : Type ℓ} where
  module _ (h : Heap K) (header : ℕ) (pre post : Cells K) (fresh level : ℕ) (key : K)
      (first : spot_rank 0 0 0 pre ≡ length pre) where
    abbrev new : Cell K
    new = record { addr = fresh; key = key; height = level }

    -- The changed level is right for the longer list.
    pub changed-Corrects :
        Corrects header pre post (new ∷ post) (changed h header pre post fresh level key)
    unfolding Low High
    changed-Corrects j a k q l (e, f) size apart is = elim (level_cases j q) [
      | inl (s, r, low) ↦
          let here : (a == spot j header pre) ≡ true =
            (==_iff a (spot j header pre)).1 (sym (e ∙ s a)) in
          let rank : spot_rank j 0 0 pre ≡ k = f ∙ r k k in
          elim (Bool-cases (ltb j level)) [
            | inl b ↦
                let end : link j (q ++ (new ∷ post))
                    ≡ record { forward = some fresh; span = length q + 1 } =
                  low (new ∷ post)
                  ∙ ap (λ m. record { forward = m.forward; span = length q + m.span })
                      (link-high j new post b) in
                rw (here, b)
                  (ap (λ s. record { forward = some fresh; span = s })
                      (omega (arith, rank, first, size))
                    ∙ sym end)
            | inr b ↦
                let end : link j (q ++ (new ∷ post)) ≡ record {
                  forward = (link j post).forward;
                  span = length q + suc ((link j post).span);
                } =
                  low (new ∷ post)
                  ∙ ap (λ m. record { forward = m.forward; span = length q + m.span })
                      (link-low j new post b) in
                let start : l ≡ record {
                  forward = (link j post).forward;
                  span = length q + (link j post).span;
                } =
                  is ∙ low post in
                rw (here, b, start)
                  (ap (λ s. record { forward = (link j post).forward; span = s }) (omega arith)
                    ∙ sym end)
          ]
      | inr (s, high) ↦
          let there : (a == spot j header pre) ≡ false =
            elim (Bool-cases (a == spot j header pre)) [
              | inl t ↦
                  let same : spot j a q ≡ a = sym e ∙ sym ((==_iff a (spot j header pre)).0 t) in
                  let clash : occurs (spot j a q) q ≡ 0 = rw same apart in
                  absurd (omega (arith, clash, s a))
              | inr t ↦ t
            ] in
          rw there (is ∙ high post (new ∷ post))
    ]
