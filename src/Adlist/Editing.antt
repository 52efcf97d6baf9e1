-- ===== src/Adlist/Editing.antt =====
-- Insertion, removal and rotation in struct/adlist.c against lists of addresses and values.
use learnredis.Base.{
  ℕ, ◌+◌, ◌-◌, ◌≤◌, ◌≡◌, refl, sym, ◌∙◌, false, none, some, ◌∷◌, ◌++◌, arith, length-append, ◌==◌,
  if◌then◌else◌, update_self,
}
use learnredis.Adlist.{Heap, Handle, release, list_del_node}
use learnredis.Adlist.Segments.{
  Cells, first, last, occurs, Linked, IsList, first-append, last-append, occurs-append,
  Linked-split, Linked-join, Linked-update,
}
use learnredis.Adlist.Linking.{Linked-congr, set_next_or_head-Relinked, set_prev_or_tail-Rejoined}

module _ {ℓ} {V : Type ℓ} where
  -- The heap changes at nodes of the list only.
  abbrev pub Frame : Cells V → Heap V → Heap V → Type ℓ
  Frame xs h h' = (b : ℕ) → occurs b xs ≡ 0 → h' b ≡ h b

  occurs-middle :
      (ys zs : Cells V) (a b : ℕ) (v : V)
      → occurs b (ys ++ (a, v) ∷ zs) ≡ occurs b ys + ((if b == a then 1 else 0) + occurs b zs)
  unfolding occurs
  occurs-middle ys zs a b v = occurs-append b ys ((a, v) ∷ zs)

  module _ (h : Heap V) (l : Handle) (ys zs : Cells V) (a : ℕ) (v : V)
      (s : IsList h l (ys ++ (a, v) ∷ zs)) where
    halves :
        Linked h none ys (some a)
        × (h a ≡ some (record { prev = last none ys; next = first zs none; value = v }))
        × Linked h (some a) zs none
    unfolding Linked first
    halves = let (u, w) = Linked-split h none ys ((a, v) ∷ zs) none s.linked in (u, w.0, w.1)

    abbrev counts : (b : ℕ) → occurs b ys + ((if b == a then 1 else 0) + occurs b zs) ≤ 1
    counts b = omega (arith, occurs-middle ys zs a b v, s.distinct b)

    once : (occurs a ys ≡ 0) × (occurs a zs ≡ 0)
    once =
        let c : occurs a ys + ((if a == a then 1 else 0) + occurs a zs) ≤ 1 = counts a in
        (ground (arith, c), ground (arith, c))

    nowhere :
        (b : ℕ)
        → occurs b (ys ++ (a, v) ∷ zs) ≡ 0
        → (occurs b ys ≡ 0) × ((b == a) ≡ false) × (occurs b zs ≡ 0)
    nowhere b o =
        let c : occurs b ys + ((if b == a then 1 else 0) + occurs b zs) ≡ 0 =
          sym (occurs-middle ys zs a b v) ∙ o in
        (ground (arith, c), ground (arith, c), ground (arith, c))

    -- On a list whose nodes are linked both ways `listDelNode` of a node, whether at an end, in
    -- the middle or alone, does not fault; the result is the list of the others, the node is
    -- released, and nothing outside the list changes.
    pub list_del_node-IsList :
        (h' : Heap V) × (l' : Handle) × (list_del_node h l a ≡ some (h', l'))
        × IsList h' l' (ys ++ zs)
        × (h' a ≡ none)
        × Frame (ys ++ (a, v) ∷ zs) h h'
    unfolding list_del_node first last
    list_del_node-IsList =
        let (u, at, w) = halves in
        let (h1, l1, e1, r) =
          set_next_or_head-Relinked h l ys (some a) (first zs none)
            (record { linked = u; head = s.head ∙ first-append ys ((a, v) ∷ zs) none })
            (λ b. ground (arith, counts b)) in
        let kept : Linked h1 (some a) zs none =
          Linked-congr h h1 (some a) zs none (λ b k. r.others b (ground (arith, counts b, k))) w in
        let (h2, l2, e2, j) =
          set_prev_or_tail-Rejoined h1 l1 (some a) (last none ys) zs
            (record { linked = kept; tail = r.tail ∙ s.tail ∙ last-append none ys ((a, v) ∷ zs) })
            (λ b. ground (arith, counts b)) in
        let kept' : Linked h2 none ys (first zs none) =
          Linked-congr h1 h2 none ys (first zs none)
            (λ b k. j.others b (ground (arith, counts b, k))) r.left.linked in
        (
          release h2 a,
          record l2 { len = l2.len - 1 },
          rw (at, e1, e2) refl,
          record {
            linked =
                Linked-join (release h2 a) none ys zs none
                  (Linked-update h2 none ys (first zs none) a none once.0 kept')
                  (Linked-update h2 (last none ys) zs none a none once.1 j.right.linked);
            head = j.head ∙ r.left.head ∙ sym (first-append ys zs none);
            tail = j.right.tail ∙ sym (last-append none ys zs);
            len =
                omega
                  (arith, j.len, r.len, s.len, length-append ys zs, length-append ys ((a, v) ∷ zs));
            distinct = λ b. ground (arith, counts b, occurs-append b ys zs);
          },
          update_self h2 a none,
          λ b o. let (x, y, z) = nowhere b o in rw y (j.others b z ∙ r.others b x),
        )
