-- ===== src/Adlist/Linking.antt =====
-- The two steps of which the functions of struct/adlist.c are made: the pointer into a stretch from
-- the left is changed in the node before it or in the head, and likewise from the right.
use learnredis.Base.{
  ℕ, ◌+◌, ◌≤◌, ◌<◌, ◌≡◌, refl, sym, ◌∙◌, inl, inr, false, none, some, [], ◌∷◌, ◌++◌, arith, ◌==◌,
  ==_iff, if◌then◌else◌, update_self,
}
use learnredis.Adlist.{
  Pointer, Node, Heap, Handle, store, set_prev, set_next, set_next_or_head, set_prev_or_tail,
}
use learnredis.Adlist.Segments.{
  Cells, first, last, occurs, Linked, first-append, last-append, occurs-append, Linked-split,
  Linked-join, Linked-update, snoc_cases,
}

module _ {ℓ} {V : Type ℓ} where
  -- The nodes `xs` up to the place where `q` follows, with the head
  pub record Left (h : Heap V) (l : Handle) (xs : Cells V) (q : Pointer) : Type ℓ where
    pub linked : Linked h none xs q
    pub head : l.head ≡ first xs q

  -- The nodes `xs` from the place where `p` comes before, with the tail
  pub record Right (h : Heap V) (l : Handle) (p : Pointer) (xs : Cells V) : Type ℓ where
    pub linked : Linked h p xs none
    pub tail : l.tail ≡ last p xs

  -- Nodes that a step leaves alone stay linked.
  pub Linked-congr :
      (h h' : Heap V) (p : Pointer) (xs : Cells V) (q : Pointer)
      → ((a : ℕ) → 0 < occurs a xs → h' a ≡ h a)
      → Linked h p xs q
      → Linked h' p xs q
  unfolding Linked occurs
  Linked-congr h h' p [] q same l = tt
  Linked-congr h h' p ((a, v) ∷ xs) q same l = (
    same a (ground arith) ∙ l.0,
    Linked-congr h h' (some a) xs q (λ b k. same b (omega (arith, k))) l.1,
  )

  last_node :
      (h : Heap V) (p : Pointer) (xs : Cells V) (a : ℕ) (v : V) (q : Pointer)
      → Linked h p (xs ++ (a, v) ∷ []) q
      → h a ≡ some (record { prev = last p xs; next = q; value = v })
  unfolding Linked first
  last_node h p xs a v q l = (Linked-split h p xs ((a, v) ∷ []) q l).1.0

  set_next_Linked :
      (h : Heap V) (p : Pointer) (xs : Cells V) (a : ℕ) (v : V) (q q' : Pointer)
      → occurs a xs ≡ 0
      → Linked h p (xs ++ (a, v) ∷ []) q
      → Linked
          (store h a (record { prev = last p xs; next = q'; value = v }))
          p
          (xs ++ (a, v) ∷ [])
          q'
  unfolding Linked first
  set_next_Linked h p xs a v q q' o l =
      let n : Node V = record { prev = last p xs; next = q'; value = v } in
      let (u, w) = Linked-split h p xs ((a, v) ∷ []) q l in
      Linked-join (store h a n) p xs ((a, v) ∷ []) q' (Linked-update h p xs (some a) a (some n) o u)
        (update_self h a (some n), tt)

  occurs-last :
      (xs : Cells V) (a b : ℕ) (v : V)
      → occurs b (xs ++ (a, v) ∷ []) ≡ occurs b xs + (if b == a then 1 else 0)
  unfolding occurs
  occurs-last xs a b v = omega (arith, occurs-append b xs ((a, v) ∷ []))

  -- The step to the left: what it leaves for the stretch `xs`, and of the rest.
  pub record Relinked (xs : Cells V) (q : Pointer) (h h' : Heap V) (l l' : Handle) : Type ℓ where
    pub left : Left h' l' xs q
    pub others : (a : ℕ) → occurs a xs ≡ 0 → h' a ≡ h a
    pub tail : l'.tail ≡ l.tail
    pub len : l'.len ≡ l.len

  relink_last :
      (h : Heap V) (l : Handle) (ys : Cells V) (a : ℕ) (v : V) (q q' : Pointer)
      → Left h l (ys ++ (a, v) ∷ []) q
      → ((b : ℕ) → occurs b (ys ++ (a, v) ∷ []) ≤ 1)
      → (h' : Heap V) × (l' : Handle) × (set_next_or_head h l (last none (ys ++ (a, v) ∷ [])) q'
          ≡ some (h', l'))
        × Relinked (ys ++ (a, v) ∷ []) q' h h' l l'
  unfolding set_next_or_head set_next last first
  relink_last h l ys a v q q' s d =
      let n : Node V = record { prev = last none ys; next = q'; value = v } in
      let at = last_node h none ys a v q s.linked in
      let once : occurs a ys ≡ 0 = ground (arith, occurs-last ys a a v, d a, (==_iff a a).1 refl) in
      (
        store h a n,
        l,
        rw (last-append none ys ((a, v) ∷ [])) (rw at refl),
        record {
          left = record {
            linked = set_next_Linked h none ys a v q q' once s.linked;
            head =
                s.head ∙ first-append ys ((a, v) ∷ []) q ∙ sym (first-append ys ((a, v) ∷ []) q');
          };
          others = λ b o.
              let other : (b == a) ≡ false = ground (arith, occurs-last ys a b v, o) in
              rw other refl;
          tail = refl;
          len = refl;
        },
      )

  pub set_next_or_head-Relinked :
      (h : Heap V) (l : Handle) (xs : Cells V) (q q' : Pointer)
      → Left h l xs q
      → ((a : ℕ) → occurs a xs ≤ 1)
      → (h' : Heap V) × (l' : Handle) × (set_next_or_head h l (last none xs) q' ≡ some (h', l'))
        × Relinked xs q' h h' l l'
  unfolding set_next_or_head last first Linked
  set_next_or_head-Relinked h l xs q q' s d = elim (snoc_cases xs) [
    | inl e ↦ rw e (
      h,
      record l { head = q' },
      refl,
      record {
        left = record { linked = tt; head = refl };
        others = λ a o. refl;
        tail = refl;
        len = refl;
      },
    )
    | inr (ys, a, v, e) ↦ rw e (relink_last h l ys a v q q' (rw e at s) (rw e at d))
  ]

  -- The step to the right
  pub record Rejoined (xs : Cells V) (p : Pointer) (h h' : Heap V) (l l' : Handle) : Type ℓ where
    pub right : Right h' l' p xs
    pub others : (a : ℕ) → occurs a xs ≡ 0 → h' a ≡ h a
    pub head : l'.head ≡ l.head
    pub len : l'.len ≡ l.len

  pub set_prev_or_tail-Rejoined :
      (h : Heap V) (l : Handle) (p p' : Pointer) (xs : Cells V)
      → Right h l p xs
      → ((a : ℕ) → occurs a xs ≤ 1)
      → (h' : Heap V) × (l' : Handle) × (set_prev_or_tail h l (first xs none) p' ≡ some (h', l'))
        × Rejoined xs p' h h' l l'
  unfolding set_prev_or_tail set_prev last first Linked occurs
  set_prev_or_tail-Rejoined h l p p' [] s d = (
    h,
    record l { tail = p' },
    refl,
    record {
      right = record { linked = tt; tail = refl };
      others = λ a o. refl;
      head = refl;
      len = refl;
    },
  )
  set_prev_or_tail-Rejoined h l p p' ((a, v) ∷ xs) s d =
      let n : Node V = record { prev = p'; next = first xs none; value = v } in
      let once : occurs a xs ≡ 0 = ground (arith, d a, (==_iff a a).1 refl) in
      (
        store h a n,
        l,
        rw s.linked.0 refl,
        record {
          right = record {
            linked = (
              update_self h a (some n),
              Linked-update h (some a) xs none a (some n) once s.linked.1,
            );
            tail = s.tail;
          };
          others = λ b o. let other : (b == a) ≡ false = ground (arith, o) in rw other refl;
          head = refl;
          len = refl;
        },
      )
