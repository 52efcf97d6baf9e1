-- ===== src/Adlist/Ends.antt =====
-- listAddNodeHead, listAddNodeTail and listRotate of struct/adlist.c.
use learnredis.Base.{
  ℕ, ◌+◌, ◌≤◌, ◌≡◌, refl, sym, ap, ◌∙◌, true, false, Option, none, some, [], ◌∷◌, ◌++◌, arith,
  length-append, ◌==◌, ==_iff, leb, if◌then◌else◌, update_self, append_nil,
}
use learnredis.Adlist.{
  Pointer, Node, Heap, Handle, load, store, set_prev, set_next, set_next_if, set_prev_if, link_node,
  list_add_node_head, list_add_node_tail, list_rotate,
}
use learnredis.Adlist.Segments.{
  Cells, first, last, occurs, Linked, IsList, last-append, occurs-append, Linked-split,
  Linked-update,
}
use learnredis.Adlist.Linking.{set_next_or_head-Relinked, set_prev_or_tail-Rejoined}
use learnredis.Adlist.Editing.{Frame}
use learnredis.Adlist.Inserting.{heap_of, link_node-IsList, set_next_if_lem, set_prev_if_lem}

module _ {ℓ} {V : Type ℓ} where
  last-some : (c : ℕ) (xs : Cells V) → (b : ℕ) × (last (some c) xs ≡ some b)
  unfolding last
  last-some c [] = (c, refl)
  last-some c ((b, v) ∷ xs) = last-some b xs

  module _ (h : Heap V) (l : Handle) (a : ℕ) (v : V) where
    -- The list of the new node alone
    lone :
        l.len ≡ 0
        → let n : Node V = record { prev = none; next = none; value = v } in
          IsList
            (store h a n)
            (record { head = some a; tail = some a; len = l.len + 1 })
            ((a, v) ∷ [])
          × Frame ((a, v) ∷ []) h (store h a n)
    unfolding first last occurs Linked
    lone empty =
        let n : Node V = record { prev = none; next = none; value = v } in
        (
          record {
            linked = (update_self h a (some n), tt);
            head = refl;
            tail = refl;
            len = omega (arith, empty);
            distinct = λ b. ground arith;
          },
          λ b o. let other : (b == a) ≡ false = ground (arith, o) in rw other refl,
        )

    pub list_add_node_head-IsList :
        (xs : Cells V)
        → IsList h l xs
        → occurs a xs ≡ 0
        → (h' : Heap V) × (l' : Handle) × (list_add_node_head (some a) h l v ≡ some (h', l', true))
          × IsList h' l' ((a, v) ∷ xs)
          × Frame ((a, v) ∷ xs) h h'
    unfolding list_add_node_head link_node set_next_if set_prev_if first last occurs Linked
    list_add_node_head-IsList [] s new =
        let (r, f) = lone s.len in
        (
          store h a (record { prev = none; next = none; value = v }),
          record { head = some a; tail = some a; len = l.len + 1 },
          rw s.len refl,
          r,
          f,
        )
    list_add_node_head-IsList ((c, w) ∷ xs) s new =
        let (h', e, r, f) =
          link_node-IsList h (record l { head = some a }) [] ((c, w) ∷ xs) a v s.linked
            (λ b. omega (arith, s.distinct b)) (omega (arith, new)) refl s.tail
            (omega (arith, s.len)) in
        let some_len : (l.len == 0) ≡ false = ground (arith, s.len) in
        (h', record l { head = some a; len = l.len + 1 }, rw (some_len, s.head) e, r, f)

    -- `listAddNodeTail` with an address that no node of the list has does not fault, on the empty
    -- list either, and leaves the list with the new pair at its end; nothing else in the heap
    -- changes.
    pub list_add_node_tail-IsList :
        (xs : Cells V)
        → IsList h l xs
        → occurs a xs ≡ 0
        → (h' : Heap V) × (l' : Handle) × (list_add_node_tail (some a) h l v ≡ some (h', l', true))
          × IsList h' l' (xs ++ (a, v) ∷ [])
          × Frame ((a, v) ∷ xs) h h'
    unfolding list_add_node_tail first last occurs Linked link_node set_next_if set_prev_if
    list_add_node_tail-IsList [] s new =
        let (r, f) = lone s.len in
        (
          store h a (record { prev = none; next = none; value = v }),
          record { head = some a; tail = some a; len = l.len + 1 },
          rw s.len refl,
          r,
          f,
        )
    list_add_node_tail-IsList ((c, w) ∷ xs) s new =
        let n : Node V = record { prev = last (some c) xs; next = none; value = v } in
        let ys : Cells V = (c, w) ∷ xs in
        let (h', e, r, f) =
          link_node-IsList h (record l { tail = some a }) ys [] a v (rw (append_nil xs) s.linked)
            (λ b. omega (arith, s.distinct b)) (omega (arith, new)) s.head refl
            (omega (arith, s.len)) in
        let some_len : (l.len == 0) ≡ false = ground (arith, s.len) in
        let (b, tail) = last-some c xs in
        (
          h',
          record l { tail = some a; len = l.len + 1 },
          rw (some_len, s.tail, tail) (rw tail at e),
          r,
          rw (append_nil xs) at f,
        )

  set_next_if-some :
      (h : Heap V) (p : Pointer) (b : ℕ) (q : Pointer)
      → p ≡ some b
      → set_next_if h p q ≡ set_next h (some b) q
  unfolding set_next_if
  set_next_if-some h p b q e = rw e refl

  rotate_steps :
      (h h1 h2 : Heap V) (l : Handle) (a b c : ℕ) (v : V)
      → let n : Node V = record { prev = some b; next = none; value = v } in
        let n' : Node V = record { prev = none; next = none; value = v } in
        leb l.len 1 ≡ false
        → l.tail ≡ some a
        → l.head ≡ some c
        → h a ≡ some n
        → set_next h (some b) none ≡ some h1
        → set_prev h1 (some c) (some a) ≡ some h2
        → h2 a ≡ some n
        → list_rotate h l
          ≡ some (
            store (store h2 a n') a (record n' { next = some c }),
            record l { head = some a; tail = some b },
          )
  unfolding list_rotate load set_prev set_next
  rotate_steps h h1 h2 l a b c v long t f at s1 s2 here =
      let n' : Node V = record { prev = none; next = none; value = v } in
      rw (long, t, f, at, s1, s2, here, update_self h2 a (some n')) refl

  module _ (h : Heap V) (l : Handle) (xs : Cells V) (c : ℕ) (w : V) (a : ℕ) (v : V)
      (s : IsList h l ((c, w) ∷ xs ++ (a, v) ∷ [])) where
    once : occurs a ((c, w) ∷ xs) ≡ 0
    unfolding occurs
    once =
        ground
          (arith, s.distinct a, occurs-append a ((c, w) ∷ xs) ((a, v) ∷ []), (==_iff a a).1 refl)

    turned :
        (h' : Heap V) × (l' : Handle) × (list_rotate h l ≡ some (h', l'))
        × IsList h' l' ((a, v) ∷ (c, w) ∷ xs)
        × Frame ((c, w) ∷ xs ++ (a, v) ∷ []) h h'
    unfolding list_rotate load Linked first last occurs set_next_if set_prev_if heap_of
    turned =
        let ys : Cells V = (c, w) ∷ xs in
        let m : Handle = record { head = some c; tail = last none ys; len = 0 } in
        let n : Node V = record { prev = none; next = none; value = v } in
        let n' : Node V = record { prev = none; next = some c; value = v } in
        let (b, tail) = last-some c xs in
        let (u, (at, z)) = Linked-split h none ys ((a, v) ∷ []) none s.linked in
        let distinct : (b : ℕ) → occurs b ys ≤ 1 =
          λ b. omega (arith, s.distinct b, occurs-append b ys ((a, v) ∷ [])) in
        let (h1, l1, e1, r) =
          set_next_or_head-Relinked h m ys (some a) none (record { linked = u; head = refl })
            distinct in
        let (h2, l2, e2, j) =
          set_prev_or_tail-Rejoined h1 l1 none (some a) ys
            (record { linked = r.left.linked; tail = r.tail }) distinct in
        let s1 : set_next h (some b) none ≡ some h1 =
          sym (set_next_if-some h (last none ys) b none tail)
          ∙ sym (set_next_if_lem h m (last none ys) none)
          ∙ ap heap_of e1 in
        let s2 : set_prev h1 (some c) (some a) ≡ some h2 =
          sym (set_prev_if_lem h1 l1 (some c) (some a)) ∙ ap heap_of e2 in
        let here : h2 a ≡ some (record { prev = last (some c) xs; next = none; value = v }) =
          j.others a once ∙ r.others a once ∙ at in
        let node : Pointer → Option (Node V) =
          λ p. some (record { prev = p; next = none; value = v }) in
        let prev : node (last (some c) xs) ≡ node (some b) = ap node tail in
        let long : leb l.len 1 ≡ false = ground (arith, s.len, length-append xs ((a, v) ∷ [])) in
        (
          store (store h2 a n) a n',
          record l { head = some a; tail = some b },
          rotate_steps h h1 h2 l a b c v long (s.tail ∙ last-append none ys ((a, v) ∷ [])) s.head
              (at ∙ prev) s1 s2 (here ∙ prev),
          record {
            linked = (
              update_self (store h2 a n) a (some n'),
              Linked-update (store h2 a n) (some a) ys none a (some n') once
                  (Linked-update h2 (some a) ys none a (some n) once j.right.linked),
            );
            head = refl;
            tail = sym tail;
            len = omega (arith, s.len, length-append xs ((a, v) ∷ []));
            distinct = λ b. omega (arith, s.distinct b, occurs-append b ys ((a, v) ∷ []));
          },
          λ d o.
              let away : occurs d ys + (if d == a then 1 else 0) ≡ 0 =
                omega (arith, o, occurs-append d ys ((a, v) ∷ [])) in
              let other : (d == a) ≡ false = ground (arith, away) in
              rw other (j.others d (omega (arith, away)) ∙ r.others d (omega (arith, away))),
        )

  -- `listRotate` on a list that has a last node does not fault and leaves the list with this node
  -- first and the others after it in their order; nothing outside the list changes.
  pub list_rotate-IsList :
      (h : Heap V) (l : Handle) (xs : Cells V) (a : ℕ) (v : V)
      → IsList h l (xs ++ (a, v) ∷ [])
      → (h' : Heap V) × (l' : Handle) × (list_rotate h l ≡ some (h', l'))
        × IsList h' l' ((a, v) ∷ xs)
        × Frame (xs ++ (a, v) ∷ []) h h'
  unfolding list_rotate
  list_rotate-IsList h l [] a v s =
      let short : leb l.len 1 ≡ true = ground (arith, s.len) in
      (h, l, rw short refl, s, λ b o. refl)
  list_rotate-IsList h l ((c, w) ∷ xs) a v s = turned h l xs c w a v s
