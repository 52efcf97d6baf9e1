-- ===== src/Adlist/Inserting.antt =====
-- listInsertNode of struct/adlist.c against lists of addresses and values.
use learnredis.Base.{
  ℕ, ◌+◌, ◌≤◌, ◌≡◌, refl, sym, ap, ◌∙◌, Bool, true, false, Option, none, some, [], ◌∷◌, ◌++◌, arith,
  length, length-append, ◌==◌, ==_iff, if◌then◌else◌, ◌>>=◌, update_self, append_assoc,
}
use learnredis.Adlist.{
  Pointer, Node, Heap, Handle, same_pointer, load, store, set_prev, set_next, set_next_if,
  set_prev_if, link_node, set_next_or_head, set_prev_or_tail, list_insert_node,
}
use learnredis.Adlist.Segments.{
  Cells, first, last, occurs, Linked, IsList, first-append, last-append, occurs-append,
  Linked-split, Linked-join, Linked-update,
}
use learnredis.Adlist.Linking.{Linked-congr, set_next_or_head-Relinked, set_prev_or_tail-Rejoined}
use learnredis.Adlist.Editing.{Frame}

tail_if :
    (c : Bool) (l : Handle) (p : Pointer)
    → let r : Handle = if c then record l { tail = p } else l in
      (r.head ≡ l.head) × (r.tail ≡ (if c then p else l.tail)) × (r.len ≡ l.len)
tail_if true l p = (refl, refl, refl)
tail_if false l p = (refl, refl, refl)

head_if :
    (c : Bool) (l : Handle) (p : Pointer)
    → let r : Handle = if c then record l { head = p } else l in
      (r.head ≡ (if c then p else l.head)) × (r.tail ≡ l.tail) × (r.len ≡ l.len)
head_if true l p = (refl, refl, refl)
head_if false l p = (refl, refl, refl)

module _ {ℓ} {V : Type ℓ} where
  unfoldable pub heap_of : Option (Heap V × Handle) → Option (Heap V)
  heap_of none = none
  heap_of (some (h, l)) = some h

  heap_of-bind : (x : Option (Heap V)) (l : Handle) → heap_of (x >>= λ h. some (h, l)) ≡ x
  unfolding heap_of
  heap_of-bind none l = refl
  heap_of-bind (some h) l = refl

  -- The guarded writes of listInsertNode change the heap as those of listDelNode do.
  pub set_next_if_lem :
      (h : Heap V) (l : Handle) (p q : Pointer)
      → heap_of (set_next_or_head h l p q) ≡ set_next_if h p q
  unfolding heap_of set_next_or_head set_next_if
  set_next_if_lem h l none q = refl
  set_next_if_lem h l (some a) q = heap_of-bind (set_next h (some a) q) l

  pub set_prev_if_lem :
      (h : Heap V) (l : Handle) (p q : Pointer)
      → heap_of (set_prev_or_tail h l p q) ≡ set_prev_if h p q
  unfolding heap_of set_prev_or_tail set_prev_if
  set_prev_if_lem h l none q = refl
  set_prev_if_lem h l (some a) q = heap_of-bind (set_prev h (some a) q) l

  -- A new node is put between two stretches.
  pub link_node-IsList :
      (h : Heap V) (l : Handle) (ys zs : Cells V) (a : ℕ) (v : V)
      → Linked h none (ys ++ zs) none
      → ((b : ℕ) → occurs b ys + occurs b zs ≤ 1)
      → occurs a ys + occurs a zs ≡ 0
      → l.head ≡ first ys (some a)
      → l.tail ≡ last (some a) zs
      → l.len ≡ length ys + length zs
      → (h' : Heap V) × (link_node h a
            (record { prev = last none ys; next = first zs none; value = v })
            l
          ≡ some (h', record l { len = l.len + 1 }, true))
        × IsList h' (record l { len = l.len + 1 }) (ys ++ (a, v) ∷ zs)
        × Frame ((a, v) ∷ ys ++ zs) h h'
  unfolding link_node heap_of Linked first last occurs
  link_node-IsList h l ys zs a v k d new head tail len =
      let n : Node V = record { prev = last none ys; next = first zs none; value = v } in
      let m : Handle = record {
        head = first ys (first zs none);
        tail = last (last none ys) zs;
        len = 0;
      } in
      let (u, w) = Linked-split h none ys zs none k in
      let (h1, l1, e1, r) =
        set_next_or_head-Relinked (store h a n) m ys (first zs none) (some a)
          (record {
            linked = Linked-update h none ys (first zs none) a (some n) (omega (arith, new)) u;
            head = refl;
          })
          (λ b. omega (arith, d b)) in
      let kept : Linked h1 (last none ys) zs none =
        Linked-congr (store h a n) h1 (last none ys) zs none
          (λ b o. r.others b (omega (arith, d b, o)))
          (Linked-update h (last none ys) zs none a (some n) (omega (arith, new)) w) in
      let (h2, l2, e2, j) =
        set_prev_or_tail-Rejoined h1 l1 (last none ys) (some a) zs
          (record { linked = kept; tail = r.tail }) (λ b. omega (arith, d b)) in
      let s1 : set_next_if (store h a n) (last none ys) (some a) ≡ some h1 =
        sym (set_next_if_lem (store h a n) m (last none ys) (some a)) ∙ ap heap_of e1 in
      let s2 : set_prev_if h1 (first zs none) (some a) ≡ some h2 =
        sym (set_prev_if_lem h1 l1 (first zs none) (some a)) ∙ ap heap_of e2 in
      (
        h2,
        rw (s1, s2) refl,
        record {
          linked =
              Linked-join h2 none ys ((a, v) ∷ zs) none
                (Linked-congr h1 h2 none ys (some a) (λ b o. j.others b (omega (arith, d b, o)))
                  r.left.linked)
                (
                  j.others a (omega (arith, new))
                      ∙ r.others a (omega (arith, new))
                      ∙ update_self h a (some n),
                  j.right.linked,
                );
          head = head ∙ sym (first-append ys ((a, v) ∷ zs) none);
          tail = tail ∙ sym (last-append none ys ((a, v) ∷ zs));
          len = omega (arith, len, length-append ys ((a, v) ∷ zs));
          distinct = λ b. ground (arith, d b, new, occurs-append b ys ((a, v) ∷ zs), ==_iff b a);
        },
        λ b o.
            let other : (b == a) ≡ false = ground (arith, o) in
            let away : occurs b ys + occurs b zs ≡ 0 = ground (arith, o, occurs-append b ys zs) in
            j.others b (omega (arith, away)) ∙ r.others b (omega (arith, away)) ∙ (rw other refl),
      )

  last_other :
      (o b : ℕ) (zs : Cells V)
      → (b == o) ≡ false
      → occurs o zs ≡ 0
      → same_pointer (last (some b) zs) (some o) ≡ false
  unfolding last occurs same_pointer
  last_other o b [] e k = e
  last_other o b ((c, v) ∷ zs) e k =
      last_other o c zs (ground (arith, k, ==_iff c o, ==_iff o c)) (omega (arith, k))

  tail_after :
      (o a : ℕ) (zs : Cells V)
      → occurs o zs ≡ 0
      → (if same_pointer (last (some o) zs) (some o) then some a else last (some o) zs)
        ≡ last (some a) zs
  unfolding last occurs same_pointer
  tail_after o a [] k = rw ((==_iff o o).1 refl) refl
  tail_after o a ((c, v) ∷ zs) k =
      rw (last_other o c zs (ground (arith, k, ==_iff c o, ==_iff o c)) (omega (arith, k))) refl

  head_before :
      (o a : ℕ) (ys : Cells V)
      → occurs o ys ≡ 0
      → (if same_pointer (first ys (some o)) (some o) then some a else first ys (some o))
        ≡ first ys (some a)
  unfolding first occurs same_pointer
  head_before o a [] k = rw ((==_iff o o).1 refl) refl
  head_before o a ((c, v) ∷ ys) k =
      let other : (c == o) ≡ false = ground (arith, k, ==_iff c o, ==_iff o c) in rw other refl

  -- Where listInsertNode puts the pair `n` beside the pair `o`
  unfoldable pub beside : Bool → ℕ × V → ℕ × V → Cells V → Cells V
  beside true n o zs = o ∷ n ∷ zs
  beside false n o zs = n ∷ o ∷ zs

  module _ (h : Heap V) (l : Handle) (ys zs : Cells V) (o : ℕ) (w : V) (a : ℕ) (v : V)
      (s : IsList h l (ys ++ (o, w) ∷ zs)) (new : occurs a (ys ++ (o, w) ∷ zs) ≡ 0) where
    Inserted : Bool → Type ℓ
    Inserted after =
        (h' : Heap V) × (l' : Handle) × (list_insert_node (some a) h l (some o) v after
          ≡ some (h', l', true))
        × IsList h' l' (ys ++ beside after (a, v) (o, w) zs)
        × Frame ((a, v) ∷ ys ++ (o, w) ∷ zs) h h'

    old_node :
        (h o ≡ some (record { prev = last none ys; next = first zs none; value = w }))
        × ((b : ℕ) → occurs b ys + ((if b == o then 1 else 0) + occurs b zs) ≤ 1)
        × (occurs a ys + ((if a == o then 1 else 0) + occurs a zs) ≡ 0)
    unfolding Linked first occurs
    old_node = (
      (Linked-split h none ys ((o, w) ∷ zs) none s.linked).1.0,
      λ b. omega (arith, occurs-append b ys ((o, w) ∷ zs), s.distinct b),
      omega (arith, occurs-append a ys ((o, w) ∷ zs), new),
    )

    after_old : Inserted true
    unfolding list_insert_node load beside first last occurs Inserted
    after_old =
        let ys' : Cells V = ys ++ (o, w) ∷ [] in
        let whole : ys' ++ zs ≡ ys ++ (o, w) ∷ zs = append_assoc ys ((o, w) ∷ []) zs in
        let (at, d, fresh) = old_node in
        let l1 : Handle = if same_pointer l.tail (some o) then record l { tail = some a } else l in
        let (i, j, k) = tail_if (same_pointer l.tail (some o)) l (some a) in
        let tail : l.tail ≡ last (some o) zs = s.tail ∙ last-append none ys ((o, w) ∷ zs) in
        let end : last none ys' ≡ some o = last-append none ys ((o, w) ∷ []) in
        let once : occurs o zs ≡ 0 = ground (arith, d o, (==_iff o o).1 refl) in
        let (h', e, r, f) =
          link_node-IsList h l1 ys' zs a v (rw whole s.linked)
            (λ b. omega (arith, d b, occurs-append b ys ((o, w) ∷ [])))
            (omega (arith, fresh, occurs-append a ys ((o, w) ∷ [])))
            (i
              ∙ s.head
              ∙ first-append ys ((o, w) ∷ zs) none
              ∙ sym (first-append ys ((o, w) ∷ []) (some a)))
            (j ∙ rw tail (tail_after o a zs once))
            (omega
              (arith, k, s.len, length-append ys ((o, w) ∷ zs), length-append ys ((o, w) ∷ []))) in
        (
          h',
          record l1 { len = l1.len + 1 },
          rw at (rw end at e),
          rw (append_assoc ys ((o, w) ∷ []) ((a, v) ∷ zs)) at r,
          rw whole at f,
        )

    before_old : Inserted false
    unfolding list_insert_node load beside first last occurs Inserted
    before_old =
        let (at, d, fresh) = old_node in
        let l1 : Handle = if same_pointer l.head (some o) then record l { head = some a } else l in
        let (i, j, k) = head_if (same_pointer l.head (some o)) l (some a) in
        let head : l.head ≡ first ys (some o) = s.head ∙ first-append ys ((o, w) ∷ zs) none in
        let once : occurs o ys ≡ 0 = ground (arith, d o, (==_iff o o).1 refl) in
        let (h', e, r, f) =
          link_node-IsList h l1 ys ((o, w) ∷ zs) a v s.linked d fresh
            (i ∙ rw head (head_before o a ys once)) (j ∙ s.tail ∙ last-append none ys ((o, w) ∷ zs))
            (omega (arith, k, s.len, length-append ys ((o, w) ∷ zs))) in
        (h', record l1 { len = l1.len + 1 }, rw at e, r, f)

  -- On a list whose nodes are linked both ways, with an address that none of them has,
  -- `listInsertNode` does not fault, and the result is a list of the same kind with the new pair
  -- right after or right before the old one; nothing else in the heap changes.
  pub list_insert_node-IsList :
      (h : Heap V) (l : Handle) (ys zs : Cells V) (o : ℕ) (w : V) (a : ℕ) (v : V) (after : Bool)
      → IsList h l (ys ++ (o, w) ∷ zs)
      → occurs a (ys ++ (o, w) ∷ zs) ≡ 0
      → (h' : Heap V) × (l' : Handle) × (list_insert_node (some a) h l (some o) v after
          ≡ some (h', l', true))
        × IsList h' l' (ys ++ beside after (a, v) (o, w) zs)
        × Frame ((a, v) ∷ ys ++ (o, w) ∷ zs) h h'
  unfolding Inserted
  list_insert_node-IsList h l ys zs o w a v true s new = after_old h l ys zs o w a v s new
  list_insert_node-IsList h l ys zs o w a v false s new = before_old h l ys zs o w a v s new
