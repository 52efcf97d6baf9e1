-- ===== src/Skiplist/Deleting/Removing.antt =====
-- zslDelete in struct/t_zset.c.
use learnredis.Base.{
  ℕ, ◌+◌, ◌<◌, ◌≡◌, refl, sym, ap, ◌∙◌, inl, inr, true, false, ◌&&◌, none, some, [], ◌∷◌, ◌++◌,
  arith, length, length-append, ◌==◌, ==_iff, Bool-cases, All, update, update_self,
}
use learnredis.Skiplist.{Heap, Zskiplist, Route, Comparing, get_level, search, unset, less}
use learnredis.Skiplist.Links.{
  Cell, Cells, link, link-high, occurs, occurs-append, Stored, Nodes, Nodes-split, IsSkiplist,
}
use learnredis.Skiplist.Walking.{spot}
use learnredis.Skiplist.Searching.{Found, header-Before, descend-Found}
use learnredis.Skiplist.Spots.{spot-Before}
use learnredis.Skiplist.Ranking.{Answers-keys}
use learnredis.Skiplist.Raising.{Nodes-update}
use learnredis.Skiplist.Linking.{Headed-update, occurs_once}
use learnredis.Skiplist.Fitting.{highest, Fits-Tall, Tall-parts}
use learnredis.Skiplist.Ordering.{
  IsNumber, IsOrder, IsSorted, IsSorted-before, IsSorted-behind, All-above, Lacks,
  insert_cell-split,
}
use learnredis.Skiplist.Deleting.{has_key, remove_node, zsl_delete}
use learnredis.Skiplist.Deleting.Unlinking.{zsl_delete_node-IsSkiplist}

module _ {ℓ} {K : Type ℓ} where
  -- The next node of the last one that a search has passed
  next_of :
      (h : Heap K) (z : Zskiplist) (pre post : Cells K)
      → IsSkiplist h z (pre ++ post)
      → (m : ℕ) × (get_level h (spot 0 z.header pre) 0
          ≡ some (record { forward = (link 0 post).forward; span = m + (link 0 post).span }))
  next_of h z pre post s =
      let (m, at, size) =
        spot-Before h 0 pre post none z.header 0 0 0 s.nodes
          (header-Before h z.header z.level (pre ++ post) s.header s.levels.1 0 s.levels.0) refl in
      (m, at)

  -- To free the node behind the links is safe.
  freed :
      (h : Heap K) (z : Zskiplist) (xs : Cells K) (a : ℕ)
      → (z.header == a) ≡ false
      → occurs a xs ≡ 0
      → IsSkiplist h z xs
      → IsSkiplist (update h a none) z xs
  freed h z xs a e f s = record {
    header = Headed-update h a none z.header z.level xs e s.header;
    nodes = Nodes-update h a none none xs f s.nodes;
    tail = s.tail;
    length = s.length;
    heights = s.heights;
    levels = s.levels;
    distinct = s.distinct;
  }

module _ {ℓ} {D O : Type ℓ} (o : Comparing D O) where
  All-without :
      (P : Cell (D × O) → Type 0) (pre : Cells (D × O)) (n : Cell (D × O)) (post : Cells (D × O))
      → All P (pre ++ (n ∷ post))
      → All P (pre ++ post)
  All-without P [] n post a = a.1
  All-without P (m ∷ pre) n post a = (a.0, All-without P pre n post a.1)

  All-suffix :
      (P : Cell (D × O) → Type 0) (pre post : Cells (D × O)) → All P (pre ++ post) → All P post
  All-suffix P [] post a = a
  All-suffix P (m ∷ pre) post a = All-suffix P pre post a.1

  IsSorted-without :
      (pre : Cells (D × O)) (n : Cell (D × O)) (post : Cells (D × O))
      → IsSorted o (pre ++ (n ∷ post))
      → IsSorted o (pre ++ post)
  unfolding IsSorted
  IsSorted-without [] n post s = s.1
  IsSorted-without (m ∷ pre) n post s =
      (All-without (λ c. less o m.key c.key ≡ true) pre n post s.0, IsSorted-without pre n post s.1)

  irreflexive : (k : D × O) → IsOrder o → IsNumber o k → less o k k ≡ false
  irreflexive k ord i = elim (Bool-cases (less o k k)) [
    | inl e ↦ let clash : true ≡ false = sym (ord.less_eq_refl k i) ∙ ord.less_eq-more k k e in cc
    | inr e ↦ e
  ]

  -- The search of zslDelete
  search-Found :
      (k : D × O) (h : Heap (D × O)) (z : Zskiplist) (pre post : Cells (D × O))
      → IsSkiplist h z (pre ++ post)
      → All (λ c. less o c.key k ≡ true) pre
      → All (λ c. less o c.key k ≡ false) post
      → (path : Route) × (search (λ r c. less o c k) h z ≡ some path)
        × Found z.header pre path z.level
  search-Found k h z pre post s below above =
      let (path, e, found, kept) =
        descend-Found (λ r c. less o c k) h z.header z.level (z.length + 1) pre post s.header
          s.nodes (Answers-keys (λ c. less o c k) true 0 pre below)
          (Answers-keys (λ c. less o c k) false (length pre) post above) s.levels.1
          (omega (arith, s.length, length-append pre post)) z.level z.header 0 unset (omega arith)
          (inl (refl, refl)) in
      (path, e, found)

  -- On a skip list of sorted keys with a node that has the given score and object, the score a
  -- number, and comparisons that order the keys, `zslDelete` does not fault and says that it found
  -- the node; the node is freed, the result is the skip list of the others, with every forward
  -- pointer, span, backward pointer, the tail and the length right, the number of levels is the
  -- height of the highest node that is left, or 1 if none is, and its keys are sorted.
  pub zsl_delete-IsSkiplist :
      (h : Heap (D × O)) (z : Zskiplist) (pre : Cells (D × O)) (n : Cell (D × O))
      (post : Cells (D × O))
      → IsOrder o
      → IsSkiplist h z (pre ++ (n ∷ post))
      → IsSorted o (pre ++ (n ∷ post))
      → IsNumber o n.key
      → (h' : Heap (D × O)) × (z' : Zskiplist) × (zsl_delete o n.key.0 n.key.1 h z
          ≡ some (h', z', true))
        × IsSkiplist h' z' (pre ++ post)
        × IsSorted o (pre ++ post)
        × (h' n.addr ≡ none)
        × (z'.level ≡ highest (pre ++ post))
  unfolding zsl_delete remove_node has_key Nodes Stored occurs
  zsl_delete-IsSkiplist h z pre n post ord s sorted i =
      let k : D × O = (n.key.0, n.key.1) in
      let same = irreflexive n.key ord i in
      let (path, e, found) =
        search-Found k h z pre (n ∷ post) s (IsSorted-before o pre n post sorted)
          (same, All-above o n n post ord same (IsSorted-behind o pre n post sorted)) in
      let tall : 0 < n.height =
        (Tall-parts pre (n ∷ post) (Fits-Tall z.level (pre ++ (n ∷ post)) s.heights)).1.0 in
      let (m, at) = next_of h z pre (n ∷ post) s in
      let read : get_level h (spot 0 z.header pre) 0
          ≡ some (record { forward = some n.addr; span = m + 1 }) =
        at
        ∙ ap (λ l. some (record { forward = l.forward; span = m + l.span }))
            (link-high 0 n post (ground (arith, tall))) in
      let (level, here, links) = (Nodes-split h none pre (n ∷ post) s.nodes).0 in
      let (h', z', f, result, header, exact) =
        zsl_delete_node-IsSkiplist h z pre n post s path found in
      let (free, free') = occurs_once pre post n (omega (arith, s.distinct n.addr)) in
      let split : occurs z.header (pre ++ (n ∷ post))
          ≡ occurs z.header pre + occurs z.header (n ∷ post) =
        occurs-append z.header pre (n ∷ post) in
      let own : (z.header == z.header) ≡ true = (==_iff z.header z.header).1 refl in
      let apart : (z.header == n.addr) ≡ false = ground (arith, s.distinct z.header, split, own) in
      (
        update h' n.addr none,
        z',
        rw
            (
              e,
              (found 0 s.levels.0).0,
              read,
              here,
              ord.equal_score_refl n.key.0 i,
              ord.equal_refl n.key.1,
              f,
            )
            refl,
        freed h' z' (pre ++ post) n.addr (rw header apart)
            (omega (arith, occurs-append n.addr pre post, free, free')) result,
        IsSorted-without pre n post sorted,
        update_self h' n.addr none,
        exact,
      )

  -- The next node does not have the object.
  absent :
      (score : D) (obj : O) (h : Heap (D × O)) (z : Zskiplist) (pre post : Cells (D × O))
      (path : Route)
      → IsSkiplist h z (pre ++ post)
      → search (λ r c. less o c (score, obj)) h z ≡ some path
      → path.nodes 0 ≡ some (spot 0 z.header pre)
      → Lacks o obj post
      → zsl_delete o score obj h z ≡ some (h, z, false)
  unfolding zsl_delete has_key Nodes Stored link
  absent score obj h z pre [] path s e f lacks =
      let (m, at) = next_of h z pre [] s in rw (e, f, at) refl
  absent score obj h z pre (p ∷ ps) path s e f lacks =
      let (m, at) = next_of h z pre (p ∷ ps) s in
      let tall : 0 < p.height =
        (Tall-parts pre (p ∷ ps) (Fits-Tall z.level (pre ++ (p ∷ ps)) s.heights)).1.0 in
      let read : get_level h (spot 0 z.header pre) 0
          ≡ some (record { forward = some p.addr; span = m + 1 }) =
        at
        ∙ ap (λ l. some (record { forward = l.forward; span = m + l.span }))
            (link-high 0 p ps (ground (arith, tall))) in
      let (level, here, links) = (Nodes-split h none pre (p ∷ ps) s.nodes).0 in
      let miss : (o.equal_score score p.key.0 && o.equal_obj p.key.1 obj) ≡ false =
        rw lacks.0 (ground arith) in
      rw (e, f, read, here, miss) refl

  -- On a skip list of sorted keys of which none has the object, `zslDelete` does not fault,
  -- changes nothing and says that it found no node, whatever the score.
  pub zsl_delete-Lacks :
      (score : D) (obj : O) (h : Heap (D × O)) (z : Zskiplist) (xs : Cells (D × O))
      → IsOrder o
      → IsSkiplist h z xs
      → IsSorted o xs
      → Lacks o obj xs
      → zsl_delete o score obj h z ≡ some (h, z, false)
  zsl_delete-Lacks score obj h z xs ord s sorted lacks =
      let n : Cell (D × O) = record { addr = 0; key = (score, obj); height = 0 } in
      let (pre, post, e, f, below, above) = insert_cell-split o n xs ord sorted in
      let s' : IsSkiplist h z (pre ++ post) = rw e at s in
      let (path, g, found) = search-Found (score, obj) h z pre post s' below above in
      absent score obj h z pre post path s' g (found 0 s.levels.0).0
        (All-suffix (λ c. o.equal_obj c.key.1 obj ≡ false) pre post (rw e at lacks))
