-- ===== src/Skiplist/Deleting/Unlinking.antt =====
-- zslDeleteNode in struct/t_zset.c as a whole: the skip list without the node.
use learnredis.Base.{
  ℕ, ◌+◌, ◌-◌, ◌≤◌, ◌<◌, ◌≡◌, refl, false, none, some, [], ◌∷◌, ◌++◌, arith, ltb, ◌==◌, ==_iff,
  if◌then◌else◌, All,
}
use learnredis.Skiplist.{Heap, Zskiplist, Route}
use learnredis.Skiplist.Links.{
  All-at, Cell, Cells, occurs, occurs-append, Nodes, Nodes-split, last_addr, IsSkiplist,
}
use learnredis.Skiplist.Walking.{spot}
use learnredis.Skiplist.Searching.{Found, header-Before}
use learnredis.Skiplist.Spots.{spot-Before, spot-occurs}
use learnredis.Skiplist.Changing.{get_level_inv, Others}
use learnredis.Skiplist.Raising.{Under-prefix}
use learnredis.Skiplist.Placing.{place-Prefix, place-Headed, place-Nodes}
use learnredis.Skiplist.Linking.{occurs_once}
use learnredis.Skiplist.Fitting.{
  highest, Fits, Fits-Tall, Tall-parts, Fits-Under, Fits-Under-join, Fits-without, occurs-new,
  length-new,
}
use learnredis.Skiplist.Deleting.{zsl_delete_node}
use learnredis.Skiplist.Deleting.Shrinking.{
  shorter, shorter-Corrects, Shrunk, Place, Going, delete_loop-Shrunk,
}
use learnredis.Skiplist.Deleting.Backward.{IsCut, unlink_backward-IsUnlinked}
use learnredis.Skiplist.Deleting.Lowering.{lower_loop-Headed}

module _ {ℓ} {K : Type ℓ} where
  module _ (h : Heap K) (z : Zskiplist) (pre : Cells K) (n : Cell K) (post : Cells K)
      (s : IsSkiplist h z (pre ++ (n ∷ post))) where
    gone : (occurs n.addr pre ≡ 0) × (occurs n.addr post ≡ 0)
    gone = occurs_once pre post n (omega (arith, s.distinct n.addr))

    alone : occurs z.header (pre ++ (n ∷ post)) ≡ 0
    alone = ground (arith, s.distinct z.header, (==_iff z.header z.header).1 refl)

    split :
        (a : ℕ)
        → occurs a (pre ++ (n ∷ post))
          ≡ occurs a pre + ((if a == n.addr then 1 else 0) + occurs a post)
    unfolding occurs
    split a = occurs-append a pre (n ∷ post)

    apart : (n.addr == z.header) ≡ false
    apart = ground (arith, alone, split z.header)

    tall : 0 < n.height
    tall = (All-at (Fits z.level) pre n post s.heights).0

    -- The nodes where a search has ended, as the loop reads them
    Place-all : (i : ℕ) → i < z.level → Place h z.header pre n post i
    unfolding Place
    Place-all i c =
        let (m, at, size) =
          spot-Before h i pre (n ∷ post) none z.header 0 0 0 s.nodes
            (header-Before h z.header z.level (pre ++ (n ∷ post)) s.header s.levels.1 i c) refl in
        let (u, here, high, is) = get_level_inv h (spot i z.header pre) i _ at in
        let other : (n.addr == spot i z.header pre) ≡ false =
          spot-occurs i z.header n.addr pre apart gone.0 in
        (u, m, here, high, is, ground (arith, other))

    others_apart :
        (a : ℕ)
        → 0 < occurs a post
        → ((a == z.header) ≡ false) × (occurs a pre ≡ 0) × ((a == n.addr) ≡ false)
    others_apart a e =
        let most : occurs a (pre ++ (n ∷ post)) + (if a == z.header then 1 else 0) ≤ 1 =
          s.distinct a in
        (
          ground (arith, split a, most, e),
          omega (arith, split a, most, e),
          ground (arith, split a, most, e),
        )

    loop-IsCut :
        (g : Heap K)
        → Shrunk h z.header pre n post z.level g
        → Going h z.header pre n post (last_addr none pre) g
        → IsCut z pre n g tall post
    unfolding Going Nodes
    loop-IsCut g shrunk going =
        let free : occurs z.header pre ≡ 0 = omega (arith, alone, split z.header) in
        let correct = shorter-Corrects h z.header pre n post in
        record {
          header =
              place-Headed h z.header pre (n ∷ post) post n.addr (shorter h z.header pre n post)
                correct z.level g shrunk s.header free (ground (arith, apart));
          before =
              place-Prefix h z.header pre (n ∷ post) post n.addr (shorter h z.header pre n post)
                correct z.level g shrunk [] pre none refl
                (Under-prefix z.level pre (n ∷ post)
                  (Fits-Under z.level (pre ++ (n ∷ post)) s.heights))
                (λ a. omega (arith, split a, s.distinct a)) gone.0 s.nodes;
          going = going;
          behind =
              place-Nodes h z.header pre (n ∷ post) post n.addr (shorter h z.header pre n post)
                correct z.level g shrunk (some n.addr) post others_apart
                (Nodes-split h none pre (n ∷ post) s.nodes).1;
          tail = s.tail;
          alone = alone;
          once = λ a. omega (arith, s.distinct a);
        }

    pub zsl_delete_node-IsSkiplist :
        (path : Route)
        → Found z.header pre path z.level
        → (h' : Heap K) × (z' : Zskiplist) × (zsl_delete_node h z n.addr path ≡ some (h', z'))
          × IsSkiplist h' z' (pre ++ post)
          × (z'.header ≡ z.header)
          × (z'.level ≡ highest (pre ++ post))
    unfolding zsl_delete_node Others Going Nodes
    zsl_delete_node-IsSkiplist path found =
        let (g, e, shrunk, going) =
          delete_loop-Shrunk h z.header pre n post z.level 0 z.level h path (last_addr none pre)
            (omega arith) Place-all found gone.1
            (λ a u f at.
              (u.level, at, λ j. let above : ltb j 0 ≡ false = ground arith in rw above refl))
            (Nodes-split h none pre (n ∷ post) s.nodes).0 in
        let fits : All (Fits z.level) (pre ++ post) = Fits-without z.level pre post n s.heights in
        let (g', z', f, unlinked) =
          unlink_backward-IsUnlinked z pre n g tall post
            (Tall-parts pre post (Fits-Tall z.level (pre ++ post) fits)).1
            (loop-IsCut g shrunk going) in
        let (same, level, size) = unlinked.fixed in
        let (top, low, bounds, headed, under, exact) =
          lower_loop-Headed g' z.header (pre ++ post) z.level s.levels.0 s.levels.1 unlinked.header
            (Fits-Under z.level (pre ++ post) fits) in
        (
          g',
          record z' { level = top; length = z'.length - 1 },
          rw (e, f, same, level, low) refl,
          record {
            header = rw same headed;
            nodes = unlinked.nodes;
            tail = unlinked.tail;
            length = omega (arith, size, s.length, length-new pre post n);
            heights = Fits-Under-join z.level top (pre ++ post) fits under;
            levels = bounds;
            distinct = λ a. rw same (omega (arith, occurs-new a pre post n, s.distinct a));
          },
          same,
          exact,
        )
