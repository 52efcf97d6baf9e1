-- ===== src/Skiplist/Joining.antt =====
-- zslInsert of struct/t_zset.c behind its search: the loops and the end of it together.
use learnredis.Base.{
  ltb, ℕ, ◌+◌, ◌-◌, ◌≤◌, ◌<◌, ◌≡◌, refl, ◌∙◌, inl, inr, false, none, some, [], ◌∷◌, ◌++◌, arith,
  length, ltb, ◌==◌, ==_iff, if◌then◌else◌, Bool-cases, update, update_self,
}
use learnredis.Skiplist.{Heap, Zskiplist, Route, zskiplist_maxlevel, zsl_create_node, insert_at}
use learnredis.Skiplist.Links.{
  Cell, Cells, occurs, occurs-append, Nodes, Nodes-split, Headed, last_addr, IsSkiplist,
}
use learnredis.Skiplist.Walking.{spot, spot_rank}
use learnredis.Skiplist.Searching.{Found, header-Before}
use learnredis.Skiplist.Spots.{spot-Before, spot-occurs}
use learnredis.Skiplist.Changing.{get_level_inv, Others}
use learnredis.Skiplist.Splicing.{
  changed, Spot, New, Spliced, splice_loop-Spliced, stretch_loop-Spliced,
}
use learnredis.Skiplist.Raising.{Under, Under-more, Under-prefix, raise-Raised}
use learnredis.Skiplist.Growing.{changed-Corrects}
use learnredis.Skiplist.Placing.{place-Prefix, place-Headed, place-Nodes}
use learnredis.Skiplist.Fitting.{
  Fits-Under, Fits-Tall, Fits-new, Tall-parts, occurs-new, length-new,
}
use learnredis.Skiplist.Linking.{Tall, spot_rank-Tall, IsSpliced, link_backward-IsLinked}

module _ {ℓ} {K : Type ℓ} where
  module _ (pre post : Cells K) (fresh level : ℕ) (key : K) where
    abbrev cell : Cell K
    cell = record { addr = fresh; key = key; height = level }

    -- The nodes where a search has ended, as the loops read them
    Spot-all :
        (h : Heap K) (header top : ℕ)
        → Headed h header top (pre ++ post)
        → Nodes h none (pre ++ post)
        → top ≤ zskiplist_maxlevel
        → spot_rank 0 0 0 pre ≡ length pre
        → (fresh == header) ≡ false
        → occurs fresh pre ≡ 0
        → (i : ℕ) → i < top
        → Spot h header pre post fresh level key i
    unfolding Spot
    Spot-all h header top s t b first e f i c =
        let (m, at, size) =
          spot-Before h i pre post none header 0 0 0 t
            (header-Before h header top (pre ++ post) s b i c) refl in
        let (n, here, high, is) = get_level_inv h (spot i header pre) i _ at in
        let other : (fresh == spot i header pre) ≡ false = spot-occurs i header fresh pre e f in
        (n, m, here, high, is, omega (arith, size, first), ground (arith, other))

    New-less :
        (h g : Heap K) (header i j : ℕ)
        → i ≤ j
        → New h header pre post fresh level key j g
        → New h header pre post fresh level key i g
    unfolding New
    New-less h g header i j b (l, at, links) = (l, at, λ n c. links n (omega (arith, b, c)))

    module _ (h : Heap K) (z : Zskiplist) (s : IsSkiplist h z (pre ++ post)) (positive : 0 < level)
        (low : level ≤ zskiplist_maxlevel) (fresh_here : occurs fresh (pre ++ post) ≡ 0)
        (unlike : (fresh == z.header) ≡ false) where
      alone : occurs z.header (pre ++ post) ≡ 0
      alone = ground (arith, s.distinct z.header, (==_iff z.header z.header).1 refl)

      once : (a : ℕ) → occurs a (pre ++ (cell ∷ post)) + (if a == z.header then 1 else 0) ≤ 1
      once a =
          let new : occurs a (pre ++ (cell ∷ post))
              ≡ (if a == fresh then 1 else 0) + occurs a (pre ++ post) =
            occurs-new a pre post cell in
          elim (Bool-cases (a == fresh)) [
            | inl e ↦
                let at : a ≡ fresh = (==_iff a fresh).0 e in
                let none_here : occurs a (pre ++ post) ≡ 0 = rw at fresh_here in
                let other : (a == z.header) ≡ false = rw at unlike in
                ground (arith, new, e, none_here, other)
            | inr e ↦ ground (arith, new, e, s.distinct a)
          ]

      tall : Tall pre × Tall post
      tall = Tall-parts pre post (Fits-Tall z.level (pre ++ post) s.heights)

      first : spot_rank 0 0 0 pre ≡ length pre
      first = spot_rank-Tall 0 0 pre refl tall.0 ∙ omega arith

      others_apart :
          (a : ℕ)
          → 0 < occurs a post
          → ((a == z.header) ≡ false) × (occurs a pre ≡ 0) × ((a == fresh) ≡ false)
      others_apart a e =
          let split : occurs a (pre ++ post) ≡ occurs a pre + occurs a post =
            occurs-append a pre post in
          let most : occurs a (pre ++ post) + (if a == z.header then 1 else 0) ≤ 1 = s.distinct a in
          (
            ground (arith, split, most, e),
            omega (arith, split, most, e),
            elim (Bool-cases (a == fresh)) [
              | inl f ↦
                  let none_here : occurs a (pre ++ post) ≡ 0 =
                    rw ((==_iff a fresh).0 f) fresh_here in
                  absurd (omega (arith, none_here, split, e))
              | inr f ↦ f
            ],
          )

      -- Everything but the backward pointers, in the heap that the two loops leave
      loops-IsSpliced :
          (top : ℕ) (h1 g : Heap K) (path : Route)
          → (level ≤ top) × (z.level ≤ top) × (top ≤ zskiplist_maxlevel)
          → Headed h1 z.header top (pre ++ post)
          → Nodes h1 none (pre ++ post)
          → Found z.header pre path top
          → Spliced h1 z.header pre post fresh level key top g
          → New h1 z.header pre post fresh level key top g
          → IsSpliced h1 (record z { level = top }) pre post fresh level key g path
      loops-IsSpliced top h1 g path (b, c, d) headed nodes found others new =
          let split : occurs fresh (pre ++ post) ≡ occurs fresh pre + occurs fresh post =
            occurs-append fresh pre post in
          let free : occurs fresh pre ≡ 0 = omega (arith, split, fresh_here) in
          let headers : occurs z.header (pre ++ post) ≡ occurs z.header pre + occurs z.header post =
            occurs-append z.header pre post in
          let header_free : occurs z.header pre ≡ 0 = omega (arith, headers, alone) in
          let under : Under top pre =
            Under-more z.level top pre c
              (Under-prefix z.level pre post (Fits-Under z.level (pre ++ post) s.heights)) in
          record {
            header =
                place-Headed h1 z.header pre post (cell ∷ post) fresh
                  (changed h1 z.header pre post fresh level key)
                  (changed-Corrects h1 z.header pre post fresh level key first) top g others headed
                  header_free (ground (arith, unlike));
            before =
                place-Prefix h1 z.header pre post (cell ∷ post) fresh
                  (changed h1 z.header pre post fresh level key)
                  (changed-Corrects h1 z.header pre post fresh level key first) top g others [] pre
                  none refl under (λ a. omega (arith, occurs-append a pre post, s.distinct a)) free
                  nodes;
            new = New-less h1 g z.header level top b new;
            behind =
                place-Nodes h1 z.header pre post (cell ∷ post) fresh
                  (changed h1 z.header pre post fresh level key)
                  (changed-Corrects h1 z.header pre post fresh level key first) top g others
                  (last_addr none pre) post others_apart (Nodes-split h1 none pre post nodes);
            found = (found 0 (omega (arith, b, positive))).0;
            tall =
                Fits-Tall top (pre ++ (cell ∷ post))
                  (Fits-new z.level top pre post cell c (positive, b) s.heights);
            tail = s.tail;
            unlike = unlike;
            alone = alone;
            once = λ a. omega (arith, once a);
          }

      -- The insertion behind the search gives the skip list with the new node.
      pub insert_at-IsSkiplist :
          (path : Route)
          → Found z.header pre path z.level
          → (h' : Heap K) × (z' : Zskiplist) × (insert_at fresh level key h z path ≡ some (h', z'))
            × IsSkiplist h' z' (pre ++ (cell ∷ post))
            × (z'.level ≡ (if ltb z.level level then level else z.level))
      unfolding insert_at Others New
      insert_at-IsSkiplist path found =
          let (top, h1, path1, e1, (b, c, d, exact), headed, nodes, found1) =
            raise-Raised z pre post s.length alone level h path low s.levels.1
              (Fits-Under z.level (pre ++ post) s.heights) s.header s.nodes found in
          let split : occurs fresh (pre ++ post) ≡ occurs fresh pre + occurs fresh post =
            occurs-append fresh pre post in
          let free : occurs fresh pre ≡ 0 = omega (arith, split, fresh_here) in
          let spots : (i : ℕ) → i < top → Spot h1 z.header pre post fresh level key i =
            Spot-all h1 z.header top headed nodes d first unlike free in
          let start : Heap K = update h1 fresh (some (zsl_create_node level (some key))) in
          let (h2, e2, others2, new2) =
            splice_loop-Spliced h1 z.header pre post fresh level key level 0 start path1
              (omega arith) (λ i f. spots i (omega (arith, f, b)))
              (λ i f. found1 i (omega (arith, f, b)))
              (λ a n apart at. (
                n.level,
                rw apart at,
                λ j. let above : ltb j 0 ≡ false = ground arith in rw above refl,
              ))
              (_, update_self h1 fresh _, λ j f. absurd (omega (arith, f))) in
          let (h3, e3, others3, new3) =
            stretch_loop-Spliced h1 z.header pre post fresh level key (top - level) level top h2
              path1 (omega (arith, b)) (omega arith) spots found1 others2 new2 in
          let (h4, z4, e4, linked) =
            link_backward-IsLinked h1 (record z { level = top }) pre fresh level key positive h3
              path1 post
              (loops-IsSpliced top h1 h3 path1 (b, c, d) headed nodes found1 others3 new3) tall.0
              tall.1 in
          let (same, levels, size) = linked.fixed in
          (
            h4,
            z4,
            rw (e1, e2, e3) e4,
            record {
              header = rw (same, levels) linked.header;
              nodes = linked.nodes;
              tail = linked.tail;
              length = omega (arith, size, s.length, length-new pre post cell);
              heights = rw levels (Fits-new z.level top pre post cell c (positive, b) s.heights);
              levels = rw levels (omega (arith, positive, b), d);
              distinct = λ a. rw same (once a);
            },
            levels ∙ exact,
          )
