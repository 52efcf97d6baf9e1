-- ===== src/Skiplist/Linking.antt =====
-- The backward pointers, the tail and the length at the end of zslInsert in struct/t_zset.c.
use learnredis.Base.{
  ℕ, suc, ◌+◌, ◌≤◌, ◌<◌, ◌≡◌, refl, sym, ap, ◌∙◌, true, false, Option, none, some, [], ◌∷◌, ◌++◌,
  arith, length, append_assoc, ltb, ◌==◌, ==_iff, if◌then◌else◌, All, update,
}
use learnredis.Skiplist.{
  Pointer, Level, Node, Heap, Zskiplist, Route, get_level, set_backward, link_backward,
}
use learnredis.Skiplist.Links.{
  Cell, Cells, link, link-high, occurs, occurs-append, Nodes, Headed, Stored, last_addr,
}
use learnredis.Skiplist.Walking.{spot, spot_rank}
use learnredis.Skiplist.Spots.{spot-occurs}
use learnredis.Skiplist.Changing.{get_level_at}
use learnredis.Skiplist.Splicing.{New}
use learnredis.Skiplist.Raising.{Nodes-update}
use learnredis.Skiplist.Placing.{Prefix, Prefix-update, Nodes-join}

module _ {ℓ} {K : Type ℓ} where
  -- Every node has the lowest level.
  abbrev pub Tall : Cells K → Type 0
  Tall xs = All (λ n. 0 < n.height) xs

  pub spot_rank-Tall :
      (r k : ℕ) (xs : Cells K) → r ≡ k → Tall xs → spot_rank 0 r k xs ≡ k + length xs
  unfolding spot_rank
  spot_rank-Tall r k [] e t = omega (arith, e)
  spot_rank-Tall r k (n ∷ xs) e t =
      let high : ltb 0 n.height ≡ true = ground (arith, t.0) in
      rw high (spot_rank-Tall (suc k) (suc k) xs refl t.1 ∙ omega arith)

  spot-Tall : (x : ℕ) (xs : Cells K) → Tall xs → some (spot 0 x xs) ≡ last_addr (some x) xs
  unfolding spot last_addr
  spot-Tall x [] t = refl
  spot-Tall x (n ∷ xs) t =
      let high : ltb 0 n.height ≡ true = ground (arith, t.0) in rw high (spot-Tall n.addr xs t.1)

  -- The backward pointer of the new node
  before_new :
      (header : ℕ) (pre : Cells K)
      → Tall pre
      → occurs header pre ≡ 0
      → (if spot 0 header pre == header then none else some (spot 0 header pre))
        ≡ last_addr none pre
  unfolding spot last_addr occurs
  before_new header [] t e = rw ((==_iff header header).1 refl) refl
  before_new header (n ∷ pre) t e =
      let high : ltb 0 n.height ≡ true = ground (arith, t.0) in
      let apart : (header == n.addr) ≡ false = ground (arith, e) in
      let other : (header == spot 0 n.addr pre) ≡ false =
        spot-occurs 0 n.addr header pre apart (omega (arith, e)) in
      let other' : (spot 0 n.addr pre == header) ≡ false = ground (arith, other) in
      rw (high, other') (spot-Tall n.addr pre t.1)

  pub last_addr-append :
      (p : Pointer) (xs ys : Cells K) → last_addr p (xs ++ ys) ≡ last_addr (last_addr p xs) ys
  unfolding last_addr
  last_addr-append p [] ys = refl
  last_addr-append p (n ∷ xs) ys = last_addr-append (some n.addr) xs ys

  pub Headed-update :
      (h : Heap K) (a : ℕ) (v : Option (Node K)) (header top : ℕ) (xs : Cells K)
      → (header == a) ≡ false
      → Headed h header top xs
      → Headed (update h a v) header top xs
  unfolding Headed
  Headed-update h a v header top xs e (level, f, g, k) = (level, (rw e f), g, k)

  pub set_backward_at :
      (h : Heap K) (x : ℕ) (b : Pointer) (n : Node K)
      → h x ≡ some n
      → set_backward h (some x) b ≡ some (update h x (some (record n { backward = b })))
  unfolding set_backward
  set_backward_at h x b n e = rw e refl

  module _ (h : Heap K) (z : Zskiplist) (pre post : Cells K) (fresh level : ℕ) (key : K) where
    abbrev node : Cell K
    node = record { addr = fresh; key = key; height = level }

    -- Everything is in place but the pointers backward.
    pub record IsSpliced (g : Heap K) (path : Route) : Type ℓ where
      pub header : Headed g z.header z.level (pre ++ (node ∷ post))
      pub before : Prefix g none pre (node ∷ post)
      pub new : New h z.header pre post fresh level key level g
      pub behind : Nodes g (last_addr none pre) post
      pub found : path.nodes 0 ≡ some (spot 0 z.header pre)
      pub tall : Tall (pre ++ (node ∷ post))
      pub tail : z.tail ≡ last_addr none (pre ++ post)
      pub unlike : (fresh == z.header) ≡ false
      pub alone : occurs z.header (pre ++ post) ≡ 0
      pub once : (a : ℕ) → occurs a (pre ++ (node ∷ post)) ≤ 1

    -- What the insertion ends with
    pub record IsLinked (g : Heap K) (z' : Zskiplist) : Type ℓ where
      pub header : Headed g z.header z.level (pre ++ (node ∷ post))
      pub nodes : Nodes g none (pre ++ (node ∷ post))
      pub fixed : (z'.header ≡ z.header) × (z'.level ≡ z.level) × (z'.length ≡ z.length + 1)
      pub tail : z'.tail ≡ last_addr none (pre ++ (node ∷ post))

  pub occurs_once :
      (pre post : Cells K) (n : Cell K)
      → occurs n.addr (pre ++ (n ∷ post)) ≤ 1
      → (occurs n.addr pre ≡ 0) × (occurs n.addr post ≡ 0)
  unfolding occurs
  occurs_once pre post n e =
      let own : (n.addr == n.addr) ≡ true = (==_iff n.addr n.addr).1 refl in
      let split : occurs n.addr (pre ++ (n ∷ post)) ≡ occurs n.addr pre + occurs n.addr (n ∷ post) =
        occurs-append n.addr pre (n ∷ post) in
      (ground (arith, own, e, split), ground (arith, own, e, split))

  module _ (h : Heap K) (z : Zskiplist) (pre : Cells K) (fresh level : ℕ) (key : K)
      (tall : 0 < level) (g : Heap K) (path : Route) where
    -- The node with its backward pointer
    abbrev complete : (ℕ → Level) → Node K
    complete l = record { key = some key; backward = last_addr none pre; height = level; level = l }

    abbrev heap1 : (ℕ → Level) → Heap K
    heap1 l = update g fresh (some (complete l))

    write_new :
        (post : Cells K) (l : ℕ → Level)
        → IsSpliced h z pre post fresh level key g path
        → g fresh ≡ some (record { key = some key; backward = none; height = level; level = l })
        → Tall pre
        → occurs z.header pre ≡ 0
        → set_backward g
            (some fresh)
            (if spot 0 z.header pre == z.header then none else some (spot 0 z.header pre))
          ≡ some (heap1 l)
    write_new post l s at t e =
        rw (before_new z.header pre t e) (set_backward_at g fresh (last_addr none pre) _ at)

    read_new : (l : ℕ → Level) (m : Level) → l 0 ≡ m → get_level (heap1 l) fresh 0 ≡ some m
    read_new l m e =
        get_level_at (heap1 l) fresh 0 (complete l) (rw ((==_iff fresh fresh).1 refl) refl)
          (ground (arith, tall))
        ∙ ap some e

    link_last :
        IsSpliced h z pre [] fresh level key g path
        → Tall pre
        → (g' : Heap K) × (z' : Zskiplist) × (link_backward g z fresh path ≡ some (g', z'))
          × IsLinked h z pre [] fresh level key g' z'
    unfolding link_backward New link Nodes Stored last_addr
    link_last s t =
        let (l, at, links) = s.new in
        let alone : occurs z.header pre ≡ 0 =
          omega (arith, s.alone, occurs-append z.header pre []) in
        let (free, free') = occurs_once pre [] (node h z pre [] fresh level key) (s.once fresh) in
        let apart : (z.header == fresh) ≡ false = ground (arith, s.unlike) in
        (
          heap1 l,
          record z { tail = some fresh; length = z.length + 1 },
          rw (s.found, write_new [] l s at t alone, read_new l _ (links 0 tall tall)) refl,
          record {
            header = Headed-update g fresh (some (complete l)) z.header z.level _ apart s.header;
            nodes =
                Nodes-join (heap1 l) none pre (node h z pre [] fresh level key ∷ [])
                  (Prefix-update g fresh (some (complete l)) none pre _ free s.before)
                  ((l, (rw ((==_iff fresh fresh).1 refl) refl), λ j c. links j c c), tt);
            fixed = (refl, refl, refl);
            tail = sym (last_addr-append none pre (node h z pre [] fresh level key ∷ []));
          },
        )

    link_behind :
        (p : Cell K) (ps : Cells K)
        → IsSpliced h z pre (p ∷ ps) fresh level key g path
        → Tall pre
        → 0 < p.height
        → (g' : Heap K) × (z' : Zskiplist) × (link_backward g z fresh path ≡ some (g', z'))
          × IsLinked h z pre (p ∷ ps) fresh level key g' z'
    unfolding link_backward New Nodes Stored last_addr occurs
    link_behind p ps s t high =
        let new : Cell K = node h z pre (p ∷ ps) fresh level key in
        let (l, at, links) = s.new in
        let ((lp, at_p, links_p), rest) = s.behind in
        let np : Node K = record {
          key = some p.key;
          backward = some fresh;
          height = p.height;
          level = lp;
        } in
        let split : occurs z.header (pre ++ (p ∷ ps))
            ≡ occurs z.header pre + occurs z.header (p ∷ ps) =
          occurs-append z.header pre (p ∷ ps) in
        let alone : occurs z.header pre ≡ 0 = omega (arith, s.alone, split) in
        let apart : (z.header == fresh) ≡ false = ground (arith, s.unlike) in
        let apart_p : (z.header == p.addr) ≡ false = ground (arith, s.alone, split) in
        let (free, free') = occurs_once pre (p ∷ ps) new (s.once fresh) in
        let swap : pre ++ (new ∷ (p ∷ ps)) ≡ (pre ++ (new ∷ [])) ++ (p ∷ ps) =
          sym (append_assoc pre (new ∷ []) (p ∷ ps)) in
        let (free_p, free_ps) = occurs_once (pre ++ (new ∷ [])) ps p (rw swap at (s.once p.addr)) in
        let split_p : occurs p.addr (pre ++ (new ∷ []))
            ≡ occurs p.addr pre + occurs p.addr (new ∷ []) =
          occurs-append p.addr pre (new ∷ []) in
        let other : (p.addr == fresh) ≡ false = ground (arith, free_p, split_p) in
        let other' : (fresh == p.addr) ≡ false = ground (arith, other) in
        let h2 : Heap K = update (heap1 l) p.addr (some np) in
        let next : l 0 ≡ record { forward = some p.addr; span = 1 } =
          links 0 tall tall ∙ link-high 0 p ps (ground (arith, high)) in
        let write_p : set_backward (heap1 l) (some p.addr) (some fresh) ≡ some h2 =
          set_backward_at (heap1 l) p.addr (some fresh)
            (record np { backward = last_addr none pre }) (rw other at_p) in
        (
          h2,
          record z { length = z.length + 1 },
          rw (s.found, write_new (p ∷ ps) l s at t alone, read_new l _ next, write_p) refl,
          record {
            header =
                Headed-update (heap1 l) p.addr (some np) z.header z.level _ apart_p
                  (Headed-update g fresh (some (complete l)) z.header z.level _ apart s.header);
            nodes =
                Nodes-join h2 none pre (new ∷ (p ∷ ps))
                  (Prefix-update (heap1 l) p.addr (some np) none pre _
                    (omega (arith, free_p, split_p))
                    (Prefix-update g fresh (some (complete l)) none pre _ free s.before))
                  (
                    (l, (rw (other', (==_iff fresh fresh).1 refl) refl), λ j c. links j c c),
                    (
                      (lp, (rw ((==_iff p.addr p.addr).1 refl) refl), links_p),
                      Nodes-update (heap1 l) p.addr (some np) (some p.addr) ps free_ps (
                          Nodes-update g fresh (some (complete l)) (some p.addr) ps
                            (omega (arith, free')) rest),
                    ),
                  );
            fixed = (refl, refl, refl);
            tail =
                s.tail
                ∙ last_addr-append none pre (p ∷ ps)
                ∙ sym (last_addr-append none pre (new ∷ (p ∷ ps)));
          },
        )

    -- The end of the insertion, whether or not a node is behind the new one
    pub link_backward-IsLinked :
        (post : Cells K)
        → IsSpliced h z pre post fresh level key g path
        → Tall pre
        → Tall post
        → (g' : Heap K) × (z' : Zskiplist) × (link_backward g z fresh path ≡ some (g', z'))
          × IsLinked h z pre post fresh level key g' z'
    link_backward-IsLinked [] s t u = link_last s t
    link_backward-IsLinked (p ∷ ps) s t u = link_behind p ps s t u.0
