-- ===== src/Skiplist/Deleting/Backward.antt =====
-- The pointer backward, or the tail, that zslDeleteNode of struct/t_zset.c sets.
use learnredis.Base.{
  ℕ, ◌+◌, ◌≤◌, ◌<◌, ◌≡◌, refl, sym, ap, ◌∙◌, false, none, some, [], ◌∷◌, ◌++◌, arith, append_assoc,
  ◌==◌, ==_iff, All, update,
}
use learnredis.Skiplist.{Pointer, Node, Heap, Zskiplist, get_level, set_backward}
use learnredis.Skiplist.Links.{
  Cell, Cells, link, link-high, occurs, occurs-append, Stored, Nodes, Headed, last_addr,
}
use learnredis.Skiplist.Changing.{get_level_at}
use learnredis.Skiplist.Raising.{Nodes-update}
use learnredis.Skiplist.Placing.{Prefix, Prefix-update, Nodes-join}
use learnredis.Skiplist.Linking.{last_addr-append, Headed-update, set_backward_at, occurs_once}
use learnredis.Skiplist.Deleting.{unlink_backward}

module _ {ℓ} {K : Type ℓ} where
  module _ (z : Zskiplist) (pre : Cells K) (n : Cell K) (g : Heap K) (tall : 0 < n.height) where
    -- The nodes without `n`, but for the pointer back of the one behind it
    pub record IsCut (post : Cells K) : Type ℓ where
      pub header : Headed g z.header z.level (pre ++ post)
      pub before : Prefix g none pre post
      pub going : Stored g n (last_addr none pre) post
      pub behind : Nodes g (some n.addr) post
      pub tail : z.tail ≡ last_addr none (pre ++ (n ∷ post))
      pub alone : occurs z.header (pre ++ (n ∷ post)) ≡ 0
      pub once : (a : ℕ) → occurs a (pre ++ (n ∷ post)) ≤ 1

    -- The list without the node; its links are whole.
    pub record IsUnlinked (post : Cells K) (g' : Heap K) (z' : Zskiplist) : Type ℓ where
      pub header : Headed g' z.header z.level (pre ++ post)
      pub nodes : Nodes g' none (pre ++ post)
      pub fixed : (z'.header ≡ z.header) × (z'.level ≡ z.level) × (z'.length ≡ z.length)
      pub tail : z'.tail ≡ last_addr none (pre ++ post)

    unlink_last :
        IsCut []
        → (g' : Heap K) × (z' : Zskiplist) × (unlink_backward g z n.addr ≡ some (g', z'))
          × IsUnlinked [] g' z'
    unfolding unlink_backward Stored link last_addr Nodes
    unlink_last s =
        let (l, at, links) = s.going in
        let read : get_level g n.addr 0 ≡ some (record { forward = none; span = 0 }) =
          get_level_at g n.addr 0 _ at (ground (arith, tall)) ∙ ap some (links 0 tall) in
        (
          g,
          record z { tail = last_addr none pre },
          rw (read, at) refl,
          record {
            header = s.header;
            nodes = Nodes-join g none pre [] s.before tt;
            fixed = (refl, refl, refl);
            tail = sym (last_addr-append none pre []);
          },
        )

    unlink_behind :
        (p : Cell K) (ps : Cells K)
        → 0 < p.height
        → IsCut (p ∷ ps)
        → (g' : Heap K) × (z' : Zskiplist) × (unlink_backward g z n.addr ≡ some (g', z'))
          × IsUnlinked (p ∷ ps) g' z'
    unfolding unlink_backward Stored last_addr Nodes occurs
    unlink_behind p ps high s =
        let back : Pointer = last_addr none pre in
        let (l, at, links) = s.going in
        let ((lp, at_p, links_p), rest) = s.behind in
        let np : Node K = record {
          key = some p.key;
          backward = back;
          height = p.height;
          level = lp;
        } in
        let g' : Heap K = update g p.addr (some np) in
        let next : l 0 ≡ record { forward = some p.addr; span = 1 } =
          links 0 tall ∙ link-high 0 p ps (ground (arith, high)) in
        let read : get_level g n.addr 0 ≡ some (record { forward = some p.addr; span = 1 }) =
          get_level_at g n.addr 0 _ at (ground (arith, tall)) ∙ ap some next in
        let write : set_backward g (some p.addr) back ≡ some g' =
          set_backward_at g p.addr back (record np { backward = some n.addr }) at_p in
        let swap : pre ++ (n ∷ (p ∷ ps)) ≡ (pre ++ (n ∷ [])) ++ (p ∷ ps) =
          sym (append_assoc pre (n ∷ []) (p ∷ ps)) in
        let (free, free_ps) = occurs_once (pre ++ (n ∷ [])) ps p (rw swap at (s.once p.addr)) in
        let split : occurs p.addr (pre ++ (n ∷ [])) ≡ occurs p.addr pre + occurs p.addr (n ∷ []) =
          occurs-append p.addr pre (n ∷ []) in
        let split_h : occurs z.header (pre ++ (n ∷ (p ∷ ps)))
            ≡ occurs z.header pre + occurs z.header (n ∷ (p ∷ ps)) =
          occurs-append z.header pre (n ∷ (p ∷ ps)) in
        let apart : (z.header == p.addr) ≡ false = ground (arith, s.alone, split_h) in
        (
          g',
          z,
          rw (read, at, write) refl,
          record {
            header = Headed-update g p.addr (some np) z.header z.level _ apart s.header;
            nodes =
                Nodes-join g' none pre (p ∷ ps)
                  (Prefix-update g p.addr (some np) none pre _ (omega (arith, free, split))
                    s.before)
                  (
                    (lp, (rw ((==_iff p.addr p.addr).1 refl) refl), links_p),
                    Nodes-update g p.addr (some np) (some p.addr) ps free_ps rest,
                  );
            fixed = (refl, refl, refl);
            tail =
                s.tail
                ∙ last_addr-append none pre (n ∷ (p ∷ ps))
                ∙ sym (last_addr-append none pre (p ∷ ps));
          },
        )

    pub unlink_backward-IsUnlinked :
        (post : Cells K)
        → All (λ c. 0 < c.height) post
        → IsCut post
        → (g' : Heap K) × (z' : Zskiplist) × (unlink_backward g z n.addr ≡ some (g', z'))
          × IsUnlinked post g' z'
    unlink_backward-IsUnlinked [] t s = unlink_last s
    unlink_backward-IsUnlinked (p ∷ ps) t s = unlink_behind p ps t.0 s
