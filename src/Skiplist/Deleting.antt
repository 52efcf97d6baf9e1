-- ===== src/Skiplist/Deleting.antt =====
-- zslDeleteNode and zslDelete of struct/t_zset.c.
pub mod Shrinking
pub mod Backward
pub mod Unlinking
pub mod Lowering
pub mod Removing
use learnredis.Base.{
  ℕ, zero, suc, ◌+◌, ◌-◌, Bool, true, false, ◌&&◌, Option, none, some, ◌==◌, if◌then◌else◌, is_some,
  ◌>>=◌, update,
}
use learnredis.Skiplist.{
  Pointer, Level, Node, Heap, Zskiplist, Comparing, Route, get_level, set_level, set_backward,
  search, less,
}

unfoldable pub points_to : Pointer → ℕ → Bool
points_to none x = false
points_to (some a) x = a == x

module _ {ℓ} {K : Type ℓ} where
  -- The level of `update[i]` when the node `x` goes; the 1 that C takes off a span of 0 comes back
  -- with the other summand.
  abbrev pub shrunk : Heap K → ℕ → ℕ → Level → Option Level
  shrunk h x i l =
      if points_to l.forward x
      then (do
        lx ← get_level h x i
        some (record { forward = lx.forward; span = l.span + lx.span - 1 }))
      else some (record l { span = l.span - 1 })

  -- The loop of `zslDeleteNode` over the levels: `n` rounds from `i` on
  unfoldable pub delete_loop : ℕ → ℕ → Heap K → ℕ → Route → Option (Heap K)
  delete_loop zero i h x path = some h
  delete_loop (suc n) i h x path = do
    u ← path.nodes i
    l ← get_level h u i
    l' ← shrunk h x i l
    h' ← set_level h u i l'
    delete_loop n (i + 1) h' x path

  -- The pointer back of the next node, or the tail
  unfoldable pub unlink_backward : Heap K → Zskiplist → ℕ → Option (Heap K × Zskiplist)
  unlink_backward h z x = do
    n ← h x
    l ← get_level h x 0
    elim l.forward [
      | none ↦ some (h, record z { tail = n.backward })
      | some f ↦ do h' ← set_backward h (some f) n.backward; some (h', z)
    ]

  -- `while (zsl->level > 1 && ...)`
  unfoldable pub lower_loop : ℕ → Heap K → ℕ → Option ℕ
  lower_loop zero h header = some 0
  lower_loop (suc zero) h header = some 1
  lower_loop (suc (suc i)) h header = do
    l ← get_level h header (suc i)
    let rest = lower_loop (suc i) h header
    if is_some l.forward then some (suc (suc i)) else rest

  unfoldable pub zsl_delete_node : Heap K → Zskiplist → ℕ → Route → Option (Heap K × Zskiplist)
  zsl_delete_node h z x path = do
    h1 ← delete_loop z.level 0 h x path
    (h2, z2) ← unlink_backward h1 z x
    level ← lower_loop z2.level h2 z2.header
    some (h2, record z2 { level = level; length = z2.length - 1 })

  -- The node is unlinked and freed.
  unfoldable pub remove_node : Heap K → Zskiplist → ℕ → Route → Option (Heap K × Zskiplist × Bool)
  remove_node h z x path = do
    (h', z') ← zsl_delete_node h z x path
    some (update h' x none, z', true)

module _ {ℓ} {D O : Type ℓ} (o : Comparing D O) where
  -- Whether a node has the score and the object
  unfoldable pub has_key : D × O → Option (D × O) → Bool
  has_key k none = false
  has_key (score, obj) (some (s, a)) = o.equal_score score s && o.equal_obj a obj

  -- `zslDelete`, which frees the node and says whether it found it
  unfoldable pub zsl_delete :
      D → O → Heap (D × O) → Zskiplist → Option (Heap (D × O) × Zskiplist × Bool)
  zsl_delete score obj h z = do
    path ← search (λ r k. less o k (score, obj)) h z
    u ← path.nodes 0
    l ← get_level h u 0
    elim l.forward [
      | none ↦ some (h, z, false)
      | some x ↦ do
        n ← h x
        if has_key (score, obj) n.key then remove_node h z x path else some (h, z, false)
    ]
