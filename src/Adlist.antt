-- ===== src/Adlist.antt =====
-- struct/adlist.c and struct/adlist.h: doubly linked lists.
-- A pointer is an address or, for NULL, `none`; the heap gives the node at an address. The handle is
-- the `list` itself. A function that reads through a pointer with no node behind it faults, which is
-- `none`. Where C allocates, `fresh` is what `zmalloc` returns. The values are what the `void`
-- pointers stand for; releasing one, which `list->free` does, does not touch the nodes.
pub mod Segments
pub mod Linking
pub mod Editing
pub mod Inserting
pub mod Ends
pub mod Walking
mod Runs
use learnredis.Base.{
  ℕ, zero, suc, ◌+◌, ◌-◌, Bool, true, false, not, ◌&&◌, Option, none, some, List, [], ◌∷◌, ◌==◌,
  leb, if◌then◌else◌, ◌>>=◌, update,
}
use learnredis.Base.Int.{ℤ, pos, negsuc}

abbrev pub Pointer : Type 0
Pointer = Option ℕ

-- `listNode`
pub record Node {ℓ} (V : Type ℓ) : Type ℓ where
  pub prev : Pointer
  pub next : Pointer
  pub value : V

abbrev pub Heap {ℓ} : Type ℓ → Type ℓ
Heap V = ℕ → Option (Node V)

-- `list`; the methods are arguments of the functions that call them.
pub record Handle : Type 0 where
  pub head : Pointer
  pub tail : Pointer
  pub len : ℕ

-- `AL_START_HEAD` and `AL_START_TAIL`
pub data Direction : Type 0 where
  start_head start_tail : Direction

-- `listIter`
pub record ListIter : Type 0 where
  pub next : Pointer
  pub direction : Direction

unfoldable pub same_pointer : Pointer → Pointer → Bool
same_pointer none none = true
same_pointer (some a) (some b) = a == b
same_pointer none (some b) = false
same_pointer (some a) none = false

-- `listCreate`
abbrev pub list_create : Handle
list_create = record { head = none; tail = none; len = 0 }

-- `listGetIterator`, and by it `listRewind` and `listRewindTail`
unfoldable pub list_get_iterator : Handle → Direction → ListIter
list_get_iterator l start_head = record { next = l.head; direction = start_head }
list_get_iterator l start_tail = record { next = l.tail; direction = start_tail }

module _ {ℓ} {V : Type ℓ} where
  unfoldable pub load : Heap V → Pointer → Option (Node V)
  load h none = none
  load h (some a) = h a

  abbrev pub store : Heap V → ℕ → Node V → Heap V
  store h a n = update h a (some n)

  unfoldable pub set_prev : Heap V → Pointer → Pointer → Option (Heap V)
  set_prev h none q = none
  set_prev h (some a) q = do n ← h a; some (store h a (record n { prev = q }))

  unfoldable pub set_next : Heap V → Pointer → Pointer → Option (Heap V)
  set_next h none q = none
  set_next h (some a) q = do n ← h a; some (store h a (record n { next = q }))

  -- `zfree(node)`
  abbrev pub release : Heap V → ℕ → Heap V
  release h a = update h a none

  -- The Boolean is false where C returns NULL because there is no memory.
  unfoldable pub list_add_node_head :
      Pointer → Heap V → Handle → V → Option (Heap V × Handle × Bool)
  list_add_node_head none h l v = some (h, l, false)
  list_add_node_head (some a) h l v =
      if l.len == 0
      then some (
        store h a (record { prev = none; next = none; value = v }),
        record { head = some a; tail = some a; len = l.len + 1 },
        true,
      )
      else (do
        h' ← set_prev (store h a (record { prev = none; next = l.head; value = v })) l.head (some a)
        some (h', record l { head = some a; len = l.len + 1 }, true))

  unfoldable pub list_add_node_tail :
      Pointer → Heap V → Handle → V → Option (Heap V × Handle × Bool)
  list_add_node_tail none h l v = some (h, l, false)
  list_add_node_tail (some a) h l v =
      if l.len == 0
      then some (
        store h a (record { prev = none; next = none; value = v }),
        record { head = some a; tail = some a; len = l.len + 1 },
        true,
      )
      else (do
        h' ← set_next (store h a (record { prev = l.tail; next = none; value = v })) l.tail (some a)
        some (h', record l { tail = some a; len = l.len + 1 }, true))

  -- `if (p != NULL) p->next = q`
  unfoldable pub set_next_if : Heap V → Pointer → Pointer → Option (Heap V)
  set_next_if h none q = some h
  set_next_if h (some a) q = set_next h (some a) q

  unfoldable pub set_prev_if : Heap V → Pointer → Pointer → Option (Heap V)
  set_prev_if h none q = some h
  set_prev_if h (some a) q = set_prev h (some a) q

  abbrev pub insert_after : ℕ → Handle → Pointer → Node V → V → Node V × Handle
  insert_after a l old_node o v = (
    record { prev = old_node; next = o.next; value = v },
    if same_pointer l.tail old_node then record l { tail = some a } else l,
  )

  abbrev pub insert_before : ℕ → Handle → Pointer → Node V → V → Node V × Handle
  insert_before a l old_node o v = (
    record { prev = o.prev; next = old_node; value = v },
    if same_pointer l.head old_node then record l { head = some a } else l,
  )

  -- The part of `listInsertNode` below its `if (after)`
  unfoldable pub link_node : Heap V → ℕ → Node V → Handle → Option (Heap V × Handle × Bool)
  link_node h a node l = do
    h1 ← set_next_if (store h a node) node.prev (some a)
    h2 ← set_prev_if h1 node.next (some a)
    some (h2, record l { len = l.len + 1 }, true)

  unfoldable pub list_insert_node :
      Pointer → Heap V → Handle → Pointer → V → Bool → Option (Heap V × Handle × Bool)
  list_insert_node none h l old_node v after = some (h, l, false)
  list_insert_node (some a) h l old_node v after = do
    o ← load h old_node
    let r = if after then insert_after a l old_node o v else insert_before a l old_node o v
    link_node h a r.0 r.1

  -- `if (p) p->next = q; else list->head = q;`
  unfoldable pub set_next_or_head : Heap V → Handle → Pointer → Pointer → Option (Heap V × Handle)
  set_next_or_head h l none q = some (h, record l { head = q })
  set_next_or_head h l (some a) q = do h' ← set_next h (some a) q; some (h', l)

  unfoldable pub set_prev_or_tail : Heap V → Handle → Pointer → Pointer → Option (Heap V × Handle)
  set_prev_or_tail h l none q = some (h, record l { tail = q })
  set_prev_or_tail h l (some a) q = do h' ← set_prev h (some a) q; some (h', l)

  unfoldable pub list_del_node : Heap V → Handle → ℕ → Option (Heap V × Handle)
  list_del_node h l a = do
    n ← h a
    (h1, l1) ← set_next_or_head h l n.prev n.next
    (h2, l2) ← set_prev_or_tail h1 l1 n.next n.prev
    some (release h2 a, record l2 { len = l2.len - 1 })

  unfoldable pub follow : Direction → Node V → Pointer
  follow start_head n = n.next
  follow start_tail n = n.prev

  -- The node that `listNext` returns, and the iterator after it
  unfoldable pub list_next : Heap V → ListIter → Option (Pointer × ListIter)
  list_next h iter = elim iter.next [
    | none ↦ some (none, iter)
    | some a ↦ do n ← h a; some (some a, record iter { next = follow iter.direction n })
  ]

  -- The loop of `listSearchKey`, with the test of a node's value
  pub search_key_loop : (V → Bool) → ℕ → Heap V → ListIter → Option Pointer
  search_key_loop matches zero h iter = none
  search_key_loop matches (suc n) h iter = do
    (node, iter') ← list_next h iter
    elim node [
      | none ↦ some none
      | some a ↦ do
        o ← h a
        elim (matches o.value) [ true ↦ some (some a) | false ↦ search_key_loop matches n h iter' ]
    ]

  -- Each round goes on by a node, and the last one meets NULL.
  unfoldable pub list_search_key : (V → Bool) → Heap V → Handle → Option Pointer
  list_search_key matches h l =
      search_key_loop matches (l.len + 1) h (list_get_iterator l start_head)

  -- `while(index-- && n) n = n->next;`, or `n->prev` from the tail; the negation of an index is
  -- computed without overflow, which LONG_MIN would have.
  pub index_loop : ℕ → Direction → Heap V → Pointer → Option Pointer
  index_loop zero d h n = some n
  index_loop (suc index) d h none = some none
  index_loop (suc index) d h (some a) = do n ← h a; index_loop index d h (follow d n)

  unfoldable pub list_index : Heap V → Handle → ℤ → Option Pointer
  list_index h l (pos index) = index_loop index start_head h l.head
  list_index h l (negsuc index) = index_loop index start_tail h l.tail

  -- The loop of `listRelease`, with `n` nodes to go
  pub release_loop : ℕ → Heap V → Pointer → Option (Heap V)
  release_loop zero h current = some h
  release_loop (suc n) h none = none
  release_loop (suc n) h (some a) = do o ← h a; release_loop n (release h a) o.next

  unfoldable pub list_release : Heap V → Handle → Option (Heap V)
  list_release h l = release_loop l.len h l.head

  unfoldable pub list_rotate : Heap V → Handle → Option (Heap V × Handle)
  list_rotate h l = if leb l.len 1 then some (h, l) else (do
    t ← load h l.tail
    h1 ← set_next h t.prev none
    h2 ← set_prev h1 l.head l.tail
    h3 ← set_prev h2 l.tail none
    h4 ← set_next h3 l.tail l.head
    some (h4, record l { head = l.tail; tail = t.prev }))
