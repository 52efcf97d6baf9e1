-- ===== src/Skiplist.antt =====
-- struct/t_zset.c: the skip list of a sorted set, with the spans that give ranks.
-- A pointer is an address or, for NULL, `none`; the heap gives the node at an address. `none` as a
-- result is a fault: a read through NULL, of a level that a node does not have, of an array entry
-- that was not set, or a failed assertion. Lengths, ranks and spans stay below 2^32, so that no
-- `unsigned int` wraps. `fresh` is the address that `zmalloc` returns.
pub mod Links
pub mod Walking
pub mod Searching
pub mod Spots
pub mod Changing
pub mod Splicing
pub mod Ranking
pub mod Ordering
pub mod Finding
pub mod Raising
pub mod Placing
pub mod Growing
pub mod Linking
pub mod Fitting
pub mod Joining
pub mod Inserting
pub mod Deleting
mod Runs
use learnredis.Base.{
  ℕ, zero, suc, ◌+◌, ◌-◌, Bool, true, false, not, ◌&&◌, ◌||◌, Option, none, some, List, [], ◌∷◌,
  ltb, leb, ◌==◌, if◌then◌else◌, ◌>>=◌, update,
}

abbrev pub zskiplist_maxlevel : ℕ
zskiplist_maxlevel = 32

abbrev pub Pointer : Type 0
Pointer = Option ℕ

-- `zskiplistLevel`
pub record Level : Type 0 where
  pub forward : Pointer
  pub span : ℕ

-- `zskiplistNode`: its key is the score and the object, or `none` in the header, whose object is
-- NULL and whose score is never read. The node has the levels below `height`.
pub record Node {ℓ} (K : Type ℓ) : Type ℓ where
  pub key : Option K
  pub backward : Pointer
  pub height : ℕ
  pub level : ℕ → Level

abbrev pub Heap {ℓ} : Type ℓ → Type ℓ
Heap K = ℕ → Option (Node K)

-- `zskiplist`
pub record Zskiplist : Type 0 where
  pub header : ℕ
  pub tail : Pointer
  pub length : ℕ
  pub level : ℕ

-- Comparisons of scores, and of objects by `compareStringObjects` and `equalStringObjects`
pub record Comparing {ℓ} (D O : Type ℓ) : Type ℓ where
  pub less_score : D → D → Bool
  pub equal_score : D → D → Bool
  pub is_nan : D → Bool
  pub less_obj : O → O → Bool
  pub less_eq_obj : O → O → Bool
  pub equal_obj : O → O → Bool

-- The array `update` and `rank` of a search; an entry is `none` before it is set.
pub record Route : Type 0 where
  pub nodes : ℕ → Pointer
  pub rank : ℕ → Option ℕ

abbrev pub unset : Route
unset = record { nodes = λ i. none; rank = λ i. none }

abbrev pub set_path : Route → ℕ → ℕ → ℕ → Route
set_path path i x r = record {
  nodes = update path.nodes i (some x);
  rank = update path.rank i (some r);
}

-- The test of a loop along a level, by the rank that the next node has and by its key
abbrev pub Test {ℓ} : Type ℓ → Type ℓ
Test K = ℕ → K → Bool

module _ {ℓ} {K : Type ℓ} where
  -- `x->level[i]`
  unfoldable pub get_level : Heap K → ℕ → ℕ → Option Level
  get_level h x i = do n ← h x; if ltb i n.height then some (n.level i) else none

  unfoldable pub set_level : Heap K → ℕ → ℕ → Level → Option (Heap K)
  set_level h x i l = do
    n ← h x
    if ltb i n.height
        then some (update h x (some (record n { level = update n.level i l })))
        else none

  unfoldable pub set_backward : Heap K → Pointer → Pointer → Option (Heap K)
  set_backward h none b = none
  set_backward h (some x) b = do n ← h x; some (update h x (some (record n { backward = b })))

  -- `zslCreateNode`; the levels that C leaves unset are written before they are read.
  abbrev pub zsl_create_node : ℕ → Option K → Node K
  zsl_create_node height key = record {
    key = key;
    backward = none;
    height = height;
    level = λ i. record { forward = none; span = 0 };
  }

  unfoldable pub zsl_create : ℕ → Heap K → Heap K × Zskiplist
  zsl_create header h = (
    update h header (some (zsl_create_node zskiplist_maxlevel none)),
    record { header = header; tail = none; length = 0; level = 1 },
  )

  abbrev pub key_test : Test K → ℕ → Option (Node K) → Option Bool
  key_test go r none = none
  key_test go r (some n) = n.key >>= λ k. some (go r k)

  -- The loop along level `i` from the node `x` of rank `r`
  pub walk : ℕ → Test K → Heap K → ℕ → ℕ → ℕ → Option (ℕ × ℕ)
  walk zero go h i x r = none
  walk (suc n) go h i x r = get_level h x i >>= λ l. elim l.forward [
    | none ↦ some (x, r)
    | some f ↦ key_test go (r + l.span) (h f) >>= λ b. elim b [
      | true ↦ walk n go h i f (r + l.span)
      | false ↦ some (x, r)
    ]
  ]

  -- The loop over the levels below `i`, from the top; `fuel` bounds each walk.
  pub descend : ℕ → ℕ → Test K → Heap K → ℕ → ℕ → Route → Option Route
  descend zero fuel go h x r path = some path
  descend (suc i) fuel go h x r path = do
    w ← walk fuel go h i x r
    descend i fuel go h w.0 w.1 (set_path path i w.0 w.1)

  -- No walk is longer than the list.
  abbrev pub search : Test K → Heap K → Zskiplist → Option Route
  search go h z = descend z.level (z.length + 1) go h z.header 0 unset

  -- The levels `i` to `i + n - 1` that the list has not had yet: they start at the header.
  pub raise_loop : ℕ → ℕ → Heap K → Zskiplist → Route → Option (Heap K × Route)
  raise_loop zero i h z path = some (h, path)
  raise_loop (suc n) i h z path = do
    l ← get_level h z.header i
    h' ← set_level h z.header i (record l { span = z.length })
    raise_loop n (i + 1) h' z (set_path path i z.header 0)

  abbrev pub raise : ℕ → Heap K → Zskiplist → Route → Option (Heap K × Zskiplist × Route)
  raise level h z path =
      if ltb z.level level
      then (do
        r ← raise_loop (level - z.level) z.level h z path
        some (r.0, record z { level = level }, r.1))
      else some (h, z, path)

  -- The node `x` of rank `rank[0] + 1` goes behind `update[i]` at level `i`.
  abbrev pub splice_at : Heap K → ℕ → Route → ℕ → Option (Heap K)
  splice_at h x path i = do
    u ← path.nodes i
    r0 ← path.rank 0
    r ← path.rank i
    l ← get_level h u i
    h' ← set_level h x i (record { forward = l.forward; span = l.span - (r0 - r) })
    set_level h' u i (record { forward = some x; span = r0 - r + 1 })

  -- `for (i = 0; i < level; i++)`, the last rounds first to last: `n` rounds from `i` on
  pub splice_loop : ℕ → ℕ → Heap K → ℕ → Route → Option (Heap K)
  splice_loop zero i h x path = some h
  splice_loop (suc n) i h x path = do h' ← splice_at h x path i; splice_loop n (i + 1) h' x path

  -- `update[i]->level[i].span++`
  pub stretch_loop : ℕ → ℕ → Heap K → Route → Option (Heap K)
  stretch_loop zero i h path = some h
  stretch_loop (suc n) i h path = do
    u ← path.nodes i
    l ← get_level h u i
    h' ← set_level h u i (record l { span = l.span + 1 })
    stretch_loop n (i + 1) h' path

  -- The end of `zslInsert`: the backward pointers, the tail and the length
  unfoldable pub link_backward : Heap K → Zskiplist → ℕ → Route → Option (Heap K × Zskiplist)
  link_backward h z x path = do
    u ← path.nodes 0
    h1 ← set_backward h (some x) (if u == z.header then none else some u)
    l ← get_level h1 x 0
    elim l.forward [
      | none ↦ some (h1, record z { tail = some x; length = z.length + 1 })
      | some f ↦ do
        h2 ← set_backward h1 (some f) (some x)
        some (h2, record z { length = z.length + 1 })
    ]

  -- `zslInsert` behind its search, with the level of the new node
  unfoldable pub insert_at : ℕ → ℕ → K → Heap K → Zskiplist → Route → Option (Heap K × Zskiplist)
  insert_at fresh level key h z path = do
    (h1, z1, path1) ← raise level h z path
    h2 ← splice_loop level 0 (update h1 fresh (some (zsl_create_node level (some key)))) fresh path1
    h3 ← stretch_loop (z1.level - level) level h2 path1
    link_backward h3 z1 fresh path1

-- `zslRandomLevel`, after `k` draws in a row that fall below a quarter
unfoldable pub zsl_random_level : ℕ → ℕ
zsl_random_level k = if ltb (k + 1) zskiplist_maxlevel then k + 1 else zskiplist_maxlevel

module _ {ℓ} {D O : Type ℓ} (o : Comparing D O) where
  -- The order of the list: by score, and by object where the scores are equal
  abbrev pub less : D × O → D × O → Bool
  less (s, a) (t, b) = o.less_score s t || (o.equal_score s t && o.less_obj a b)

  -- `zslInsert`; its result is the node at `fresh`.
  unfoldable pub zsl_insert :
      ℕ → ℕ → D → O → Heap (D × O) → Zskiplist → Option (Heap (D × O) × Zskiplist)
  zsl_insert fresh draws score obj h z = if o.is_nan score then none else (do
    path ← search (λ r k. less k (score, obj)) h z
    insert_at fresh (zsl_random_level draws) (score, obj) h z path)

  -- Whether a node, which may be the header, has the object
  unfoldable pub has_obj : O → Option (D × O) → Bool
  has_obj obj none = false
  has_obj obj (some k) = o.equal_obj k.1 obj

  -- The loop of `zslGetRank` over the levels
  pub rank_loop : ℕ → ℕ → Test (D × O) → O → Heap (D × O) → ℕ → ℕ → Option ℕ
  rank_loop zero fuel go obj h x r = some 0
  rank_loop (suc i) fuel go obj h x r = do
    w ← walk fuel go h i x r
    n ← h w.0
    let rest = rank_loop i fuel go obj h w.0 w.1
    if has_obj obj n.key then some w.1 else rest

  -- Up to the given key, which it includes
  abbrev pub less_eq : D × O → D × O → Bool
  less_eq (s, a) (t, b) = o.less_score s t || (o.equal_score s t && o.less_eq_obj a b)

  unfoldable pub zsl_get_rank : D → O → Heap (D × O) → Zskiplist → Option ℕ
  zsl_get_rank score obj h z =
      rank_loop z.level (z.length + 1) (λ r k. less_eq k (score, obj)) obj h z.header 0

-- The loop of `zslGetElementByRank`
pub element_loop {ℓ} : {K : Type ℓ} → ℕ → ℕ → ℕ → Heap K → ℕ → ℕ → Option Pointer
element_loop zero fuel rank h x r = some none
element_loop (suc i) fuel rank h x r = do
  w ← walk fuel (λ r' k. leb r' rank) h i x r
  let rest = element_loop i fuel rank h w.0 w.1
  if w.1 == rank then some (some w.0) else rest

unfoldable pub zsl_get_element_by_rank {ℓ} : {K : Type ℓ} → ℕ → Heap K → Zskiplist → Option Pointer
zsl_get_element_by_rank rank h z = element_loop z.level (z.length + 1) rank h z.header 0
