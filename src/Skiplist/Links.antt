-- ===== src/Skiplist/Links.antt =====
-- What the nodes of a skip list of struct/t_zset.c hold for a list of keys and heights: at each
-- level the next node that is high enough, and how far it is.
use learnredis.Base.{
  ℕ, suc, ◌+◌, ◌≤◌, ◌<◌, ◌≡◌, refl, true, false, none, some, List, [], ◌∷◌, ◌++◌, arith, length,
  ltb, ◌==◌, if◌then◌else◌, All,
}
use learnredis.Skiplist.{Pointer, Level, Heap, Zskiplist, zskiplist_maxlevel}

-- A node by its address, key and number of levels
pub record Cell {ℓ} (K : Type ℓ) : Type ℓ where
  pub addr : ℕ
  pub key : K
  pub height : ℕ

abbrev pub Cells {ℓ} : Type ℓ → Type ℓ
Cells K = List (Cell K)

module _ {ℓ} {K : Type ℓ} where
  -- The level `i` of a node before the nodes `xs`; behind the last node the span counts to the end.
  unfoldable pub link : ℕ → Cells K → Level
  link i [] = record { forward = none; span = 0 }
  link i (n ∷ xs) =
      if ltb i n.height
      then record { forward = some n.addr; span = 1 }
      else record { forward = (link i xs).forward; span = suc ((link i xs).span) }

  unfoldable pub last_addr : Pointer → Cells K → Pointer
  last_addr p [] = p
  last_addr p (n ∷ xs) = last_addr (some n.addr) xs

  unfoldable pub occurs : ℕ → Cells K → ℕ
  occurs a [] = 0
  occurs a (n ∷ xs) = (if a == n.addr then 1 else 0) + occurs a xs

  -- A node and its levels before the nodes `xs`
  unfoldable pub Stored : Heap K → Cell K → Pointer → Cells K → Type ℓ
  Stored h n back xs =
      (level : ℕ → Level) × (h n.addr
        ≡ some (record { key = some n.key; backward = back; height = n.height; level = level }))
      × ((i : ℕ) → i < n.height → level i ≡ link i xs)

  unfoldable pub Nodes : Heap K → Pointer → Cells K → Type ℓ
  Nodes h back [] = Unit
  Nodes h back (n ∷ xs) = Stored h n back xs × Nodes h (some n.addr) xs

  -- The header before the nodes `xs`, of which the levels below `top` are in use
  unfoldable pub Headed : Heap K → ℕ → ℕ → Cells K → Type ℓ
  Headed h header top xs =
      (level : ℕ → Level) × (h header
        ≡ some (record { key = none; backward = none; height = zskiplist_maxlevel; level = level }))
      × ((i : ℕ) → i < top → level i ≡ link i xs)
      × ((i : ℕ) → top ≤ i → i < zskiplist_maxlevel → (level i).forward ≡ none)

  pub record IsSkiplist (h : Heap K) (z : Zskiplist) (xs : Cells K) : Type ℓ where
    pub header : Headed h z.header z.level xs
    pub nodes : Nodes h none xs
    pub tail : z.tail ≡ last_addr none xs
    pub length : z.length ≡ length xs
    pub heights : All (λ n. (0 < n.height) × (n.height ≤ z.level)) xs
    pub levels : (0 < z.level) × (z.level ≤ zskiplist_maxlevel)
    pub distinct : (a : ℕ) → occurs a xs + (if a == z.header then 1 else 0) ≤ 1

  pub link-high :
      (i : ℕ) (n : Cell K) (xs : Cells K)
      → ltb i n.height ≡ true
      → link i (n ∷ xs) ≡ record { forward = some n.addr; span = 1 }
  unfolding link
  link-high i n xs e = rw (e, link) refl

  pub link-low :
      (i : ℕ) (n : Cell K) (xs : Cells K)
      → ltb i n.height ≡ false
      → link i (n ∷ xs) ≡ record { forward = (link i xs).forward; span = suc ((link i xs).span) }
  unfolding link
  link-low i n xs e = rw (e, link) refl

  pub Nodes-split :
      (h : Heap K) (back : Pointer) (xs ys : Cells K)
      → Nodes h back (xs ++ ys)
      → Nodes h (last_addr back xs) ys
  unfolding Nodes last_addr
  Nodes-split h back [] ys s = s
  Nodes-split h back (n ∷ xs) ys s = Nodes-split h (some n.addr) xs ys s.1

  pub occurs-append : (a : ℕ) (xs ys : Cells K) → occurs a (xs ++ ys) ≡ occurs a xs + occurs a ys
  unfolding occurs
  occurs-append a [] ys = omega arith
  occurs-append a (n ∷ xs) ys = omega (arith, occurs-append a xs ys)

  pub All-at :
      (P : Cell K → Type 0) (pre : Cells K) (n : Cell K) (post : Cells K)
      → All P (pre ++ (n ∷ post))
      → P n
  All-at P [] n post a = a.0
  All-at P (m ∷ pre) n post a = All-at P pre n post a.1
