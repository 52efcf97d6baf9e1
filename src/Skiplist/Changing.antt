-- ===== src/Skiplist/Changing.antt =====
-- A node's level read and written in a skip list of struct/t_zset.c, and a loop that changes one
-- level of one node in each round.
use learnredis.Base.{
  ℕ, ◌+◌, ◌≡◌, refl, sym, ap, ◌∙◌, inl, inr, true, false, ◌&&◌, Option, none, some, arith, ltb,
  ◌==◌, ==_iff, if◌then◌else◌, ◌>>=◌, Bool-cases, update,
}
use learnredis.Skiplist.{Level, Node, Heap, get_level, set_level}
use learnredis.Skiplist.Links.{Cells}
use learnredis.Skiplist.Walking.{spot}

or_else {ℓ} : {A : Type ℓ} → A → Option A → A
or_else a none = a
or_else a (some b) = b

pub some_inj {ℓ} : {A : Type ℓ} → {a b : A} → some a ≡ some b → a ≡ b
unfolding or_else
some_inj {A} {a} {b} e = ap (or_else a) e

ltb_next : (i : ℕ) → ltb i (i + 1) ≡ true
ltb_next i = ground arith

ltb_same : (i : ℕ) → ltb i i ≡ false
ltb_same i = ground arith

ltb_before : (i j : ℕ) → (j == i) ≡ false → ltb j (i + 1) ≡ ltb j i
ltb_before i j e = ground (arith, e)

module _ {ℓ} {K : Type ℓ} where
  level_inv :
      (o : Option (Node K)) (i : ℕ) (l : Level)
      → (o >>= λ n. if ltb i n.height then some (n.level i) else none) ≡ some l
      → (n : Node K) × (o ≡ some n) × (ltb i n.height ≡ true) × (n.level i ≡ l)
  level_inv none i l e = let clash : none ≡ some l = e in cc
  level_inv (some n) i l e = elim (Bool-cases (ltb i n.height)) [
    | inl t ↦ (n, refl, t, some_inj (rw t at e))
    | inr f ↦ let clash : none ≡ some l = rw f at e in cc
  ]

  pub get_level_inv :
      (h : Heap K) (x i : ℕ) (l : Level)
      → get_level h x i ≡ some l
      → (n : Node K) × (h x ≡ some n) × (ltb i n.height ≡ true) × (n.level i ≡ l)
  unfolding get_level
  get_level_inv h x i l e = level_inv (h x) i l e

  pub get_level_at :
      (h : Heap K) (x i : ℕ) (n : Node K)
      → h x ≡ some n
      → ltb i n.height ≡ true
      → get_level h x i ≡ some (n.level i)
  unfolding get_level
  get_level_at h x i n e f = rw (e, f) refl

  pub set_level_at :
      (h : Heap K) (x i : ℕ) (n : Node K) (l : Level)
      → h x ≡ some n
      → ltb i n.height ≡ true
      → set_level h x i l ≡ some (update h x (some (record n { level = update n.level i l })))
  unfolding set_level
  set_level_at h x i n l e f = rw (e, f) refl

  module _ (h : Heap K) (header : ℕ) (pre : Cells K) (fresh : ℕ) (changed : ℕ → Level → Level) where
    -- The old nodes in the heap `g` after the rounds for the levels below `i`
    unfoldable pub Others : ℕ → Heap K → Type ℓ
    Others i g =
        (a : ℕ) (n : Node K)
        → (a == fresh) ≡ false
        → h a ≡ some n
        → (level' : ℕ → Level) × (g a ≡ some (record n { level = level' }))
          × ((j : ℕ)
              → level' j ≡ (
                  if ltb j i && (a == spot j header pre) then changed j (n.level j) else n.level j))

    pub touch-Others :
        (i : ℕ) (g : Heap K) (n : Node K) (lu : ℕ → Level)
        → h (spot i header pre) ≡ some n
        → ((j : ℕ)
            → lu j ≡ (
                if ltb j i && (spot i header pre == spot j header pre)
                then changed j (n.level j)
                else n.level j))
        → Others i g
        → Others (i + 1) (
            update g
              (spot i header pre)
              (some (record n { level = update lu i (changed i (n.level i)) })))
    unfolding Others
    touch-Others i g n lu at same s a n' apart at' = elim (Bool-cases (a == spot i header pre)) [
      | inl e ↦
          let here : a ≡ spot i header pre = (==_iff a (spot i header pre)).0 e in
          let one : n ≡ n' = some_inj (sym at ∙ ap h (sym here) ∙ at') in
          rw (sym one, e)
            (
              update lu i (changed i (n.level i)),
              refl,
              λ j. elim (Bool-cases (j == i)) [
                | inl f ↦
                    let q : j ≡ i = (==_iff j i).0 f in
                    rw (q, (==_iff i i).1 refl, ltb_next i, e) refl
                | inr f ↦ rw (f, ltb_before i j f, here) (same j)
              ],
            )
      | inr e ↦
          let (l', g', k) = s a n' apart at' in
          (
            l',
            rw e g',
            λ j. elim (Bool-cases (j == i)) [
              | inl f ↦
                  let q : j ≡ i = (==_iff j i).0 f in k j ∙ (rw (q, ltb_next i, ltb_same i, e) refl)
              | inr f ↦ rw (ltb_before i j f) (k j)
            ],
          )
    ]

    -- A node is not the new one.
    pub old-Others :
        (i : ℕ) (g : Heap K) (n : Node K) → Others i g → Others i (update g fresh (some n))
    unfolding Others
    old-Others i g n s a n' apart at = rw apart (s a n' apart at)

    pub Others-at :
        (i : ℕ) (g : Heap K) (a : ℕ) (n : Node K)
        → (a == fresh) ≡ false
        → h a ≡ some n
        → Others i g
        → (level' : ℕ → Level) × (g a ≡ some (record n { level = level' }))
          × ((j : ℕ)
              → level' j ≡ (
                  if ltb j i && (a == spot j header pre) then changed j (n.level j) else n.level j))
    unfolding Others
    Others-at i g a n apart at s = s a n apart at

    pub spot-level :
        (i : ℕ) (lu : ℕ → Level) (n : Node K) (l : Level)
        → n.level i ≡ l
        → ((j : ℕ)
            → lu j ≡ (
                if ltb j i && (spot i header pre == spot j header pre)
                then changed j (n.level j)
                else n.level j))
        → lu i ≡ l
    spot-level i lu n l e same = same i ∙ (rw (ltb_same i) e)
