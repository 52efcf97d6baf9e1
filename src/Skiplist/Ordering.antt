-- ===== src/Skiplist/Ordering.antt =====
-- The order of the keys of a skip list of struct/t_zset.c, and the list that zslInsert makes.
use learnredis.Base.{
  ◌≡◌, refl, sym, ap, ◌∙◌, inl, inr, true, false, [], ◌∷◌, ◌++◌, if◌then◌else◌, Bool-cases, All,
}
use learnredis.Skiplist.{Comparing, less, less_eq}
use learnredis.Skiplist.Links.{All-at, Cell, Cells}

module _ {ℓ} {D O : Type ℓ} (o : Comparing D O) where
  abbrev pub IsNumber : D × O → Type 0
  IsNumber k = o.is_nan k.0 ≡ false

  -- What the comparisons of numbers and of strings give together; `total` is about different objects,
  -- since the scores 0 and -0 are equal.
  pub record IsOrder : Type ℓ where
    pub trans : (a b c : D × O) → less o a b ≡ true → less o b c ≡ true → less o a c ≡ true
    pub total :
        (a b : D × O)
        → IsNumber a
        → IsNumber b
        → o.equal_obj a.1 b.1 ≡ false
        → less o a b ≡ false
        → less o b a ≡ true
    pub equal_score_refl : (s : D) → o.is_nan s ≡ false → o.equal_score s s ≡ true
    pub equal_refl : (a : O) → o.equal_obj a a ≡ true
    pub less_eq_trans :
        (a b c : D × O) → less o a b ≡ true → less_eq o b c ≡ true → less_eq o a c ≡ true
    pub less_eq_refl : (a : D × O) → IsNumber a → less_eq o a a ≡ true
    pub less_eq-less : (a b : D × O) → less o a b ≡ true → less_eq o a b ≡ true
    pub less_eq-more : (a b : D × O) → less o a b ≡ true → less_eq o b a ≡ false

  -- Every node has a lower key than all behind it.
  unfoldable pub IsSorted : Cells (D × O) → Type 0
  IsSorted [] = Unit
  IsSorted (n ∷ xs) = All (λ m. less o n.key m.key ≡ true) xs × IsSorted xs

  -- The node goes behind those of lower keys.
  unfoldable pub insert_cell : Cell (D × O) → Cells (D × O) → Cells (D × O)
  insert_cell n [] = n ∷ []
  insert_cell n (m ∷ xs) =
      let rest = insert_cell n xs in if less o m.key n.key then m ∷ rest else n ∷ (m ∷ xs)

  pub IsSorted-before :
      (pre : Cells (D × O)) (n : Cell (D × O)) (post : Cells (D × O))
      → IsSorted (pre ++ (n ∷ post))
      → All (λ m. less o m.key n.key ≡ true) pre
  unfolding IsSorted
  IsSorted-before [] n post s = tt
  IsSorted-before (m ∷ pre) n post s =
      (All-at (λ c. less o m.key c.key ≡ true) pre n post s.0, IsSorted-before pre n post s.1)

  pub IsSorted-behind :
      (pre : Cells (D × O)) (n : Cell (D × O)) (post : Cells (D × O))
      → IsSorted (pre ++ (n ∷ post))
      → All (λ m. less o n.key m.key ≡ true) post
  unfolding IsSorted
  IsSorted-behind [] n post s = s.0
  IsSorted-behind (m ∷ pre) n post s = IsSorted-behind pre n post s.1

  All-below :
      (n m : Cell (D × O)) (xs : Cells (D × O))
      → IsOrder
      → less o n.key m.key ≡ true
      → All (λ c. less o m.key c.key ≡ true) xs
      → All (λ c. less o n.key c.key ≡ true) xs
  All-below n m [] ord e a = tt
  All-below n m (c ∷ xs) ord e a = (ord.trans n.key m.key c.key e a.0, All-below n m xs ord e a.1)

  -- No node of `xs` has the object.
  abbrev pub Lacks : O → Cells (D × O) → Type 0
  Lacks obj xs = All (λ c. o.equal_obj c.key.1 obj ≡ false) xs

  abbrev pub Numbers : Cells (D × O) → Type 0
  Numbers xs = All (λ c. IsNumber c.key) xs

  All-insert :
      (P : Cell (D × O) → Type 0) (n : Cell (D × O)) (xs : Cells (D × O))
      → P n
      → All P xs
      → All P (insert_cell n xs)
  unfolding insert_cell
  All-insert P n [] p a = (p, tt)
  All-insert P n (m ∷ xs) p a = elim (Bool-cases (less o m.key n.key)) [
    | inl e ↦ rw e (a.0, All-insert P n xs p a.1)
    | inr e ↦ rw e (p, a)
  ]

  -- The list is sorted again.
  pub insert_cell-IsSorted :
      (n : Cell (D × O)) (xs : Cells (D × O))
      → IsOrder
      → IsNumber n.key
      → Numbers xs
      → Lacks n.key.1 xs
      → IsSorted xs
      → IsSorted (insert_cell n xs)
  unfolding insert_cell IsSorted
  insert_cell-IsSorted n [] ord i a l s = (tt, tt)
  insert_cell-IsSorted n (m ∷ xs) ord i a l s = elim (Bool-cases (less o m.key n.key)) [
    | inl e ↦ rw e (
      All-insert (λ c. less o m.key c.key ≡ true) n xs e s.0,
      insert_cell-IsSorted n xs ord i a.1 l.1 s.1,
    )
    | inr e ↦
        let less : less o n.key m.key ≡ true = ord.total m.key n.key a.0 i l.0 e in
        rw e ((less, All-below n m xs ord less s.0), s)
  ]

  pub All-above :
      (n m : Cell (D × O)) (xs : Cells (D × O))
      → IsOrder
      → less o m.key n.key ≡ false
      → All (λ c. less o m.key c.key ≡ true) xs
      → All (λ c. less o c.key n.key ≡ false) xs
  All-above n m [] ord e a = tt
  All-above n m (c ∷ xs) ord e a = elim (Bool-cases (less o c.key n.key)) [
    | inl f ↦ let clash : false ≡ true = sym e ∙ ord.trans m.key c.key n.key a.0 f in cc
    | inr f ↦ (f, All-above n m xs ord e a.1)
  ]

  -- Where the new node goes: behind the lower keys, before the others.
  pub insert_cell-split :
      (n : Cell (D × O)) (xs : Cells (D × O))
      → IsOrder
      → IsSorted xs
      → (pre post : Cells (D × O)) × (xs ≡ pre ++ post)
        × (insert_cell n xs ≡ pre ++ (n ∷ post))
        × All (λ c. less o c.key n.key ≡ true) pre
        × All (λ c. less o c.key n.key ≡ false) post
  unfolding insert_cell IsSorted
  insert_cell-split n [] ord s = ([], [], refl, refl, tt, tt)
  insert_cell-split n (m ∷ xs) ord s = elim (Bool-cases (less o m.key n.key)) [
    | inl e ↦
        let (pre, post, f, g, b, c) = insert_cell-split n xs ord s.1 in
        (m ∷ pre, post, ap (λ ys. m ∷ ys) f, rw e (ap (λ ys. m ∷ ys) g), (e, b), c)
    | inr e ↦ ([], m ∷ xs, refl, (rw e refl), tt, (e, All-above n m xs ord e s.0))
  ]

  up_to :
      (k : D × O) (m : Cell (D × O)) (xs : Cells (D × O))
      → IsOrder
      → less_eq o m.key k ≡ false
      → All (λ c. less o m.key c.key ≡ true) xs
      → All (λ c. less_eq o c.key k ≡ false) xs
  up_to k m [] ord e a = tt
  up_to k m (c ∷ xs) ord e a = elim (Bool-cases (less_eq o c.key k)) [
    | inl f ↦ let clash : false ≡ true = sym e ∙ ord.less_eq_trans m.key c.key k a.0 f in cc
    | inr f ↦ (f, up_to k m xs ord e a.1)
  ]

  -- The nodes up to a key come first.
  pub less_eq-split :
      (k : D × O) (xs : Cells (D × O))
      → IsOrder
      → IsSorted xs
      → (pre post : Cells (D × O)) × (xs ≡ pre ++ post)
        × All (λ c. less_eq o c.key k ≡ true) pre
        × All (λ c. less_eq o c.key k ≡ false) post
  unfolding IsSorted
  less_eq-split k [] ord s = ([], [], refl, tt, tt)
  less_eq-split k (m ∷ xs) ord s = elim (Bool-cases (less_eq o m.key k)) [
    | inl e ↦
        let (pre, post, f, b, c) = less_eq-split k xs ord s.1 in
        (m ∷ pre, post, ap (λ ys. m ∷ ys) f, (e, b), c)
    | inr e ↦ ([], m ∷ xs, refl, tt, (e, up_to k m xs ord e s.0))
  ]
