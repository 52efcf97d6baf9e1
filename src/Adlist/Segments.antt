-- ===== src/Adlist/Segments.antt =====
-- Stretches of a doubly linked list of struct/adlist.c: nodes that point to one another.
use learnredis.Base.{
  ℕ, ◌+◌, ◌≤◌, ◌≡◌, refl, sym, ap, ◌∙◌, ◌⊎◌, inl, inr, false, Option, none, some, List, [], ◌∷◌,
  ◌++◌, arith, length, ◌==◌, if◌then◌else◌, update,
}
use learnredis.Adlist.{Pointer, Node, Heap, Handle}

-- The nodes of a list, by address and value
abbrev pub Cells {ℓ} : Type ℓ → Type ℓ
Cells V = List (ℕ × V)

module _ {ℓ} {V : Type ℓ} where
  unfoldable pub first : Cells V → Pointer → Pointer
  first [] q = q
  first ((a, v) ∷ xs) q = some a

  unfoldable pub last : Pointer → Cells V → Pointer
  last p [] = p
  last p ((a, v) ∷ xs) = last (some a) xs

  unfoldable pub occurs : ℕ → Cells V → ℕ
  occurs a [] = 0
  occurs a ((b, v) ∷ xs) = (if a == b then 1 else 0) + occurs a xs

  -- A stretch between the nodes at `p` and `q`
  unfoldable pub Linked : Heap V → Pointer → Cells V → Pointer → Type ℓ
  Linked h p [] q = Unit
  Linked h p ((a, v) ∷ xs) q =
      (h a ≡ some (record { prev = p; next = first xs q; value = v })) × Linked h (some a) xs q

  -- A whole list: its nodes are distinct, and the handle knows its ends and its length.
  pub record IsList (h : Heap V) (l : Handle) (xs : Cells V) : Type ℓ where
    pub linked : Linked h none xs none
    pub head : l.head ≡ first xs none
    pub tail : l.tail ≡ last none xs
    pub len : l.len ≡ length xs
    pub distinct : (a : ℕ) → occurs a xs ≤ 1

  pub first-append : (xs ys : Cells V) (q : Pointer) → first (xs ++ ys) q ≡ first xs (first ys q)
  unfolding first
  first-append [] ys q = refl
  first-append ((a, v) ∷ xs) ys q = refl

  pub last-append : (p : Pointer) (xs ys : Cells V) → last p (xs ++ ys) ≡ last (last p xs) ys
  unfolding last
  last-append p [] ys = refl
  last-append p ((a, v) ∷ xs) ys = last-append (some a) xs ys

  pub occurs-append : (a : ℕ) (xs ys : Cells V) → occurs a (xs ++ ys) ≡ occurs a xs + occurs a ys
  unfolding occurs
  occurs-append a [] ys = omega arith
  occurs-append a ((b, v) ∷ xs) ys = omega (arith, occurs-append a xs ys)

  pub Linked-split :
      (h : Heap V) (p : Pointer) (xs ys : Cells V) (q : Pointer)
      → Linked h p (xs ++ ys) q
      → Linked h p xs (first ys q) × Linked h (last p xs) ys q
  unfolding Linked last
  Linked-split h p [] ys q l = (tt, l)
  Linked-split h p ((a, v) ∷ xs) ys q l =
      let (u, w) = Linked-split h (some a) xs ys q l.1 in
      (
        (l.0 ∙ ap (λ n. some (record { prev = p; next = n; value = v })) (first-append xs ys q), u),
        w,
      )

  pub Linked-join :
      (h : Heap V) (p : Pointer) (xs ys : Cells V) (q : Pointer)
      → Linked h p xs (first ys q)
      → Linked h (last p xs) ys q
      → Linked h p (xs ++ ys) q
  unfolding Linked last
  Linked-join h p [] ys q l m = m
  Linked-join h p ((a, v) ∷ xs) ys q l m = (
    l.0 ∙ ap (λ n. some (record { prev = p; next = n; value = v })) (sym (first-append xs ys q)),
    Linked-join h (some a) xs ys q l.1 m,
  )

  -- A change elsewhere in the heap
  pub Linked-update :
      (h : Heap V) (p : Pointer) (xs : Cells V) (q : Pointer) (a : ℕ) (c : Option (Node V))
      → occurs a xs ≡ 0
      → Linked h p xs q
      → Linked (update h a c) p xs q
  unfolding Linked occurs
  Linked-update h p [] q a c o l = tt
  Linked-update h p ((b, v) ∷ xs) q a c o l =
      let other : (b == a) ≡ false = ground (arith, o) in
      (rw other l.0, Linked-update h (some b) xs q a c (omega (arith, o)) l.1)

  -- A list is empty or has a last node.
  pub snoc_cases :
      (xs : Cells V) → (xs ≡ []) ⊎ ((ys : Cells V) × (a : ℕ) × (v : V) × (xs ≡ ys ++ (a, v) ∷ []))
  snoc_cases [] = inl refl
  snoc_cases ((a, v) ∷ xs) = elim (snoc_cases xs) [
    | inl e ↦ inr ([], a, v, ap (λ l. (a, v) ∷ l) e)
    | inr (ys, b, w, e) ↦ inr ((a, v) ∷ ys, b, w, ap (λ l. (a, v) ∷ l) e)
  ]
