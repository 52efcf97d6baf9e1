-- ===== src/Adlist/Walking.antt =====
-- listIndex, listSearchKey and listRelease of struct/adlist.c.
use learnredis.Base.{
  ℕ, zero, suc, ◌+◌, ◌-◌, ◌≤◌, ◌<◌, ◌≡◌, refl, sym, ap, ◌∙◌, inl, inr, Bool, true, false, none,
  some, [], ◌∷◌, ◌++◌, arith, length, length-append, ◌==◌, ==_iff, ltb, if◌then◌else◌, Bool-cases,
}
use learnredis.Base.Int.{ℤ, pos, negsuc}
use learnredis.Adlist.{
  Pointer, Heap, Handle, start_head, start_tail, list_get_iterator, release, follow, list_next,
  search_key_loop, list_search_key, index_loop, list_index, release_loop, list_release,
}
use learnredis.Adlist.Segments.{
  Cells, first, last, occurs, Linked, IsList, Linked-split, last-append, Linked-update, snoc_cases,
}

module _ {ℓ} {V : Type ℓ} where
  -- The address of the node at an index
  unfoldable pub address_at : ℕ → Cells V → Pointer
  address_at i [] = none
  address_at zero ((a, v) ∷ xs) = some a
  address_at (suc i) ((a, v) ∷ xs) = address_at i xs

  -- A negative index counts from the end.
  unfoldable pub address_from : ℤ → Cells V → Pointer
  address_from (pos i) xs = address_at i xs
  address_from (negsuc i) xs = if ltb i (length xs) then address_at (length xs - suc i) xs else none

  unfoldable pub first_match : (V → Bool) → Cells V → Pointer
  first_match matches [] = none
  first_match matches ((a, v) ∷ xs) = if matches v then some a else first_match matches xs

  index_from_head :
      (h : Heap V) (p : Pointer) (xs : Cells V) (i : ℕ)
      → Linked h p xs none
      → index_loop i start_head h (first xs none) ≡ some (address_at i xs)
  unfolding index_loop address_at first Linked follow
  index_from_head h p [] zero l = refl
  index_from_head h p [] (suc i) l = refl
  index_from_head h p ((a, v) ∷ xs) zero l = refl
  index_from_head h p ((a, v) ∷ xs) (suc i) l = rw l.0 (index_from_head h (some a) xs i l.1)

  address_at-append :
      (i : ℕ) (xs ys : Cells V) → i < length xs → address_at i (xs ++ ys) ≡ address_at i xs
  unfolding address_at
  address_at-append i [] ys k = absurd (omega (arith, k))
  address_at-append zero ((a, v) ∷ xs) ys k = refl
  address_at-append (suc i) ((a, v) ∷ xs) ys k = address_at-append i xs ys (omega (arith, k))

  address_at-length :
      (xs : Cells V) (a : ℕ) (v : V) → address_at (length xs) (xs ++ (a, v) ∷ []) ≡ some a
  unfolding address_at
  address_at-length [] a v = refl
  address_at-length ((b, w) ∷ xs) a v = address_at-length xs a v

  from_nil : (i : ℕ) (xs : Cells V) → xs ≡ [] → address_from (negsuc i) xs ≡ none
  unfolding address_from address_at
  from_nil i xs e = rw e (elim (Bool-cases (ltb i 0)) [ inl e ↦ rw e refl | inr e ↦ rw e refl ])

  from_last : (ys : Cells V) (a : ℕ) (v : V) → address_from (negsuc 0) (ys ++ (a, v) ∷ []) ≡ some a
  unfolding address_from
  from_last ys a v =
      let n : length (ys ++ (a, v) ∷ []) ≡ suc (length ys) =
        omega (arith, length-append ys ((a, v) ∷ [])) in
      let here : ltb 0 (suc (length ys)) ≡ true = ground arith in
      let index : suc (length ys) - 1 ≡ length ys = omega arith in
      rw (n, here, index) (address_at-length ys a v)

  from_next :
      (i : ℕ) (ys : Cells V) (a : ℕ) (v : V)
      → address_from (negsuc (suc i)) (ys ++ (a, v) ∷ []) ≡ address_from (negsuc i) ys
  unfolding address_from
  from_next i ys a v =
      let n : length (ys ++ (a, v) ∷ []) ≡ suc (length ys) =
        omega (arith, length-append ys ((a, v) ∷ [])) in
      let index : suc (length ys) - suc (suc i) ≡ length ys - suc i = omega arith in
      let same : ltb (suc i) (suc (length ys)) ≡ ltb i (length ys) = ground arith in
      elim (Bool-cases (ltb i (length ys))) [
        | inl e ↦
            let less : i < length ys = ground (arith, e) in
            rw (n, same, e, index)
              (address_at-append (length ys - suc i) ys ((a, v) ∷ []) (omega (arith, less)))
        | inr e ↦ rw (n, same, e) refl
      ]

  index_from_tail :
      (h : Heap V) (i : ℕ) (xs : Cells V) (q : Pointer)
      → Linked h none xs q
      → index_loop i start_tail h (last none xs) ≡ some (address_from (negsuc i) xs)
  unfolding index_loop last Linked first follow
  index_from_tail h zero xs q l = elim (snoc_cases xs) [
    | inl e ↦ ap some (rw e refl ∙ sym (from_nil 0 xs e))
    | inr (ys, a, v, e) ↦
        rw (e, last-append none ys ((a, v) ∷ [])) (ap some (sym (from_last ys a v)))
  ]
  index_from_tail h (suc i) xs q l = elim (snoc_cases xs) [
    | inl e ↦ rw (from_nil (suc i) xs e) (rw e refl)
    | inr (ys, a, v, e) ↦
        let (u, w) = Linked-split h none ys ((a, v) ∷ []) q (rw e at l) in
        rw (e, last-append none ys ((a, v) ∷ []), from_next i ys a v, w.0)
          (index_from_tail h i ys (some a) u)
  ]

  search_from :
      (matches : V → Bool) (h : Heap V) (p : Pointer) (xs : Cells V)
      → Linked h p xs none
      → search_key_loop matches
          (suc (length xs))
          h
          (record { next = first xs none; direction = start_head })
        ≡ some (first_match matches xs)
  unfolding search_key_loop first_match first Linked follow list_next
  search_from matches h p [] l = refl
  search_from matches h p ((a, v) ∷ xs) l = elim (Bool-cases (matches v)) [
    | inl e ↦ rw l.0 (rw l.0 (rw e refl))
    | inr e ↦ rw l.0 (rw l.0 (rw e (search_from matches h (some a) xs l.1)))
  ]

  release_from :
      (h : Heap V) (p : Pointer) (xs : Cells V)
      → Linked h p xs none
      → ((a : ℕ) → occurs a xs ≤ 1)
      → (h' : Heap V) × (release_loop (length xs) h (first xs none) ≡ some h')
        × ((a : ℕ) → (occurs a xs ≡ 0 → h' a ≡ h a) × (0 < occurs a xs → h' a ≡ none))
  unfolding release_loop first Linked occurs
  release_from h p [] l d = (h, refl, λ a. (λ o. refl, λ o. absurd (omega (arith, o))))
  release_from h p ((a, v) ∷ xs) l d =
      let once : occurs a xs ≡ 0 = ground (arith, d a, (==_iff a a).1 refl) in
      let (h', e, f) =
        release_from (release h a) (some a) xs (Linked-update h (some a) xs none a none once l.1)
          (λ b. omega (arith, d b)) in
      (
        h',
        rw l.0 e,
        λ b. (
          λ o.
              let other : (b == a) ≡ false = ground (arith, o) in
              (f b).0 (omega (arith, o)) ∙ (rw other refl),
          λ o. elim (Bool-cases (b == a)) [
            | inl e ↦ (f b).0 (rw (sym ((==_iff b a).0 e)) at once) ∙ (rw e refl)
            | inr e ↦ (f b).1 (ground (arith, o, e))
          ],
        ),
      )

  module _ (h : Heap V) (l : Handle) (xs : Cells V) (s : IsList h l xs) where
    -- `listIndex` on a list does not fault and returns the node at the index, counted from the
    -- head, or from the tail if negative, and NULL if there is none.
    pub list_index_lem : (i : ℤ) → list_index h l i ≡ some (address_from i xs)
    unfolding list_index address_from
    list_index_lem (pos i) = rw s.head (index_from_head h none xs i s.linked)
    list_index_lem (negsuc i) = rw s.tail (index_from_tail h i xs none s.linked)

    pub list_search_key_lem :
        (matches : V → Bool) → list_search_key matches h l ≡ some (first_match matches xs)
    unfolding list_search_key list_get_iterator
    list_search_key_lem matches =
        let n : l.len + 1 ≡ suc (length xs) = omega (arith, s.len) in
        rw (n, s.head) (search_from matches h none xs s.linked)

    -- `listRelease` on a list follows no released pointer: it does not fault, releases every node
    -- of the list, and leaves every other address alone.
    pub list_release_lem :
        (h' : Heap V) × (list_release h l ≡ some h')
        × ((a : ℕ) → (occurs a xs ≡ 0 → h' a ≡ h a) × (0 < occurs a xs → h' a ≡ none))
    unfolding list_release
    list_release_lem = rw (s.len, s.head) (release_from h none xs s.linked s.distinct)
