-- ===== src/Intset/Removing.antt =====
-- `intsetRemove` of struct/intset.c against sets of integers.
use learnredis.Base.{
  ℕ, ◌+◌, ◌-◌, ◌*◌, ◌^◌, ◌≤◌, ◌<◌, ◌≡◌, refl, sym, ap, ◌∙◌, inl, inr, ◌≢◌, ◌↔◌, Bool, true, false,
  ◌&&◌, arith, length, ltb, leb, if◌then◌else◌, Bool-cases,
}
use learnredis.Base.Int.{ℤ, ◌<ℤ◌}
use learnredis.Base.Bytes.{AreBytes}
use learnredis.Intset.{
  size_of, Intset, intset_value_encoding, intset_get_encoded, intset_get_at, intset_search,
  intset_find, intset_resize, intset_move_tail, remove_at, intset_remove,
}
use learnredis.Intset.Cells.{apart, next_cell, length-resize, get-resize, resize-AreBytes}
use learnredis.Intset.Moving.{length-move, move-AreBytes, get-move_before, get-move}
use learnredis.Intset.Searching.{
  IsIntset, Contains, Located, intset_search-Located, intset_find_iff,
}

ground_lt : (j i : ℕ) → ltb j i ≡ true → j < i
ground_lt j i h = ground (arith, h)

-- `is'` is `is` without the cell `i`.
record Without (is is' : Intset) (i : ℕ) : Type 0 where
  shorter : is'.length ≡ is.length - 1
  room : length is'.contents ≡ is'.length * size_of is'.encoding
  bytes : AreBytes is'.contents
  before : (j : ℕ) → j < i → intset_get_at is' j ≡ intset_get_at is j
  after : (j : ℕ) → i ≤ j → j + 1 < is.length → intset_get_at is' j ≡ intset_get_at is (j + 1)

-- The set `is'` is `is` less `v`.
pub record Removes (is is' : Intset) (v : ℤ) (success : Bool) : Type 0 where
  pub valid : IsIntset is'
  pub contains : (u : ℤ) → Contains is' u ↔ (Contains is u × (u ≢ v))
  pub success_iff : (success ≡ true) ↔ Contains is v
  pub counted : is'.length + (if success then 1 else 0) ≡ is.length

module _ (is is' : Intset) (v : ℤ) (i : ℕ) (s : IsIntset is) (l : Located is v (true, i))
    (n : Without is is' i) where
  -- Where a cell of the new set comes from
  abbrev source : ℕ → ℕ
  source j = if ltb j i then j else j + 1

  get-source :
      (j : ℕ)
      → j < is'.length
      → (intset_get_at is' j ≡ intset_get_at is (source j))
        × (source j < is.length)
        × (source j ≢ i)
  get-source j h = elim (Bool-cases (ltb j i)) [
    | inl e ↦
        rw e (n.before j (ground (arith, e)), omega (arith, n.shorter), λ x. ground (arith, e, x))
    | inr e ↦ rw e (
      n.after j (ground (arith, e)) (omega (arith, n.shorter)),
      omega (arith, n.shorter),
      λ x. ground (arith, e, x),
    )
  ]

  distinct : (j : ℕ) → j < is.length → j ≢ i → intset_get_at is j ≢ v
  distinct j h o e = elim (Bool-cases (ltb j i)) [
    | inl f ↦
        let k : intset_get_at is j <ℤ intset_get_at is i =
          s.ascending j i (ground (arith, f)) l.0 in
        let k' : v <ℤ v = rw l.1 at (rw e at k) in omega arith
    | inr f ↦
        let k : intset_get_at is i <ℤ intset_get_at is j =
          s.ascending i j (ground (arith, f, o)) h in
        let k' : v <ℤ v = rw l.1 at (rw e at k) in omega arith
  ]

  without_ascending :
      (j k : ℕ) → j < k → k < is'.length → intset_get_at is' j <ℤ intset_get_at is' k
  without_ascending j k h m =
      let (p, a, x) = get-source j (omega arith) in
      let (q, b, y) = get-source k m in
      rw (p, q) (s.ascending (source j) (source k) (ground (arith, h)) b)

  without-Removes : Removes is is' v true
  without-Removes = record {
    valid = record { room = n.room; bytes = n.bytes; ascending = without_ascending };
    contains = λ u. (
      λ (j, h, e).
          let (p, a, x) = get-source j h in
          ((source j, a, sym p ∙ e), λ same. distinct (source j) a x (sym p ∙ e ∙ same)),
      λ ((j, h, e), other). elim (Bool-cases (ltb j i)) [
        | inl f ↦
            (j, omega (arith, n.shorter, l.0, ground_lt j i f), n.before j (ground (arith, f)) ∙ e)
        | inr f ↦
            let ne : j ≢ i = λ x. other (sym e ∙ ap (intset_get_at is) x ∙ l.1) in
            let gt : i < j = ground (arith, f, ne) in
            (
              j - 1,
              omega (arith, n.shorter),
              n.after (j - 1) (omega arith) (omega arith) ∙ ap (intset_get_at is) (omega arith) ∙ e,
            )
      ],
    );
    success_iff = (λ h. (i, l.0, l.1), λ h. refl);
    counted = omega (arith, n.shorter, l.0);
  }

module _ (fresh : ℕ → ℕ) (is : Intset) (i : ℕ) (s : IsIntset is) (small : is.length * 8 < 2 ^ 32)
    (inside : i < is.length) where
  shrunk-Without :
      (t : Intset)
      → t.length ≡ is.length
      → t.encoding ≡ is.encoding
      → length t.contents ≡ is.length * size_of is.encoding
      → AreBytes t.contents
      → ((j : ℕ) → j < i → intset_get_at t j ≡ intset_get_at is j)
      → ((j : ℕ) → i ≤ j → j + 1 < is.length → intset_get_at t j ≡ intset_get_at is (j + 1))
      → Without is (record (intset_resize fresh (is.length - 1) t) { length = is.length - 1 }) i
  unfolding intset_resize intset_get_encoded
  shrunk-Without t same enc room bytes before after =
      let kept : (j : ℕ)
          → j < is.length - 1
          → intset_get_at (intset_resize fresh (is.length - 1) t) j ≡ intset_get_at t j =
        λ j h.
          get-resize fresh (is.length - 1) t j t.encoding (omega arith)
            (omega (arith, apart t.encoding j (is.length - 1) h, next_cell t.encoding j))
            (rw (room, enc)
              (omega
                (arith, apart is.encoding j is.length (omega arith), next_cell is.encoding j))) in
      record {
        shorter = refl;
        room = length-resize fresh (is.length - 1) t (omega arith);
        bytes = resize-AreBytes fresh (is.length - 1) t bytes;
        before = λ j h. kept j (omega arith) ∙ before j h;
        after = λ j h k. kept j (omega arith) ∙ after j h k;
      }

  remove_at-Without : Without is (remove_at fresh is i) i
  unfolding remove_at intset_move_tail
  remove_at-Without = elim (Bool-cases (ltb i (is.length - 1))) [
    | inl e ↦
        let source_ok : i + 1 + (is.length - (i + 1)) ≤ is.length = omega arith in
        let target_ok : i + (is.length - (i + 1)) ≤ is.length = omega arith in
        rw e (
          shrunk-Without (intset_move_tail is (i + 1) i) refl refl
            (length-move is (i + 1) i is.length s.room small source_ok target_ok ∙ s.room)
            (move-AreBytes is (i + 1) i is.length s.room small source_ok target_ok s.bytes)
            (λ j h. get-move_before is (i + 1) i is.length s.room small source_ok target_ok j h)
            (λ j h k.
              ap (intset_get_at (intset_move_tail is (i + 1) i)) (omega arith)
              ∙ get-move is (i + 1) i is.length s.room small source_ok target_ok (j - i)
                  (omega arith)
              ∙ ap (intset_get_at is) (omega arith)))
    | inr e ↦ rw e (
        shrunk-Without is refl refl s.room s.bytes (λ j h. refl)
          (λ j h k. absurd (ground (arith, e, h, k))))
  ]

module _ (fresh : ℕ → ℕ) (is : Intset) (v : ℤ) (s : IsIntset is)
    (small : is.length * 8 < 2 ^ 32) where
  short : is.length < 2 ^ 31
  short = omega arith

  absent-Removes : (Contains is v → ⊥) → Removes is is v false
  absent-Removes absent = record {
    valid = s;
    contains = λ u. (λ (j, h, e). ((j, h, e), λ x. absent (j, h, e ∙ x)), λ (c, other). c);
    success_iff = (λ h. let no_success : false ≡ true = h in cc, λ c. absurd (absent c));
    counted = omega arith;
  }

  found-Removes :
      (r : Bool × ℕ) → Located is v r → r.0 ≡ true → Removes is (remove_at fresh is r.1) v true
  found-Removes (true, i) l h =
      without-Removes is (remove_at fresh is i) v i s l (remove_at-Without fresh is i s small l.0)
  found-Removes (false, i) l h = let no_hit : false ≡ true = h in cc

  find_test :
      (leb (size_of (intset_value_encoding v)) (size_of is.encoding) && (intset_search is v).0)
      ≡ intset_find is v
  unfolding intset_find
  find_test = refl

  search_hit : intset_find is v ≡ true → (intset_search is v).0 ≡ true
  unfolding intset_find
  search_hit h = ground (arith, h)

  -- On a sorted block of distinct integers whose cells, of 8 bytes each, would take less than 2^32
  -- bytes, `intsetRemove` leaves a sorted block that holds just the integers from before other
  -- than the given one; `success` tells whether it was there, and the length goes down by one
  -- exactly then.
  pub intset_remove-Removes : Removes is (intset_remove fresh is v).0 v (intset_remove fresh is v).1
  unfolding intset_remove
  intset_remove-Removes = elim (Bool-cases (intset_find is v)) [
    | inl e ↦
        rw (find_test ∙ e)
          (found-Removes (intset_search is v) (intset_search-Located is v s short) (search_hit e))
    | inr e ↦ rw (find_test ∙ e) (
        absent-Removes (λ c.
          let hit : intset_find is v ≡ true = (intset_find_iff is v s short).1 c in
          let clash : true ≡ false = sym hit ∙ e in cc))
  ]
