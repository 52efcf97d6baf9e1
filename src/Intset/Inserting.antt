-- ===== src/Intset/Inserting.antt =====
-- Adding an integer to a set of struct/intset.c at the place that the search gives.
use learnredis.Base.{
  ℕ, ◌+◌, ◌-◌, ◌*◌, ◌^◌, ◌≤◌, ◌<◌, ◌≡◌, refl, sym, ap, ◌∙◌, ◌⊎◌, inl, inr, ◌↔◌, false, arith,
  length, ltb, ◌==◌, ==_iff, Bool-cases,
}
use learnredis.Base.Int.{ℤ, ◌<ℤ◌}
use learnredis.Base.Bytes.{AreBytes}
use learnredis.Intset.{
  size_of, Intset, intset_get_encoded, intset_get_at, intset_set, intset_resize, intset_move_tail,
  insert_at,
}
use learnredis.Intset.Cells.{
  Fits, apart, next_cell, get_encoded-set_self, get-set_ne, set-AreBytes, length-set, length-resize,
  get-resize, resize-AreBytes,
}
use learnredis.Intset.Moving.{length-move, move-AreBytes, get-move_before, get-move}
use learnredis.Intset.Searching.{IsIntset, Contains, Located}

-- `is'` is `is` with `v` put in at `i`.
pub record Inserted (is is' : Intset) (v : ℤ) (i : ℕ) : Type 0 where
  pub longer : is'.length ≡ is.length + 1
  pub room : length is'.contents ≡ is'.length * size_of is'.encoding
  pub bytes : AreBytes is'.contents
  pub at : intset_get_at is' i ≡ v
  pub before : (j : ℕ) → j < i → intset_get_at is' j ≡ intset_get_at is j
  pub after : (j : ℕ) → i ≤ j → j < is.length → intset_get_at is' (j + 1) ≡ intset_get_at is j

module _ (is is' : Intset) (v : ℤ) (i : ℕ) (s : IsIntset is) (l : Located is v (false, i))
    (n : Inserted is is' v i) where
  -- Where a cell of the new set comes from
  origin :
      (j : ℕ)
      → j < is'.length
      → ((j < i) × (intset_get_at is' j ≡ intset_get_at is j))
        ⊎ (((j ≡ i) × (intset_get_at is' j ≡ v))
            ⊎ ((i < j) × (intset_get_at is' j ≡ intset_get_at is (j - 1))))
  origin j h = elim (Bool-cases (ltb j i)) [
    | inl e ↦ let k : j < i = ground (arith, e) in inl (k, n.before j k)
    | inr e ↦ elim (Bool-cases (j == i)) [
      | inl f ↦ let k = (==_iff j i).0 f in inr (inl (k, ap (intset_get_at is') k ∙ n.at))
      | inr f ↦
          let k : i < j = ground (arith, e, f) in
          inr (
            inr (
              k,
              ap (intset_get_at is') (omega arith)
                  ∙ n.after (j - 1) (omega arith) (omega (arith, n.longer)),
            ))
    ]
  ]

  inserted_ascending :
      (j k : ℕ) → j < k → k < is'.length → intset_get_at is' j <ℤ intset_get_at is' k
  inserted_ascending j k h m = elim (origin j (omega arith)) [
    | inl (a, p) ↦ elim (origin k m) [
      | inl (b, q) ↦ rw (p, q) (s.ascending j k h (omega (arith, l.0)))
      | inr r ↦ elim r [
        | inl (b, q) ↦ rw (p, q) (l.1 j a)
        | inr (b, q) ↦ rw (p, q) (s.ascending j (k - 1) (omega arith) (omega (arith, n.longer)))
      ]
    ]
    | inr t ↦ elim t [
      | inl (a, p) ↦ elim (origin k m) [
        | inl (b, q) ↦ absurd (omega arith)
        | inr r ↦ elim r [
          | inl (b, q) ↦ absurd (omega arith)
          | inr (b, q) ↦ rw (p, q) (l.2 (k - 1) (omega arith) (omega (arith, n.longer)))
        ]
      ]
      | inr (a, p) ↦ elim (origin k m) [
        | inl (b, q) ↦ absurd (omega arith)
        | inr r ↦ elim r [
          | inl (b, q) ↦ absurd (omega arith)
          | inr (b, q) ↦
              rw (p, q) (s.ascending (j - 1) (k - 1) (omega arith) (omega (arith, n.longer)))
        ]
      ]
    ]
  ]

  pub Inserted-IsIntset : IsIntset is'
  Inserted-IsIntset = record { room = n.room; bytes = n.bytes; ascending = inserted_ascending }

  pub Inserted-Contains : (u : ℤ) → Contains is' u ↔ ((u ≡ v) ⊎ Contains is u)
  Inserted-Contains u = (
    λ (j, h, e). elim (origin j h) [
      | inl (a, p) ↦ inr (j, omega (arith, l.0), sym p ∙ e)
      | inr t ↦ elim t [
        | inl (a, p) ↦ inl (sym e ∙ p)
        | inr (a, p) ↦ inr (j - 1, omega (arith, n.longer), sym p ∙ e)
      ]
    ],
    λ w. elim w [
      | inl e ↦ (i, omega (arith, l.0, n.longer), n.at ∙ sym e)
      | inr (j, h, e) ↦ elim (Bool-cases (ltb j i)) [
        | inl f ↦ (j, omega (arith, n.longer), n.before j (ground (arith, f)) ∙ e)
        | inr f ↦ (j + 1, omega (arith, n.longer), n.after j (ground (arith, f)) h ∙ e)
      ]
    ],
  )

move_length : (is : Intset) (from to : ℕ) → (intset_move_tail is from to).length ≡ is.length
unfolding intset_move_tail
move_length is from to = refl

move_encoding : (is : Intset) (from to : ℕ) → (intset_move_tail is from to).encoding ≡ is.encoding
unfolding intset_move_tail
move_encoding is from to = refl

-- The set once there is a free cell at `i`
record Opened (is is' : Intset) (i : ℕ) : Type 0 where
  same_length : is'.length ≡ is.length
  same_encoding : is'.encoding ≡ is.encoding
  room : length is'.contents ≡ (is.length + 1) * size_of is.encoding
  bytes : AreBytes is'.contents
  before : (j : ℕ) → j < i → intset_get_at is' j ≡ intset_get_at is j
  after : (j : ℕ) → i ≤ j → j < is.length → intset_get_at is' (j + 1) ≡ intset_get_at is j

module _ (fresh : ℕ → ℕ) (is : Intset) (v : ℤ) (i : ℕ) (s : IsIntset is)
    (small : (is.length + 1) * 8 < 2 ^ 32) (fits : Fits is.encoding v) (place : i ≤ is.length) where
  abbrev wide : Intset
  wide = intset_resize fresh (is.length + 1) is

  wide_room : length wide.contents ≡ (is.length + 1) * size_of is.encoding
  wide_room = length-resize fresh (is.length + 1) is small

  get-wide : (j : ℕ) → j < is.length → intset_get_at wide j ≡ intset_get_at is j
  unfolding intset_resize
  get-wide j h =
      get-resize fresh (is.length + 1) is j is.encoding small
        (omega (arith, apart is.encoding j (is.length + 1) (omega arith), next_cell is.encoding j))
        (omega (arith, s.room, apart is.encoding j is.length h, next_cell is.encoding j))

  wide-Opened : i ≡ is.length → Opened is wide i
  unfolding intset_resize
  wide-Opened e = record {
    same_length = refl;
    same_encoding = refl;
    room = wide_room;
    bytes = resize-AreBytes fresh (is.length + 1) is s.bytes;
    before = λ j h. get-wide j (omega arith);
    after = λ j h k. absurd (omega arith);
  }

  moved-Opened : i < is.length → Opened is (intset_move_tail wide i (i + 1)) i
  unfolding intset_resize
  moved-Opened l =
      let cap = is.length + 1 in
      let source : i + (is.length - i) ≤ cap = omega arith in
      let target : i + 1 + (is.length - i) ≤ cap = omega arith in
      let counted : is.length * 8 < 2 ^ 32 = omega arith in
      record {
        same_length = move_length wide i (i + 1);
        same_encoding = move_encoding wide i (i + 1);
        room = length-move wide i (i + 1) cap wide_room counted source target ∙ wide_room;
        bytes =
            move-AreBytes wide i (i + 1) cap wide_room counted source target
              (resize-AreBytes fresh cap is s.bytes);
        before = λ j h.
            get-move_before wide i (i + 1) cap wide_room counted source target j (omega arith)
            ∙ get-wide j (omega arith);
        after = λ j h k.
            ap (intset_get_at (intset_move_tail wide i (i + 1))) (omega arith)
            ∙ get-move wide i (i + 1) cap wide_room counted source target (j - i) (omega arith)
            ∙ ap (intset_get_at wide) (omega arith)
            ∙ get-wide j k;
      }

  filled-Inserted :
      (t : Intset)
      → Opened is t i
      → Inserted is (record (intset_set t i v) { length = is.length + 1 }) v i
  unfolding intset_set intset_get_encoded
  filled-Inserted t o =
      let f : Fits t.encoding v = rw o.same_encoding fits in
      record {
        longer = refl;
        room =
            length-set t i v ∙ o.room ∙ ap (λ e. (is.length + 1) * size_of e) (sym o.same_encoding);
        bytes = set-AreBytes t i v o.bytes;
        at =
            get_encoded-set_self t i v
              (rw (o.room, o.same_encoding)
                (omega (
                  arith,
                  apart is.encoding i (is.length + 1) (omega arith),
                  next_cell is.encoding i,
                )))
              f;
        before = λ j h. get-set_ne t i j v (λ e. omega arith) ∙ o.before j h;
        after = λ j h k. get-set_ne t i (j + 1) v (λ e. omega arith) ∙ o.after j h k;
      }

  pub insert_at-Inserted : Inserted is (insert_at fresh is v i) v i
  unfolding insert_at
  insert_at-Inserted = elim (Bool-cases (ltb i is.length)) [
    | inl e ↦
        rw e (filled-Inserted (intset_move_tail wide i (i + 1)) (moved-Opened (ground (arith, e))))
    | inr e ↦ rw e (filled-Inserted wide (wide-Opened (ground (arith, e, place))))
  ]
