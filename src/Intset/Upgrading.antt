-- ===== src/Intset/Upgrading.antt =====
-- `intsetUpgradeAndAdd` of struct/intset.c: the cells are widened in place, from the last one down.
use learnredis.Base.{
  ℕ, zero, suc, ◌+◌, ◌*◌, ◌^◌, ◌≤◌, ◌<◌, ◌≡◌, refl, ap, ◌∙◌, ◌⊎◌, inl, inr, true, false, arith,
  length, ltb, ◌==◌, ==_iff, if◌then◌else◌, Bool-cases,
}
use learnredis.Base.Int.{ℤ, pos, negsuc, ◌<ℤ◌}
use learnredis.Base.Bytes.{AreBytes}
use learnredis.Intset.{
  Encoding, int16, int32, int64, size_of, half, Intset, intset_value_encoding, intset_get_encoded,
  intset_get_at, intset_set, intset_resize, upgrade_loop, is_negative, intset_upgrade_and_add,
}
use learnredis.Intset.Cells.{
  Fits, value_encoding-Fits, value_encoding-le, apart, next_cell, get_encoded-Fits,
  get_encoded-set_self, get_encoded-set_ne, get-set_ne, set-AreBytes, length-set, length-resize,
  get-resize, resize-AreBytes,
}
use learnredis.Intset.Searching.{IsIntset, Located}
use learnredis.Intset.Inserting.{Inserted}

Fits-mono : (e e' : Encoding) (v : ℤ) → size_of e ≤ size_of e' → Fits e v → Fits e' v
Fits-mono int16 int16 v h f = f
Fits-mono int16 int32 v h f = (omega (arith, f.0), omega (arith, f.1))
Fits-mono int16 int64 v h f = (omega (arith, f.0), omega (arith, f.1))
Fits-mono int32 int16 v h f = absurd (omega (arith, h))
Fits-mono int32 int32 v h f = f
Fits-mono int32 int64 v h f = (omega (arith, f.0), omega (arith, f.1))
Fits-mono int64 int16 v h f = absurd (omega (arith, h))
Fits-mono int64 int32 v h f = absurd (omega (arith, h))
Fits-mono int64 int64 v h f = f

-- The cell that is written lies above the narrow cells that are still to be read.
narrow_below :
    (e e' : Encoding) (i n p : ℕ)
    → size_of e ≤ size_of e'
    → i < n
    → (i + 1) * size_of e ≤ (n + p) * size_of e'
narrow_below int16 int16 i n p h l = omega arith
narrow_below int16 int32 i n p h l = omega arith
narrow_below int16 int64 i n p h l = omega arith
narrow_below int32 int16 i n p h l = absurd (omega (arith, h))
narrow_below int32 int32 i n p h l = omega arith
narrow_below int32 int64 i n p h l = omega arith
narrow_below int64 int16 i n p h l = absurd (omega (arith, h))
narrow_below int64 int32 i n p h l = absurd (omega (arith, h))
narrow_below int64 int64 i n p h l = omega arith

fits_block :
    (e e' : Encoding) (i len : ℕ)
    → size_of e ≤ size_of e'
    → i < len
    → (i + 1) * size_of e ≤ (len + 1) * size_of e'
fits_block e e' i len h l = omega (arith, narrow_below e e' i len 1 h l)

-- Between rounds: the first `n` integers are narrow still, and the others wide, shifted by `p`.
record Widened (is t : Intset) (e' : Encoding) (p n : ℕ) : Type 0 where
  encoding : t.encoding ≡ e'
  wider : size_of is.encoding ≤ size_of t.encoding
  room : length t.contents ≡ (is.length + 1) * size_of t.encoding
  bytes : AreBytes t.contents
  low : (j : ℕ) → j < n → intset_get_encoded t j is.encoding ≡ intset_get_at is j
  high : (j : ℕ) → n ≤ j → j < is.length → intset_get_at t (j + p) ≡ intset_get_at is j

module _ (is : Intset) (s : IsIntset is) (e' : Encoding) (p : ℕ) (one : p ≤ 1) where
  abbrev step : Intset → ℕ → Intset
  step t n = intset_set t (n + p) (intset_get_encoded t n is.encoding)

  step-Widened :
      (t : Intset) (n : ℕ)
      → n < is.length
      → Widened is t e' p (suc n)
      → Widened is (step t n) e' p n
  unfolding intset_set
  step-Widened t n h w =
      let v = intset_get_encoded t n is.encoding in
      let f : Fits t.encoding v = rw (w.low n (omega arith)) (
        Fits-mono is.encoding t.encoding (intset_get_at is n) w.wider
          (get_encoded-Fits is n is.encoding s.bytes)) in
      record {
        encoding = w.encoding;
        wider = w.wider;
        room = length-set t (n + p) v ∙ w.room;
        bytes = set-AreBytes t (n + p) v w.bytes;
        low = λ j l.
            get_encoded-set_ne t (n + p) j v is.encoding
              (inl (narrow_below is.encoding t.encoding j n p w.wider l))
            ∙ w.low j (omega arith);
        high = λ j l m. elim (Bool-cases (j == n)) [
          | inl q ↦
              let at =
                get_encoded-set_self t (n + p) v
                  (rw w.room (
                    omega (
                      arith,
                      apart t.encoding (n + p) (is.length + 1) (omega arith),
                      next_cell t.encoding (n + p),
                    )))
                  f in
              rw ((==_iff j n).0 q) (at ∙ w.low n (omega arith))
          | inr q ↦
              get-set_ne t (n + p) (j + p) v (λ x. ground (arith, q, x))
              ∙ w.high j (ground (arith, q, l)) m
        ];
      }

  upgrade_loop-Widened :
      (n : ℕ) (t : Intset)
      → n ≤ is.length
      → Widened is t e' p n
      → Widened is (upgrade_loop n p is.encoding t) e' p 0
  unfolding upgrade_loop
  upgrade_loop-Widened zero t h w = w
  upgrade_loop-Widened (suc n) t h w =
      upgrade_loop-Widened n (step t n) (omega arith) (step-Widened t n (omega arith) w)

too_wide : (e : Encoding) (v : ℤ) → size_of e < size_of (intset_value_encoding v) → Fits e v → ⊥
too_wide e v h f = omega (arith, value_encoding-le v e f)

half_pos : (e : Encoding) → 0 < half e
half_pos int16 = omega arith
half_pos int32 = omega arith
half_pos int64 = omega arith

below_all :
    (e : Encoding) (v u : ℤ)
    → is_negative v ≡ true
    → size_of e < size_of (intset_value_encoding v)
    → Fits e u
    → v <ℤ u
below_all e (pos n) u h w f = let no_sign : false ≡ true = h in cc
below_all e (negsuc n) u h w f = elim (Bool-cases (ltb (half e) (suc n))) [
  | inl b ↦ ground (arith, b, f.1)
  | inr b ↦ absurd (too_wide e (negsuc n) w (half_pos e, ground (arith, b)))
]

above_all :
    (e : Encoding) (v u : ℤ)
    → is_negative v ≡ false
    → size_of e < size_of (intset_value_encoding v)
    → Fits e u
    → u <ℤ v
above_all e (negsuc n) u h w f = let no_sign : true ≡ false = h in cc
above_all e (pos n) u h w f = elim (Bool-cases (ltb n (half e))) [
  | inl b ↦ absurd (too_wide e (pos n) w (ground (arith, b), omega arith))
  | inr b ↦ ground (arith, b, f.0)
]

module _ (fresh : ℕ → ℕ) (is : Intset) (v : ℤ) (s : IsIntset is)
    (small : (is.length + 1) * 8 < 2 ^ 32) (fits : Fits int64 v)
    (wide : size_of is.encoding < size_of (intset_value_encoding v)) where
  abbrev new : Encoding
  new = intset_value_encoding v

  abbrev resized : Intset
  resized = intset_resize fresh (is.length + 1) (record is { encoding = new })

  low_same :
      (j : ℕ) → intset_get_encoded (record is { encoding = new }) j is.encoding ≡ intset_get_at is j
  unfolding intset_get_encoded
  low_same j = refl

  resized-Widened : (p : ℕ) → Widened is resized new p is.length
  unfolding intset_resize
  resized-Widened p =
      let t = record is { encoding = new } in
      record {
        encoding = refl;
        wider = omega arith;
        room = length-resize fresh (is.length + 1) t small;
        bytes = resize-AreBytes fresh (is.length + 1) t s.bytes;
        low = λ j h.
            get-resize fresh (is.length + 1) t j is.encoding small
              (fits_block is.encoding new j is.length (omega arith) h)
              (omega (arith, s.room, apart is.encoding j is.length h, next_cell is.encoding j))
            ∙ low_same j;
        high = λ j l m. absurd (omega arith);
      }

  -- The new integer goes to the end at which there is room.
  full-Inserted :
      (t : Intset) (p i : ℕ)
      → Widened is t new p 0
      → ((p ≡ 1) × (i ≡ 0)) ⊎ ((p ≡ 0) × (i ≡ is.length))
      → Inserted is (record (intset_set t i v) { length = is.length + 1 }) v i
  unfolding intset_set intset_get_encoded
  full-Inserted t p i w end =
      let f : Fits t.encoding v = rw w.encoding (value_encoding-Fits v new fits (omega arith)) in
      let place : i < is.length + 1 = elim end [
        | inl (a, b) ↦ omega arith
        | inr (a, b) ↦ omega arith
      ] in
      record {
        longer = refl;
        room = length-set t i v ∙ w.room;
        bytes = set-AreBytes t i v w.bytes;
        at =
            get_encoded-set_self t i v
              (rw w.room
                (omega (arith, apart t.encoding i (is.length + 1) place, next_cell t.encoding i)))
              f;
        before = λ j h. get-set_ne t i j v (λ e. omega arith) ∙ elim end [
          | inl (a, b) ↦ absurd (omega arith)
          | inr (a, b) ↦ ap (intset_get_at t) (omega arith) ∙ w.high j (omega arith) (omega arith)
        ];
        after = λ j h k. elim end [
          | inl (a, b) ↦
              get-set_ne t i (j + 1) v (λ e. omega arith)
              ∙ ap (intset_get_at t) (omega arith)
              ∙ w.high j (omega arith) k
          | inr (a, b) ↦ absurd (omega arith)
        ];
      }

  abbrev pub place : ℕ
  place = if is_negative v then 0 else is.length

  pub upgrade-Inserted : Inserted is (intset_upgrade_and_add fresh is v) v place
  unfolding intset_upgrade_and_add
  upgrade-Inserted = elim (Bool-cases (is_negative v)) [
    | inl e ↦
        let w =
          upgrade_loop-Widened is s new 1 (omega arith) is.length resized (omega arith)
            (resized-Widened 1) in
        rw e (full-Inserted (upgrade_loop is.length 1 is.encoding resized) 1 0 w (inl (refl, refl)))
    | inr e ↦
        let w =
          upgrade_loop-Widened is s new 0 (omega arith) is.length resized (omega arith)
            (resized-Widened 0) in
        rw e (
          full-Inserted (upgrade_loop is.length 0 is.encoding resized) 0 is.length w
            (inr (refl, refl)))
  ]

  -- An integer that needs a wider encoding lies beyond all that are there, on the side of its sign.
  pub upgrade-Located : Located is v (false, place)
  upgrade-Located = elim (Bool-cases (is_negative v)) [
    | inl e ↦ rw e (
      omega arith,
      λ j h. absurd (omega arith),
      λ j h k.
          below_all is.encoding v (intset_get_at is j) e wide
            (get_encoded-Fits is j is.encoding s.bytes),
    )
    | inr e ↦ rw e (
      omega arith,
      λ j h.
          above_all is.encoding v (intset_get_at is j) e wide
            (get_encoded-Fits is j is.encoding s.bytes),
      λ j h k. absurd (omega arith),
    )
  ]
