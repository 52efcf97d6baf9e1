-- ===== src/Intset/Moving.antt =====
-- `intsetMoveTail` of struct/intset.c moves cells up or down, over one another.
use learnredis.Base.{ℕ, ◌+◌, ◌-◌, ◌*◌, ◌%◌, ◌^◌, ◌≤◌, ◌<◌, ◌≡◌, ap, ◌∙◌, arith, length, get_or}
use learnredis.Base.Bytes.{
  AreBytes, length-memmove, memmove_before, memmove_inside, memmove-AreBytes,
}
use learnredis.Intset.{
  Encoding, int16, int32, int64, size_of, Intset, intset_get_at, intset_move_tail,
}
use learnredis.Intset.Cells.{get_encoded_congr, exact, apart}

cells : (e : Encoding) (i n cap : ℕ) → i + n ≤ cap → i * size_of e + n * size_of e ≤ cap * size_of e
cells int16 i n cap h = omega arith
cells int32 i n cap h = omega arith
cells int64 i n cap h = omega arith

cell_inside : (e : Encoding) (k n : ℕ) → k < n → k * size_of e + size_of e ≤ n * size_of e
cell_inside e k n h = apart e k n h

cell_sum : (e : Encoding) (i k : ℕ) → (i + k) * size_of e ≡ i * size_of e + k * size_of e
cell_sum int16 i k = omega arith
cell_sum int32 i k = omega arith
cell_sum int64 i k = omega arith

module _ (is : Intset) (from to cap : ℕ) (room : length is.contents ≡ cap * size_of is.encoding)
    (small : is.length * 8 < 2 ^ 32) (source : from + (is.length - from) ≤ cap)
    (target : to + (is.length - from) ≤ cap) where
  count :
      (is.length - from) * size_of is.encoding % 2 ^ 32 ≡ (is.length - from) * size_of is.encoding
  count = exact is.encoding (is.length - from) (omega arith)

  fits_target :
      to * size_of is.encoding + (is.length - from) * size_of is.encoding % 2 ^ 32
      ≤ length is.contents
  fits_target = omega (arith, count, room, cells is.encoding to (is.length - from) cap target)

  fits_source :
      from * size_of is.encoding + (is.length - from) * size_of is.encoding % 2 ^ 32
      ≤ length is.contents
  fits_source = omega (arith, count, room, cells is.encoding from (is.length - from) cap source)

  pub length-move : length (intset_move_tail is from to).contents ≡ length is.contents
  unfolding intset_move_tail
  length-move =
      length-memmove is.contents (to * size_of is.encoding) (from * size_of is.encoding)
        ((is.length - from) * size_of is.encoding % 2 ^ 32) fits_target fits_source

  pub move-AreBytes : AreBytes is.contents → AreBytes (intset_move_tail is from to).contents
  unfolding intset_move_tail
  move-AreBytes b =
      memmove-AreBytes is.contents (to * size_of is.encoding) (from * size_of is.encoding)
        ((is.length - from) * size_of is.encoding % 2 ^ 32) fits_target fits_source b

  pub get-move_before :
      (i : ℕ) → i < to → intset_get_at (intset_move_tail is from to) i ≡ intset_get_at is i
  unfolding intset_move_tail
  get-move_before i h = get_encoded_congr (intset_move_tail is from to) is i i is.encoding (λ k l.
      memmove_before is.contents (to * size_of is.encoding) (from * size_of is.encoding)
        ((is.length - from) * size_of is.encoding % 2 ^ 32) fits_target fits_source
        (i * size_of is.encoding + k) (omega (arith, apart is.encoding i to h)))

  pub get-move :
      (i : ℕ)
      → i < is.length - from
      → intset_get_at (intset_move_tail is from to) (to + i) ≡ intset_get_at is (from + i)
  unfolding intset_move_tail
  get-move i h =
      get_encoded_congr (intset_move_tail is from to) is (to + i) (from + i) is.encoding (λ k l.
        ap (λ x. get_or (intset_move_tail is from to).contents x 0)
          (omega (arith, cell_sum is.encoding to i))
        ∙ memmove_inside is.contents (to * size_of is.encoding) (from * size_of is.encoding)
            ((is.length - from) * size_of is.encoding % 2 ^ 32) fits_target fits_source
            (i * size_of is.encoding + k)
            (omega (arith, count, cell_inside is.encoding i (is.length - from) h))
        ∙ ap (λ x. get_or is.contents x 0) (omega (arith, cell_sum is.encoding from i)))
