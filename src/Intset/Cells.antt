-- ===== src/Intset/Cells.antt =====
-- The cells of an integer set of struct/intset.c: what reading, writing, moving and resizing do.
use learnredis.Base.{
  ℕ, ◌+◌, ◌*◌, ◌%◌, ◌^◌, ◌≤◌, ◌<◌, ◌≡◌, ap, ◌∙◌, ◌⊎◌, inl, inr, ◌≢◌, false, arith, length, get_or,
  ltb, Bool-cases,
}
use learnredis.Base.Int.{ℤ, pos, negsuc, pos_part, neg_part}
use learnredis.Base.Bytes.{
  AreBytes, read_word, length-write_word, get_or-write_word, read_word_congr, read_word-write_word,
  read_word-lt, write_word-AreBytes, length-realloc, get_or-realloc, realloc-AreBytes,
}
use learnredis.Intset.{
  Encoding, int16, int32, int64, size_of, half, to_word, from_word, Intset, intset_value_encoding,
  intset_get_encoded, intset_get_at, intset_set, intset_resize,
}

-- The integers of a width
abbrev pub Fits : Encoding → ℤ → Type 0
Fits e v = (pos_part v < half e) × (neg_part v ≤ half e)

from_word-to_word : (e : Encoding) (v : ℤ) → Fits e v → from_word e (to_word e v) ≡ v
from_word-to_word int16 (pos n) h = ground arith
from_word-to_word int32 (pos n) h = ground arith
from_word-to_word int64 (pos n) h = ground arith
from_word-to_word int16 (negsuc n) h = ground arith
from_word-to_word int32 (negsuc n) h = ground arith
from_word-to_word int64 (negsuc n) h = ground arith

to_word-lt : (e : Encoding) (v : ℤ) → to_word e v < 256 ^ size_of e
to_word-lt int16 (pos n) = omega arith
to_word-lt int32 (pos n) = omega arith
to_word-lt int64 (pos n) = omega arith
to_word-lt int16 (negsuc n) = omega arith
to_word-lt int32 (negsuc n) = omega arith
to_word-lt int64 (negsuc n) = omega arith

from_word-Fits : (e : Encoding) (u : ℕ) → u < 256 ^ size_of e → Fits e (from_word e u)
from_word-Fits int16 u h = ground arith
from_word-Fits int32 u h = ground arith
from_word-Fits int64 u h = ground arith

pub value_encoding-Fits :
    (v : ℤ) (e : Encoding) → Fits int64 v → size_of (intset_value_encoding v) ≤ size_of e → Fits e v
unfolding intset_value_encoding
value_encoding-Fits (pos n) int16 f h = ground arith
value_encoding-Fits (pos n) int32 f h = ground arith
value_encoding-Fits (pos n) int64 f h = f
value_encoding-Fits (negsuc n) int16 f h = ground arith
value_encoding-Fits (negsuc n) int32 f h = ground arith
value_encoding-Fits (negsuc n) int64 f h = f

pub value_encoding-le :
    (v : ℤ) (e : Encoding) → Fits e v → size_of (intset_value_encoding v) ≤ size_of e
unfolding intset_value_encoding
value_encoding-le (pos n) int16 f = ground arith
value_encoding-le (pos n) int32 f = ground arith
value_encoding-le (pos n) int64 f = ground arith
value_encoding-le (negsuc n) int16 f = ground arith
value_encoding-le (negsuc n) int32 f = ground arith
value_encoding-le (negsuc n) int64 f = ground arith

-- Cells of one width do not overlap.
pub apart : (e : Encoding) (i j : ℕ) → i < j → i * size_of e + size_of e ≤ j * size_of e
apart int16 i j h = omega arith
apart int32 i j h = omega arith
apart int64 i j h = omega arith

pub next_cell : (e : Encoding) (i : ℕ) → (i + 1) * size_of e ≡ i * size_of e + size_of e
next_cell int16 i = omega arith
next_cell int32 i = omega arith
next_cell int64 i = omega arith

below : (i j : ℕ) → i ≢ j → ltb i j ≡ false → j < i
below i j h e = ground (arith, h, e)

room_at : (e : Encoding) (i n : ℕ) → (i + 1) * size_of e ≤ n → i * size_of e + size_of e ≤ n
room_at e i n h = omega (arith, next_cell e i, h)

pub get_encoded-Fits :
    (is : Intset) (i : ℕ) (e : Encoding) → AreBytes is.contents → Fits e (intset_get_encoded is i e)
unfolding intset_get_encoded
get_encoded-Fits is i e b =
    from_word-Fits e (read_word is.contents (i * size_of e) (size_of e))
      (read_word-lt is.contents (i * size_of e) (size_of e) b)

-- A cell is read from its own bytes.
pub get_encoded_congr :
    (is is' : Intset) (i j : ℕ) (e : Encoding)
    → ((k : ℕ)
        → k < size_of e
        → get_or is.contents (i * size_of e + k) 0 ≡ get_or is'.contents (j * size_of e + k) 0)
    → intset_get_encoded is i e ≡ intset_get_encoded is' j e
unfolding intset_get_encoded
get_encoded_congr is is' i j e h =
    ap (from_word e)
      (read_word_congr is.contents is'.contents (i * size_of e) (j * size_of e) (size_of e) h)

pub get_encoded-set_self :
    (is : Intset) (i : ℕ) (v : ℤ)
    → (i + 1) * size_of is.encoding ≤ length is.contents
    → Fits is.encoding v
    → intset_get_encoded (intset_set is i v) i is.encoding ≡ v
unfolding intset_get_encoded intset_set
get_encoded-set_self is i v room f =
    ap (from_word is.encoding) (
      read_word-write_word is.contents (i * size_of is.encoding) (size_of is.encoding)
        (to_word is.encoding v) (room_at is.encoding i (length is.contents) room)
        (to_word-lt is.encoding v))
    ∙ from_word-to_word is.encoding v f

-- A write leaves cells alone that end before it or start after it, of whatever width.
pub get_encoded-set_ne :
    (is : Intset) (i j : ℕ) (v : ℤ) (e : Encoding)
    → ((j + 1) * size_of e ≤ i * size_of is.encoding)
      ⊎ ((i + 1) * size_of is.encoding ≤ j * size_of e)
    → intset_get_encoded (intset_set is i v) j e ≡ intset_get_encoded is j e
unfolding intset_set
get_encoded-set_ne is i j v e h = get_encoded_congr (intset_set is i v) is j j e (λ k l.
    get_or-write_word is.contents (i * size_of is.encoding) (size_of is.encoding)
      (to_word is.encoding v) (j * size_of e + k)
      (elim h [
        | inl before ↦ inl (omega (arith, next_cell e j))
        | inr after ↦ inr (omega (arith, next_cell is.encoding i))
      ]))

pub get-set_ne :
    (is : Intset) (i j : ℕ) (v : ℤ)
    → i ≢ j
    → intset_get_at (intset_set is i v) j ≡ intset_get_at is j
unfolding intset_set
get-set_ne is i j v h = get_encoded-set_ne is i j v is.encoding (elim (Bool-cases (ltb i j)) [
  | inl e ↦ inr (omega (arith, apart is.encoding i j (ground (arith, e)), next_cell is.encoding i))
  | inr e ↦ inl (omega (arith, apart is.encoding j i (below i j h e), next_cell is.encoding j))
])

pub set-AreBytes :
    (is : Intset) (i : ℕ) (v : ℤ) → AreBytes is.contents → AreBytes (intset_set is i v).contents
unfolding intset_set
set-AreBytes is i v b =
    write_word-AreBytes is.contents (i * size_of is.encoding) (size_of is.encoding)
      (to_word is.encoding v) b

pub length-set :
    (is : Intset) (i : ℕ) (v : ℤ) → length (intset_set is i v).contents ≡ length is.contents
unfolding intset_set
length-set is i v =
    length-write_word is.contents (i * size_of is.encoding) (size_of is.encoding)
      (to_word is.encoding v)

pub exact : (e : Encoding) (n : ℕ) → n * 8 < 2 ^ 32 → n * size_of e % 2 ^ 32 ≡ n * size_of e
exact int16 n h = omega arith
exact int32 n h = omega arith
exact int64 n h = omega arith

-- As long as the bytes can be counted in 32 bits, the block gets as many as the cells need.
pub length-resize :
    (fresh : ℕ → ℕ) (n : ℕ) (is : Intset)
    → n * 8 < 2 ^ 32
    → length (intset_resize fresh n is).contents ≡ n * size_of is.encoding
unfolding intset_resize
length-resize fresh n is small =
    length-realloc fresh (n * size_of is.encoding % 2 ^ 32) is.contents ∙ exact is.encoding n small

pub get-resize :
    (fresh : ℕ → ℕ) (n : ℕ) (is : Intset) (i : ℕ) (e : Encoding)
    → n * 8 < 2 ^ 32
    → (i + 1) * size_of e ≤ n * size_of is.encoding
    → (i + 1) * size_of e ≤ length is.contents
    → intset_get_encoded (intset_resize fresh n is) i e ≡ intset_get_encoded is i e
unfolding intset_resize
get-resize fresh n is i e small h room =
    get_encoded_congr (intset_resize fresh n is) is i i e (λ k l.
      get_or-realloc fresh (n * size_of is.encoding % 2 ^ 32) is.contents (i * size_of e + k)
        (omega (arith, exact is.encoding n small, next_cell e i)) (omega (arith, next_cell e i)))

pub resize-AreBytes :
    (fresh : ℕ → ℕ) (n : ℕ) (is : Intset)
    → AreBytes is.contents
    → AreBytes (intset_resize fresh n is).contents
unfolding intset_resize
resize-AreBytes fresh n is b =
    realloc-AreBytes fresh (n * size_of is.encoding % 2 ^ 32) is.contents b
