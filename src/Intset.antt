-- ===== src/Intset.antt =====
-- struct/intset.c: a sorted array of integers in the smallest of three widths that fits them all.
-- `contents` is the block of bytes behind the header, always little-endian, so that the macros that
-- swap bytes on a big-endian machine do nothing here. `fresh` is what `realloc` leaves in new bytes.
-- The sizes that C computes in 32 bits wrap. The copy wrapper/intset.c has the same functions.
pub mod Cells
pub mod Moving
pub mod Searching
pub mod Ending
pub mod Inserting
pub mod Upgrading
pub mod Adding
pub mod Removing
mod Runs
use learnredis.Base.{
  ℕ, zero, suc, ◌+◌, ◌-◌, ◌*◌, ◌/◌, ◌%◌, ◌^◌, Bool, true, false, ◌&&◌, ◌||◌, Option, none, some,
  List, [], ltb, leb, ◌==◌, if◌then◌else◌,
}
use learnredis.Base.Int.{ℤ, pos, negsuc, ltb_ℤ, eqb_ℤ}
use learnredis.Base.Bytes.{read_word, write_word, memmove, realloc}

-- `INTSET_ENC_INT16`, `INTSET_ENC_INT32` and `INTSET_ENC_INT64`
pub data Encoding : Type 0 where
  int16 int32 int64 : Encoding

-- `sizeof`
abbrev pub size_of : Encoding → ℕ
size_of int16 = 2
size_of int32 = 4
size_of int64 = 8

abbrev pub modulus : Encoding → ℕ
modulus int16 = 2 ^ 16
modulus int32 = 2 ^ 32
modulus int64 = 2 ^ 64

abbrev pub half : Encoding → ℕ
half int16 = 2 ^ 15
half int32 = 2 ^ 31
half int64 = 2 ^ 63

-- The pattern of bits that the width keeps of an integer, and the integer of a pattern
abbrev pub to_word : Encoding → ℤ → ℕ
to_word e (pos n) = n % modulus e
to_word e (negsuc n) = modulus e - 1 - n % modulus e

abbrev pub from_word : Encoding → ℕ → ℤ
from_word e u = if ltb u (half e) then pos u else negsuc (modulus e - 1 - u)

-- `intset`
pub record Intset : Type 0 where
  pub encoding : Encoding
  pub length : ℕ
  pub contents : List ℕ

-- `_intsetValueEncoding`
unfoldable pub intset_value_encoding : ℤ → Encoding
intset_value_encoding v =
    if ltb_ℤ v (negsuc (2 ^ 31 - 1)) || ltb_ℤ (pos (2 ^ 31 - 1)) v
    then int64
    else if ltb_ℤ v (negsuc (2 ^ 15 - 1)) || ltb_ℤ (pos (2 ^ 15 - 1)) v
    then int32
    else int16

-- `_intsetGetEncoded`
unfoldable pub intset_get_encoded : Intset → ℕ → Encoding → ℤ
intset_get_encoded is i e = from_word e (read_word is.contents (i * size_of e) (size_of e))

-- `_intsetGet`
abbrev pub intset_get_at : Intset → ℕ → ℤ
intset_get_at is i = intset_get_encoded is i is.encoding

-- `_intsetSet`
unfoldable pub intset_set : Intset → ℕ → ℤ → Intset
intset_set is i v = record is {
  contents =
      write_word is.contents (i * size_of is.encoding) (size_of is.encoding)
        (to_word is.encoding v);
}

unfoldable pub intset_new : Intset
intset_new = record { encoding = int16; length = 0; contents = [] }

unfoldable pub intset_resize : (ℕ → ℕ) → ℕ → Intset → Intset
intset_resize fresh len is = record is {
  contents = realloc fresh ((len * size_of is.encoding) % 2 ^ 32) is.contents;
}

-- The variables of the loop of `intsetSearch`; `max_next` is `max + 1`, since `max` may become -1.
pub record Probe : Type 0 where
  pub min : ℕ
  pub max_next : ℕ
  pub mid : ℕ
  pub cur : ℤ

pub search_loop : ℕ → Intset → ℤ → Probe → Probe
search_loop zero is value p = p
search_loop (suc n) is value p = elim (ltb p.min p.max_next) [
  | false ↦ p
  | true ↦
      let mid = (p.min + (p.max_next - 1)) % 2 ^ 32 / 2 in
      let cur = intset_get_at is mid in
      elim (ltb_ℤ cur value) [
        | true ↦ search_loop n is value (record p { min = mid + 1; mid = mid; cur = cur })
        | false ↦ elim (ltb_ℤ value cur) [
          | true ↦ search_loop n is value (record p { max_next = mid; mid = mid; cur = cur })
          | false ↦ record p { mid = mid; cur = cur }
        ]
      ]
]

abbrev pub search_end : ℤ → Probe → Bool × ℕ
search_end value p = if eqb_ℤ value p.cur then (true, p.mid) else (false, p.min)

-- `intsetSearch`, with its result and `*pos`. Each round halves the range, and it starts with
-- `length` places; `mid` is -1 at first.
unfoldable pub intset_search : Intset → ℤ → Bool × ℕ
intset_search is value =
    if is.length == 0
    then (false, 0)
    else if ltb_ℤ (intset_get_at is (is.length - 1)) value
    then (false, is.length)
    else if ltb_ℤ value (intset_get_at is 0)
    then (false, 0)
    else search_end value (
        search_loop (is.length + 1) is value
          (record { min = 0; max_next = is.length; mid = 2 ^ 32 - 1; cur = negsuc 0 }))

-- `while(length--)`: `cur_enc` is the old encoding, and `n` is `length`.
pub upgrade_loop : ℕ → ℕ → Encoding → Intset → Intset
upgrade_loop zero prepend cur_enc is = is
upgrade_loop (suc n) prepend cur_enc is =
    upgrade_loop n prepend cur_enc (intset_set is (n + prepend) (intset_get_encoded is n cur_enc))

abbrev pub is_negative : ℤ → Bool
is_negative (pos n) = false
is_negative (negsuc n) = true

unfoldable pub intset_upgrade_and_add : (ℕ → ℕ) → Intset → ℤ → Intset
intset_upgrade_and_add fresh is value =
    let prepend = if is_negative value then 1 else 0 in
    let wide =
      intset_resize fresh (is.length + 1) (record is { encoding = intset_value_encoding value }) in
    let moved = upgrade_loop is.length prepend is.encoding wide in
    let full = intset_set moved (if is_negative value then 0 else is.length) value in
    record full { length = is.length + 1 }

-- `intsetMoveTail`
unfoldable pub intset_move_tail : Intset → ℕ → ℕ → Intset
intset_move_tail is from to =
    let size = size_of is.encoding in
    record is {
      contents = memmove is.contents (to * size) (from * size) ((is.length - from) * size % 2 ^ 32);
    }

unfoldable pub insert_at : (ℕ → ℕ) → Intset → ℤ → ℕ → Intset
insert_at fresh is value i =
    let wide = intset_resize fresh (is.length + 1) is in
    let moved = if ltb i is.length then intset_move_tail wide i (i + 1) else wide in
    record (intset_set moved i value) { length = is.length + 1 }

-- `intsetAdd`, with `*success`
unfoldable pub intset_add : (ℕ → ℕ) → Intset → ℤ → Intset × Bool
intset_add fresh is value =
    let found = intset_search is value in
    if ltb (size_of is.encoding) (size_of (intset_value_encoding value))
    then (intset_upgrade_and_add fresh is value, true)
    else if found.0
    then (is, false)
    else (insert_at fresh is value found.1, true)

unfoldable pub remove_at : (ℕ → ℕ) → Intset → ℕ → Intset
remove_at fresh is i =
    let moved = if ltb i (is.length - 1) then intset_move_tail is (i + 1) i else is in
    record (intset_resize fresh (is.length - 1) moved) { length = is.length - 1 }

-- `intsetRemove`, with `*success`
unfoldable pub intset_remove : (ℕ → ℕ) → Intset → ℤ → Intset × Bool
intset_remove fresh is value =
    let found = intset_search is value in
    if leb (size_of (intset_value_encoding value)) (size_of is.encoding) && found.0
    then (remove_at fresh is found.1, true)
    else (is, false)

unfoldable pub intset_find : Intset → ℤ → Bool
intset_find is value =
    leb (size_of (intset_value_encoding value)) (size_of is.encoding) && (intset_search is value).0

-- `intsetRandom`; `rand` is what the C library's generator gives.
-- The division by a length of 0 faults.
unfoldable pub intset_random : ℕ → Intset → Option ℤ
intset_random rand is = if is.length == 0 then none else some (intset_get_at is (rand % is.length))

unfoldable pub intset_get : Intset → ℕ → Option ℤ
intset_get is i = if ltb i is.length then some (intset_get_at is i) else none

-- The header has 8 bytes, and the product is computed in 32 bits.
unfoldable pub intset_blob_len : Intset → ℕ
intset_blob_len is = 8 + is.length * size_of is.encoding % 2 ^ 32
