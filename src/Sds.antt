-- ===== src/Sds.antt =====
-- struct/sds.c: cutting a string by `sdsrange`, quoting it by `sdscatrepr`, and splitting a line by
-- `sdssplitargs`, and printing numbers by `sdsll2str` and `sdsull2str`.
-- A string is the list of its bytes; a C string ends where the list ends. `none` is the null pointer
-- that stands for an unbalanced quote. Lengths and indices fit an
-- `int`, as `sdsrange` takes for granted. `sdssplitargs` sees a line up to its first
-- NUL, by `c_string`; the functions of its loops have the end of the list for that NUL.
-- `isprint` and `isspace` are parameters.
-- `split_loop` has as many rounds as the line has bytes, of which each takes one at least.
pub mod Splitting
pub mod RoundTrip
pub mod Range
pub mod Numbers
mod Runs
use learnredis.Base.{
  ℕ, zero, suc, ◌+◌, ◌-◌, ◌*◌, ◌/◌, ◌%◌, Bool, true, false, not, ◌&&◌, ◌||◌, Option, none, some,
  List, [], ◌∷◌, ◌++◌, length, take, drop, ltb, leb, ◌==◌, if◌then◌else◌, ◌>>=◌,
}
use learnredis.Base.Int.{ℤ, pos, negsuc}

-- The digits from the lowest on. A 64-bit number has at most 20 of them.
pub low_digits : ℕ → ℕ → List ℕ
low_digits zero v = []
low_digits (suc fuel) v =
    let rest = low_digits fuel (v / 10) in (48 + v % 10) ∷ (if v / 10 == 0 then [] else rest)

-- The loop that swaps the ends of the text and moves inwards
pub reverse : List ℕ → List ℕ
reverse [] = []
reverse (c ∷ s) = reverse s ++ c ∷ []

-- The text; the result of the function is its length.
unfoldable pub sdsull2str : ℕ → List ℕ
sdsull2str v = reverse (low_digits 24 v)

unfoldable pub sdsll2str : ℤ → List ℕ
sdsll2str (pos n) = reverse (low_digits 24 n)
sdsll2str (negsuc n) = reverse (low_digits 24 (n + 1) ++ b'-' ∷ [])

-- An index from the end, which is negative, as one from the start
abbrev pub from_end : ℕ → ℤ → ℕ
from_end len (pos n) = n
from_end len (negsuc n) = if ltb len (n + 1) then 0 else len - (n + 1)

abbrev pub range_len : ℕ → ℕ → ℕ
range_len start end_index = if ltb end_index start then 0 else end_index - start + 1

-- The length of the result, from the indices that are not negative
unfoldable pub range_newlen : ℕ → ℕ → ℕ → ℕ
range_newlen len start end_index =
    if range_len start end_index == 0
    then 0
    else if leb len start
    then 0
    else if leb len end_index
    then range_len start (len - 1)
    else range_len start end_index

unfoldable pub sdsrange : List ℕ → ℤ → ℤ → List ℕ
sdsrange s start end_index =
    let len = length s in
    if len == 0
    then s
    else take (range_newlen len (from_end len start) (from_end len end_index))
        (drop (from_end len start) s)

-- What a `char` pointer shows of a string: the bytes before the first NUL
unfoldable pub c_string : List ℕ → List ℕ
c_string [] = []
c_string (c ∷ s) = let rest = c_string s in if c == 0 then [] else c ∷ rest

-- Functions of ctype.h
pub record Ctype : Type 0 where
  pub isprint : ℕ → Bool
  pub isspace : ℕ → Bool

unfoldable pub is_hex_digit : ℕ → Bool
is_hex_digit c = (leb 48 c && leb c 57) || ((leb 97 c && leb c 102) || (leb 65 c && leb c 70))

unfoldable pub hex_digit_to_int : ℕ → ℕ
hex_digit_to_int c =
    if leb 48 c && leb c 57
    then c - 48
    else if leb 97 c && leb c 102
    then c - 87
    else if leb 65 c && leb c 70
    then c - 55
    else 0

-- A digit of `%02x`
unfoldable pub hex_digit : ℕ → ℕ
hex_digit d = if ltb d 10 then 48 + d else 87 + d

-- The character after a backslash that is not `\x` with two digits
unfoldable pub unescape_char : ℕ → ℕ
unescape_char c =
    if c == b'n'
    then 10
    else if c == b'r'
    then 13
    else if c == b't'
    then 9
    else if c == b'b'
    then 8
    else if c == b'a'
    then 7
    else c

-- What follows a backslash inside double quotes: a byte and the rest, unless the line ends.
unfoldable pub unescape : List ℕ → Option (ℕ × List ℕ)
unescape [] = none
unescape (c ∷ []) = some (unescape_char c, [])
unescape (c ∷ h ∷ []) = some (unescape_char c, h ∷ [])
unescape (c ∷ h ∷ l ∷ p) =
    if c == b'x' && (is_hex_digit h && is_hex_digit l)
    then some (hex_digit_to_int h * 16 + hex_digit_to_int l, p)
    else some (unescape_char c, h ∷ l ∷ p)

module _ (ctype : Ctype) where
  -- One round of the loop of `sdscatrepr`
  unfoldable pub repr_byte : ℕ → List ℕ
  repr_byte c =
      if c == 92 || c == 34
      then 92 ∷ c ∷ []
      else if c == 10
      then 92 ∷ b'n' ∷ []
      else if c == 13
      then 92 ∷ b'r' ∷ []
      else if c == 9
      then 92 ∷ b't' ∷ []
      else if c == 7
      then 92 ∷ b'a' ∷ []
      else if c == 8
      then 92 ∷ b'b' ∷ []
      else if ctype.isprint c
      then c ∷ []
      else 92 ∷ b'x' ∷ hex_digit (c / 16) ∷ hex_digit (c % 16) ∷ []

  unfoldable pub repr_loop : List ℕ → List ℕ
  repr_loop [] = []
  repr_loop (c ∷ p) = repr_byte c ++ repr_loop p

  unfoldable pub sdscatrepr : List ℕ → List ℕ → List ℕ
  sdscatrepr s p = s ++ 34 ∷ (repr_loop p ++ 34 ∷ [])

  -- A closing quote must be followed by a space or nothing at all.
  unfoldable pub close_quote : List ℕ → List ℕ → Option (List ℕ × List ℕ)
  close_quote current [] = some (current, [])
  close_quote current (c ∷ p) = if ctype.isspace c then some (current, c ∷ p) else none

  -- Inside double quotes; each round takes a byte at least.
  pub in_quotes : ℕ → List ℕ → List ℕ → Option (List ℕ × List ℕ)
  in_quotes zero current p = none
  in_quotes (suc n) current [] = none
  in_quotes (suc n) current (c ∷ p) = elim (c == 92) [
    | true ↦ elim (unescape p) [
      | none ↦ in_quotes n (current ++ 92 ∷ []) p
      | some (b, rest) ↦ in_quotes n (current ++ b ∷ []) rest
    ]
    | false ↦ elim (c == 34) [
      | true ↦ close_quote current p
      | false ↦ in_quotes n (current ++ c ∷ []) p
    ]
  ]

  -- Inside single quotes, where only the quote itself can be escaped
  pub in_single_quotes : List ℕ → List ℕ → Option (List ℕ × List ℕ)
  in_single_quotes current [] = none
  in_single_quotes current (c ∷ []) = if c == 39 then close_quote current [] else none
  in_single_quotes current (c ∷ d ∷ p) = elim (c == 92 && d == 39) [
    | true ↦ in_single_quotes (current ++ 39 ∷ []) p
    | false ↦ elim (c == 39) [
      | true ↦ close_quote current (d ∷ p)
      | false ↦ in_single_quotes (current ++ c ∷ []) (d ∷ p)
    ]
  ]

  -- A token from its start or after characters outside quotes
  pub in_token : List ℕ → List ℕ → Option (List ℕ × List ℕ)
  in_token current [] = some (current, [])
  in_token current (c ∷ p) =
      let more = in_token (current ++ c ∷ []) p in
      if c == 32 || (c == 10 || (c == 13 || c == 9))
      then some (current, p)
      else if c == 34
      then in_quotes (length p) current p
      else if c == 39
      then in_single_quotes current p
      else more

  pub skip_blanks : List ℕ → List ℕ
  skip_blanks [] = []
  skip_blanks (c ∷ p) = if ctype.isspace c then skip_blanks p else c ∷ p

  -- The outer loop, over what is left after blanks; each round takes a byte at least.
  pub split_loop : ℕ → List ℕ → Option (List (List ℕ))
  split_loop n [] = some []
  split_loop zero (c ∷ p) = none
  split_loop (suc n) (c ∷ p) = do
    (token, rest) ← in_token [] (c ∷ p)
    tokens ← split_loop n (skip_blanks rest)
    some (token ∷ tokens)

  unfoldable pub sdssplitargs : List ℕ → Option (List (List ℕ))
  sdssplitargs line = let p = c_string line in split_loop (length p) (skip_blanks p)
