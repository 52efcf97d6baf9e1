-- ===== src/Util/Number.antt =====
-- Numbers and decimal text in tool/util.c: `digits10`, `ll2string`, `string2ll`, `string2l`.
-- A `long long` is an integer, and an `unsigned long long` a number below 2^64. A buffer is the
-- list of its bytes; a string with its length is the list of its characters. The `v` of `string2ll`
-- wraps at 2^64.
pub mod Digits
pub mod Decimal
pub mod Print
pub mod Parse
mod Runs
use Prim.Native.String.{String}
use text.Mathlib.Text
use learnredis.Base.{
  ℕ, zero, suc, ◌+◌, ◌-◌, ◌*◌, ◌/◌, ◌%◌, ◌^◌, Bool, true, false, ◌&&◌, Option, none, some, List, [],
  ◌∷◌, length, get_elem?, get_or, set, ltb, leb, ◌==◌, if◌then◌else◌, ◌>>=◌,
}
use learnredis.Base.Int.{ℤ, pos, negsuc}

abbrev pub llong_max : ℕ
llong_max = 2 ^ 63 - 1

abbrev pub ullong_max : ℕ
ullong_max = 2 ^ 64 - 1

-- `v` is below 10^12.
unfoldable pub digits10_low : ℕ → ℕ
digits10_low v =
    if ltb v 10
    then 1
    else if ltb v 100
    then 2
    else if ltb v 1000
    then 3
    else if ltb v 100_000_000
    then (if ltb v 1_000_000
        then (if ltb v 10_000 then 4 else 5 + (if leb 100_000 v then 1 else 0))
        else 7 + (if leb 10_000_000 v then 1 else 0))
    else if ltb v 10_000_000_000
    then 9 + (if leb 1_000_000_000 v then 1 else 0)
    else 11 + (if leb 100_000_000_000 v then 1 else 0)

-- The recursion of `digits10` goes one level down at most, since `v` is below 2^64.
unfoldable pub digits10 : ℕ → ℕ
digits10 v =
    if ltb v 1_000_000_000_000 then digits10_low v else 12 + digits10_low (v / 1_000_000_000_000)

-- The entry `j` of the table of the numbers from 00 to 99, written one after the other.
abbrev pub digits : ℕ → ℕ
digits j = 48 + (if j % 2 == 0 then j / 2 / 10 else j / 2 % 10)

-- The loop over pairs of digits and the last one or two, with `value` left to print.
pub print_loop : ℕ → ℕ → ℕ → List ℕ → List ℕ
print_loop zero value next dst = dst
print_loop (suc fuel) value next dst =
    let i = value % 100 * 2 in
    let more =
      print_loop fuel (value / 100) (next - 2)
        (set (set dst next (digits (i + 1))) (next - 1) (digits i)) in
    if leb 100 value
    then more
    else if ltb value 10
    then set dst next (48 + value)
    else set (set dst next (digits (value * 2 + 1))) (next - 1) (digits (value * 2))

abbrev pub is_negative : ℤ → Bool
is_negative (pos n) = false
is_negative (negsuc n) = true

-- The `unsigned long long` that both branches on LLONG_MIN compute.
abbrev pub magnitude : ℤ → ℕ
magnitude (pos n) = n
magnitude (negsuc n) = n + 1

-- The terminator, the digits and the sign, into a buffer that is large enough.
unfoldable pub write_ll : List ℕ → ℕ → Bool → ℕ → List ℕ
write_ll dst value negative len =
    let printed = print_loop 20 value (len - 1) (set dst len 0) in
    if negative then set printed 0 b'-' else printed

-- The result 0 says that the buffer is too small; it stays as it was.
unfoldable pub ll2string : List ℕ → ℤ → ℕ × List ℕ
ll2string dst svalue =
    let value = magnitude svalue in
    let negative = is_negative svalue in
    let len = digits10 value + (if negative then 1 else 0) in
    if leb (length dst) len then (0, dst) else (len, write_ll dst value negative len)

unfoldable pub is_digit : ℕ → Bool
is_digit c = leb 48 c && leb c 57

-- The loop over the digits after the first. A byte that is none ends it with bytes unused.
unfoldable pub digits_loop : ℕ → List ℕ → Option ℕ
digits_loop v [] = some v
digits_loop v (c ∷ s) =
    let v' = v * 10 % 2 ^ 64 in
    let rest = digits_loop ((v' + (c - 48)) % 2 ^ 64) s in
    if is_digit c
    then (if ltb (ullong_max / 10) v
        then none
        else if ltb (ullong_max - (c - 48)) v'
        then none
        else rest)
    else none

-- From the first digit on; the value is stored with its sign.
unfoldable pub string2ll_digits : Bool → List ℕ → Option ℕ
string2ll_digits only [] = none
string2ll_digits only (c ∷ s) =
    if leb 49 c && leb c 57
    then digits_loop (c - 48) s
    else if c == 48 && only
    then some 0
    else none

unfoldable pub signed : Bool → ℕ → Option ℤ
signed true v =
    if ltb (llong_max + 1) v then none else some (if v == 0 then pos 0 else negsuc (v - 1))
signed false v = if ltb llong_max v then none else some (pos v)

unfoldable pub string2ll : List ℕ → Option ℤ
string2ll [] = none
string2ll (c ∷ s) =
    if length s == 0 && c == 48
    then some (pos 0)
    else if c == b'-'
    then (do v ← string2ll_digits false s; signed true v)
    else (do v ← string2ll_digits (length s == 0) (c ∷ s); signed false v)

-- `long` is 64 bits wide.
abbrev pub is_long : ℤ → Bool
is_long (pos n) = leb n llong_max
is_long (negsuc n) = leb n llong_max

unfoldable pub string2l : List ℕ → Option ℤ
string2l s = do llval ← string2ll s; if is_long llval then some llval else none
