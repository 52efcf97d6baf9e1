-- ===== src/Util/Number/Runs.antt =====
-- Runs of the conversions of tool/util.c, and their theorems at concrete inputs.
use learnredis.Base.{
  ℕ, ◌+◌, ◌≡◌, ◌↔◌, refl, none, some, List, [], ◌∷◌, ◌++◌, arith, length, drop, leb, if◌then◌else◌,
  replicate,
}
use learnredis.Base.Int.{negsuc}
use learnredis.Util.Number.{
  digits10_low, digits10, print_loop, write_ll, ll2string, is_digit, digits_loop, string2ll_digits,
  signed, string2ll,
}
use learnredis.Util.Number.Decimal.{decimal_text}
use learnredis.Util.Number.Print.{ll2string-decimal_text}
use learnredis.Util.Number.Parse.{IsLongLong, string2ll_iff}

abbrev minus_1234 : List ℕ
minus_1234 = b'-' ∷ b'1' ∷ b'2' ∷ b'3' ∷ b'4' ∷ []

abbrev buffer : List ℕ
buffer = replicate 7 1

prints_minus_1234 : ll2string buffer (negsuc 1233) ≡ (5, minus_1234 ++ 0 ∷ 1 ∷ [])
unfolding ll2string write_ll print_loop digits10 digits10_low replicate
prints_minus_1234 = refl

reads_minus_1234 : string2ll minus_1234 ≡ some (negsuc 1233)
unfolding string2ll string2ll_digits digits_loop is_digit signed
reads_minus_1234 = refl

-- No leading zeros, and no minus zero.
refuses_zeros : (string2ll (b'0' ∷ b'7' ∷ []) ≡ none) × (string2ll (b'-' ∷ b'0' ∷ []) ≡ none)
unfolding string2ll string2ll_digits digits_loop is_digit signed
refuses_zeros = (refl, refl)

ll2string-decimal_text_example : ll2string buffer (negsuc 1233) ≡ (
    if leb (length buffer) (length (decimal_text (negsuc 1233))) then (0, buffer) else (
      length (decimal_text (negsuc 1233)),
      decimal_text (negsuc 1233) ++ 0 ∷ drop (length (decimal_text (negsuc 1233)) + 1) buffer,
    ))
ll2string-decimal_text_example = ll2string-decimal_text (negsuc 1233) buffer (omega arith)

string2ll_iff_example :
    (string2ll minus_1234 ≡ some (negsuc 1233))
    ↔ (IsLongLong (negsuc 1233) × (minus_1234 ≡ decimal_text (negsuc 1233)))
string2ll_iff_example = string2ll_iff minus_1234 (negsuc 1233)
