-- ===== src/Sds/Numbers.antt =====
-- `sdsll2str` and `sdsull2str` of struct/sds.c print decimal text.
use native.Mathlib.Nat.{pow-suc}
use learnredis.Base.{
  ℕ, zero, suc, ◌+◌, ◌/◌, ◌%◌, ◌^◌, ◌≤◌, ◌<◌, ◌≡◌, ◌⊎◌, refl, ap, ◌∙◌, inl, inr, List, [], ◌∷◌,
  ◌++◌, arith, true, false, ◌==◌,
}
use learnredis.Base.Int.{ℤ, pos, negsuc}
use learnredis.Sds.{low_digits, reverse, sdsull2str, sdsll2str}
use learnredis.Util.Number.{digits10, magnitude}
use learnredis.Util.Number.Digits.{HasDigits, digits10-HasDigits, digits10-le}
use learnredis.Util.Number.Decimal.{decimal, decimal_text}

reverse-append : (s : List ℕ) (c : ℕ) → reverse (s ++ c ∷ []) ≡ c ∷ reverse s
unfolding reverse
reverse-append [] c = refl
reverse-append (d ∷ s) c = ap (λ t. t ++ d ∷ []) (reverse-append s c)

ten_pow_pos : (k : ℕ) → 0 < 10 ^ k
ten_pow_pos zero = omega arith
ten_pow_pos (suc k) = omega (arith, pow-suc 10 k, ten_pow_pos k)

reverse-low_digits :
    (k fuel v : ℕ)
    → v < 10 ^ suc k
    → ((k ≡ 0) ⊎ (10 ^ k ≤ v))
    → k < fuel
    → reverse (low_digits fuel v) ≡ decimal (suc k) v
unfolding reverse low_digits decimal
reverse-low_digits k zero v fits lead h = absurd (omega arith)
reverse-low_digits zero (suc fuel) v fits lead h =
    let small : (v / 10 == 0) ≡ true = ground (arith, fits) in rw small refl
reverse-low_digits (suc k) (suc fuel) v fits lead h = elim lead [
  | inl e ↦ absurd (omega arith)
  | inr lead' ↦
      let p = pow-suc 10 (suc k) in
      let q = pow-suc 10 k in
      let at_least : 10 ^ k ≤ v / 10 = omega (arith, q, lead') in
      let large : (v / 10 == 0) ≡ false = ground (arith, at_least, ten_pow_pos k) in
      rw large (
        ap (λ t. t ++ (48 + v % 10) ∷ [])
          (reverse-low_digits k fuel (v / 10) (omega (arith, p, fits)) (inr at_least)
            (omega arith)))
]

reverse-low_digits_lem :
    (n v : ℕ) → HasDigits n v → n ≤ 24 → reverse (low_digits 24 v) ≡ decimal n v
reverse-low_digits_lem zero v d h = absurd (omega (arith, d.some_digit))
reverse-low_digits_lem (suc k) v d h =
    reverse-low_digits k 24 v d.fits
      (elim d.leading [ inl e ↦ inl (omega arith) | inr e ↦ inr (omega (arith, pow-suc 10 k, e)) ])
      (omega arith)

sdsull2str-decimal : (v : ℕ) → v < 10 ^ 24 → sdsull2str v ≡ decimal (digits10 v) v
unfolding sdsull2str
sdsull2str-decimal v h =
    reverse-low_digits_lem (digits10 v) v (digits10-HasDigits v h) (digits10-le v)

-- For an integer of magnitude below 10^24, which every long long is, `sdsll2str` writes its
-- decimal text, the text that `ll2string` writes and `string2ll` reads.
pub sdsll2str-decimal_text : (n : ℤ) → magnitude n < 10 ^ 24 → sdsll2str n ≡ decimal_text n
unfolding sdsll2str decimal_text sdsull2str
sdsll2str-decimal_text (pos n) h = sdsull2str-decimal n h
sdsll2str-decimal_text (negsuc n) h =
    reverse-append (low_digits 24 (n + 1)) b'-' ∙ ap (λ t. b'-' ∷ t) (sdsull2str-decimal (n + 1) h)
