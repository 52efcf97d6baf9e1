-- ===== src/Util/Number/Digits.antt =====
-- `digits10` of tool/util.c counts decimal digits.
use native.Mathlib.Nat.{pow-suc}
use learnredis.Base.{
  ℕ, zero, suc, ◌+◌, ◌*◌, ◌/◌, ◌^◌, ◌≤◌, ◌<◌, ◌≡◌, refl, ◌⊎◌, inl, inr, arith, ltb, Bool-cases,
}
use learnredis.Util.Number.{digits10_low, digits10}

-- `v` has `k` decimal digits and no leading zero.
pub record HasDigits (k v : ℕ) : Type 0 where
  pub some_digit : 0 < k
  pub fits : v < 10 ^ k
  pub leading : (k ≡ 1) ⊎ (10 ^ k ≤ 10 * v)

digits10_low-HasDigits : (v : ℕ) → v < 1_000_000_000_000 → HasDigits (digits10_low v) v
unfolding digits10_low
digits10_low-HasDigits v h = record {
  some_digit = ground arith;
  fits = ground arith;
  leading = ground arith;
}

pub HasDigits-least : (k v : ℕ) → HasDigits k v → 0 < v → 10 ^ k ≤ 10 * v
HasDigits-least k v d p = elim d.leading [ inl e ↦ rw e (omega arith) | inr h ↦ h ]

twelve_more : (k : ℕ) → 10 ^ (12 + k) ≡ 1_000_000_000_000 * 10 ^ k
twelve_more zero = refl
twelve_more (suc k) =
    let e : 12 + suc k ≡ suc (12 + k) = omega arith in
    rw (e, pow-suc, pow-suc) (omega (arith, twelve_more k))

-- For `v` below 10^24 `digits10` is the number of decimal digits of `v`: it is positive, `v` is
-- below that power of ten and, unless it is 1, no less than the power before.
pub digits10-HasDigits : (v : ℕ) → v < 10 ^ 24 → HasDigits (digits10 v) v
unfolding digits10
digits10-HasDigits v h = elim (Bool-cases (ltb v 1_000_000_000_000)) [
  | inl low ↦ rw low (digits10_low-HasDigits v (ground arith))
  | inr high ↦
      let q = v / 1_000_000_000_000 in
      let r = digits10_low-HasDigits q (omega arith) in
      let k = digits10_low q in
      let above : 1_000_000_000_000 ≤ v = ground arith in
      rw high (record {
        some_digit = omega arith;
        fits = omega (arith, twelve_more k, r.fits);
        leading = inr (omega (arith, twelve_more k, HasDigits-least k q r (omega arith)));
      })
]

pub digits10-le : (v : ℕ) → digits10 v ≤ 24
unfolding digits10 digits10_low
digits10-le v = ground arith
