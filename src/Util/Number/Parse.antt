-- ===== src/Util/Number/Parse.antt =====
-- `string2ll` of tool/util.c accepts the decimal texts of `long long` values, and nothing else.
use native.Mathlib.Nat.{pow-suc}
use learnredis.Base.{
  ℕ, zero, suc, ◌+◌, ◌-◌, ◌*◌, ◌/◌, ◌%◌, ◌^◌, ◌≤◌, ◌<◌, ◌≡◌, ◌↔◌, refl, sym, ◌∙◌, ap, ◌⊎◌, inl, inr,
  Bool, true, false, ◌&&◌, some, List, [], ◌∷◌, ◌++◌, arith, length, leb, ◌==◌, if◌then◌else◌,
  Bool-cases, Option-cases, length-eq-zero, ◌>>=◌,
}
use learnredis.Base.Int.{ℤ, pos, negsuc}
use learnredis.Util.Number.{
  llong_max, ullong_max, is_digit, digits_loop, string2ll_digits, signed, string2ll, magnitude,
  is_negative, digits10, digits10_low,
}
use learnredis.Util.Number.Digits.{HasDigits, HasDigits-least, digits10-HasDigits}
use learnredis.Util.Number.Print.{pow_pos}
use learnredis.Util.Number.Decimal.{decimal, decimal_one, decimal_text}

digits_loop-append :
    (v : ℕ) (a b : List ℕ) → digits_loop v (a ++ b) ≡ digits_loop v a >>= λ u. digits_loop u b
unfolding digits_loop
digits_loop-append v [] b = refl
digits_loop-append v (c ∷ a) b =
    ground (arith, digits_loop-append ((v * 10 % 2 ^ 64 + (c - 48)) % 2 ^ 64) a b)

digits_loop_one :
    (u d : ℕ) → d < 10 → u * 10 + d ≤ ullong_max → digits_loop u ((48 + d) ∷ []) ≡ some (u * 10 + d)
unfolding digits_loop is_digit
digits_loop_one u d h l = ground arith

-- Reading the `k` digits of `w` behind the number `v`.
digits_loop-decimal :
    (k v w : ℕ)
    → w < 10 ^ k
    → v * 10 ^ k + w ≤ ullong_max
    → digits_loop v (decimal k w) ≡ some (v * 10 ^ k + w)
unfolding decimal
digits_loop-decimal zero v w h l = unfold digits_loop in ap some (omega arith)
digits_loop-decimal (suc k) v w h l =
    let p = pow-suc 10 k in
    let q = ap (λ (t : ℕ). v * t) p in
    let high = digits_loop-decimal k v (w / 10) (omega (arith, p)) (omega (arith, q)) in
    digits_loop-append v (decimal k (w / 10)) ((48 + w % 10) ∷ [])
    ∙ ap (λ r. r >>= λ u. digits_loop u ((48 + w % 10) ∷ [])) high
    ∙ (digits_loop_one (v * 10 ^ k + w / 10) (w % 10) (omega arith) (omega (arith, q)))
    ∙ ap some (omega (arith, q))

-- A digit in front of the others.
decimal-cons :
    (k d w : ℕ) → d < 10 → w < 10 ^ k → (48 + d) ∷ decimal k w ≡ decimal (suc k) (d * 10 ^ k + w)
unfolding decimal
decimal-cons zero d w h l = ap (λ n. n ∷ []) (omega arith)
decimal-cons (suc k) d w h l =
    let p = pow-suc 10 k in
    let q = ap (λ (t : ℕ). d * t) p in
    let x = d * 10 ^ suc k + w in
    let high : d * 10 ^ k + w / 10 ≡ x / 10 = omega (arith, q) in
    let low : 48 + w % 10 ≡ 48 + x % 10 = omega (arith, q) in
    ap (λ r. r ++ (48 + w % 10) ∷ []) (decimal-cons k d (w / 10) h (omega (arith, p)))
    ∙ ap (λ n. decimal (suc k) n ++ (48 + w % 10) ∷ []) high
    ∙ ap (λ n. decimal (suc k) (x / 10) ++ n ∷ []) low

mul_nine : (d n : ℕ) → d ≤ 9 → d * n ≤ 9 * n
mul_nine d n h = grind arith

mul_one : (d n : ℕ) → 1 ≤ d → n ≤ d * n
mul_one d n h = grind arith

pow_lt : (a b : ℕ) → 10 ^ a < 10 ^ b → a < b
pow_lt zero zero h = absurd (omega arith)
pow_lt zero (suc b) h = omega arith
pow_lt (suc a) zero h = absurd (omega (arith, pow-suc 10 a, pow_pos a))
pow_lt (suc a) (suc b) h = omega (arith, pow_lt a b (omega (arith, pow-suc 10 a, pow-suc 10 b)))

-- A number has one count of digits.
HasDigits-unique : (j k v : ℕ) → HasDigits j v → HasDigits k v → 0 < v → j ≡ k
HasDigits-unique j k v a b p = omega (
  arith,
  pow_lt j (suc k) (omega (arith, HasDigits-least j v a p, b.fits, pow-suc 10 k)),
  pow_lt k (suc j) (omega (arith, HasDigits-least k v b p, a.fits, pow-suc 10 j)),
)

-- What the loop has read.
digits_loop-inv :
    (v : ℕ) (s : List ℕ) (u : ℕ)
    → v ≤ ullong_max
    → digits_loop v s ≡ some u
    → (w : ℕ) × (w < 10 ^ length s)
      × (u ≡ v * 10 ^ length s + w)
      × (s ≡ decimal (length s) w)
      × (u ≤ ullong_max)
unfolding digits_loop is_digit
digits_loop-inv v [] u b h = (0, omega arith, ground arith, unfold decimal in refl, ground arith)
digits_loop-inv v (c ∷ s) u b h =
    let read : (48 ≤ c)
        × (c ≤ 57)
        × (v * 10 + (c - 48) ≤ ullong_max)
        × (digits_loop (v * 10 + (c - 48)) s ≡ some u) =
      ground arith in
    let (w, l, e, t, m) = digits_loop-inv (v * 10 + (c - 48)) s u read.2 read.3 in
    let d = c - 48 in
    let p = pow-suc 10 (length s) in
    (
      d * 10 ^ length s + w,
      omega (arith, p, mul_nine d (10 ^ length s) (omega arith)),
      omega (arith, e, ap (λ (t : ℕ). v * t) p),
      ap (λ r. c ∷ r) t
          ∙ ap (λ x. x ∷ decimal (length s) w) (omega arith)
          ∙ decimal-cons (length s) d w (omega arith) l,
      m,
    )

decimal_zero : decimal (digits10 0) 0 ≡ 48 ∷ []
unfolding decimal digits10 digits10_low
decimal_zero = refl

abbrev pub IsLongLong : ℤ → Type 0
IsLongLong n = magnitude n ≤ (if is_negative n then llong_max + 1 else llong_max)

-- The first digit of a positive number is not 0.
first_digit :
    (n v : ℕ)
    → HasDigits (suc n) v
    → 0 < v
    → (c : ℕ) × (s : List ℕ) × (decimal (suc n) v ≡ c ∷ s) × (49 ≤ c) × (c ≤ 57)
unfolding decimal
first_digit zero v d p =
    (48 + v, [], decimal_one v (omega (arith, d.fits)), omega arith, omega (arith, d.fits))
first_digit (suc n) v d p =
    let e = pow-suc 10 n in
    let e' = pow-suc 10 (suc n) in
    let has : HasDigits (suc n) (v / 10) = record {
      some_digit = omega arith;
      fits = omega (arith, d.fits);
      leading = inr (omega (arith, d.leading));
    } in
    let (c, s, t, lo, hi) = first_digit n (v / 10) has (omega (arith, d.leading, pow_pos n)) in
    (c, s ++ (48 + v % 10) ∷ [], ap (λ r. r ++ (48 + v % 10) ∷ []) t, lo, hi)

-- From a first digit that is not 0 on, the text is that of the number that the loop reads.
loop_from_first :
    (c : ℕ) (s : List ℕ) (v : ℕ)
    → 49 ≤ c
    → c ≤ 57
    → digits_loop 0 (c ∷ s) ≡ some v
    → digits_loop (c - 48) s ≡ some v
unfolding digits_loop is_digit
loop_from_first c s v lo hi h =
    let e : 0 * 10 + (c - 48) ≡ c - 48 = omega arith in rw e at (taken h)
  where
    taken : digits_loop 0 (c ∷ s) ≡ some v → digits_loop (0 * 10 + (c - 48)) s ≡ some v
    taken h = ground arith

-- The text of a positive number: it begins with a digit that is not 0, and reads back.
record PositiveText (v : ℕ) : Type 0 where
  pub c : ℕ
  pub s : List ℕ
  pub text : decimal (digits10 v) v ≡ c ∷ s
  pub low : 49 ≤ c
  pub high : c ≤ 57
  pub reads : (only : Bool) → string2ll_digits only (c ∷ s) ≡ some v

positive_text : (v : ℕ) → 0 < v → v ≤ ullong_max → PositiveText v
unfolding string2ll_digits
positive_text v p m =
    let d = digits10-HasDigits v (omega arith) in
    let n = digits10 v - 1 in
    let k : digits10 v ≡ suc n = omega (arith, d.some_digit) in
    let (c, s, t, lo, hi) = first_digit n v (rw k at d) p in
    let text : decimal (digits10 v) v ≡ c ∷ s = ap (λ j. decimal j v) k ∙ t in
    let zero_more : 0 * 10 ^ digits10 v + v ≡ v = omega arith in
    let run = digits_loop-decimal (digits10 v) 0 v d.fits (omega arith) in
    let run' : digits_loop 0 (c ∷ s) ≡ some v =
      ap (digits_loop 0) (sym text) ∙ run ∙ ap some zero_more in
    record {
      c = c;
      s = s;
      text = text;
      low = lo;
      high = hi;
      reads = λ only. ground (arith, loop_from_first c s v lo hi run');
    }

-- What is read from the first digit on is the text of a positive number.
string2ll_digits-inv :
    (only : Bool) (s : List ℕ) (u : ℕ)
    → (only ≡ true → length s ≡ 1)
    → string2ll_digits only s ≡ some u
    → ((s ≡ 48 ∷ []) × (only ≡ true) × (u ≡ 0))
      ⊎ ((0 < u) × (u ≤ ullong_max) × (s ≡ decimal (digits10 u) u))
unfolding string2ll_digits
string2ll_digits-inv only [] u o h = cc
string2ll_digits-inv only (c ∷ s) u o h = elim (Bool-cases (leb 49 c && leb c 57)) [
  | inl digit ↦
      let range : (49 ≤ c) × (c ≤ 57) = ground arith in
      let run : digits_loop (c - 48) s ≡ some u = rw digit at h in
      let (w, l, e, t, m) = digits_loop-inv (c - 48) s u (omega arith) run in
      let n = length s in
      let d = c - 48 in
      let first = mul_one d (10 ^ n) (omega arith) in
      let has : HasDigits (suc n) u = record {
        some_digit = omega arith;
        fits = omega (arith, pow-suc 10 n, mul_nine d (10 ^ n) (omega arith));
        leading = inr (omega (arith, pow-suc 10 n));
      } in
      let pos : 0 < u = omega (arith, pow_pos n) in
      let same =
        HasDigits-unique (suc n) (digits10 u) u has (digits10-HasDigits u (omega arith)) pos in
      inr (
        pos,
        m,
        ap (λ r. c ∷ r) t
            ∙ ap (λ x. x ∷ decimal n w) (omega arith)
            ∙ decimal-cons n d w (omega arith) l
            ∙ ap (λ x. decimal (suc n) x) (sym e)
            ∙ ap (λ k. decimal k u) same,
      )
  | inr other ↦
      let zero : (c ≡ 48) × (only ≡ true) × (u ≡ 0) = ground arith in
      inl (
        ap (λ x. x ∷ s) zero.0 ∙ ap (λ r. 48 ∷ r) (length-eq-zero s (omega (arith, o zero.1))),
        zero.1,
        zero.2,
      )
]

string2ll_of_text : (n : ℤ) → IsLongLong n → string2ll (decimal_text n) ≡ some n
unfolding string2ll decimal_text signed decimal digits10 digits10_low
string2ll_of_text (negsuc m) h =
    let p = positive_text (m + 1) (omega arith) (omega arith) in
    ap (λ r. string2ll (b'-' ∷ r)) p.text ∙ ground (arith, p.reads false)
string2ll_of_text (pos zero) h = refl
string2ll_of_text (pos (suc m)) h =
    let p = positive_text (suc m) (omega arith) (omega arith) in
    ap string2ll p.text ∙ ground (arith, p.reads (length p.s == 0), p.low, p.high)

-- What the sign makes of the number that was read.
signed_text :
    (minus : Bool) (v : ℕ) (n : ℤ)
    → (0 < v) ⊎ (minus ≡ false)
    → signed minus v ≡ some n
    → IsLongLong n
      × (decimal_text n ≡ (if minus then b'-' ∷ decimal (digits10 v) v else decimal (digits10 v) v))
unfolding signed decimal_text
signed_text true zero n p h = ground arith
signed_text true (suc v) n p h =
    let e : n ≡ negsuc v = ground arith in
    let w : v + 1 ≡ suc v = omega arith in rw e (ground arith, rw w refl)
signed_text false v n p h = let e : n ≡ pos v = ground arith in rw e (ground arith, refl)

text_of_minus :
    (s : List ℕ) (n : ℤ)
    → (string2ll_digits false s >>= λ v. signed true v) ≡ some n
    → IsLongLong n × (b'-' ∷ s ≡ decimal_text n)
text_of_minus s n h = elim (Option-cases (string2ll_digits false s)) [
  | inl e ↦ cc
  | inr (v, e) ↦ elim (string2ll_digits-inv false s v (λ b. cc) e) [
    | inl z ↦ cc (z.1)
    | inr (p, m, t) ↦
        let r = signed_text true v n (inl p) (rw e at h) in (r.0, ap (λ q. b'-' ∷ q) t ∙ sym r.1)
  ]
]

text_of_digits :
    (c : ℕ) (s : List ℕ) (n : ℤ)
    → (string2ll_digits (length s == 0) (c ∷ s) >>= λ v. signed false v) ≡ some n
    → IsLongLong n × (c ∷ s ≡ decimal_text n)
text_of_digits c s n h = elim (Option-cases (string2ll_digits (length s == 0) (c ∷ s))) [
  | inl e ↦ cc
  | inr (v, e) ↦
      let r = signed_text false v n (inr refl) (rw e at h) in
      elim (string2ll_digits-inv (length s == 0) (c ∷ s) v (λ b. ground arith) e) [
        | inl z ↦ (r.0, z.0 ∙ sym (r.1 ∙ ap (λ w. decimal (digits10 w) w) z.2 ∙ decimal_zero))
        | inr (p, m, t) ↦ (r.0, t ∙ sym r.1)
      ]
]

text_of_string2ll :
    (s : List ℕ) (n : ℤ) → string2ll s ≡ some n → IsLongLong n × (s ≡ decimal_text n)
unfolding string2ll
text_of_string2ll [] n h = cc
text_of_string2ll (c ∷ s) n h = elim (Bool-cases (length s == 0 && c == 48)) [
  | inl only ↦
      let e : n ≡ pos 0 = ground arith in
      let z : (c ≡ 48) × (length s ≡ 0) = ground arith in
      rw e (
        omega arith,
        ap (λ x. x ∷ s) z.0
            ∙ ap (λ r. 48 ∷ r) (length-eq-zero s z.1)
            ∙ sym (unfold decimal_text in decimal_zero),
      )
  | inr other ↦ elim (Bool-cases (c == b'-')) [
    | inl minus ↦
        let e : c ≡ b'-' = ground arith in
        let r = text_of_minus s n (rw (other, minus) at h) in (r.0, ap (λ x. x ∷ s) e ∙ r.1)
    | inr digit ↦ text_of_digits c s n (rw (other, digit) at h)
  ]
]

-- `string2ll` succeeds on a string with the integer `n` exactly when `n` fits a long long and the
-- string is its decimal text, with no leading zero, plus sign or other byte.
pub string2ll_iff :
    (s : List ℕ) (n : ℤ) → (string2ll s ≡ some n) ↔ (IsLongLong n × (s ≡ decimal_text n))
string2ll_iff s n = (text_of_string2ll s n, λ h. ap string2ll h.1 ∙ string2ll_of_text n h.0)
