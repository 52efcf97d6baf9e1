-- ===== src/Util/Number/Print.antt =====
-- `ll2string` of tool/util.c writes the decimal text, from the end of the buffer's part on.
use native.Mathlib.Nat.{pow-suc}
use mathlib.Core.List.{append_assoc}
use learnredis.Base.{
  ℕ, zero, suc, ◌+◌, ◌-◌, ◌*◌, ◌/◌, ◌%◌, ◌^◌, ◌≤◌, ◌<◌, ◌≡◌, refl, sym, ◌∙◌, ap, inl, inr, true,
  false, List, [], ◌∷◌, ◌++◌, arith, length, set, drop, ltb, leb, if◌then◌else◌, Bool-cases,
  length-append, length-eq-zero,
}
use learnredis.Base.Int.{ℤ, pos, negsuc}
use learnredis.Util.Number.{digits, print_loop, write_ll, ll2string, magnitude, digits10}
use learnredis.Util.Number.Digits.{HasDigits, digits10-HasDigits, digits10-le}
use learnredis.Util.Number.Decimal.{
  decimal, decimal_pair, decimal_one, length-decimal, decimal_text,
}

digits_high : (n : ℕ) → digits (n * 2) ≡ 48 + n / 10
digits_high n = ground arith

digits_low : (n : ℕ) → digits (n * 2 + 1) ≡ 48 + n % 10
digits_low n = ground arith

module _ {ℓ} {A : Type ℓ} where
  -- Writes behind a prefix of known length.
  set-append :
      (n : ℕ) (a : List A) (x y : A) (b : List A) → n ≡ length a → set (a ++ x ∷ b) n y ≡ a ++ y ∷ b
  set-append zero [] x y b e = refl
  set-append zero (z ∷ a) x y b e = absurd (omega arith)
  set-append (suc n) [] x y b e = absurd (omega arith)
  set-append (suc n) (z ∷ a) x y b e = ap (λ l. z ∷ l) (set-append n a x y b (omega arith))

  set-append_second :
      (n : ℕ) (a : List A) (w x y : A) (b : List A)
      → n ≡ length a + 1
      → set (a ++ w ∷ x ∷ b) n y ≡ a ++ w ∷ y ∷ b
  set-append_second zero a w x y b e = absurd (omega arith)
  set-append_second (suc n) [] w x y b e = let z : n ≡ 0 = omega arith in rw z refl
  set-append_second (suc n) (z ∷ a) w x y b e =
      ap (λ l. z ∷ l) (set-append_second n a w x y b (omega arith))

  -- A list that is not empty ends in an item.
  snoc_of :
      (n : ℕ) (p : List A)
      → length p ≡ suc n
      → (p' : List A) × (x : A) × (p ≡ p' ++ x ∷ []) × (length p' ≡ n)
  snoc_of n [] h = absurd (omega arith)
  snoc_of zero (x ∷ []) h = ([], x, refl, refl)
  snoc_of zero (x ∷ y ∷ p) h = absurd (omega arith)
  snoc_of (suc n) (x ∷ p) h =
      let (p', y, e, l) = snoc_of n p (omega arith) in (x ∷ p', y, ap (λ r. x ∷ r) e, omega arith)

  -- So does a longer one in two.
  snoc_two :
      (n : ℕ) (p : List A)
      → length p ≡ suc (suc n)
      → (p' : List A) × (x y : A) × (p ≡ p' ++ x ∷ y ∷ []) × (length p' ≡ n)
  snoc_two n p h =
      let (r, y, e, l) = snoc_of (suc n) p h in
      let (p', x, e', l') = snoc_of n r l in
      (p', x, y, e ∙ ap (λ s. s ++ y ∷ []) e' ∙ append_assoc p' (x ∷ []) (y ∷ []), l')

  -- The two writes of a pair of digits, the low one first.
  write_pair :
      (q p rest : List A) (n next : ℕ) (hi lo : A)
      → length p ≡ suc (suc n)
      → next + 1 ≡ length q + suc (suc n)
      → (p' : List A) × (length p' ≡ n)
        × (set (set (q ++ (p ++ rest)) next lo) (next - 1) hi ≡ q ++ (p' ++ hi ∷ lo ∷ rest))
  write_pair q p rest n next hi lo l e =
      let (p', x, y, shape, l') = snoc_two n p l in
      let behind : length (q ++ p') ≡ length q + n = length-append q p' ∙ omega arith in
      (
        p',
        l',
        ap (λ r. set (set (q ++ (r ++ rest)) next lo) (next - 1) hi) shape
            ∙ ap (λ r. set (set r next lo) (next - 1) hi) (regroup p' x y)
            ∙ ap (λ r. set r (next - 1) hi)
                (set-append_second next (q ++ p') x y lo rest (omega arith))
            ∙ set-append (next - 1) (q ++ p') x hi (lo ∷ rest) (omega arith)
            ∙ append_assoc q p' (hi ∷ lo ∷ rest),
      )
    where
      regroup :
          (p' : List A) (x y : A) → q ++ ((p' ++ x ∷ y ∷ []) ++ rest) ≡ (q ++ p') ++ x ∷ y ∷ rest
      regroup p' x y = simp append_assoc

pub pow_pos : (k : ℕ) → 0 < 10 ^ k
pow_pos zero = omega arith
pow_pos (suc k) = omega (arith, pow-suc 10 k, pow_pos k)

one_digit : (k v : ℕ) → HasDigits k v → v < 10 → k ≡ 1
one_digit zero v d h = absurd (omega (arith, d.some_digit))
one_digit (suc zero) v d h = refl
one_digit (suc (suc k)) v d h =
    absurd (omega (arith, d.leading, pow-suc 10 (suc k), pow-suc 10 k, pow_pos k))

two_digits : (k v : ℕ) → HasDigits k v → 10 ≤ v → v < 100 → k ≡ 2
two_digits zero v d h l = absurd (omega (arith, d.some_digit))
two_digits (suc zero) v d h l = absurd (omega (arith, d.fits))
two_digits (suc (suc zero)) v d h l = refl
two_digits (suc (suc (suc k))) v d h l = absurd (
    omega (arith, d.leading, pow-suc 10 (suc (suc k)), pow-suc 10 (suc k), pow-suc 10 k, pow_pos k))

-- Without its last two digits.
more_digits :
    (k v : ℕ) → HasDigits k v → 100 ≤ v → (n : ℕ) × (k ≡ suc (suc n)) × HasDigits n (v / 100)
more_digits zero v d h = absurd (omega (arith, d.some_digit))
more_digits (suc zero) v d h = absurd (omega (arith, d.fits))
more_digits (suc (suc zero)) v d h = absurd (omega (arith, d.fits))
more_digits (suc (suc (suc k))) v d h = (
  suc k,
  refl,
  record {
    some_digit = omega arith;
    fits = omega (arith, d.fits, pow-suc 10 (suc (suc k)), pow-suc 10 (suc k));
    leading = inr (omega (arith, d.leading, pow-suc 10 (suc (suc k)), pow-suc 10 (suc k)));
  },
)

decimal_two : (v : ℕ) → v < 100 → decimal 2 v ≡ digits (v * 2) ∷ digits (v * 2 + 1) ∷ []
unfolding decimal
decimal_two v h =
    let hi : 48 + v / 10 % 10 ≡ digits (v * 2) = omega (arith, digits_high v) in
    let lo : 48 + v % 10 ≡ digits (v * 2 + 1) = omega (arith, digits_low v) in rw (hi, lo) refl

-- The last two digits of a text of `n` digits more.
pair_text :
    (n value : ℕ) (rest : List ℕ)
    → decimal (suc (suc n)) value ++ rest
      ≡ decimal n (value / 100) ++ digits (value % 100 * 2) ∷ digits (value % 100 * 2 + 1) ∷ rest
pair_text n value rest =
    let hi : 48 + value / 10 % 10 ≡ digits (value % 100 * 2) =
      omega (arith, digits_high (value % 100)) in
    let lo : 48 + value % 10 ≡ digits (value % 100 * 2 + 1) =
      omega (arith, digits_low (value % 100)) in
    rw (decimal_pair n value, hi, lo) (append_assoc (decimal n (value / 100)) _ rest)

-- The loop on a buffer with the prefix `q` and `k` bytes to fill.
print_loop-decimal :
    (fuel k value : ℕ) (q p rest : List ℕ) (next : ℕ)
    → HasDigits k value
    → k ≤ fuel * 2
    → length p ≡ k
    → next + 1 ≡ length q + k
    → print_loop fuel value next (q ++ (p ++ rest)) ≡ q ++ (decimal k value ++ rest)
unfolding print_loop
print_loop-decimal zero k value q p rest next d f l e = absurd (omega (arith, d.some_digit))
print_loop-decimal (suc fuel) k value q p rest next d f l e = elim (Bool-cases (leb 100 value)) [
  | inl more ↦
      let (n, ek, d') = more_digits k value d (ground arith) in
      let i = value % 100 * 2 in
      let (p', l', writes) =
        write_pair q p rest n next (digits i) (digits (i + 1)) (l ∙ ek)
          (e ∙ ap (λ j. length q + j) ek) in
      let step =
        print_loop-decimal fuel n (value / 100) q p' (digits i ∷ digits (i + 1) ∷ rest) (next - 2)
          d' (omega arith) l' (omega (arith, d'.some_digit)) in
      rw (more, print_loop, writes)
        (step
          ∙ ap (λ r. q ++ r)
              (sym (pair_text n value rest) ∙ ap (λ j. decimal j value ++ rest) (sym ek)))
  | inr last ↦ elim (Bool-cases (ltb value 10)) [
    | inl one ↦
        let ek : k ≡ 1 = one_digit k value d (ground arith) in
        let (p', x, shape, l') = snoc_of 0 p (l ∙ ek) in
        let only : p ≡ x ∷ [] = shape ∙ ap (λ r. r ++ x ∷ []) (length-eq-zero p' l') in
        rw (last, one)
          (ap (λ r. set (q ++ (r ++ rest)) next (48 + value)) only
            ∙ set-append next q x (48 + value) rest (omega arith)
            ∙ ap (λ r. q ++ (r ++ rest))
                (sym (ap (λ j. decimal j value) ek ∙ decimal_one value (ground arith))))
    | inr two ↦
        let ek : k ≡ 2 = two_digits k value d (ground arith) (ground arith) in
        let (p', l', writes) =
          write_pair q p rest 0 next (digits (value * 2)) (digits (value * 2 + 1)) (l ∙ ek)
            (e ∙ ap (λ j. length q + j) ek) in
        rw (last, two, writes)
          (ap (λ r. q ++ (r ++ digits (value * 2) ∷ digits (value * 2 + 1) ∷ rest))
              (length-eq-zero p' l')
            ∙ ap (λ r. q ++ (r ++ rest))
                (sym (ap (λ j. decimal j value) ek ∙ decimal_two value (ground arith))))
  ]
]

-- The buffer cut at the byte behind the text.
cut_at {ℓ} :
    {A : Type ℓ} (n : ℕ) (dst : List A)
    → n < length dst
    → (p : List A) × (z : A) × (dst ≡ p ++ z ∷ drop (n + 1) dst) × (length p ≡ n)
cut_at n [] h = absurd (omega arith)
cut_at zero (z ∷ dst) h = ([], z, refl, refl)
cut_at (suc n) (x ∷ dst) h =
    let (p, z, e, l) = cut_at n dst (omega arith) in
    let shift : suc n + 1 ≡ suc (n + 1) = omega arith in
    (x ∷ p, z, ap (λ r. x ∷ r) (rw shift e), omega arith)

-- What the loop leaves once the terminator is written, with `q` in front.
printed_text :
    (value : ℕ) (q p : List ℕ) (z : ℕ) (rest : List ℕ)
    → value < 10 ^ 24
    → length p ≡ digits10 value
    → print_loop 20 value
        (length q + digits10 value - 1)
        (set (q ++ (p ++ z ∷ rest)) (length q + digits10 value) 0)
      ≡ q ++ (decimal (digits10 value) value ++ 0 ∷ rest)
printed_text value q p z rest h l =
    let d = digits10-HasDigits value h in
    ap (λ r. print_loop 20 value (length q + digits10 value - 1) r)
      (ap (λ r. set r (length q + digits10 value) 0) (sym (append_assoc q p (z ∷ rest)))
        ∙ set-append _ (q ++ p) z 0 rest (omega (arith, length-append q p))
        ∙ append_assoc q p (0 ∷ rest))
    ∙ print_loop-decimal 20 (digits10 value) value q p (0 ∷ rest) _ d
        (omega (arith, digits10-le value)) l (omega (arith, d.some_digit))

write_positive :
    (n : ℕ) (dst : List ℕ)
    → n < 10 ^ 24
    → digits10 n < length dst
    → write_ll dst n false (digits10 n) ≡ decimal (digits10 n) n ++ 0 ∷ drop (digits10 n + 1) dst
unfolding write_ll
write_positive n dst h room =
    let (p, z, e, l) = cut_at (digits10 n) dst room in
    let at : 0 + digits10 n ≡ digits10 n = omega arith in
    ap (λ r. print_loop 20 n (digits10 n - 1) (set r (digits10 n) 0)) e
    ∙ (rw at at (printed_text n [] p z (drop (digits10 n + 1) dst) h l))

write_negative :
    (n : ℕ) (dst : List ℕ)
    → n < 10 ^ 24
    → digits10 n + 1 < length dst
    → write_ll dst n true (digits10 n + 1)
      ≡ b'-' ∷ (decimal (digits10 n) n ++ 0 ∷ drop (digits10 n + 1 + 1) dst)
unfolding write_ll
write_negative n [] h room = absurd (omega arith)
write_negative n (x ∷ dst) h room =
    let (p, z, e, l) = cut_at (digits10 n) dst (omega arith) in
    let at : 1 + digits10 n ≡ digits10 n + 1 = omega arith in
    let end : digits10 n + 1 + 1 ≡ suc (digits10 n + 1) = omega arith in
    ap (λ r. set (print_loop 20 n (digits10 n + 1 - 1) (set (x ∷ r) (digits10 n + 1) 0)) 0 b'-') e
    ∙ ap (λ r. set r 0 b'-')
        (rw at at (printed_text n (x ∷ []) p z (drop (digits10 n + 1) dst) h l))
    ∙ rw end refl

-- For an integer of magnitude below 10^24 `ll2string` writes its decimal text and a NUL, returns
-- the length of the text and leaves the rest of the buffer alone; if the text and the NUL do not
-- fit it returns 0 and writes nothing.
pub ll2string-decimal_text :
    (n : ℤ) (dst : List ℕ)
    → magnitude n < 10 ^ 24
    → ll2string dst n ≡ (
        if leb (length dst) (length (decimal_text n)) then (0, dst) else (
          length (decimal_text n),
          decimal_text n ++ 0 ∷ drop (length (decimal_text n) + 1) dst,
        ))
unfolding ll2string decimal_text
ll2string-decimal_text (pos n) dst h =
    let e : digits10 n + 0 ≡ digits10 n = omega arith in
    rw (e, length-decimal (digits10 n) n)
      (elim (Bool-cases (leb (length dst) (digits10 n))) [
        | inl short ↦ rw short refl
        | inr long ↦ rw (long, write_positive n dst h (ground arith)) refl
      ])
ll2string-decimal_text (negsuc n) dst h =
    let e : suc (digits10 (n + 1)) ≡ digits10 (n + 1) + 1 = omega arith in
    rw (length-decimal (digits10 (n + 1)) (n + 1), e)
      (elim (Bool-cases (leb (length dst) (digits10 (n + 1) + 1))) [
        | inl short ↦ rw short refl
        | inr long ↦ rw (long, write_negative (n + 1) dst h (ground arith)) refl
      ])
