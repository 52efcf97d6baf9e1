-- ===== src/Networking/Bulks.antt =====
-- The loop of processMultibulkBuffer in net/networking.c over arguments that are all there.
use learnredis.Base.{
  ℕ, suc, ◌+◌, ◌-◌, ◌*◌, ◌^◌, ◌≤◌, ◌<◌, ◌≡◌, refl, sym, ap, ◌∙◌, inl, inr, false, ◌&&◌, none, some,
  List, [], ◌∷◌, ◌++◌, arith, length, length-append, length-eq-zero, append_assoc, append_nil, take,
  drop, ltb, leb, ◌==◌, if◌then◌else◌, Bool-cases, All,
}
use learnredis.Base.Int.{pos}
use learnredis.Util.Number.{string2ll, digits10}
use learnredis.Util.Number.Decimal.{decimal, decimal_text, length-decimal}
use learnredis.Util.Number.Parse.{string2ll_iff}
use learnredis.Networking.{
  Client, redis_ok, redis_mbulk_big_arg, strchr, trimmed, got, read_bulk_len, bulk_len,
  read_argument, bulk_loop,
}
use learnredis.Networking.Scanning.{
  drop-append, take_first, trimmed-append, strchr_cons, strchr-decimal,
}

-- A line of the protocol: a byte for its kind, a number, CR and LF
abbrev pub number_line : ℕ → ℕ → List ℕ → List ℕ
number_line kind n s = kind ∷ decimal_text (pos n) ++ 13 ∷ 10 ∷ s

-- A bulk of the protocol before the bytes `s`
abbrev pub bulk : List ℕ → List ℕ → List ℕ
bulk a s = number_line 36 (length a) (a ++ 13 ∷ 10 ∷ s)

unfoldable pub bulks : List (List ℕ) → List ℕ → List ℕ
bulks [] s = s
bulks (a ∷ args) s = bulk a (bulks args s)

pub strchr-number_line :
    (kind n : ℕ) (s : List ℕ)
    → (kind == 13) ≡ false
    → (kind == 0) ≡ false
    → strchr 13 (number_line kind n s) ≡ some (suc (digits10 n))
unfolding decimal_text strchr
strchr-number_line kind n s e f =
    strchr_cons 13 kind (decimal_text (pos n) ++ 13 ∷ 10 ∷ s) (digits10 n) e f
      (strchr-decimal (digits10 n) n (13 ∷ 10 ∷ s) 0 refl ∙ ap some (omega arith))

pub length-number_line :
    (kind n : ℕ) (s : List ℕ) → length (number_line kind n s) ≡ suc (digits10 n) + 2 + length s
unfolding decimal_text
length-number_line kind n s =
    omega (arith, length-append (decimal_text (pos n)) (13 ∷ 10 ∷ s), length-decimal (digits10 n) n)

pub string2ll-number_line :
    (n : ℕ) (s : List ℕ)
    → n < 2 ^ 63
    → string2ll (take (digits10 n) (decimal_text (pos n) ++ s)) ≡ some (pos n)
unfolding decimal_text
string2ll-number_line n s h =
    ap string2ll
      (take_first (digits10 n) (decimal (digits10 n) n) s (length-decimal (digits10 n) n))
    ∙ (string2ll_iff (decimal_text (pos n)) (pos n)).1 (omega (arith, h), refl)

-- What is left of the bulks, and where it stands in the buffer
abbrev pub Stands : Client → ℕ → List ℕ → List ℕ → Type 0
Stands c at before s = (c.querybuf ≡ before ++ s) × (length before ≡ at)

abbrev pub line_of : ℕ → ℕ → List ℕ
line_of kind n = number_line kind n []

pub after_line :
    (c : Client) (at : ℕ) (before : List ℕ) (kind n : ℕ) (s : List ℕ)
    → Stands c at before (number_line kind n s)
    → Stands c (at + suc (digits10 n) + 2) (before ++ line_of kind n) s
unfolding decimal_text
after_line c at before kind n s (e, f) = (
  e
      ∙ ap (λ l. before ++ kind ∷ l) (sym (append_assoc (decimal_text (pos n)) (13 ∷ 10 ∷ []) s))
      ∙ sym (append_assoc before (line_of kind n) s),
  omega (arith, f, length-append before (line_of kind n), length-number_line kind n []),
)

pub read_bulk_len-bulk :
    (c : Client) (at : ℕ) (before a s : List ℕ)
    → Stands c at before (bulk a s)
    → length a ≤ 512 * 1024 * 1024
    → (buf : List ℕ) × (at' : ℕ) × (before' : List ℕ) × (read_bulk_len c at
        ≡ got (record c { querybuf = buf; bulklen = some (length a) }) at' (length a))
      × (buf ≡ before' ++ (a ++ 13 ∷ 10 ∷ s))
      × (length before' ≡ at')
read_bulk_len-bulk c at before a s (e, f) h =
    let n = length a in
    let line = bulk a s in
    let rest : drop at c.querybuf ≡ line = rw (e, sym f) (drop-append before line) in
    let newline = strchr-number_line 36 n (a ++ 13 ∷ 10 ∷ s) refl refl in
    let whole : ltb (length c.querybuf) (at + suc (digits10 n) + 2) ≡ false = ground (
      arith,
      ap length e,
      f,
      length-append before line,
      length-number_line 36 n (a ++ 13 ∷ 10 ∷ s),
    ) in
    let number = string2ll-number_line n (13 ∷ 10 ∷ a ++ 13 ∷ 10 ∷ s) (omega (arith, h)) in
    let small : ltb (512 * 1024 * 1024) n ≡ false = ground (arith, h) in
    let index : suc (digits10 n) - 1 ≡ digits10 n = omega arith in
    let (e', f') = after_line c at before 36 n (a ++ 13 ∷ 10 ∷ s) (e, f) in
    elim (Bool-cases (leb redis_mbulk_big_arg n)) [
      | inl big ↦ (
        trimmed c.querybuf (at + suc (digits10 n) + 2),
        0,
        [],
        rw (rest, newline, whole, index, number, small, big) refl,
        rw (e', sym f') (trimmed-append (before ++ line_of 36 n) (a ++ 13 ∷ 10 ∷ s)),
        refl,
      )
      | inr little ↦ (
        c.querybuf,
        at + suc (digits10 n) + 2,
        before ++ line_of 36 n,
        rw (rest, newline, whole, index, number, small, little) refl,
        e',
        f',
      )
    ]

pub read_argument-bulk :
    (c : Client) (at : ℕ) (before a s : List ℕ)
    → Stands c at before (a ++ 13 ∷ 10 ∷ s)
    → (buf : List ℕ) × (at' : ℕ) × (before' : List ℕ) × (read_argument c at (length a)
        ≡ some (record c { argv = c.argv ++ a ∷ []; querybuf = buf; bulklen = none }, at'))
      × (buf ≡ before' ++ s)
      × (length before' ≡ at')
unfolding read_argument
read_argument-bulk c at before a s (e, f) =
    let n = length a in
    let len = length-append a (13 ∷ 10 ∷ s) in
    let there : ltb (length c.querybuf - at) (n + 2) ≡ false =
      ground (arith, ap length e, f, length-append before (a ++ 13 ∷ 10 ∷ s), len) in
    let special = at == 0 && leb redis_mbulk_big_arg n && (length c.querybuf == n + 2) in
    elim (Bool-cases special) [
      | inl only ↦
          let alone : (at ≡ 0) × (length c.querybuf ≡ n + 2) =
            (ground (arith, only), ground (arith, only)) in
          let none_before : before ≡ [] = length-eq-zero before (omega (arith, f, alone.0)) in
          let none_after : s ≡ [] =
            length-eq-zero s
              (omega (arith, alone.1, ap length e, length-append before (a ++ 13 ∷ 10 ∷ s), len)) in
          let taken : take n c.querybuf ≡ a =
            rw (e, none_before) (take_first n a (13 ∷ 10 ∷ s) refl) in
          ([], 0, [], rw (there, only, taken) refl, sym none_after, refl)
      | inr copied ↦
          let taken : take n (drop at c.querybuf) ≡ a =
            rw (e, sym f, drop-append before (a ++ 13 ∷ 10 ∷ s))
              (take_first n a (13 ∷ 10 ∷ s) refl) in
          (
            c.querybuf,
            at + n + 2,
            before ++ (a ++ 13 ∷ 10 ∷ []),
            rw (there, copied, taken) refl,
            e
                ∙ ap (λ l. before ++ l) (sym (append_assoc a (13 ∷ 10 ∷ []) s))
                ∙ sym (append_assoc before (a ++ 13 ∷ 10 ∷ []) s),
            omega (
              arith,
              f,
              length-append before (a ++ 13 ∷ 10 ∷ []),
              length-append a (13 ∷ 10 ∷ []),
            ),
          )
    ]

bulk_loop_step :
    (n : ℕ) (c c1 c2 : Client) (at at1 at2 len : ℕ)
    → bulk_len c at c.bulklen ≡ got c1 at1 len
    → read_argument c1 at1 len ≡ some (c2, at2)
    → bulk_loop (suc n) c at ≡ bulk_loop n (record c2 { multibulklen = n }) at2
unfolding bulk_loop
bulk_loop_step n c c1 c2 at at1 at2 len e f = rw (e, bulk_loop, f) refl

finish-rest :
    (c : Client) (at : ℕ) (before s : List ℕ)
    → Stands c at before s
    → (if at == 0 then c.querybuf else trimmed c.querybuf at) ≡ s
finish-rest c at before s (e, f) = elim (Bool-cases (at == 0)) [
  | inl g ↦
      let none_before : before ≡ [] = length-eq-zero before (ground (arith, f, g)) in
      rw (g, e, none_before) refl
  | inr g ↦ rw (g, e, sym f) (trimmed-append before s)
]

-- The loop over arguments that are all there, with `s` behind them
pub bulk_loop-bulks :
    (args : List (List ℕ)) (c : Client) (at : ℕ) (before s : List ℕ)
    → Stands c at before (bulks args s)
    → c.bulklen ≡ none
    → c.multibulklen ≡ length args
    → All (λ a. length a ≤ 512 * 1024 * 1024) args
    → bulk_loop (length args) c at ≡ (
      record c { querybuf = s; argv = c.argv ++ args; multibulklen = 0; bulklen = none },
      redis_ok,
    )
unfolding bulk_loop bulks
bulk_loop-bulks [] c at before s (e, f) unknown left short =
    rw (finish-rest c at before s (e, f), left, append_nil c.argv, unknown) refl
bulk_loop-bulks (a ∷ args) c at before s st unknown left short =
    let (buf, at1, before1, e1, k1, f1) =
      read_bulk_len-bulk c at before a (bulks args s) st short.0 in
    let c1 : Client = record c { querybuf = buf; bulklen = some (length a) } in
    let (buf2, at2, before2, e2, k2, f2) =
      read_argument-bulk c1 at1 before1 a (bulks args s) (k1, f1) in
    let c2 : Client = record c {
      argv = c.argv ++ a ∷ [];
      querybuf = buf2;
      bulklen = none;
      multibulklen = length args;
    } in
    let later = bulk_loop-bulks args c2 at2 before2 s (k2, f2) refl refl short.1 in
    bulk_loop_step (length args) c c1
      (record c1 { argv = c.argv ++ a ∷ []; querybuf = buf2; bulklen = none }) at at1 at2 (length a)
      (ap (bulk_len c at) unknown ∙ e1) e2
    ∙ later
    ∙ ap (λ l. (record c { querybuf = s; argv = l; multibulklen = 0; bulklen = none }, redis_ok))
        (append_assoc c.argv (a ∷ []) args)
