-- ===== src/Sds/RoundTrip.antt =====
-- `sdssplitargs` of struct/sds.c reads what `sdscatrepr` writes.
use learnredis.Base.{
  ℕ, zero, suc, ◌/◌, ◌%◌, ◌≤◌, ◌<◌, ◌≡◌, refl, sym, ap, ◌∙◌, inl, inr, true, false, ◌||◌, some,
  List, [], ◌∷◌, ◌++◌, arith, length, length-append, append_assoc, append_nil, All, ◌==◌,
  Bool-cases,
}
use learnredis.Sds.{
  Ctype, is_hex_digit, hex_digit_to_int, hex_digit, unescape_char, unescape, repr_byte, repr_loop,
  c_string, sdscatrepr, close_quote, in_quotes, in_token, skip_blanks, split_loop, sdssplitargs,
}

unescape_plain :
    (c : ℕ) (p : List ℕ) → (c == b'x') ≡ false → unescape (c ∷ p) ≡ some (unescape_char c, p)
unfolding unescape
unescape_plain c [] h = refl
unescape_plain c (a ∷ []) h = refl
unescape_plain c (a ∷ b ∷ p) h = rw h refl

digit_is_hex : (d : ℕ) → d < 16 → is_hex_digit (hex_digit d) ≡ true
unfolding is_hex_digit hex_digit
digit_is_hex d h = ground arith

digit_value : (d : ℕ) → d < 16 → hex_digit_to_int (hex_digit d) ≡ d
unfolding hex_digit_to_int hex_digit
digit_value d h = ground arith

unescape_hex :
    (c : ℕ) (p : List ℕ)
    → c < 256
    → unescape (b'x' ∷ hex_digit (c / 16) ∷ hex_digit (c % 16) ∷ p) ≡ some (c, p)
unfolding unescape
unescape_hex c p h =
    rw
      (
        digit_is_hex (c / 16) (omega arith),
        digit_is_hex (c % 16) (omega arith),
        digit_value (c / 16) (omega arith),
        digit_value (c % 16) (omega arith),
      )
      (ap (λ b. some (b, p)) (omega arith))

module _ (ctype : Ctype) where
  in_quotes_escaped :
      (n c x : ℕ) (current p : List ℕ)
      → (x == b'x') ≡ false
      → unescape_char x ≡ c
      → in_quotes ctype (suc n) current (92 ∷ x ∷ p) ≡ in_quotes ctype n (current ++ c ∷ []) p
  unfolding in_quotes
  in_quotes_escaped n c x current p h e = rw (in_quotes, unescape_plain x p h, e) refl

  in_quotes_hex :
      (n c : ℕ) (current p : List ℕ)
      → c < 256
      → in_quotes ctype (suc n) current (92 ∷ b'x' ∷ hex_digit (c / 16) ∷ hex_digit (c % 16) ∷ p)
        ≡ in_quotes ctype n (current ++ c ∷ []) p
  unfolding in_quotes
  in_quotes_hex n c current p h = rw (in_quotes, unescape_hex c p h) refl

  in_quotes_bare :
      (n c : ℕ) (current p : List ℕ)
      → (c == 92) ≡ false
      → (c == 34) ≡ false
      → in_quotes ctype (suc n) current (c ∷ p) ≡ in_quotes ctype n (current ++ c ∷ []) p
  unfolding in_quotes
  in_quotes_bare n c current p h k = rw (in_quotes, h, k) refl

  in_quotes-repr_byte :
      (n c : ℕ) (current p : List ℕ)
      → c < 256
      → in_quotes ctype (suc n) current (repr_byte ctype c ++ p)
        ≡ in_quotes ctype n (current ++ c ∷ []) p
  unfolding repr_byte unescape_char
  in_quotes-repr_byte n c current p h = elim (Bool-cases (c == 92 || c == 34)) [
    | inl e ↦ rw e (in_quotes_escaped n c c current p (ground (arith, e)) (ground (arith, e)))
    | inr e ↦ elim (Bool-cases (c == 10)) [
      | inl f ↦ rw (e, f) (in_quotes_escaped n c b'n' current p refl (ground (arith, f)))
      | inr f ↦ elim (Bool-cases (c == 13)) [
        | inl g ↦ rw (e, f, g) (in_quotes_escaped n c b'r' current p refl (ground (arith, g)))
        | inr g ↦ elim (Bool-cases (c == 9)) [
          | inl i ↦ rw (e, f, g, i) (in_quotes_escaped n c b't' current p refl (ground (arith, i)))
          | inr i ↦ elim (Bool-cases (c == 7)) [
            | inl j ↦
                rw (e, f, g, i, j) (in_quotes_escaped n c b'a' current p refl (ground (arith, j)))
            | inr j ↦ elim (Bool-cases (c == 8)) [
              | inl k ↦
                  rw (e, f, g, i, j, k)
                    (in_quotes_escaped n c b'b' current p refl (ground (arith, k)))
              | inr k ↦ elim (Bool-cases (ctype.isprint c)) [
                | inl l ↦
                    rw (e, f, g, i, j, k, l)
                      (in_quotes_bare n c current p (ground (arith, e)) (ground (arith, e)))
                | inr l ↦ rw (e, f, g, i, j, k, l) (in_quotes_hex n c current p h)
              ]
            ]
          ]
        ]
      ]
    ]
  ]

  in_quotes-repr_loop :
      (s current : List ℕ) (n : ℕ)
      → All (λ c. c < 256) s
      → length s < n
      → in_quotes ctype n current (repr_loop ctype s ++ 34 ∷ []) ≡ some (current ++ s, [])
  unfolding repr_loop in_quotes close_quote
  in_quotes-repr_loop s current zero b h = absurd (omega arith)
  in_quotes-repr_loop [] current (suc n) b h = ap (λ t. some (t, [])) (sym (append_nil current))
  in_quotes-repr_loop (c ∷ s) current (suc n) b h =
      ap (in_quotes ctype (suc n) current)
        (append_assoc (repr_byte ctype c) (repr_loop ctype s) (34 ∷ []))
      ∙ in_quotes-repr_byte n c current (repr_loop ctype s ++ 34 ∷ []) b.0
      ∙ in_quotes-repr_loop s (current ++ c ∷ []) n b.1 (omega arith)
      ∙ ap (λ t. some (t, [])) (append_assoc current (c ∷ []) s)

  length-repr_byte : (c : ℕ) → 1 ≤ length (repr_byte ctype c)
  unfolding repr_byte
  length-repr_byte c = ground arith

  length-repr_loop : (s : List ℕ) → length s ≤ length (repr_loop ctype s)
  unfolding repr_loop
  length-repr_loop [] = omega arith
  length-repr_loop (c ∷ s) = omega (
    arith,
    length-append (repr_byte ctype c) (repr_loop ctype s),
    length-repr_byte c,
    length-repr_loop s,
  )

  c_string-repr_byte :
      (c : ℕ) (p : List ℕ)
      → ctype.isprint 0 ≡ false
      → c_string (repr_byte ctype c ++ p) ≡ repr_byte ctype c ++ c_string p
  unfolding c_string repr_byte hex_digit
  c_string-repr_byte c p nul = ground (arith, nul)

  c_string-repr_loop :
      (s p : List ℕ)
      → ctype.isprint 0 ≡ false
      → c_string (repr_loop ctype s ++ p) ≡ repr_loop ctype s ++ c_string p
  unfolding repr_loop
  c_string-repr_loop [] p nul = refl
  c_string-repr_loop (c ∷ s) p nul =
      ap c_string (append_assoc (repr_byte ctype c) (repr_loop ctype s) p)
      ∙ c_string-repr_byte c (repr_loop ctype s ++ p) nul
      ∙ ap (λ t. repr_byte ctype c ++ t) (c_string-repr_loop s p nul)
      ∙ sym (append_assoc (repr_byte ctype c) (repr_loop ctype s) (c_string p))

  c_string-sdscatrepr :
      (s : List ℕ)
      → ctype.isprint 0 ≡ false
      → c_string (sdscatrepr ctype [] s) ≡ sdscatrepr ctype [] s
  unfolding sdscatrepr c_string
  c_string-sdscatrepr s nul = ap (λ t. 34 ∷ t) (c_string-repr_loop s (34 ∷ []) nul)

  split_loop-sdscatrepr :
      (s : List ℕ)
      → ctype.isspace 34 ≡ false
      → All (λ c. c < 256) s
      → split_loop ctype
          (length (sdscatrepr ctype [] s))
          (skip_blanks ctype (sdscatrepr ctype [] s))
        ≡ some (s ∷ [])
  unfolding sdscatrepr split_loop in_token skip_blanks
  split_loop-sdscatrepr s quote b =
      let line = repr_loop ctype s ++ 34 ∷ [] in
      let read : in_quotes ctype (length line) [] line ≡ some (s, []) =
        in_quotes-repr_loop s [] (length line) b
          (omega (arith, length-append (repr_loop ctype s) (34 ∷ []), length-repr_loop s)) in
      rw quote (rw read refl)

  -- For every string of bytes `sdssplitargs` reads the line that `sdscatrepr` appends to an empty
  -- string as just one argument, the string itself, if the C library takes neither the double
  -- quote for a space nor NUL for a character that prints.
  pub sdssplitargs-sdscatrepr :
      (s : List ℕ)
      → ctype.isspace 34 ≡ false
      → ctype.isprint 0 ≡ false
      → All (λ c. c < 256) s
      → sdssplitargs ctype (sdscatrepr ctype [] s) ≡ some (s ∷ [])
  unfolding sdssplitargs
  sdssplitargs-sdscatrepr s quote nul b =
      rw (c_string-sdscatrepr s nul) (split_loop-sdscatrepr s quote b)
