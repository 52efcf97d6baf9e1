-- ===== src/Sds/Splitting.antt =====
-- The loops of `sdssplitargs` of struct/sds.c: what is left of a line, and the rounds they need.
use learnredis.Base.{
  ℕ, zero, suc, ◌≤◌, ◌≡◌, refl, ap, inl, inr, ◌||◌, ◌&&◌, Option, some, none, List, [], ◌∷◌, ◌++◌,
  arith, length, ◌==◌, Bool-cases, Option-cases, ◌>>=◌,
}
use learnredis.Sds.{
  Ctype, unescape, close_quote, in_quotes, in_single_quotes, in_token, skip_blanks, split_loop,
}

-- A token and what is left of the line, which is no longer than `n`
abbrev pub Leaves : ℕ → Option (List ℕ × List ℕ) → Type 0
Leaves n none = Unit
Leaves n (some (t, rest)) = length rest ≤ n

Leaves-le : (m n : ℕ) (r : Option (List ℕ × List ℕ)) → m ≤ n → Leaves m r → Leaves n r
Leaves-le m n none h k = tt
Leaves-le m n (some (t, rest)) h k = omega arith

unescape-rest : (p : List ℕ) (b : ℕ) (r : List ℕ) → unescape p ≡ some (b, r) → length r ≤ length p
unfolding unescape
unescape-rest [] b r h = ground arith
unescape-rest (c ∷ []) b r h = ground arith
unescape-rest (c ∷ d ∷ []) b r h = ground arith
unescape-rest (c ∷ d ∷ e ∷ p) b r h = ground arith

module _ (ctype : Ctype) where
  close_quote-Leaves : (t p : List ℕ) → Leaves (length p) (close_quote ctype t p)
  unfolding close_quote
  close_quote-Leaves t [] = omega arith
  close_quote-Leaves t (c ∷ p) = elim (Bool-cases (ctype.isspace c)) [
    | inl e ↦ rw e (omega arith)
    | inr e ↦ rw e tt
  ]

  in_quotes-Leaves : (n : ℕ) (t p : List ℕ) → Leaves (length p) (in_quotes ctype n t p)
  unfolding in_quotes
  in_quotes-Leaves zero t p = tt
  in_quotes-Leaves (suc n) t [] = tt
  in_quotes-Leaves (suc n) t (c ∷ p) = elim (Bool-cases (c == 92)) [
    | inl e ↦ elim (Option-cases (unescape p)) [
      | inl f ↦
          rw (in_quotes, e, f)
            (Leaves-le (length p) (suc (length p)) (in_quotes ctype n (t ++ 92 ∷ []) p)
              (omega arith) (in_quotes-Leaves n (t ++ 92 ∷ []) p))
      | inr ((b, rest), f) ↦
          rw (in_quotes, e, f)
            (Leaves-le (length rest) (suc (length p)) (in_quotes ctype n (t ++ b ∷ []) rest)
              (omega (arith, unescape-rest p b rest f)) (in_quotes-Leaves n (t ++ b ∷ []) rest))
    ]
    | inr e ↦ elim (Bool-cases (c == 34)) [
      | inl f ↦
          rw (in_quotes, e, f)
            (Leaves-le (length p) (suc (length p)) (close_quote ctype t p) (omega arith)
              (close_quote-Leaves t p))
      | inr f ↦
          rw (in_quotes, e, f)
            (Leaves-le (length p) (suc (length p)) (in_quotes ctype n (t ++ c ∷ []) p) (omega arith)
              (in_quotes-Leaves n (t ++ c ∷ []) p))
    ]
  ]

  in_single_quotes-Leaves : (t p : List ℕ) → Leaves (length p) (in_single_quotes ctype t p)
  unfolding in_single_quotes
  in_single_quotes-Leaves t [] = tt
  in_single_quotes-Leaves t (c ∷ []) = elim (Bool-cases (c == 39)) [
    | inl e ↦ rw e (Leaves-le 0 1 (close_quote ctype t []) (omega arith) (close_quote-Leaves t []))
    | inr e ↦ rw e tt
  ]
  in_single_quotes-Leaves t (c ∷ d ∷ p) = elim (Bool-cases (c == 92 && d == 39)) [
    | inl e ↦
        rw (in_single_quotes, e)
          (Leaves-le (length p) (suc (suc (length p))) (in_single_quotes ctype (t ++ 39 ∷ []) p)
            (omega arith) (in_single_quotes-Leaves (t ++ 39 ∷ []) p))
    | inr e ↦ elim (Bool-cases (c == 39)) [
      | inl f ↦
          rw (in_single_quotes, e, f)
            (Leaves-le (suc (length p)) (suc (suc (length p))) (close_quote ctype t (d ∷ p))
              (omega arith) (close_quote-Leaves t (d ∷ p)))
      | inr f ↦
          rw (in_single_quotes, e, f)
            (Leaves-le (suc (length p)) (suc (suc (length p)))
              (in_single_quotes ctype (t ++ c ∷ []) (d ∷ p)) (omega arith)
              (in_single_quotes-Leaves (t ++ c ∷ []) (d ∷ p)))
    ]
  ]

  in_token-step :
      (t : List ℕ) (c : ℕ) (p : List ℕ)
      → Leaves (length p) (in_token ctype (t ++ c ∷ []) p)
      → Leaves (length p) (in_token ctype t (c ∷ p))
  unfolding in_token
  in_token-step t c p more = elim (Bool-cases (c == 32 || (c == 10 || (c == 13 || c == 9)))) [
    | inl e ↦ rw e (omega arith)
    | inr e ↦ elim (Bool-cases (c == 34)) [
      | inl f ↦ rw (e, f) (in_quotes-Leaves (length p) t p)
      | inr f ↦ elim (Bool-cases (c == 39)) [
        | inl g ↦ rw (e, f, g) (in_single_quotes-Leaves t p)
        | inr g ↦ rw (e, f, g) more
      ]
    ]
  ]

  in_token-Leaves : (t p : List ℕ) → Leaves (length p) (in_token ctype t p)
  unfolding in_token
  in_token-Leaves t [] = omega arith
  in_token-Leaves t (c ∷ p) =
      Leaves-le (length p) (suc (length p)) (in_token ctype t (c ∷ p)) (omega arith)
        (in_token-step t c p (in_token-Leaves (t ++ c ∷ []) p))

  length-skip_blanks : (p : List ℕ) → length (skip_blanks ctype p) ≤ length p
  unfolding skip_blanks
  length-skip_blanks [] = omega arith
  length-skip_blanks (c ∷ p) = ground (arith, length-skip_blanks p)

  -- Inside quotes as many rounds as there are bytes are enough: more do not change the result.
  in_quotes-enough :
      (m n : ℕ) (t p : List ℕ)
      → length p ≤ m
      → length p ≤ n
      → in_quotes ctype m t p ≡ in_quotes ctype n t p
  unfolding in_quotes
  in_quotes-enough zero zero t p h k = refl
  in_quotes-enough zero (suc n) t [] h k = refl
  in_quotes-enough zero (suc n) t (c ∷ p) h k = absurd (omega arith)
  in_quotes-enough (suc m) zero t [] h k = refl
  in_quotes-enough (suc m) zero t (c ∷ p) h k = absurd (omega arith)
  in_quotes-enough (suc m) (suc n) t [] h k = refl
  in_quotes-enough (suc m) (suc n) t (c ∷ p) h k = elim (Bool-cases (c == 92)) [
    | inl e ↦ elim (Option-cases (unescape p)) [
      | inl f ↦
          rw (in_quotes, e, f) (in_quotes-enough m n (t ++ 92 ∷ []) p (omega arith) (omega arith))
      | inr ((b, rest), f) ↦
          let le = unescape-rest p b rest f in
          rw (in_quotes, e, f)
            (in_quotes-enough m n (t ++ b ∷ []) rest (omega (arith, le)) (omega (arith, le)))
    ]
    | inr e ↦ elim (Bool-cases (c == 34)) [
      | inl f ↦ rw (in_quotes, e, f) refl
      | inr f ↦
          rw (in_quotes, e, f) (in_quotes-enough m n (t ++ c ∷ []) p (omega arith) (omega arith))
    ]
  ]

  -- So are they for the loop over the tokens: `none` there is always an unbalanced quote.
  split_loop-enough :
      (m n : ℕ) (p : List ℕ)
      → length p ≤ m
      → length p ≤ n
      → split_loop ctype m p ≡ split_loop ctype n p
  unfolding split_loop
  split_loop-enough m n [] h k = refl
  split_loop-enough zero n (c ∷ p) h k = absurd (omega arith)
  split_loop-enough (suc m) zero (c ∷ p) h k = absurd (omega arith)
  split_loop-enough (suc m) (suc n) (c ∷ p) h k =
      next (λ q l. split_loop-enough m n q (omega (arith, l)) (omega (arith, l)))
        (in_token ctype [] (c ∷ p)) (in_token-step [] c p (in_token-Leaves (c ∷ []) p))
    where
      next :
          ((q : List ℕ) → length q ≤ length p → split_loop ctype m q ≡ split_loop ctype n q)
          → (r : Option (List ℕ × List ℕ)) → Leaves (length p) r
          → (do
            (token, rest) ← r
            tokens ← split_loop ctype m (skip_blanks ctype rest)
            some (token ∷ tokens))
            ≡ (do
              (token, rest) ← r
              tokens ← split_loop ctype n (skip_blanks ctype rest)
              some (token ∷ tokens))
      next more none l = refl
      next more (some (t, rest)) l =
          let le = length-skip_blanks rest in
          ap (λ q. q >>= λ tokens. some (t ∷ tokens))
            (more (skip_blanks ctype rest) (omega (arith, le, l)))
