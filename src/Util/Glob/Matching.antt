-- ===== src/Util/Glob/Matching.antt =====
-- stringmatchlen of tool/util.c against the meaning of its patterns, classes aside.
use learnredis.Base.{
  ℕ, zero, suc, ◌+◌, ◌≤◌, ◌<◌, ◌≡◌, refl, sym, ap, ◌∙◌, inl, inr, Bool, true, false, Option, some,
  List, [], ◌∷◌, arith, length, ◌==◌, Bool-cases, append_nil,
}
use learnredis.Util.Glob.{
  Text, inside, current, advance, at_end, is_empty, skip_stars, after_star, same, literal, quoted,
  starred, any_byte, match_loop, stringmatchlen,
}
use learnredis.Util.Glob.Meaning.{
  any_run, any_one, byte, tokens, IsPlain, Decides, Denotes, nil_cons, cons_head, cons_tail, yields,
  refuses, tokens_star, tokens_one, tokens_quote, tokens_byte, IsPlain-next, IsPlain-quoted,
  other_byte, not_empty, skip_stars_iff, next_round-Decides, star_loop-Decides, skip_stars-IsPlain,
  length-skip_stars, skip_stars_cases,
}

module _ (tolower : ℕ → ℕ) (nocase : Bool)
    (nul : (a : ℕ) → (a == 0) ≡ false → (tolower a == tolower 0) ≡ false) where
  abbrev eq : ℕ → ℕ → Bool
  eq = same tolower nocase

  nil_Denotes : Denotes eq (tokens false []) []
  unfolding tokens Denotes
  nil_Denotes = refl

  end_Decides : (s : List ℕ) → Decides (some (at_end (inside s))) (Denotes eq (tokens false []) s)
  unfolding tokens Denotes at_end
  end_Decides [] = yields refl refl
  end_Decides (c ∷ s) = refuses refl (λ k. nil_cons (sym k))

  plain_bracket : (a : ℕ) (p : List ℕ) → IsPlain false (a ∷ p) → (a == 91) ≡ false
  unfolding IsPlain
  plain_bracket a p k = k.1

  plain_nul : (a : ℕ) (p : List ℕ) → IsPlain false (a ∷ p) → (a == 0) ≡ false
  unfolding IsPlain
  plain_nul a p k = k.0

  same_nul : (a : ℕ) → (a == 0) ≡ false → eq a 0 ≡ false
  same_nul a e = elim (Bool-cases nocase) [ inl h ↦ rw h (nul a e) | inr h ↦ rw h e ]

  module _ (rest : List ℕ → Text → Option Bool) where
    literal-Decides :
        (a : ℕ) (p s : List ℕ)
        → (a == 0) ≡ false
        → ((v : List ℕ) → Decides (rest p (inside v)) (Denotes eq (tokens false p) v))
        → Decides
            (literal tolower nocase rest a p (inside s))
            (Denotes eq (byte a ∷ tokens false p) s)
    unfolding literal current advance Denotes
    literal-Decides a p [] e d = refuses (rw (same_nul a e) refl) (λ (c, v, k, q, r). nil_cons k)
    literal-Decides a p (c ∷ s) e d = elim (Bool-cases (eq a c)) [
      | inl h ↦
          let (b, f, g) = next_round-Decides eq rest p s (d s) in
          (
            b,
            rw h f,
            (λ k. (c, s, refl, h, g.0 k), λ (x, v, k, q, r). g.1 (rw (sym (cons_tail k)) at r)),
          )
      | inr h ↦ refuses (rw h refl) (λ (x, v, k, q, r).
          let clash : true ≡ false = sym (rw (sym (cons_head k)) at q) ∙ h in cc)
    ]

    any_byte-Decides :
        (p s : List ℕ)
        → ((v : List ℕ) → Decides (rest p (inside v)) (Denotes eq (tokens false p) v))
        → Decides (any_byte rest p (inside s)) (Denotes eq (any_one ∷ tokens false p) s)
    unfolding any_byte at_end advance Denotes
    any_byte-Decides p [] d = refuses refl (λ (c, v, k, r). nil_cons k)
    any_byte-Decides p (c ∷ s) d =
        let (b, f, g) = next_round-Decides eq rest p s (d s) in
        (b, f, (λ k. (c, s, refl, g.0 k), λ (x, v, k, r). g.1 (rw (sym (cons_tail k)) at r)))

    quoted-Decides :
        (p s : List ℕ)
        → IsPlain true p
        → ((q v : List ℕ)
            → IsPlain false q
            → length q ≤ length p
            → Decides (rest q (inside v)) (Denotes eq (tokens false q) v))
        → Decides (quoted tolower nocase rest p (inside s)) (Denotes eq (tokens true p) s)
    unfolding quoted tokens IsPlain
    quoted-Decides [] s k d = literal-Decides 92 [] s refl (λ v. d [] v tt (omega arith))
    quoted-Decides (a ∷ p) s k d = literal-Decides a p s k.0 (λ v. d p v k.1 (omega arith))

    starred-Decides :
        (p s : List ℕ)
        → IsPlain false p
        → ((q v : List ℕ)
            → IsPlain false q
            → length q ≤ length p
            → Decides (rest q (inside v)) (Denotes eq (tokens false q) v))
        → Decides (starred rest p (inside s)) (Denotes eq (any_run ∷ tokens false p) s)
    unfolding starred after_star is_empty Denotes
    starred-Decides p s k d = elim (skip_stars_cases eq p) [
      | inl e ↦
          yields (rw e refl)
            ((skip_stars_iff eq p s).0 (rw e (s, [], sym (append_nil s), nil_Denotes)))
      | inr (a, q, e, f) ↦
          let (b, g, h) =
            star_loop-Decides eq (rest (skip_stars p)) (tokens false (skip_stars p)) s
              (λ v. d (skip_stars p) v (skip_stars-IsPlain eq p k) (length-skip_stars eq p))
              (λ r. not_empty eq a q f (rw e at r)) in
          (
            b,
            rw (ap is_empty e) g,
            (λ r. (skip_stars_iff eq p s).0 (h.0 r), λ r. h.1 ((skip_stars_iff eq p s).1 r)),
          )
    ]

  match_loop-Decides :
      (n : ℕ) (p s : List ℕ)
      → length p < n
      → IsPlain false p
      → Decides (match_loop tolower nocase n p (inside s)) (Denotes eq (tokens false p) s)
  unfolding match_loop
  match_loop-Decides zero p s l k = absurd (omega (arith, l))
  match_loop-Decides (suc n) [] s l k = end_Decides s
  match_loop-Decides (suc n) (a ∷ p) s l k =
      let ih : (q v : List ℕ)
          → IsPlain false q
          → length q ≤ length p
          → Decides (match_loop tolower nocase n q (inside v)) (Denotes eq (tokens false q) v) =
        λ q v k m. match_loop-Decides n q v (omega (arith, l, m)) k in
      elim (Bool-cases (a == 42)) [
        | inl e ↦
            rw (e, match_loop, tokens_star a p e)
              (starred-Decides (match_loop tolower nocase n) p s
                (IsPlain-next a p k (other_byte a 42 92 refl e)) ih)
        | inr e ↦ elim (Bool-cases (a == 63)) [
          | inl f ↦
              let k' = IsPlain-next a p k (other_byte a 63 92 refl f) in
              rw (e, f, match_loop, tokens_one a p e f)
                (any_byte-Decides (match_loop tolower nocase n) p s (λ v. ih p v k' (omega arith)))
          | inr f ↦ elim (Bool-cases (a == 92)) [
            | inl g ↦
                rw (e, f, plain_bracket a p k, g, match_loop, tokens_quote a p e f g)
                  (quoted-Decides (match_loop tolower nocase n) p s (IsPlain-quoted a p k g) ih)
            | inr g ↦
                let k' = IsPlain-next a p k g in
                rw (e, f, plain_bracket a p k, g, match_loop, tokens_byte a p e f g)
                  (literal-Decides (match_loop tolower nocase n) a p s (plain_nul a p k)
                    (λ v. ih p v k' (omega arith)))
          ]
        ]
      ]

  -- For a pattern without a NUL and without a bracket but behind a backslash, and a `tolower` that
  -- takes no other byte to where it takes NUL, `stringmatchlen` ends on every string without
  -- reading beyond it, and answers 1 exactly if the pattern denotes the string: a star stands for
  -- any bytes, a question mark for one byte, and any other byte, or one behind a backslash, for a
  -- byte equal to it.
  pub stringmatchlen-Denotes :
      (p s : List ℕ)
      → IsPlain false p
      → Decides
          (stringmatchlen tolower nocase p s)
          (Denotes (same tolower nocase) (tokens false p) s)
  unfolding stringmatchlen
  stringmatchlen-Denotes p s k = match_loop-Decides (length p + 1) p s (omega arith) k
