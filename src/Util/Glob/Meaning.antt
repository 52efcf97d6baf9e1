-- ===== src/Util/Glob/Meaning.antt =====
-- What the patterns of stringmatchlen in tool/util.c denote, classes aside, and stars in it.
use learnredis.Base.{
  ℕ, ◌≤◌, ◌≡◌, ◌↔◌, refl, sym, ap, ◌∙◌, ◌⊎◌, inl, inr, Bool, true, false, Option, some, List, [],
  ◌∷◌, ◌++◌, append_assoc, arith, length, ◌==◌, ==_iff, Bool-cases,
}
use learnredis.Util.Glob.{Text, inside, at_end, is_empty, skip_stars, star_loop, next_round}

-- A pattern in parts: a star, a question mark, and a byte
pub data Token : Type 0 where
  any_run any_one : Token
  byte : ℕ → Token

-- The parts of a pattern; the Boolean tells that a backslash comes before.
unfoldable pub tokens : Bool → List ℕ → List Token
tokens false [] = []
tokens true [] = byte 92 ∷ []
tokens true (a ∷ p) = byte a ∷ tokens false p
tokens false (a ∷ p) = elim (a == 42) [
  | true ↦ any_run ∷ tokens false p
  | false ↦ elim (a == 63) [
    | true ↦ any_one ∷ tokens false p
    | false ↦ elim (a == 92) [ true ↦ tokens true p | false ↦ byte a ∷ tokens false p ]
  ]
]

-- A pattern without a NUL, and without a bracket but behind a backslash
unfoldable pub IsPlain : Bool → List ℕ → Type 0
IsPlain escaped [] = Unit
IsPlain true (a ∷ p) = ((a == 0) ≡ false) × IsPlain false p
IsPlain false (a ∷ p) = ((a == 0) ≡ false) × ((a == 91) ≡ false) × IsPlain (a == 92) p

-- The code returns, and says whether `P`.
abbrev pub Decides : Option Bool → Type 0 → Type 0
Decides r P = (b : Bool) × (r ≡ some b) × ((b ≡ true) ↔ P)

-- The strings that the parts of a pattern denote, where `eq` compares bytes
unfoldable pub Denotes : (ℕ → ℕ → Bool) → List Token → List ℕ → Type 0
Denotes eq [] s = s ≡ []
Denotes eq (any_run ∷ ts) s = (u : List ℕ) × (v : List ℕ) × (s ≡ u ++ v) × Denotes eq ts v
Denotes eq (any_one ∷ ts) s = (c : ℕ) × (v : List ℕ) × (s ≡ c ∷ v) × Denotes eq ts v
Denotes eq (byte a ∷ ts) s =
    (c : ℕ) × (v : List ℕ) × (s ≡ c ∷ v) × (eq a c ≡ true) × Denotes eq ts v

tail_of : List ℕ → List ℕ
tail_of [] = []
tail_of (c ∷ s) = s

head_of : List ℕ → ℕ
head_of [] = 0
head_of (c ∷ s) = c

pub cons_tail : {a b : ℕ} → {s t : List ℕ} → a ∷ s ≡ b ∷ t → s ≡ t
unfolding tail_of
cons_tail e = ap tail_of e

pub cons_head : {a b : ℕ} → {s t : List ℕ} → a ∷ s ≡ b ∷ t → a ≡ b
unfolding head_of
cons_head e = ap head_of e

pub nil_cons : {a : ℕ} → {s : List ℕ} → [] ≡ a ∷ s → ⊥
nil_cons {a} {s} e = let clash : [] ≡ a ∷ s = e in cc

pub yields : {r : Option Bool} → {P : Type 0} → r ≡ some true → P → Decides r P
yields e p = (true, e, (λ h. p, λ q. refl))

pub refuses : {r : Option Bool} → {P : Type 0} → r ≡ some false → (P → ⊥) → Decides r P
refuses e never = (false, e, (λ h. let clash : false ≡ true = h in cc, λ q. absurd (never q)))

Decides-iff : {r : Option Bool} → {P Q : Type 0} → P ↔ Q → Decides r P → Decides r Q
Decides-iff f (b, e, g) = (b, e, (λ h. f.0 (g.0 h), λ q. g.1 (f.1 q)))

pub tokens_star :
    (a : ℕ) (p : List ℕ) → (a == 42) ≡ true → tokens false (a ∷ p) ≡ any_run ∷ tokens false p
unfolding tokens
tokens_star a p e = rw (e, tokens) refl

pub tokens_one :
    (a : ℕ) (p : List ℕ)
    → (a == 42) ≡ false
    → (a == 63) ≡ true
    → tokens false (a ∷ p) ≡ any_one ∷ tokens false p
unfolding tokens
tokens_one a p e f = rw (e, f, tokens) refl

pub tokens_quote :
    (a : ℕ) (p : List ℕ)
    → (a == 42) ≡ false
    → (a == 63) ≡ false
    → (a == 92) ≡ true
    → tokens false (a ∷ p) ≡ tokens true p
unfolding tokens
tokens_quote a p e f g = rw (e, f, g, tokens) refl

pub tokens_byte :
    (a : ℕ) (p : List ℕ)
    → (a == 42) ≡ false
    → (a == 63) ≡ false
    → (a == 92) ≡ false
    → tokens false (a ∷ p) ≡ byte a ∷ tokens false p
unfolding tokens
tokens_byte a p e f g = rw (e, f, g, tokens) refl

skip_star : (a : ℕ) (p : List ℕ) → (a == 42) ≡ true → skip_stars (a ∷ p) ≡ skip_stars p
unfolding skip_stars
skip_star a p e = rw (e, skip_stars) refl

skip_none : (a : ℕ) (p : List ℕ) → (a == 42) ≡ false → skip_stars (a ∷ p) ≡ a ∷ p
unfolding skip_stars
skip_none a p e = rw (e, skip_stars) refl

pub IsPlain-next :
    (a : ℕ) (p : List ℕ) → IsPlain false (a ∷ p) → (a == 92) ≡ false → IsPlain false p
unfolding IsPlain
IsPlain-next a p k e = rw e at k.2

pub IsPlain-quoted :
    (a : ℕ) (p : List ℕ) → IsPlain false (a ∷ p) → (a == 92) ≡ true → IsPlain true p
unfolding IsPlain
IsPlain-quoted a p k e = rw e at k.2

pub other_byte : (a b c : ℕ) → (b == c) ≡ false → (a == b) ≡ true → (a == c) ≡ false
other_byte a b c d e = rw ((==_iff a b).0 e) d

module _ (eq : ℕ → ℕ → Bool) where
  any_run_twice :
      (ts : List Token) (s : List ℕ)
      → Denotes eq (any_run ∷ any_run ∷ ts) s ↔ Denotes eq (any_run ∷ ts) s
  unfolding Denotes
  any_run_twice ts s = (
    λ (u, v, e, (u', v', e', d)).
        (u ++ u', v', e ∙ ap (λ l. u ++ l) e' ∙ sym (append_assoc u u' v'), d),
    λ (u, v, e, d). (u, v, e, ([], v, refl, d)),
  )

  pub skip_stars_iff :
      (p : List ℕ) (s : List ℕ)
      → Denotes eq (any_run ∷ tokens false (skip_stars p)) s
        ↔ Denotes eq (any_run ∷ tokens false p) s
  unfolding skip_stars
  skip_stars_iff [] s = (λ d. d, λ d. d)
  skip_stars_iff (a ∷ p) s = elim (Bool-cases (a == 42)) [
    | inl e ↦
        rw (tokens_star a p e, skip_star a p e)
          (
            λ d. (any_run_twice (tokens false p) s).1 ((skip_stars_iff p s).0 d),
            λ d. (skip_stars_iff p s).1 ((any_run_twice (tokens false p) s).0 d),
          )
    | inr e ↦ rw (skip_none a p e) (λ d. d, λ d. d)
  ]

  pub quoted_not_empty : (p : List ℕ) → Denotes eq (tokens true p) [] → ⊥
  unfolding tokens Denotes
  quoted_not_empty [] (c, v, e, q, r) = nil_cons e
  quoted_not_empty (a ∷ p) (c, v, e, q, r) = nil_cons e

  -- A pattern that begins with no star does not denote the empty string.
  pub not_empty :
      (a : ℕ) (p : List ℕ) → (a == 42) ≡ false → Denotes eq (tokens false (a ∷ p)) [] → ⊥
  unfolding Denotes
  not_empty a p e d = elim (Bool-cases (a == 63)) [
    | inl f ↦ let (c, v, k, r) = rw (tokens_one a p e f) at d in nil_cons k
    | inr f ↦ elim (Bool-cases (a == 92)) [
      | inl g ↦ quoted_not_empty p (rw (tokens_quote a p e f g) at d)
      | inr g ↦ let (c, v, k, q, r) = rw (tokens_byte a p e f g) at d in nil_cons k
    ]
  ]

  append_empty : (u v : List ℕ) → [] ≡ u ++ v → v ≡ []
  append_empty [] v e = sym e
  append_empty (c ∷ u) v e = absurd (nil_cons e)

  stars_empty : (p : List ℕ) → (is_empty (skip_stars p) ≡ true) ↔ Denotes eq (tokens false p) []
  unfolding is_empty Denotes tokens skip_stars
  stars_empty [] = (λ h. refl, λ d. refl)
  stars_empty (a ∷ p) = elim (Bool-cases (a == 42)) [
    | inl e ↦
        rw (skip_star a p e, tokens_star a p e)
          (
            λ h. ([], [], refl, (stars_empty p).0 h),
            λ (u, v, k, d). (stars_empty p).1 (rw (append_empty u v k) at d),
          )
    | inr e ↦
        rw (skip_none a p e)
          (λ h. let clash : false ≡ true = h in cc, λ d. absurd (not_empty a p e d))
  ]

  pub next_round-Decides :
      (rest : List ℕ → Text → Option Bool) (p s : List ℕ)
      → Decides (rest p (inside s)) (Denotes eq (tokens false p) s)
      → Decides (next_round rest p (inside s)) (Denotes eq (tokens false p) s)
  unfolding next_round at_end
  next_round-Decides rest p [] d = (is_empty (skip_stars p), refl, stars_empty p)
  next_round-Decides rest p (c ∷ s) d = d

  any_run_cons :
      (ts : List Token) (c : ℕ) (s : List ℕ)
      → Denotes eq (any_run ∷ ts) (c ∷ s)
      → Denotes eq ts (c ∷ s) ⊎ Denotes eq (any_run ∷ ts) s
  unfolding Denotes
  any_run_cons ts c s ([], v, q, r) = inl (rw (sym q) at r)
  any_run_cons ts c s (x ∷ w, v, q, r) = inr (w, v, cons_tail q, r)

  pub star_loop-Decides :
      (rest : Text → Option Bool) (ts : List Token) (s : List ℕ)
      → ((v : List ℕ) → Decides (rest (inside v)) (Denotes eq ts v))
      → (Denotes eq ts [] → ⊥)
      → Decides (star_loop rest s) (Denotes eq (any_run ∷ ts) s)
  unfolding star_loop Denotes
  star_loop-Decides rest ts [] d never =
      refuses refl (λ (u, v, k, r). never (rw (append_empty u v k) at r))
  star_loop-Decides rest ts (c ∷ s) d never =
      let (b, e, f) = d (c ∷ s) in
      let (b', e', f') = star_loop-Decides rest ts s d never in
      elim (Bool-cases b) [
        | inl h ↦ yields (rw (e, h) refl) ([], c ∷ s, refl, f.0 h)
        | inr h ↦ (
          b',
          rw (e, h) e',
          (
            λ k. let (u, v, q, r) = f'.0 k in (c ∷ u, v, ap (λ l. c ∷ l) q, r),
            λ k. elim (any_run_cons ts c s k) [
              | inl l ↦ let clash : true ≡ false = sym (f.1 l) ∙ h in cc
              | inr l ↦ f'.1 l
            ],
          ),
        )
      ]

  pub skip_stars-IsPlain : (p : List ℕ) → IsPlain false p → IsPlain false (skip_stars p)
  unfolding skip_stars
  skip_stars-IsPlain [] k = k
  skip_stars-IsPlain (a ∷ p) k = elim (Bool-cases (a == 42)) [
    | inl e ↦
        rw (skip_star a p e) (skip_stars-IsPlain p (IsPlain-next a p k (other_byte a 42 92 refl e)))
    | inr e ↦ rw (skip_none a p e) k
  ]

  pub length-skip_stars : (p : List ℕ) → length (skip_stars p) ≤ length p
  unfolding skip_stars
  length-skip_stars [] = omega arith
  length-skip_stars (a ∷ p) = elim (Bool-cases (a == 42)) [
    | inl e ↦ rw (skip_star a p e) (omega (arith, length-skip_stars p))
    | inr e ↦ rw (skip_none a p e) (omega arith)
  ]

  -- What is left behind the stars is empty or begins with no star.
  pub skip_stars_cases :
      (p : List ℕ)
      → (skip_stars p ≡ [])
        ⊎ ((a : ℕ) × (q : List ℕ) × (skip_stars p ≡ a ∷ q) × ((a == 42) ≡ false))
  unfolding skip_stars
  skip_stars_cases [] = inl refl
  skip_stars_cases (a ∷ p) = elim (Bool-cases (a == 42)) [
    | inl e ↦ rw (skip_star a p e) (skip_stars_cases p)
    | inr e ↦ inr (a, p, skip_none a p e, e)
  ]
