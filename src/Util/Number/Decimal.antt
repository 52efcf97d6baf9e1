-- ===== src/Util/Number/Decimal.antt =====
-- Decimal text, as tool/util.c writes and reads it.
use mathlib.Core.List.{append_assoc}
use learnredis.Base.{
  ℕ, zero, suc, ◌+◌, ◌/◌, ◌%◌, ◌<◌, ◌≡◌, refl, ◌∙◌, ap, List, [], ◌∷◌, ◌++◌, arith, length,
  length-append,
}
use learnredis.Base.Int.{ℤ, pos, negsuc}
use learnredis.Util.Number.{digits10}

-- The last `k` decimal digits of `v`, highest first.
unfoldable pub decimal : ℕ → ℕ → List ℕ
decimal zero v = []
decimal (suc k) v = decimal k (v / 10) ++ (48 + v % 10) ∷ []

pub length-decimal : (k v : ℕ) → length (decimal k v) ≡ k
unfolding decimal
length-decimal zero v = refl
length-decimal (suc k) v =
    length-append (decimal k (v / 10)) ((48 + v % 10) ∷ [])
    ∙ omega (arith, length-decimal k (v / 10))

-- Two digits at a time.
pub decimal_pair :
    (k v : ℕ)
    → decimal (suc (suc k)) v ≡ decimal k (v / 100) ++ (48 + v / 10 % 10) ∷ (48 + v % 10) ∷ []
unfolding decimal
decimal_pair k v =
    let e : v / 10 / 10 ≡ v / 100 = omega arith in
    append_assoc (decimal k (v / 10 / 10)) ((48 + v / 10 % 10) ∷ []) ((48 + v % 10) ∷ [])
    ∙ ap (λ n. decimal k n ++ (48 + v / 10 % 10) ∷ (48 + v % 10) ∷ []) e

pub decimal_one : (v : ℕ) → v < 10 → decimal 1 v ≡ (48 + v) ∷ []
unfolding decimal
decimal_one v h = ap (λ n. n ∷ []) (omega arith)

-- The text of a number: the digits that it has, behind a minus sign for a negative one.
unfoldable pub decimal_text : ℤ → List ℕ
decimal_text (pos n) = decimal (digits10 n) n
decimal_text (negsuc n) = b'-' ∷ decimal (digits10 (n + 1)) (n + 1)
