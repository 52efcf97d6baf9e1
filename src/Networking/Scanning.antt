-- ===== src/Networking/Scanning.antt =====
-- Lines in the query buffer of net/networking.c: `strchr`, `sdsrange` and decimal text.
use learnredis.Base.{
  ℕ, zero, suc, ◌+◌, ◌/◌, ◌%◌, ◌≤◌, ◌≡◌, refl, sym, ap, ◌∙◌, inl, inr, false, some, List, [], ◌∷◌,
  ◌++◌, arith, length, length-append, length-eq-zero, append_assoc, take, drop, ◌==◌, Bool-cases,
}
use learnredis.Sds.{sdsrange, range_newlen}
use learnredis.Util.Number.Decimal.{decimal}
use learnredis.Networking.{strchr, trimmed}

pub drop-append : (xs ys : List ℕ) → drop (length xs) (xs ++ ys) ≡ ys
drop-append [] ys = refl
drop-append (x ∷ xs) ys = drop-append xs ys

pub take-append : (xs ys : List ℕ) → take (length xs) (xs ++ ys) ≡ xs
take-append [] ys = refl
take-append (x ∷ xs) ys = ap (λ l. x ∷ l) (take-append xs ys)

take_all : (xs : List ℕ) (n : ℕ) → length xs ≤ n → take n xs ≡ xs
take_all [] zero h = refl
take_all [] (suc n) h = refl
take_all (x ∷ xs) zero h = absurd (omega (arith, h))
take_all (x ∷ xs) (suc n) h = ap (λ l. x ∷ l) (take_all xs n (omega (arith, h)))

-- `sdsrange(s,pos,-1)` of a string cuts off what is before `pos`.
pub trimmed-append : (xs ys : List ℕ) → trimmed (xs ++ ys) (length xs) ≡ ys
unfolding sdsrange range_newlen
trimmed-append xs ys = elim (Bool-cases (length (xs ++ ys) == 0)) [
  | inl e ↦
      let p : xs ≡ [] = length-eq-zero xs (ground (arith, e, length-append xs ys)) in
      let q : ys ≡ [] = length-eq-zero ys (ground (arith, e, length-append xs ys)) in rw (p, q) refl
  | inr e ↦ rw (e, drop-append xs ys) (take_all ys _ (ground (arith, e, length-append xs ys)))
]

pub strchr_cons :
    (x c : ℕ) (s : List ℕ) (i : ℕ)
    → (c == x) ≡ false
    → (c == 0) ≡ false
    → strchr x s ≡ some i
    → strchr x (c ∷ s) ≡ some (suc i)
unfolding strchr
strchr_cons x c s i e f g = rw (e, f, strchr, g) refl

pub strchr-decimal :
    (k v : ℕ) (s : List ℕ) (i : ℕ)
    → strchr 13 s ≡ some i
    → strchr 13 (decimal k v ++ s) ≡ some (k + i)
unfolding decimal
strchr-decimal zero v s i e = e ∙ ap some (omega arith)
strchr-decimal (suc k) v s i e =
    let d : ℕ = 48 + v % 10 in
    rw (append_assoc (decimal k (v / 10)) (d ∷ []) s) (
      strchr-decimal k (v / 10) (d ∷ s) (suc i)
        (strchr_cons 13 d s i (ground arith) (ground arith) e)
      ∙ ap some (omega arith))

pub take_first : (n : ℕ) (xs ys : List ℕ) → length xs ≡ n → take n (xs ++ ys) ≡ xs
take_first n xs ys e = rw (sym e) (take-append xs ys)
