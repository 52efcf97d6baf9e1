-- ===== src/Sds/Range.antt =====
-- `sdsrange` of struct/sds.c: what is left of the string.
use learnredis.Base.{
  ◌<◌, ◌-◌, ◌^◌, ◌⊎◌, sym, ℕ, zero, suc, ◌+◌, ◌≤◌, ◌≡◌, refl, ap, inl, inr, false, none, List, [],
  ◌∷◌, arith, length, get_elem?, take, drop, ltb, leb, ◌==◌, if◌then◌else◌, Bool-cases,
}
use learnredis.Base.Int.{ℤ, pos, negsuc}
use learnredis.Sds.{from_end, range_newlen, sdsrange}

get_elem?-take :
    (n : ℕ) (s : List ℕ) (i : ℕ)
    → get_elem? (take n s) i ≡ (if ltb i n then get_elem? s i else none)
get_elem?-take zero s i = ground arith
get_elem?-take (suc n) [] i = ground arith
get_elem?-take (suc n) (x ∷ s) zero = ground arith
get_elem?-take (suc n) (x ∷ s) (suc i) = rw (get_elem?-take n s i) (ground arith)

get_elem?_out : (s : List ℕ) (i : ℕ) → length s ≤ i → get_elem? s i ≡ none
get_elem?_out [] i h = refl
get_elem?_out (x ∷ s) zero h = absurd (omega arith)
get_elem?_out (x ∷ s) (suc i) h = get_elem?_out s i (omega arith)

get_elem?-drop : (n : ℕ) (s : List ℕ) (i : ℕ) → get_elem? (drop n s) i ≡ get_elem? s (n + i)
get_elem?-drop zero s i = ap (get_elem? s) (omega arith)
get_elem?-drop (suc n) [] i = refl
get_elem?-drop (suc n) (x ∷ s) i =
    let p : suc n + i ≡ suc (n + i) = omega arith in rw (p, get_elem?-drop n s i) refl

range_newlen_lem :
    (len a b i : ℕ) → (leb len (a + i)) ≡ false → ltb i (range_newlen len a b) ≡ leb (a + i) b
unfolding range_newlen
range_newlen_lem len a b i h = ground (arith, h)

-- The bytes by the places that the code computes
sdsrange_bytes :
    (s : List ℕ) (start end_index : ℤ) (i : ℕ)
    → get_elem? (sdsrange s start end_index) i ≡ (
        if leb (from_end (length s) start + i) (from_end (length s) end_index)
        then get_elem? s (from_end (length s) start + i)
        else none)
unfolding sdsrange
sdsrange_bytes s start end_index i =
    let a = from_end (length s) start in
    let b = from_end (length s) end_index in
    elim (Bool-cases (length s == 0)) [
      | inl e ↦
          rw (e, get_elem?_out s i (ground (arith, e)), get_elem?_out s (a + i) (ground (arith, e)))
            (ground arith)
      | inr e ↦ elim (Bool-cases (leb (length s) (a + i))) [
        | inl out ↦
            rw
              (
                e,
                get_elem?-take (range_newlen (length s) a b) (drop a s) i,
                get_elem?-drop a s i,
                get_elem?_out s (a + i) (ground (arith, out)),
              )
              (ground arith)
        | inr inside ↦
            rw
              (
                e,
                get_elem?-take (range_newlen (length s) a b) (drop a s) i,
                get_elem?-drop a s i,
                range_newlen_lem (length s) a b i inside,
              )
              refl
      ]
    ]

-- The place `a` that an index of a string of `len` bytes stands for: counted from the end if it is
-- negative, and 0 if that is before the start
abbrev pub IsPlace : ℕ → ℤ → ℕ → Type 0
IsPlace len (pos n) a = a ≡ n
IsPlace len (negsuc n) a = (a + (n + 1) ≡ len) ⊎ ((len < n + 1) × (a ≡ 0))

from_end-IsPlace : (len : ℕ) (k : ℤ) (a : ℕ) → IsPlace len k a → from_end len k ≡ a
from_end-IsPlace len (pos n) a p = sym p
from_end-IsPlace len (negsuc n) a (inl p) = ground (arith, p)
from_end-IsPlace len (negsuc n) a (inr p) = ground (arith, p)

range_newlen-fits :
    (len a b : ℕ) → 0 < len → (range_newlen len a b ≡ 0) ⊎ (a + range_newlen len a b ≤ len)
unfolding range_newlen
range_newlen-fits len a b h = ground (arith, h)

-- For a string of 1 to 2^31 - 1 bytes and a start and an end that stand for the places `a` and
-- `b`, where `a` and `b + 1` fit an `int`, counted from the end of the string if negative and no
-- less than 0, byte `i` of the result of `sdsrange` is byte `a + i` of the string if that is no
-- later than `b`, and there are no other bytes; what is moved lies inside the string.
pub sdsrange_lem :
    (s : List ℕ) (start end_index : ℤ) (a b : ℕ)
    → 0 < length s
    → length s < 2 ^ 31
    → a < 2 ^ 31
    → b < 2 ^ 31 - 1
    → IsPlace (length s) start a
    → IsPlace (length s) end_index b
    → ((i : ℕ)
        → get_elem? (sdsrange s start end_index) i
          ≡ (if leb (a + i) b then get_elem? s (a + i) else none))
      × ((range_newlen (length s) a b ≡ 0) ⊎ (a + range_newlen (length s) a b ≤ length s))
sdsrange_lem s start end_index a b some_bytes short start_fits end_fits p q = (
  λ i.
      rw (from_end-IsPlace (length s) start a p, from_end-IsPlace (length s) end_index b q) at
        (sdsrange_bytes s start end_index i),
  range_newlen-fits (length s) a b some_bytes,
)
