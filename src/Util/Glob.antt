-- ===== src/Util/Glob.antt =====
-- stringmatchlen of tool/util.c: patterns in the style of the shell.
-- The pattern and the string have a NUL behind their last byte, which the code may read; a read
-- beyond it faults, and that is `none`. The pattern pointer is the list of the bytes from it on: each
-- `pattern++` goes with a `patternLen--`, so that the list is empty where `patternLen` is 0. The code
-- reads the pattern again wherever it moves beyond its NUL.
pub mod Meaning
pub mod Matching
mod Runs
use learnredis.Base.{
  ℕ, zero, suc, ◌+◌, ◌%◌, Bool, true, false, not, ◌&&◌, ◌||◌, Option, none, some, List, [], ◌∷◌,
  leb, ltb, ◌==◌, if◌then◌else◌, ◌>>=◌, length,
}

-- The string pointer: the bytes from it on, or `beyond` once `stringLen` is negative
pub data Text : Type 0 where
  inside : List ℕ → Text
  beyond : Text

-- `string[0]`
unfoldable pub current : Text → Option ℕ
current (inside []) = some 0
current (inside (c ∷ s)) = some c
current beyond = none

-- `string++; stringLen--`
unfoldable pub advance : Text → Text
advance (inside []) = beyond
advance (inside (c ∷ s)) = inside s
advance beyond = beyond

-- `stringLen == 0`
unfoldable pub at_end : Text → Bool
at_end (inside []) = true
at_end (inside (c ∷ s)) = false
at_end beyond = false

unfoldable pub is_empty : List ℕ → Bool
is_empty [] = true
is_empty (c ∷ p) = false

-- `while (*pattern == '*')`, by which `pattern[1] == '*'` is tested too
unfoldable pub skip_stars : List ℕ → List ℕ
skip_stars [] = []
skip_stars (c ∷ p) = elim (c == 42) [ true ↦ skip_stars p | false ↦ c ∷ p ]

-- A `char` is signed.
abbrev pub char_le : ℕ → ℕ → Bool
char_le a b = leb ((a + 128) % 256) ((b + 128) % 256)

-- The loop behind a star, with the recursive call as `rest`. Beyond the string it would not end
-- before `stringLen` leaves the range of `int`.
unfoldable pub star_loop : (Text → Option Bool) → List ℕ → Option Bool
star_loop rest [] = some false
star_loop rest (c ∷ s) =
    rest (inside (c ∷ s)) >>= λ found. elim found [ true ↦ some true | false ↦ star_loop rest s ]

unfoldable pub star_beyond : Option Bool → Option Bool
star_beyond found = found >>= λ b. if b then some true else none

unfoldable pub after_star : (Text → Option Bool) → Text → Option Bool
after_star rest (inside s) = star_loop rest s
after_star rest beyond = star_beyond (rest beyond)

-- The end of a round, with the next rounds as `rest`
unfoldable pub next_round : (List ℕ → Text → Option Bool) → List ℕ → Text → Option Bool
next_round rest p t = if at_end t then some (is_empty (skip_stars p)) else rest p t

unfoldable pub starred : (List ℕ → Text → Option Bool) → List ℕ → Text → Option Bool
starred rest p t = if is_empty (skip_stars p) then some true else after_star (rest (skip_stars p)) t

unfoldable pub any_byte : (List ℕ → Text → Option Bool) → List ℕ → Text → Option Bool
any_byte rest p t = if at_end t then some false else next_round rest p (advance t)

module _ (tolower : ℕ → ℕ) (nocase : Bool) where
  -- Equal bytes, or equal letters if `nocase`
  abbrev pub same : ℕ → ℕ → Bool
  same a c = if nocase then tolower a == tolower c else a == c

  -- The byte `c` is between `a` and `b`, in either order.
  unfoldable pub in_range : ℕ → ℕ → ℕ → Bool
  in_range a b c =
      let lower = if char_le a b then a else b in
      let upper = if char_le a b then b else a in
      if nocase
      then char_le (tolower lower) (tolower c) && char_le (tolower c) (tolower upper)
      else char_le lower c && char_le c upper

  -- The loop over a class: whether a part of it matches, and the pattern behind the class. A class
  -- may end with the pattern.
  unfoldable pub class_loop : List ℕ → Text → Bool → Option (Bool × List ℕ)
  class_loop [] t m = some (m, [])
  class_loop (a ∷ []) t m =
      if a == 92
      then none
      else if a == 93
      then some (m, [])
      else (do c ← current t; some (m || same a c, []))
  class_loop (a ∷ b ∷ []) t m = elim (a == 92) [
    | true ↦ do c ← current t; some (m || (b == c), [])
    | false ↦ elim (a == 93) [
      | true ↦ some (m, b ∷ [])
      | false ↦ do c ← current t; class_loop (b ∷ []) t (m || same a c)
    ]
  ]
  class_loop (a ∷ b ∷ d ∷ p) t m = elim (a == 92) [
    | true ↦ do c ← current t; class_loop (d ∷ p) t (m || (b == c))
    | false ↦ elim (a == 93) [
      | true ↦ some (m, b ∷ d ∷ p)
      | false ↦ elim (b == 45) [
        | true ↦ do c ← current t; class_loop p t (m || in_range a d c)
        | false ↦ do c ← current t; class_loop (b ∷ d ∷ p) t (m || same a c)
      ]
    ]
  ]

  -- `not` is set by a `^` behind the bracket.
  unfoldable pub class_at : List ℕ → Text → Option (Bool × List ℕ)
  class_at [] t = class_loop [] t false
  class_at (a ∷ p) t =
      if a == 94
      then (do r ← class_loop p t false; some (not r.0, r.1))
      else class_loop (a ∷ p) t false

  unfoldable pub literal : (List ℕ → Text → Option Bool) → ℕ → List ℕ → Text → Option Bool
  literal rest a p t = do
    c ← current t
    if same a c then next_round rest p (advance t) else some false

  -- A backslash at the end of the pattern stands for itself.
  unfoldable pub quoted : (List ℕ → Text → Option Bool) → List ℕ → Text → Option Bool
  quoted rest [] t = literal rest 92 [] t
  quoted rest (a ∷ p) t = literal rest a p t

  unfoldable pub bracket : (List ℕ → Text → Option Bool) → List ℕ → Text → Option Bool
  bracket rest p t = do
    r ← class_at p t
    if r.0 then next_round rest r.1 (advance t) else some false

  -- The rounds; each takes a byte of the pattern at least.
  pub match_loop : ℕ → List ℕ → Text → Option Bool
  match_loop zero p t = none
  match_loop (suc n) [] t = some (at_end t)
  match_loop (suc n) (a ∷ p) t = elim (a == 42) [
    | true ↦ starred (match_loop n) p t
    | false ↦ elim (a == 63) [
      | true ↦ any_byte (match_loop n) p t
      | false ↦ elim (a == 91) [
        | true ↦ bracket (match_loop n) p t
        | false ↦ elim (a == 92) [
          | true ↦ quoted (match_loop n) p t
          | false ↦ literal (match_loop n) a p t
        ]
      ]
    ]
  ]

  unfoldable pub stringmatchlen : List ℕ → List ℕ → Option Bool
  stringmatchlen p s = match_loop (length p + 1) p (inside s)
