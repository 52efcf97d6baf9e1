-- ===== src/Util/Glob/Runs.antt =====
-- Patterns of stringmatchlen in tool/util.c at work.
use learnredis.Base.{
  ℕ, ◌+◌, ◌≡◌, refl, true, false, ◌&&◌, none, some, List, [], ◌∷◌, arith, leb, ◌==◌, if◌then◌else◌,
  Bool-cases, inl, inr,
}
use learnredis.Util.Glob.{
  current, advance, at_end, is_empty, skip_stars, star_loop, star_beyond, after_star, next_round,
  same, in_range, class_loop, class_at, literal, quoted, starred, any_byte, bracket, match_loop,
  stringmatchlen,
}
use learnredis.Util.Glob.Meaning.{tokens, IsPlain, Decides, Denotes}
use learnredis.Util.Glob.Matching.{stringmatchlen-Denotes}

-- The letters of ASCII
abbrev tolower : ℕ → ℕ
tolower c = if leb 65 c && leb c 90 then c + 32 else c

program : Unit {0}
unfolding current advance at_end is_empty skip_stars star_loop star_beyond after_star next_round
    in_range class_loop class_at literal quoted starred any_byte bracket match_loop stringmatchlen
program = tt

-- `h[a-e]l*o` and `HELlLo`
abbrev hello : List ℕ
hello = 104 ∷ 91 ∷ 97 ∷ 45 ∷ 101 ∷ 93 ∷ 108 ∷ 42 ∷ 111 ∷ []

abbrev shout : List ℕ
shout = 72 ∷ 69 ∷ 76 ∷ 108 ∷ 76 ∷ 111 ∷ []

letters_alike :
    (stringmatchlen tolower true hello shout ≡ some true)
    × (stringmatchlen tolower false hello shout ≡ some false)
unfolding program
letters_alike = (refl, refl)

-- `[^a]*` matches the empty string, whose NUL the class takes for a byte.
class_at_nul : stringmatchlen tolower false (91 ∷ 94 ∷ 97 ∷ 93 ∷ 42 ∷ []) [] ≡ some true
unfolding program
class_at_nul = refl

-- `[^a]*b` is tried beyond the NUL of the empty string.
star_past_nul : stringmatchlen tolower false (91 ∷ 94 ∷ 97 ∷ 93 ∷ 42 ∷ 98 ∷ []) [] ≡ none
unfolding program
star_past_nul = refl

-- `[\` is read beyond its NUL, whatever the string.
class_beyond : stringmatchlen tolower false (91 ∷ 92 ∷ []) (97 ∷ []) ≡ none
unfolding program
class_beyond = refl

tolower_nul : (a : ℕ) → (a == 0) ≡ false → (tolower a == tolower 0) ≡ false
tolower_nul a e = elim (Bool-cases (leb 65 a && leb a 90)) [
  | inl h ↦ rw h (ground (arith, h))
  | inr h ↦ rw h e
]

-- `a*\[?` and `Ab[c`
abbrev pattern_bytes : List ℕ
pattern_bytes = 97 ∷ 42 ∷ 92 ∷ 91 ∷ 63 ∷ []

abbrev text_bytes : List ℕ
text_bytes = 65 ∷ 98 ∷ 91 ∷ 99 ∷ []

pattern_bytes-IsPlain : IsPlain false pattern_bytes
unfolding IsPlain
pattern_bytes-IsPlain = (refl, refl, (refl, refl, (refl, refl, (refl, (refl, refl, tt)))))

stringmatchlen-Denotes_example :
    Decides
      (stringmatchlen tolower true pattern_bytes text_bytes)
      (Denotes (same tolower true) (tokens false pattern_bytes) text_bytes)
stringmatchlen-Denotes_example =
    stringmatchlen-Denotes tolower true tolower_nul pattern_bytes text_bytes pattern_bytes-IsPlain
