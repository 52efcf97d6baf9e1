-- ===== src/Sds/Runs.antt =====
-- Runs of struct/sds.c, and its theorems at concrete inputs.
use learnredis.Base.{
  ◌⊎◌, inl, ◌≤◌, ℕ, ◌≡◌, refl, ◌&&◌, ◌||◌, none, some, List, [], ◌∷◌, ◌+◌, arith, leb, ◌==◌,
  get_elem?, length, if◌then◌else◌,
}
use learnredis.Base.Int.{pos, negsuc}
use learnredis.Sds.{sdsrange, range_newlen}
use learnredis.Sds.Range.{sdsrange_lem}
use learnredis.Sds.{
  c_string, Ctype, sdscatrepr, sdssplitargs, split_loop, skip_blanks, in_token, in_quotes,
  in_single_quotes, close_quote,
}
use learnredis.Sds.RoundTrip.{sdssplitargs-sdscatrepr}

-- ASCII
abbrev ascii : Ctype
ascii = record {
  isprint = λ c. leb 32 c && leb c 126;
  isspace = λ c. c == 32 || (leb 9 c && leb c 13);
}

abbrev bytes : List ℕ
bytes = b'a' ∷ 0 ∷ 10 ∷ 34 ∷ 92 ∷ b'x' ∷ 255 ∷ []

-- The line ` a'b\'c' "d"x`: after the closing quote there is no space.
unbalanced :
    sdssplitargs ascii
      (b' ' ∷ b'a' ∷ 39 ∷ b'b' ∷ 92 ∷ 39 ∷ b'c' ∷ 39 ∷ b' ' ∷ 34 ∷ b'd' ∷ 34 ∷ b'x' ∷ [])
    ≡ none
unfolding sdssplitargs split_loop skip_blanks in_token in_quotes in_single_quotes close_quote
    c_string
unbalanced = refl

balanced :
    sdssplitargs ascii (b' ' ∷ b'a' ∷ 39 ∷ b'b' ∷ 92 ∷ 39 ∷ b'c' ∷ 39 ∷ b' ' ∷ 34 ∷ b'd' ∷ 34 ∷ [])
    ≡ some ((b'a' ∷ b'b' ∷ 39 ∷ b'c' ∷ []) ∷ (b'd' ∷ []) ∷ [])
unfolding sdssplitargs split_loop skip_blanks in_token in_quotes in_single_quotes close_quote
    c_string
balanced = refl

sdssplitargs-sdscatrepr_example : sdssplitargs ascii (sdscatrepr ascii [] bytes) ≡ some (bytes ∷ [])
sdssplitargs-sdscatrepr_example = sdssplitargs-sdscatrepr ascii bytes refl refl (
  omega arith,
  (omega arith, (omega arith, (omega arith, (omega arith, (omega arith, (omega arith, tt)))))),
)

sdsrange_lem_example :
    ((i : ℕ)
      → get_elem? (sdsrange bytes (pos 1) (negsuc 2)) i
        ≡ (if leb (1 + i) 4 then get_elem? bytes (1 + i) else none))
    × ((range_newlen (length bytes) 1 4 ≡ 0) ⊎ (1 + range_newlen (length bytes) 1 4 ≤ length bytes))
sdsrange_lem_example =
    sdsrange_lem bytes (pos 1) (negsuc 2) 1 4 (omega arith) (omega arith) (omega arith)
      (omega arith) refl (inl refl)
