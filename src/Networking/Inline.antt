-- ===== src/Networking/Inline.antt =====
-- processInlineBuffer of net/networking.c on a line that ends with CR and LF.
use learnredis.Base.{
  ◌<◌, ◌^◌, ltb, true, ℕ, suc, ◌+◌, ◌-◌, ◌≡◌, refl, sym, ap, ◌∙◌, false, ◌&&◌, Option, none, some,
  List, [], ◌∷◌, ◌++◌, arith, length, length-append, append_assoc, get_or, take, ◌==◌,
  if◌then◌else◌, All,
}
use learnredis.Sds.{Ctype, sdssplitargs}
use learnredis.Networking.{
  Client, Status, strchr, trimmed, query_length, inline_request, process_inline_buffer,
  unbalanced_quotes, not_empty, redis_ok, redis_err,
}
use learnredis.Networking.Scanning.{take_first, trimmed-append, strchr_cons}

-- Bytes of a line: neither LF nor NUL
abbrev pub IsLine : List ℕ → Type 0
IsLine s = All (λ c. ((c == 10) ≡ false) × ((c == 0) ≡ false)) s

strchr-line :
    (line s : List ℕ) → IsLine line → strchr 10 (line ++ 13 ∷ 10 ∷ s) ≡ some (suc (length line))
unfolding strchr
strchr-line [] s k = refl
strchr-line (c ∷ line) s k =
    strchr_cons 10 c (line ++ 13 ∷ 10 ∷ s) (suc (length line)) k.0.0 k.0.1 (strchr-line line s k.1)

get_or-line : (line s : List ℕ) → get_or (line ++ 13 ∷ s) (length line) 0 ≡ 13
get_or-line [] s = refl
get_or-line (c ∷ line) s = get_or-line line s

-- The arguments that are not empty
pub kept : List (List ℕ) → List (List ℕ)
kept [] = []
kept (a ∷ l) = let rest = kept l in if ltb 0 (length a) then a ∷ rest else rest

not_empty_lem : (l : List (List ℕ)) → not_empty l ≡ kept l
unfolding not_empty kept
not_empty_lem [] = refl
not_empty_lem ([] ∷ l) = not_empty_lem l
not_empty_lem ((c ∷ s) ∷ l) =
    let some_bytes : ltb 0 (suc (length s)) ≡ true = ground arith in
    rw some_bytes (ap (λ m. (c ∷ s) ∷ m) (not_empty_lem l))

-- What a client is left with whose line splits into arguments, or does not: then one error is sent,
-- and the connection is closed after it.
unfoldable pub inline_result :
    ℕ → Client → List ℕ → List ℕ → Option (List (List ℕ)) → Client × Status
inline_result unixtime c line s none = (
  record c { close_after_reply = true; replies = c.replies ++ unbalanced_quotes ∷ [] },
  redis_err,
)
inline_result unixtime c line s (some argv) = (
  record c {
    querybuf = s;
    argv = kept argv;
    repl_ack_time = if length line == 0 && c.slave then unixtime else c.repl_ack_time;
  },
  redis_ok,
)

split :
    (unixtime : ℕ) (c : Client) (line s : List ℕ)
    → trimmed c.querybuf (length line + 2) ≡ s
    → (args : Option (List (List ℕ)))
    → inline_request unixtime c (length line) args ≡ inline_result unixtime c line s args
unfolding inline_result
split unixtime c line s e none =
    let whole : trimmed c.querybuf 0 ≡ c.querybuf = trimmed-append [] c.querybuf in rw whole refl
split unixtime c line s e (some args) = rw (e, not_empty_lem args) refl

-- When the buffer, of fewer than 2^31 bytes, starts with a line that holds neither LF nor NUL and
-- ends with CR and LF, `processInlineBuffer` returns REDIS_OK with the arguments that
-- `sdssplitargs` finds in the line, less the empty ones, and leaves in the buffer what comes
-- behind the line; where `sdssplitargs` fails on the line it returns REDIS_ERR with the reply of
-- unbalanced quotes added, the client marked to close after the reply, and the buffer as it was;
-- an empty line of a slave sets its time.
pub process_inline_buffer-line :
    (ctype : Ctype) (unixtime : ℕ) (c : Client) (line s : List ℕ)
    → length c.querybuf < 2 ^ 31
    → IsLine line
    → c.querybuf ≡ line ++ 13 ∷ 10 ∷ s
    → process_inline_buffer ctype unixtime c
      ≡ inline_result unixtime c line s (sdssplitargs ctype line)
process_inline_buffer-line ctype unixtime c line s short k e =
    let newline : strchr 10 c.querybuf ≡ some (suc (length line)) =
      ap (strchr 10) e ∙ strchr-line line s k in
    let index : suc (length line) - 1 ≡ length line = omega arith in
    let len : query_length c.querybuf (suc (length line)) ≡ length line =
      rw (index, e, get_or-line line (10 ∷ s)) (ground arith) in
    let head : take (length line) c.querybuf ≡ line =
      rw e (take_first (length line) line (13 ∷ 10 ∷ s) refl) in
    let two : length (line ++ 13 ∷ 10 ∷ []) ≡ length line + 2 = length-append line (13 ∷ 10 ∷ []) in
    let left : trimmed c.querybuf (length line + 2) ≡ s =
      rw (e, sym (append_assoc line (13 ∷ 10 ∷ []) s), sym two)
        (trimmed-append (line ++ 13 ∷ 10 ∷ []) s) in
    rw (newline, len, head) (split unixtime c line s left (sdssplitargs ctype line))
