-- ===== src/Networking/Runs.antt =====
-- Requests in the query buffer of net/networking.c.
use learnredis.Base.{
  length, get_or, Bool, true, if◌then◌else◌, ◌++◌, ℕ, ◌≡◌, refl, false, ◌&&◌, ◌||◌, none, some,
  List, [], ◌∷◌, arith, leb, ◌==◌,
}
use learnredis.Sds.{Ctype, sdssplitargs}
use learnredis.Networking.{
  Status, Client, redis_ok, redis_err, process_inline_buffer, process_multibulk_buffer,
}
use learnredis.Networking.Bulks.{bulks}
use learnredis.Util.Number.{digits10, digits10_low}
use learnredis.Util.Number.Decimal.{decimal_text, decimal}
use learnredis.Networking.Requests.{request, IsIdle, process_multibulk_buffer-request}
use learnredis.Networking.Input.{
  Session, requests, IsOpen, left_with, run_all, process_input_buffer,
  process_input_buffer-requests,
}
use learnredis.Networking.Inline.{inline_result, process_inline_buffer-line}

abbrev ascii : Ctype
ascii = record {
  isprint = λ c. leb 32 c && leb c 126;
  isspace = λ c. c == 32 || (leb 9 c && leb c 13);
}

abbrev client : List ℕ → Client
client buf = record {
  querybuf = buf;
  argv = [];
  multibulklen = 0;
  bulklen = none;
  close_after_reply = false;
  slave = false;
  repl_ack_time = 0;
  replies = [];
}

client-IsIdle : (buf : List ℕ) → IsIdle (client buf)
client-IsIdle buf = record { none_left = refl; unknown = refl; no_args = refl }

-- `GET` and an argument with CR, LF and NUL in it
abbrev get_args : List (List ℕ)
get_args = (71 ∷ 69 ∷ 84 ∷ []) ∷ (13 ∷ 10 ∷ 0 ∷ []) ∷ []

process_multibulk_buffer-request_example :
    process_multibulk_buffer (client (request get_args (42 ∷ [])))
    ≡ some (record (client (42 ∷ [])) { argv = get_args }, redis_ok)
unfolding decimal_text decimal digits10 digits10_low bulks
process_multibulk_buffer-request_example =
    process_multibulk_buffer-request (client (request get_args (42 ∷ []))) get_args (42 ∷ [])
      (client-IsIdle (request get_args (42 ∷ []))) (omega arith) refl (omega arith) (omega arith)
      (omega arith, (omega arith, tt))

-- `PING` before another line
process_inline_buffer-line_example :
    process_inline_buffer ascii 7 (client (80 ∷ 73 ∷ 78 ∷ 71 ∷ 13 ∷ 10 ∷ 81 ∷ []))
    ≡ inline_result 7
        (client (80 ∷ 73 ∷ 78 ∷ 71 ∷ 13 ∷ 10 ∷ 81 ∷ []))
        (80 ∷ 73 ∷ 78 ∷ 71 ∷ [])
        (81 ∷ [])
        (sdssplitargs ascii (80 ∷ 73 ∷ 78 ∷ 71 ∷ []))
process_inline_buffer-line_example =
    process_inline_buffer-line ascii 7 (client (80 ∷ 73 ∷ 78 ∷ 71 ∷ 13 ∷ 10 ∷ 81 ∷ []))
      (80 ∷ 73 ∷ 78 ∷ 71 ∷ []) (81 ∷ []) (omega arith)
      ((refl, refl), ((refl, refl), ((refl, refl), ((refl, refl), tt)))) refl

-- Commands that are only written down
abbrev Log : Type 0
Log = List (List (List ℕ))

abbrev run : Log → List (List ℕ) → Log
run log args = log ++ args ∷ []

-- `QUIT` ends the connection instead.
abbrev is_quit : List (List ℕ) → Bool
is_quit [] = false
is_quit (name ∷ args) =
    length name == 4
    && (get_or name 0 0 == 81
        && get_or name 1 0 == 85
        && get_or name 2 0 == 73
        && get_or name 3 0 == 84)

abbrev write_down : Session Log → Session Log × Status
write_down s =
    if is_quit s.client.argv
    then (record s { client = record s.client { close_after_reply = true } }, redis_err)
    else (record s { state = run s.state s.client.argv }, redis_ok)

abbrev two_requests : Log
two_requests = get_args ∷ ((80 ∷ 73 ∷ 78 ∷ 71 ∷ []) ∷ []) ∷ []

abbrev session : Session Log
session = record {
  state = [];
  client = client (requests two_requests);
  reqtype = none;
  blocked = false;
}

session-IsOpen : IsOpen session
session-IsOpen = record {
  idle = client-IsIdle (requests two_requests);
  untyped = refl;
  free = refl;
  alive = refl;
}

process_input_buffer-requests_example :
    process_input_buffer ascii 7 write_down session
    ≡ some (left_with session (run_all run [] two_requests) [])
unfolding requests decimal_text decimal digits10 digits10_low bulks
process_input_buffer-requests_example =
    process_input_buffer-requests ascii 7 write_down run (λ args. is_quit args ≡ false)
      (λ s plain. rw plain refl) session two_requests session-IsOpen (omega arith) refl
      (
        (omega arith, omega arith, (omega arith, (omega arith, tt))),
        ((omega arith, omega arith, (omega arith, tt)), tt),
      )
      (refl, (refl, tt))
