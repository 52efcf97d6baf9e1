-- ===== src/Networking/Input.antt =====
-- processInputBuffer of net/networking.c: the requests in the query buffer, one after the other.
-- processCommand is a parameter; `state` is whatever it works on beside the client. The flag
-- REDIS_ASKING, which resetClient clears, is left out.
use learnredis.Base.{
  ◌^◌, sym, ℕ, zero, suc, ◌+◌, ◌*◌, ◌≤◌, ◌<◌, ◌≡◌, refl, ap, ◌∙◌, Bool, true, false, not, ◌&&◌,
  Option, none, some, List, [], ◌∷◌, ◌++◌, arith, length, length-append, get_or, ◌==◌,
  if◌then◌else◌, ◌>>=◌, All,
}
use learnredis.Sds.{Ctype}
use learnredis.Networking.{
  Client, Status, redis_ok, redis_err, process_inline_buffer, process_multibulk_buffer,
}
use learnredis.Networking.Bulks.{bulks, length-number_line}
use learnredis.Networking.Requests.{request, IsIdle, process_multibulk_buffer-request}

-- `REDIS_REQ_INLINE` and `REDIS_REQ_MULTIBULK`
pub data RequestType : Type 0 where
  inline_request multibulk_request : RequestType

pub record Session {ℓ} (S : Type ℓ) : Type ℓ where
  pub state : S
  pub client : Client
  pub reqtype : Option RequestType
  pub blocked : Bool

abbrev pub type_of : List ℕ → Option RequestType → RequestType
type_of buf (some r) = r
type_of buf none = if get_or buf 0 0 == 42 then multibulk_request else inline_request

module _ {ℓ} {S : Type ℓ} (ctype : Ctype) (unixtime : ℕ)
    (process_command : Session S → Session S × Status) where
  -- `resetClient`
  abbrev reset_client : Session S → Session S
  reset_client s = record s {
    client = record s.client { argv = []; multibulklen = 0; bulklen = none };
    reqtype = none;
  }

  abbrev read_request : RequestType → Client → Option (Client × Status)
  read_request inline_request c = some (process_inline_buffer ctype unixtime c)
  read_request multibulk_request c = process_multibulk_buffer c

  abbrev reset_after : Session S × Status → Session S
  reset_after (s, redis_ok) = reset_client s
  reset_after (s, redis_err) = s

  -- The part of the loop behind the reading of a request
  abbrev handled : Session S → Session S
  handled s = if length s.client.argv == 0 then reset_client s else reset_after (process_command s)

  -- The tests at the start of a round
  abbrev ready : Session S → Bool
  ready s = not (length s.client.querybuf == 0) && (not s.blocked && not s.client.close_after_reply)

  pub input_loop : ℕ → Session S → Option (Session S)
  input_loop zero s = none
  input_loop (suc n) s = elim (ready s) [
    | false ↦ some s
    | true ↦
        let r : RequestType = type_of s.client.querybuf s.reqtype in
        read_request r s.client >>= λ result.
        let s' : Session S = record s { client = result.0; reqtype = some r } in
        elim result.1 [ redis_err ↦ some s' | redis_ok ↦ input_loop n (handled s') ]
  ]

  -- Each round that goes on has taken a byte of the buffer at least.
  unfoldable pub process_input_buffer : Session S → Option (Session S)
  process_input_buffer s = input_loop (length s.client.querybuf + 1) s

  input_loop_step :
      (n : ℕ) (s : Session S) (r : RequestType) (c : Client)
      → ready s ≡ true
      → type_of s.client.querybuf s.reqtype ≡ r
      → read_request r s.client ≡ some (c, redis_ok)
      → input_loop (suc n) s ≡ input_loop n (handled (record s { client = c; reqtype = some r }))
  unfolding input_loop
  input_loop_step n s r c e f g = rw (e, input_loop, f, g, f) refl

unfoldable pub requests : List (List (List ℕ)) → List ℕ
requests [] = []
requests (args ∷ rs) = request args (requests rs)

abbrev pub IsRequest : List (List ℕ) → Type 0
IsRequest args =
    (0 < length args) × (length args ≤ 1024 * 1024) × All (λ a. length a ≤ 512 * 1024 * 1024) args

length-bulks : (args : List (List ℕ)) (s : List ℕ) → length s ≤ length (bulks args s)
unfolding bulks
length-bulks [] s = omega arith
length-bulks (a ∷ args) s = omega (
  arith,
  length-bulks args s,
  length-number_line 36 (length a) (a ++ 13 ∷ 10 ∷ bulks args s),
  length-append a (13 ∷ 10 ∷ bulks args s),
)

length-request : (args : List (List ℕ)) (s : List ℕ) → length s ≤ length (request args s)
length-request args s =
    omega (arith, length-bulks args s, length-number_line 42 (length args) (bulks args s))

length-requests : (rs : List (List (List ℕ))) → length rs ≤ length (requests rs)
unfolding requests
length-requests [] = omega arith
length-requests (args ∷ rs) = omega (
  arith,
  length-requests rs,
  length-bulks args (requests rs),
  length-number_line 42 (length args) (bulks args (requests rs)),
)

-- A session that may read a request
pub record IsOpen {ℓ} {S : Type ℓ} (s : Session S) : Type ℓ where
  pub idle : IsIdle s.client
  pub untyped : s.reqtype ≡ none
  pub free : s.blocked ≡ false
  pub alive : s.client.close_after_reply ≡ false

abbrev pub left_with {ℓ} : {S : Type ℓ} → Session S → S → List ℕ → Session S
left_with s x buf = record s { state = x; client = record s.client { querybuf = buf } }

-- The states after commands that are run in order
unfoldable pub run_all {ℓ} : {S : Type ℓ} → (S → List (List ℕ) → S) → S → List (List (List ℕ)) → S
run_all run s [] = s
run_all run s (args ∷ rs) = run_all run (run s args) rs

module _ {ℓ} {S : Type ℓ} (ctype : Ctype) (unixtime : ℕ)
    (process_command : Session S → Session S × Status) (run : S → List (List ℕ) → S)
    (IsPlain : List (List ℕ) → Type 0)
    (runs : (s : Session S)
      → IsPlain s.client.argv
      → process_command s ≡ (record s { state = run s.state s.client.argv }, redis_ok)) where
  handled_lem :
      (s : Session S) (args : List (List ℕ)) (buf : List ℕ)
      → IsOpen s
      → 0 < length args
      → IsPlain args
      → handled ctype unixtime process_command (record s {
        client = record s.client { querybuf = buf; argv = args };
        reqtype = some multibulk_request;
      })
        ≡ left_with s (run s.state args) buf
  handled_lem s args buf o h plain =
      let some_args : (length args == 0) ≡ false = ground (arith, h) in
      let ran =
        runs
          (record s {
            client = record s.client { querybuf = buf; argv = args };
            reqtype = some multibulk_request;
          })
          plain in
      rw (some_args, ran) (rw (o.idle.no_args, o.idle.none_left, o.idle.unknown, o.untyped) refl)

  input_loop-requests :
      (rs : List (List (List ℕ))) (n : ℕ) (s : Session S)
      → IsOpen s
      → length (requests rs) < 2 ^ 31
      → s.client.querybuf ≡ requests rs
      → All IsRequest rs
      → All IsPlain rs
      → length rs < n
      → input_loop ctype unixtime process_command n s
        ≡ some (left_with s (run_all run s.state rs) [])
  unfolding input_loop requests run_all
  input_loop-requests rs zero s o b e k plain h = absurd (omega (arith, h))
  input_loop-requests [] (suc n) s o b e k plain h =
      let empty : ready ctype unixtime process_command s ≡ false = rw e refl in
      rw (empty, input_loop, e) refl
  input_loop-requests (args ∷ rs) (suc n) s o b e k plain h =
      let ((some_args, few, short), others) = k in
      let full : ready ctype unixtime process_command s ≡ true =
        rw (e, o.free, o.alive) (ground arith) in
      let kind : type_of s.client.querybuf s.reqtype ≡ multibulk_request = rw (o.untyped, e) refl in
      let read =
        process_multibulk_buffer-request s.client args (requests rs) o.idle (rw e b) e some_args few
          short in
      let s' : Session S = left_with s (run s.state args) (requests rs) in
      let o' : IsOpen s' = record {
        idle = record {
          none_left = o.idle.none_left;
          unknown = o.idle.unknown;
          no_args = o.idle.no_args;
        };
        untyped = o.untyped;
        free = o.free;
        alive = o.alive;
      } in
      input_loop_step ctype unixtime process_command n s multibulk_request
        (record s.client { querybuf = requests rs; argv = args }) full kind read
      ∙ ap (input_loop ctype unixtime process_command n)
          (handled_lem s args (requests rs) o some_args plain.0)
      ∙ input_loop-requests rs n s' o' (omega (arith, b, length-request args (requests rs))) refl
          others plain.1 (omega (arith, h))

  -- When the buffer, of fewer than 2^31 bytes, of an open client that waits for a request holds
  -- the text of any number of requests end to end, each of 1 to 1024*1024 arguments of 512 MB at
  -- most, and each a plain one, which is a request for which processCommand returns REDIS_OK and
  -- changes nothing but the state, `processInputBuffer` ends after it has run all of them in their
  -- order on the state; the buffer is empty then, and the client is as it was.
  pub process_input_buffer-requests :
      (s : Session S) (rs : List (List (List ℕ)))
      → IsOpen s
      → length s.client.querybuf < 2 ^ 31
      → s.client.querybuf ≡ requests rs
      → All IsRequest rs
      → All IsPlain rs
      → process_input_buffer ctype unixtime process_command s
        ≡ some (left_with s (run_all run s.state rs) [])
  unfolding process_input_buffer
  process_input_buffer-requests s rs o b e k plain =
      input_loop-requests rs (length s.client.querybuf + 1) s o (rw (sym e) b) e k plain
        (omega (arith, ap length e, length-requests rs))
