-- ===== src/Networking.antt =====
-- net/networking.c: the query buffer of a client, and the requests that are read from it.
-- The buffer is the list of its bytes. `none` is an assertion that fails. Of the client the fields
-- are kept that the functions read or write; `replies` are the errors that were sent. Where the code
-- makes room in the buffer, and logs, nothing is left to say. The positions, which are of type `int`,
-- and the signed lengths are exact for buffers of fewer than 2^31 bytes.
pub mod Scanning
pub mod Bulks
pub mod Requests
pub mod Inline
pub mod Input
mod Runs
use learnredis.Base.{
  ℕ, zero, suc, ◌+◌, ◌-◌, ◌*◌, ◌^◌, Bool, true, false, not, ◌&&◌, Option, none, some, List, [], ◌∷◌,
  ◌++◌, length, get_or, take, drop, ltb, leb, ◌==◌, if◌then◌else◌, ◌>>=◌,
}
use learnredis.Base.Int.{ℤ, pos, negsuc}
use learnredis.Sds.{Ctype, sdsrange, sdssplitargs}
use learnredis.Util.Number.{string2ll}

-- `REDIS_INLINE_MAX_SIZE` and `REDIS_MBULK_BIG_ARG`
abbrev pub redis_inline_max_size : ℕ
redis_inline_max_size = 1024 * 64

abbrev pub redis_mbulk_big_arg : ℕ
redis_mbulk_big_arg = 1024 * 32

-- The errors of the protocol
pub data Failure : Type 0 where
  too_big_inline unbalanced_quotes too_big_count invalid_count : Failure
  too_big_bulk_count invalid_bulk : Failure
  expected_dollar : ℕ → Failure

-- `REDIS_OK` and `REDIS_ERR`
pub data Status : Type 0 where
  redis_ok redis_err : Status

-- The fields of `redisClient`; `bulklen` is `none` for -1.
pub record Client : Type 0 where
  pub querybuf : List ℕ
  pub argv : List (List ℕ)
  pub multibulklen : ℕ
  pub bulklen : Option ℕ
  pub close_after_reply : Bool
  pub slave : Bool
  pub repl_ack_time : ℕ
  pub replies : List Failure

-- `strchr` of C, from the start of the list; it stops at a NUL.
unfoldable pub strchr : ℕ → List ℕ → Option ℕ
strchr x [] = none
strchr x (c ∷ s) = elim (c == x) [
  | true ↦ some 0
  | false ↦ elim (c == 0) [ true ↦ none | false ↦ strchr x s >>= λ i. some (suc i) ]
]

-- `sdsrange(c->querybuf,pos,-1)`
abbrev pub trimmed : List ℕ → ℕ → List ℕ
trimmed buf at = sdsrange buf (pos at) (negsuc 0)

-- `addReplyError`, then `setProtocolError`
abbrev pub set_protocol_error : Failure → ℕ → Client → Client
set_protocol_error e at c = record c {
  close_after_reply = true;
  querybuf = trimmed c.querybuf at;
  replies = c.replies ++ e ∷ [];
}

unfoldable pub not_empty : List (List ℕ) → List (List ℕ)
not_empty [] = []
not_empty ([] ∷ l) = not_empty l
not_empty ((c ∷ s) ∷ l) = (c ∷ s) ∷ not_empty l

-- The length of the line that ends with the newline at `i`
abbrev pub query_length : List ℕ → ℕ → ℕ
query_length buf i = if ltb 0 i && (get_or buf (i - 1) 0 == 13) then i - 1 else i

abbrev pub inline_request : ℕ → Client → ℕ → Option (List (List ℕ)) → Client × Status
inline_request unixtime c querylen none = (set_protocol_error unbalanced_quotes 0 c, redis_err)
inline_request unixtime c querylen (some argv) = (
  record c {
    repl_ack_time = if querylen == 0 && c.slave then unixtime else c.repl_ack_time;
    querybuf = trimmed c.querybuf (querylen + 2);
    argv = not_empty argv;
  },
  redis_ok,
)

-- The part of `processInlineBuffer` below its `strchr`
abbrev pub inline_line : Ctype → ℕ → Client → Option ℕ → Client × Status
inline_line ctype unixtime c none = (
  if ltb redis_inline_max_size (length c.querybuf)
      then set_protocol_error too_big_inline 0 c
      else c,
  redis_err,
)
inline_line ctype unixtime c (some i) =
    let querylen = query_length c.querybuf i in
    inline_request unixtime c querylen (sdssplitargs ctype (take querylen c.querybuf))

abbrev pub process_inline_buffer : Ctype → ℕ → Client → Client × Status
process_inline_buffer ctype unixtime c = inline_line ctype unixtime c (strchr 10 c.querybuf)

-- What the reading of a bulk length comes to: `break`, `return`, or a length. The number is `pos`.
pub data Header : Type 0 where
  wait : Client → ℕ → Header
  stop : Client → Header
  got : Client → ℕ → ℕ → Header

abbrev pub bulk_len_of : Client → ℕ → ℕ → Option ℤ → Header
bulk_len_of c at i none = stop (set_protocol_error invalid_bulk at c)
bulk_len_of c at i (some (negsuc n)) = stop (set_protocol_error invalid_bulk at c)
bulk_len_of c at i (some (pos n)) =
    if ltb (512 * 1024 * 1024) n
    then stop (set_protocol_error invalid_bulk at c)
    else if leb redis_mbulk_big_arg n
    then got (record c { querybuf = trimmed c.querybuf (at + i + 2); bulklen = some n }) 0 n
    else got (record c { bulklen = some n }) (at + i + 2) n

-- The bytes `rest` from `pos` on, and the place of the newline in them
abbrev pub bulk_line : Client → ℕ → List ℕ → Option ℕ → Header
bulk_line c at rest none =
    if ltb redis_inline_max_size (length c.querybuf)
    then stop (set_protocol_error too_big_bulk_count 0 c)
    else wait c at
bulk_line c at rest (some i) =
    if ltb (length c.querybuf) (at + i + 2)
    then wait c at
    else if not (get_or rest 0 0 == 36)
    then stop (set_protocol_error (expected_dollar (get_or rest 0 0)) at c)
    else bulk_len_of c at i (string2ll (take (i - 1) (drop 1 rest)))

abbrev pub read_bulk_len : Client → ℕ → Header
read_bulk_len c at = bulk_line c at (drop at c.querybuf) (strchr 13 (drop at c.querybuf))

abbrev pub bulk_len : Client → ℕ → Option ℕ → Header
bulk_len c at none = read_bulk_len c at
bulk_len c at (some n) = got c at n

-- The argument of `len` bytes at `pos`, or `none` if it is not all there
unfoldable pub read_argument : Client → ℕ → ℕ → Option (Client × ℕ)
read_argument c at len =
    if ltb (length c.querybuf - at) (len + 2)
    then none
    else if at == 0 && leb redis_mbulk_big_arg len && (length c.querybuf == len + 2)
    then some
        (record c { argv = c.argv ++ take len c.querybuf ∷ []; querybuf = []; bulklen = none }, 0)
    else some (
      record c { argv = c.argv ++ take len (drop at c.querybuf) ∷ []; bulklen = none },
      at + len + 2,
    )

-- `if (pos) sdsrange(c->querybuf,pos,-1)`, and the result
abbrev pub finish : Client → ℕ → Client × Status
finish c at = (
  record c { querybuf = if at == 0 then c.querybuf else trimmed c.querybuf at },
  if c.multibulklen == 0 then redis_ok else redis_err,
)

-- `while(c->multibulklen)`
pub bulk_loop : ℕ → Client → ℕ → Client × Status
bulk_loop zero c at = finish c at
bulk_loop (suc n) c at = elim (bulk_len c at c.bulklen) [
  | wait c' at' ↦ finish c' at'
  | stop c' ↦ (c', redis_err)
  | got c' at' len ↦ elim (read_argument c' at' len) [
    | none ↦ finish c' at'
    | some r ↦ bulk_loop n (record (r.0) { multibulklen = n }) r.1
  ]
]

abbrev pub count_of : Client → ℕ → Option ℤ → Client × Status
count_of c i none = (set_protocol_error invalid_count 0 c, redis_err)
count_of c i (some (negsuc n)) = (record c { querybuf = trimmed c.querybuf (i + 2) }, redis_ok)
count_of c i (some (pos n)) =
    if ltb (1024 * 1024) n
    then (set_protocol_error invalid_count 0 c, redis_err)
    else if n == 0
    then (record c { querybuf = trimmed c.querybuf (i + 2) }, redis_ok)
    else bulk_loop n (record c { multibulklen = n }) (i + 2)

abbrev pub count_line : Client → Option ℕ → Option (Client × Status)
count_line c none = some (
  if ltb redis_inline_max_size (length c.querybuf) then set_protocol_error too_big_count 0 c else c,
  redis_err,
)
count_line c (some i) =
    if ltb (length c.querybuf) (i + 2)
    then some (c, redis_err)
    else if not (get_or c.querybuf 0 0 == 42)
    then none
    else some (count_of c i (string2ll (take (i - 1) (drop 1 c.querybuf))))

abbrev pub read_count : Client → Option (Client × Status)
read_count c = count_line c (strchr 13 c.querybuf)

-- `processMultibulkBuffer`
unfoldable pub process_multibulk_buffer : Client → Option (Client × Status)
process_multibulk_buffer c =
    if c.multibulklen == 0
    then if length c.argv == 0 then read_count c else none
    else some (bulk_loop c.multibulklen c 0)
