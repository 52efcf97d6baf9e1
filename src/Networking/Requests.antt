-- ===== src/Networking/Requests.antt =====
-- processMultibulkBuffer of net/networking.c on a whole request.
use learnredis.Base.{
  ℕ, suc, ◌+◌, ◌-◌, ◌*◌, ◌^◌, ◌≤◌, ◌<◌, ◌≡◌, refl, ap, ◌∙◌, true, false, none, some, List, [], ◌∷◌,
  ◌++◌, arith, length, get_or, take, drop, ltb, ◌==◌, All,
}
use learnredis.Base.Int.{pos}
use learnredis.Util.Number.{string2ll, digits10}
use learnredis.Networking.{
  Client, redis_ok, strchr, count_of, read_count, count_line, bulk_loop, process_multibulk_buffer,
}
use learnredis.Networking.Bulks.{
  number_line, line_of, bulks, after_line, strchr-number_line, length-number_line,
  string2ll-number_line, bulk_loop-bulks,
}

-- A request of the protocol with the bytes `s` behind it: the number of the arguments and a bulk
-- for each
abbrev pub request : List (List ℕ) → List ℕ → List ℕ
request args s = number_line 42 (length args) (bulks args s)

-- A client that waits for a request
pub record IsIdle (c : Client) : Type 0 where
  pub none_left : c.multibulklen ≡ 0
  pub unknown : c.bulklen ≡ none
  pub no_args : c.argv ≡ []

starts : (c : Client) → IsIdle c → process_multibulk_buffer c ≡ read_count c
unfolding process_multibulk_buffer
starts c idle =
    let left : (c.multibulklen == 0) ≡ true = ground (arith, idle.none_left) in
    let args : (length c.argv == 0) ≡ true = rw (ap length idle.no_args) refl in
    rw (left, args) refl

-- When no request is under way and the buffer, of fewer than 2^31 bytes, starts with the
-- protocol's text of a request of 1 to 1024*1024 arguments, of any bytes and of 512 MB each at
-- most, `processMultibulkBuffer` fails no assertion, returns REDIS_OK with just these arguments,
-- and leaves in the buffer what comes behind the request.
pub process_multibulk_buffer-request :
    (c : Client) (args : List (List ℕ)) (s : List ℕ)
    → IsIdle c
    → length c.querybuf < 2 ^ 31
    → c.querybuf ≡ request args s
    → 0 < length args
    → length args ≤ 1024 * 1024
    → All (λ a. length a ≤ 512 * 1024 * 1024) args
    → process_multibulk_buffer c ≡ some (record c { querybuf = s; argv = args }, redis_ok)
process_multibulk_buffer-request c args s idle fits e some_args few short =
    let n = length args in
    let i = suc (digits10 n) in
    let newline : strchr 13 c.querybuf ≡ some i =
      ap (strchr 13) e ∙ strchr-number_line 42 n (bulks args s) refl refl in
    let whole : ltb (length c.querybuf) (i + 2) ≡ false =
      ground (arith, ap length e, length-number_line 42 n (bulks args s)) in
    let star : (get_or c.querybuf 0 0 == 42) ≡ true = rw e refl in
    let index : i - 1 ≡ digits10 n = omega arith in
    let number : string2ll (take (i - 1) (drop 1 c.querybuf)) ≡ some (pos n) =
      rw (e, index) (string2ll-number_line n (13 ∷ 10 ∷ bulks args s) (omega (arith, few))) in
    let small : ltb (1024 * 1024) n ≡ false = ground (arith, few) in
    let positive : (n == 0) ≡ false = ground (arith, some_args) in
    let c1 : Client = record c { multibulklen = n } in
    let after = after_line c1 0 [] 42 n (bulks args s) (e, refl) in
    let loop =
      bulk_loop-bulks args c1 (i + 2) ([] ++ line_of 42 n) s (after.0, after.1 ∙ omega arith)
        idle.unknown refl short in
    let counted : count_of c i (some (pos n)) ≡ bulk_loop n c1 (i + 2) =
      rw (small, positive) refl in
    let line : count_line c (some i) ≡ some (count_of c i (some (pos n))) =
      rw (whole, star, number) refl in
    starts c idle
    ∙ (ap (count_line c) newline
        ∙ line
        ∙ ap some (counted ∙ loop ∙ (rw (idle.no_args, idle.none_left, idle.unknown) refl)))
