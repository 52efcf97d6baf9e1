-- ===== src/Slowlog.antt =====
-- wrapper/slowlog.c: the log of slow commands, the newest entry first, and the command SLOWLOG.
-- The clock, slowlog.h, the printing of numbers by `sdscatprintf`, the comparison of the sub-command's name and
-- `getLongFromObjectOrReply` are parameters. Reference counts are left out.
pub mod Entries
pub mod Bounds
mod Runs
use learnredis.Base.{
  ℕ, zero, suc, ◌+◌, ◌-◌, Bool, true, false, not, ◌&&◌, Option, none, some, List, [], ◌∷◌, ◌++◌,
  length, get_elem?, take, ltb, leb, ◌==◌, if◌then◌else◌,
}
use learnredis.Base.Int.{ℤ, pos, negsuc}

-- The two constants of slowlog.h, which is not in the repository, and the printing of a number.
pub record Header : Type 0 where
  pub slowlog_entry_max_argc : ℕ
  pub slowlog_entry_max_string : ℕ
  pub print_number : ℕ → List ℕ

-- `robj`: a string in the encoding RAW, or anything else.
pub data Object : Type 0 where
  raw : List ℕ → Object
  other : ℕ → Object

-- `slowlogEntry`; `argc` is the length of `argv`.
pub record SlowlogEntry : Type 0 where
  pub argv : List Object
  pub id : ℕ
  pub duration : ℤ
  pub time : ℕ

-- The fields of `redisServer` that start with `slowlog`
pub record Slowlog : Type 0 where
  pub slowlog : List SlowlogEntry
  pub slowlog_entry_id : ℕ
  pub slowlog_log_slower_than : ℤ
  pub slowlog_max_len : ℕ

module _ (header : Header) where
  -- `... (%d more arguments)`
  unfoldable pub more_arguments : ℕ → Object
  more_arguments n = raw (
      (b'.' ∷ b'.' ∷ b'.' ∷ b' ' ∷ b'(' ∷ [])
      ++ header.print_number n
      ++ (b' ' ∷ b'm' ∷ b'o' ∷ b'r' ∷ b'e' ∷ b' ' ∷ b'a' ∷ b'r' ∷ b'g' ∷ b'u' ∷ b'm' ∷ b'e' ∷ b'n'
          ∷ b't' ∷ b's' ∷ b')' ∷ []))

  -- `... (%lu more bytes)`
  unfoldable pub more_bytes : ℕ → List ℕ
  more_bytes n =
      (b'.' ∷ b'.' ∷ b'.' ∷ b' ' ∷ b'(' ∷ [])
      ++ header.print_number n
      ++ (b' ' ∷ b'm' ∷ b'o' ∷ b'r' ∷ b'e' ∷ b' ' ∷ b'b' ∷ b'y' ∷ b't' ∷ b'e' ∷ b's' ∷ b')' ∷ [])

  unfoldable pub trim_string : Object → Object
  trim_string (raw s) =
      if ltb header.slowlog_entry_max_string (length s)
      then raw (
          take header.slowlog_entry_max_string s
          ++ more_bytes (length s - header.slowlog_entry_max_string))
      else raw s
  trim_string (other n) = other n

  -- The loop from `j` on, with `argv` from there; `n` is `slargc - j`.
  pub entry_loop : ℕ → ℕ → ℕ → List Object → List Object
  entry_loop argc slargc zero argv = []
  entry_loop argc slargc (suc n) [] = []
  entry_loop argc slargc (suc n) (o ∷ argv) =
      (if not (slargc == argc) && n == 0 then more_arguments (argc - slargc + 1) else trim_string o)
      ∷ entry_loop argc slargc n argv

  abbrev pub entry_argc : ℕ → ℕ
  entry_argc argc =
      if ltb header.slowlog_entry_max_argc argc then header.slowlog_entry_max_argc else argc

  unfoldable pub entry_argv : List Object → List Object
  entry_argv argv =
      let slargc = entry_argc (length argv) in entry_loop (length argv) slargc slargc argv

  abbrev pub add_entry : ℕ → List Object → ℤ → Slowlog → Slowlog
  add_entry now argv duration s = record s {
    slowlog =
        record { argv = entry_argv argv; id = s.slowlog_entry_id; duration = duration; time = now }
        ∷ s.slowlog;
    slowlog_entry_id = s.slowlog_entry_id + 1;
  }

-- At the start of the server, with the limits of its configuration
unfoldable pub slowlog_init : ℤ → ℕ → Slowlog
slowlog_init slower_than max_len = record {
  slowlog = [];
  slowlog_entry_id = 0;
  slowlog_log_slower_than = slower_than;
  slowlog_max_len = max_len;
}

-- `listDelNode(server.slowlog, listLast(server.slowlog))`
pub delete_last : List SlowlogEntry → List SlowlogEntry
delete_last [] = []
delete_last (e ∷ []) = []
delete_last (e ∷ f ∷ l) = e ∷ delete_last (f ∷ l)

-- Each round deletes one entry, so that as many rounds as there are entries are enough.
pub trim_loop : ℕ → ℕ → List SlowlogEntry → List SlowlogEntry
trim_loop zero max_len l = l
trim_loop (suc n) max_len l =
    let rest = trim_loop n max_len (delete_last l) in if ltb max_len (length l) then rest else l

abbrev pub trim_log : ℕ → Slowlog → Slowlog
trim_log max_len s = record s { slowlog = trim_loop (length s.slowlog) max_len s.slowlog }

-- `duration >= slower_than` for a limit that is not negative
abbrev pub reaches : ℤ → ℕ → Bool
reaches (pos d) limit = leb limit d
reaches (negsuc d) limit = false

unfoldable pub push_beyond : Header → ℕ → List Object → ℤ → ℤ → Slowlog → Slowlog
push_beyond header now argv duration (negsuc n) s = s
push_beyond header now argv duration (pos limit) s =
    trim_log s.slowlog_max_len
      (if reaches duration limit then add_entry header now argv duration s else s)

unfoldable pub slowlog_push_entry_if_needed : Header → ℕ → List Object → ℤ → Slowlog → Slowlog
slowlog_push_entry_if_needed header now argv duration s =
    push_beyond header now argv duration s.slowlog_log_slower_than s

unfoldable pub slowlog_reset : Slowlog → Slowlog
slowlog_reset s = trim_log 0 s

pub data Reply : Type 0 where
  reply_ok unknown_subcommand not_a_number : Reply
  long_long : ℕ → Reply
  entries : List SlowlogEntry → Reply

-- The sub-command, as `strcasecmp` recognises its name
pub data Subcommand : Type 0 where
  reset len get other_name : Subcommand

-- `while(count-- && (ln = listNext(&li)))`: a negative count does not get to 0.
unfoldable pub sent_entries : ℤ → List SlowlogEntry → List SlowlogEntry
sent_entries (pos n) l = take n l
sent_entries (negsuc n) l = l

-- `args` is what follows the name; `count` is what `getLongFromObjectOrReply` makes of an object.
pub slowlog_command : (Object → Option ℤ) → Subcommand → List Object → Slowlog → Slowlog × Reply
slowlog_command count reset [] s = (slowlog_reset s, reply_ok)
slowlog_command count len [] s = (s, long_long (length s.slowlog))
slowlog_command count get [] s = (s, entries (sent_entries (pos 10) s.slowlog))
slowlog_command count get (o ∷ []) s = elim (count o) [
  | none ↦ (s, not_a_number)
  | some n ↦ (s, entries (sent_entries n s.slowlog))
]
slowlog_command count sub args s = (s, unknown_subcommand)
