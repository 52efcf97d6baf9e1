-- ===== src/Slowlog/Runs.antt =====
-- Runs of wrapper/slowlog.c, and its theorems at concrete inputs.
use learnredis.Base.{◌+◌, List, [], ◌∷◌}
use learnredis.Base.Int.{pos}
use learnredis.Slowlog.{Header, Object, raw, other, Slowlog}

abbrev small : Header
small = record {
  slowlog_entry_max_argc = 2;
  slowlog_entry_max_string = 3;
  print_number = λ n. (48 + n) ∷ [];
}

abbrev arguments : List Object
arguments = raw (1 ∷ 2 ∷ 3 ∷ 4 ∷ []) ∷ other 5 ∷ raw [] ∷ []

abbrev log : Slowlog
log = record {
  slowlog =
      record { argv = []; id = 4; duration = pos 9; time = 1 }
      ∷ record { argv = []; id = 3; duration = pos 8; time = 0 }
      ∷ [];
  slowlog_entry_id = 5;
  slowlog_log_slower_than = pos 7;
  slowlog_max_len = 2;
}
