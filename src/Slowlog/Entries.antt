-- ===== src/Slowlog/Entries.antt =====
-- `slowlogCreateEntry` of wrapper/slowlog.c: which arguments an entry keeps.
use mathlib.Core.Option
use learnredis.Base.{
  ℕ, zero, suc, ◌+◌, ◌-◌, ◌≤◌, ◌≡◌, inl, inr, not, ◌&&◌, none, some, List, [], ◌∷◌, arith, length,
  get_elem?, ltb, ◌==◌, if◌then◌else◌, Bool-cases,
}
use learnredis.Slowlog.{
  Header, Object, more_arguments, trim_string, entry_loop, entry_argc, entry_argv,
}

entry_loop_lem :
    (header : Header) (argc slargc n j : ℕ) (argv : List Object)
    → n ≤ length argv
    → get_elem? (entry_loop header argc slargc n argv) j ≡ (
        if ltb j n
        then (if not (slargc == argc) && j + 1 == n
            then some (more_arguments header (argc - slargc + 1))
            else Option.map (trim_string header) (get_elem? argv j))
        else none)
unfolding entry_loop
entry_loop_lem header argc slargc zero j argv h = ground arith
entry_loop_lem header argc slargc (suc n) j [] h = absurd (omega arith)
entry_loop_lem header argc slargc (suc n) zero (o ∷ argv) h = ground arith
entry_loop_lem header argc slargc (suc n) (suc j) (o ∷ argv) h =
    rw (entry_loop_lem header argc slargc n j argv (omega arith)) (ground arith)

-- Position `j` of an entry's arguments holds the command's argument `j` with a long string cut
-- off, up to the maximal number of arguments; only if the command has more of them, the last
-- position tells how many are missing.
pub entry_argv_lem :
    (header : Header) (j : ℕ) (argv : List Object)
    → get_elem? (entry_argv header argv) j ≡ (
        if ltb j (entry_argc header (length argv))
        then (if ltb header.slowlog_entry_max_argc (length argv)
              && j + 1 == header.slowlog_entry_max_argc
            then some (more_arguments header (length argv - header.slowlog_entry_max_argc + 1))
            else Option.map (trim_string header) (get_elem? argv j))
        else none)
unfolding entry_argv
entry_argv_lem header j argv =
    let long = ltb header.slowlog_entry_max_argc (length argv) in
    elim (Bool-cases long) [
      | inl e ↦
          rw
            (
              e,
              entry_loop_lem header (length argv) header.slowlog_entry_max_argc
                  header.slowlog_entry_max_argc j argv (ground (arith, e)),
            )
            (ground (arith, e))
      | inr e ↦
          rw
            (
              e,
              entry_loop_lem header (length argv) (length argv) (length argv) j argv (omega arith),
            )
            (ground arith)
    ]
