-- ===== src/Slowlog/Bounds.antt =====
-- wrapper/slowlog.c: the length of the log, its order and its numbers.
use learnredis.Base.{
  Bool, ◌&&◌, ◌-◌, ◌==◌, none, some, true, get_elem?, ℕ, zero, suc, ◌+◌, ◌≤◌, ◌≡◌, refl, sym, ap,
  ◌∙◌, inl, inr, false, List, [], ◌∷◌, arith, length, take, ltb, if◌then◌else◌, Bool-cases,
}
use learnredis.Base.Int.{ℤ, pos, negsuc}
use mathlib.Core.Option
use learnredis.Slowlog.{
  more_arguments, trim_string, Header, Object, SlowlogEntry, Slowlog, add_entry, delete_last,
  trim_loop, reaches, push_beyond, slowlog_push_entry_if_needed, slowlog_reset,
}

length-delete_last :
    (e : SlowlogEntry) (l : List SlowlogEntry) → length (delete_last (e ∷ l)) ≡ length l
unfolding delete_last
length-delete_last e [] = refl
length-delete_last e (f ∷ l) = ap suc (length-delete_last f l)

take-delete_last :
    (m : ℕ) (e : SlowlogEntry) (l : List SlowlogEntry)
    → m ≤ length l
    → take m (delete_last (e ∷ l)) ≡ take m (e ∷ l)
unfolding delete_last
take-delete_last zero e l h = refl
take-delete_last (suc m) e [] h = absurd (omega arith)
take-delete_last (suc m) e (f ∷ l) h = ap (λ t. e ∷ t) (take-delete_last m f l (omega arith))

take_all : {A : Type 0} (m : ℕ) (l : List A) → length l ≤ m → take m l ≡ l
take_all zero [] h = refl
take_all zero (x ∷ l) h = absurd (omega arith)
take_all (suc m) [] h = refl
take_all (suc m) (x ∷ l) h = ap (λ t. x ∷ t) (take_all m l (omega arith))

not_below : (m : ℕ) → ltb m 0 ≡ false
not_below m = ground arith

trim_loop-take : (n m : ℕ) (l : List SlowlogEntry) → length l ≤ n → trim_loop n m l ≡ take m l
unfolding trim_loop
trim_loop-take zero m [] h = sym (take_all m [] (omega arith))
trim_loop-take zero m (e ∷ l) h = absurd (omega arith)
trim_loop-take (suc n) m [] h = rw (not_below m) (sym (take_all m [] (omega arith)))
trim_loop-take (suc n) m (e ∷ l) h = elim (Bool-cases (ltb m (length (e ∷ l)))) [
  | inl long ↦ rw long (
      trim_loop-take n m (delete_last (e ∷ l)) (omega (arith, length-delete_last e l))
      ∙ take-delete_last m e l (ground (arith, long)))
  | inr short ↦ rw short (sym (take_all m (e ∷ l) (ground (arith, short))))
]

-- The entries are numbered without gaps, the newest one just below `n`.
abbrev pub IsNumbered : ℕ → List SlowlogEntry → Type 0
IsNumbered n [] = Unit
IsNumbered n (e ∷ l) = (n ≡ e.id + 1) × IsNumbered e.id l

take-IsNumbered : (n m : ℕ) (l : List SlowlogEntry) → IsNumbered n l → IsNumbered n (take m l)
take-IsNumbered n zero l h = tt
take-IsNumbered n (suc m) [] h = tt
take-IsNumbered n (suc m) (e ∷ l) h = (h.0, take-IsNumbered e.id m l h.1)

-- The entry of a command: what it holds, argument by argument
pub record IsEntry (header : Header) (now : ℕ) (argv : List Object) (duration : ℤ) (id : ℕ)
    (e : SlowlogEntry) : Type 0 where
  same_id : e.id ≡ id
  same_duration : e.duration ≡ duration
  same_time : e.time ≡ now
  arguments :
      (j : ℕ)
      → get_elem? e.argv j ≡ (
          if ltb j header.slowlog_entry_max_argc && ltb j (length argv)
          then (if ltb header.slowlog_entry_max_argc (length argv)
                && j + 1 == header.slowlog_entry_max_argc
              then some (more_arguments header (length argv - header.slowlog_entry_max_argc + 1))
              else Option.map (trim_string header) (get_elem? argv j))
          else none)

-- The log after a command, which is `fast` if its duration is below the limit
unfoldable pub IsPushed : Bool → Header → ℕ → List Object → ℤ → Slowlog → Slowlog → Type 0
IsPushed true header now argv duration s s' =
    (s'.slowlog ≡ take s.slowlog_max_len s.slowlog) × (s'.slowlog_entry_id ≡ s.slowlog_entry_id)
IsPushed false header now argv duration s s' =
    (e : SlowlogEntry) × IsEntry header now argv duration s.slowlog_entry_id e
    × (s'.slowlog ≡ take s.slowlog_max_len (e ∷ s.slowlog))
    × (s'.slowlog_entry_id ≡ s.slowlog_entry_id + 1)

push_beyond-IsNumbered :
    (header : Header) (now : ℕ) (argv : List Object) (duration slower_than : ℤ) (s : Slowlog)
    → IsNumbered s.slowlog_entry_id s.slowlog
    → IsNumbered
        (push_beyond header now argv duration slower_than s).slowlog_entry_id
        (push_beyond header now argv duration slower_than s).slowlog
unfolding push_beyond
push_beyond-IsNumbered header now argv duration (negsuc n) s h = h
push_beyond-IsNumbered header now argv duration (pos limit) s h =
    elim (Bool-cases (reaches duration limit)) [
      | inl e ↦
          let t = add_entry header now argv duration s in
          rw e (
            rw (trim_loop-take (length t.slowlog) s.slowlog_max_len t.slowlog (omega arith))
              (take-IsNumbered t.slowlog_entry_id s.slowlog_max_len t.slowlog (refl, h)))
      | inr e ↦ rw e (
          rw (trim_loop-take (length s.slowlog) s.slowlog_max_len s.slowlog (omega arith))
            (take-IsNumbered s.slowlog_entry_id s.slowlog_max_len s.slowlog h))
    ]

-- `slowlogPushEntryIfNeeded` keeps the numbering of the log: the ids go down by one from entry to
-- entry, and the newest is one below the next id.
pub slowlog_push_entry_if_needed-IsNumbered :
    (header : Header) (now : ℕ) (argv : List Object) (duration : ℤ) (s : Slowlog)
    → IsNumbered s.slowlog_entry_id s.slowlog
    → IsNumbered
        (slowlog_push_entry_if_needed header now argv duration s).slowlog_entry_id
        (slowlog_push_entry_if_needed header now argv duration s).slowlog
unfolding slowlog_push_entry_if_needed
slowlog_push_entry_if_needed-IsNumbered header now argv duration s h =
    push_beyond-IsNumbered header now argv duration s.slowlog_log_slower_than s h

-- SLOWLOG RESET deletes every entry, one at a time.
reset_lem : (s : Slowlog) → (slowlog_reset s).slowlog ≡ []
unfolding slowlog_reset
reset_lem s = trim_loop-take (length s.slowlog) 0 s.slowlog (omega arith)
