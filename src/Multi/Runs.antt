-- ===== src/Multi/Runs.antt =====
-- Runs of data/multi.c, and its theorems at concrete inputs.
use learnredis.Base.{
  ℕ, ◌≡◌, refl, true, false, ◌||◌, ◌&&◌, none, some, [], ◌∷◌, ◌++◌, arith, length, ◌==◌, ==_iff,
  if◌then◌else◌, KeyType, put,
}
use learnredis.Clients.{count}
use learnredis.Multi.{
  Command, Client, Server, add_reply, ran, execaborterr, nullmultibulk, mark_clients,
  multi_bulk_len, alter, emit, is_watching, watch_for_key, multi_command, touch_watched_key,
  exec_command, handle_monitor, unwatch_all_keys,
}
use learnredis.Multi.Watching.{watch_count, IsServer, watch_for_key-IsServer, watch_for_key-Watches}
use learnredis.Multi.Unwatching.{Unwatched, unwatch_all_keys-Unwatched}
use learnredis.Multi.Touching.{mark, touch_watched_key-mark}
use learnredis.Multi.Executing.{
  IsIdle, IsCall, trace, alter-IsServer, emit-IsServer, exec_command_aborts, exec_command_runs,
}
use learnredis.Multi.Optimistic.{multi, here, next, exec_command-touched}

instance number_key : KeyType ℕ
number_key = record {
  same = λ a b. a == b;
  same_refl = λ a. (==_iff a a).1 refl;
  same-eq = λ a b. (==_iff a b).0;
}

abbrev get_value : Command
get_value = record { number = 1; readonly = true }

abbrev set_value : Command
set_value = record { number = 2; readonly = false }

abbrev new_client : Client ℕ
new_client = record {
  multi = false;
  dirty_cas = false;
  dirty_exec = false;
  commands = [];
  watched_keys = [];
  db = 0;
  cmd = get_value;
  argv = [];
}

abbrev at_start : Server ℕ
at_start = record {
  clients = 1 ∷ 2 ∷ [];
  client = λ c. new_client;
  watched_keys = λ db. [];
  dict = λ db key. key == 7;
  dirty = 0;
  monitors = [];
  loading = false;
  log = [];
}

at_start-IsServer : IsServer at_start
unfolding count watch_count
at_start-IsServer = record {
  agree = λ db key c. refl;
  once = λ db key c. omega arith;
  live = λ db key l h. let no : none ≡ some l = h in cc;
}

-- Client 1 watches the key 7.
abbrev watching : Server ℕ
watching = watch_for_key 1 7 at_start

watching-IsServer : IsServer watching
watching-IsServer = watch_for_key-IsServer 1 7 at_start at_start-IsServer

watching_seven : is_watching 0 7 (watching.client 1).watched_keys ≡ true
unfolding watch_for_key is_watching number_key
watching_seven = refl

abbrev touched : Server ℕ
touched = touch_watched_key 0 7 watching

-- A transaction with a read and two writes.
abbrev fill_queue : Client ℕ → Client ℕ
fill_queue cl = record cl {
  multi = true;
  commands =
      record { cmd = get_value; argv = 7 ∷ [] }
      ∷ record { cmd = set_value; argv = 8 ∷ [] }
      ∷ record { cmd = set_value; argv = 9 ∷ [] }
      ∷ [];
}

abbrev queued : Server ℕ
queued = alter 1 fill_queue watching

queued-IsServer : IsServer queued
queued-IsServer = alter-IsServer 1 fill_queue watching refl watching-IsServer

abbrev spoil_queue : Client ℕ → Client ℕ
spoil_queue cl = record cl { multi = true; dirty_exec = true }

abbrev spoiled : Server ℕ
spoiled = alter 1 spoil_queue watching

spoiled-IsServer : IsServer spoiled
spoiled-IsServer = alter-IsServer 1 spoil_queue watching refl watching-IsServer

abbrev run_call : ℕ → Server ℕ → Server ℕ
run_call c s = emit (ran c (record { cmd = (s.client c).cmd; argv = (s.client c).argv })) s

run_call-IsCall : IsCall run_call 1 (queued.client 1).commands
run_call-IsCall = record {
  keeps_queue = λ s loaded. refl;
  keeps_order = λ s loaded v. emit-IsServer _ s v;
  logs = λ s loaded. refl;
}

queued_clean : ((queued.client 1).dirty_cas || (queued.client 1).dirty_exec) ≡ false
unfolding watch_for_key is_watching number_key
queued_clean = refl

spoiled_flags : ((spoiled.client 1).dirty_cas || (spoiled.client 1).dirty_exec) ≡ true
unfolding watch_for_key is_watching number_key
spoiled_flags = refl

watch_for_key-Watches_example :
    IsServer (watch_for_key 2 7 watching)
    × ((db q d : ℕ)
        → watch_count db q ((watch_for_key 2 7 watching).client d).watched_keys ≡ (
            if d == 2 && ((watching.client 2).db == db && q == 7)
            then 1
            else watch_count db q (watching.client d).watched_keys))
unfolding number_key
watch_for_key-Watches_example = watch_for_key-Watches 2 7 watching watching-IsServer

unwatch_all_keys-Unwatched_example :
    (s' : Server ℕ) × (unwatch_all_keys 1 watching ≡ some s') × Unwatched 1 [] watching s'
unwatch_all_keys-Unwatched_example = unwatch_all_keys-Unwatched 1 watching watching-IsServer

touch_watched_key-mark_example :
    touched ≡ mark (λ d. is_watching 0 7 (watching.client d).watched_keys) watching
touch_watched_key-mark_example = touch_watched_key-mark 0 7 watching watching-IsServer

exec_command_aborts_example :
    (t : Server ℕ) × (exec_command run_call 1 spoiled ≡ some (handle_monitor 1 t))
    × IsIdle (t.client 1)
    × IsServer t
    × (t.log
        ≡ spoiled.log
          ++ add_reply 1 (if (spoiled.client 1).dirty_exec then execaborterr else nullmultibulk)
            ∷ [])
exec_command_aborts_example =
    exec_command_aborts run_call 1 spoiled spoiled-IsServer refl spoiled_flags

exec_command_runs_example :
    (t : Server ℕ) × (exec_command run_call 1 queued ≡ some (handle_monitor 1 t))
    × IsIdle (t.client 1)
    × IsServer t
    × (t.log
        ≡ queued.log
          ++ add_reply 1 (multi_bulk_len (length (queued.client 1).commands))
            ∷ trace 1 false (queued.client 1).commands)
exec_command_runs_example =
    exec_command_runs run_call 1 queued run_call-IsCall queued-IsServer refl queued_clean

abbrev back_in_multi : Server ℕ
back_in_multi = multi_command 1 touched

back_in_multi_on : (back_in_multi.client 1).multi ≡ true
unfolding multi_command mark_clients put touch_watched_key watch_for_key is_watching number_key
back_in_multi_on = refl

exec_command-touched_example :
    (t : Server ℕ) × (exec_command run_call 1 back_in_multi ≡ some (handle_monitor 1 t))
    × IsIdle (t.client 1)
    × IsServer t
    × (t.log
        ≡ back_in_multi.log
          ++ add_reply 1
              (if (back_in_multi.client 1).dirty_exec then execaborterr else nullmultibulk)
            ∷ [])
exec_command-touched_example =
    exec_command-touched run_call 1 0 7 watching back_in_multi watching-IsServer watching_seven
      (next here (multi 1 touched)) back_in_multi_on
