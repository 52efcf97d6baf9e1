-- ===== src/Multi.antt =====
-- data/multi.c: MULTI, EXEC, DISCARD, WATCH and UNWATCH.
-- Clients are known by a number, which stands for their pointer, and `client` is the heap that the
-- pointers lead into. The log lists what the handlers send out, the newest entry last. `none` is a
-- failed assert or a null pointer. Reference counts are left out.
pub mod Watching
pub mod Unwatching
pub mod Touching
pub mod Executing
pub mod Optimistic
mod Runs
use learnredis.Base.{
  ℕ, zero, suc, ◌+◌, ◌-◌, ◌≡◌, Bool, true, false, not, ◌&&◌, ◌||◌, Option, none, some, List, [],
  ◌∷◌, ◌++◌, length, get_elem?, set, ◌==◌, if◌then◌else◌, ◌>>=◌, KeyType, Map, fetch, put, remove,
  update,
}
use learnredis.Clients.{clients_of, delete_client, store_clients, count}

-- The `struct redisCommand` that `cmd` points to: its number in the table, and REDIS_CMD_READONLY.
pub record Command : Type 0 where
  pub number : ℕ
  pub readonly : Bool

-- `multiCmd`; `argc` is the length of `argv`.
pub record MultiCmd {ℓ} (K : Type ℓ) : Type ℓ where
  pub cmd : Command
  pub argv : List K

-- `watchedKey`, with the number of the database
pub record WatchedKey {ℓ} (K : Type ℓ) : Type ℓ where
  pub key : K
  pub db : ℕ

-- `redisClient`: `flags` is the three bits of it that data/multi.c uses.
pub record Client {ℓ} (K : Type ℓ) : Type ℓ where
  pub multi : Bool
  pub dirty_cas : Bool
  pub dirty_exec : Bool
  pub commands : List (MultiCmd K)
  pub watched_keys : List (WatchedKey K)
  pub db : ℕ
  pub cmd : Command
  pub argv : List K

pub data Reply : Type 0 where
  reply_ok nested_multi discard_without_multi exec_without_multi watch_inside_multi : Reply
  execaborterr nullmultibulk : Reply
  multi_bulk_len : ℕ → Reply

pub data Event {ℓ} (K : Type ℓ) : Type ℓ where
  add_reply : ℕ → Reply → Event K
  propagate_multi : ℕ → Event K
  ran : ℕ → MultiCmd K → Event K
  feed_monitors : ℕ → List K → Event K

-- `redisServer`: the databases are known by their numbers; `dict` says which keys they hold.
pub record Server {ℓ} (K : Type ℓ) : Type ℓ where
  pub clients : List ℕ
  pub client : ℕ → Client K
  pub watched_keys : ℕ → Map K (List ℕ)
  pub dict : ℕ → K → Bool
  pub dirty : ℕ
  pub monitors : List ℕ
  pub loading : Bool
  pub log : List (Event K)

-- `dbid` -1, which is FLUSHALL, is `none`.
abbrev pub flushes : Option ℕ → ℕ → Bool
flushes none db = true
flushes (some dbid) db = db == dbid

module _ {ℓ} {K : Type ℓ} where
  abbrev pub alter : ℕ → (Client K → Client K) → Server K → Server K
  alter c f s = record s { client = update s.client c (f (s.client c)) }

  abbrev pub emit : Event K → Server K → Server K
  emit e s = record s { log = s.log ++ e ∷ [] }

  -- `initClientMultiState`, after `freeClientMultiState` has freed the queue
  abbrev pub init_client_multi_state : Client K → Client K
  init_client_multi_state cl = record cl { commands = [] }

  unfoldable pub queue_multi_command : ℕ → Server K → Server K
  queue_multi_command c =
      alter c
        (λ cl. record cl { commands = cl.commands ++ record { cmd = cl.cmd; argv = cl.argv } ∷ [] })

  unfoldable pub flag_transaction : ℕ → Server K → Server K
  flag_transaction c = alter c (λ cl. if cl.multi then record cl { dirty_exec = true } else cl)

  unfoldable pub multi_command : ℕ → Server K → Server K
  multi_command c s =
      if (s.client c).multi
      then emit (add_reply c nested_multi) s
      else emit (add_reply c reply_ok) (alter c (λ cl. record cl { multi = true }) s)

  abbrev pub mark_dirty : Client K → Client K
  mark_dirty cl = record cl { dirty_cas = true }

  pub mark_clients : List ℕ → Server K → Server K
  mark_clients [] s = s
  mark_clients (c ∷ l) s = mark_clients l (alter c mark_dirty s)

  abbrev pub clear_flags : Client K → Client K
  clear_flags cl = record cl { multi = false; dirty_cas = false; dirty_exec = false }

  abbrev pub load : ℕ → MultiCmd K → Server K → Server K
  load c mc = alter c (λ cl. record cl { cmd = mc.cmd; argv = mc.argv })

  abbrev pub exec_command_propagate_multi : ℕ → Server K → Server K
  exec_command_propagate_multi c s = emit (propagate_multi c) s

  abbrev pub announce : ℕ → Bool → MultiCmd K → Server K → Server K
  announce c must mc s =
      if not must && not mc.cmd.readonly then exec_command_propagate_multi c s else s

  abbrev pub store_back : ℕ → ℕ → Server K → Server K
  store_back c j =
      alter c
        (λ cl. record cl { commands = set cl.commands j (record { cmd = cl.cmd; argv = cl.argv }) })

  unfoldable pub handle_monitor : ℕ → Server K → Server K
  handle_monitor c s =
      if not (length s.monitors == 0) && not s.loading
      then emit (feed_monitors c (s.client c).argv) s
      else s

module _ {ℓ} {K : Type ℓ} ⦃kt : KeyType K⦄ where
  -- The loop of `watchForKey` over the keys the client already watches.
  unfoldable pub is_watching : ℕ → K → List (WatchedKey K) → Bool
  is_watching db key [] = false
  is_watching db key (wk ∷ wks) =
      if wk.db == db && kt.same key wk.key then true else is_watching db key wks

  unfoldable pub watch_for_key : ℕ → K → Server K → Server K
  watch_for_key c key s =
      let cl = s.client c in
      let m = s.watched_keys cl.db in
      if is_watching cl.db key cl.watched_keys then s else record s {
        client =
            update s.client c (record cl {
              watched_keys = cl.watched_keys ++ record { key = key; db = cl.db } ∷ [];
            });
        watched_keys = update s.watched_keys cl.db (put key (clients_of (fetch key m) ++ c ∷ []) m);
      }

  -- The body of the loop of `unwatchAllKeys`, with `rest` left on the client's list.
  unfoldable pub unwatch_key : ℕ → WatchedKey K → List (WatchedKey K) → Server K → Option (Server K)
  unwatch_key c wk rest s = do
    clients ← fetch wk.key (s.watched_keys wk.db)
    left ← delete_client c clients
    some (record s {
      client = update s.client c (record (s.client c) { watched_keys = rest });
      watched_keys = update s.watched_keys wk.db (store_clients wk.key left (s.watched_keys wk.db));
    })

  pub unwatch_loop : ℕ → List (WatchedKey K) → Server K → Option (Server K)
  unwatch_loop c [] s = some s
  unwatch_loop c (wk ∷ wks) s = do s' ← unwatch_key c wk wks s; unwatch_loop c wks s'

  unfoldable pub unwatch_all_keys : ℕ → Server K → Option (Server K)
  unwatch_all_keys c s = unwatch_loop c (s.client c).watched_keys s

  unfoldable pub discard_transaction : ℕ → Server K → Option (Server K)
  discard_transaction c s =
      unwatch_all_keys c (alter c (λ cl. clear_flags (init_client_multi_state cl)) s)

  unfoldable pub discard_command : ℕ → Server K → Option (Server K)
  discard_command c s =
      if (s.client c).multi
      then (do s' ← discard_transaction c s; some (emit (add_reply c reply_ok) s'))
      else some (emit (add_reply c discard_without_multi) s)

  pub watch_loop : ℕ → List K → Server K → Server K
  watch_loop c [] s = s
  watch_loop c (key ∷ keys) s = watch_loop c keys (watch_for_key c key s)

  abbrev pub arguments : List K → List K
  arguments [] = []
  arguments (name ∷ args) = args

  unfoldable pub watch_command : ℕ → Server K → Server K
  watch_command c s =
      if (s.client c).multi
      then emit (add_reply c watch_inside_multi) s
      else emit (add_reply c reply_ok) (watch_loop c (arguments (s.client c).argv) s)

  unfoldable pub unwatch_command : ℕ → Server K → Option (Server K)
  unwatch_command c s = do
    s' ← unwatch_all_keys c s
    some (emit (add_reply c reply_ok) (alter c (λ cl. record cl { dirty_cas = false }) s'))

  unfoldable pub touch_watched_key : ℕ → K → Server K → Server K
  touch_watched_key db key s =
      let m = s.watched_keys db in
      if length m == 0 then s else mark_clients (clients_of (fetch key m)) s

  pub flush_keys : Option ℕ → ℕ → List (WatchedKey K) → Server K → Server K
  flush_keys dbid c [] s = s
  flush_keys dbid c (wk ∷ wks) s =
      flush_keys dbid c wks
        (if flushes dbid wk.db && s.dict wk.db wk.key then alter c mark_dirty s else s)

  pub flush_clients : Option ℕ → List ℕ → Server K → Server K
  flush_clients dbid [] s = s
  flush_clients dbid (c ∷ l) s =
      flush_clients dbid l (flush_keys dbid c (s.client c).watched_keys s)

  unfoldable pub touch_watched_keys_on_flush : Option ℕ → Server K → Server K
  touch_watched_keys_on_flush dbid s = flush_clients dbid s.clients s

  module _ (call : ℕ → Server K → Server K) where
    unfoldable pub exec_one : ℕ → ℕ → Bool → MultiCmd K → Server K → Server K
    exec_one c j must mc s = store_back c j (call c (announce c must mc (load c mc s)))

    -- The loop over the queue from `j` on; the Boolean is `must_propagate`.
    pub exec_loop : ℕ → ℕ → ℕ → Bool → Server K → Server K × Bool
    exec_loop zero c j must s = (s, must)
    exec_loop (suc n) c j must s = elim (get_elem? (s.client c).commands j) [
      | none ↦ (s, must)
      | some mc ↦ exec_loop n c (j + 1) (must || not mc.cmd.readonly) (exec_one c j must mc s)
    ]

    -- The queue runs; then `argv`, `argc` and `cmd` are restored.
    unfoldable pub exec_queue : ℕ → Server K → Server K × Bool
    exec_queue c s =
        let cl = s.client c in
        let count = length cl.commands in
        let r = exec_loop count c 0 false (emit (add_reply c (multi_bulk_len count)) s) in
        (alter c (λ cl'. record cl' { cmd = cl.cmd; argv = cl.argv }) r.0, r.1)

    unfoldable pub exec_commit : ℕ → Server K → Option (Server K)
    exec_commit c s = do
      s' ← unwatch_all_keys c s
      s'' ← discard_transaction c (exec_queue c s').0
      some (if (exec_queue c s').1 then record s'' { dirty = s''.dirty + 1 } else s'')

    unfoldable pub exec_abort : ℕ → Server K → Option (Server K)
    exec_abort c s =
        discard_transaction c
          (emit (add_reply c (if (s.client c).dirty_exec then execaborterr else nullmultibulk)) s)

    unfoldable pub exec_command : ℕ → Server K → Option (Server K)
    exec_command c s =
        let cl = s.client c in
        if not cl.multi
        then some (emit (add_reply c exec_without_multi) s)
        else if cl.dirty_cas || cl.dirty_exec
        then (do s' ← exec_abort c s; some (handle_monitor c s'))
        else (do s' ← exec_commit c s; some (handle_monitor c s'))
