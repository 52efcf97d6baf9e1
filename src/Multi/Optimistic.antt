-- ===== src/Multi/Optimistic.antt =====
-- The promise of WATCH in data/multi.c, over any interleaving of the commands of all clients.
use learnredis.Base.{
  ℕ, ◌≡◌, refl, sym, ap, ◌∙◌, inl, inr, true, false, Option, none, some, List, [], ◌∷◌, ◌++◌, arith,
  ◌==◌, ==_iff, if◌then◌else◌, Bool-cases, KeyType,
}
use learnredis.Multi.{
  Client, Server, Event, add_reply, reply_ok, nullmultibulk, execaborterr, alter, emit, is_watching,
  watch_for_key, watch_loop, watch_command, arguments, multi_command, queue_multi_command,
  flag_transaction, touch_watched_key, touch_watched_keys_on_flush, unwatch_command,
  discard_command, exec_command, handle_monitor,
}
use learnredis.Multi.Watching.{IsServer, watch_for_key-IsServer}
use learnredis.Multi.Unwatching.{unwatch_all_keys-Unwatched}
use learnredis.Multi.Touching.{
  mark-IsServer, touch_watched_key-mark, touch_watched_keys_on_flush-mark,
}
use learnredis.Multi.Executing.{
  IsIdle, alter-IsServer, emit-IsServer, exec_command_aborts, discard_command-Discarded,
}

module _ {ℓ} {K : Type ℓ} ⦃kt : KeyType K⦄ where
  -- What any client may do; only `c` itself takes no key off its own watch.
  pub data Step (c : ℕ) : Server K → Server K → Type ℓ where
    watch : (d : ℕ) (s : Server K) → Step c s (watch_command d s)
    multi : (d : ℕ) (s : Server K) → Step c s (multi_command d s)
    queue : (d : ℕ) (s : Server K) → Step c s (queue_multi_command d s)
    refuse : (d : ℕ) (s : Server K) → Step c s (flag_transaction d s)
    touch : (db : ℕ) (key : K) (s : Server K) → Step c s (touch_watched_key db key s)
    flush : (dbid : Option ℕ) (s : Server K) → Step c s (touch_watched_keys_on_flush dbid s)
    unwatch :
        (d : ℕ) (s s' : Server K) → (c == d) ≡ false → unwatch_command d s ≡ some s' → Step c s s'
    discard :
        (d : ℕ) (s s' : Server K)
        → (c == d) ≡ false
        → (s.client d).multi ≡ true
        → discard_command d s ≡ some s'
        → Step c s s'

  pub data Reach (c : ℕ) (s : Server K) : Server K → Type ℓ where
    here : Reach c s s
    next : {t u : Server K} → Reach c s t → Step c t u → Reach c s u

  abbrev given : Server K → Option (Server K) → Server K
  given s none = s
  given s (some s') = s'

  -- The server is in order and the transaction of `c` is lost.
  pub record IsLost (c : ℕ) (s : Server K) : Type ℓ where
    pub valid : IsServer s
    pub lost : (s.client c).dirty_cas ≡ true

  alter-IsLost :
      (c d : ℕ) (f : Client K → Client K) (s : Server K)
      → (f (s.client d)).watched_keys ≡ (s.client d).watched_keys
      → ((s.client d).dirty_cas ≡ true → (f (s.client d)).dirty_cas ≡ true)
      → IsLost c s
      → IsLost c (alter d f s)
  alter-IsLost c d f s same keeps l = record {
    valid = alter-IsServer d f s same l.valid;
    lost = elim (Bool-cases (c == d)) [
      | inl e ↦ rw e (keeps (rw (sym ((==_iff c d).0 e)) l.lost))
      | inr e ↦ rw e l.lost
    ];
  }

  watch_for_key-dirty :
      (c d : ℕ) (key : K) (s : Server K)
      → ((watch_for_key d key s).client c).dirty_cas ≡ (s.client c).dirty_cas
  unfolding watch_for_key
  watch_for_key-dirty c d key s =
      elim (Bool-cases (is_watching (s.client d).db key (s.client d).watched_keys)) [
        | inl old ↦ rw old refl
        | inr new ↦ elim (Bool-cases (c == d)) [
          | inl e ↦ rw (new, e, (==_iff c d).0 e) refl
          | inr e ↦ rw (new, e) refl
        ]
      ]

  watch_loop-IsLost :
      (c d : ℕ) (keys : List K) (s : Server K) → IsLost c s → IsLost c (watch_loop d keys s)
  unfolding watch_loop
  watch_loop-IsLost c d [] s l = l
  watch_loop-IsLost c d (key ∷ keys) s l =
      watch_loop-IsLost c d keys (watch_for_key d key s) (record {
        valid = watch_for_key-IsServer d key s l.valid;
        lost = watch_for_key-dirty c d key s ∙ l.lost;
      })

  emit-IsLost : (c : ℕ) (e : Event K) (s : Server K) → IsLost c s → IsLost c (emit e s)
  emit-IsLost c e s l = record { valid = emit-IsServer e s l.valid; lost = l.lost }

  Step-IsLost : (c : ℕ) {s s' : Server K} → Step c s s' → IsLost c s → IsLost c s'
  unfolding watch_command multi_command queue_multi_command flag_transaction unwatch_command
  Step-IsLost c (watch d s) l = elim (Bool-cases (s.client d).multi) [
    | inl e ↦ rw e (emit-IsLost c _ s l)
    | inr e ↦ rw e (emit-IsLost c _ _ (watch_loop-IsLost c d (arguments (s.client d).argv) s l))
  ]
  Step-IsLost c (multi d s) l = elim (Bool-cases (s.client d).multi) [
    | inl e ↦ rw e (emit-IsLost c _ s l)
    | inr e ↦
        rw e (
          emit-IsLost c _ _ (alter-IsLost c d (λ cl. record cl { multi = true }) s refl (λ h. h) l))
  ]
  Step-IsLost c (queue d s) l =
      alter-IsLost c d
        (λ cl. record cl { commands = cl.commands ++ record { cmd = cl.cmd; argv = cl.argv } ∷ [] })
        s refl (λ h. h) l
  Step-IsLost c (refuse d s) l =
      alter-IsLost c d (λ cl. if cl.multi then record cl { dirty_exec = true } else cl) s
        (ground arith) (λ h. ground (arith, h)) l
  Step-IsLost c (touch db key s) l =
      rw (touch_watched_key-mark db key s l.valid)
        (record { valid = mark-IsServer _ s l.valid; lost = rw l.lost refl })
  Step-IsLost c (flush dbid s) l =
      rw (touch_watched_keys_on_flush-mark dbid s)
        (record { valid = mark-IsServer _ s l.valid; lost = rw l.lost refl })
  Step-IsLost c (unwatch d s s' other eq) l =
      let (u, eq', un) = unwatch_all_keys-Unwatched d s l.valid in
      let now : unwatch_command d s
          ≡ some (emit (add_reply d reply_ok) (alter d (λ cl. record cl { dirty_cas = false }) u)) =
        rw eq' refl in
      let same : s'
          ≡ emit (add_reply d reply_ok) (alter d (λ cl. record cl { dirty_cas = false }) u) =
        ap (given s) (sym eq ∙ now) in
      rw same (record {
        valid =
            emit-IsServer _ _
              (alter-IsServer d (λ cl. record cl { dirty_cas = false }) u refl un.valid);
        lost = rw other (ap (λ (x : Server K). (x.client c).dirty_cas) un.frame ∙ rw other l.lost);
      })
  Step-IsLost c (discard d s s' other on eq) l =
      let (r, t, eq', same', dis) = discard_command-Discarded d s l.valid on in
      let same : s' ≡ emit (add_reply d reply_ok) t = ap (given s) (sym eq ∙ eq') ∙ same' in
      rw same (
        emit-IsLost c _ t (record {
          valid = dis.valid;
          lost = ap (λ (x : Client K). x.dirty_cas) (dis.others c other) ∙ l.lost;
        }))

  Reach-IsLost : (c : ℕ) {s s' : Server K} → Reach c s s' → IsLost c s → IsLost c s'
  Reach-IsLost c here l = l
  Reach-IsLost c (next r st) l = Step-IsLost c st (Reach-IsLost c r l)

  -- On a server in order, once a key that `c` watches is touched, and after any sequence of WATCH,
  -- MULTI, queueing, refused commands, writes and flushes of all clients and UNWATCH and DISCARD
  -- of the others, an EXEC of `c` inside a transaction runs no command: its only own reply is the
  -- abort, and `c` ends outside the transaction, watching nothing.
  pub exec_command-touched :
      (call : ℕ → Server K → Server K) (c db : ℕ) (key : K) (s t : Server K)
      → IsServer s
      → is_watching db key (s.client c).watched_keys ≡ true
      → Reach c (touch_watched_key db key s) t
      → (t.client c).multi ≡ true
      → (t' : Server K) × (exec_command call c t ≡ some (handle_monitor c t'))
        × IsIdle (t'.client c)
        × IsServer t'
        × (t'.log
            ≡ t.log
              ++ add_reply c (if (t.client c).dirty_exec then execaborterr else nullmultibulk) ∷ [])
  exec_command-touched call c db key s t v w r on =
      let l = Reach-IsLost c r (
        rw (touch_watched_key-mark db key s v)
          (record { valid = mark-IsServer _ s v; lost = rw w (ground arith) })) in
      exec_command_aborts call c t l.valid on (rw l.lost refl)
