-- ===== src/Multi/Executing.antt =====
-- EXEC and DISCARD of data/multi.c. `call` of main/redis.c, which runs a command, is a parameter.
use learnredis.Base.{
  ℕ, ◌+◌, ◌≡◌, refl, sym, ap, ◌∙◌, inl, inr, Bool, true, false, not, ◌&&◌, ◌||◌, some, List, [],
  ◌∷◌, ◌++◌, length, set, ◌==◌, ==_iff, if◌then◌else◌, Bool-cases, KeyType, update_self,
  append_assoc, append_nil, get_elem?-append_length, set-append_length, length-append, get_elem?,
}
use learnredis.Multi.{
  MultiCmd, Client, Server, Event, add_reply, propagate_multi, ran, execaborterr, nullmultibulk,
  multi_bulk_len, reply_ok, alter, emit, clear_flags, init_client_multi_state, load, announce,
  exec_one, exec_loop, exec_queue, exec_commit, exec_abort, exec_command, handle_monitor,
  discard_transaction, discard_command,
}
use learnredis.Multi.Watching.{IsServer}
use learnredis.Multi.Unwatching.{unwatch_all_keys-Unwatched}

module _ {ℓ} {K : Type ℓ} ⦃kt : KeyType K⦄ where
  -- The client is out of every transaction and watches nothing.
  pub record IsIdle (cl : Client K) : Type ℓ where
    pub no_multi : cl.multi ≡ false
    pub no_cas : cl.dirty_cas ≡ false
    pub no_exec : cl.dirty_exec ≡ false
    pub no_commands : cl.commands ≡ []
    pub no_keys : cl.watched_keys ≡ []

  -- The command that the client is about to run is one of the queue `l`.
  abbrev pub IsLoaded : List (MultiCmd K) → Client K → Type ℓ
  IsLoaded l cl = (i : ℕ) × (get_elem? l i ≡ some (record { cmd = cl.cmd; argv = cl.argv }))

  -- What EXEC relies on when `call` runs one of the commands `l` for the client `c`: it leaves the
  -- queue and the agreement of the watched keys as they are, and what it does is the one event that
  -- the command, as the client's `cmd` and `argv` say, has run.
  pub record IsCall (call : ℕ → Server K → Server K) (c : ℕ) (l : List (MultiCmd K)) : Type ℓ where
    pub keeps_queue :
        (s : Server K)
        → IsLoaded l (s.client c)
        → ((call c s).client c).commands ≡ (s.client c).commands
    pub keeps_order : (s : Server K) → IsLoaded l (s.client c) → IsServer s → IsServer (call c s)
    pub logs :
        (s : Server K)
        → IsLoaded l (s.client c)
        → (call c s).log
          ≡ s.log ++ ran c (record { cmd = (s.client c).cmd; argv = (s.client c).argv }) ∷ []

  -- What the queue does: every command once, in order, with MULTI just before the first write.
  pub trace : ℕ → Bool → List (MultiCmd K) → List (Event K)
  trace c must [] = []
  trace c must (mc ∷ l) =
      (if not must && not mc.cmd.readonly then propagate_multi c ∷ [] else [])
      ++ ran c mc ∷ trace c (must || not mc.cmd.readonly) l

  pub alter-IsServer :
      (c : ℕ) (f : Client K → Client K) (s : Server K)
      → (f (s.client c)).watched_keys ≡ (s.client c).watched_keys
      → IsServer s
      → IsServer (alter c f s)
  alter-IsServer c f s h v =
      let same : (d : ℕ) → ((alter c f s).client d).watched_keys ≡ (s.client d).watched_keys = λ d.
        elim (Bool-cases (d == c)) [ inl e ↦ rw (e, (==_iff d c).0 e) h | inr e ↦ rw e refl ] in
      record {
        agree = λ db key d. rw (same d) (v.agree db key d);
        once = λ db key d. rw (same d) (v.once db key d);
        live = v.live;
      }

  pub emit-IsServer : (e : Event K) (s : Server K) → IsServer s → IsServer (emit e s)
  emit-IsServer e s v = record { agree = v.agree; once = v.once; live = v.live }

  pub record Discarded (c : ℕ) (s s' : Server K) : Type ℓ where
    pub idle : IsIdle (s'.client c)
    pub valid : IsServer s'
    pub quiet : s'.log ≡ s.log
    pub others : (d : ℕ) → (d == c) ≡ false → s'.client d ≡ s.client d

  discard_transaction-Discarded :
      (c : ℕ) (s : Server K)
      → IsServer s
      → (s' : Server K) × (discard_transaction c s ≡ some s') × Discarded c s s'
  unfolding discard_transaction
  discard_transaction-Discarded c s v =
      let f : Client K → Client K = λ cl. clear_flags (init_client_multi_state cl) in
      let (s', eq, u) = unwatch_all_keys-Unwatched c (alter c f s) (alter-IsServer c f s refl v) in
      let at : s'.client c ≡ record (f (s.client c)) { watched_keys = [] } =
        ap (λ (x : Server K). x.client c) u.frame
        ∙ update_self (alter c f s).client c (record ((alter c f s).client c) { watched_keys = [] })
        ∙ ap (λ (x : Client K). record x { watched_keys = [] })
            (update_self s.client c (f (s.client c))) in
      (
        s',
        eq,
        record {
          idle = record {
            no_multi = ap (λ (x : Client K). x.multi) at;
            no_cas = ap (λ (x : Client K). x.dirty_cas) at;
            no_exec = ap (λ (x : Client K). x.dirty_exec) at;
            no_commands = ap (λ (x : Client K). x.commands) at;
            no_keys = ap (λ (x : Client K). x.watched_keys) at;
          };
          valid = u.valid;
          quiet = ap (λ (x : Server K). x.log) u.frame;
          others = λ d h. ap (λ (x : Server K). x.client d) u.frame ∙ rw h refl;
        },
      )

  -- DISCARD inside a transaction on a server in order succeeds, replies OK, leaves the client with
  -- no flag, no queued command and no watched key, leaves the other clients alone, and keeps the
  -- server in order.
  pub discard_command-Discarded :
      (c : ℕ) (s : Server K)
      → IsServer s
      → (s.client c).multi ≡ true
      → (s' t : Server K) × (discard_command c s ≡ some s')
        × (s' ≡ emit (add_reply c reply_ok) t)
        × Discarded c s t
  unfolding discard_command
  discard_command-Discarded c s v on =
      let (t, eq, d) = discard_transaction-Discarded c s v in
      (emit (add_reply c reply_ok) t, t, rw (on, eq) refl, refl, d)

  -- `execCommand` on a server in order, inside a transaction with a dirty flag, runs no command:
  -- it replies EXECABORT if a command was refused and the null reply otherwise, leaves the client
  -- outside the transaction, watching nothing, and keeps the server in order; feeding the monitors
  -- comes last.
  pub exec_command_aborts :
      (call : ℕ → Server K → Server K) (c : ℕ) (s : Server K)
      → IsServer s
      → (s.client c).multi ≡ true
      → ((s.client c).dirty_cas || (s.client c).dirty_exec) ≡ true
      → (t : Server K) × (exec_command call c s ≡ some (handle_monitor c t))
        × IsIdle (t.client c)
        × IsServer t
        × (t.log
            ≡ s.log
              ++ add_reply c (if (s.client c).dirty_exec then execaborterr else nullmultibulk) ∷ [])
  unfolding exec_command exec_abort
  exec_command_aborts call c s v on dirty =
      let e = add_reply c (if (s.client c).dirty_exec then execaborterr else nullmultibulk) in
      let (t, eq, d) = discard_transaction-Discarded c (emit e s) (emit-IsServer e s v) in
      (t, rw (on, dirty, eq) refl, d.idle, d.valid, d.quiet)

  module _ (call : ℕ → Server K → Server K) (c : ℕ) (cmds : List (MultiCmd K))
      (k : IsCall call c cmds) where
    announce-client :
        (must : Bool) (mc : MultiCmd K) (s : Server K) → (announce c must mc s).client ≡ s.client
    announce-client must mc s = elim (Bool-cases (not must && not mc.cmd.readonly)) [
      | inl e ↦ rw e refl
      | inr e ↦ rw e refl
    ]

    announce-log :
        (must : Bool) (mc : MultiCmd K) (s : Server K)
        → (announce c must mc s).log
          ≡ s.log ++ (if not must && not mc.cmd.readonly then propagate_multi c ∷ [] else [])
    announce-log must mc s = elim (Bool-cases (not must && not mc.cmd.readonly)) [
      | inl e ↦ rw e refl
      | inr e ↦ rw e (sym (append_nil s.log))
    ]

    announce-IsServer :
        (must : Bool) (mc : MultiCmd K) (s : Server K)
        → IsServer s
        → IsServer (announce c must mc s)
    announce-IsServer must mc s v = elim (Bool-cases (not must && not mc.cmd.readonly)) [
      | inl e ↦ rw e (emit-IsServer (propagate_multi c) s v)
      | inr e ↦ rw e v
    ]

    -- One round of the loop: the server stays in order, and the queue and the log are these.
    record Ran (j : ℕ) (must : Bool) (mc : MultiCmd K) (s s' : Server K) : Type ℓ where
      valid : IsServer s'
      queue : (x : MultiCmd K) × ((s'.client c).commands ≡ set (s.client c).commands j x)
      logged :
          s'.log
          ≡ s.log
            ++ ((if not must && not mc.cmd.readonly then propagate_multi c ∷ [] else [])
                ++ ran c mc ∷ [])

    exec_one-Ran :
        (j : ℕ) (must : Bool) (mc : MultiCmd K) (s : Server K)
        → (i : ℕ) × (get_elem? cmds i ≡ some mc)
        → IsServer s
        → Ran j must mc s (exec_one call c j must mc s)
    unfolding exec_one
    exec_one-Ran j must mc s (i, one) v =
        let s1 = load c mc s in
        let s2 = announce c must mc s1 in
        let s3 = call c s2 in
        let cl = s3.client c in
        let mine : s2.client c ≡ record (s.client c) { cmd = mc.cmd; argv = mc.argv } =
          ap (λ f. f c) (announce-client must mc s1)
          ∙ update_self s.client c (record (s.client c) { cmd = mc.cmd; argv = mc.argv }) in
        let loaded : IsLoaded cmds (s2.client c) = (
          i,
          one ∙ sym (ap (λ (x : Client K). some (record { cmd = x.cmd; argv = x.argv })) mine),
        ) in
        record {
          valid =
              alter-IsServer c
                (λ x. record x {
                  commands = set x.commands j (record { cmd = x.cmd; argv = x.argv });
                })
                s3 refl
                (k.keeps_order s2 loaded (
                  announce-IsServer must mc s1
                    (alter-IsServer c (λ x. record x { cmd = mc.cmd; argv = mc.argv }) s refl v)));
          queue = (
            record { cmd = cl.cmd; argv = cl.argv },
            ap (λ (x : Client K). x.commands)
                  (update_self s3.client c (record cl {
                    commands = set cl.commands j (record { cmd = cl.cmd; argv = cl.argv });
                  }))
                ∙ ap (λ l. set l j (record { cmd = cl.cmd; argv = cl.argv }))
                    (k.keeps_queue s2 loaded ∙ ap (λ (x : Client K). x.commands) mine),
          );
          logged =
              k.logs s2 loaded
              ∙ ap (λ (x : Client K). s2.log ++ ran c (record { cmd = x.cmd; argv = x.argv }) ∷ [])
                  mine
              ∙ ap (λ l. l ++ ran c mc ∷ []) (announce-log must mc s1)
              ∙ append_assoc s.log
                  (if not must && not mc.cmd.readonly then propagate_multi c ∷ [] else [])
                  (ran c mc ∷ []);
        }

    exec_loop-trace :
        (rest pre old : List (MultiCmd K)) (must : Bool) (s : Server K)
        → cmds ≡ old ++ rest
        → IsServer s
        → (s.client c).commands ≡ pre ++ rest
        → IsServer (exec_loop call (length rest) c (length pre) must s).0
          × ((exec_loop call (length rest) c (length pre) must s).0.log
              ≡ s.log ++ trace c must rest)
    unfolding exec_loop trace
    exec_loop-trace [] pre old must s all v q = (v, sym (append_nil s.log))
    exec_loop-trace (mc ∷ rest) pre old must s all v q =
        let one : get_elem? cmds (length old) ≡ some mc =
          ap (λ l. get_elem? l (length old)) all ∙ get_elem?-append_length old rest mc in
        let r = exec_one-Ran (length pre) must mc s (length old, one) v in
        let (x, set_x) = r.queue in
        let more = must || not mc.cmd.readonly in
        let s' = exec_one call c (length pre) must mc s in
        let ih =
          exec_loop-trace rest (pre ++ x ∷ []) (old ++ mc ∷ []) more s'
            (all ∙ sym (append_assoc old (mc ∷ []) rest)) r.valid
            (set_x
              ∙ ap (λ l. set l (length pre) x) q
              ∙ set-append_length pre rest mc x
              ∙ sym (append_assoc pre (x ∷ []) rest)) in
        let at : get_elem? (s.client c).commands (length pre) ≡ some mc =
          ap (λ l. get_elem? l (length pre)) q ∙ get_elem?-append_length pre rest mc in
        let sent = if not must && not mc.cmd.readonly then propagate_multi c ∷ [] else [] in
        let done =
          ih.1
          ∙ ap (λ l. l ++ trace c more rest) r.logged
          ∙ append_assoc s.log (sent ++ ran c mc ∷ []) (trace c more rest)
          ∙ ap (λ l. s.log ++ l) (append_assoc sent (ran c mc ∷ []) (trace c more rest)) in
        rw (at, exec_loop) (rw (sym (length-append pre (x ∷ []))) (ih.0, done))

  -- To unwatch leaves the queue alone.
  unwatched_queue :
      (c : ℕ) (s : Server K) (v : IsServer s)
      → ((unwatch_all_keys-Unwatched c s v).0.client c).commands ≡ (s.client c).commands
  unwatched_queue c s v =
      ap (λ (x : Server K). (x.client c).commands) (unwatch_all_keys-Unwatched c s v).2.frame
      ∙ ap (λ (x : Client K). x.commands)
          (update_self s.client c (record (s.client c) { watched_keys = [] }))

  -- If `call` of a command of the queue logs just that the command ran and leaves the queue and
  -- the agreement of the watched keys alone, then EXEC of a transaction with no dirty flag on a
  -- server in order succeeds: it announces as many replies as commands are queued, runs each once
  -- in order with MULTI propagated just before the first that writes, and leaves the client
  -- outside the transaction and the server in order; feeding the monitors comes last.
  pub exec_command_runs :
      (call : ℕ → Server K → Server K) (c : ℕ) (s : Server K)
      → IsCall call c (s.client c).commands
      → IsServer s
      → (s.client c).multi ≡ true
      → ((s.client c).dirty_cas || (s.client c).dirty_exec) ≡ false
      → (t : Server K) × (exec_command call c s ≡ some (handle_monitor c t))
        × IsIdle (t.client c)
        × IsServer t
        × (t.log
            ≡ s.log
              ++ add_reply c (multi_bulk_len (length (s.client c).commands))
                ∷ trace c false (s.client c).commands)
  unfolding exec_command exec_commit exec_queue
  exec_command_runs call c s k v on clean =
      let (u, eq, un) = unwatch_all_keys-Unwatched c s v in
      let cl = u.client c in
      let same : cl.commands ≡ (s.client c).commands = unwatched_queue c s v in
      let hello = add_reply c (multi_bulk_len (length cl.commands)) in
      let t0 = emit hello u in
      let (ok, log) =
        exec_loop-trace call c (s.client c).commands k cl.commands [] [] false t0 (sym same)
          (emit-IsServer hello u un.valid) refl in
      let r = exec_loop call (length cl.commands) c 0 false t0 in
      let t1 = alter c (λ x. record x { cmd = cl.cmd; argv = cl.argv }) r.0 in
      let (t2, eq2, d) =
        discard_transaction-Discarded c t1
          (alter-IsServer c (λ x. record x { cmd = cl.cmd; argv = cl.argv }) r.0 refl ok) in
      let logged =
        d.quiet
        ∙ log
        ∙ append_assoc u.log (hello ∷ []) (trace c false cl.commands)
        ∙ ap (λ (x : Server K). x.log ++ hello ∷ trace c false cl.commands) un.frame
        ∙ ap (λ l. s.log ++ add_reply c (multi_bulk_len (length l)) ∷ trace c false l) same in
      elim (Bool-cases r.1) [
        | inl must ↦
            let t = record t2 { dirty = t2.dirty + 1 } in
            (
              t,
              rw (on, clean, eq) (rw (eq2, must) refl),
              d.idle,
              record { agree = d.valid.agree; once = d.valid.once; live = d.valid.live },
              logged,
            )
        | inr must ↦ (t2, rw (on, clean, eq) (rw (eq2, must) refl), d.idle, d.valid, logged)
      ]
