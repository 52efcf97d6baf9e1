-- ===== src/Multi/Touching.antt =====
-- `touchWatchedKey` and `touchWatchedKeysOnFlush` of data/multi.c: which clients become dirty.
use mathlib.Core.Path.{fun_ext}
use learnredis.Base.{
  ℕ, ◌≡◌, refl, sym, ap, ◌∙◌, inl, inr, Bool, true, false, ◌&&◌, ◌||◌, Option, List, [], ◌∷◌, arith,
  ltb, length, length-eq-zero, ◌==◌, ==_iff, if◌then◌else◌, Bool-cases, KeyType, fetch,
}
use learnredis.Clients.{clients_of, count}
use learnredis.Multi.{
  WatchedKey, Client, Server, alter, is_watching, mark_dirty, mark_clients, touch_watched_key,
  flushes, flush_keys, flush_clients, touch_watched_keys_on_flush,
}
use learnredis.Multi.Watching.{watchers, IsServer, is_watching_lem}

module _ {ℓ} {K : Type ℓ} where
  -- `s` after REDIS_DIRTY_CAS is set for the clients that `p` chooses.
  abbrev pub mark : (ℕ → Bool) → Server K → Server K
  mark p s = record s {
    client = λ d. record (s.client d) { dirty_cas = (s.client d).dirty_cas || p d };
  }

  mark_congr :
      (p q : ℕ → Bool) (s : Server K)
      → ((d : ℕ) → ((s.client d).dirty_cas || p d) ≡ ((s.client d).dirty_cas || q d))
      → mark p s ≡ mark q s
  mark_congr p q s h =
      ap (λ (f : ℕ → Bool). record s { client = λ d. record (s.client d) { dirty_cas = f d } })
        (fun_ext h)

  mark_none : (p : ℕ → Bool) (s : Server K) → ((d : ℕ) → p d ≡ false) → mark p s ≡ s
  mark_none p s h =
      ap (λ (f : ℕ → Bool). record s { client = λ d. record (s.client d) { dirty_cas = f d } })
        (fun_ext {g = λ d. (s.client d).dirty_cas} (λ d. ground (arith, h d)))

  mark_twice :
      (p q r : ℕ → Bool) (s : Server K)
      → ((d : ℕ) → (p d || q d) ≡ r d)
      → mark q (mark p s) ≡ mark r s
  mark_twice p q r s h =
      ap (λ (f : ℕ → Bool). record s { client = λ d. record (s.client d) { dirty_cas = f d } })
        (fun_ext (λ d. ground (arith, h d)))

  dirty_field : (cl : Client K) (b : Bool) → cl.dirty_cas ≡ b → cl ≡ record cl { dirty_cas = b }
  dirty_field cl b e = ap (λ x. record cl { dirty_cas = x }) e

  alter-mark : (c : ℕ) (s : Server K) → alter c mark_dirty s ≡ mark (λ d. d == c) s
  alter-mark c s =
      ap (λ (f : ℕ → Client K). record s { client = f })
        (fun_ext (λ d. elim (Bool-cases (d == c)) [
          | inl e ↦
              rw (e, (==_iff d c).0 e)
                (ap (λ x. record (s.client c) { dirty_cas = x }) (ground arith))
          | inr e ↦ rw e (dirty_field (s.client d) ((s.client d).dirty_cas || false) (ground arith))
        ]))

  mark_clients-mark :
      (l : List ℕ) (s : Server K) → mark_clients l s ≡ mark (λ d. ltb 0 (count d l)) s
  unfolding mark_clients count
  mark_clients-mark [] s = sym (mark_none (λ d. false) s (λ d. refl))
  mark_clients-mark (c ∷ l) s =
      mark_clients-mark l (alter c mark_dirty s)
      ∙ ap (mark (λ d. ltb 0 (count d l))) (alter-mark c s)
      ∙ mark_twice (λ d. d == c) (λ d. ltb 0 (count d l)) (λ d. ltb 0 (count d (c ∷ l))) s
          (λ d. ground arith)

module _ {ℓ} {K : Type ℓ} ⦃kt : KeyType K⦄ where
  -- WATCH agreement only speaks of the lists of keys, which marking leaves alone.
  pub mark-IsServer : (p : ℕ → Bool) (s : Server K) → IsServer s → IsServer (mark p s)
  mark-IsServer p s v = record { agree = v.agree; once = v.once; live = v.live }

  -- `touchWatchedKey` on a server in order sets REDIS_DIRTY_CAS of exactly the clients whose own
  -- lists have the key in that database, and changes nothing else.
  pub touch_watched_key-mark :
      (db : ℕ) (key : K) (s : Server K)
      → IsServer s
      → touch_watched_key db key s ≡ mark (λ d. is_watching db key (s.client d).watched_keys) s
  unfolding touch_watched_key mark_clients
  touch_watched_key-mark db key s v =
      let m = s.watched_keys db in
      let marked : mark_clients (watchers s db key) s
          ≡ mark (λ d. is_watching db key (s.client d).watched_keys) s =
        mark_clients-mark (watchers s db key) s
        ∙ mark_congr (λ d. ltb 0 (count d (watchers s db key)))
            (λ d. is_watching db key (s.client d).watched_keys) s
            (λ d. rw (is_watching_lem db key (s.client d).watched_keys, v.agree db key d) refl) in
      elim (Bool-cases (length m == 0)) [
        | inl e ↦ rw e (
            sym (
              ap (λ n. mark_clients (clients_of (fetch key n)) s)
                (length-eq-zero m ((==_iff (length m) 0).0 e)))
            ∙ marked)
        | inr e ↦ rw e marked
      ]

  -- Does a flush delete a key that is watched here?
  pub loses : Option ℕ → (ℕ → K → Bool) → List (WatchedKey K) → Bool
  loses dbid dict [] = false
  loses dbid dict (wk ∷ wks) = (flushes dbid wk.db && dict wk.db wk.key) || loses dbid dict wks

  mark_if :
      (b : Bool) (c : ℕ) (s : Server K)
      → (if b then alter c mark_dirty s else s) ≡ mark (λ d. b && (d == c)) s
  mark_if true c s = alter-mark c s
  mark_if false c s = sym (mark_none (λ d. false) s (λ d. refl))

  flush_keys-mark :
      (dbid : Option ℕ) (c : ℕ) (wks : List (WatchedKey K)) (s : Server K)
      → flush_keys dbid c wks s ≡ mark (λ d. d == c && loses dbid s.dict wks) s
  unfolding flush_keys loses
  flush_keys-mark dbid c [] s = sym (mark_none (λ d. d == c && false) s (λ d. ground arith))
  flush_keys-mark dbid c (wk ∷ wks) s =
      let b = flushes dbid wk.db && s.dict wk.db wk.key in
      ap (flush_keys dbid c wks) (mark_if b c s)
      ∙ flush_keys-mark dbid c wks (mark (λ d. b && (d == c)) s)
      ∙ mark_twice (λ d. b && (d == c)) (λ d. d == c && loses dbid s.dict wks)
          (λ d. d == c && loses dbid s.dict (wk ∷ wks)) s (λ d. ground arith)

  flush_clients-mark :
      (dbid : Option ℕ) (l : List ℕ) (s : Server K)
      → flush_clients dbid l s
        ≡ mark (λ d. ltb 0 (count d l) && loses dbid s.dict (s.client d).watched_keys) s
  unfolding flush_clients count
  flush_clients-mark dbid [] s = sym (mark_none (λ d. false) s (λ d. refl))
  flush_clients-mark dbid (c ∷ l) s =
      let w = loses dbid s.dict (s.client c).watched_keys in
      ap (flush_clients dbid l) (flush_keys-mark dbid c (s.client c).watched_keys s)
      ∙ flush_clients-mark dbid l (mark (λ d. d == c && w) s)
      ∙ mark_twice (λ d. d == c && w)
          (λ d. ltb 0 (count d l) && loses dbid s.dict (s.client d).watched_keys)
          (λ d. ltb 0 (count d (c ∷ l)) && loses dbid s.dict (s.client d).watched_keys) s
          (λ d. elim (Bool-cases (d == c)) [
            | inl e ↦ rw (e, (==_iff d c).0 e) (ground arith)
            | inr e ↦ rw e (ground arith)
          ])

  -- `touchWatchedKeysOnFlush` sets REDIS_DIRTY_CAS of exactly the connected clients that watch a
  -- key which exists in a flushed database, and changes nothing else.
  pub touch_watched_keys_on_flush-mark :
      (dbid : Option ℕ) (s : Server K)
      → touch_watched_keys_on_flush dbid s
        ≡ mark (λ d. ltb 0 (count d s.clients) && loses dbid s.dict (s.client d).watched_keys) s
  unfolding touch_watched_keys_on_flush
  touch_watched_keys_on_flush-mark dbid s = flush_clients-mark dbid s.clients s
