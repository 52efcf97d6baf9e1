-- ===== src/Multi/Unwatching.antt =====
-- UNWATCH and the end of a transaction in data/multi.c: the keys of a client leave both sides.
use learnredis.Base.{
  ℕ, ◌+◌, ◌<◌, ◌≡◌, refl, sym, ap, ◌∙◌, inl, inr, ◌&&◌, some, List, [], ◌∷◌, arith, ◌==◌, ==_iff,
  if◌then◌else◌, Bool-cases, Option-cases, KeyType, fetch, update, update_self, update_twice,
  update_same,
}
use learnredis.Clients.{
  clients_of, store_clients, count, delete_client_lem, count-nil, fetch-store_clients,
  store_clients-live,
}
use learnredis.Multi.{WatchedKey, Client, Server, unwatch_key, unwatch_loop, unwatch_all_keys}
use learnredis.Multi.Watching.{watch_count, watchers, IsServer, here}

module _ {ℓ} {K : Type ℓ} ⦃kt : KeyType K⦄ where
  -- `s'` is in order, and is `s` but for the lists of watched keys; `wks` is left to the client.
  pub record Unwatched (c : ℕ) (wks : List (WatchedKey K)) (s s' : Server K) : Type ℓ where
    pub frame : s' ≡ record s {
      client = update s.client c (record (s.client c) { watched_keys = wks });
      watched_keys = s'.watched_keys;
    }
    pub valid : IsServer s'

  module _ (c : ℕ) (wk : WatchedKey K) (rest : List (WatchedKey K)) (s : Server K) (v : IsServer s)
      (top : (s.client c).watched_keys ≡ wk ∷ rest) where
    present : 0 < count c (watchers s wk.db wk.key)
    unfolding watch_count
    present = rw (v.agree wk.db wk.key c, top, kt.same_refl wk.key) (ground arith)

    abbrev after : List ℕ → Server K
    after left = record s {
      client = update s.client c (record (s.client c) { watched_keys = rest });
      watched_keys = update s.watched_keys wk.db (store_clients wk.key left (s.watched_keys wk.db));
    }

    watchers-after :
        (left : List ℕ) (db : ℕ) (q : K)
        → watchers (after left) db q
          ≡ (if wk.db == db && kt.same q wk.key then left else watchers s db q)
    watchers-after left db q = elim (Bool-cases (db == wk.db)) [
      | inl e ↦ rw (e, fetch-store_clients q wk.key left, (==_iff db wk.db).0 e) (ground arith)
      | inr e ↦ rw e (ground arith)
    ]

    watch_count-after :
        (left : List ℕ) (db : ℕ) (q : K) (d : ℕ)
        → watch_count db q ((after left).client d).watched_keys
            + (if d == c && (wk.db == db && kt.same q wk.key) then 1 else 0)
          ≡ watch_count db q (s.client d).watched_keys
    unfolding watch_count
    watch_count-after left db q d = elim (Bool-cases (d == c)) [
      | inl e ↦ rw (e, (==_iff d c).0 e, top) (ground arith)
      | inr e ↦ rw e (ground arith)
    ]

    after-IsServer :
        (left : List ℕ)
        → ((d : ℕ) → count d left + (if d == c then 1 else 0) ≡ count d (watchers s wk.db wk.key))
        → IsServer (after left)
    after-IsServer left counts = record {
      agree = λ db q d. elim (Bool-cases (wk.db == db && kt.same q wk.key)) [
        | inl e ↦
            let at = here wk.db db q wk.key e in
            rw (watchers-after left db q, e)
              (rw (sym at.0, at.1)
                (ground (
                  arith,
                  watch_count-after left wk.db wk.key d,
                  counts d,
                  v.agree wk.db wk.key d,
                  kt.same_refl wk.key,
                )))
        | inr e ↦
            rw (watchers-after left db q, e)
              (ground (arith, watch_count-after left db q d, v.agree db q d))
      ];
      once = λ db q d. ground (arith, watch_count-after left db q d, v.once db q d);
      live = λ db q l h. elim (Bool-cases (db == wk.db)) [
        | inl e ↦
            store_clients-live q wk.key left l (s.watched_keys wk.db) (v.live wk.db q)
              (sym (rw e refl) ∙ h)
        | inr e ↦ v.live db q l (sym (rw e refl) ∙ h)
      ];
    }

    pub unwatch_key-Unwatched :
        (s' : Server K) × (unwatch_key c wk rest s ≡ some s') × Unwatched c rest s s'
    unfolding unwatch_key
    unwatch_key-Unwatched = elim (Option-cases (fetch wk.key (s.watched_keys wk.db))) [
      | inl e ↦ absurd (omega (arith, present, ap (λ o. count c (clients_of o)) e, count-nil c))
      | inr (l, e) ↦
          let same_list = ap clients_of e in
          let (left, eq, counts) = delete_client_lem c l (rw (sym same_list) present) in
          (
            after left,
            rw (e, eq) refl,
            record { frame = refl; valid = after-IsServer left (λ d. rw same_list (counts d)) },
          )
    ]

  unwatch_loop-Unwatched :
      (c : ℕ) (wks : List (WatchedKey K)) (s : Server K)
      → IsServer s
      → (s.client c).watched_keys ≡ wks
      → (s' : Server K) × (unwatch_loop c wks s ≡ some s') × Unwatched c [] s s'
  unfolding unwatch_loop
  unwatch_loop-Unwatched c [] s v top = (
    s,
    refl,
    record {
      frame = sym (
          ap
            (λ w. record s {
              client = update s.client c (record (s.client c) { watched_keys = w });
            })
            (sym top)
          ∙ ap (λ f. record s { client = f }) (update_same s.client c));
      valid = v;
    },
  )
  unwatch_loop-Unwatched c (wk ∷ wks) s v top =
      let x = record (s.client c) { watched_keys = wks } in
      let (t, eq, u) = unwatch_key-Unwatched c wk wks s v top in
      let (s', eq', u') = unwatch_loop-Unwatched c wks t u.valid (
        ap (λ (x : Server K). (x.client c).watched_keys) u.frame
        ∙ ap (λ (z : Client K). z.watched_keys) (update_self s.client c x)) in
      (
        s',
        rw (eq, eq') refl,
        record {
          frame =
              u'.frame
              ∙ ap
                  (λ (y : Server K). record y {
                    client = update y.client c (record (y.client c) { watched_keys = [] });
                    watched_keys = s'.watched_keys;
                  })
                  u.frame
              ∙ ap
                  (λ (z : Client K). record s {
                    client = update (update s.client c x) c (record z { watched_keys = [] });
                    watched_keys = s'.watched_keys;
                  })
                  (update_self s.client c x)
              ∙ ap (λ f. record s { client = f; watched_keys = s'.watched_keys })
                  (update_twice s.client c x (record (s.client c) { watched_keys = [] }));
          valid = u'.valid;
        },
      )

  -- `unwatchAllKeys` on a server in order meets no failed assertion and no null pointer;
  -- afterwards the client watches nothing, the server is in order, and nothing has changed but the
  -- dictionaries of watched keys and that client.
  pub unwatch_all_keys-Unwatched :
      (c : ℕ) (s : Server K)
      → IsServer s
      → (s' : Server K) × (unwatch_all_keys c s ≡ some s') × Unwatched c [] s s'
  unfolding unwatch_all_keys
  unwatch_all_keys-Unwatched c s v = unwatch_loop-Unwatched c (s.client c).watched_keys s v refl
