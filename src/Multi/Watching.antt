-- ===== src/Multi/Watching.antt =====
-- The two sides of a WATCH in data/multi.c: the clients under a key, and the keys of a client.
use learnredis.Base.{
  ℕ, ◌+◌, ◌≤◌, ◌<◌, ◌≡◌, refl, sym, ◌∙◌, inl, inr, true, false, ◌&&◌, some, List, [], ◌∷◌, ◌++◌,
  arith, ltb, length, ◌==◌, ==_iff, if◌then◌else◌, Bool-cases, KeyType, fetch, fetch-put,
}
use learnredis.Clients.{clients_of, count, count-append, live-append}
use learnredis.Multi.{WatchedKey, Server, is_watching, watch_for_key}

module _ {ℓ} {K : Type ℓ} ⦃kt : KeyType K⦄ where
  -- How often a client's list has a key of a database.
  unfoldable pub watch_count : ℕ → K → List (WatchedKey K) → ℕ
  watch_count db key [] = 0
  watch_count db key (wk ∷ wks) =
      (if wk.db == db && kt.same key wk.key then 1 else 0) + watch_count db key wks

  abbrev pub watchers : Server K → ℕ → K → List ℕ
  watchers s db key = clients_of (fetch key (s.watched_keys db))

  -- Both sides agree; nobody watches a key twice; no list is empty.
  pub record IsServer (s : Server K) : Type ℓ where
    pub agree :
        (db : ℕ) (key : K) (c : ℕ)
        → count c (watchers s db key) ≡ watch_count db key (s.client c).watched_keys
    pub once : (db : ℕ) (key : K) (c : ℕ) → watch_count db key (s.client c).watched_keys ≤ 1
    pub live :
        (db : ℕ) (key : K) (l : List ℕ) → fetch key (s.watched_keys db) ≡ some l → 0 < length l

  pub is_watching_lem :
      (db : ℕ) (key : K) (wks : List (WatchedKey K))
      → is_watching db key wks ≡ ltb 0 (watch_count db key wks)
  unfolding is_watching watch_count
  is_watching_lem db key [] = refl
  is_watching_lem db key (wk ∷ wks) = ground (arith, is_watching_lem db key wks)

  pub watch_count-append :
      (db : ℕ) (key : K) (wks : List (WatchedKey K)) (wk : WatchedKey K)
      → watch_count db key (wks ++ wk ∷ [])
        ≡ watch_count db key wks + (if wk.db == db && kt.same key wk.key then 1 else 0)
  unfolding watch_count
  watch_count-append db key [] wk = omega arith
  watch_count-append db key (w ∷ wks) wk = rw (watch_count-append db key wks wk) (omega arith)

  watch_for_key-old :
      (c : ℕ) (key : K) (s : Server K)
      → is_watching (s.client c).db key (s.client c).watched_keys ≡ true
      → watch_for_key c key s ≡ s
  unfolding watch_for_key
  watch_for_key-old c key s old = rw old refl

  module _ (c : ℕ) (key : K) (s : Server K) (v : IsServer s)
      (new : is_watching (s.client c).db key (s.client c).watched_keys ≡ false) where
    watch-fresh : watch_count (s.client c).db key (s.client c).watched_keys ≡ 0
    watch-fresh = ground (arith, is_watching_lem (s.client c).db key (s.client c).watched_keys)

    watch_list :
        (db : ℕ) (q : K) (d : ℕ)
        → watch_count db q ((watch_for_key c key s).client d).watched_keys
          ≡ watch_count db q (s.client d).watched_keys
            + (if d == c && ((s.client c).db == db && kt.same q key) then 1 else 0)
    unfolding watch_for_key
    watch_list db q d = elim (Bool-cases (d == c)) [
      | inl e ↦
          rw (new, e, (==_iff d c).0 e)
            (rw (watch_count-append db q (s.client c).watched_keys) refl)
      | inr e ↦ rw (new, e) (omega arith)
    ]

    watch_fetch :
        (db : ℕ) (q : K)
        → fetch q ((watch_for_key c key s).watched_keys db) ≡ (
            if (s.client c).db == db && kt.same q key
            then some (watchers s (s.client c).db key ++ c ∷ [])
            else fetch q (s.watched_keys db))
    unfolding watch_for_key
    watch_fetch db q = elim (Bool-cases (db == (s.client c).db)) [
      | inl e ↦ rw (new, e, fetch-put q key, (==_iff db (s.client c).db).0 e) (ground arith)
      | inr e ↦ rw (new, e) (ground arith)
    ]

  pub here : (a b : ℕ) (q key : K) → (a == b && kt.same q key) ≡ true → (a ≡ b) × (q ≡ key)
  here a b q key h = (ground (arith, h), kt.same-eq q key (ground (arith, h)))

  -- Both sides stay in agreement.
  pub watch_for_key-IsServer :
      (c : ℕ) (key : K) (s : Server K) → IsServer s → IsServer (watch_for_key c key s)
  watch_for_key-IsServer c key s v =
      elim (Bool-cases (is_watching (s.client c).db key (s.client c).watched_keys)) [
        | inl old ↦ rw (watch_for_key-old c key s old) v
        | inr new ↦
            let fresh = watch-fresh c key s v new in
            record {
              agree = λ db q d. elim (Bool-cases ((s.client c).db == db && kt.same q key)) [
                | inl e ↦
                    let at = here (s.client c).db db q key e in
                    rw (watch_fetch c key s v new db q, watch_list c key s v new db q d, e)
                      (rw
                        (
                          count-append d (watchers s (s.client c).db key) c,
                          sym at.0,
                          at.1,
                          v.agree (s.client c).db key d,
                        )
                        (ground arith))
                | inr e ↦
                    rw (watch_fetch c key s v new db q, watch_list c key s v new db q d, e)
                      (ground (arith, v.agree db q d))
              ];
              once = λ db q d. elim (Bool-cases ((s.client c).db == db && kt.same q key)) [
                | inl e ↦
                    let at = here (s.client c).db db q key e in
                    rw (watch_list c key s v new db q d, e)
                      (rw (sym at.0, at.1)
                        (elim (Bool-cases (d == c)) [
                          | inl f ↦ rw (f, (==_iff d c).0 f) (omega (arith, fresh))
                          | inr f ↦ rw f (omega (arith, v.once (s.client c).db key d))
                        ]))
                | inr e ↦ rw (watch_list c key s v new db q d, e) (ground (arith, v.once db q d))
              ];
              live = λ db q l h. elim (Bool-cases ((s.client c).db == db && kt.same q key)) [
                | inl e ↦
                    live-append (fetch q ((watch_for_key c key s).watched_keys db)) l
                      (watchers s (s.client c).db key) c
                      (rw (watch_fetch c key s v new db q, e) refl) h
                | inr e ↦ v.live db q l (sym (rw (watch_fetch c key s v new db q, e) refl) ∙ h)
              ];
            }
      ]

  watch_count-after :
      (c : ℕ) (key : K) (s : Server K)
      → IsServer s
      → (db : ℕ) (q : K) (d : ℕ)
      → watch_count db q ((watch_for_key c key s).client d).watched_keys ≡ (
          if d == c && ((s.client c).db == db && kt.same q key)
          then 1
          else watch_count db q (s.client d).watched_keys)
  watch_count-after c key s v db q d =
      elim (Bool-cases (is_watching (s.client c).db key (s.client c).watched_keys)) [
        | inl old ↦
            let there : ltb 0 (watch_count (s.client c).db key (s.client c).watched_keys) ≡ true =
              sym (is_watching_lem (s.client c).db key (s.client c).watched_keys) ∙ old in
            rw (watch_for_key-old c key s old)
              (elim (Bool-cases (d == c && ((s.client c).db == db && kt.same q key))) [
                | inl e ↦
                    let at = here (s.client c).db db q key (ground (arith, e)) in
                    let who : d ≡ c = (==_iff d c).0 (ground (arith, e)) in
                    rw e (
                      rw (who, sym at.0, at.1)
                        (ground (arith, there, v.once (s.client c).db key c)))
                | inr e ↦ rw e refl
              ])
        | inr new ↦ elim (Bool-cases (d == c && ((s.client c).db == db && kt.same q key))) [
          | inl e ↦
              let at = here (s.client c).db db q key (ground (arith, e)) in
              let who : d ≡ c = (==_iff d c).0 (ground (arith, e)) in
              let none_yet : watch_count db q (s.client d).watched_keys ≡ 0 =
                rw (who, sym at.0, at.1) (watch-fresh c key s v new) in
              watch_list c key s v new db q d ∙ (rw (e, none_yet) refl)
          | inr e ↦ watch_list c key s v new db q d ∙ (rw e (omega arith))
        ]
      ]

  -- After `watchForKey` on a server in order the client watches the key in its database exactly
  -- once, whether it did before or not, and every client watches each other key as often as
  -- before; the server stays in order: the list of clients under each key of each database and the
  -- lists of watched keys of the clients agree, no client watches a key twice, and no list in a
  -- dictionary is empty.
  pub watch_for_key-Watches :
      (c : ℕ) (key : K) (s : Server K)
      → IsServer s
      → IsServer (watch_for_key c key s)
        × ((db : ℕ) (q : K) (d : ℕ)
            → watch_count db q ((watch_for_key c key s).client d).watched_keys ≡ (
                if d == c && ((s.client c).db == db && kt.same q key)
                then 1
                else watch_count db q (s.client d).watched_keys))
  watch_for_key-Watches c key s v = (watch_for_key-IsServer c key s v, watch_count-after c key s v)
