-- ===== src/Pubsub/Channels.antt =====
-- The two sides of a subscription in wrapper/pubsub.c: the clients of a channel, and the channels
-- of a client.
use learnredis.Base.{
  ℕ, ◌+◌, ◌<◌, ◌≡◌, refl, sym, ap, ◌∙◌, inl, inr, Bool, true, false, not, ◌&&◌, ◌||◌, Option, none,
  some, List, [], ◌∷◌, arith, length, ◌==◌, ==_iff, if◌then◌else◌, is_some, Bool-cases,
  Option-cases, KeyType, Map, fetch, fetch-put, fetch-remove,
}
use learnredis.Clients.{
  clients_of, count, count-append, count-nil, delete_client_lem, live-append, fetch-store_clients,
  store_clients-live,
}
use learnredis.Pubsub.{
  client_subscriptions_count, unsubscribebulk, PubsubPattern, Message, Hub, add_reply, join_channel,
  leave_channel, notify_unsubscribe, pubsub_subscribe_channel, pubsub_unsubscribe_channel,
  unsubscribe_loop, pubsub_unsubscribe_all_channels, channel_keys,
}

module _ {ℓ} {K : Type ℓ} ⦃kt : KeyType K⦄ where
  abbrev pub subscribers : Hub K → K → List ℕ
  subscribers s channel = clients_of (fetch channel s.pubsub_channels)

  abbrev pub is_subscribed : Hub K → ℕ → K → Bool
  is_subscribed s c channel = is_some (fetch channel (s.client c).pubsub_channels)

  -- The patterns of a client in the server's list
  unfoldable pub patterns_of : ℕ → List (PubsubPattern K) → List K
  patterns_of c [] = []
  patterns_of c (e ∷ es) = if e.client == c then e.pattern ∷ patterns_of c es else patterns_of c es

  -- Both sides agree, for channels and for patterns; no list of clients is empty.
  pub record IsHub (s : Hub K) : Type ℓ where
    pub agree :
        (channel : K) (c : ℕ)
        → count c (subscribers s channel) ≡ (if is_subscribed s c channel then 1 else 0)
    pub live : (channel : K) (l : List ℕ) → fetch channel s.pubsub_channels ≡ some l → 0 < length l
    pub patterns : (c : ℕ) → patterns_of c s.pubsub_patterns ≡ (s.client c).pubsub_patterns

  pub add_reply-IsHub : (c : ℕ) (e : Message K) (s : Hub K) → IsHub s → IsHub (add_reply c e s)
  add_reply-IsHub c e s v = record { agree = v.agree; live = v.live; patterns = v.patterns }

  -- A subscription changes nothing but whether `c` has the channel.
  pub record Sets (c : ℕ) (channel : K) (b : Bool) (s s' : Hub K) : Type ℓ where
    pub valid : IsHub s'
    pub here : is_subscribed s' c channel ≡ b
    pub elsewhere :
        (d : ℕ) (q : K)
        → (d == c && kt.same q channel) ≡ false
        → is_subscribed s' d q ≡ is_subscribed s d q

  module _ (c : ℕ) (channel : K) (s : Hub K) (v : IsHub s) where
    join-subscribed :
        (q : K) (d : ℕ)
        → is_subscribed (join_channel c channel s) d q
          ≡ (if d == c && kt.same q channel then true else is_subscribed s d q)
    join-subscribed q d = elim (Bool-cases (d == c)) [
      | inl e ↦ rw (e, fetch-put q channel, (==_iff d c).0 e) (ground arith)
      | inr e ↦ rw e refl
    ]

    join_channel-IsHub : is_subscribed s c channel ≡ false → IsHub (join_channel c channel s)
    join_channel-IsHub new = record {
      agree = λ q d. elim (Bool-cases (kt.same q channel)) [
        | inl e ↦
            rw (join-subscribed q d, fetch-put q channel, e)
              (rw
                (
                  count-append d (subscribers s channel) c,
                  v.agree channel d,
                  kt.same-eq q channel e,
                )
                (elim (Bool-cases (d == c)) [
                  | inl f ↦ rw ((==_iff d c).0 f, new) (ground arith)
                  | inr f ↦ ground (arith, f)
                ]))
        | inr e ↦ rw (join-subscribed q d, fetch-put q channel, e) (ground (arith, v.agree q d))
      ];
      live = λ q l h. elim (Bool-cases (kt.same q channel)) [
        | inl e ↦
            live-append (fetch q (join_channel c channel s).pubsub_channels) l
              (subscribers s channel) c (rw (fetch-put q channel, e) refl) h
        | inr e ↦ v.live q l (sym (rw (fetch-put q channel, e) refl) ∙ h)
      ];
      patterns = λ d. elim (Bool-cases (d == c)) [
        | inl e ↦ rw (e, v.patterns d, (==_iff d c).0 e) refl
        | inr e ↦ rw (e, v.patterns d) refl
      ];
    }

    -- `pubsubSubscribeChannel` keeps the agreement of the lists of the server and of the clients;
    -- afterwards the client has the channel, no other subscription to a channel has changed, and
    -- the result says whether the client is new to it.
    pub pubsub_subscribe_channel-Sets :
        Sets c channel true s (pubsub_subscribe_channel c channel s).0
        × ((pubsub_subscribe_channel c channel s).1 ≡ not (is_subscribed s c channel))
    unfolding pubsub_subscribe_channel
    pubsub_subscribe_channel-Sets = elim (Bool-cases (is_subscribed s c channel)) [
      | inl old ↦
          rw old (
            record { valid = add_reply-IsHub c _ s v; here = old; elsewhere = λ d q h. refl },
            refl,
          )
      | inr new ↦ rw new (
        record {
          valid = add_reply-IsHub c _ (join_channel c channel s) (join_channel-IsHub new);
          here = join-subscribed channel c ∙ rw (kt.same_refl channel) (ground arith);
          elsewhere = λ d q h. join-subscribed q d ∙ rw h refl;
        },
        refl,
      )
    ]

    leave-subscribed :
        (left : List ℕ) (q : K) (d : ℕ)
        → is_subscribed (leave_channel c channel left s) d q
          ≡ (if d == c && kt.same q channel then false else is_subscribed s d q)
    leave-subscribed left q d = elim (Bool-cases (d == c)) [
      | inl e ↦ rw (e, fetch-remove q channel, (==_iff d c).0 e) (ground arith)
      | inr e ↦ rw e refl
    ]

    leave_channel-IsHub :
        (left : List ℕ)
        → is_subscribed s c channel ≡ true
        → ((d : ℕ) → count d left + (if d == c then 1 else 0) ≡ count d (subscribers s channel))
        → IsHub (leave_channel c channel left s)
    leave_channel-IsHub left old counts = record {
      agree = λ q d. elim (Bool-cases (kt.same q channel)) [
        | inl e ↦
            rw (leave-subscribed left q d, fetch-store_clients q channel left, e)
              (rw (kt.same-eq q channel e) (elim (Bool-cases (d == c)) [
                | inl f ↦
                    rw (f, (==_iff d c).0 f)
                      (ground (arith, counts c, (==_iff c c).1 refl, v.agree channel c, old))
                | inr f ↦ rw f (ground (arith, f, counts d, v.agree channel d))
              ]))
        | inr e ↦
            rw (leave-subscribed left q d, fetch-store_clients q channel left, e)
              (ground (arith, v.agree q d))
      ];
      live = λ q l h. store_clients-live q channel left l s.pubsub_channels (v.live q) h;
      patterns = λ d. elim (Bool-cases (d == c)) [
        | inl e ↦ rw (e, v.patterns d, (==_iff d c).0 e) refl
        | inr e ↦ rw (e, v.patterns d) refl
      ];
    }

    notify-Sets :
        (notify b : Bool) (q : Option K) (t : Hub K)
        → Sets c channel b s t
        → Sets c channel b s (notify_unsubscribe notify c q t)
    notify-Sets true b q t x = record {
      valid = add_reply-IsHub c _ t x.valid;
      here = x.here;
      elsewhere = x.elsewhere;
    }
    notify-Sets false b q t x = x

    -- When the lists of the server and of the clients agree, no assertion of
    -- `pubsubUnsubscribeChannel` fails; afterwards they agree, the client does not have the
    -- channel, no other subscription to a channel has changed, and the result says whether the
    -- client had it.
    pub pubsub_unsubscribe_channel-Sets :
        (notify : Bool)
        → (s' : Hub K) × (pubsub_unsubscribe_channel c channel notify s
            ≡ some (s', is_subscribed s c channel))
          × Sets c channel false s s'
    unfolding pubsub_unsubscribe_channel
    pubsub_unsubscribe_channel-Sets notify = elim (Bool-cases (is_subscribed s c channel)) [
      | inl old ↦ elim (Option-cases (fetch channel s.pubsub_channels)) [
        | inl e ↦ absurd (
            ground (arith, v.agree channel c, old, ap (λ o. count c (clients_of o)) e, count-nil c))
        | inr (l, e) ↦
            let same_list = ap clients_of e in
            let (left, eq, counts) =
              delete_client_lem c l (rw (sym same_list, v.agree channel c, old) (omega arith)) in
            let t = leave_channel c channel left s in
            (
              notify_unsubscribe notify c (some channel) t,
              rw (old, e, eq) refl,
              notify-Sets notify false (some channel) t (record {
                valid = leave_channel-IsHub left old (λ d. rw same_list (counts d));
                here = leave-subscribed left channel c ∙ rw (kt.same_refl channel) (ground arith);
                elsewhere = λ d q h. leave-subscribed left q d ∙ rw h refl;
              }),
            )
      ]
      | inr new ↦ (
        notify_unsubscribe notify c (some channel) s,
        rw new refl,
        notify-Sets notify false (some channel) s
            (record { valid = v; here = new; elsewhere = λ d q h. refl }),
      )
    ]

  among : K → List K → Bool
  among q [] = false
  among q (k ∷ ks) = kt.same q k || among q ks

  fetch-channel_keys :
      (q : K) (m : Map K (Unit {0})) → is_some (fetch q m) ≡ among q (channel_keys m)
  unfolding among channel_keys
  fetch-channel_keys q [] = refl
  fetch-channel_keys q ((k, u) ∷ m) = ground (arith, fetch-channel_keys q m)

  -- What a run of `pubsubUnsubscribeChannel` over some channels leaves.
  record Left (c : ℕ) (l : List K) (s s' : Hub K) : Type ℓ where
    valid : IsHub s'
    mine : (q : K) → is_subscribed s' c q ≡ (is_subscribed s c q && not (among q l))
    theirs : (d : ℕ) (q : K) → (d == c) ≡ false → is_subscribed s' d q ≡ is_subscribed s d q

  unsubscribe_loop-Left :
      (c : ℕ) (l : List K) (notify : Bool) (s : Hub K)
      → IsHub s
      → (s' : Hub K) × (n : ℕ) × (unsubscribe_loop c l notify s ≡ some (s', n)) × Left c l s s'
  unfolding unsubscribe_loop among
  unsubscribe_loop-Left c [] notify s v =
      (s, 0, refl, record { valid = v; mine = λ q. ground arith; theirs = λ d q h. refl })
  unsubscribe_loop-Left c (channel ∷ l) notify s v =
      let (t, eq, x) = pubsub_unsubscribe_channel-Sets c channel s v notify in
      let (s', n, eq', y) = unsubscribe_loop-Left c l notify t x.valid in
      (
        s',
        (if is_subscribed s c channel then 1 else 0) + n,
        rw (eq, eq') refl,
        record {
          valid = y.valid;
          mine = λ q. elim (Bool-cases (kt.same q channel)) [
            | inl e ↦
                rw (y.mine q, kt.same-eq q channel e, x.here, kt.same_refl channel) (ground arith)
            | inr e ↦ rw (y.mine q, x.elsewhere c q (ground (arith, e)), e) refl
          ];
          theirs = λ d q h. y.theirs d q h ∙ x.elsewhere d q (ground (arith, h));
        },
      )

  -- When the lists of the server and of the clients agree, `pubsubUnsubscribeAllChannels` fails no
  -- assertion and keeps the agreement; afterwards the client has no channel and the channels of
  -- the others are as before.
  pub pubsub_unsubscribe_all_channels_lem :
      (c : ℕ) (notify : Bool) (s : Hub K)
      → IsHub s
      → (s' : Hub K) × (n : ℕ) × (pubsub_unsubscribe_all_channels c notify s ≡ some (s', n))
        × IsHub s'
        × ((q : K) → is_subscribed s' c q ≡ false)
        × ((d : ℕ) (q : K) → (d == c) ≡ false → is_subscribed s' d q ≡ is_subscribed s d q)
  unfolding pubsub_unsubscribe_all_channels
  pubsub_unsubscribe_all_channels_lem c notify s v =
      let (t, n, eq, y) =
        unsubscribe_loop-Left c (channel_keys (s.client c).pubsub_channels) notify s v in
      let none_left : (q : K) → is_subscribed t c q ≡ false =
        λ q. y.mine q ∙ rw (fetch-channel_keys q (s.client c).pubsub_channels) (ground arith) in
      elim (Bool-cases (notify && (n == 0))) [
        | inl e ↦
            let e0 = unsubscribebulk none (client_subscriptions_count (t.client c)) in
            let t' = add_reply c e0 t in
            (t', n, rw (eq, e) refl, add_reply-IsHub c e0 t y.valid, none_left, y.theirs)
        | inr e ↦ (t, n, rw (eq, e) refl, y.valid, none_left, y.theirs)
      ]
