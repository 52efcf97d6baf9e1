-- ===== src/Pubsub.antt =====
-- wrapper/pubsub.c: channels, patterns and the messages that are published to them.
-- Clients are numbers, as in Clients. The dictionary of a client's channels has no values. The log
-- lists the replies with their receivers, the newest last. `none` is a failed assert or a null
-- pointer. `stringmatchlen` of tool/util.c and `strcasecmp` are parameters; the order in which an
-- iterator runs through a dictionary is that of the list of bindings.
pub mod Channels
pub mod Patterns
pub mod Publishing
mod Runs
use learnredis.Base.{
  ℕ, zero, suc, ◌+◌, ◌-◌, ◌*◌, ◌≡◌, Bool, true, false, not, ◌&&◌, ◌||◌, Option, none, some, List,
  [], ◌∷◌, ◌++◌, map, length, ◌==◌, leb, if◌then◌else◌, is_some, ◌>>=◌, KeyType, Map, fetch, put,
  remove, update,
}
use learnredis.Clients.{clients_of, delete_client, store_clients}

-- `pubsubPattern`
pub record PubsubPattern {ℓ} (K : Type ℓ) : Type ℓ where
  pub client : ℕ
  pub pattern : K

-- `redisClient`: the fields that wrapper/pubsub.c uses, and the flags REDIS_PUBSUB and
-- REDIS_FORCE_REPL.
pub record Subscriber {ℓ} (K : Type ℓ) : Type ℓ where
  pub pubsub_channels : Map K (Unit {0})
  pub pubsub_patterns : List K
  pub pubsub : Bool
  pub force_repl : Bool
  pub argv : List K

-- The replies, which are `mbulkhdr` with the name and the parts that follow it.
pub data Message {ℓ} (K : Type ℓ) : Type ℓ where
  subscribebulk psubscribebulk : K → ℕ → Message K
  unsubscribebulk punsubscribebulk : Option K → ℕ → Message K
  messagebulk : K → K → Message K
  pmessagebulk : K → K → K → Message K
  long_long : ℕ → Message K
  channel_list : List K → Message K
  channel_counts : List (K × ℕ) → Message K
  unknown_subcommand : K → Message K

-- The sub-command, as `strcasecmp` recognises its name
pub data Subcommand : Type 0 where
  channels numsub numpat other_name : Subcommand

-- `redisServer`
pub record Hub {ℓ} (K : Type ℓ) : Type ℓ where
  pub client : ℕ → Subscriber K
  pub pubsub_channels : Map K (List ℕ)
  pub pubsub_patterns : List (PubsubPattern K)
  pub log : List (ℕ × Message K)

module _ {ℓ} {K : Type ℓ} where
  abbrev pub alter : ℕ → (Subscriber K → Subscriber K) → Hub K → Hub K
  alter c f s = record s { client = update s.client c (f (s.client c)) }

  abbrev pub add_reply : ℕ → Message K → Hub K → Hub K
  add_reply c e s = record s { log = s.log ++ (c, e) ∷ [] }

  abbrev pub client_subscriptions_count : Subscriber K → ℕ
  client_subscriptions_count cl = length cl.pubsub_channels + length cl.pubsub_patterns

  pub channel_keys : Map K (Unit {0}) → List K
  channel_keys [] = []
  channel_keys ((k, u) ∷ m) = k ∷ channel_keys m

  abbrev pub arguments : List K → List K
  arguments [] = []
  arguments (name ∷ args) = args

module _ {ℓ} {K : Type ℓ} ⦃kt : KeyType K⦄ where
  abbrev pub join_channel : ℕ → K → Hub K → Hub K
  join_channel c channel s = record s {
    client =
        update s.client c
          (record (s.client c) { pubsub_channels = put channel tt (s.client c).pubsub_channels });
    pubsub_channels =
        put channel (clients_of (fetch channel s.pubsub_channels) ++ c ∷ []) s.pubsub_channels;
  }

  abbrev pub notify_subscribe : ℕ → K → Hub K → Hub K
  notify_subscribe c channel s =
      add_reply c (subscribebulk channel (client_subscriptions_count (s.client c))) s

  -- The result says whether the client is new to the channel.
  unfoldable pub pubsub_subscribe_channel : ℕ → K → Hub K → Hub K × Bool
  pubsub_subscribe_channel c channel s =
      if is_some (fetch channel (s.client c).pubsub_channels)
      then (notify_subscribe c channel s, false)
      else (notify_subscribe c channel (join_channel c channel s), true)

  abbrev pub leave_channel : ℕ → K → List ℕ → Hub K → Hub K
  leave_channel c channel left s = record s {
    client =
        update s.client c
          (record (s.client c) { pubsub_channels = remove channel (s.client c).pubsub_channels });
    pubsub_channels = store_clients channel left s.pubsub_channels;
  }

  abbrev pub notify_unsubscribe : Bool → ℕ → Option K → Hub K → Hub K
  notify_unsubscribe notify c channel s =
      if notify
      then add_reply c (unsubscribebulk channel (client_subscriptions_count (s.client c))) s
      else s

  unfoldable pub pubsub_unsubscribe_channel : ℕ → K → Bool → Hub K → Option (Hub K × Bool)
  pubsub_unsubscribe_channel c channel notify s =
      if is_some (fetch channel (s.client c).pubsub_channels)
      then (do
        clients ← fetch channel s.pubsub_channels
        left ← delete_client c clients
        some (notify_unsubscribe notify c (some channel) (leave_channel c channel left s), true))
      else some (notify_unsubscribe notify c (some channel) s, false)

  -- `listSearchKey` in a list of patterns
  unfoldable pub has_pattern : K → List K → Bool
  has_pattern pattern [] = false
  has_pattern pattern (p ∷ ps) = if kt.same p pattern then true else has_pattern pattern ps

  abbrev pub notify_psubscribe : ℕ → K → Hub K → Hub K
  notify_psubscribe c pattern s =
      add_reply c (psubscribebulk pattern (client_subscriptions_count (s.client c))) s

  abbrev pub join_pattern : ℕ → K → Hub K → Hub K
  join_pattern c pattern s = record s {
    client =
        update s.client c
          (record (s.client c) { pubsub_patterns = (s.client c).pubsub_patterns ++ pattern ∷ [] });
    pubsub_patterns = s.pubsub_patterns ++ record { client = c; pattern = pattern } ∷ [];
  }

  unfoldable pub pubsub_subscribe_pattern : ℕ → K → Hub K → Hub K × Bool
  pubsub_subscribe_pattern c pattern s =
      if has_pattern pattern (s.client c).pubsub_patterns
      then (notify_psubscribe c pattern s, false)
      else (notify_psubscribe c pattern (join_pattern c pattern s), true)

  -- `listDelNode` at the node that `listSearchKey` found
  unfoldable pub delete_pattern : K → List K → List K
  delete_pattern pattern [] = []
  delete_pattern pattern (p ∷ ps) = if kt.same p pattern then ps else p ∷ delete_pattern pattern ps

  -- The same in the server's list, by `listMatchPubsubPattern`.
  unfoldable pub delete_entry : ℕ → K → List (PubsubPattern K) → Option (List (PubsubPattern K))
  delete_entry c pattern [] = none
  delete_entry c pattern (e ∷ es) =
      if e.client == c && kt.same e.pattern pattern
      then some es
      else (do es' ← delete_entry c pattern es; some (e ∷ es'))

  abbrev pub leave_pattern : ℕ → K → List (PubsubPattern K) → Hub K → Hub K
  leave_pattern c pattern left s = record s {
    client = update s.client c (record (s.client c) {
      pubsub_patterns = delete_pattern pattern (s.client c).pubsub_patterns;
    });
    pubsub_patterns = left;
  }

  abbrev pub notify_punsubscribe : Bool → ℕ → Option K → Hub K → Hub K
  notify_punsubscribe notify c pattern s =
      if notify
      then add_reply c (punsubscribebulk pattern (client_subscriptions_count (s.client c))) s
      else s

  unfoldable pub pubsub_unsubscribe_pattern : ℕ → K → Bool → Hub K → Option (Hub K × Bool)
  pubsub_unsubscribe_pattern c pattern notify s =
      if has_pattern pattern (s.client c).pubsub_patterns
      then (do
        left ← delete_entry c pattern s.pubsub_patterns
        some (notify_punsubscribe notify c (some pattern) (leave_pattern c pattern left s), true))
      else some (notify_punsubscribe notify c (some pattern) s, false)

  pub unsubscribe_loop : ℕ → List K → Bool → Hub K → Option (Hub K × ℕ)
  unsubscribe_loop c [] notify s = some (s, 0)
  unsubscribe_loop c (channel ∷ l) notify s = do
    r ← pubsub_unsubscribe_channel c channel notify s
    r' ← unsubscribe_loop c l notify r.0
    some (r'.0, (if r.1 then 1 else 0) + r'.1)

  unfoldable pub pubsub_unsubscribe_all_channels : ℕ → Bool → Hub K → Option (Hub K × ℕ)
  pubsub_unsubscribe_all_channels c notify s = do
    r ← unsubscribe_loop c (channel_keys (s.client c).pubsub_channels) notify s
    some (notify_unsubscribe (notify && (r.1 == 0)) c none r.0, r.1)

  pub punsubscribe_loop : ℕ → List K → Bool → Hub K → Option (Hub K × ℕ)
  punsubscribe_loop c [] notify s = some (s, 0)
  punsubscribe_loop c (pattern ∷ l) notify s = do
    r ← pubsub_unsubscribe_pattern c pattern notify s
    r' ← punsubscribe_loop c l notify r.0
    some (r'.0, (if r.1 then 1 else 0) + r'.1)

  unfoldable pub pubsub_unsubscribe_all_patterns : ℕ → Bool → Hub K → Option (Hub K × ℕ)
  pubsub_unsubscribe_all_patterns c notify s = do
    r ← punsubscribe_loop c (s.client c).pubsub_patterns notify s
    some (notify_punsubscribe (notify && (r.1 == 0)) c none r.0, r.1)

  -- The messages to the clients of the channel.
  pub to_clients : K → K → List ℕ → List (ℕ × Message K)
  to_clients channel message [] = []
  to_clients channel message (c ∷ l) =
      (c, messagebulk channel message) ∷ to_clients channel message l

  module _ (stringmatchlen : K → K → Bool) where
    -- The messages to the clients of the patterns that match.
    pub to_patterns : K → K → List (PubsubPattern K) → List (ℕ × Message K)
    to_patterns channel message [] = []
    to_patterns channel message (pat ∷ l) =
        let rest = to_patterns channel message l in
        if stringmatchlen pat.pattern channel
        then (pat.client, pmessagebulk pat.pattern channel message) ∷ rest
        else rest

    -- The number of receivers is counted with the messages.
    unfoldable pub pubsub_publish_message : K → K → Hub K → Hub K × ℕ
    pubsub_publish_message channel message s =
        let sent = to_clients channel message (clients_of (fetch channel s.pubsub_channels)) in
        let psent = to_patterns channel message s.pubsub_patterns in
        (record s { log = (s.log ++ sent) ++ psent }, length sent + length psent)

    unfoldable pub publish_command : ℕ → K → K → Hub K → Hub K
    publish_command c channel message s =
        let r = pubsub_publish_message channel message s in
        add_reply c (long_long r.1) (alter c (λ cl. record cl { force_repl = true }) r.0)

    pub matching_channels : Option K → Map K (List ℕ) → List K
    matching_channels pat [] = []
    matching_channels none ((k, l) ∷ m) = k ∷ matching_channels none m
    matching_channels (some pat) ((k, l) ∷ m) =
        let rest = matching_channels (some pat) m in if stringmatchlen pat k then k ∷ rest else rest

  pub subscriber_counts : List K → Map K (List ℕ) → List (K × ℕ)
  subscriber_counts [] m = []
  subscriber_counts (k ∷ ks) m = (k, length (clients_of (fetch k m))) ∷ subscriber_counts ks m

  pub subscribe_loop : ℕ → List K → Hub K → Hub K
  subscribe_loop c [] s = s
  subscribe_loop c (channel ∷ l) s = subscribe_loop c l (pubsub_subscribe_channel c channel s).0

  unfoldable pub subscribe_command : ℕ → Hub K → Hub K
  subscribe_command c s =
      alter c (λ cl. record cl { pubsub = true }) (subscribe_loop c (arguments (s.client c).argv) s)

  pub psubscribe_loop : ℕ → List K → Hub K → Hub K
  psubscribe_loop c [] s = s
  psubscribe_loop c (pattern ∷ l) s = psubscribe_loop c l (pubsub_subscribe_pattern c pattern s).0

  unfoldable pub psubscribe_command : ℕ → Hub K → Hub K
  psubscribe_command c s =
      alter c (λ cl. record cl { pubsub = true })
        (psubscribe_loop c (arguments (s.client c).argv) s)

  -- `if (clientSubscriptionsCount(c) == 0) c->flags &= ~REDIS_PUBSUB;`
  abbrev pub clear_pubsub : Subscriber K → Subscriber K
  clear_pubsub cl = record cl {
    pubsub = if client_subscriptions_count cl == 0 then false else cl.pubsub;
  }

  unfoldable pub unsubscribe_command : ℕ → Hub K → Option (Hub K)
  unsubscribe_command c s =
      let args = (s.client c).argv in
      do
        r ←
            if length args == 1
            then pubsub_unsubscribe_all_channels c true s
            else unsubscribe_loop c (arguments args) true s
        some (alter c clear_pubsub r.0)

  unfoldable pub punsubscribe_command : ℕ → Hub K → Option (Hub K)
  punsubscribe_command c s =
      let args = (s.client c).argv in
      do
        r ←
            if length args == 1
            then pubsub_unsubscribe_all_patterns c true s
            else punsubscribe_loop c (arguments args) true s
        some (alter c clear_pubsub r.0)

  module _ (stringmatchlen : K → K → Bool) where
    -- `args` is what follows the name of the sub-command.
    pub pubsub_command : ℕ → Subcommand → K → List K → Hub K → Hub K
    pubsub_command c channels name [] s =
        add_reply c (channel_list (matching_channels stringmatchlen none s.pubsub_channels)) s
    pubsub_command c channels name (pat ∷ []) s =
        add_reply c (channel_list (matching_channels stringmatchlen (some pat) s.pubsub_channels)) s
    pubsub_command c channels name (pat ∷ q ∷ args) s = add_reply c (unknown_subcommand name) s
    pubsub_command c numsub name args s =
        add_reply c (channel_counts (subscriber_counts args s.pubsub_channels)) s
    pubsub_command c numpat name [] s = add_reply c (long_long (length s.pubsub_patterns)) s
    pubsub_command c numpat name (a ∷ args) s = add_reply c (unknown_subcommand name) s
    pubsub_command c other_name name args s = add_reply c (unknown_subcommand name) s
