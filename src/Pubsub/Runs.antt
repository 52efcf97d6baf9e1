-- ===== src/Pubsub/Runs.antt =====
-- Runs of wrapper/pubsub.c, and its theorems at concrete inputs.
use learnredis.Base.{
  ℕ, ◌+◌, ◌≡◌, refl, Bool, true, false, not, none, some, [], ◌∷◌, ◌++◌, length, ◌==◌, ==_iff,
  if◌then◌else◌, KeyType,
}
use learnredis.Clients.{count}
use learnredis.Pubsub.{
  messagebulk, Hub, has_pattern, delete_pattern, pubsub_subscribe_channel,
  pubsub_unsubscribe_channel, pubsub_subscribe_pattern, pubsub_unsubscribe_pattern,
  pubsub_publish_message,
}
use learnredis.Pubsub.Channels.{
  IsHub, Sets, patterns_of, is_subscribed, pubsub_subscribe_channel-Sets,
  pubsub_unsubscribe_channel-Sets,
}
use learnredis.Pubsub.Patterns.{pubsub_subscribe_pattern_lem, pubsub_unsubscribe_pattern_lem}
use learnredis.Pubsub.Publishing.{received, pmessages, pubsub_publish_message-received}

instance number_channel : KeyType ℕ
number_channel = record {
  same = λ a b. a == b;
  same_refl = λ a. (==_iff a a).1 refl;
  same-eq = λ a b. (==_iff a b).0;
}

abbrev hub : Hub ℕ
hub = record {
  client = λ c. record {
    pubsub_channels = [];
    pubsub_patterns = [];
    pubsub = false;
    force_repl = false;
    argv = [];
  };
  pubsub_channels = [];
  pubsub_patterns = [];
  log = [];
}

hub-IsHub : IsHub hub
unfolding count patterns_of
hub-IsHub = record {
  agree = λ q c. refl;
  live = λ q l h. let no : none ≡ some l = h in cc;
  patterns = λ c. refl;
}

-- Client 1 has the channel 5 and the pattern 6, client 2 the channel 5.
abbrev one : Hub ℕ
one = (pubsub_subscribe_channel 1 5 hub).0

abbrev two : Hub ℕ
two = (pubsub_subscribe_channel 2 5 one).0

abbrev three : Hub ℕ
three = (pubsub_subscribe_pattern 1 6 two).0

one-IsHub : IsHub one
one-IsHub = (pubsub_subscribe_channel-Sets 1 5 hub hub-IsHub).0.valid

two-IsHub : IsHub two
two-IsHub = (pubsub_subscribe_channel-Sets 2 5 one one-IsHub).0.valid

three-IsHub : IsHub three
three-IsHub = (pubsub_subscribe_pattern_lem 1 6 two two-IsHub).0

abbrev matches : ℕ → ℕ → Bool
matches pattern channel = (pattern == channel + 1)

pubsub_subscribe_channel-Sets_example :
    Sets 2 7 true two (pubsub_subscribe_channel 2 7 two).0
    × ((pubsub_subscribe_channel 2 7 two).1 ≡ not (is_subscribed two 2 7))
pubsub_subscribe_channel-Sets_example = pubsub_subscribe_channel-Sets 2 7 two two-IsHub

pubsub_unsubscribe_channel-Sets_example :
    (s' : Hub ℕ) × (pubsub_unsubscribe_channel 1 5 true two ≡ some (s', is_subscribed two 1 5))
    × Sets 1 5 false two s'
pubsub_unsubscribe_channel-Sets_example = pubsub_unsubscribe_channel-Sets 1 5 two two-IsHub true

pubsub_unsubscribe_pattern_lem_example :
    (s' : Hub ℕ) × (pubsub_unsubscribe_pattern 1 6 true three
      ≡ some (s', has_pattern 6 (three.client 1).pubsub_patterns))
    × IsHub s'
    × ((s'.client 1).pubsub_patterns ≡ (
        if has_pattern 6 (three.client 1).pubsub_patterns
        then delete_pattern 6 (three.client 1).pubsub_patterns
        else (three.client 1).pubsub_patterns))
pubsub_unsubscribe_pattern_lem_example = pubsub_unsubscribe_pattern_lem 1 6 true three three-IsHub

pubsub_publish_message-received_example :
    ((c : ℕ)
      → received c (pubsub_publish_message matches 5 99 three).0.log
        ≡ received c three.log
          ++ ((if is_subscribed three c 5 then messagebulk 5 99 ∷ [] else [])
              ++ pmessages matches 5 99 (three.client c).pubsub_patterns))
    × (length (pubsub_publish_message matches 5 99 three).0.log
        ≡ length three.log + (pubsub_publish_message matches 5 99 three).1)
pubsub_publish_message-received_example =
    pubsub_publish_message-received matches 5 99 three three-IsHub
