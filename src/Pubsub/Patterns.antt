-- ===== src/Pubsub/Patterns.antt =====
-- The patterns of wrapper/pubsub.c: the server's list and the lists of the clients.
use learnredis.Base.{
  ℕ, ◌≡◌, refl, sym, ap, ◌∙◌, inl, inr, Bool, true, false, Option, some, List, [], ◌∷◌, ◌++◌, arith,
  ◌==◌, ==_iff, if◌then◌else◌, Bool-cases, KeyType, update_self,
}
use learnredis.Pubsub.{
  PubsubPattern, Subscriber, Hub, has_pattern, delete_pattern, delete_entry, join_pattern,
  leave_pattern, notify_punsubscribe, pubsub_subscribe_pattern, pubsub_unsubscribe_pattern,
}
use learnredis.Pubsub.Channels.{IsHub, patterns_of, add_reply-IsHub}

other : (d a c : ℕ) → (d == c) ≡ false → (a == c) ≡ true → (a == d) ≡ false
other d a c h e = ground (arith, h, e)

different : (d c : ℕ) → (d == c) ≡ false → (c == d) ≡ false
different d c h = ground (arith, h)

module _ {ℓ} {K : Type ℓ} ⦃kt : KeyType K⦄ where
  patterns_of-append :
      (d c : ℕ) (pattern : K) (es : List (PubsubPattern K))
      → patterns_of d (es ++ record { client = c; pattern = pattern } ∷ [])
        ≡ (if c == d then patterns_of d es ++ pattern ∷ [] else patterns_of d es)
  unfolding patterns_of
  patterns_of-append d c pattern [] = refl
  patterns_of-append d c pattern (e ∷ es) =
      rw (patterns_of-append d c pattern es) (elim (Bool-cases (e.client == d)) [
        | inl f ↦ rw f (elim (Bool-cases (c == d)) [ inl g ↦ rw g refl | inr g ↦ rw g refl ])
        | inr f ↦ rw f refl
      ])

  -- The server's entry of the client is the one that the client's list loses.
  delete_entry_lem :
      (c : ℕ) (pattern : K) (es : List (PubsubPattern K))
      → has_pattern pattern (patterns_of c es) ≡ true
      → (left : List (PubsubPattern K)) × (delete_entry c pattern es ≡ some left)
        × (patterns_of c left ≡ delete_pattern pattern (patterns_of c es))
        × ((d : ℕ) → (d == c) ≡ false → patterns_of d left ≡ patterns_of d es)
  unfolding patterns_of has_pattern delete_entry delete_pattern
  delete_entry_lem c pattern [] h = absurd (ground (arith, h))
  delete_entry_lem c pattern (e ∷ es) h = elim (Bool-cases (e.client == c)) [
    | inr f ↦
        let h' : has_pattern pattern (patterns_of c es) ≡ true = sym (rw f refl) ∙ h in
        let (left, eq, mine, theirs) = delete_entry_lem c pattern es h' in
        (e ∷ left, rw (f, eq) refl, rw (f, mine) refl, λ d g. rw (theirs d g) refl)
    | inl f ↦ elim (Bool-cases (kt.same e.pattern pattern)) [
      | inl g ↦ (es, rw (f, g) refl, rw (f, g) refl, λ d o. rw (other d e.client c o f) refl)
      | inr g ↦
          let h' : has_pattern pattern (patterns_of c es) ≡ true = sym (rw (f, g) refl) ∙ h in
          let (left, eq, mine, theirs) = delete_entry_lem c pattern es h' in
          (e ∷ left, rw (f, g, eq) refl, rw (f, g, mine) refl, λ d o. rw (theirs d o) refl)
    ]
  ]

  notify-IsHub :
      (c : ℕ) (notify : Bool) (q : Option K) (s : Hub K)
      → IsHub s
      → IsHub (notify_punsubscribe notify c q s)
  notify-IsHub c true q s v = add_reply-IsHub c _ s v
  notify-IsHub c false q s v = v

  notify-patterns :
      (c : ℕ) (notify : Bool) (q : Option K) (s : Hub K)
      → ((notify_punsubscribe notify c q s).client c).pubsub_patterns ≡ (s.client c).pubsub_patterns
  notify-patterns c true q s = refl
  notify-patterns c false q s = refl

  join_pattern-IsHub :
      (c : ℕ) (pattern : K) (s : Hub K) → IsHub s → IsHub (join_pattern c pattern s)
  join_pattern-IsHub c pattern s v = record {
    agree = λ q d. elim (Bool-cases (d == c)) [
      | inl e ↦ rw (e, v.agree q d, (==_iff d c).0 e) refl
      | inr e ↦ rw (e, v.agree q d) refl
    ];
    live = v.live;
    patterns = λ d. elim (Bool-cases (d == c)) [
      | inl e ↦
          rw (e, patterns_of-append d c pattern s.pubsub_patterns, v.patterns d, (==_iff d c).0 e)
            (rw ((==_iff c c).1 refl) refl)
      | inr e ↦
          rw (e, patterns_of-append d c pattern s.pubsub_patterns, v.patterns d)
            (rw (different d c e) refl)
    ];
  }

  leave_pattern-IsHub :
      (c : ℕ) (pattern : K) (left : List (PubsubPattern K)) (s : Hub K)
      → IsHub s
      → patterns_of c left ≡ delete_pattern pattern (patterns_of c s.pubsub_patterns)
      → ((d : ℕ) → (d == c) ≡ false → patterns_of d left ≡ patterns_of d s.pubsub_patterns)
      → IsHub (leave_pattern c pattern left s)
  leave_pattern-IsHub c pattern left s v mine theirs = record {
    agree = λ q d. elim (Bool-cases (d == c)) [
      | inl e ↦ rw (e, v.agree q d, (==_iff d c).0 e) refl
      | inr e ↦ rw (e, v.agree q d) refl
    ];
    live = v.live;
    patterns = λ d. elim (Bool-cases (d == c)) [
      | inl e ↦ rw (e, (==_iff d c).0 e) (mine ∙ ap (delete_pattern pattern) (v.patterns c))
      | inr e ↦ rw e (theirs d e ∙ v.patterns d)
    ];
  }

  -- `pubsubSubscribePattern` keeps the agreement of the lists of the server and of the clients,
  -- and adds the pattern at the end of the client's list unless an equal one is there.
  pub pubsub_subscribe_pattern_lem :
      (c : ℕ) (pattern : K) (s : Hub K)
      → IsHub s
      → IsHub (pubsub_subscribe_pattern c pattern s).0
        × (((pubsub_subscribe_pattern c pattern s).0.client c).pubsub_patterns ≡ (
            if has_pattern pattern (s.client c).pubsub_patterns
            then (s.client c).pubsub_patterns
            else (s.client c).pubsub_patterns ++ pattern ∷ []))
  unfolding pubsub_subscribe_pattern
  pubsub_subscribe_pattern_lem c pattern s v =
      elim (Bool-cases (has_pattern pattern (s.client c).pubsub_patterns)) [
        | inl e ↦ rw e (add_reply-IsHub c _ s v, refl)
        | inr e ↦ rw e (
          add_reply-IsHub c _ (join_pattern c pattern s) (join_pattern-IsHub c pattern s v),
          rw ((==_iff c c).1 refl) refl,
        )
      ]

  -- When the lists of the server and of the clients agree, `pubsubUnsubscribePattern` finds the
  -- entry that it deletes from the server's list, and the lists agree afterwards; the client's
  -- list has lost the first equal pattern, if there was one, and the result says whether there
  -- was.
  pub pubsub_unsubscribe_pattern_lem :
      (c : ℕ) (pattern : K) (notify : Bool) (s : Hub K)
      → IsHub s
      → (s' : Hub K) × (pubsub_unsubscribe_pattern c pattern notify s
          ≡ some (s', has_pattern pattern (s.client c).pubsub_patterns))
        × IsHub s'
        × ((s'.client c).pubsub_patterns ≡ (
            if has_pattern pattern (s.client c).pubsub_patterns
            then delete_pattern pattern (s.client c).pubsub_patterns
            else (s.client c).pubsub_patterns))
  unfolding pubsub_unsubscribe_pattern
  pubsub_unsubscribe_pattern_lem c pattern notify s v =
      elim (Bool-cases (has_pattern pattern (s.client c).pubsub_patterns)) [
        | inl e ↦
            let (left, eq, mine, theirs) =
              delete_entry_lem c pattern s.pubsub_patterns (rw (v.patterns c) e) in
            let t = leave_pattern c pattern left s in
            (
              notify_punsubscribe notify c (some pattern) t,
              rw (e, eq) refl,
              notify-IsHub c notify (some pattern) t
                  (leave_pattern-IsHub c pattern left s v mine theirs),
              rw e (
                  notify-patterns c notify (some pattern) t
                  ∙ ap (λ (x : Subscriber K). x.pubsub_patterns) (update_self s.client c _)),
            )
        | inr e ↦ (
          notify_punsubscribe notify c (some pattern) s,
          rw e refl,
          notify-IsHub c notify (some pattern) s v,
          rw e (notify-patterns c notify (some pattern) s),
        )
      ]
