-- ===== src/Pubsub/Publishing.antt =====
-- `pubsubPublishMessage` of wrapper/pubsub.c: who receives a message, and how often.
use learnredis.Base.{
  ℕ, zero, suc, ◌+◌, ◌≡◌, refl, sym, ap, ◌∙◌, inl, inr, Bool, true, false, List, [], ◌∷◌, ◌++◌,
  arith, length, length-append, ◌==◌, if◌then◌else◌, Bool-cases, KeyType, append_assoc,
}
use learnredis.Clients.{count}
use learnredis.Pubsub.{
  PubsubPattern, Message, messagebulk, pmessagebulk, Hub, to_clients, to_patterns,
  pubsub_publish_message,
}
use learnredis.Pubsub.Channels.{IsHub, patterns_of, subscribers, is_subscribed}

module _ {ℓ} {K : Type ℓ} where
  -- What the client `c` finds in its output
  pub received : ℕ → List (ℕ × Message K) → List (Message K)
  received c [] = []
  received c ((d, e) ∷ l) = if d == c then e ∷ received c l else received c l

  received-append :
      (c : ℕ) (l l' : List (ℕ × Message K)) → received c (l ++ l') ≡ received c l ++ received c l'
  unfolding received
  received-append c [] l' = refl
  received-append c ((d, e) ∷ l) l' = elim (Bool-cases (d == c)) [
    | inl f ↦ rw (f, received-append c l l') refl
    | inr f ↦ rw (f, received-append c l l') refl
  ]

  copies : ℕ → Message K → List (Message K)
  copies zero e = []
  copies (suc n) e = e ∷ copies n e

  copies_none : (n : ℕ) (e : Message K) → copies (0 + n) e ≡ copies n e
  copies_none n e = let p : 0 + n ≡ n = omega arith in ap (λ k. copies k e) p

  copies_more : (n : ℕ) (e : Message K) → copies (1 + n) e ≡ e ∷ copies n e
  unfolding copies
  copies_more n e = let p : 1 + n ≡ suc n = omega arith in ap (λ k. copies k e) p

  copies_if :
      (b : Bool) (e : Message K) → copies (if b then 1 else 0) e ≡ (if b then e ∷ [] else [])
  unfolding copies
  copies_if true e = refl
  copies_if false e = refl

  -- What a client's own patterns call for
  pub pmessages : (K → K → Bool) → K → K → List K → List (Message K)
  pmessages matches channel message [] = []
  pmessages matches channel message (p ∷ ps) =
      let rest = pmessages matches channel message ps in
      if matches p channel then pmessagebulk p channel message ∷ rest else rest

module _ {ℓ} {K : Type ℓ} ⦃kt : KeyType K⦄ where
  received-to_clients :
      (c : ℕ) (channel message : K) (l : List ℕ)
      → received c (to_clients channel message l) ≡ copies (count c l) (messagebulk channel message)
  unfolding received to_clients count copies
  received-to_clients c channel message [] = refl
  received-to_clients c channel message (d ∷ l) = elim (Bool-cases (d == c)) [
    | inl f ↦
        rw (f, received-to_clients c channel message l)
          (sym (copies_more (count c l) (messagebulk channel message)))
    | inr f ↦
        rw (f, received-to_clients c channel message l)
          (sym (copies_none (count c l) (messagebulk channel message)))
  ]

  received-to_patterns :
      (matches : K → K → Bool) (c : ℕ) (channel message : K) (es : List (PubsubPattern K))
      → received c (to_patterns matches channel message es)
        ≡ pmessages matches channel message (patterns_of c es)
  unfolding received to_patterns patterns_of pmessages
  received-to_patterns matches c channel message [] = refl
  received-to_patterns matches c channel message (e ∷ es) =
      let ih = received-to_patterns matches c channel message es in
      elim (Bool-cases (matches e.pattern channel)) [
        | inl g ↦ elim (Bool-cases (e.client == c)) [
          | inl f ↦ rw (g, f, g, ih) refl
          | inr f ↦ rw (g, f, ih) refl
        ]
        | inr g ↦ elim (Bool-cases (e.client == c)) [
          | inl f ↦ rw (g, f, g, ih) refl
          | inr f ↦ rw (g, f, ih) refl
        ]
      ]

  -- When the lists of the server and of the clients agree, `pubsubPublishMessage` sends to every
  -- client just one message if it has the channel, followed by one for each of its own patterns
  -- that matches, in their order, and nothing else; the number it returns is that of all messages
  -- sent.
  pub pubsub_publish_message-received :
      (stringmatchlen : K → K → Bool) (channel message : K) (s : Hub K)
      → IsHub s
      → ((c : ℕ)
          → received c (pubsub_publish_message stringmatchlen channel message s).0.log
            ≡ received c s.log
              ++ ((if is_subscribed s c channel then messagebulk channel message ∷ [] else [])
                  ++ pmessages stringmatchlen channel message (s.client c).pubsub_patterns))
        × (length (pubsub_publish_message stringmatchlen channel message s).0.log
            ≡ length s.log + (pubsub_publish_message stringmatchlen channel message s).1)
  unfolding pubsub_publish_message
  pubsub_publish_message-received matches channel message s v =
      let sent = to_clients channel message (subscribers s channel) in
      let psent = to_patterns matches channel message s.pubsub_patterns in
      (
        λ c.
            received-append c (s.log ++ sent) psent
            ∙ ap (λ l. l ++ received c psent) (received-append c s.log sent)
            ∙ append_assoc (received c s.log) (received c sent) (received c psent)
            ∙ ap (λ l. received c s.log ++ (l ++ received c psent))
                (received-to_clients c channel message (subscribers s channel)
                  ∙ ap (λ n. copies n (messagebulk channel message)) (v.agree channel c)
                  ∙ copies_if (is_subscribed s c channel) (messagebulk channel message))
            ∙ ap
                (λ l.
                  received c s.log
                  ++ ((if is_subscribed s c channel then messagebulk channel message ∷ [] else [])
                      ++ l))
                (received-to_patterns matches c channel message s.pubsub_patterns
                  ∙ ap (pmessages matches channel message) (v.patterns c)),
        omega (arith, length-append (s.log ++ sent) psent, length-append s.log sent),
      )
