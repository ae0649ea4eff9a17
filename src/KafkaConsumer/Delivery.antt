-- ===== src/KafkaConsumer/Delivery.antt =====
-- What the consumer has delivered and asked to commit after any number of rounds.
use mathlib.Core.List.{append_assoc, append-nil}
use mathlib.Core.Path.{subst}
use high_performance_event_s.Common.{
  ℕ, suc, ◌≤◌, ◌≡◌, refl, sym, ap, ◌∙◌, inl, inr, Bool, true, false, ◌||◌, List, [], ◌∷◌, ◌++◌,
  Option, arith, Bool-cases, length, take, All,
}
use high_performance_event_s.Domain.Event.{Event}
use high_performance_event_s.KafkaConsumer.{Consumer, Round, process_message, consume_messages}
use high_performance_event_s.KafkaConsumer.Rounds.{
  delivered_of, commits_of, Decoder, events_of, event_of, commits_asked, commit_asked, Working,
  process_message-Settled,
}

-- Of these rounds the first `n` are settled and no other: exactly their messages are given to the reader
-- to commit, with the answers it gives, and exactly their events delivered, each in order.
pub record Settles (decode : Decoder) (f : Option (Event → Bool)) (rs : List Round)
    (c c' : Consumer) (n : ℕ) : Type 0 where
  pub within : n ≤ length rs
  pub events : delivered_of c'.effects ≡ delivered_of c.effects ++ events_of decode f (take n rs)
  pub messages : commits_of c'.effects ≡ commits_of c.effects ++ commits_asked (take n rs)

module _ (decode : Decoder) (f : Option (Event → Bool)) where
  none_settled :
      (rs : List Round) (c c' : Consumer)
      → delivered_of c'.effects ≡ delivered_of c.effects
      → commits_of c'.effects ≡ commits_of c.effects
      → Settles decode f rs c c' 0
  none_settled rs c c' d k = record {
    within = omega arith;
    events = d ∙ sym (append-nil (delivered_of c.effects));
    messages = k ∙ sym (append-nil (commits_of c.effects));
  }

  one_more :
      (r : Round) (rs : List Round) (c c' c'' : Consumer) (n : ℕ)
      → delivered_of c'.effects ≡ delivered_of c.effects ++ event_of decode f r r.fetched
      → commits_of c'.effects ≡ commits_of c.effects ++ commit_asked r.commit_answer r.fetched
      → Settles decode f rs c' c'' n
      → Settles decode f (r ∷ rs) c c'' (suc n)
  one_more r rs c c' c'' n d k s = record {
    within = omega (arith, s.within);
    events =
        s.events
        ∙ ap (λ l. l ++ events_of decode f (take n rs)) d
        ∙ append_assoc (delivered_of c.effects) (event_of decode f r r.fetched)
            (events_of decode f (take n rs));
    messages =
        s.messages
        ∙ ap (λ l. l ++ commits_asked (take n rs)) k
        ∙ append_assoc (commits_of c.effects) (commit_asked r.commit_answer r.fetched)
            (commits_asked (take n rs));
  }

  -- Once the context is done, nothing more is done.
  consume_messages-done :
      (has_channel : Bool) (rs : List Round) (c : Consumer)
      → c.ctx_done ≡ true
      → (consume_messages has_channel rs c).effects ≡ c.effects
  unfolding consume_messages
  consume_messages-done has_channel [] c h = refl
  consume_messages-done has_channel (r ∷ rs) c h = ground (arith, h)

  -- However the rounds go, whatever is fetched, wherever the context ends and whatever the reader answers
  -- to a commit, the consumer settles a prefix of the rounds: it has asked the reader exactly once to
  -- commit each message that these fetched, in order, and delivered exactly the events of these messages
  -- that decode and that the filter lets through, in order. So no commit is asked for a message whose event
  -- is accepted and was not delivered, and a commit that fails is not tried again.
  pub consume_messages-Settles :
      (has_channel : Bool) (rs : List Round) (c : Consumer)
      → Working decode f c
      → (n : ℕ) × Settles decode f rs c (consume_messages has_channel rs c) n
  unfolding consume_messages
  consume_messages-Settles has_channel [] c w = (0, none_settled [] c c refl refl)
  consume_messages-Settles has_channel (r ∷ rs) c w =
      let c' = process_message has_channel r c in
      let s = process_message-Settled decode f r c has_channel w in
      let rest = consume_messages-Settles has_channel rs c' s.works in
      elim (Bool-cases (c.ctx_done || r.done_before)) [
        | inl h ↦ (
          0,
          none_settled (r ∷ rs) c _ (ground (arith, h, w.no_panic)) (ground (arith, h, w.no_panic)),
        )
        | inr h ↦ elim (s.outcome) [
          | inr (x, d, k) ↦ (
            suc rest.0,
            subst (λ x. Settles decode f (r ∷ rs) c x (suc rest.0)) (ground (arith, h, w.no_panic))
                (one_more r rs c c' (consume_messages has_channel rs c') rest.0 d k rest.1),
          )
          | inl (x, y, d, k) ↦ (
            0,
            none_settled (r ∷ rs) c _
                (ground (arith, h, w.no_panic, consume_messages-done has_channel rs c' x, d))
                (ground (arith, h, w.no_panic, consume_messages-done has_channel rs c' x, k)),
          )
        ]
      ]

  -- Where the context lasts, all rounds are settled: the reader is asked once to commit every message, a
  -- commit that it refuses included, and every event that decodes and passes the filter is delivered, in
  -- order, whatever the reader answers.
  pub consume_messages_complete :
      (has_channel : Bool) (rs : List Round) (c : Consumer)
      → Working decode f c
      → c.ctx_done ≡ false
      → All (λ r. (r.done_before ≡ false) × (r.done_sending ≡ false)) rs
      → Settles decode f rs c (consume_messages has_channel rs c) (length rs)
  unfolding consume_messages
  consume_messages_complete has_channel [] c w o a = none_settled [] c c refl refl
  consume_messages_complete has_channel (r ∷ rs) c w o a =
      let c' = process_message has_channel r c in
      let s = process_message-Settled decode f r c has_channel w in
      elim (s.outcome) [
        | inl (x, y, d, k) ↦ absurd (ground (arith, y, a.0.1))
        | inr (x, d, k) ↦
            subst (λ z. Settles decode f (r ∷ rs) c z (suc (length rs)))
              (ground (arith, o, a.0.0, w.no_panic))
              (one_more r rs c c' (consume_messages has_channel rs c') (length rs) d k
                (consume_messages_complete has_channel rs c' s.works (x ∙ o) a.1))
      ]
