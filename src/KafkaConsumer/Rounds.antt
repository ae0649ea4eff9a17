-- ===== src/KafkaConsumer/Rounds.antt =====
-- What one round of the consumer leaves, in the events delivered and the commits answered.
use mathlib.Core.List.{append_assoc, append-nil}
use mathlib.Core.Path.{subst}
use high_performance_event_s.Common.{
  ℕ, ◌≡◌, refl, ap, ◌⊎◌, inl, inr, Bool, true, false, String, List, [], ◌∷◌, ◌++◌, Option, some,
  arith, if◌then◌else◌, Bool-cases,
}
use high_performance_event_s.Common.Int.{ℤ}
use high_performance_event_s.Common.Outcome.{Outcome, ok, err, Outcome-cases}
use high_performance_event_s.Domain.Event.{Event}
use high_performance_event_s.KafkaConsumer.{
  Message, Effect, delivered, commit_answered, commit_message, error_sent, error_recorded,
  subscribed_recorded, Consumer, Fetched, message, canceled, failed, Round, noted, Offsets,
  update_offset, handle_fetch_error, handle_deserialization_error, send_event, lets_through,
  process_fetched, process_message,
}

-- The events of a trace that were delivered.
abbrev pub delivered_of : List Effect → List Event
delivered_of [] = []
delivered_of (delivered e ∷ es) = e ∷ delivered_of es
delivered_of (commit_answered m a ∷ es) = delivered_of es
delivered_of (error_sent e ∷ es) = delivered_of es
delivered_of (error_recorded e ∷ es) = delivered_of es
delivered_of (subscribed_recorded ∷ es) = delivered_of es

-- The commits of a trace, with their answers.
abbrev pub commits_of : List Effect → List (Message × Option String)
commits_of [] = []
commits_of (delivered e ∷ es) = commits_of es
commits_of (commit_answered m a ∷ es) = (m, a) ∷ commits_of es
commits_of (error_sent e ∷ es) = commits_of es
commits_of (error_recorded e ∷ es) = commits_of es
commits_of (subscribed_recorded ∷ es) = commits_of es

delivered_of-append :
    (xs ys : List Effect) → delivered_of (xs ++ ys) ≡ delivered_of xs ++ delivered_of ys
delivered_of-append [] ys = refl
delivered_of-append (delivered e ∷ xs) ys = ap (λ l. e ∷ l) (delivered_of-append xs ys)
delivered_of-append (commit_answered m a ∷ xs) ys = delivered_of-append xs ys
delivered_of-append (error_sent e ∷ xs) ys = delivered_of-append xs ys
delivered_of-append (error_recorded e ∷ xs) ys = delivered_of-append xs ys
delivered_of-append (subscribed_recorded ∷ xs) ys = delivered_of-append xs ys

commits_of-append : (xs ys : List Effect) → commits_of (xs ++ ys) ≡ commits_of xs ++ commits_of ys
commits_of-append [] ys = refl
commits_of-append (delivered e ∷ xs) ys = commits_of-append xs ys
commits_of-append (commit_answered m a ∷ xs) ys = ap (λ l. (m, a) ∷ l) (commits_of-append xs ys)
commits_of-append (error_sent e ∷ xs) ys = commits_of-append xs ys
commits_of-append (error_recorded e ∷ xs) ys = commits_of-append xs ys
commits_of-append (subscribed_recorded ∷ xs) ys = commits_of-append xs ys

abbrev pub Decoder : Type 0
Decoder = ℤ → ℤ → List ℕ → Outcome String Event

-- The event of a decoded message, if the filter lets it through.
abbrev pub kept : Option (Event → Bool) → Outcome String Event → List Event
kept f (err e) = []
kept f (ok event) = if lets_through f event then event ∷ [] else []

abbrev pub event_of : Decoder → Option (Event → Bool) → Round → Fetched → List Event
event_of decode f r (message m) = kept f (decode r.timestamp r.created_at m.value)
event_of decode f r canceled = []
event_of decode f r (failed e) = []

abbrev pub commit_asked : Option String → Fetched → List (Message × Option String)
commit_asked answer (message m) = (m, answer) ∷ []
commit_asked answer canceled = []
commit_asked answer (failed e) = []

-- The events of rounds that are decoded and let through.
abbrev pub events_of : Decoder → Option (Event → Bool) → List Round → List Event
events_of decode f [] = []
events_of decode f (r ∷ rs) = event_of decode f r r.fetched ++ events_of decode f rs

-- The messages that rounds fetch, each with what the reader answers to its commit.
abbrev pub commits_asked : List Round → List (Message × Option String)
commits_asked [] = []
commits_asked (r ∷ rs) = commit_asked r.commit_answer r.fetched ++ commits_asked rs

-- A consumer works with this decoder and this filter.
pub record Working (decode : Decoder) (f : Option (Event → Bool)) (c : Consumer) : Type 0 where
  pub decodes : c.serializer ≡ some decode
  pub filters : c.accepts ≡ f
  pub no_panic : c.panicked ≡ false

-- One round is cut short by the end of the context, and then it has delivered nothing and asked for no commit, or
-- it settles what it has fetched.
pub record Settled (decode : Decoder) (f : Option (Event → Bool)) (r : Round) (c c' : Consumer)
    : Type 0 where
  pub works : Working decode f c'
  pub outcome :
      ((c'.ctx_done ≡ true)
        × (r.done_sending ≡ true)
        × (delivered_of c'.effects ≡ delivered_of c.effects)
        × (commits_of c'.effects ≡ commits_of c.effects))
      ⊎ ((c'.ctx_done ≡ c.ctx_done)
          × (delivered_of c'.effects ≡ delivered_of c.effects ++ event_of decode f r r.fetched)
          × (commits_of c'.effects
              ≡ commits_of c.effects ++ commit_asked r.commit_answer r.fetched))

delivered_of-noted : (c : Consumer) (e : String) → delivered_of (noted c (error_recorded e)) ≡ []
delivered_of-noted c e = ground arith

commits_of-noted : (c : Consumer) (e : String) → commits_of (noted c (error_recorded e)) ≡ []
commits_of-noted c e = ground arith

Fetched-cases :
    (x : Fetched)
    → (x ≡ canceled) ⊎ (((e : String) × (x ≡ failed e)) ⊎ ((m : Message) × (x ≡ message m)))
Fetched-cases canceled = inl refl
Fetched-cases (failed e) = inr (inl (e, refl))
Fetched-cases (message m) = inr (inr (m, refl))

module _ (decode : Decoder) (f : Option (Event → Bool)) (r : Round) (c : Consumer) where
  -- A round that is not cut short, from its effects and the offsets it leaves.
  settles :
      (c' : Consumer) (more : List Effect) (os : Offsets)
      → Working decode f c
      → delivered_of more ≡ event_of decode f r r.fetched
      → commits_of more ≡ commit_asked r.commit_answer r.fetched
      → c' ≡ record c { effects = c.effects ++ more; offsets = os }
      → Settled decode f r c c'
  settles c' more os w d k e = record {
    works = record {
      decodes = ground (arith, e, w.decodes);
      filters = ground (arith, e, w.filters);
      no_panic = ground (arith, e, w.no_panic);
    };
    outcome = inr (
      ground (arith, e),
      ground (arith, e, d, delivered_of-append c.effects more),
      ground (arith, e, k, commits_of-append c.effects more),
    );
  }

  cut_short :
      (c' : Consumer) (more : List Effect) (os : Offsets)
      → Working decode f c
      → r.done_sending ≡ true
      → delivered_of more ≡ []
      → commits_of more ≡ []
      → c' ≡ record c { effects = c.effects ++ more; offsets = os; ctx_done = true }
      → Settled decode f r c c'
  cut_short c' more os w s d k e = record {
    works = record {
      decodes = ground (arith, e, w.decodes);
      filters = ground (arith, e, w.filters);
      no_panic = ground (arith, e, w.no_panic);
    };
    outcome = inl (
      ground (arith, e),
      s,
      ground (arith, e, d, delivered_of-append c.effects more, append-nil (delivered_of c.effects)),
      ground (arith, e, k, commits_of-append c.effects more, append-nil (commits_of c.effects)),
    );
  }

  handle_fetch_error-Settled :
      (has_channel : Bool) (e : String)
      → r.fetched ≡ failed e
      → Working decode f c
      → Settled decode f r c (handle_fetch_error has_channel r.done_sending e c)
  unfolding handle_fetch_error
  handle_fetch_error-Settled has_channel e h w =
      let more = noted c (error_recorded "fetch_error") in
      let d = delivered_of-noted c "fetch_error" in
      let k = commits_of-noted c "fetch_error" in
      elim (Bool-cases has_channel) [
        | inr a ↦
            settles _ more c.offsets w (ground (arith, h, d)) (ground (arith, h, k))
              (ground (arith, a))
        | inl a ↦ elim (Bool-cases r.done_sending) [
          | inl b ↦ cut_short _ more c.offsets w b d k (ground (arith, a, b))
          | inr b ↦
              settles _ (error_sent e ∷ more) c.offsets w (ground (arith, h, d))
                (ground (arith, h, k)) (ground (arith, a, b))
        ]
      ]

  process_fetched-Settled :
      (m : Message)
      → r.fetched ≡ message m
      → Working decode f c
      → Settled decode f r c (process_fetched r m c)
  unfolding process_fetched handle_deserialization_error send_event commit_message
  process_fetched-Settled m h w =
      let answer : Outcome String Event = decode r.timestamp r.created_at m.value in
      let kept_offsets = update_offset m.partition m.offset c.offsets in
      elim (Outcome-cases answer) [
        | inr (e, a) ↦
            settles _
              (noted c (error_recorded "deserialization_error")
                ++ commit_answered m r.commit_answer ∷ [])
              c.offsets w (ground (arith, h, a)) (ground (arith, h, a))
              (ground (
                arith,
                w.decodes,
                a,
                append_assoc c.effects (noted c (error_recorded "deserialization_error"))
                    (commit_answered m r.commit_answer ∷ []),
              ))
        | inl (event, a) ↦ elim (Bool-cases (lets_through f event)) [
          | inr b ↦
              settles _ (commit_answered m r.commit_answer ∷ []) c.offsets w
                (ground (arith, h, a, b)) (ground (arith, h, a, b))
                (ground (arith, w.decodes, w.filters, a, b))
          | inl b ↦ elim (Bool-cases r.done_sending) [
            | inl s ↦
                cut_short _ (noted c subscribed_recorded) kept_offsets w s (ground arith)
                  (ground arith) (ground (arith, w.decodes, w.filters, a, b, s))
            | inr s ↦
                settles _
                  (noted c subscribed_recorded
                    ++ delivered event ∷ commit_answered m r.commit_answer ∷ [])
                  kept_offsets w (ground (arith, h, a, b)) (ground (arith, h, a, b))
                  (ground (
                    arith,
                    w.decodes,
                    w.filters,
                    a,
                    b,
                    s,
                    append_assoc c.effects (noted c subscribed_recorded)
                        (delivered event ∷ commit_answered m r.commit_answer ∷ []),
                    append_assoc (c.effects ++ noted c subscribed_recorded) (delivered event ∷ [])
                        (commit_answered m r.commit_answer ∷ []),
                  ))
          ]
        ]
      ]

  pub process_message-Settled :
      (has_channel : Bool)
      → Working decode f c
      → Settled decode f r c (process_message has_channel r c)
  unfolding process_message
  process_message-Settled has_channel w =
      let after = Settled decode f r c in
      elim (Fetched-cases r.fetched) [
        | inl h ↦
            settles _ [] c.offsets w (ground (arith, h)) (ground (arith, h))
              (ground (arith, h, append-nil c.effects))
        | inr (inl (e, h)) ↦
            subst after (ground (arith, h)) (handle_fetch_error-Settled has_channel e h w)
        | inr (inr (m, h)) ↦ subst after (ground (arith, h)) (process_fetched-Settled m h w)
      ]
