-- ===== src/Replay/Streams.antt =====
-- What a replay sends: a prefix of the events that were found, and all of them where nothing ends it.
use native.Mathlib.Nat.{zero-div}
use high_performance_event_s.Common.{
  ℕ, zero, suc, ◌+◌, ◌-◌, ◌/◌, ◌%◌, ◌<◌, ◌≤◌, ◌≡◌, refl, ap, inl, inr, false, String, List, [], ◌∷◌,
  length, take, ltb, ◌==◌, arith, if◌then◌else◌, Bool-cases, All,
}
use high_performance_event_s.Common.Int.{ℤ, pos, negsuc, leb_ℤ}
use high_performance_event_s.Common.Outcome.{Outcome, ok, err, Outcome-cases}
use high_performance_event_s.Domain.Event.{Event}
use high_performance_event_s.Replay.{
  Settings, Surroundings, completed, size_of, send_events, limited, tick_length,
  stream_replay_events,
}

div_suc : (b i : ℕ) → 0 < b → suc i / b ≡ i / b + (if suc i % b == 0 then 1 else 0)
div_suc b i h = grind arith

take_all : (es : List Event) → take (length es) es ≡ es
take_all [] = refl
take_all (e ∷ es) = ap (λ l. e ∷ l) (take_all es)

send_events-prefix :
    (c : Surroundings) (batch : ℤ) (total i : ℕ) (es : List Event)
    → let sent = (send_events c batch total i es).sent in sent ≡ take (length sent) es
unfolding send_events
send_events-prefix c batch total i [] = refl
send_events-prefix c batch total i (e ∷ es) =
    ground (arith, send_events-prefix c batch total (suc i) es)

waits_none :
    (c : Surroundings) (batch : ℤ) (total : ℕ) (es : List Event)
    → (i : ℕ) → length es ≡ 0
    → (send_events c batch total i es).waits ≡ 0
unfolding send_events
waits_none c batch total [] i h = refl
waits_none c batch total (e ∷ es) i h = absurd (omega arith)

send_events-all :
    (c : Surroundings) (batch : ℤ) (total i : ℕ) (es : List Event)
    → ((j : ℕ) → c.done_before j ≡ false)
    → ((j : ℕ) → c.done_sending j ≡ false)
    → 0 < size_of batch
    → total ≡ i + length es
    → let s = send_events c batch total i es in
      (s.ending ≡ completed)
      × (s.sent ≡ es)
      × (0 < length es → s.waits + i / size_of batch ≡ (total - 1) / size_of batch)
unfolding send_events
send_events-all c batch total i [] open_before open_sending b t =
    (refl, refl, λ h. absurd (omega arith))
send_events-all c batch total i (e ∷ es) open_before open_sending b t =
    let rest = send_events-all c batch total (suc i) es open_before open_sending b (omega arith) in
    (
      ground (arith, open_before i, open_sending i, b, rest.0),
      ground (arith, open_before i, open_sending i, b, rest.1),
      λ h. ground (
        arith,
        open_before i,
        open_sending i,
        b,
        rest.2,
        t,
        div_suc (size_of batch) i b,
        waits_none c batch total es (suc i),
      ),
    )

-- The first `limit` of the events, or all of them where the limit is not positive.
abbrev pub up_to : ℤ → List Event → List Event
up_to (pos zero) es = es
up_to (pos (suc n)) es = take (suc n) es
up_to (negsuc n) es = es

take_more : (n : ℕ) (es : List Event) → length es ≤ n → take n es ≡ es
take_more zero [] h = refl
take_more (suc n) [] h = refl
take_more zero (e ∷ es) h = absurd (omega (arith, h))
take_more (suc n) (e ∷ es) h = ap (λ l. e ∷ l) (take_more n es (omega (arith, h)))

pub limited-up_to : (limit : ℤ) (es : List Event) → limited limit es ≡ up_to limit es
unfolding limited
limited-up_to (pos zero) es = ground arith
limited-up_to (pos (suc n)) es = elim (Bool-cases (ltb (suc n) (length es))) [
  | inl h ↦ ground (arith, h)
  | inr h ↦ ground (arith, h, take_more (suc n) es)
]
limited-up_to (negsuc n) es = ground arith

-- The events that a replay is to send: those of the answer, up to the limit.
abbrev pub chosen : ℤ → Outcome String (List Event) → List Event
chosen limit (ok events) = up_to limit events
chosen limit (err e) = []

-- Whatever ends a replay, what it has sent is a prefix of the events that the store found, of the first
-- `limit` of these where the limit is positive: in their order, none left out and none twice.
pub stream_replay_events-prefix :
    (c : Surroundings) (s : Settings) (limit : ℤ) (answer : Outcome String (List Event))
    → let sent = (stream_replay_events c s limit answer).sent in
      sent ≡ take (length sent) (chosen limit answer)
unfolding stream_replay_events
stream_replay_events-prefix c s limit answer =
    elim (Bool-cases (leb_ℤ (tick_length s.rate_limit_ms) (pos 0))) [
      | inl a ↦ ground (arith, a)
      | inr a ↦ elim (Outcome-cases answer) [
        | inr (e, b) ↦ ground (arith, a, b)
        | inl (events, b) ↦ ground (
          arith,
          a,
          b,
          limited-up_to limit events,
          send_events-prefix c s.batch_size (length (limited limit events)) 0
              (limited limit events),
        )
      ]
    ]

-- Where the context lasts, the ticker runs, the batch size is not zero and the query succeeds, a replay
-- completes: it sends every event found, or the first `limit` of them where the limit is positive, and
-- waits for the ticker once between two batches.
pub stream_replay_events-completes :
    (c : Surroundings) (s : Settings) (limit : ℤ) (events : List Event)
    → ((j : ℕ) → c.done_before j ≡ false)
    → ((j : ℕ) → c.done_sending j ≡ false)
    → leb_ℤ (tick_length s.rate_limit_ms) (pos 0) ≡ false
    → 0 < size_of s.batch_size
    → let x = stream_replay_events c s limit (ok events) in
      let all = up_to limit events in
      (x.ending ≡ completed)
      × (x.sent ≡ all)
      × (0 < length all → x.waits ≡ (length all - 1) / size_of s.batch_size)
unfolding stream_replay_events
stream_replay_events-completes c s limit events open_before open_sending ticks b =
    let all = limited limit events in
    let run =
      send_events-all c s.batch_size (length all) 0 all open_before open_sending b (omega arith) in
    let cut = limited-up_to limit events in
    (
      ground (arith, ticks, run.0),
      ground (arith, ticks, run.1, cut),
      λ h. ground (arith, ticks, run.2, h, cut, zero-div (size_of s.batch_size)),
    )

pub All-take {κ} : (P : Event → Type κ) (n : ℕ) (es : List Event) → All P es → All P (take n es)
All-take P zero es a = tt
All-take P (suc n) [] a = tt
All-take P (suc n) (e ∷ es) a = (a.0, All-take P n es a.1)

pub All-up_to {κ} :
    (P : Event → Type κ) (limit : ℤ) (es : List Event) → All P es → All P (up_to limit es)
All-up_to P (pos zero) es a = a
All-up_to P (pos (suc n)) es a = All-take P (suc n) es a
All-up_to P (negsuc n) es a = a
