-- ===== src/Producer.antt =====
-- The Kafka producer (internal/infrastructure/kafka/producer.go), one call after the other: its retries
-- and the circuit breaker of its failure counts. The serializer, the writer of package kafka-go and the
-- context are parameters. Log lines are left out.
pub mod Circuit
pub mod Calls
mod Tests
use high_performance_event_s.Common.{
  ℕ, zero, suc, ◌+◌, Bool, true, false, ◌&&◌, not, String, List, [], ◌∷◌, ◌++◌, Option, none, some,
  ltb, length, if◌then◌else◌,
}
use high_performance_event_s.Common.Int.{ℤ, pos, negsuc, leb_ℤ}
use high_performance_event_s.Domain.Event.{Event}

-- What is handed to the collector of metrics, if there is one.
pub data Note : Type 0 where
  duration_noted : Note
  published_noted : Note
  error_noted : String → String → Note

-- `Producer`; the counters are of type `int32`, `timer_set` says that the reset is scheduled, and
-- `closed` that the writer was closed.
pub record Producer : Type 0 where
  pub max_retries : ℕ
  pub threshold : ℤ
  pub failure_count : ℤ
  pub success_count : ℤ
  pub circuit_open : Bool
  pub timer_set : Bool
  pub closed : Bool
  pub has_metrics : Bool
  pub notes : List Note

-- `NewProducer`
unfoldable pub new_producer : Bool → Producer
new_producer has_metrics = record {
  max_retries = 3;
  threshold = pos 5;
  failure_count = pos 0;
  success_count = pos 0;
  circuit_open = false;
  timer_set = false;
  closed = false;
  has_metrics = has_metrics;
  notes = [];
}

-- `Add(1)` on an `int32`
unfoldable pub increment : ℤ → ℤ
increment (pos n) = if ltb (suc n) 2147483648 then pos (suc n) else negsuc 2147483647
increment (negsuc zero) = pos 0
increment (negsuc (suc n)) = negsuc n

abbrev pub noted : Note → Producer → Producer
noted n p = if p.has_metrics then record p { notes = p.notes ++ n ∷ [] } else p

unfoldable pub noted_times : ℕ → Note → Producer → Producer
noted_times zero n p = p
noted_times (suc k) n p = noted_times k n (noted n p)

-- `recordSuccess`
unfoldable pub record_success : Producer → Producer
record_success p =
    let counted = record p { success_count = increment p.success_count; failure_count = pos 0 } in
    if p.circuit_open && leb_ℤ p.threshold (increment p.success_count)
    then record counted { circuit_open = false; success_count = pos 0 }
    else counted

-- `recordFailure`
unfoldable pub record_failure : Producer → Producer
record_failure p =
    let counted = record p { failure_count = increment p.failure_count; success_count = pos 0 } in
    if not p.circuit_open && leb_ℤ p.threshold (increment p.failure_count)
    then record counted { circuit_open = true; failure_count = pos 0; timer_set = true }
    else counted

-- What the timer of the reset does when it fires
unfoldable pub auto_reset : Producer → Producer
auto_reset p = record p {
  circuit_open = false;
  failure_count = pos 0;
  success_count = pos 0;
  timer_set = false;
}

-- What a call returns, a panic on the nil serializer included.
pub data Published : Type 0 where
  published : Published
  nil_event no_events no_valid_events circuit_is_open nil_serializer cancelled : Published
  not_serialized : String → Published
  retries_exceeded : String → Published

-- What a call meets, by the number of the attempt: whether the context ends the wait before it, and
-- what the writer answers.
pub record Broker : Type 0 where
  pub done_waiting : ℕ → Bool
  pub write : ℕ → Option String

-- The loop of `Publish` and of `publishWithRetry` from an attempt on: `operation` is the name under
-- which the error is recorded, `messages` the number of the messages, `left` that of the retries left.
unfoldable pub attempt_writes : Broker → String → ℕ → ℕ → ℕ → Producer → Published × Producer
unfolding record_success record_failure noted_times
attempt_writes b operation messages zero attempt p =
    elim (ltb 0 attempt && b.done_waiting attempt) [
      | true ↦ (cancelled, p)
      | false ↦
          (let written = noted duration_noted p in
            elim (b.write attempt) [
              | none ↦ (published, noted_times messages published_noted (record_success written))
              | some e ↦ (
                retries_exceeded e,
                noted (error_noted operation "max_retries_exceeded") (record_failure written),
              )
            ])
    ]
attempt_writes b operation messages (suc left) attempt p =
    let written = noted duration_noted p in
    let rest = attempt_writes b operation messages left (suc attempt) written in
    elim (ltb 0 attempt && b.done_waiting attempt) [
      | true ↦ (cancelled, p)
      | false ↦ elim (b.write attempt) [
        | none ↦ (published, noted_times messages published_noted (record_success written))
        | some e ↦ rest
      ]
    ]

-- The answer of the serializer: bytes, or an error
abbrev pub Serializer : Type 0
Serializer = Event → Option String

-- `Publish`; `none` is a nil serializer or event.
unfoldable pub publish : Broker → Option Serializer → Option Event → Producer → Published × Producer
unfolding attempt_writes record_failure
publish b serializer none p = (nil_event, p)
publish b serializer (some e) p =
    if p.circuit_open then (circuit_is_open, p) else (elim serializer [
      | none ↦ (nil_serializer, p)
      | some serialize ↦ elim (serialize e) [
        | some msg ↦ (
          not_serialized msg,
          noted (error_noted "publish" "serialization_error") (record_failure p),
        )
        | none ↦ attempt_writes b "publish" 1 p.max_retries 0 p
      ]
    ])

-- `serializeEvents`: the number of the messages, where nil events and those that fail are skipped
unfoldable pub serialize_events : Serializer → List (Option Event) → ℕ
serialize_events serialize [] = 0
serialize_events serialize (none ∷ es) = serialize_events serialize es
serialize_events serialize (some e ∷ es) =
    let rest = serialize_events serialize es in
    elim (serialize e) [ none ↦ suc rest | some msg ↦ rest ]

-- `PublishBatch`, with a serializer
unfoldable pub publish_batch :
    Broker → Serializer → List (Option Event) → Producer → Published × Producer
unfolding attempt_writes serialize_events
publish_batch b serialize [] p = (no_events, p)
publish_batch b serialize (e ∷ es) p =
    if p.circuit_open then (circuit_is_open, p) else (elim (serialize_events serialize (e ∷ es)) [
      | zero ↦ (no_valid_events, p)
      | suc n ↦ attempt_writes b "publish_batch" (suc n) p.max_retries 0 p
    ])

-- `Close`; `answer` is what the writer says to its closing. The timer of the reset is stopped.
unfoldable pub close : Option String → Producer → Option String × Producer
close (some e) p = (some e, p)
close none p = (none, record p { timer_set = false; closed = true })
