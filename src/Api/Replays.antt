-- ===== src/Api/Replays.antt =====
-- What a client sees of `ReplayEvents` over gRPC, down to the event store.
use high_performance_event_s.Common.{ℕ, ◌<◌, ◌≡◌, ◌≢◌, ◌⊎◌, String, List, [], ◌∷◌, take}
use high_performance_event_s.Common.Int.{pos}
use high_performance_event_s.Common.Outcome.{Outcome, ok, err}
use high_performance_event_s.Domain.Event.{Event}
use high_performance_event_s.Domain.Filter.{Regexp, EventFilter}
use high_performance_event_s.Replay.{
  Settings, ReplayError, replay_events, Surroundings, stream_replay_events,
}
use high_performance_event_s.Replay.Streams.{chosen}
use high_performance_event_s.Api.Messages.{
  Code, ProtoEvent, ProtoReplayRequest, replay_request_proto_to_dto,
}

-- A message shows an event: every field that it has is the event's, and so is a priority from low to
-- critical, which has the same number on both sides.
pub record Shows (e : Event) (m : ProtoEvent) : Type 0 where
  pub same_id : m.id ≡ e.id
  pub same_source : m.source ≡ e.source
  pub same_type : m.event_type ≡ e.event_type
  pub same_subject : m.subject ≡ e.subject
  pub same_payload : m.payload ≡ e.payload
  pub same_content_type : m.data_content_type ≡ e.data_content_type
  pub same_schema : m.schema_url ≡ e.schema_url
  pub same_timestamp : m.timestamp ≡ e.timestamp
  pub same_metadata : m.metadata ≡ e.metadata
  pub same_correlation : m.correlation_id ≡ e.correlation_id
  pub same_causation : m.causation_id ≡ e.causation_id
  pub same_partition : m.partition_key ≡ e.partition_key
  pub same_priority : (n : ℕ) → 0 < n → n < 5 → e.priority ≡ pos n → m.priority ≡ pos n

-- The messages show these events, one each, in their order.
abbrev pub AllShown : List Event → List ProtoEvent → Type 0
AllShown [] [] = Unit
AllShown (e ∷ es) (m ∷ ms) = Shows e m × AllShown es ms
AllShown _ _ = ⊥

-- How a replay ends for the client: the request is refused and nothing is sent; or events are sent.
pub data ReplaySeen (R : Regexp) (s : Settings) (c : Surroundings)
    (answer : EventFilter R → Outcome String (List Event)) (r : ProtoReplayRequest)
    (result : Outcome Code (Unit {0})) (sent : List ProtoEvent) : Type 0 where
  replay_refused :
      (e : ReplayError)
      → (replay_events R s (replay_request_proto_to_dto r)).0 ≡ err e
      → result ≡ err Code.internal
      → sent ≡ []
      → ReplaySeen R s c answer r result sent
  replay_sent :
      (f : EventFilter R) (n : ℕ)
      → (replay_events R s (replay_request_proto_to_dto r)).0 ≡ ok f
      → AllShown (take n (chosen (replay_request_proto_to_dto r).limit (answer f))) sent
      → (result ≢ ok tt)
        ⊎ AllShown
            (stream_replay_events c s (replay_request_proto_to_dto r).limit (answer f)).sent
            sent
      → ReplaySeen R s c answer r result sent
