-- ===== src/Api/Events.antt =====
-- The handlers of events (internal/api/grpc/event_handler.go), over the services of the application
-- layer. Log lines are left out.
use high_performance_event_s.Common.{
  ℕ, suc, Bool, true, false, String, List, [], ◌∷◌, ◌++◌, map, Option, none, some, length, ltb, leb,
  if◌then◌else◌, is_blank,
}
use high_performance_event_s.Common.Outcome.{Outcome, ok, err}
use high_performance_event_s.Domain.Event.{Event}
use high_performance_event_s.Domain.Filter.{Regexp, EventFilter}
use high_performance_event_s.Requests.{Fresh}
use high_performance_event_s.Ingest.{
  Environment, World, ServiceError, nil_panic, ingest_event, ingest_event_batch,
}
use high_performance_event_s.Replay.{Settings, replay_events, Stream}
use high_performance_event_s.Api.Messages.{
  Code, invalid_argument, internal, unimplemented, canceled, ProtoEvent, ProtoReplayRequest,
  event_proto_to_dto, event_entity_to_proto, replay_request_proto_to_dto,
}

-- `IngestEvent`; a request may be nil, and so may its event.
unfoldable pub handle_ingest_event :
    Environment → Option (Option ProtoEvent) → Fresh → String → World → Outcome Code String × World
unfolding event_proto_to_dto
handle_ingest_event env none f generated w = (err invalid_argument, w)
handle_ingest_event env (some request) f generated w = elim (event_proto_to_dto request) [
  | none ↦ (err invalid_argument, w)
  | some dto ↦
      (let (result, w') = ingest_event env dto f generated w in
        elim result [ err e ↦ (err internal, w') | ok id ↦ (ok id, w') ])
]

-- What a stream of requests has done: the calls of the service, the identifiers sent as
-- acknowledgements, and how many batches it has processed.
pub record IngestStream : Type 0 where
  pub world : World
  pub sent : List String
  pub batches : ℕ

-- How the requests of a stream end: the client closes it, or it breaks.
pub data Closing : Type 0 where
  closed broken : Closing

-- How a handler of a stream ends without success: with a code, or with a panic of the service.
pub data StreamError : Type 0 where
  coded : Code → StreamError
  panicked : StreamError

abbrev pub batch_size : ℕ
batch_size = 100

-- The loop of `processBatch` over the identifiers: `fails` says of each send by its number whether it
-- fails.
unfoldable pub send_responses :
    (ℕ → Bool) → List String → List String → Outcome StreamError (Unit {0}) × List String
send_responses fails [] sent = (ok tt, sent)
send_responses fails (id ∷ ids) sent = elim (fails (length sent)) [
  | true ↦ (err (coded internal), sent)
  | false ↦ send_responses fails ids (sent ++ id ∷ [])
]

-- The error of the stream for one of the service
abbrev pub stream_error : ServiceError → StreamError
stream_error nil_panic = panicked
stream_error _ = coded internal

module _ (env : Environment) (gens : ℕ → ℕ → Fresh) (generated : ℕ → String)
    (fails : ℕ → Bool) where
  -- `processBatch`; the k-th batch is given what `gens k` makes up.
  unfoldable pub process_batch :
      List (Option ProtoEvent) → IngestStream → Outcome StreamError (Unit {0}) × IngestStream
  unfolding send_responses
  process_batch requests s =
      let (result, w) =
        ingest_event_batch env (map event_proto_to_dto requests) (gens s.batches)
          (generated s.batches) s.world in
      elim result [
        | err e ↦ (err (stream_error e), record s { world = w })
        | ok ids ↦
            (let (answer, sent) = send_responses fails ids s.sent in
              (answer, record { world = w; sent = sent; batches = suc s.batches }))
      ]

  -- `IngestEventStream`, with the requests of the batch that is not full yet
  unfoldable pub ingest_event_stream :
      List (Option ProtoEvent)
      → List (Option ProtoEvent)
      → Closing
      → IngestStream
      → Outcome StreamError (Unit {0}) × IngestStream
  unfolding process_batch
  ingest_event_stream batch [] broken s = (err (coded internal), s)
  ingest_event_stream batch [] closed s =
      if ltb 0 (length batch) then process_batch batch s else (ok tt, s)
  ingest_event_stream batch (r ∷ rs) closing s = elim (leb batch_size (length (batch ++ r ∷ []))) [
    | false ↦ ingest_event_stream (batch ++ r ∷ []) rs closing s
    | true ↦
        (let (answer, s') = process_batch (batch ++ r ∷ []) s in
          elim answer [ err e ↦ (err e, s') | ok done ↦ ingest_event_stream [] rs closing s' ])
  ]

-- The loop of `SubscribeEvents` and of `ReplayEvents` from event `i` on, over what the channel gives
-- until it is closed. Before event `i` the context may be done, and its send may fail.
unfoldable pub stream_events :
    (ℕ → Bool) → (ℕ → Bool) → ℕ → List Event → Outcome Code (Unit {0}) × List ProtoEvent
unfolding event_entity_to_proto
stream_events done fails i [] = elim (done i) [ true ↦ (err canceled, []) | false ↦ (ok tt, []) ]
stream_events done fails i (e ∷ es) = elim (done i) [
  | true ↦ (err canceled, [])
  | false ↦ elim (fails i) [
    | true ↦ (err internal, [])
    | false ↦
        (let (answer, sent) = stream_events done fails (suc i) es in
          (answer, event_entity_to_proto e ∷ sent))
  ]
]

-- `ReplayEvents`; `replay` is the stream that the service starts with the filter.
unfoldable pub handle_replay_events :
    (R : Regexp)
    → Settings
    → (ℕ → Bool)
    → (ℕ → Bool)
    → (EventFilter R → Stream)
    → Option ProtoReplayRequest
    → Outcome Code (Unit {0}) × List ProtoEvent
unfolding stream_events
handle_replay_events R s done fails replay none = (err invalid_argument, [])
handle_replay_events R s done fails replay (some r) =
    elim (replay_events R s (replay_request_proto_to_dto r)).0 [
      | err e ↦ (err internal, [])
      | ok f ↦ stream_events done fails 0 (replay f).sent
    ]

-- `GetEvent`, not implemented
unfoldable pub handle_get_event : Option String → Outcome Code ProtoEvent
handle_get_event none = err invalid_argument
handle_get_event (some id) = if is_blank id then err invalid_argument else err unimplemented
