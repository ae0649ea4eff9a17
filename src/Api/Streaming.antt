-- ===== src/Api/Streaming.antt =====
-- What a client sees of `IngestEventStream` (internal/api/grpc/event_handler.go).
use high_performance_event_s.Common.{
  ℕ, ◌≡◌, refl, Bool, String, List, [], ◌∷◌, ◌++◌, Option, none, length, arith,
}
use high_performance_event_s.Common.Outcome.{ok, err}
use high_performance_event_s.Requests.{Fresh}
use high_performance_event_s.Ingest.{Environment, World, ingest_event_batch}
use high_performance_event_s.Api.Messages.{ProtoEvent, event_proto_to_dto}
use high_performance_event_s.Api.Events.{
  IngestStream, Closing, closed, panicked, process_batch, ingest_event_stream,
}
use high_performance_event_s.Api.Acknowledgements.{ids_from, rest-Acknowledged}

-- Where `IngestEventStream` returns nil, whatever the service does, the client has closed the stream and
-- was sent one acknowledgement for each of its requests, in their order, each with the identifier made up
-- for that request: request `k` is number `k % 100` of batch `k / 100`.
pub ingest_event_stream-acknowledges :
    (env : Environment) (gens : ℕ → ℕ → Fresh) (generated : ℕ → String) (fails : ℕ → Bool)
    (rs : List (Option ProtoEvent)) (closing : Closing) (w : World)
    → let x =
        ingest_event_stream env gens generated fails [] rs closing
          (record { world = w; sent = []; batches = 0 }) in
      x.0 ≡ ok tt → (closing ≡ closed) × (x.1.sent ≡ ids_from gens 0 (length rs))
ingest_event_stream-acknowledges env gens generated fails rs closing w answered =
    let all =
      rest-Acknowledged env gens generated fails [] rs closing
        (record { world = w; sent = []; batches = 0 }) (omega arith) answered in
    (all.0, ground (arith, all.1))

-- A batch whose first request has no event panics.
process_batch-panics :
    (env : Environment) (gens : ℕ → ℕ → Fresh) (generated : ℕ → String) (fails : ℕ → Bool)
    (batch : List (Option ProtoEvent)) (s : IngestStream)
    → (process_batch env gens generated fails (none ∷ batch) s).0 ≡ err panicked
unfolding process_batch ingest_event_batch event_proto_to_dto
process_batch-panics env gens generated fails batch s = refl

-- Where the first request of a batch has no event, the handler panics as soon as the batch is full or the
-- client closes the stream.
pub ingest_event_stream-panics :
    (env : Environment) (gens : ℕ → ℕ → Fresh) (generated : ℕ → String) (fails : ℕ → Bool)
    (batch rs : List (Option ProtoEvent)) (s : IngestStream)
    → (ingest_event_stream env gens generated fails (none ∷ batch) rs closed s).0 ≡ err panicked
unfolding ingest_event_stream
ingest_event_stream-panics env gens generated fails batch [] s =
    ground (arith, process_batch-panics env gens generated fails batch s)
ingest_event_stream-panics env gens generated fails batch (r ∷ rs) s = ground (
  arith,
  process_batch-panics env gens generated fails (batch ++ r ∷ []) s,
  ingest_event_stream-panics env gens generated fails (batch ++ r ∷ []) rs s,
)
