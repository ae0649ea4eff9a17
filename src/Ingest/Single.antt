-- ===== src/Ingest/Single.antt =====
-- Every course that `IngestEvent` can take, by the calls that it makes.
use high_performance_event_s.Common.{
  ◌≡◌, refl, ◌⊎◌, inl, inr, true, false, String, List, [], ◌∷◌, ◌++◌, none, some, arith, Bool-cases,
  Option-cases, is_blank, if◌then◌else◌,
}
use high_performance_event_s.Common.Outcome.{Outcome, ok, err, Outcome-cases}
use high_performance_event_s.Domain.Event.{Event, EventError, with_correlation}
use high_performance_event_s.Requests.{IngestEventRequest, Fresh, to_entity}
use high_performance_event_s.Ingest.{
  PortCall, validate_data, store_event, publish_event, World, Environment, ServiceError,
  invalid_request, schema_failed, store_failed, publish_failed, validate_and_enrich_event, call,
  correlation_of, topic_of, ingest_event,
}

-- The call of the validator that a request asks for.
abbrev pub checks : IngestEventRequest → List PortCall
checks r = if is_blank r.schema_url then [] else validate_data r.schema_url r.payload ∷ []

-- The validator has no objection to the request.
abbrev pub SchemaPasses : Environment → IngestEventRequest → List PortCall → Type 0
SchemaPasses env r calls =
    (is_blank r.schema_url ≡ true) ⊎ (env calls (validate_data r.schema_url r.payload) ≡ none)

-- What `validateAndEnrichEvent` does, on each of its branches.
pub data Enriches (env : Environment) (r : IngestEventRequest) (f : Fresh) (correlation : String)
    (w : World) (result : Outcome ServiceError Event) (w' : World) : Type 0 where
  invalid :
      (e : EventError)
      → to_entity r f ≡ err e
      → result ≡ err (invalid_request e)
      → w'.calls ≡ w.calls
      → Enriches env r f correlation w result w'
  rejected :
      (msg : String)
      → is_blank r.schema_url ≡ false
      → env w.calls (validate_data r.schema_url r.payload) ≡ some msg
      → result ≡ err (schema_failed msg)
      → w'.calls ≡ w.calls ++ checks r
      → Enriches env r f correlation w result w'
  enriched :
      (event : Event)
      → to_entity r f ≡ ok event
      → SchemaPasses env r w.calls
      → result ≡ ok (with_correlation correlation r.causation_id event)
      → w'.calls ≡ w.calls ++ checks r
      → Enriches env r f correlation w result w'

append-nil : (xs : List PortCall) → xs ++ [] ≡ xs
append-nil [] = refl
append-nil (x ∷ xs) = ground (arith, append-nil xs)

pub validate_and_enrich_event-Enriches :
    (env : Environment) (r : IngestEventRequest) (f : Fresh) (correlation : String) (w : World)
    → let x = validate_and_enrich_event env r f correlation w in
      Enriches env r f correlation w x.0 x.1
unfolding validate_and_enrich_event call
validate_and_enrich_event-Enriches env r f correlation w = elim (Outcome-cases (to_entity r f)) [
  | inr (e, bad) ↦ invalid e bad (ground (arith, bad)) (ground (arith, bad))
  | inl (event, good) ↦ elim (Bool-cases (is_blank r.schema_url)) [
    | inl blank ↦
        enriched event good (inl blank) (ground (arith, good, blank))
          (ground (arith, good, blank, append-nil w.calls))
    | inr named ↦ elim (Option-cases (env w.calls (validate_data r.schema_url r.payload))) [
      | inr (msg, no_match) ↦
          rejected msg named no_match (ground (arith, good, named, no_match))
            (ground (arith, good, named, no_match))
      | inl passes ↦
          enriched event good (inr passes) (ground (arith, good, named, passes))
            (ground (arith, good, named, passes))
    ]
  ]
]

-- The event that is stored and published.
abbrev pub enriched_event : IngestEventRequest → String → Event → Event
enriched_event r generated event =
    with_correlation (correlation_of r.correlation_id generated) r.causation_id event

-- What `IngestEvent` does, on each of its branches: the conversion fails and nothing is called; the
-- validator objects and nothing is stored; the store refuses the event and nothing is published; the
-- publisher refuses the event, which is stored; or the event is stored, then published under the topic
-- of its type.
pub data Course (env : Environment) (r : IngestEventRequest) (f : Fresh) (generated : String)
    (w : World) (result : Outcome ServiceError String) (w' : World) : Type 0 where
  invalid_course :
      (e : EventError)
      → to_entity r f ≡ err e
      → result ≡ err (invalid_request e)
      → w'.calls ≡ w.calls
      → Course env r f generated w result w'
  rejected_course :
      (msg : String)
      → is_blank r.schema_url ≡ false
      → env w.calls (validate_data r.schema_url r.payload) ≡ some msg
      → result ≡ err (schema_failed msg)
      → w'.calls ≡ w.calls ++ checks r
      → Course env r f generated w result w'
  not_stored :
      (event : Event) (msg : String)
      → to_entity r f ≡ ok event
      → SchemaPasses env r w.calls
      → env (w.calls ++ checks r) (store_event (enriched_event r generated event)) ≡ some msg
      → result ≡ err (store_failed msg)
      → w'.calls ≡ (w.calls ++ checks r) ++ store_event (enriched_event r generated event) ∷ []
      → Course env r f generated w result w'
  not_published :
      (event : Event) (msg : String)
      → to_entity r f ≡ ok event
      → SchemaPasses env r w.calls
      → env (w.calls ++ checks r) (store_event (enriched_event r generated event)) ≡ none
      → env
          ((w.calls ++ checks r) ++ store_event (enriched_event r generated event) ∷ [])
          (publish_event (enriched_event r generated event) (topic_of r.event_type))
        ≡ some msg
      → result ≡ err (publish_failed msg)
      → w'.calls
        ≡ ((w.calls ++ checks r) ++ store_event (enriched_event r generated event) ∷ [])
          ++ publish_event (enriched_event r generated event) (topic_of r.event_type) ∷ []
      → Course env r f generated w result w'
  ingested :
      (event : Event)
      → to_entity r f ≡ ok event
      → SchemaPasses env r w.calls
      → env (w.calls ++ checks r) (store_event (enriched_event r generated event)) ≡ none
      → env
          ((w.calls ++ checks r) ++ store_event (enriched_event r generated event) ∷ [])
          (publish_event (enriched_event r generated event) (topic_of r.event_type))
        ≡ none
      → result ≡ ok f.id
      → w'.calls
        ≡ ((w.calls ++ checks r) ++ store_event (enriched_event r generated event) ∷ [])
          ++ publish_event (enriched_event r generated event) (topic_of r.event_type) ∷ []
      → Course env r f generated w result w'

-- Every call of `IngestEvent` returns, and its calls of the ports and its result are those of one of
-- five courses, by the answers of the ports: the request is no event, and nothing is called; the
-- validator objects, and nothing is stored; the store refuses the event, and nothing is published; the
-- publisher refuses the stored event; or both accept it, and its identifier is returned, with the event
-- stored and then published under the topic of its type.
pub ingest_event-Course :
    (env : Environment) (r : IngestEventRequest) (f : Fresh) (generated : String) (w : World)
    → let x = ingest_event env r f generated w in Course env r f generated w x.0 x.1
unfolding ingest_event call
ingest_event-Course env r f generated w =
    elim (validate_and_enrich_event-Enriches env r f (correlation_of r.correlation_id generated)
      w) [
        | invalid e bad out same ↦
            invalid_course e bad (ground (arith, out)) (ground (arith, out, same))
        | rejected msg named no_match out same ↦
            rejected_course msg named no_match (ground (arith, out)) (ground (arith, out, same))
        | enriched event good passes out same ↦
            elim (Option-cases
              (env (w.calls ++ checks r) (store_event (enriched_event r generated event)))) [
                | inr (msg, refused) ↦
                    not_stored event msg good passes refused (ground (arith, out, same, refused))
                      (ground (arith, out, same, refused))
                | inl stored ↦
                    elim (Option-cases (
                      env
                        ((w.calls ++ checks r)
                          ++ store_event (enriched_event r generated event) ∷ [])
                        (publish_event (enriched_event r generated event)
                          (topic_of r.event_type)))) [
                            | inr (msg, refused) ↦
                                not_published event msg good passes stored refused
                                  (ground (arith, out, same, stored, refused))
                                  (ground (arith, out, same, stored, refused))
                            | inl published ↦
                                ingested event good passes stored published
                                  (ground (arith, out, same, stored, published))
                                  (ground (arith, out, same, stored, published))
                          ]
              ]
      ]
