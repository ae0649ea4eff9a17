-- ===== src/Ingest/Batch.antt =====
-- Every course that `IngestEventBatch` can take.
use mathlib.Core.List.{append_assoc, append-nil}
use mathlib.Core.Path.{subst}
use high_performance_event_s.Common.{
  ℕ, suc, ◌≡◌, refl, sym, ap, ◌∙◌, false, inl, inr, String, List, [], ◌∷◌, ◌++◌, map, Option, none,
  some, arith, Bool-cases, take, is_blank, All, All-append,
}
use high_performance_event_s.Common.Outcome.{Outcome, ok, err}
use high_performance_event_s.Domain.Event.{Event, EventError, with_correlation}
use high_performance_event_s.Requests.{IngestEventRequest, Fresh, to_entity}
use high_performance_event_s.Ingest.{
  PortCall, validate_data, store_event, World, Environment, ServiceError, at_index, nil_panic,
  invalid_request, schema_failed, store_failed, publish_failed, validate_and_enrich_event,
  correlation_of, store_batch_events, prepare_batch_events, ingest_event_batch,
}
use high_performance_event_s.Ingest.Single.{
  invalid, rejected, enriched, checks, SchemaPasses, validate_and_enrich_event-Enriches,
}
use high_performance_event_s.Ingest.Effects.{
  Accepts, RefusesAt, all_delivered, stopped, publish_of, store_batch_events-Delivers,
  publish_batch_events-Delivers,
}

-- The call is one of the validator.
abbrev pub IsCheck : PortCall → Type 0
IsCheck c = (url : String) × (payload : List ℕ) × (c ≡ validate_data url payload)

checks-IsCheck : (r : IngestEventRequest) → All IsCheck (checks r)
checks-IsCheck r = elim (Bool-cases (is_blank r.schema_url)) [
  | inl b ↦ rw b tt
  | inr b ↦ rw b ((r.schema_url, r.payload, refl), tt)
]

-- The calls of the validator that the requests ask for.
abbrev pub all_checks : List (Option IngestEventRequest) → List PortCall
all_checks [] = []
all_checks (none ∷ rs) = []
all_checks (some r ∷ rs) = checks r ++ all_checks rs

module _ (env : Environment) (gen : ℕ → Fresh) (correlation : String) where
  -- The events and identifiers of a batch, one for each request, in order, from these calls on; the
  -- validator has no objection to any.
  abbrev pub Prepared :
      List PortCall → ℕ → List (Option IngestEventRequest) → List Event → List String → Type 0
  Prepared calls i [] [] [] = Unit
  Prepared calls i (some r ∷ rs) (e ∷ es) (id ∷ ids) =
      ((event : Event) × (to_entity r (gen i) ≡ ok event)
        × (e ≡ with_correlation correlation r.causation_id event))
      × SchemaPasses env r calls
      × (id ≡ (gen i).id)
      × Prepared (calls ++ checks r) (suc i) rs es ids
  Prepared calls i _ _ _ = ⊥

  -- The first request that cannot be prepared, and the error: it is nil, or no event, or the validator
  -- objects to it.
  pub data Unprepared
      : List PortCall → ℕ → ServiceError → List (Option IngestEventRequest) → Type 0 where
    is_nil :
        {calls : List PortCall} {i : ℕ} {e : ServiceError} (rs : List (Option IngestEventRequest))
        → e ≡ nil_panic
        → Unprepared calls i e (none ∷ rs)
    no_event :
        {calls : List PortCall} {i : ℕ} {e : ServiceError} (r : IngestEventRequest)
        (rs : List (Option IngestEventRequest)) (x : EventError)
        → to_entity r (gen i) ≡ err x
        → e ≡ at_index i (invalid_request x)
        → Unprepared calls i e (some r ∷ rs)
    no_match :
        {calls : List PortCall} {i : ℕ} {e : ServiceError} (r : IngestEventRequest)
        (rs : List (Option IngestEventRequest)) (msg : String)
        → is_blank r.schema_url ≡ false
        → env calls (validate_data r.schema_url r.payload) ≡ some msg
        → e ≡ at_index i (schema_failed msg)
        → Unprepared calls i e (some r ∷ rs)
    later :
        {calls : List PortCall} {i : ℕ} {e : ServiceError} (r : IngestEventRequest)
        (rs : List (Option IngestEventRequest)) (event : Event)
        → to_entity r (gen i) ≡ ok event
        → SchemaPasses env r calls
        → Unprepared (calls ++ checks r) (suc i) e rs
        → Unprepared calls i e (some r ∷ rs)

  -- Whether or not it succeeds, the preparation of a batch calls the validator alone.
  pub data Prepares (i : ℕ) (rs : List (Option IngestEventRequest)) (w : World)
      (result : Outcome ServiceError (List Event × List String)) (w' : World) : Type 0 where
    prepared :
        (events : List Event) (ids : List String)
        → result ≡ ok (events, ids)
        → Prepared w.calls i rs events ids
        → w'.calls ≡ w.calls ++ all_checks rs
        → Prepares i rs w result w'
    unprepared :
        (e : ServiceError) (checked : List PortCall)
        → Unprepared w.calls i e rs
        → result ≡ err e
        → w'.calls ≡ w.calls ++ checked
        → All IsCheck checked
        → Prepares i rs w result w'

  prepare_batch_events-Prepares :
      (i : ℕ) (rs : List (Option IngestEventRequest)) (w : World)
      → let x = prepare_batch_events env gen correlation i rs w in Prepares i rs w x.0 x.1
  unfolding prepare_batch_events
  prepare_batch_events-Prepares i [] w = prepared [] [] refl tt (sym (append-nil w.calls))
  prepare_batch_events-Prepares i (none ∷ rs) w =
      unprepared nil_panic [] (is_nil rs refl) refl (sym (append-nil w.calls)) tt
  prepare_batch_events-Prepares i (some r ∷ rs) w =
      let x = validate_and_enrich_event env r (gen i) correlation w in
      elim (validate_and_enrich_event-Enriches env r (gen i) correlation w) [
        | invalid e bad out same ↦
            unprepared (at_index i (invalid_request e)) [] (no_event r rs e bad refl)
              (ground (arith, out)) (ground (arith, out, same, append-nil w.calls)) tt
        | rejected msg named bad out same ↦
            unprepared (at_index i (schema_failed msg)) (checks r)
              (no_match r rs msg named bad refl) (ground (arith, out)) (ground (arith, out, same))
              (checks-IsCheck r)
        | enriched event good passes out same ↦
            elim (prepare_batch_events-Prepares (suc i) rs x.1) [
              | unprepared e checked why out' same' all ↦
                  unprepared e (checks r ++ checked)
                    (later r rs event good passes
                      (subst (λ calls. Unprepared calls (suc i) e rs) same why))
                    (ground (arith, out, out'))
                    (ground (arith, out, same, same', append_assoc w.calls (checks r) checked))
                    (All-append IsCheck (checks r) checked (checks-IsCheck r) all)
              | prepared events ids out' each same' ↦
                  prepared (with_correlation correlation r.causation_id event ∷ events)
                    ((gen i).id ∷ ids) (ground (arith, out, out'))
                    (
                      (event, good, refl),
                      passes,
                      refl,
                      subst (λ calls. Prepared calls (suc i) rs events ids) same each,
                    )
                    (ground
                      (arith, out, same, same', append_assoc w.calls (checks r) (all_checks rs)))
            ]
      ]

  -- What `IngestEventBatch` does with requests that are not none at all, on each of its branches, by the
  -- answers of the ports: the preparation stops it before anything is stored; the store refuses an
  -- event, and nothing is published; the publisher refuses an event, with all events stored; or the
  -- store accepts all events in order, then the publisher does, and their identifiers are returned.
  pub data BatchCourse (rs : List (Option IngestEventRequest)) (w : World)
      (result : Outcome ServiceError (List String)) (w' : World) : Type 0 where
    stopped_in_preparation :
        (e : ServiceError) (checked : List PortCall)
        → Unprepared w.calls 0 e rs
        → result ≡ err e
        → All IsCheck checked
        → w'.calls ≡ w.calls ++ checked
        → BatchCourse rs w result w'
    stopped_in_store :
        (events : List Event) (ids : List String) (k : ℕ) (msg : String)
        → Prepared w.calls 0 rs events ids
        → RefusesAt env store_event (w.calls ++ all_checks rs) k msg events
        → result ≡ err (at_index k (store_failed msg))
        → w'.calls ≡ (w.calls ++ all_checks rs) ++ map store_event (take (suc k) events)
        → BatchCourse rs w result w'
    stopped_in_publication :
        (events : List Event) (ids : List String) (k : ℕ) (msg : String)
        → Prepared w.calls 0 rs events ids
        → Accepts env store_event (w.calls ++ all_checks rs) events
        → RefusesAt env publish_of
            ((w.calls ++ all_checks rs) ++ map store_event events)
            k
            msg
            events
        → result ≡ err (at_index k (publish_failed msg))
        → w'.calls
          ≡ ((w.calls ++ all_checks rs) ++ map store_event events)
            ++ map publish_of (take (suc k) events)
        → BatchCourse rs w result w'
    completed :
        (events : List Event) (ids : List String)
        → Prepared w.calls 0 rs events ids
        → Accepts env store_event (w.calls ++ all_checks rs) events
        → Accepts env publish_of ((w.calls ++ all_checks rs) ++ map store_event events) events
        → result ≡ ok ids
        → w'.calls ≡ ((w.calls ++ all_checks rs) ++ map store_event events) ++ map publish_of events
        → BatchCourse rs w result w'

pub ingest_event_batch-BatchCourse :
    (env : Environment) (r : IngestEventRequest) (rs : List (Option IngestEventRequest))
    (gen : ℕ → Fresh) (generated : String) (w : World)
    → let x = ingest_event_batch env (some r ∷ rs) gen generated w in
      BatchCourse env gen (correlation_of r.correlation_id generated) (some r ∷ rs) w x.0 x.1
unfolding ingest_event_batch
ingest_event_batch-BatchCourse env r rs gen generated w =
    let correlation = correlation_of r.correlation_id generated in
    let x = prepare_batch_events env gen correlation 0 (some r ∷ rs) w in
    elim (prepare_batch_events-Prepares env gen correlation 0 (some r ∷ rs) w) [
      | unprepared e checked why out same all ↦
          stopped_in_preparation e checked why (ground (arith, out)) all (ground (arith, out, same))
      | prepared events ids out each same ↦
          let y = store_batch_events env 0 events x.1 in
          elim (store_batch_events-Delivers env 0 events x.1) [
            | stopped k msg refuses out' same' ↦
                stopped_in_store events ids k msg each
                  (subst (λ calls. RefusesAt env store_event calls k msg events) same refuses)
                  (ground (arith, out, out')) (ground (arith, out, same, out', same'))
            | all_delivered accepted out' same' ↦
                let accepted' =
                  subst (λ calls. Accepts env store_event calls events) same accepted in
                let after : y.1.calls
                    ≡ (w.calls ++ all_checks (some r ∷ rs)) ++ map store_event events =
                  same' ∙ ap (λ calls. calls ++ map store_event events) same in
                elim (publish_batch_events-Delivers env 0 events y.1) [
                  | stopped k msg refuses out'' same'' ↦
                      stopped_in_publication events ids k msg each accepted'
                        (subst (λ calls. RefusesAt env publish_of calls k msg events) after refuses)
                        (ground (arith, out, out', out''))
                        (ground (arith, out, same, out', same', out'', same''))
                  | all_delivered all out'' same'' ↦
                      completed events ids each accepted'
                        (subst (λ calls. Accepts env publish_of calls events) after all)
                        (ground (arith, out, out', out''))
                        (ground (arith, out, same, out', same', out'', same''))
                ]
          ]
    ]
