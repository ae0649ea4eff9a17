-- ===== src/Ingest/Effects.antt =====
-- The loops of a batch: which calls each makes, on success and at the event that stops it.
use mathlib.Core.List.{append_assoc, append-nil}
use high_performance_event_s.Common.{
  ℕ, zero, suc, ◌+◌, none, some, ◌≡◌, refl, inl, inr, String, List, [], ◌∷◌, ◌++◌, map, arith,
  Option-cases, take,
}
use high_performance_event_s.Common.Outcome.{Outcome, ok, err}
use high_performance_event_s.Domain.Event.{Event}
use high_performance_event_s.Ingest.{
  PortCall, store_event, publish_event, World, Environment, ServiceError, at_index, store_failed,
  publish_failed, call, topic_of, store_batch_events, publish_batch_events,
}

-- The port accepts each of the events, from these calls on.
abbrev pub Accepts : Environment → (Event → PortCall) → List PortCall → List Event → Type 0
Accepts env one calls [] = Unit
Accepts env one calls (e ∷ es) =
    (env calls (one e) ≡ none) × Accepts env one (calls ++ one e ∷ []) es

-- The port accepts the first `k` events, and refuses the next with this message.
abbrev pub RefusesAt :
    Environment → (Event → PortCall) → List PortCall → ℕ → String → List Event → Type 0
RefusesAt env one calls k msg [] = ⊥
RefusesAt env one calls zero msg (e ∷ es) = env calls (one e) ≡ some msg
RefusesAt env one calls (suc k) msg (e ∷ es) =
    (env calls (one e) ≡ none) × RefusesAt env one (calls ++ one e ∷ []) k msg es

-- The calls that a loop over events makes where each event makes one, from index `i` on: all of them,
-- where the port accepts all, or those up to the first that the port refuses, whose index and message
-- are in the error.
pub data Delivers (env : Environment) (one : Event → PortCall) (refusal : String → ServiceError)
    (i : ℕ) (events : List Event) (w : World) (result : Outcome ServiceError (Unit {0}))
    (w' : World) : Type 0 where
  all_delivered :
      Accepts env one w.calls events
      → result ≡ ok tt
      → w'.calls ≡ w.calls ++ map one events
      → Delivers env one refusal i events w result w'
  stopped :
      (k : ℕ) (msg : String)
      → RefusesAt env one w.calls k msg events
      → result ≡ err (at_index (i + k) (refusal msg))
      → w'.calls ≡ w.calls ++ map one (take (suc k) events)
      → Delivers env one refusal i events w result w'

pub publish_of : Event → PortCall
publish_of e = publish_event e (topic_of e.event_type)

module _ (env : Environment) where
  pub store_batch_events-Delivers :
      (i : ℕ) (events : List Event) (w : World)
      → let x = store_batch_events env i events w in
        Delivers env store_event store_failed i events w x.0 x.1
  unfolding store_batch_events call
  store_batch_events-Delivers i [] w = all_delivered tt refl (ground (arith, append-nil w.calls))
  store_batch_events-Delivers i (e ∷ events) w = elim (Option-cases (env w.calls (store_event e))) [
    | inr (msg, refused) ↦ stopped 0 msg refused (ground (arith, refused)) (ground (arith, refused))
    | inl stored ↦
        elim (store_batch_events-Delivers (suc i) events
          (record w { calls = w.calls ++ store_event e ∷ [] })) [
            | all_delivered accepted out same ↦
                all_delivered (stored, accepted) (ground (arith, stored, out))
                  (ground (
                    arith,
                    stored,
                    same,
                    append_assoc w.calls (store_event e ∷ []) (map store_event events),
                  ))
            | stopped k msg refuses out same ↦
                stopped (suc k) msg (stored, refuses) (ground (arith, stored, out))
                  (ground (
                    arith,
                    stored,
                    same,
                    append_assoc w.calls (store_event e ∷ [])
                        (map store_event (take (suc k) events)),
                  ))
          ]
  ]

  pub publish_batch_events-Delivers :
      (i : ℕ) (events : List Event) (w : World)
      → let x = publish_batch_events env i events w in
        Delivers env publish_of publish_failed i events w x.0 x.1
  unfolding publish_batch_events call publish_of
  publish_batch_events-Delivers i [] w = all_delivered tt refl (ground (arith, append-nil w.calls))
  publish_batch_events-Delivers i (e ∷ events) w =
      elim (Option-cases (env w.calls (publish_event e (topic_of e.event_type)))) [
        | inr (msg, refused) ↦
            stopped 0 msg refused (ground (arith, refused)) (ground (arith, refused))
        | inl stored ↦
            elim (publish_batch_events-Delivers (suc i) events
              (record w { calls = w.calls ++ publish_event e (topic_of e.event_type) ∷ [] })) [
                | all_delivered accepted out same ↦
                    all_delivered (stored, accepted) (ground (arith, stored, out))
                      (ground (
                        arith,
                        stored,
                        same,
                        append_assoc w.calls (publish_of e ∷ []) (map publish_of events),
                      ))
                | stopped k msg refuses out same ↦
                    stopped (suc k) msg (stored, refuses) (ground (arith, stored, out))
                      (ground (
                        arith,
                        stored,
                        same,
                        append_assoc w.calls (publish_of e ∷ [])
                            (map publish_of (take (suc k) events)),
                      ))
              ]
      ]
