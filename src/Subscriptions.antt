-- ===== src/Subscriptions.antt =====
-- Subscriptions (internal/application/service/subscription_service.go): the map of the active ones,
-- and the goroutine that forwards the events of each. The subscriber of the port answers the calls.
-- Log lines are left out.
pub mod Forwarding
pub mod Delivery
mod Tests
use Prim.Native.String.{◌++◌ as str_append}
use high_performance_event_s.Common.{
  ℕ, Bool, true, false, String, List, [], ◌∷◌, ◌++◌, Option, none, some, length, if◌then◌else◌,
}
use high_performance_event_s.Common.Int.{ℤ, pos, ltb_ℤ}
use high_performance_event_s.Common.Dict.{Dict, lookup, insert, delete}
use high_performance_event_s.Common.Outcome.{Outcome, ok, err, wrap}
use high_performance_event_s.Domain.Event.{priority_unspecified}
use high_performance_event_s.Domain.Filter.{Regexp, EventFilter, FilterError, new_event_filter}
use high_performance_event_s.Requests.{EventFilterDto, to_event_filter}

-- `SubscribeRequest`
pub record SubscribeRequest : Type 0 where
  pub event_filter : Option EventFilterDto
  pub group_id : String
  pub consumer_id : String

-- `subscription`, without its channel and its cancel function
pub record Subscription : Type 0 where
  pub id : String
  pub consumer_id : String
  pub group_id : String

-- What is handed to the collector of metrics.
pub data Note : Type 0 where
  error_noted : String → String → Note
  subscription_noted : String → String → Note

pub data SubscriptionError : Type 0 where
  invalid_filter : FilterError → SubscriptionError
  invalid_default_filter : FilterError → SubscriptionError
  broker_failed : String → SubscriptionError
  not_found : SubscriptionError
  unsubscribe_failed : String → SubscriptionError
  -- the panic of `make` for a negative size
  negative_buffer : SubscriptionError

-- `SubscriptionService`; `cancelled` holds the identifiers whose goroutine was told to stop.
pub record SubscriptionService : Type 0 where
  pub subscriptions : Dict Subscription
  pub channel_buffer_size : ℤ
  pub cancelled : List String
  pub notes : List Note

-- `NewSubscriptionService`
unfoldable pub new_subscription_service : SubscriptionService
new_subscription_service = record {
  subscriptions = [];
  channel_buffer_size = pos 1000;
  cancelled = [];
  notes = [];
}

-- `SetChannelBufferSize`
unfoldable pub set_channel_buffer_size : ℤ → SubscriptionService → SubscriptionService
set_channel_buffer_size n s = record s { channel_buffer_size = n }

-- `GetActiveSubscriptions`
unfoldable pub get_active_subscriptions : SubscriptionService → ℕ
get_active_subscriptions s = length s.subscriptions

abbrev pub noting {ℓ} : {A : Type ℓ} → A → List Note → SubscriptionService → A × SubscriptionService
noting a ns s = (a, record s { notes = s.notes ++ ns })

-- `fmt.Sprintf("consumer.%s", request.GroupID)`
abbrev pub topic_of : String → String
topic_of group = str_append "consumer." group

module _ (R : Regexp) where
  -- The filter of the request, or the empty one
  unfoldable pub subscription_filter :
      Option EventFilterDto → Outcome SubscriptionError (EventFilter R)
  subscription_filter (some f) = wrap invalid_filter (to_event_filter R f)
  subscription_filter none =
      wrap invalid_default_filter (new_event_filter R "" "" "" [] priority_unspecified)

  -- The error that is recorded with the error that is returned
  unfoldable pub subscribe_notes : SubscriptionError → List Note
  subscribe_notes (invalid_filter e) = error_noted "Subscribe" "filter_conversion" ∷ []
  subscribe_notes (invalid_default_filter e) = []
  subscribe_notes _ = error_noted "Subscribe" "broker_subscription" ∷ []

  -- `Subscribe`, with the identifier that it makes up; `broker` answers nil or an error to a topic, a
  -- group and a filter. The result is the identifier, which the caller does not get: it gets the
  -- channel. A negative size of the channel panics when the subscription is already stored.
  unfoldable pub subscribe :
      (String → String → EventFilter R → Option String)
      → SubscribeRequest
      → String
      → SubscriptionService
      → Outcome SubscriptionError String × SubscriptionService
  unfolding subscription_filter subscribe_notes
  subscribe broker r id s = elim (subscription_filter r.event_filter) [
    | err e ↦ noting (err e) (subscribe_notes e) s
    | ok f ↦ elim (broker (topic_of r.group_id) r.group_id f) [
      | some e ↦ noting (err (broker_failed e)) (subscribe_notes (broker_failed e)) s
      | none ↦
          (let sub : Subscription = record {
            id = id;
            consumer_id = r.consumer_id;
            group_id = r.group_id;
          } in
            let stored = record s { subscriptions = insert id sub s.subscriptions } in
            noting (if ltb_ℤ s.channel_buffer_size (pos 0) then err negative_buffer else ok id)
              (subscription_noted r.consumer_id r.group_id ∷ []) stored)
    ]
  ]

-- `Unsubscribe`; `answer` is that of the subscriber.
unfoldable pub unsubscribe :
    Option String
    → String
    → SubscriptionService
    → Outcome SubscriptionError (Unit {0}) × SubscriptionService
unsubscribe answer id s = elim (lookup id s.subscriptions) [
  | none ↦ (err not_found, s)
  | some sub ↦
      (let stopped = record s {
        subscriptions = delete id s.subscriptions;
        cancelled = id ∷ s.cancelled;
      } in
        elim answer [
          | some e ↦
              noting (err (unsubscribe_failed e))
                (error_noted "Unsubscribe" "broker_unsubscription" ∷ []) stopped
          | none ↦ (ok tt, stopped)
        ])
]
