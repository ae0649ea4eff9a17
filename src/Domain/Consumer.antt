-- ===== src/Domain/Consumer.antt =====
-- The consumer entity (internal/domain/entity/consumer.go). A method that changes the consumer
-- returns the changed one; where it returns an error the consumer is as before.
pub mod Lifecycle
use high_performance_event_s.Common.{Bool, true, false, ◌&&◌, String, is_blank}
use high_performance_event_s.Common.Int.{ℤ}
use high_performance_event_s.Common.Outcome.{Outcome, ok, err, ◌>>=◌, ◌>>◌, reject_if, wrap}
use high_performance_event_s.Domain.Event.{Event}
use high_performance_event_s.Domain.Filter.{Regexp, EventFilter, matches}
use high_performance_event_s.Domain.Transformation.{
  Transformation, TransformationError, validate as validate_transformation,
}

pub data ConsumerStatus : Type 0 where
  active inactive draining : ConsumerStatus

-- `ConsumerStatus.String`
unfoldable pub status_name : ConsumerStatus → String
status_name active = "Active"
status_name inactive = "Inactive"
status_name draining = "Draining"

pub data ConsumerError : Type 0 where
  empty_id empty_name empty_group : ConsumerError
  invalid_transformation : TransformationError → ConsumerError
  cannot_activate cannot_deactivate cannot_update_filter : ConsumerError

module _ (R : Regexp) where
  pub record Consumer : Type 0 where
    pub id : String
    pub name : String
    pub group_id : String
    pub event_filter : EventFilter R
    pub transformation : Transformation
    pub status : ConsumerStatus
    pub created_at : ℤ
    pub updated_at : ℤ

  -- `NewConsumer`; `now` is its reading of the clock.
  unfoldable pub new_consumer :
      ℤ → String → String → String → EventFilter R → Transformation → Outcome ConsumerError Consumer
  new_consumer now id name group_id event_filter transformation = do
    reject_if (is_blank id) empty_id
    reject_if (is_blank name) empty_name
    reject_if (is_blank group_id) empty_group
    wrap invalid_transformation (validate_transformation transformation)
    ok (record {
      id = id;
      name = name;
      group_id = group_id;
      event_filter = event_filter;
      transformation = transformation;
      status = inactive;
      created_at = now;
      updated_at = now;
    })

  -- `IsActive`
  unfoldable pub is_active : Consumer → Bool
  is_active c = elim (c.status) [ active ↦ true | inactive ↦ false | draining ↦ false ]

  -- `IsInactive`
  unfoldable pub is_inactive : Consumer → Bool
  is_inactive c = elim (c.status) [ active ↦ false | inactive ↦ true | draining ↦ false ]

  -- `IsDraining`
  unfoldable pub is_draining : Consumer → Bool
  is_draining c = elim (c.status) [ active ↦ false | inactive ↦ false | draining ↦ true ]

  -- `Activate`
  unfoldable pub activate : ℤ → Consumer → Outcome ConsumerError Consumer
  unfolding is_draining
  activate now c = do
    reject_if (is_draining c) cannot_activate
    ok (record c { status = active; updated_at = now })

  -- `Deactivate`
  unfoldable pub deactivate : ℤ → Consumer → Outcome ConsumerError Consumer
  unfolding is_draining
  deactivate now c = do
    reject_if (is_draining c) cannot_deactivate
    ok (record c { status = inactive; updated_at = now })

  -- `Drain`
  unfoldable pub drain : ℤ → Consumer → Consumer
  drain now c = record c { status = draining; updated_at = now }

  -- `UpdateFilter`
  unfoldable pub update_filter : ℤ → EventFilter R → Consumer → Outcome ConsumerError Consumer
  unfolding is_draining
  update_filter now f c = do
    reject_if (is_draining c) cannot_update_filter
    ok (record c { event_filter = f; updated_at = now })

  -- `MatchesEvent`
  unfoldable pub matches_event : Consumer → Event → Bool
  matches_event c e = matches R c.event_filter e
