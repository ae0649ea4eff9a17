-- ===== src/Producer/Tests.antt =====
-- A producer whose broker refuses every write.
use high_performance_event_s.Common.{◌≡◌, refl, true, false, [], ◌∷◌, Option, none, some}
use high_performance_event_s.Common.Int.{pos}
use high_performance_event_s.Domain.Event.{Event, priority_medium}
use high_performance_event_s.Producer.{
  close, auto_reset, Producer, Broker, Serializer, new_producer, increment, noted_times,
  record_success, record_failure, attempt_writes, publish, retries_exceeded, circuit_is_open,
  nil_serializer,
}
use high_performance_event_s.Producer.Circuit.{IsValid}
use high_performance_event_s.Producer.Calls.{
  publishing, closing, timer_fires, run, new_producer-run-IsValid,
}

abbrev order : Event
order = record {
  id = "e1";
  source = "shop";
  event_type = "order";
  subject = "";
  payload = 1 ∷ [];
  data_content_type = "text/plain";
  schema_url = "";
  timestamp = pos 0;
  metadata = [];
  correlation_id = "";
  causation_id = "";
  partition_key = "";
  priority = priority_medium;
  created_at = pos 0;
}

abbrev down : Broker
down = record { done_waiting = λ i. false; write = λ i. some "down" }

abbrev plain : Option Serializer
plain = some (λ e. none)

abbrev strained : Producer
strained = record {
  max_retries = 3;
  threshold = pos 5;
  failure_count = pos 4;
  success_count = pos 0;
  circuit_open = false;
  timer_set = false;
  closed = false;
  has_metrics = false;
  notes = [];
}

program : Unit {0}
unfolding new_producer increment noted_times record_success record_failure attempt_writes publish
    close auto_reset
program = tt

-- Without `SetSerializer` the first publication panics.
no_serializer : (publish down none (some order) (new_producer false)).0 ≡ nil_serializer
unfolding program
no_serializer = refl

fifth_fails : (publish down plain (some order) strained).0 ≡ retries_exceeded "down"
unfolding program
fifth_fails = refl

then_open :
    (publish down plain (some order) (publish down plain (some order) strained).1).0
    ≡ circuit_is_open
unfolding program
then_open = refl

-- A closing stops the reset of a circuit that is open, and so it stays open.
closed_open :
    let p = run (publishing down plain (some order) ∷ closing none ∷ timer_fires ∷ []) strained in
    (p.circuit_open ≡ true) × (p.timer_set ≡ false)
unfolding program
closed_open = (refl, refl)

new_producer-run-IsValid_example :
    IsValid (run (publishing down plain (some order) ∷ timer_fires ∷ []) (new_producer true))
new_producer-run-IsValid_example =
    new_producer-run-IsValid true (publishing down plain (some order) ∷ timer_fires ∷ [])
