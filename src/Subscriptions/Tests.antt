-- ===== src/Subscriptions/Tests.antt =====
-- A subscription with a buffer of one event.
use high_performance_event_s.Common.{
  ◌<◌, ◌≡◌, refl, true, false, String, List, [], ◌∷◌, ◌++◌, none, some, arith,
}
use high_performance_event_s.Common.Int.{pos}
use high_performance_event_s.Domain.Event.{Event, priority_medium}
use high_performance_event_s.Subscriptions.Forwarding.{
  Pipe, takes, stops_closed, sends, arrives, closes_input, receives, forwards, around, new_pipe,
  Reach, start, later,
}
use high_performance_event_s.Subscriptions.Delivery.{
  Reach-prefix, Reach-complete, work_left, Forwards-work_left, Drained, drains,
}

abbrev order : String → Event
order id = record {
  id = id;
  source = "shop";
  event_type = "order.created";
  subject = "o1";
  payload = 1 ∷ [];
  data_content_type = "application/json";
  schema_url = "";
  timestamp = pos 120;
  metadata = [];
  correlation_id = "";
  causation_id = "";
  partition_key = "";
  priority = priority_medium;
  created_at = pos 60;
}

abbrev empty : Pipe
empty = record {
  incoming = [];
  input_closed = false;
  held = none;
  buffered = [];
  capacity = 1;
  output_closed = false;
  cancelled = false;
  arrived = [];
  received = [];
}

abbrev one_in : Pipe
one_in = record empty { incoming = order "a" ∷ []; arrived = order "a" ∷ [] }

abbrev one_held : Pipe
one_held = record one_in { incoming = []; held = some (order "a") }

abbrev one_sent : Pipe
one_sent = record one_held { held = none; buffered = order "a" ∷ [] }

abbrev one_read : Pipe
one_read = record one_sent { buffered = []; received = order "a" ∷ [] }

abbrev ended : Pipe
ended = record one_read { input_closed = true }

abbrev closed : Pipe
closed = record ended { output_closed = true }

empty_reached : Reach 1 empty
unfolding new_pipe
empty_reached = start

one_sent_reached : Reach 1 one_sent
one_sent_reached =
    let in_reached : Reach 1 one_in =
      later empty_reached (around (arrives (order "a") refl refl)) in
    let held_reached : Reach 1 one_held =
      later in_reached (forwards (takes (order "a") [] refl refl refl refl)) in
    later held_reached (forwards (sends (order "a") refl refl (omega arith) refl))

closed_reached : Reach 1 closed
closed_reached =
    let read_reached : Reach 1 one_read =
      later one_sent_reached (around (receives (order "a") [] refl refl)) in
    let ended_reached : Reach 1 ended = later read_reached (around (closes_input refl)) in
    later ended_reached (forwards (stops_closed refl refl refl refl refl))

Reach-prefix_example : (rest : List Event) × (order "a" ∷ [] ≡ [] ++ rest)
Reach-prefix_example = Reach-prefix one_sent_reached

Reach-complete_example : closed.received ≡ closed.arrived
Reach-complete_example = Reach-complete closed_reached refl refl refl

Forwards-work_left_example : work_left one_sent < work_left one_held
Forwards-work_left_example =
    Forwards-work_left {p = one_held} {p' = one_sent}
      (sends (order "a") refl refl (omega arith) refl)

abbrev two_left : Pipe
two_left = record one_held { incoming = order "b" ∷ []; input_closed = true; capacity = 3 }

drains_example : (q : Pipe) × Drained two_left (order "a" ∷ order "b" ∷ []) q
drains_example = drains two_left refl refl (omega arith)
