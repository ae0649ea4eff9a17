-- ===== src/Replay/Tests.antt =====
-- Replays of three events.
use high_performance_event_s.Common.{
  ◌-◌, ◌/◌, ◌<◌, ◌≡◌, refl, true, false, String, List, [], ◌∷◌, none, some, length, take, ◌==◌,
  arith, All,
}
use high_performance_event_s.Common.Int.{pos, leb_ℤ}
use high_performance_event_s.Common.Outcome.{ok}
use high_performance_event_s.Domain.Event.{Event, priority_medium}
use high_performance_event_s.Domain.Filter.{Regexp, EventFilter}
use high_performance_event_s.Store.{EventStore, StoreError}
use high_performance_event_s.Store.Paging.{wrap_64}
use high_performance_event_s.Store.Retention.{InRange}
use high_performance_event_s.Replay.{
  ReplayRequest, Settings, Surroundings, default_settings, set_batch_size, completed,
  divided_by_zero, send_events, limited, tick_length, stream_replay_events, replay_events,
}
use high_performance_event_s.Replay.Streams.{
  up_to, chosen, stream_replay_events-prefix, stream_replay_events-completes,
}
use high_performance_event_s.Replay.Stored.{accepts, answer_of, replay-InRange}

abbrev order : String → Event
order id = record {
  id = id;
  source = "shop";
  event_type = "order";
  subject = "";
  payload = 1 ∷ [];
  data_content_type = "text/plain";
  schema_url = "";
  timestamp = pos 60;
  metadata = [];
  correlation_id = "";
  causation_id = "";
  partition_key = "";
  priority = priority_medium;
  created_at = pos 60;
}

abbrev three : List Event
three = order "a" ∷ order "b" ∷ order "c" ∷ []

abbrev calm : Surroundings
calm = record { done_before = λ i. false; done_sending = λ i. false }

-- The context ends before the second event.
abbrev cut : Surroundings
cut = record { done_before = λ i. i == 1; done_sending = λ i. false }

abbrev singly : Settings
singly = record { batch_size = pos 1; rate_limit_ms = pos 10; channel_buffer_size = pos 100 }

program : Unit {0}
unfolding stream_replay_events send_events limited tick_length wrap_64 default_settings
    set_batch_size replay_events
program = tt

two_waits : (stream_replay_events calm singly (pos 0) (ok three)).waits ≡ 2
unfolding program
two_waits = refl

first_only : (stream_replay_events cut singly (pos 0) (ok three)).sent ≡ order "a" ∷ []
unfolding program
first_only = refl

-- A batch size of zero panics after the first event.
zero_batch :
    (stream_replay_events calm (set_batch_size (pos 0) default_settings) (pos 0) (ok three)).ending
    ≡ divided_by_zero
unfolding program
zero_batch = refl

ticking : leb_ℤ (tick_length (pos 10)) (pos 0) ≡ false
unfolding program
ticking = refl

stream_replay_events-prefix_example :
    let sent = (stream_replay_events cut singly (pos 2) (ok three)).sent in
    sent ≡ take (length sent) (chosen (pos 2) (ok three))
stream_replay_events-prefix_example = stream_replay_events-prefix cut singly (pos 2) (ok three)

stream_replay_events-completes_example :
    let x = stream_replay_events calm singly (pos 2) (ok three) in
    let all = up_to (pos 2) three in
    (x.ending ≡ completed) × (x.sent ≡ all) × (0 < length all → x.waits ≡ (length all - 1) / 1)
stream_replay_events-completes_example =
    stream_replay_events-completes calm singly (pos 2) three (λ j. refl) (λ j. refl) ticking
      (omega arith)

abbrev literal : Regexp
literal = record { Regex = String; compile = λ p. some p; match_string = λ r text. true }

abbrev unfiltered : EventFilter literal
unfiltered = record {
  source_pattern = "";
  type_pattern = "";
  subject_pattern = "";
  metadata_filters = [];
  min_priority = pos 0;
  source_regex = none;
  type_regex = none;
  subject_regex = none;
}

abbrev hour : ReplayRequest
hour = record { start_time = pos 0; end_time = pos 3_600; event_filter = none; limit = pos 0 }

abbrev stored : EventStore
stored = record {
  events = three;
  max_retention = pos 1_000;
  last_cleanup = pos 0;
  time_buckets = (pos 0, three) ∷ [];
}

abbrev failure : StoreError → String
failure e = "query failed"

replay-InRange_example :
    All
      (InRange (pos 0) (pos 3_600) (accepts literal unfiltered))
      (stream_replay_events cut singly
        (pos 0)
        (answer_of literal (pos 100) unfiltered hour stored failure)).sent
replay-InRange_example = replay-InRange literal (pos 100) unfiltered hour stored failure cut singly
