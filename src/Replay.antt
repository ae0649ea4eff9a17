-- ===== src/Replay.antt =====
-- The replay of stored events (internal/application/service/replay_service.go). The answer of the
-- store's query is an argument; a send that the receiver makes wait is a choice of the surroundings,
-- between the send and the end of the context. Log lines are left out.
pub mod Streams
pub mod Stored
mod Tests
use high_performance_event_s.Common.{
  ℕ, zero, suc, ◌+◌, ◌*◌, ◌%◌, Bool, true, false, ◌&&◌, String, List, [], ◌∷◌, ◌++◌, Option, none,
  some, length, take, ltb, leb, ◌==◌, if◌then◌else◌,
}
use high_performance_event_s.Common.Int.{ℤ, pos, negsuc, ltb_ℤ, leb_ℤ, pos_part, neg_part}
use high_performance_event_s.Common.Outcome.{Outcome, ok, err, wrap}
use high_performance_event_s.Domain.Event.{Event, priority_unspecified}
use high_performance_event_s.Domain.Filter.{Regexp, EventFilter, FilterError, new_event_filter}
use high_performance_event_s.Requests.{EventFilterDto, to_event_filter}
use high_performance_event_s.Ingest.{Metric, error_recorded, latency_recorded}
use high_performance_event_s.Store.Paging.{wrap_64}

-- `ReplayRequest`
pub record ReplayRequest : Type 0 where
  pub start_time : ℤ
  pub end_time : ℤ
  pub event_filter : Option EventFilterDto
  pub limit : ℤ

-- The settings of `ReplayService`
pub record Settings : Type 0 where
  pub batch_size : ℤ
  pub rate_limit_ms : ℤ
  pub channel_buffer_size : ℤ

-- `NewReplayService`
unfoldable pub default_settings : Settings
default_settings = record {
  batch_size = pos 100;
  rate_limit_ms = pos 10;
  channel_buffer_size = pos 100;
}

-- `SetBatchSize`
unfoldable pub set_batch_size : ℤ → Settings → Settings
set_batch_size n s = record s { batch_size = n }

-- `SetRateLimit`
unfoldable pub set_rate_limit : ℤ → Settings → Settings
set_rate_limit ms s = record s { rate_limit_ms = ms }

-- `SetChannelBufferSize`
unfoldable pub set_channel_buffer_size : ℤ → Settings → Settings
set_channel_buffer_size n s = record s { channel_buffer_size = n }

-- Why a replay does not begin; the last is the panic of `make` for a negative size.
pub data ReplayError : Type 0 where
  reversed_range : ReplayError
  invalid_filter : FilterError → ReplayError
  invalid_default_filter : FilterError → ReplayError
  negative_buffer : ReplayError

-- The filter of the request, or the empty one
unfoldable pub replay_filter :
    (R : Regexp) → Option EventFilterDto → Outcome ReplayError (EventFilter R)
replay_filter R (some f) = wrap invalid_filter (to_event_filter R f)
replay_filter R none =
    wrap invalid_default_filter (new_event_filter R "" "" "" [] priority_unspecified)

-- The error that is recorded with the error that is returned
unfoldable pub replay_metric : ReplayError → List Metric
replay_metric reversed_range = error_recorded "ReplayEvents" "invalid_time_range" ∷ []
replay_metric (invalid_filter e) = error_recorded "ReplayEvents" "filter_conversion" ∷ []
replay_metric (invalid_default_filter e) = []
replay_metric negative_buffer = []

-- `ReplayEvents` up to the start of the stream: the filter that it runs with, and what is recorded.
unfoldable pub replay_events :
    (R : Regexp) → Settings → ReplayRequest → Outcome ReplayError (EventFilter R) × List Metric
unfolding replay_filter replay_metric
replay_events R s r =
    if ltb_ℤ r.end_time r.start_time
    then (err reversed_range, replay_metric reversed_range)
    else (elim (replay_filter R r.event_filter) [
      | err e ↦ (err e, replay_metric e)
      | ok f ↦
          if ltb_ℤ s.channel_buffer_size (pos 0)
          then (err negative_buffer, replay_metric negative_buffer)
          else (ok f, [])
    ])

-- How a stream ends; a panic of the ticker, and one of the remainder by zero, among the ways.
pub data Ending : Type 0 where
  completed cancelled cancelled_sending query_failed no_ticker divided_by_zero : Ending

-- What a stream has done at its end: the events sent, and how often it waited for the ticker.
pub record Stream : Type 0 where
  pub sent : List Event
  pub waits : ℕ
  pub ending : Ending
  pub recorded : List Metric

-- By the number of the event: whether the context is done before it, and in place of its send.
pub record Surroundings : Type 0 where
  pub done_before : ℕ → Bool
  pub done_sending : ℕ → Bool

-- The number of the batch size without its sign: `%` is zero for both alike.
abbrev pub size_of : ℤ → ℕ
size_of b = pos_part b + neg_part b

-- An event is sent, and then what follows it.
abbrev pub after_send : Event → ℕ → Stream → Stream
after_send e waited s = record s { sent = e ∷ s.sent; waits = waited + s.waits }

-- The loop of `streamReplayEvents` from event `i` on, of `total` events in all.
unfoldable pub send_events : Surroundings → ℤ → ℕ → ℕ → List Event → Stream
send_events c batch total i [] = record {
  sent = [];
  waits = 0;
  ending = completed;
  recorded = latency_recorded "replay_total" ∷ [];
}
send_events c batch total i (e ∷ es) =
    let rest = send_events c batch total (suc i) es in
    elim (c.done_before i) [
      | true ↦ record { sent = []; waits = 0; ending = cancelled; recorded = [] }
      | false ↦ elim (c.done_sending i) [
        | true ↦ record { sent = []; waits = 0; ending = cancelled_sending; recorded = [] }
        | false ↦ elim (size_of batch == 0) [
          | true ↦ record { sent = e ∷ []; waits = 0; ending = divided_by_zero; recorded = [] }
          | false ↦
              after_send e (if (suc i % size_of batch == 0) && ltb (suc i) total then 1 else 0) rest
        ]
      ]
    ]

-- `events[:limit]`, where there is a limit and more events
unfoldable pub limited : ℤ → List Event → List Event
limited limit events =
    if ltb_ℤ (pos 0) limit && ltb_ℤ limit (pos (length events))
    then take (pos_part limit) events
    else events

-- `time.Duration(ms) * time.Millisecond`, at 64 bits
unfoldable pub tick_length : ℤ → ℤ
tick_length (pos n) = wrap_64 (n * 1_000_000)
tick_length (negsuc n) = elim (wrap_64 (suc n * 1_000_000)) [
  | pos zero ↦ pos 0
  | pos (suc m) ↦ negsuc m
  | negsuc m ↦ if ltb m 9223372036854775807 then pos (suc m) else negsuc m
]

-- `streamReplayEvents`; `answer` is what the query of the store returns.
unfoldable pub stream_replay_events :
    Surroundings → Settings → ℤ → Outcome String (List Event) → Stream
unfolding send_events limited tick_length
stream_replay_events c s limit answer =
    if leb_ℤ (tick_length s.rate_limit_ms) (pos 0)
    then record { sent = []; waits = 0; ending = no_ticker; recorded = [] }
    else (elim answer [
      | err e ↦ record {
        sent = [];
        waits = 0;
        ending = query_failed;
        recorded = latency_recorded "replay_query" ∷ error_recorded "ReplayEvents" "query" ∷ [];
      }
      | ok events ↦
          (let chosen = limited limit events in
            let run = send_events c s.batch_size (length chosen) 0 chosen in
            record run { recorded = latency_recorded "replay_query" ∷ run.recorded })
    ])
