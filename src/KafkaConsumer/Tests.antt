-- ===== src/KafkaConsumer/Tests.antt =====
-- Rounds with a good message, one that is filtered out, and one that cannot be decoded and whose commit
-- fails.
use high_performance_event_s.Common.{
  ℕ, ◌≡◌, refl, Bool, true, false, ◌||◌, String, List, [], ◌∷◌, ◌++◌, none, some, length, ◌==◌,
}
use high_performance_event_s.Common.Int.{pos}
use high_performance_event_s.Common.Outcome.{ok, err}
use high_performance_event_s.Domain.Event.{Event}
use high_performance_event_s.Serializer.{SerializerError}
use high_performance_event_s.Serializer.Sample.{
  codec, codec-Faithful, paid_event, paid_event_valid, paid_event_serialized,
}
use high_performance_event_s.KafkaConsumer.{
  Message, Consumer, Round, message, update_offset, offset_of, get_offset, new_consumer, subscribe,
  handle_fetch_error, handle_deserialization_error, send_event, commit_message, process_fetched,
  process_message, consume_messages,
}
use high_performance_event_s.KafkaConsumer.Rounds.{Decoder, Working, delivered_of, commits_of}
use high_performance_event_s.KafkaConsumer.Delivery.{
  Settles, consume_messages-Settles, consume_messages_complete,
}
use high_performance_event_s.KafkaConsumer.Wire.{
  Paired, Carries, Arrived, decoder, consume_messages-serialized,
}

-- An event with the first byte as its payload; the empty message cannot be decoded.
abbrev decode : Decoder
decode t u [] = err "no bytes"
decode t u (b ∷ bytes) = ok (record paid_event { payload = b ∷ [] })

abbrev below_two : Event → Bool
below_two e = elim (e.payload) [ [] ↦ false | b ∷ rest ↦ (b == 0) || (b == 1) ]

abbrev working : Consumer
working = record {
  serializer = some decode;
  accepts = some below_two;
  has_metrics = true;
  is_running = true;
  ctx_done = false;
  reader_closed = false;
  panicked = false;
  offsets = [];
  effects = [];
}

working-Working : Working decode (some below_two) working
working-Working = record { decodes = refl; filters = refl; no_panic = refl }

abbrev holding : ℕ → List ℕ → Message
holding n bytes = record { partition = pos 0; offset = pos n; value = bytes }

abbrev calm : Message → Round
calm m = record {
  done_before = false;
  fetched = message m;
  timestamp = pos 1;
  created_at = pos 2;
  done_sending = false;
  commit_answer = none;
}

abbrev three : List Round
three =
    calm (holding 1 (1 ∷ []))
    ∷ calm (holding 2 (9 ∷ []))
    ∷ record (calm (holding 3 [])) { commit_answer = some "not the leader" }
    ∷ []

-- The context ends while the second event waits for its receiver.
abbrev cut : List Round
cut =
    calm (holding 1 (1 ∷ []))
    ∷ record (calm (holding 2 (0 ∷ []))) { done_sending = true }
    ∷ calm (holding 3 (1 ∷ []))
    ∷ []

program : Unit {0}
unfolding consume_messages process_message process_fetched handle_fetch_error
    handle_deserialization_error send_event commit_message update_offset offset_of get_offset
    new_consumer subscribe
program = tt

all_asked : length (commits_of (consume_messages true three working).effects) ≡ 3
unfolding program
all_asked = refl

one_delivered : length (delivered_of (consume_messages true three working).effects) ≡ 1
unfolding program
one_delivered = refl

-- The event that was not delivered has moved the offset, but its message is not given to the reader to commit.
offset_ahead : get_offset (pos 0) (consume_messages true cut working) ≡ pos 2
unfolding program
offset_ahead = refl

cut_asked : length (commits_of (consume_messages true cut working).effects) ≡ 1
unfolding program
cut_asked = refl

-- Without `SetSerializer` the first message is a panic.
no_serializer : (consume_messages true three (subscribe (new_consumer false)).1).panicked ≡ true
unfolding program
no_serializer = refl

consume_messages-Settles_example :
    (n : ℕ) × Settles decode (some below_two) cut working (consume_messages true cut working) n
consume_messages-Settles_example =
    consume_messages-Settles decode (some below_two) true cut working working-Working

consume_messages_complete_example :
    Settles decode (some below_two) three working (consume_messages true three working) 3
consume_messages_complete_example =
    consume_messages_complete decode (some below_two) true three working working-Working refl
      ((refl, refl), ((refl, refl), ((refl, refl), tt)))

abbrev text : SerializerError → String
text e = "bad message"

abbrev reader : Consumer
reader = record working { serializer = some (decoder codec text); accepts = none }

abbrev carried : Round
carried = calm (holding 4 (123 ∷ []))

paid_carried : Carries codec text paid_event carried
paid_carried = record {
  carried = holding 4 (123 ∷ []);
  fetches = refl;
  valid = paid_event_valid;
  serialized = paid_event_serialized;
  open_before = refl;
  open_sending = refl;
}

consume_messages-serialized_example :
    (xs : List Event) × (delivered_of (consume_messages false (carried ∷ []) reader).effects
      ≡ [] ++ xs)
    × Paired (Arrived codec text) (paid_event ∷ []) xs
consume_messages-serialized_example =
    consume_messages-serialized codec text false (paid_event ∷ []) (carried ∷ []) reader
      codec-Faithful (paid_carried, tt) (record { decodes = refl; filters = refl; no_panic = refl })
      refl
