-- ===== src/KafkaConsumer.antt =====
-- The Kafka consumer (internal/infrastructure/kafka/consumer.go): the loop of `consumeMessages` over
-- what each of its rounds meets, and the map of the offsets. The reader of kafka-go answers the
-- fetches and the commits. Log lines are left out, and the calls stand one after the other.
pub mod Rounds
pub mod Delivery
pub mod Wire
mod Tests
use high_performance_event_s.Common.{
  ℕ, Bool, true, false, ◌||◌, String, List, [], ◌∷◌, ◌++◌, Option, none, some, if◌then◌else◌,
}
use high_performance_event_s.Common.Int.{ℤ, pos, eqb_ℤ}
use high_performance_event_s.Common.Outcome.{Outcome, ok, err}
use high_performance_event_s.Domain.Event.{Event}

-- `kafka.Message`, its fields that are read
pub record Message : Type 0 where
  pub partition : ℤ
  pub offset : ℤ
  pub value : List ℕ

-- What the consumer does, in order; a commit has the reader's answer, where `some` is an error.
pub data Effect : Type 0 where
  delivered : Event → Effect
  commit_answered : Message → Option String → Effect
  error_sent : String → Effect
  error_recorded : String → Effect
  subscribed_recorded : Effect

-- `OffsetManager`: its map, with one entry for each key.
abbrev pub Offsets : Type 0
Offsets = List (ℤ × ℤ)

-- `UpdateOffset`
unfoldable pub update_offset : ℤ → ℤ → Offsets → Offsets
update_offset p o [] = (p, o) ∷ []
update_offset p o ((q, old) ∷ m) = if eqb_ℤ q p then (p, o) ∷ m else (q, old) ∷ update_offset p o m

-- `OffsetManager.GetOffset`: zero where the partition has none
unfoldable pub offset_of : ℤ → Offsets → ℤ
offset_of p [] = pos 0
offset_of p ((q, o) ∷ m) = if eqb_ℤ q p then o else offset_of p m

-- The loop of `GetAllOffsets` over the entries that are left
unfoldable pub copy_offsets : Offsets → Offsets → Offsets
unfolding update_offset
copy_offsets result [] = result
copy_offsets result ((p, o) ∷ rest) = copy_offsets (update_offset p o result) rest

-- `GetAllOffsets`
unfoldable pub get_all_offsets : Offsets → Offsets
unfolding copy_offsets
get_all_offsets m = copy_offsets [] m

-- `Reset`
unfoldable pub reset : Offsets → Offsets
reset m = []

-- `Consumer`; a serializer is read with two readings of the clock. `ctx_done` is the context of the
-- subscription, `reader_closed` the reader, `panicked` that a nil serializer was called.
pub record Consumer : Type 0 where
  pub serializer : Option (ℤ → ℤ → List ℕ → Outcome String Event)
  pub accepts : Option (Event → Bool)
  pub has_metrics : Bool
  pub is_running : Bool
  pub ctx_done : Bool
  pub reader_closed : Bool
  pub panicked : Bool
  pub offsets : Offsets
  pub effects : List Effect

-- `NewConsumer`, where the logger and the configuration are given
unfoldable pub new_consumer : Bool → Consumer
new_consumer metrics = record {
  serializer = none;
  accepts = none;
  has_metrics = metrics;
  is_running = false;
  ctx_done = false;
  reader_closed = false;
  panicked = false;
  offsets = [];
  effects = [];
}

-- `SetFilter`
unfoldable pub set_filter : Option (Event → Bool) → Consumer → Consumer
set_filter f c = record c { accepts = f }

-- `SetSerializer`
unfoldable pub set_serializer : Option (ℤ → ℤ → List ℕ → Outcome String Event) → Consumer → Consumer
set_serializer s c = record c { serializer = s }

-- `GetOffset`
unfoldable pub get_offset : ℤ → Consumer → ℤ
unfolding offset_of
get_offset p c = offset_of p c.offsets

-- `CommitOffset`: nothing but the map is told.
unfoldable pub commit_offset : ℤ → ℤ → Consumer → Consumer
unfolding update_offset
commit_offset p o c = record c { offsets = update_offset p o c.offsets }

-- What `FetchMessage` answers.
pub data Fetched : Type 0 where
  message : Message → Fetched
  canceled : Fetched
  failed : String → Fetched

-- What one round of the loop meets: whether the context is done before it, the answer to the fetch, the
-- clock, whether the end of the context comes before the receiver of the round's send, and what the
-- reader answers to a commit.
pub record Round : Type 0 where
  pub done_before : Bool
  pub fetched : Fetched
  pub timestamp : ℤ
  pub created_at : ℤ
  pub done_sending : Bool
  pub commit_answer : Option String

abbrev pub doing : List Effect → Consumer → Consumer
doing es c = record c { effects = c.effects ++ es }

-- `kc.metrics != nil`
abbrev pub noted : Consumer → Effect → List Effect
noted c e = if c.has_metrics then e ∷ [] else []

-- `handleFetchError`; the channel of the errors may be nil.
unfoldable pub handle_fetch_error : Bool → Bool → String → Consumer → Consumer
handle_fetch_error has_channel done e c =
    let metric = noted c (error_recorded "fetch_error") in
    if has_channel
    then (if done
        then record (doing metric c) { ctx_done = true }
        else doing (error_sent e ∷ metric) c)
    else doing metric c

-- `commitMessage`: an error is only logged.
unfoldable pub commit_message : Message → Option String → Consumer → Consumer
commit_message m answer c = doing (commit_answered m answer ∷ []) c

-- `handleDeserializationError`
unfoldable pub handle_deserialization_error : Message → Option String → Consumer → Consumer
unfolding commit_message
handle_deserialization_error m answer c =
    commit_message m answer (doing (noted c (error_recorded "deserialization_error")) c)

-- `sendEvent`
unfoldable pub send_event : Bool → Event → Message → Option String → Consumer → Consumer
unfolding commit_message
send_event done e m answer c =
    if done
    then record c { ctx_done = true }
    else commit_message m answer (doing (delivered e ∷ []) c)

-- `kc.filter == nil || kc.filter(event)`
abbrev pub lets_through : Option (Event → Bool) → Event → Bool
lets_through none e = true
lets_through (some f) e = f e

-- `processMessage` from the message on
unfoldable pub process_fetched : Round → Message → Consumer → Consumer
unfolding handle_deserialization_error send_event commit_message update_offset
process_fetched r m c = elim (c.serializer) [
  | none ↦ record c { panicked = true }
  | some decode ↦ elim (decode r.timestamp r.created_at m.value) [
    | err e ↦ handle_deserialization_error m r.commit_answer c
    | ok event ↦
        if lets_through c.accepts event
        then send_event r.done_sending event m r.commit_answer (
            doing (noted c subscribed_recorded)
              (record c { offsets = update_offset m.partition m.offset c.offsets }))
        else commit_message m r.commit_answer c
  ]
]

-- `processMessage`
unfoldable pub process_message : Bool → Round → Consumer → Consumer
unfolding process_fetched handle_fetch_error
process_message has_channel r c = elim (r.fetched) [
  | canceled ↦ c
  | failed e ↦ handle_fetch_error has_channel r.done_sending e c
  | message m ↦ process_fetched r m c
]

-- `consumeMessages`, as far as the rounds go; it stops at the first round before which the context is
-- done, and with a panic.
unfoldable pub consume_messages : Bool → List Round → Consumer → Consumer
unfolding process_message
consume_messages has_channel [] c = c
consume_messages has_channel (r ∷ rs) c =
    let rest = consume_messages has_channel rs (process_message has_channel r c) in
    if c.panicked
    then c
    else (if c.ctx_done || r.done_before
        then record c { ctx_done = true; is_running = false }
        else rest)

pub data ConsumerError : Type 0 where
  already_running not_running : ConsumerError
  close_failed : String → ConsumerError

-- `Subscribe`, before the first round
unfoldable pub subscribe : Consumer → Outcome ConsumerError (Unit {0}) × Consumer
subscribe c =
    if c.is_running
    then (err already_running, c)
    else (ok tt, record c { ctx_done = false; is_running = true })

-- `Unsubscribe`; `stopped` is whether the goroutine ends before the context of the call, and `answer`
-- what the reader says to its closing.
unfoldable pub unsubscribe :
    Bool → Option String → Consumer → Outcome ConsumerError (Unit {0}) × Consumer
unsubscribe stopped answer c =
    if c.is_running
    then (
      elim answer [ some e ↦ err (close_failed e) | none ↦ ok tt ],
      record c {
        ctx_done = true;
        is_running = if stopped then false else true;
        reader_closed = true;
      },
    )
    else (err not_running, c)

-- `Close`
unfoldable pub close : Bool → Option String → Consumer → Outcome ConsumerError (Unit {0}) × Consumer
unfolding unsubscribe
close stopped answer c = unsubscribe stopped answer c
