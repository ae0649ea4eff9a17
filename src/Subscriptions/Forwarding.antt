-- ===== src/Subscriptions/Forwarding.antt =====
-- `forwardEvents` (internal/application/service/subscription_service.go), with its two channels and
-- its context, as a step relation: the goroutine, the broker, the receiver and whoever cancels take
-- their steps in any order.
use high_performance_event_s.Common.{
  ℕ, ◌<◌, ◌≡◌, Bool, true, false, List, [], ◌∷◌, ◌++◌, Option, none, some, length,
}
use high_performance_event_s.Domain.Event.{Event}

-- `incoming` is what the channel from the broker holds, `held` the event that the goroutine has
-- read and not sent, `buffered` the buffer of the output, of capacity `capacity`. `arrived` and
-- `received` are the whole histories of the two ends.
pub record Pipe : Type 0 where
  pub incoming : List Event
  pub input_closed : Bool
  pub held : Option Event
  pub buffered : List Event
  pub capacity : ℕ
  pub output_closed : Bool
  pub cancelled : Bool
  pub arrived : List Event
  pub received : List Event

-- A step of the goroutine. Where both cases of a `select` are ready it takes either.
pub data Forwards (p p' : Pipe) : Type 0 where
  -- `<-ctx.Done()` of the outer or of the inner select; the held event is dropped
  stops_cancelled :
      p.output_closed ≡ false
      → p.cancelled ≡ true
      → p' ≡ record p { output_closed = true; held = none }
      → Forwards p p'
  -- `event, ok := <-in`
  takes :
      (e : Event) (rest : List Event)
      → p.output_closed ≡ false
      → p.held ≡ none
      → p.incoming ≡ e ∷ rest
      → p' ≡ record p { incoming = rest; held = some e }
      → Forwards p p'
  -- `!ok`
  stops_closed :
      p.output_closed ≡ false
      → p.held ≡ none
      → p.incoming ≡ []
      → p.input_closed ≡ true
      → p' ≡ record p { output_closed = true }
      → Forwards p p'
  -- `out <- event`
  sends :
      (e : Event)
      → p.output_closed ≡ false
      → p.held ≡ some e
      → length p.buffered < p.capacity
      → p' ≡ record p { held = none; buffered = p.buffered ++ e ∷ [] }
      → Forwards p p'

-- A step of the broker, of the receiver, or of who holds the cancel function.
pub data Around (p p' : Pipe) : Type 0 where
  arrives :
      (e : Event)
      → p.input_closed ≡ false
      → p' ≡ record p { incoming = p.incoming ++ e ∷ []; arrived = p.arrived ++ e ∷ [] }
      → Around p p'
  closes_input : p' ≡ record p { input_closed = true } → Around p p'
  receives :
      (e : Event) (rest : List Event)
      → p.buffered ≡ e ∷ rest
      → p' ≡ record p { buffered = rest; received = p.received ++ e ∷ [] }
      → Around p p'
  cancels : p' ≡ record p { cancelled = true } → Around p p'

pub data Step (p p' : Pipe) : Type 0 where
  forwards : Forwards p p' → Step p p'
  -- a channel without a buffer: the send and the receipt are one step
  hands_over :
      (e : Event)
      → p.output_closed ≡ false
      → p.held ≡ some e
      → p.capacity ≡ 0
      → p' ≡ record p { held = none; received = p.received ++ e ∷ [] }
      → Step p p'
  around : Around p p' → Step p p'

-- The pipe of a new subscription.
unfoldable pub new_pipe : ℕ → Pipe
new_pipe capacity = record {
  incoming = [];
  input_closed = false;
  held = none;
  buffered = [];
  capacity = capacity;
  output_closed = false;
  cancelled = false;
  arrived = [];
  received = [];
}

pub data Reach (capacity : ℕ) : Pipe → Type 0 where
  start : Reach capacity (new_pipe capacity)
  later : {p p' : Pipe} → Reach capacity p → Step p p' → Reach capacity p'
