-- ===== src/KafkaConsumer/Wire.antt =====
-- The consumer with the JSON serializer, behind a producer that serializes.

use high_performance_event_s.Common.{
  ◌≡◌, refl, ap, ◌∙◌, Bool, false, String, List, [], ◌∷◌, ◌++◌, none, some, arith, All, length,
  take,
}
use high_performance_event_s.Common.Int.{ℤ}
use high_performance_event_s.Common.Outcome.{ok, wrap}
use high_performance_event_s.Domain.Event.{Event, validate}
use high_performance_event_s.Serializer.{Json, SerializerError, serialize, deserialize}
use high_performance_event_s.Serializer.Restoring.{Faithful, Restored, deserialize-serialize}
use high_performance_event_s.KafkaConsumer.{Message, Consumer, Round, message, consume_messages}
use high_performance_event_s.KafkaConsumer.Rounds.{delivered_of, Decoder, events_of, Working}
use high_performance_event_s.KafkaConsumer.Delivery.{consume_messages_complete}

-- Two lists of one length, related item by item.
abbrev pub Paired : {A B : Type 0} → (A → B → Type 0) → List A → List B → Type 0
Paired P [] [] = Unit
Paired P [] (y ∷ ys) = ⊥
Paired P (x ∷ xs) [] = ⊥
Paired P (x ∷ xs) (y ∷ ys) = P x y × Paired P xs ys

module _ (J : Json) (text : SerializerError → String) where
  -- `JSONSerializer.Deserialize` as the serializer of a consumer, its errors as texts
  abbrev pub decoder : Decoder
  decoder timestamp created_at bytes = wrap text (deserialize J timestamp created_at bytes)

  -- A round fetches a message that holds the serialization of a valid event, and its context lasts.
  pub record Carries (e : Event) (r : Round) : Type 0 where
    pub carried : Message
    pub fetches : r.fetched ≡ message carried
    pub valid : validate e ≡ ok tt
    pub serialized : (serialize J [] (some e)).0 ≡ ok carried.value
    pub open_before : r.done_before ≡ false
    pub open_sending : r.done_sending ≡ false

  -- An event that is restored, at some time.
  pub record Arrived (e e' : Event) : Type 0 where
    pub timestamp : ℤ
    pub created_at : ℤ
    pub same : Restored J.compact timestamp created_at e e'

  lasting :
      (es : List Event) (rs : List Round)
      → Paired Carries es rs
      → All (λ r. (r.done_before ≡ false) × (r.done_sending ≡ false)) rs
  lasting [] [] p = tt
  lasting [] (r ∷ rs) p = elim p [ ]
  lasting (e ∷ es) [] p = elim p [ ]
  lasting (e ∷ es) (r ∷ rs) p = ((p.0.open_before, p.0.open_sending), lasting es rs p.1)

  decoded :
      (es : List Event) (rs : List Round)
      → Faithful J
      → Paired Carries es rs
      → (xs : List Event) × (events_of decoder none rs ≡ xs) × Paired Arrived es xs
  decoded [] [] faithful p = ([], refl, tt)
  decoded [] (r ∷ rs) faithful p = elim p [ ]
  decoded (e ∷ es) [] faithful p = elim p [ ]
  decoded (e ∷ es) (r ∷ rs) faithful p =
      let c = p.0 in
      let (x, made, same) =
        deserialize-serialize J r.timestamp r.created_at e c.carried.value faithful c.valid
          c.serialized in
      let (xs, rest, pairs) = decoded es rs faithful p.1 in
      (
        x ∷ xs,
        ground (arith, c.fetches, made, rest),
        (record { timestamp = r.timestamp; created_at = r.created_at; same = same }, pairs),
      )

  take_all : (rs : List Round) → take (length rs) rs ≡ rs
  take_all [] = refl
  take_all (r ∷ rs) = ap (λ l. r ∷ l) (take_all rs)

  -- Where a producer has serialized valid events and the consumer fetches these messages one after the
  -- other, with the JSON serializer, no filter and a context that lasts, it delivers those events, each
  -- once and in order, as deserializing restores them.
  pub consume_messages-serialized :
      (has_channel : Bool) (es : List Event) (rs : List Round) (c : Consumer)
      → Faithful J
      → Paired Carries es rs
      → Working decoder none c
      → c.ctx_done ≡ false
      → (xs : List Event) × (delivered_of (consume_messages has_channel rs c).effects
          ≡ delivered_of c.effects ++ xs)
        × Paired Arrived es xs
  consume_messages-serialized has_channel es rs c faithful p w o =
      let (xs, made, pairs) = decoded es rs faithful p in
      let settled = consume_messages_complete decoder none has_channel rs c w o (lasting es rs p) in
      (
        xs,
        settled.events
            ∙ ap (λ l. delivered_of c.effects ++ events_of decoder none l) (take_all rs)
            ∙ ap (λ l. delivered_of c.effects ++ l) made,
        pairs,
      )
