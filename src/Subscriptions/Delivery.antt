-- ===== src/Subscriptions/Delivery.antt =====
-- What the receiver of a subscription gets, and that the forwarding ends.
use mathlib.Core.List.{append_assoc, append-nil}
use mathlib.Core.Path.{subst}
use high_performance_event_s.Common.{
  ℕ, ◌+◌, ◌*◌, ◌<◌, ◌≤◌, ◌≡◌, refl, sym, ap, ◌∙◌, true, false, List, [], ◌∷◌, ◌++◌, Option, none,
  some, length, length-append, arith, inl, inr, Option-cases,
}
use high_performance_event_s.Domain.Event.{Event}
use high_performance_event_s.Subscriptions.Forwarding.{
  Pipe, Forwards, stops_cancelled, takes, stops_closed, sends, Around, arrives, closes_input,
  receives, cancels, Step, forwards, hands_over, around, new_pipe, Reach, start, later,
}

abbrev pub held_list : Option Event → List Event
held_list none = []
held_list (some e) = e ∷ []

-- What was sent to the receiver, and what it has not read yet.
abbrev pub delivered : Pipe → List Event
delivered p = p.received ++ p.buffered

-- Every event that arrived is delivered, on its way, or lost; and none is lost unless the subscription
-- was cancelled.
pub record Accounts (p : Pipe) : Type 0 where
  pub rest : List Event
  pub all : p.arrived ≡ delivered p ++ rest
  pub on_way : p.output_closed ≡ false → rest ≡ held_list p.held ++ p.incoming
  pub finished :
      p.output_closed ≡ true → p.cancelled ≡ false → (rest ≡ []) × (p.input_closed ≡ true)
  pub fits : length p.buffered ≤ p.capacity

Forwards-Accounts : (p p' : Pipe) → Forwards p p' → Accounts p → Accounts p'
Forwards-Accounts p p' f a = elim f [
  | stops_cancelled o c e ↦ record {
    rest = a.rest;
    all = ground (arith, e, a.all);
    on_way = λ h. ground (arith, e, h);
    finished = λ h k. ground (arith, e, c, k);
    fits = ground (arith, e, a.fits);
  }
  | takes x r o h i e ↦ record {
    rest = a.rest;
    all = ground (arith, e, a.all);
    on_way = λ k. ground (arith, e, h, i, o, a.on_way);
    finished = λ k l. ground (arith, e, o, k);
    fits = ground (arith, e, a.fits);
  }
  | stops_closed o h i c e ↦ record {
    rest = a.rest;
    all = ground (arith, e, a.all);
    on_way = λ k. ground (arith, e, k);
    finished = λ k l. ground (arith, e, h, i, o, c, a.on_way);
    fits = ground (arith, e, a.fits);
  }
  | sends x o h room e ↦ record {
    rest = p.incoming;
    all = ground (
      arith,
      e,
      h,
      o,
      a.all,
      a.on_way,
      append_assoc p.received p.buffered (x ∷ []),
      append_assoc (p.received ++ p.buffered) (x ∷ []) p.incoming,
    );
    on_way = λ k. ground (arith, e, k);
    finished = λ k l. ground (arith, e, o, k);
    fits = ground (arith, e, room, length-append p.buffered (x ∷ []));
  }
]

Around-Accounts : (p p' : Pipe) → Around p p' → Accounts p → Accounts p'
Around-Accounts p p' f a = elim f [
  | arrives x o e ↦ record {
    rest = a.rest ++ x ∷ [];
    all = ground (arith, e, a.all, append_assoc (delivered p) a.rest (x ∷ []));
    on_way =
        λ k. ground (arith, e, k, a.on_way, append_assoc (held_list p.held) p.incoming (x ∷ []));
    finished = λ k l. ground (arith, e, o, k, l, a.finished);
    fits = ground (arith, e, a.fits);
  }
  | closes_input e ↦ record {
    rest = a.rest;
    all = ground (arith, e, a.all);
    on_way = λ k. ground (arith, e, k, a.on_way);
    finished = λ k l. ground (arith, e, k, l, a.finished);
    fits = ground (arith, e, a.fits);
  }
  | receives x r b e ↦ record {
    rest = a.rest;
    all = ground (arith, e, b, a.all, append_assoc p.received (x ∷ []) r);
    on_way = λ k. ground (arith, e, k, a.on_way);
    finished = λ k l. ground (arith, e, k, l, a.finished);
    fits = ground (arith, e, b, a.fits);
  }
  | cancels e ↦ record {
    rest = a.rest;
    all = ground (arith, e, a.all);
    on_way = λ k. ground (arith, e, k, a.on_way);
    finished = λ k l. ground (arith, e, l);
    fits = ground (arith, e, a.fits);
  }
]

empty_of_short : (es : List Event) → length es ≤ 0 → es ≡ []
empty_of_short [] h = refl
empty_of_short (e ∷ es) h = absurd (omega arith)

hands_over-Accounts :
    (p p' : Pipe) (x : Event)
    → p.output_closed ≡ false
    → p.held ≡ some x
    → p.capacity ≡ 0
    → p' ≡ record p { held = none; received = p.received ++ x ∷ [] }
    → Accounts p
    → Accounts p'
hands_over-Accounts p p' x o h c e a =
    let none_buffered = empty_of_short p.buffered (omega (arith, a.fits, c)) in
    record {
      rest = p.incoming;
      all = ground (
        arith,
        e,
        h,
        o,
        a.all,
        a.on_way,
        none_buffered,
        append-nil p.received,
        append-nil (p.received ++ x ∷ []),
        append_assoc p.received (x ∷ []) p.incoming,
      );
      on_way = λ k. ground (arith, e, k);
      finished = λ k l. ground (arith, e, o, k);
      fits = ground (arith, e, a.fits);
    }

Step-Accounts : (p p' : Pipe) → Step p p' → Accounts p → Accounts p'
Step-Accounts p p' (forwards f) a = Forwards-Accounts p p' f a
Step-Accounts p p' (hands_over x o h c e) a = hands_over-Accounts p p' x o h c e a
Step-Accounts p p' (around f) a = Around-Accounts p p' f a

pub Reach-Accounts : {capacity : ℕ} {p : Pipe} → Reach capacity p → Accounts p
unfolding new_pipe
Reach-Accounts start = record {
  rest = [];
  all = refl;
  on_way = λ h. refl;
  finished = λ h k. ground (arith, h);
  fits = omega arith;
}
Reach-Accounts (later r s) = Step-Accounts _ _ s (Reach-Accounts r)

-- However the goroutine, the broker, the receiver and a cancellation interleave, what the receiver has
-- got is a prefix of what arrived: in order, nothing twice and no gap.
pub Reach-prefix :
    {capacity : ℕ} {p : Pipe}
    → Reach capacity p
    → (rest : List Event) × (p.arrived ≡ p.received ++ rest)
Reach-prefix {p = p} r =
    let a = Reach-Accounts r in
    (p.buffered ++ a.rest, a.all ∙ append_assoc p.received p.buffered a.rest)

-- Where the output is closed and the subscription was not cancelled, nothing is lost: once the receiver
-- has read the buffer it has got every event that arrived.
pub Reach-complete :
    {capacity : ℕ} {p : Pipe}
    → Reach capacity p
    → p.output_closed ≡ true
    → p.cancelled ≡ false
    → p.buffered ≡ []
    → p.received ≡ p.arrived
Reach-complete {p = p} r o c b =
    let a = Reach-Accounts r in
    ground (arith, a.all, a.finished o c, b, append-nil p.received, append-nil (p.received ++ []))

-- How much the goroutine has still to do with what it holds.
abbrev pub work_left : Pipe → ℕ
work_left p =
    2 * length p.incoming
    + length (held_list p.held)
    + (elim (p.output_closed) [ true ↦ 0 | false ↦ 1 ])

-- Every step of the goroutine leaves it less to do, so between two steps of the others it takes finitely
-- many.
pub Forwards-work_left : {p p' : Pipe} → Forwards p p' → work_left p' < work_left p
Forwards-work_left {p} {p'} (stops_cancelled o c e) = ground (arith, o, e)
Forwards-work_left {p} {p'} (takes x r o h i e) = ground (arith, o, h, i, e)
Forwards-work_left {p} {p'} (stops_closed o h i c e) = ground (arith, o, h, i, e)
Forwards-work_left {p} {p'} (sends x o h room e) = ground (arith, o, h, e)

pub data Run : Pipe → Pipe → Type 0 where
  idle : (p : Pipe) → Run p p
  onward : (p q r : Pipe) → Forwards p q → Run q r → Run p r

-- The output is closed, and behind what the buffer held stands what was still to forward.
pub record Drained (p : Pipe) (todo : List Event) (q : Pipe) : Type 0 where
  pub ran : Run p q
  pub closed : q.output_closed ≡ true
  pub sent : q.buffered ≡ p.buffered ++ todo

drains_idle :
    (todo : List Event) (p : Pipe)
    → p.incoming ≡ todo
    → p.held ≡ none
    → p.output_closed ≡ false
    → p.input_closed ≡ true
    → length p.buffered + length todo ≤ p.capacity
    → (q : Pipe) × Drained p todo q
drains_idle [] p i h o c room =
    let q : Pipe = record p { output_closed = true } in
    (
      q,
      record {
        ran = onward p q q (stops_closed o h i c refl) (idle q);
        closed = refl;
        sent = sym (append-nil p.buffered);
      },
    )
drains_idle (e ∷ todo) p i h o c room =
    let q : Pipe = record p { incoming = todo; held = some e } in
    let r : Pipe = record q { held = none; buffered = p.buffered ++ e ∷ [] } in
    let (final, d) =
      drains_idle todo r refl refl o c (omega (arith, room, length-append p.buffered (e ∷ []))) in
    (
      final,
      record {
        ran =
            onward p q final (takes e todo o h i refl)
              (onward q r final (sends e o refl (omega (arith, room)) refl) d.ran);
        closed = d.closed;
        sent = d.sent ∙ append_assoc p.buffered (e ∷ []) todo;
      },
    )

-- Where the broker has closed its channel and the buffer has room for what is still to forward, the
-- goroutine can forward all of it, in order, and close the output, with no step of anyone else.
pub drains :
    (p : Pipe)
    → p.output_closed ≡ false
    → p.input_closed ≡ true
    → length p.buffered + length (held_list p.held ++ p.incoming) ≤ p.capacity
    → (q : Pipe) × Drained p (held_list p.held ++ p.incoming) q
drains p o c room = elim (Option-cases p.held) [
  | inl h ↦
      subst (λ l. (q : Pipe) × Drained p l q) (ap (λ x. held_list x ++ p.incoming) (sym h))
        (drains_idle p.incoming p refl h o c (ground (arith, h, room)))
  | inr (e, h) ↦
      let r : Pipe = record p { held = none; buffered = p.buffered ++ e ∷ [] } in
      let (final, d) =
        drains_idle p.incoming r refl refl o c
          (ground (arith, h, room, length-append p.buffered (e ∷ []))) in
      subst (λ l. (q : Pipe) × Drained p l q) (ap (λ x. held_list x ++ p.incoming) (sym h))
        (
          final,
          record {
            ran = onward p r final (sends e o h (ground (arith, h, room)) refl) d.ran;
            closed = d.closed;
            sent = d.sent ∙ append_assoc p.buffered (e ∷ []) p.incoming;
          },
        )
]
