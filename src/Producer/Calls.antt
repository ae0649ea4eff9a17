-- ===== src/Producer/Calls.antt =====
-- The calls of the producer and the timer of its circuit, in any order.
use mathlib.Core.Path.{subst}
use high_performance_event_s.Common.{
  ℕ, zero, suc, ◌<◌, ◌≡◌, refl, sym, ◌⊎◌, inl, inr, Bool, true, false, not, String, List, [], ◌∷◌,
  Option, none, some, ltb, arith, Bool-cases, Option-cases, if◌then◌else◌,
}
use high_performance_event_s.Common.Int.{pos}
use high_performance_event_s.Domain.Event.{Event}
use high_performance_event_s.Producer.{
  Producer, Published, Broker, Serializer, not_serialized, retries_exceeded, increment,
  record_failure, auto_reset, publish, serialize_events, publish_batch, close, new_producer,
}
use high_performance_event_s.Producer.Circuit.{
  SameCircuit, Attempted, ended, succeeded, exhausted, attempt_writes-Attempted, IsValid,
  Attempted-IsValid, SameCircuit-IsValid, record_failure-IsValid,
}

ℕ-cases : (n : ℕ) → (n ≡ 0) ⊎ ((k : ℕ) × (n ≡ suc k))
ℕ-cases zero = inl refl
ℕ-cases (suc k) = inr (k, refl)

-- What a call that publishes does: it is refused and changes nothing; the event cannot be
-- serialized, which is one failure; or the circuit is closed and the attempts are made.
pub data Course (b : Broker) (p : Producer) (result : Published) (p' : Producer) : Type 0 where
  refused : ((e : String) → ¬ (result ≡ retries_exceeded e)) → p' ≡ p → Course b p result p'
  unserialized :
      (e : String)
      → result ≡ not_serialized e
      → SameCircuit p' (record_failure p)
      → Course b p result p'
  attempted :
      p.circuit_open ≡ false → Attempted b 0 p.max_retries p result p' → Course b p result p'

pub publish-Course :
    (b : Broker) (s : Option Serializer) (e : Option Event) (p : Producer)
    → Course b p (publish b s e p).0 (publish b s e p).1
unfolding publish
publish-Course b s none p = refused (λ e h. ground (arith, h)) refl
publish-Course b none (some e) p = elim (Bool-cases p.circuit_open) [
  | inl o ↦ refused (λ x h. ground (arith, h, o)) (ground (arith, o))
  | inr o ↦ refused (λ x h. ground (arith, h, o)) (ground (arith, o))
]
publish-Course b (some serialize) (some e) p = elim (Bool-cases p.circuit_open) [
  | inl o ↦ refused (λ x h. ground (arith, h, o)) (ground (arith, o))
  | inr o ↦ elim (Option-cases (serialize e)) [
    | inr (msg, bad) ↦ unserialized msg (ground (arith, o, bad)) (ground (arith, o, bad))
    | inl good ↦ attempted o (
        subst (λ (x : Published × Producer). Attempted b 0 p.max_retries p x.0 x.1)
          (ground (arith, o, good)) (attempt_writes-Attempted b "publish" 1 p.max_retries 0 p))
  ]
]

pub publish_batch-Course :
    (b : Broker) (s : Serializer) (es : List (Option Event)) (p : Producer)
    → Course b p (publish_batch b s es p).0 (publish_batch b s es p).1
unfolding publish_batch
publish_batch-Course b s [] p = refused (λ e h. ground (arith, h)) refl
publish_batch-Course b s (e ∷ es) p = elim (Bool-cases p.circuit_open) [
  | inl o ↦ refused (λ x h. ground (arith, h, o)) (ground (arith, o))
  | inr o ↦ elim (ℕ-cases (serialize_events s (e ∷ es))) [
    | inl n ↦ refused (λ x h. ground (arith, h, o, n)) (ground (arith, o, n))
    | inr (k, n) ↦ attempted o (
        subst (λ (x : Published × Producer). Attempted b 0 p.max_retries p x.0 x.1)
          (ground (arith, o, n))
          (attempt_writes-Attempted b "publish_batch" (suc k) p.max_retries 0 p))
  ]
]

-- A call of the producer, or the timer of its circuit, which fires only while it is set.
pub data Call : Type 0 where
  publishing : Broker → Option Serializer → Option Event → Call
  publishing_batch : Broker → Serializer → List (Option Event) → Call
  timer_fires : Call
  closing : Option String → Call

abbrev pub after_call : Call → Producer → Producer
after_call (publishing b s e) p = (publish b s e p).1
after_call (publishing_batch b s es) p = (publish_batch b s es p).1
after_call timer_fires p = if p.timer_set then auto_reset p else p
after_call (closing answer) p = (close answer p).1

abbrev pub run : List Call → Producer → Producer
run [] p = p
run (c ∷ calls) p = run calls (after_call c p)

Course-IsValid :
    (b : Broker) (p p' : Producer) (result : Published)
    → Course b p result p'
    → IsValid p
    → IsValid p'
Course-IsValid b p p' result c v = elim c [
  | refused r e ↦ subst (λ x. IsValid x) (sym e) v
  | unserialized e r s ↦ SameCircuit-IsValid p' (record_failure p) s (record_failure-IsValid p v)
  | attempted o a ↦ Attempted-IsValid b 0 p.max_retries p p' result a v
]

after_call-IsValid : (c : Call) (p : Producer) → IsValid p → IsValid (after_call c p)
unfolding auto_reset close
after_call-IsValid (publishing b s e) p v = Course-IsValid b p _ _ (publish-Course b s e p) v
after_call-IsValid (publishing_batch b s es) p v =
    Course-IsValid b p _ _ (publish_batch-Course b s es p) v
after_call-IsValid timer_fires p v = elim (Bool-cases p.timer_set) [
  | inr unset ↦ subst (λ x. IsValid x) (ground (arith, unset)) v
  | inl set ↦ record {
    fixed = ground (arith, set, v.fixed);
    reset_due = λ k h. ground (arith, set, h);
    few_failures = λ h. (0, ground (arith, set), omega arith);
  }
]
after_call-IsValid (closing (some e)) p v = v
after_call-IsValid (closing none) p v = record {
  fixed = v.fixed;
  reset_due = λ k h. ground (arith, k);
  few_failures = v.few_failures;
}

run-IsValid : (calls : List Call) (p : Producer) → IsValid p → IsValid (run calls p)
run-IsValid [] p v = v
run-IsValid (c ∷ calls) p v = run-IsValid calls (after_call c p) (after_call-IsValid c p v)

-- Whatever is published on a new producer, whenever it is closed and whenever the timer fires, a circuit
-- that is open has its reset scheduled as long as no closing has succeeded, and a circuit that is closed
-- has counted fewer failures than the threshold of 5.
pub new_producer-run-IsValid :
    (has_metrics : Bool) (calls : List Call) → IsValid (run calls (new_producer has_metrics))
unfolding new_producer
new_producer-run-IsValid has_metrics calls = run-IsValid calls (new_producer has_metrics) (record {
  fixed = refl;
  reset_due = λ k h. ground (arith, h);
  few_failures = λ h. (0, refl, omega arith);
})

-- From a closed circuit with `f` failures, below the threshold of 5, a publication whose attempts are
-- all refused is counted as one failure, and opens the circuit with its reset scheduled exactly where
-- it is the fifth.
pub publish-exhausted :
    (b : Broker) (s : Option Serializer) (e : Option Event) (p : Producer) (f : ℕ) (msg : String)
    → p.threshold ≡ pos 5
    → p.circuit_open ≡ false
    → p.failure_count ≡ pos f
    → f < 5
    → (publish b s e p).0 ≡ retries_exceeded msg
    → let p' = (publish b s e p).1 in
      (p'.circuit_open ≡ not (ltb f 4))
      × (p'.failure_count ≡ (if ltb f 4 then pos (suc f) else pos 0))
      × (p'.circuit_open ≡ true → p'.timer_set ≡ true)
unfolding record_failure increment
publish-exhausted b s e p f msg t o c few h = elim (publish-Course b s e p) [
  | refused r same ↦ elim (r msg h) [ ]
  | unserialized x r same ↦ ground (arith, r, h)
  | attempted _ a ↦ elim a [
    | ended k le ref pos_k d r same ↦ ground (arith, r, h)
    | succeeded k le ref g w r same ↦ ground (arith, r, h)
    | exhausted x ref g w r same ↦ elim (Bool-cases (ltb f 4)) [
      | inl low ↦ ground (arith, same, t, o, c, few, low)
      | inr high ↦ ground (arith, same, t, o, c, few, high)
    ]
  ]
]
