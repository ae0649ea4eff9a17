-- ===== src/Producer/Circuit.antt =====
-- What the calls of the producer do to its circuit.
use mathlib.Core.Path.{subst}
use high_performance_event_s.Common.{
  ℕ, zero, suc, ◌+◌, ◌<◌, ◌≤◌, none, ◌≡◌, sym, ◌∙◌, inl, inr, true, false, ◌&&◌, String, some, ltb,
  arith, Bool-cases, Option-cases,
}
use high_performance_event_s.Common.Int.{pos, leb_ℤ}
use high_performance_event_s.Producer.{
  Producer, Note, Published, Broker, published, cancelled, retries_exceeded, duration_noted,
  published_noted, increment, noted, noted_times, record_success, record_failure, attempt_writes,
}

-- The two producers differ at most in what they handed to the collector.
pub record SameCircuit (p q : Producer) : Type 0 where
  pub same_open : p.circuit_open ≡ q.circuit_open
  pub same_failures : p.failure_count ≡ q.failure_count
  pub same_successes : p.success_count ≡ q.success_count
  pub same_timer : p.timer_set ≡ q.timer_set
  pub same_closed : p.closed ≡ q.closed
  pub same_threshold : p.threshold ≡ q.threshold

noted_times-SameCircuit : (k : ℕ) (n : Note) (p : Producer) → SameCircuit (noted_times k n p) p
unfolding noted_times
noted_times-SameCircuit zero n p = ground arith
noted_times-SameCircuit (suc k) n p = ground (arith, noted_times-SameCircuit k n (noted n p))

record_success-noted :
    (n : Note) (p : Producer) → SameCircuit (record_success (noted n p)) (record_success p)
unfolding record_success
record_success-noted n p = ground arith

record_failure-noted :
    (n : Note) (p : Producer) → SameCircuit (record_failure (noted n p)) (record_failure p)
unfolding record_failure
record_failure-noted n p = ground arith

-- The context does not end the wait before this attempt; before the first there is none.
abbrev pub Goes : Broker → ℕ → Type 0
Goes b attempt = (ltb 0 attempt && b.done_waiting attempt) ≡ false

-- From this attempt on, `k` attempts are made, and the writer refuses each.
abbrev pub Refused : Broker → ℕ → ℕ → Type 0
Refused b attempt zero = Unit
Refused b attempt (suc k) =
    Goes b attempt × ((e : String) × (b.write attempt ≡ some e)) × Refused b (suc attempt) k

-- What the attempts to write do, with `left` retries after this one: after some that are refused, the
-- context ends a wait, and neither counter changes; or a write succeeds, which is one success; or all
-- attempts are refused, which is one failure with the error of the last.
pub data Attempted (b : Broker) (attempt left : ℕ) (p : Producer) (result : Published)
    (p' : Producer) : Type 0 where
  ended :
      (k : ℕ)
      → k ≤ left
      → Refused b attempt k
      → 0 < attempt + k
      → b.done_waiting (attempt + k) ≡ true
      → result ≡ cancelled
      → SameCircuit p' p
      → Attempted b attempt left p result p'
  succeeded :
      (k : ℕ)
      → k ≤ left
      → Refused b attempt k
      → Goes b (attempt + k)
      → b.write (attempt + k) ≡ none
      → result ≡ published
      → SameCircuit p' (record_success p)
      → Attempted b attempt left p result p'
  exhausted :
      (e : String)
      → Refused b attempt left
      → Goes b (attempt + left)
      → b.write (attempt + left) ≡ some e
      → result ≡ retries_exceeded e
      → SameCircuit p' (record_failure p)
      → Attempted b attempt left p result p'

one_more : (attempt k : ℕ) → suc attempt + k ≡ attempt + suc k
one_more attempt k = omega arith

no_more : (attempt : ℕ) → attempt ≡ attempt + 0
no_more attempt = omega arith

-- One refused attempt in front of others.
Attempted-refused :
    (b : Broker) (attempt left : ℕ) (n : Note) (p p' : Producer) (result : Published)
    → Goes b attempt
    → (e : String) × (b.write attempt ≡ some e)
    → Attempted b (suc attempt) left (noted n p) result p'
    → Attempted b attempt (suc left) p result p'
Attempted-refused b attempt left n p p' result g w a = elim a [
  | ended k le refused positive done r s ↦
      ended (suc k) (omega (arith, le)) (g, w, refused) (omega arith)
        (subst (λ i. b.done_waiting i ≡ true) (one_more attempt k) done) r (ground (arith, s))
  | succeeded k le refused goes written r s ↦
      succeeded (suc k) (omega (arith, le)) (g, w, refused)
        (subst (λ i. Goes b i) (one_more attempt k) goes)
        (subst (λ i. b.write i ≡ none) (one_more attempt k) written) r
        (ground (arith, s, record_success-noted n p))
  | exhausted e refused goes failed r s ↦
      exhausted e (g, w, refused) (subst (λ i. Goes b i) (one_more attempt left) goes)
        (subst (λ i. b.write i ≡ some e) (one_more attempt left) failed) r
        (ground (arith, s, record_failure-noted n p))
]

-- The wait before the attempt is ended, or the write succeeds.
ended_now :
    (b : Broker) (attempt left : ℕ) (p p' : Producer) (result : Published)
    → (ltb 0 attempt && b.done_waiting attempt) ≡ true
    → result ≡ cancelled
    → SameCircuit p' p
    → Attempted b attempt left p result p'
ended_now b attempt left p p' result c r s =
    ended 0 (omega arith) tt (ground (arith, c))
      (subst (λ i. b.done_waiting i ≡ true) (no_more attempt) (ground (arith, c))) r s

succeeded_now :
    (b : Broker) (attempt left : ℕ) (p p' : Producer) (result : Published)
    → Goes b attempt
    → b.write attempt ≡ none
    → result ≡ published
    → SameCircuit p' (record_success p)
    → Attempted b attempt left p result p'
succeeded_now b attempt left p p' result g w r s =
    succeeded 0 (omega arith) tt (subst (λ i. Goes b i) (no_more attempt) g)
      (subst (λ i. b.write i ≡ none) (no_more attempt) w) r s

go_on :
    (b : Broker) (operation : String) (messages left attempt : ℕ) (p : Producer)
    → (ltb 0 attempt && b.done_waiting attempt) ≡ false
    → (e : String) × (b.write attempt ≡ some e)
    → attempt_writes b operation messages left (suc attempt) (noted duration_noted p)
      ≡ attempt_writes b operation messages (suc left) attempt p
unfolding attempt_writes
go_on b operation messages left attempt p c (e, w) = ground (arith, c, w)

pub attempt_writes-Attempted :
    (b : Broker) (operation : String) (messages left attempt : ℕ) (p : Producer)
    → let x = attempt_writes b operation messages left attempt p in
      Attempted b attempt left p x.0 x.1
unfolding attempt_writes
attempt_writes-Attempted b operation messages zero attempt p =
    elim (Bool-cases (ltb 0 attempt && b.done_waiting attempt)) [
      | inl c ↦ ended_now b attempt 0 p _ _ c (ground (arith, c)) (ground (arith, c))
      | inr c ↦ elim (Option-cases (b.write attempt)) [
        | inl w ↦ succeeded_now b attempt 0 p _ _ c w (ground (arith, c, w)) (
            ground (
              arith,
              c,
              w,
              record_success-noted duration_noted p,
              noted_times-SameCircuit messages published_noted
                  (record_success (noted duration_noted p)),
            ))
        | inr (e, w) ↦
            exhausted e tt (subst (λ i. Goes b i) (no_more attempt) c)
              (subst (λ i. b.write i ≡ some e) (no_more attempt) w) (ground (arith, c, w))
              (ground (arith, c, w, record_failure-noted duration_noted p))
      ]
    ]
attempt_writes-Attempted b operation messages (suc left) attempt p =
    elim (Bool-cases (ltb 0 attempt && b.done_waiting attempt)) [
      | inl c ↦ ended_now b attempt (suc left) p _ _ c (ground (arith, c)) (ground (arith, c))
      | inr c ↦ elim (Option-cases (b.write attempt)) [
        | inl w ↦ succeeded_now b attempt (suc left) p _ _ c w (ground (arith, c, w)) (
            ground (
              arith,
              c,
              w,
              record_success-noted duration_noted p,
              noted_times-SameCircuit messages published_noted
                  (record_success (noted duration_noted p)),
            ))
        | inr (e, w) ↦
            subst (λ (x : Published × Producer). Attempted b attempt (suc left) p x.0 x.1)
              (go_on b operation messages left attempt p c (e, w))
              (Attempted-refused b attempt left duration_noted p _ _ c (e, w)
                (attempt_writes-Attempted b operation messages left (suc attempt)
                  (noted duration_noted p)))
      ]
    ]

-- A circuit that is open has its reset scheduled, unless the producer was closed, and one that is closed has counted fewer failures
-- than the threshold, which is 5.
pub record IsValid (p : Producer) : Type 0 where
  pub fixed : p.threshold ≡ pos 5
  pub reset_due : p.closed ≡ false → p.circuit_open ≡ true → p.timer_set ≡ true
  pub few_failures : p.circuit_open ≡ false → (f : ℕ) × (p.failure_count ≡ pos f) × (f < 5)

pub SameCircuit-IsValid : (p q : Producer) → SameCircuit p q → IsValid q → IsValid p
SameCircuit-IsValid p q s v = record {
  fixed = s.same_threshold ∙ v.fixed;
  reset_due = λ k h. s.same_timer ∙ v.reset_due (sym s.same_closed ∙ k) (sym s.same_open ∙ h);
  few_failures = λ h.
      let (f, counted, few) = v.few_failures (sym s.same_open ∙ h) in
      (f, s.same_failures ∙ counted, few);
}

record_success-IsValid : (p : Producer) → IsValid p → IsValid (record_success p)
unfolding record_success
record_success-IsValid p v =
    elim (Bool-cases (p.circuit_open && leb_ℤ p.threshold (increment p.success_count))) [
      | inl c ↦ record {
        fixed = ground (arith, c, v.fixed);
        reset_due = λ k h. ground (arith, c, h);
        few_failures = λ h. (0, ground (arith, c), omega arith);
      }
      | inr c ↦ record {
        fixed = ground (arith, c, v.fixed);
        reset_due = λ k h. ground (arith, c, k, h, v.reset_due);
        few_failures = λ h. (0, ground (arith, c), omega arith);
      }
    ]

pub record_failure-IsValid : (p : Producer) → IsValid p → IsValid (record_failure p)
unfolding record_failure increment
record_failure-IsValid p v = elim (Bool-cases p.circuit_open) [
  | inl o ↦ record {
    fixed = ground (arith, o, v.fixed);
    reset_due = λ k h. ground (arith, o, k, v.reset_due);
    few_failures = λ h. ground (arith, o, h);
  }
  | inr o ↦
      let (f, counted, few) = v.few_failures o in
      elim (Bool-cases (ltb f 4)) [
        | inl low ↦ record {
          fixed = ground (arith, o, v.fixed);
          reset_due = λ k h. ground (arith, o, h, counted, few, low, v.fixed);
          few_failures =
              λ h. (suc f, ground (arith, o, counted, few, low, v.fixed), ground (arith, low));
        }
        | inr high ↦ record {
          fixed = ground (arith, o, v.fixed);
          reset_due = λ k h. ground (arith, o, counted, few, high, v.fixed);
          few_failures = λ h. ground (arith, o, h, counted, few, high, v.fixed);
        }
      ]
]

pub Attempted-IsValid :
    (b : Broker) (attempt left : ℕ) (p p' : Producer) (result : Published)
    → Attempted b attempt left p result p'
    → IsValid p
    → IsValid p'
Attempted-IsValid b attempt left p p' result a v = elim a [
  | ended k le refused positive done r s ↦ SameCircuit-IsValid p' p s v
  | succeeded k le refused goes written r s ↦
      SameCircuit-IsValid p' (record_success p) s (record_success-IsValid p v)
  | exhausted e refused goes failed r s ↦
      SameCircuit-IsValid p' (record_failure p) s (record_failure-IsValid p v)
]
