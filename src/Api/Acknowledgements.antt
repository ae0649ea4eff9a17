-- ===== src/Api/Acknowledgements.antt =====
-- The acknowledgements of a stream of requests.
use mathlib.Core.List.{append_assoc, append-nil}
use mathlib.Core.Path.{subst, subst₂}
use high_performance_event_s.Common.{
  ℕ, zero, suc, ◌+◌, ◌*◌, ◌/◌, ◌%◌, ◌<◌, ◌≤◌, ◌≡◌, refl, sym, ap, ◌∙◌, inl, inr, Bool, String, List,
  [], ◌∷◌, ◌++◌, map, Option, none, some, length, length-append, ltb, leb, arith, Bool-cases,
}
use high_performance_event_s.Common.Outcome.{Outcome, ok, Outcome-cases}
use high_performance_event_s.Domain.Event.{Event}
use high_performance_event_s.Requests.{IngestEventRequest, Fresh}
use high_performance_event_s.Ingest.{
  PortCall, Environment, World, ingest_event_batch, correlation_of,
}
use high_performance_event_s.Ingest.Single.{checks}
use high_performance_event_s.Ingest.Batch.{
  Prepared, stopped_in_preparation, stopped_in_store, stopped_in_publication, completed,
  ingest_event_batch-BatchCourse,
}
use high_performance_event_s.Api.Messages.{ProtoEvent, event_proto_to_dto}
use high_performance_event_s.Api.Events.{
  IngestStream, Closing, closed, broken, StreamError, batch_size, send_responses, process_batch,
  ingest_event_stream,
}

-- The identifiers that one batch makes up for `n` requests from index `i` on.
abbrev pub batch_ids : (ℕ → Fresh) → ℕ → ℕ → List String
batch_ids gen i zero = []
batch_ids gen i (suc n) = (gen i).id ∷ batch_ids gen (suc i) n

-- The identifiers of `n` requests of a stream from number `k` on: request `k` is number `k % 100` of batch
-- `k / 100`.
abbrev pub ids_from : (ℕ → ℕ → Fresh) → ℕ → ℕ → List String
ids_from gens k zero = []
ids_from gens k (suc n) = (gens (k / 100) (k % 100)).id ∷ ids_from gens (suc k) n

Prepared-batch_ids :
    (env : Environment) (gen : ℕ → Fresh) (correlation : String) (calls : List PortCall) (i : ℕ)
    (rs : List (Option IngestEventRequest)) (es : List Event) (ids : List String)
    → Prepared env gen correlation calls i rs es ids
    → ids ≡ batch_ids gen i (length rs)
Prepared-batch_ids env gen correlation calls i [] [] [] p = refl
Prepared-batch_ids env gen correlation calls i (some r ∷ rs) (e ∷ es) (id ∷ ids) p =
    ground
      (arith, p.2, Prepared-batch_ids env gen correlation (calls ++ checks r) (suc i) rs es ids p.3)
Prepared-batch_ids env gen correlation calls i [] [] (id ∷ ids) p = elim p [ ]
Prepared-batch_ids env gen correlation calls i [] (e ∷ es) ids p = elim p [ ]
Prepared-batch_ids env gen correlation calls i (none ∷ rs) es ids p = elim p [ ]
Prepared-batch_ids env gen correlation calls i (some r ∷ rs) [] ids p = elim p [ ]
Prepared-batch_ids env gen correlation calls i (some r ∷ rs) (e ∷ es) [] p = elim p [ ]

-- A batch that succeeds returns one identifier for each request.
ingest_event_batch-ids :
    (env : Environment) (rs : List (Option IngestEventRequest)) (gen : ℕ → Fresh)
    (generated : String) (w : World) (ids : List String)
    → (ingest_event_batch env rs gen generated w).0 ≡ ok ids
    → ids ≡ batch_ids gen 0 (length rs)
unfolding ingest_event_batch
ingest_event_batch-ids env [] gen generated w ids h = ground (arith, h)
ingest_event_batch-ids env (none ∷ rs) gen generated w ids h = absurd (ground (arith, h))
ingest_event_batch-ids env (some r ∷ rs) gen generated w ids h =
    let correlation = correlation_of r.correlation_id generated in
    elim (ingest_event_batch-BatchCourse env r rs gen generated w) [
      | stopped_in_preparation e checked why out a b ↦ absurd (ground (arith, h, out))
      | stopped_in_store es is k msg p no_store out b ↦ absurd (ground (arith, h, out))
      | stopped_in_publication es is k msg p a no_publish out b ↦ absurd (ground (arith, h, out))
      | completed es is p a c out b ↦
          ground
            (arith, h, out, Prepared-batch_ids env gen correlation w.calls 0 (some r ∷ rs) es is p)
    ]

batch_ids-ids_from :
    (gens : ℕ → ℕ → Fresh) (b i n : ℕ)
    → i + n ≤ 100
    → batch_ids (gens b) i n ≡ ids_from gens (100 * b + i) n
batch_ids-ids_from gens b i zero h = refl
batch_ids-ids_from gens b i (suc n) h =
    let batch : (100 * b + i) / 100 ≡ b = omega arith in
    let index : (100 * b + i) % 100 ≡ i = omega arith in
    ground (arith, batch, index, batch_ids-ids_from gens b (suc i) n)

ids_from-append :
    (gens : ℕ → ℕ → Fresh) (k m n : ℕ)
    → ids_from gens k m ++ ids_from gens (k + m) n ≡ ids_from gens k (m + n)
ids_from-append gens k zero n = ground arith
ids_from-append gens k (suc m) n =
    let shift : k + suc m ≡ suc k + m = omega arith in
    let total : suc m + n ≡ suc (m + n) = omega arith in
    let head = (gens (k / 100) (k % 100)).id in
    ap (λ j. head ∷ (ids_from gens (suc k) m ++ ids_from gens j n)) shift
    ∙ ap (λ l. head ∷ l) (ids_from-append gens (suc k) m n)
    ∙ ap (λ j. ids_from gens k j) (sym total)

length-converted : (rs : List (Option ProtoEvent)) → length (map event_proto_to_dto rs) ≡ length rs
length-converted [] = refl
length-converted (r ∷ rs) = ap suc (length-converted rs)

send_responses-all :
    (fails : ℕ → Bool) (ids sent : List String)
    → (send_responses fails ids sent).0 ≡ ok tt
    → (send_responses fails ids sent).1 ≡ sent ++ ids
unfolding send_responses
send_responses-all fails [] sent h = sym (append-nil sent)
send_responses-all fails (id ∷ ids) sent h = elim (Bool-cases (fails (length sent))) [
  | inl f ↦ absurd (ground (arith, h, f))
  | inr f ↦
      ground (
        arith,
        h,
        f,
        send_responses-all fails ids (sent ++ id ∷ []),
        append_assoc sent (id ∷ []) ids,
      )
]

module _ (env : Environment) (gens : ℕ → ℕ → Fresh) (generated : ℕ → String)
    (fails : ℕ → Bool) where
  process_batch-acknowledges :
      (batch : List (Option ProtoEvent)) (s : IngestStream)
      → length batch ≤ 100
      → (process_batch env gens generated fails batch s).0 ≡ ok tt
      → let s' = (process_batch env gens generated fails batch s).1 in
        (s'.sent ≡ s.sent ++ ids_from gens (100 * s.batches) (length batch))
        × (s'.batches ≡ suc s.batches)
  unfolding process_batch
  process_batch-acknowledges batch s h answered =
      let dtos = map event_proto_to_dto batch in
      let x = ingest_event_batch env dtos (gens s.batches) (generated s.batches) s.world in
      elim (Outcome-cases x.0) [
        | inr (e, bad) ↦ absurd (ground (arith, answered, bad))
        | inl (ids, good) ↦
            let all =
              ingest_event_batch-ids env dtos (gens s.batches) (generated s.batches) s.world ids
                good in
            let numbered : ids ≡ ids_from gens (100 * s.batches) (length batch) = ground (
              arith,
              all,
              length-converted batch,
              batch_ids-ids_from gens s.batches 0 (length batch),
            ) in
            (
              ground (arith, answered, good, numbered, send_responses-all fails ids s.sent),
              ground (arith, good),
            )
      ]

  -- A stream that ends well has been closed by the client, and `n` more requests are acknowledged.
  abbrev pub Acknowledged :
      Closing → IngestStream → ℕ → Outcome StreamError (Unit {0}) × IngestStream → Type 0
  Acknowledged closing s n x =
      x.0 ≡ ok tt → (closing ≡ closed) × (x.1.sent ≡ s.sent ++ ids_from gens (100 * s.batches) n)

  batch-Acknowledged :
      (batch rs : List (Option ProtoEvent)) (closing : Closing) (s : IngestStream)
      → length batch ≡ 100
      → let y = process_batch env gens generated fails batch s in
        y.0 ≡ ok tt
        → Acknowledged closing y.1
            (length rs)
            (ingest_event_stream env gens generated fails [] rs closing y.1)
        → Acknowledged closing s
            (100 + length rs)
            (ingest_event_stream env gens generated fails [] rs closing y.1)
  batch-Acknowledged batch rs closing s h good rest answered =
      let y = process_batch env gens generated fails batch s in
      let done = process_batch-acknowledges batch s (omega (arith, h)) good in
      let more = rest answered in
      let first = ids_from gens (100 * s.batches) 100 in
      let next : ids_from gens (100 * y.1.batches) (length rs)
          ≡ ids_from gens (100 * s.batches + 100) (length rs) =
        ap (λ k. ids_from gens k (length rs)) (omega (arith, done.1)) in
      (
        more.0,
        more.1
            ∙ ap (λ l. l ++ ids_from gens (100 * y.1.batches) (length rs))
                (done.0 ∙ ap (λ n. s.sent ++ ids_from gens (100 * s.batches) n) h)
            ∙ append_assoc s.sent first (ids_from gens (100 * y.1.batches) (length rs))
            ∙ ap (λ l. s.sent ++ (first ++ l)) next
            ∙ ap (λ l. s.sent ++ l) (ids_from-append gens (100 * s.batches) 100 (length rs)),
      )

  pub rest-Acknowledged :
      (batch rs : List (Option ProtoEvent)) (closing : Closing) (s : IngestStream)
      → length batch < 100
      → Acknowledged closing s
          (length batch + length rs)
          (ingest_event_stream env gens generated fails batch rs closing s)
  unfolding ingest_event_stream
  rest-Acknowledged batch [] broken s h = λ answered. absurd (ground (arith, answered))
  rest-Acknowledged batch [] closed s h = elim (Bool-cases (ltb 0 (length batch))) [
    | inr e ↦ λ answered. (refl, ground (arith, e, append-nil s.sent))
    | inl e ↦ λ answered. (refl, ground (arith, e, answered, process_batch-acknowledges batch s))
  ]
  rest-Acknowledged batch (r ∷ rs) closing s h =
      let next = batch ++ r ∷ [] in
      let longer = length-append batch (r ∷ []) in
      let y = process_batch env gens generated fails next s in
      elim (Bool-cases (leb batch_size (length next))) [
        | inr e ↦
            let step : ingest_event_stream env gens generated fails next rs closing s
                ≡ ingest_event_stream env gens generated fails batch (r ∷ rs) closing s =
              ground (arith, e) in
            subst₂ (λ n x. Acknowledged closing s n x) (omega (arith, longer)) step
              (rest-Acknowledged next rs closing s (ground (arith, longer, e)))
        | inl e ↦
            let full : length next ≡ 100 = ground (arith, e, longer, h) in
            let total : 100 + length rs ≡ length batch + suc (length rs) =
              omega (arith, full, longer) in
            elim (Outcome-cases y.0) [
              | inr (x, bad) ↦ λ answered. absurd (ground (arith, answered, e, bad))
              | inl (u, good) ↦
                  let rest =
                    subst
                      (λ n.
                        Acknowledged closing y.1 n
                          (ingest_event_stream env gens generated fails [] rs closing y.1))
                      (omega arith) (rest-Acknowledged [] rs closing y.1 (omega arith)) in
                  let step : ingest_event_stream env gens generated fails [] rs closing y.1
                      ≡ ingest_event_stream env gens generated fails batch (r ∷ rs) closing s =
                    ground (arith, e, good) in
                  subst₂ (λ n x. Acknowledged closing s n x) total step
                    (batch-Acknowledged next rs closing s full good rest)
            ]
      ]
