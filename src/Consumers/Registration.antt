-- ===== src/Consumers/Registration.antt =====
-- Registrations and deregistrations, over any repository that keeps the promises of its port.
use high_performance_event_s.Common.{
  ◌≡◌, ◌≢◌, inl, inr, String, [], ◌∷◌, ◌++◌, none, some, Option-cases, arith, ap, sym, ◌∙◌,
}
use high_performance_event_s.Common.Outcome.{Outcome, ok, err, Outcome-cases}
use high_performance_event_s.Domain.Filter.{Regexp}
use high_performance_event_s.Domain.Consumer.{Consumer, status_name}
use high_performance_event_s.Ingest.{error_recorded, latency_recorded}
use high_performance_event_s.Consumers.{
  RegisterConsumerRequest, Moment, ConsumerServiceError, ConsumerRepository, Service, not_saved,
  not_retrieved, build_consumer, register_metric, register, deregister, get_consumer,
  from_entity_consumer,
}
use high_performance_event_s.Consumers.Laws.{IsLawful}
use high_performance_event_s.Consumers.Acceptance.{
  IsAcceptable, IsRequested, build_consumer-IsRequested, IsAcceptable-build_consumer,
}

module _ (R : Regexp) where
  module _ (repo : ConsumerRepository R) where
    -- What `Register` does, on each of its branches: nothing is saved where the request is not
    -- acceptable; the repository refuses it; or it is saved as requested, and its identifier returned.
    pub data ConsumerCourse (r : RegisterConsumerRequest) (m : Moment) (w : Service R repo)
        (result : Outcome ConsumerServiceError String) (w' : Service R repo) : Type 0 where
      refused :
          (e : ConsumerServiceError)
          → ¬ IsAcceptable R r m
          → build_consumer R r m ≡ err e
          → result ≡ err e
          → w'.stored ≡ w.stored
          → w'.metrics ≡ w.metrics ++ register_metric e
          → ConsumerCourse r m w result w'
      unsaved :
          (c : Consumer R) (msg : String)
          → IsAcceptable R r m
          → IsRequested R r m c
          → (repo.save c w.stored).0 ≡ some msg
          → result ≡ err (not_saved msg)
          → w'.stored ≡ (repo.save c w.stored).1
          → w'.metrics ≡ w.metrics ++ error_recorded "Register" "storage" ∷ []
          → ConsumerCourse r m w result w'
      registered :
          (c : Consumer R)
          → IsAcceptable R r m
          → IsRequested R r m c
          → (repo.save c w.stored).0 ≡ none
          → result ≡ ok m.id
          → w'.stored ≡ (repo.save c w.stored).1
          → w'.metrics ≡ w.metrics ++ latency_recorded "register" ∷ []
          → ConsumerCourse r m w result w'

    -- Every call of `Register` returns, and what it does is one of three courses. Where the identifier, the
    -- name or the group is blank, a pattern does not compile or the transformation is not well formed, it
    -- is an error, and nothing is saved. Otherwise the active consumer with the names, the filter and the
    -- transformation of the request is given to the repository, which refuses it, and this is the error,
    -- or saves it, and its identifier is returned.
    pub register-ConsumerCourse :
        (r : RegisterConsumerRequest) (m : Moment) (w : Service R repo)
        → ConsumerCourse r m w (register R repo r m w).0 (register R repo r m w).1
    unfolding register register_metric
    register-ConsumerCourse r m w = elim (Outcome-cases (build_consumer R r m)) [
      | inr (e, bad) ↦
          refused e (λ p. ground (arith, bad, (IsAcceptable-build_consumer R r m p).1)) bad
            (ground (arith, bad)) (ground (arith, bad)) (ground (arith, bad))
      | inl (c, good) ↦
          let good' = build_consumer-IsRequested R r m good in
          elim (Option-cases (repo.save c w.stored).0) [
            | inr (msg, full) ↦
                unsaved c msg good'.0 good'.1 full (ground (arith, good, full))
                  (ground (arith, good, full)) (ground (arith, good, full))
            | inl saved ↦
                registered c good'.0 good'.1 saved (ground (arith, good, saved))
                  (ground (arith, good, saved)) (ground (arith, good, saved))
          ]
    ]

    module _ (laws : IsLawful R repo) where
      found_saved :
          (r : RegisterConsumerRequest) (m : Moment) (w : Service R repo) (c : Consumer R)
          → (id : String) → IsRequested R r m c
          → (repo.save c w.stored).0 ≡ none
          → (register R repo r m w).1.stored ≡ (repo.save c w.stored).1
          → (register R repo r m w).0 ≡ ok m.id
          → (register R repo r m w).0 ≡ ok id
          → repo.get id (register R repo r m w).1.stored ≡ ok c
      found_saved r m w c id req saved s out h =
          let same : c.id ≡ id = ground (arith, req.id_kept, out, h) in
          ap (λ x. repo.get id x) s
          ∙ ap (λ i. repo.get i (repo.save c w.stored).1) (sym same)
          ∙ laws.get_saved c w.stored saved

      -- Over a repository that keeps its promises, a registered consumer is found under the identifier returned, active, with the name and the
      -- group of the request.
      pub register-get_consumer :
          (r : RegisterConsumerRequest) (m : Moment) (w : Service R repo) (id : String)
          → (register R repo r m w).0 ≡ ok id
          → (get_consumer R repo id (register R repo r m w).1).0
            ≡ ok (record {
              id = id;
              name = r.name;
              group_id = r.group_id;
              status = "Active";
              created_at = m.created;
              updated_at = m.activated;
            })
      unfolding get_consumer from_entity_consumer status_name
      register-get_consumer r m w id h = elim (register-ConsumerCourse r m w) [
        | refused e why bad out same ms ↦ ground (arith, out, h)
        | unsaved c msg can req full out s ms ↦ ground (arith, out, h)
        | registered c can req saved out s ms ↦ ground (
          arith,
          found_saved r m w c id req saved s out h,
          req.is_now_active,
          req.name_kept,
          req.group_kept,
          req.created_kept,
          req.updated_kept,
          req.id_kept,
          out,
          h,
        )
      ]

      -- A registration, whatever it returns, leaves every consumer with another identifier as it is.
      pub register-others :
          (r : RegisterConsumerRequest) (m : Moment) (w : Service R repo) (j : String)
          → m.id ≢ j
          → repo.get j (register R repo r m w).1.stored ≡ repo.get j w.stored
      register-others r m w j h = elim (register-ConsumerCourse r m w) [
        | refused e why bad out same ms ↦ ap (λ s. repo.get j s) same
        | unsaved c msg can req full out s ms ↦
            ap (λ s. repo.get j s) s
            ∙ laws.get_other_saved c j w.stored (λ e. h (sym req.id_kept ∙ e))
        | registered c can req saved out s ms ↦
            ap (λ s. repo.get j s) s
            ∙ laws.get_other_saved c j w.stored (λ e. h (sym req.id_kept ∙ e))
      ]

      -- Over a repository that keeps its promises, a deregistered consumer is not found any more.
      pub deregister-get_consumer :
          (id : String) (w : Service R repo)
          → (deregister R repo id w).0 ≡ ok tt
          → (e : String) × ((get_consumer R repo id (deregister R repo id w).1).0
              ≡ err (not_retrieved e))
      unfolding get_consumer deregister
      deregister-get_consumer id w h = elim (Outcome-cases (repo.get id w.stored)) [
        | inr (e, missing) ↦ ground (arith, missing)
        | inl (c, found) ↦ elim (Option-cases (repo.delete_id id w.stored).0) [
          | inr (msg, kept) ↦ ground (arith, found, kept)
          | inl deleted ↦
              let (e, gone) = laws.get_deleted id w.stored deleted in
              (e, ground (arith, found, deleted, gone))
        ]
      ]
