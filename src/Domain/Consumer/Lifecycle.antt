-- ===== src/Domain/Consumer/Lifecycle.antt =====
-- The life of a consumer: what its methods, called in any order, can do to it.
use mathlib.Core.Path.{subst}
use high_performance_event_s.Common.{
  ◌≡◌, refl, ◌↔◌, Bool, true, false, ◌||◌, String, List, [], ◌∷◌, any, is_blank, arith, Bool-cases,
  inl, inr, ap, sym, ◌∙◌,
}
use high_performance_event_s.Common.Int.{ℤ}
use high_performance_event_s.Common.Outcome.{Outcome, ok, err, Outcome-cases}
use high_performance_event_s.Domain.Filter.{Regexp, EventFilter}
use high_performance_event_s.Domain.Transformation.{
  Transformation, IsValid as IsValidTransformation, validate_iff,
  validate as validate_transformation,
}
use high_performance_event_s.Domain.Consumer.{
  Consumer, ConsumerError, new_consumer, activate, deactivate, drain, update_filter, is_draining,
  ConsumerStatus, active, inactive, draining,
}

module _ (R : Regexp) where
  -- A call of a method, with the reading of the clock it makes.
  pub data Step : Type 0 where
    activating : ℤ → Step
    deactivating : ℤ → Step
    being_drained : ℤ → Step
    filtering : ℤ → EventFilter R → Step

  abbrev pub is_drain : Step → Bool
  is_drain (activating now) = false
  is_drain (deactivating now) = false
  is_drain (being_drained now) = true
  is_drain (filtering now f) = false

  -- What the call leaves: the consumer as it was, where the method returns an error.
  abbrev pub left_by : Consumer R → Outcome ConsumerError (Consumer R) → Consumer R
  left_by c (ok d) = d
  left_by c (err e) = c

  abbrev pub take_step : Step → Consumer R → Consumer R
  take_step (activating now) c = left_by c (activate R now c)
  take_step (deactivating now) c = left_by c (deactivate R now c)
  take_step (being_drained now) c = drain R now c
  take_step (filtering now f) c = left_by c (update_filter R now f c)

  abbrev pub run : List Step → Consumer R → Consumer R
  run [] c = c
  run (s ∷ steps) c = run steps (take_step s c)

  take_step-is_draining :
      (s : Step) (c : Consumer R) → is_draining R (take_step s c) ≡ (is_draining R c || is_drain s)
  unfolding activate deactivate drain update_filter
  take_step-is_draining s c = elim (Bool-cases (is_draining R c)) [
    | inl a ↦ elim s [
      | activating now ↦ ground (arith, a)
      | deactivating now ↦ ground (arith, a)
      | being_drained now ↦ ground (arith, a)
      | filtering now f ↦ ground (arith, a)
    ]
    | inr a ↦ elim s [
      | activating now ↦ ground (arith, a)
      | deactivating now ↦ ground (arith, a)
      | being_drained now ↦ ground (arith, a)
      | filtering now f ↦ ground (arith, a)
    ]
  ]

  -- A consumer is draining exactly where it was, or one of the calls was `Drain`: nothing ends it.
  pub run-is_draining :
      (steps : List Step) (c : Consumer R)
      → is_draining R (run steps c) ≡ (is_draining R c || any is_drain steps)
  run-is_draining [] c = ground arith
  run-is_draining (s ∷ steps) c =
      ground (arith, run-is_draining steps (take_step s c), take_step-is_draining s c)

  draining_status : (c : Consumer R) → is_draining R c ≡ true → c.status ≡ draining
  unfolding is_draining
  draining_status c h = ground arith

  frozen_step :
      (s : Step) (c : Consumer R)
      → is_draining R c ≡ true
      → take_step s c ≡ record c { updated_at = (take_step s c).updated_at }
  unfolding activate deactivate drain update_filter
  frozen_step s c h = elim s [
    | activating now ↦ ground (arith, h)
    | deactivating now ↦ ground (arith, h)
    | being_drained now ↦ ground (arith, draining_status c h)
    | filtering now f ↦ ground (arith, h)
  ]

  -- Whatever is called on a draining consumer, only the time of its last update can change.
  pub run-draining :
      (steps : List Step) (c : Consumer R)
      → is_draining R c ≡ true
      → run steps c ≡ record c { updated_at = (run steps c).updated_at }
  run-draining [] c h = ground arith
  run-draining (s ∷ steps) c h =
      ground
        (arith, take_step-is_draining s c, frozen_step s c h, run-draining steps (take_step s c))

  -- What `NewConsumer` demands of a consumer.
  pub record IsValid (c : Consumer R) : Type 0 where
    pub has_id : is_blank c.id ≡ false
    pub has_name : is_blank c.name ≡ false
    pub has_group : is_blank c.group_id ≡ false
    pub valid_transformation : IsValidTransformation c.transformation

  -- The fields that no method touches.
  abbrev pub SameIdentity : Consumer R → Consumer R → Type 0
  SameIdentity c d =
      (c.id ≡ d.id)
      × (c.name ≡ d.name)
      × (c.group_id ≡ d.group_id)
      × (c.transformation ≡ d.transformation)
      × (c.created_at ≡ d.created_at)

  step-SameIdentity : (s : Step) (c : Consumer R) → SameIdentity (take_step s c) c
  unfolding activate deactivate drain update_filter
  step-SameIdentity s c = elim (Bool-cases (is_draining R c)) [
    | inl a ↦ elim s [
      | activating now ↦ ground (arith, a)
      | deactivating now ↦ ground (arith, a)
      | being_drained now ↦ ground (arith, a)
      | filtering now f ↦ ground (arith, a)
    ]
    | inr a ↦ elim s [
      | activating now ↦ ground (arith, a)
      | deactivating now ↦ ground (arith, a)
      | being_drained now ↦ ground (arith, a)
      | filtering now f ↦ ground (arith, a)
    ]
  ]

  pub run-SameIdentity : (steps : List Step) (c : Consumer R) → SameIdentity (run steps c) c
  run-SameIdentity [] c = ground arith
  run-SameIdentity (s ∷ steps) c =
      ground (arith, run-SameIdentity steps (take_step s c), step-SameIdentity s c)

  -- `NewConsumer` returns a consumer exactly where the three names are not blank and the
  -- transformation is valid.
  pub new_consumer-ok_iff :
      (now : ℤ) (id name group : String) (f : EventFilter R) (t : Transformation)
      → ((c : Consumer R) × (new_consumer R now id name group f t ≡ ok c)) ↔ (
          (is_blank id ≡ false)
          × (is_blank name ≡ false)
          × (is_blank group ≡ false)
          × IsValidTransformation t)
  unfolding new_consumer
  new_consumer-ok_iff now id name group f t = (
    λ x. elim (Outcome-cases (validate_transformation t)) [
      | inr (e, bad) ↦ ground (arith, bad, x.1)
      | inl (_, good) ↦ ground (arith, good, validate_iff t, x.1)
    ],
    λ x. (
      record {
        id = id;
        name = name;
        group_id = group;
        event_filter = f;
        transformation = t;
        status = inactive;
        created_at = now;
        updated_at = now;
      },
      ground (arith, x.0, x.1, x.2, x.3, validate_iff t),
    ),
  )

  pub new_consumer-IsValid :
      (now : ℤ) (id name group : String) (f : EventFilter R) (t : Transformation) {c : Consumer R}
      → new_consumer R now id name group f t ≡ ok c
      → IsValid c
  unfolding new_consumer
  new_consumer-IsValid now id name group f t {c} h =
      elim (Outcome-cases (validate_transformation t)) [
        | inr (e, bad) ↦ ground (arith, bad)
        | inl (_, good) ↦ ground (arith, good, validate_iff t)
      ]

  -- The status that the last of the calls asks for, from this status on.
  abbrev pub last_status : ConsumerStatus → List Step → ConsumerStatus
  last_status status [] = status
  last_status status (activating now ∷ steps) = last_status active steps
  last_status status (deactivating now ∷ steps) = last_status inactive steps
  last_status status (being_drained now ∷ steps) = draining
  last_status status (filtering now f ∷ steps) = last_status status steps

  -- The last filter that is given before the first `Drain`.
  abbrev pub last_filter : EventFilter R → List Step → EventFilter R
  last_filter f [] = f
  last_filter f (activating now ∷ steps) = last_filter f steps
  last_filter f (deactivating now ∷ steps) = last_filter f steps
  last_filter f (being_drained now ∷ steps) = f
  last_filter f (filtering now g ∷ steps) = last_filter g steps

  drained :
      (steps : List Step) (c : Consumer R) (now : ℤ)
      → ((run steps (drain R now c)).status ≡ draining)
        × ((run steps (drain R now c)).event_filter ≡ c.event_filter)
  unfolding drain is_draining
  drained steps c now =
      let same = run-draining steps (drain R now c) refl in
      (ap (λ x. x.status) same, ap (λ x. x.event_filter) same)

  run-open :
      (steps : List Step) (c : Consumer R)
      → is_draining R c ≡ false
      → ((run steps c).status ≡ last_status c.status steps)
        × ((run steps c).event_filter ≡ last_filter c.event_filter steps)
  unfolding activate deactivate drain update_filter is_draining
  run-open [] c h = (refl, refl)
  run-open (activating now ∷ steps) c h =
      ground (arith, h, run-open steps (record c { status = active; updated_at = now }) refl)
  run-open (deactivating now ∷ steps) c h =
      ground (arith, h, run-open steps (record c { status = inactive; updated_at = now }) refl)
  run-open (being_drained now ∷ steps) c h = drained steps c now
  run-open (filtering now f ∷ steps) c h =
      ground (arith, h, run-open steps (record c { event_filter = f; updated_at = now }) h)

  -- What a consumer that was made with this filter is after these calls.
  pub record Lived (f : EventFilter R) (steps : List Step) (c : Consumer R) : Type 0 where
    pub valid : IsValid c
    pub has_status : c.status ≡ last_status inactive steps
    pub has_filter : c.event_filter ≡ last_filter f steps

  new_consumer-open :
      (now : ℤ) (id name group : String) (f : EventFilter R) (t : Transformation) {c : Consumer R}
      → new_consumer R now id name group f t ≡ ok c
      → (c.status ≡ inactive) × (c.event_filter ≡ f) × (is_draining R c ≡ false)
  unfolding new_consumer is_draining
  new_consumer-open now id name group f t {c} h = elim (Outcome-cases (validate_transformation t)) [
    | inr (e, bad) ↦ absurd (ground (arith, bad, h))
    | inl (_, good) ↦ ground (arith, good, h)
  ]

  -- Whichever methods are called on a consumer that `NewConsumer` returns, it stays valid, and its status
  -- and its filter are those of the calls: it is draining from the first `Drain` on, and otherwise has the
  -- status of the last `Activate` or `Deactivate`, inactive at first; its filter is the last that was given
  -- before the first `Drain`.
  pub run-Lived :
      (now : ℤ) (id name group : String) (f : EventFilter R) (t : Transformation)
      → (steps : List Step) {c : Consumer R} → new_consumer R now id name group f t ≡ ok c
      → Lived f steps (run steps c)
  run-Lived now id name group f t steps {c} h =
      let fresh = new_consumer-open now id name group f t h in
      let (status, kept) = run-open steps c fresh.2 in
      let valid = new_consumer-IsValid now id name group f t h in
      let same = run-SameIdentity steps c in
      record {
        valid = record {
          has_id = ap (λ x. is_blank x) same.0 ∙ valid.has_id;
          has_name = ap (λ x. is_blank x) same.1 ∙ valid.has_name;
          has_group = ap (λ x. is_blank x) same.2 ∙ valid.has_group;
          valid_transformation =
              subst (λ x. IsValidTransformation x) (sym same.3) valid.valid_transformation;
        };
        has_status = status ∙ ap (λ s. last_status s steps) fresh.0;
        has_filter = kept ∙ ap (λ g. last_filter g steps) fresh.1;
      }
