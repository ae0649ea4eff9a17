-- ===== src/Consumers/Acceptance.antt =====
-- Which registrations give a consumer, and what this consumer is.
use mathlib.Core.Path.{subst}
use high_performance_event_s.Common.{
  ◌≡◌, ◌≢◌, refl, sym, ap, ◌∙◌, inl, inr, false, not, ◌||◌, String, [], Option, none, some,
  is_blank, str_eq, eq_iff, arith,
}
use high_performance_event_s.Common.Int.{pos}
use high_performance_event_s.Common.Outcome.{ok, Outcome-cases}
use high_performance_event_s.Domain.Filter.{Regexp, EventFilter, new_event_filter}
use high_performance_event_s.Domain.Filter.Construction.{
  Built, new_event_filter-Built, new_event_filter-ok_iff, Compiles,
}
use high_performance_event_s.Domain.Transformation.{
  Transformation, TransformationType, TransformationConfigDto, type_none, type_jq, type_cel,
  type_template, type_of_name, is_none, new_transformation, to_transformation, validate_iff,
  validate as validate_transformation,
}
use high_performance_event_s.Domain.Consumer.{Consumer, active, new_consumer, activate}
use high_performance_event_s.Requests.{EventFilterDto, to_event_filter}
use high_performance_event_s.Consumers.{
  RegisterConsumerRequest, Moment, requested_filter, requested_transformation, build_consumer,
}

-- The name of a type in a request: any other name is that of no transformation.
abbrev pub IsNamed : String → TransformationType → Type 0
IsNamed name type_jq = name ≡ "JQ"
IsNamed name type_cel = name ≡ "CEL"
IsNamed name type_template = name ≡ "Template"
IsNamed name type_none = (name ≢ "JQ") × (name ≢ "CEL") × (name ≢ "Template")

-- The transformation that a request asks for.
abbrev pub Asked : Option TransformationConfigDto → Transformation → Type 0
Asked none t = t ≡ record { kind = type_none; expression = "" }
Asked (some d) t = IsNamed d.type_name t.kind × (t.expression ≡ d.expression)

-- An expression is given exactly where a type is named.
abbrev pub IsWellFormed : Option TransformationConfigDto → Type 0
IsWellFormed none = Unit
IsWellFormed (some d) =
    is_blank d.expression
    ≡ not (str_eq d.type_name "JQ" || (str_eq d.type_name "CEL" || str_eq d.type_name "Template"))

type_of_name-IsNamed : (name : String) → IsNamed name (type_of_name name)
unfolding type_of_name
type_of_name-IsNamed name =
    ground (arith, eq_iff name "JQ", eq_iff name "CEL", eq_iff name "Template")

type_of_name-none :
    (name expression : String)
    → is_none (record { kind = type_of_name name; expression = expression })
      ≡ not (str_eq name "JQ" || (str_eq name "CEL" || str_eq name "Template"))
unfolding type_of_name is_none
type_of_name-none name expression = ground arith

none_valid : validate_transformation (record { kind = type_none; expression = "" }) ≡ ok tt
unfolding validate_transformation is_none
none_valid = refl

module _ (R : Regexp) where
  requested_transformation-Asked :
      (d : Option TransformationConfigDto) (t : Transformation)
      → requested_transformation R d ≡ ok t
      → Asked d t × IsWellFormed d
  unfolding requested_transformation to_transformation new_transformation
  requested_transformation-Asked none t h = (ground (arith, h, none_valid), tt)
  requested_transformation-Asked (some d) t h =
      let made : Transformation = record {
        kind = type_of_name d.type_name;
        expression = d.expression;
      } in
      let (same, valid) : (t ≡ made) × (validate_transformation made ≡ ok tt) =
        elim (Outcome-cases (validate_transformation made)) [
          | inl (x, a) ↦ (ground (arith, a, h), a)
          | inr (e, a) ↦ absurd (ground (arith, a, h))
        ] in
      (
        (
          subst (λ k. IsNamed d.type_name k) (ap (λ x. x.kind) (sym same))
              (type_of_name-IsNamed d.type_name),
          ap (λ x. x.expression) same,
        ),
        (validate_iff made).0 valid ∙ type_of_name-none d.type_name d.expression,
      )

  IsWellFormed-requested_transformation :
      (d : Option TransformationConfigDto)
      → IsWellFormed d
      → (t : Transformation) × (requested_transformation R d ≡ ok t)
  unfolding requested_transformation to_transformation new_transformation
  IsWellFormed-requested_transformation none h =
      (record { kind = type_none; expression = "" }, ground (arith, none_valid))
  IsWellFormed-requested_transformation (some d) h =
      let made : Transformation = record {
        kind = type_of_name d.type_name;
        expression = d.expression;
      } in
      let valid = (validate_iff made).1 (h ∙ sym (type_of_name-none d.type_name d.expression)) in
      (made, ground (arith, valid))

  -- The filter that a request asks for, its patterns compiled.
  abbrev pub Filters : Option EventFilterDto → EventFilter R → Type 0
  Filters none f = Built R "" "" "" [] (pos 0) f
  Filters (some d) f =
      Built R d.source_pattern d.type_pattern d.subject_pattern d.metadata_filters d.min_priority f

  -- Every pattern of the filter is empty or compiles.
  abbrev pub CanFilter : Option EventFilterDto → Type 0
  CanFilter none = Unit
  CanFilter (some d) =
      Compiles R d.source_pattern × Compiles R d.type_pattern × Compiles R d.subject_pattern

  requested_filter-Filters :
      (d : Option EventFilterDto) (f : EventFilter R)
      → requested_filter R d ≡ ok f
      → Filters d f × CanFilter d
  unfolding requested_filter to_event_filter
  requested_filter-Filters none f h = (
    new_event_filter-Built R "" "" "" [] (pos 0)
        (elim (Outcome-cases (new_event_filter R "" "" "" [] (pos 0))) [
          | inl (g, a) ↦ ground (arith, a, h)
          | inr (e, a) ↦ absurd (ground (arith, a, h))
        ]),
    tt,
  )
  requested_filter-Filters (some d) f h =
      let made =
        new_event_filter R d.source_pattern d.type_pattern d.subject_pattern d.metadata_filters
          d.min_priority in
      let good : made ≡ ok f = elim (Outcome-cases made) [
        | inl (g, a) ↦ ground (arith, a, h)
        | inr (e, a) ↦ absurd (ground (arith, a, h))
      ] in
      (
        new_event_filter-Built R _ _ _ _ _ good,
        (new_event_filter-ok_iff R d.source_pattern d.type_pattern d.subject_pattern
              d.metadata_filters d.min_priority).0
            (f, good),
      )

  CanFilter-requested_filter :
      (d : Option EventFilterDto)
      → CanFilter d
      → (f : EventFilter R) × (requested_filter R d ≡ ok f)
  unfolding requested_filter to_event_filter
  CanFilter-requested_filter none h =
      let none_given : Compiles R "" = inl refl in
      let (f, made) =
        (new_event_filter-ok_iff R "" "" "" [] (pos 0)).1 (none_given, none_given, none_given) in
      (f, ground (arith, made))
  CanFilter-requested_filter (some d) h =
      let (f, made) =
        (new_event_filter-ok_iff R d.source_pattern d.type_pattern d.subject_pattern
            d.metadata_filters d.min_priority).1
          h in
      (f, ground (arith, made))

  -- The names are given, the patterns compile, and the transformation has an expression exactly where it
  -- has a type.
  pub record IsAcceptable (r : RegisterConsumerRequest) (m : Moment) : Type 0 where
    pub has_id : is_blank m.id ≡ false
    pub has_name : is_blank r.name ≡ false
    pub has_group : is_blank r.group_id ≡ false
    pub can_filter : CanFilter r.filter_config
    pub can_transform : IsWellFormed r.transform_config

  -- The consumer that a request asks for, under the new identifier and active.
  pub record IsRequested (r : RegisterConsumerRequest) (m : Moment) (c : Consumer R) : Type 0 where
    pub id_kept : c.id ≡ m.id
    pub name_kept : c.name ≡ r.name
    pub group_kept : c.group_id ≡ r.group_id
    pub is_now_active : c.status ≡ active
    pub created_kept : c.created_at ≡ m.created
    pub updated_kept : c.updated_at ≡ m.activated
    pub filters : Filters r.filter_config c.event_filter
    pub transforms : Asked r.transform_config c.transformation

  pub build_consumer-IsRequested :
      (r : RegisterConsumerRequest) (m : Moment) {c : Consumer R}
      → build_consumer R r m ≡ ok c
      → IsAcceptable r m × IsRequested r m c
  unfolding build_consumer new_consumer activate
  build_consumer-IsRequested r m {c} h = elim (Outcome-cases (requested_filter R r.filter_config)) [
    | inr (e, a) ↦ absurd (ground (arith, a, h))
    | inl (f, a) ↦ elim (Outcome-cases (requested_transformation R r.transform_config)) [
      | inr (e, b) ↦ absurd (ground (arith, a, b, h))
      | inl (t, b) ↦
          let (kept, can_filter) = requested_filter-Filters r.filter_config f a in
          let (asked, well) = requested_transformation-Asked r.transform_config t b in
          let built : (c.event_filter ≡ f) × (c.transformation ≡ t) = ground (arith, a, b, h) in
          (
            record {
              has_id = ground (arith, a, b, h);
              has_name = ground (arith, a, b, h);
              has_group = ground (arith, a, b, h);
              can_filter = can_filter;
              can_transform = well;
            },
            record {
              id_kept = ground (arith, a, b, h);
              name_kept = ground (arith, a, b, h);
              group_kept = ground (arith, a, b, h);
              is_now_active = ground (arith, a, b, h);
              created_kept = ground (arith, a, b, h);
              updated_kept = ground (arith, a, b, h);
              filters = subst (λ x. Filters r.filter_config x) (sym built.0) kept;
              transforms = subst (λ x. Asked r.transform_config x) (sym built.1) asked;
            },
          )
    ]
  ]

  -- A transformation that a request asks for is valid.
  Asked-valid :
      (d : Option TransformationConfigDto) (t : Transformation)
      → requested_transformation R d ≡ ok t
      → validate_transformation t ≡ ok tt
  unfolding requested_transformation to_transformation new_transformation
  Asked-valid none t h =
      let given : Transformation = record { kind = type_none; expression = "" } in
      let same : t ≡ given = ground (arith, h, none_valid) in
      ap (λ x. validate_transformation x) same ∙ none_valid
  Asked-valid (some d) t h =
      let made : Transformation = record {
        kind = type_of_name d.type_name;
        expression = d.expression;
      } in
      elim (Outcome-cases (validate_transformation made)) [
        | inl (x, a) ↦
            let same : t ≡ made = ground (arith, a, h) in
            ap (λ x. validate_transformation x) same ∙ a
        | inr (e, a) ↦ absurd (ground (arith, a, h))
      ]

  pub IsAcceptable-build_consumer :
      (r : RegisterConsumerRequest) (m : Moment)
      → IsAcceptable r m
      → (c : Consumer R) × (build_consumer R r m ≡ ok c)
  unfolding build_consumer new_consumer activate
  IsAcceptable-build_consumer r m p =
      let (f, a) = CanFilter-requested_filter r.filter_config p.can_filter in
      let (t, b) = IsWellFormed-requested_transformation r.transform_config p.can_transform in
      let v = Asked-valid r.transform_config t b in
      (
        record {
          id = m.id;
          name = r.name;
          group_id = r.group_id;
          event_filter = f;
          transformation = t;
          status = active;
          created_at = m.created;
          updated_at = m.activated;
        },
        ground (arith, a, b, v, p.has_id, p.has_name, p.has_group),
      )
