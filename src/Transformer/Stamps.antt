-- ===== src/Transformer/Stamps.antt =====
-- The instants of a transformed event.
use Prim.Native.String.{len}
use mathlib.Core.Path.{subst}
use high_performance_event_s.Common.{
  ◌≡◌, inl, inr, false, Option, none, some, arith, str_eq, Bool-cases, Option-cases,
}
use high_performance_event_s.Common.Int.{ℤ, pos, ltb_ℤ}
use high_performance_event_s.Common.Dict.{Dict}
use high_performance_event_s.Common.Outcome.{Outcome, ok, err, Outcome-cases}
use high_performance_event_s.Domain.Event.{
  Event, new_event, validate, copy, with_metadata, with_correlation, with_priority,
  with_partition_key, with_schema_url,
}
use high_performance_event_s.Transformer.{
  Transformation, TransformedDto, Libraries, TransformError, Engine, preserve, apply_fields,
  rebuild, build_transformed_event, event_to_map, first_result, apply_query, apply_program,
  apply_template, parse_query, parse_template_of, compile_cel_program, through_cache, on_made,
  transform,
}

module _ (L : Libraries) (now created : ℤ) where
  -- An event made at the two readings of the clock.
  abbrev pub MadeAt : Outcome TransformError Event → Type 0
  MadeAt (err x) = Unit
  MadeAt (ok e) = (e.timestamp ≡ now) × (e.created_at ≡ created)

  fields-MadeAt :
      (d : TransformedDto) (new : Event)
      → new_event now created d.id d.source d.event_type d.subject d.payload d.data_content_type
        ≡ ok new
      → MadeAt (ok (apply_fields L d new))
  unfolding new_event apply_fields with_metadata with_correlation with_priority with_partition_key
      with_schema_url copy validate
  fields-MadeAt d new h = ground (arith, h)

  rebuild-MadeAt : (e : Event) (m : Option (Dict L.Value)) → MadeAt (rebuild L now created e m)
  unfolding rebuild
  rebuild-MadeAt e none = tt
  rebuild-MadeAt e (some m) = elim (Outcome-cases (L.marshal_map (preserve L e m))) [
    | inr (x, a) ↦
        subst MadeAt {x = err (TransformError.update_not_marshalled x)} (ground (arith, a)) tt
    | inl (bytes, a) ↦ elim (Outcome-cases (L.unmarshal_dto bytes)) [
      | inr (x, b) ↦
          subst MadeAt {x = err (TransformError.dto_not_parsed x)} (ground (arith, a, b)) tt
      | inl (d, b) ↦
          elim (Outcome-cases (
            new_event now created d.id d.source d.event_type d.subject d.payload
              d.data_content_type)) [
                | inr (x, c) ↦
                    subst MadeAt {x = err (TransformError.invalid_event x)}
                      (ground (arith, a, b, c)) tt
                | inl (new, c) ↦
                    subst MadeAt {x = ok (apply_fields L d new)} (ground (arith, a, b, c))
                      (fields-MadeAt d new c)
              ]
    ]
  ]

  build_transformed_event-MadeAt :
      (e : Event) (v : L.Value) → MadeAt (build_transformed_event L now created e v)
  unfolding build_transformed_event
  build_transformed_event-MadeAt e v = elim (Outcome-cases (L.marshal_value v)) [
    | inr (x, a) ↦
        subst MadeAt {x = err (TransformError.result_not_marshalled x)} (ground (arith, a)) tt
    | inl (bytes, a) ↦ elim (Outcome-cases (L.unmarshal_map bytes)) [
      | inr (x, b) ↦
          subst MadeAt {x = err (TransformError.result_not_mapped x)} (ground (arith, a, b)) tt
      | inl (m, b) ↦
          subst MadeAt {x = rebuild L now created e m} (ground (arith, a, b)) (rebuild-MadeAt e m)
    ]
  ]

  apply_query-MadeAt : (e : Event) (q : L.Query) → MadeAt (apply_query L now created e q)
  unfolding apply_query
  apply_query-MadeAt e q = elim (Outcome-cases (event_to_map L e)) [
    | inr (x, a) ↦ subst MadeAt {x = err x} (ground (arith, a)) tt
    | inl (m, a) ↦ elim (Outcome-cases (first_result L (L.run_jq q m))) [
      | inr (x, b) ↦ subst MadeAt {x = err x} (ground (arith, a, b)) tt
      | inl (o, b) ↦ elim (Option-cases o) [
        | inl c ↦ subst MadeAt {x = err TransformError.no_results} (ground (arith, a, b, c)) tt
        | inr (v, c) ↦
            subst MadeAt {x = build_transformed_event L now created e v} (ground (arith, a, b, c))
              (build_transformed_event-MadeAt e v)
      ]
    ]
  ]

  apply_program-MadeAt : (e : Event) (p : L.Program) → MadeAt (apply_program L now created e p)
  unfolding apply_program
  apply_program-MadeAt e p = elim (Outcome-cases (event_to_map L e)) [
    | inr (x, a) ↦ subst MadeAt {x = err x} (ground (arith, a)) tt
    | inl (m, a) ↦ elim (Outcome-cases (L.eval p m)) [
      | inr (x, b) ↦
          subst MadeAt {x = err (TransformError.execution_failed x)} (ground (arith, a, b)) tt
      | inl (v, b) ↦
          subst MadeAt {x = build_transformed_event L now created e v} (ground (arith, a, b))
            (build_transformed_event-MadeAt e v)
    ]
  ]

  apply_template-MadeAt : (e : Event) (t : L.Template) → MadeAt (apply_template L now created e t)
  unfolding apply_template
  apply_template-MadeAt e t = elim (Outcome-cases (L.execute t e)) [
    | inr (x, a) ↦ subst MadeAt {x = err (TransformError.execution_failed x)} (ground (arith, a)) tt
    | inl (bytes, a) ↦ elim (Outcome-cases (L.unmarshal_map bytes)) [
      | inr (x, b) ↦
          subst MadeAt {x = err (TransformError.result_not_mapped x)} (ground (arith, a, b)) tt
      | inl (m, b) ↦
          subst MadeAt {x = rebuild L now created e m} (ground (arith, a, b)) (rebuild-MadeAt e m)
    ]
  ]

  on_made-MadeAt :
      {A : Type 0} (f : A → Outcome TransformError Event) (x : Outcome TransformError A)
      → ((a : A) → MadeAt (f a))
      → MadeAt (on_made L f x)
  on_made-MadeAt f (err x) h = tt
  on_made-MadeAt f (ok a) h = h a

  -- Whatever a transformation other than `none` does, the event it makes has the instants of the
  -- transformation, not those of the original event.
  pub transform-MadeAt :
      (e : Event) (t : Transformation) (s : Engine L)
      → str_eq t.kind "none" ≡ false
      → MadeAt (transform L now created (some e) (some t) s).0
  unfolding transform
  transform-MadeAt e t s a =
      let q = through_cache L (parse_query L) t.script s.jq_queries in
      let p = through_cache L (compile_cel_program L) t.script s.cel_programs in
      let m = through_cache L (parse_template_of L) t.script s.templates in
      elim (Bool-cases (ltb_ℤ s.max_script_size (pos (len t.script)))) [
        | inl b ↦ subst MadeAt {x = err TransformError.script_too_large} (ground (arith, a, b)) tt
        | inr b ↦ elim (Bool-cases (str_eq t.kind "jq")) [
          | inl c ↦
              subst MadeAt {x = on_made L (apply_query L now created e) q.0}
                (ground (arith, a, b, c))
                (on_made-MadeAt (apply_query L now created e) q.0 (apply_query-MadeAt e))
          | inr c ↦ elim (Bool-cases (str_eq t.kind "cel")) [
            | inl d ↦
                subst MadeAt {x = on_made L (apply_program L now created e) p.0}
                  (ground (arith, a, b, c, d))
                  (on_made-MadeAt (apply_program L now created e) p.0 (apply_program-MadeAt e))
            | inr d ↦ elim (Bool-cases (str_eq t.kind "template")) [
              | inl f ↦
                  subst MadeAt {x = on_made L (apply_template L now created e) m.0}
                    (ground (arith, a, b, c, d, f))
                    (on_made-MadeAt (apply_template L now created e) m.0 (apply_template-MadeAt e))
              | inr f ↦
                  subst MadeAt {x = err (TransformError.unknown_type t.kind)}
                    (ground (arith, a, b, c, d, f)) tt
            ]
          ]
        ]
      ]
