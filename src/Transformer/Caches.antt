-- ===== src/Transformer/Caches.antt =====
-- The caches of the engine do not show in what it answers.
use Prim.Native.String.{len}
use mathlib.Core.Path.{subst}
use high_performance_event_s.Common.{
  ◌≡◌, refl, inl, inr, String, [], Option, none, some, arith, str_eq, eq_iff, Bool-cases,
  Option-cases,
}
use high_performance_event_s.Common.Int.{ℤ, pos, ltb_ℤ}
use high_performance_event_s.Common.Dict.{Dict, lookup, lookup-insert}
use high_performance_event_s.Common.Outcome.{Outcome, ok, Outcome-cases}
use high_performance_event_s.Domain.Event.{Event}
use high_performance_event_s.Transformer.{
  Transformation, Libraries, TransformError, Engine, clear_cache, parse_query, parse_template_of,
  compile_cel_program, through_cache, transform,
}

module _ (L : Libraries) where
  -- Whatever a cache holds under a script is what the script is made into.
  abbrev pub Agrees : {A : Type 0} → (String → Outcome TransformError A) → Dict A → Type 0
  Agrees {A} make cache =
      (script : String) (a : A) → lookup script cache ≡ some a → make script ≡ ok a

  pub record Coherent (s : Engine L) : Type 0 where
    pub queries : Agrees (parse_query L) s.jq_queries
    pub programs : Agrees (compile_cel_program L) s.cel_programs
    pub templates : Agrees (parse_template_of L) s.templates

  through_cache-made :
      {A : Type 0} (make : String → Outcome TransformError A) (script : String) (cache : Dict A)
      → Agrees make cache
      → (through_cache L make script cache).0 ≡ make script
  through_cache-made make script cache h = elim (Option-cases (lookup script cache)) [
    | inr (a, found) ↦ ground (arith, found, h script a found)
    | inl missing ↦ ground (arith, missing)
  ]

  through_cache-Agrees :
      {A : Type 0} (make : String → Outcome TransformError A) (script : String) (cache : Dict A)
      → Agrees make cache
      → Agrees make (through_cache L make script cache).1
  through_cache-Agrees make script cache h other b found =
      elim (Option-cases (lookup script cache)) [
        | inr (a, hit) ↦ h other b (ground (arith, hit, found))
        | inl missing ↦ elim (Outcome-cases (make script)) [
          | inr (e, bad) ↦ h other b (ground (arith, missing, bad, found))
          | inl (a, good) ↦ ground (
            arith,
            missing,
            good,
            found,
            lookup-insert script other a cache,
            eq_iff script other,
            h other b,
          )
        ]
      ]

  pub transform-Coherent :
      (now created : ℤ) (e : Option Event) (t : Option Transformation) (s : Engine L)
      → Coherent s
      → Coherent (transform L now created e t s).1
  unfolding transform
  transform-Coherent now created none t s h = h
  transform-Coherent now created (some e) none s h = h
  transform-Coherent now created (some e) (some t) s h = elim (Bool-cases (str_eq t.kind "none")) [
    | inl a ↦ subst Coherent (ground (arith, a)) h
    | inr a ↦ elim (Bool-cases (ltb_ℤ s.max_script_size (pos (len t.script)))) [
      | inl b ↦ subst Coherent (ground (arith, a, b)) h
      | inr b ↦ elim (Bool-cases (str_eq t.kind "jq")) [
        | inl c ↦
            let x = through_cache L (parse_query L) t.script s.jq_queries in
            let s' : Engine L = record s { jq_queries = x.1 } in
            subst Coherent {x = s'} (ground (arith, a, b, c)) (record {
              queries = through_cache-Agrees (parse_query L) t.script s.jq_queries h.queries;
              programs = h.programs;
              templates = h.templates;
            })
        | inr c ↦ elim (Bool-cases (str_eq t.kind "cel")) [
          | inl d ↦
              let x = through_cache L (compile_cel_program L) t.script s.cel_programs in
              let s' : Engine L = record s { cel_programs = x.1 } in
              subst Coherent {x = s'} (ground (arith, a, b, c, d)) (record {
                queries = h.queries;
                programs =
                    through_cache-Agrees (compile_cel_program L) t.script s.cel_programs h.programs;
                templates = h.templates;
              })
          | inr d ↦ elim (Bool-cases (str_eq t.kind "template")) [
            | inl f ↦
                let x = through_cache L (parse_template_of L) t.script s.templates in
                let s' : Engine L = record s { templates = x.1 } in
                subst Coherent {x = s'} (ground (arith, a, b, c, d, f)) (record {
                  queries = h.queries;
                  programs = h.programs;
                  templates =
                      through_cache-Agrees (parse_template_of L) t.script s.templates h.templates;
                })
            | inr f ↦ subst Coherent (ground (arith, a, b, c, d, f)) h
          ]
        ]
      ]
    ]
  ]

  pub empty-Coherent : (s : Engine L) → Coherent (clear_cache L s)
  unfolding clear_cache lookup
  empty-Coherent s = record {
    queries = λ script a h. ground (arith, h);
    programs = λ script a h. ground (arith, h);
    templates = λ script a h. ground (arith, h);
  }

  -- A call through caches that agree is answered as through empty ones.
  pub transform-uncached :
      (now created : ℤ) (e : Option Event) (t : Option Transformation) (s : Engine L)
      → Coherent s
      → (transform L now created e t s).0 ≡ (transform L now created e t (clear_cache L s)).0
  unfolding transform clear_cache
  transform-uncached now created none t s h = refl
  transform-uncached now created (some e) none s h = refl
  transform-uncached now created (some e) (some t) s h =
      let k = empty-Coherent s in
      let q = through_cache-made (parse_query L) t.script s.jq_queries h.queries in
      let p = through_cache-made (compile_cel_program L) t.script s.cel_programs h.programs in
      let m = through_cache-made (parse_template_of L) t.script s.templates h.templates in
      let q' = through_cache-made (parse_query L) t.script [] k.queries in
      let p' = through_cache-made (compile_cel_program L) t.script [] k.programs in
      let m' = through_cache-made (parse_template_of L) t.script [] k.templates in
      elim (Bool-cases (str_eq t.kind "none")) [
        | inl a ↦ ground (arith, a)
        | inr a ↦ elim (Bool-cases (ltb_ℤ s.max_script_size (pos (len t.script)))) [
          | inl b ↦ ground (arith, a, b)
          | inr b ↦ elim (Bool-cases (str_eq t.kind "jq")) [
            | inl c ↦ ground (arith, a, b, c, q, q')
            | inr c ↦ elim (Bool-cases (str_eq t.kind "cel")) [
              | inl d ↦ ground (arith, a, b, c, d, p, p')
              | inr d ↦ ground (arith, a, b, c, d, m, m')
            ]
          ]
        ]
      ]
