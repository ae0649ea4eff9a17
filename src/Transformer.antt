-- ===== src/Transformer.antt =====
-- The transformation engine (internal/infrastructure/transformer/engine.go). gojq, cel-go,
-- text/template and encoding/json are the parameter `Libraries`; the results of a query are a list, so a
-- query is one that ends.
pub mod Caches
pub mod Outcomes
pub mod Stamps
mod Tests
use Prim.Native.String.{len}
use high_performance_event_s.Common.{
  ℕ, Bool, true, false, ◌||◌, String, List, [], ◌∷◌, Option, none, some, length, if◌then◌else◌,
  str_eq, ltb,
}
use high_performance_event_s.Common.Int.{ℤ, pos, ltb_ℤ}
use high_performance_event_s.Common.Dict.{Dict, lookup, insert}
use high_performance_event_s.Common.Outcome.{Outcome, ok, err}
use high_performance_event_s.Domain.Event.{
  Event, EventError, new_event, with_metadata, with_correlation, with_priority, with_partition_key,
  with_schema_url,
}

-- `Transformation` of the engine, its type a text
pub record Transformation : Type 0 where
  pub kind : String
  pub script : String

-- The struct that a transformed event is decoded to
pub record TransformedDto : Type 0 where
  pub id : String
  pub source : String
  pub event_type : String
  pub subject : String
  pub payload : List ℕ
  pub data_content_type : String
  pub schema_url : String
  pub timestamp : String
  pub metadata : Dict String
  pub correlation_id : String
  pub causation_id : String
  pub partition_key : String
  pub priority : ℤ

-- What the engine calls. A `Value` is an `interface{}`; a decoded map is nil for the document `null`.
pub record Libraries : Type 1 where
  pub Value : Type 0
  pub Query : Type 0
  pub CelEnv : Type 0
  pub Ast : Type 0
  pub Program : Type 0
  pub Template : Type 0
  pub parse_jq : String → Outcome String Query
  pub run_jq : Query → Dict Value → List (Outcome String Value)
  pub new_env : Outcome String CelEnv
  pub compile : CelEnv → String → Outcome String Ast
  pub new_program : CelEnv → Ast → Outcome String Program
  pub eval : Program → Dict Value → Outcome String Value
  pub parse_template : String → Outcome String Template
  pub execute : Template → Event → Outcome String (List ℕ)
  pub marshal_event : Event → Outcome String (List ℕ)
  pub marshal_value : Value → Outcome String (List ℕ)
  pub marshal_map : Dict Value → Outcome String (List ℕ)
  pub unmarshal_map : List ℕ → Outcome String (Option (Dict Value))
  pub unmarshal_dto : List ℕ → Outcome String TransformedDto
  pub text : String → Value
  pub is_empty_text : Value → Bool
  pub time_text : ℤ → String

pub data TransformError : Type 0 where
  nil_event script_too_large no_results : TransformError
  unknown_type : String → TransformError
  parse_failed : String → TransformError
  execution_failed : String → TransformError
  event_not_mapped : String → TransformError
  result_not_marshalled : String → TransformError
  result_not_mapped : String → TransformError
  update_not_marshalled : String → TransformError
  dto_not_parsed : String → TransformError
  invalid_event : EventError → TransformError
  -- the panic of an entry assigned to a nil map
  nil_map_panic : TransformError

module _ (L : Libraries) where
  -- `TransformationEngine`
  pub record Engine : Type 0 where
    pub max_script_size : ℤ
    pub cel_programs : Dict L.Program
    pub jq_queries : Dict L.Query
    pub templates : Dict L.Template

  -- `NewTransformationEngine`
  unfoldable pub new_transformation_engine : ℤ → Engine
  new_transformation_engine n = record {
    max_script_size = n;
    cel_programs = [];
    jq_queries = [];
    templates = [];
  }

  -- `ClearCache`
  unfoldable pub clear_cache : Engine → Engine
  clear_cache s = record s { cel_programs = []; jq_queries = []; templates = [] }

  -- `GetCacheStats`: the sizes of the three caches
  unfoldable pub get_cache_stats : Engine → ℕ × ℕ × ℕ
  get_cache_stats s = (length s.cel_programs, length s.jq_queries, length s.templates)

  -- `eventToMap`; a nil map reads as an empty one.
  unfoldable pub event_to_map : Event → Outcome TransformError (Dict L.Value)
  event_to_map e = elim (L.marshal_event e) [
    | err x ↦ err (event_not_mapped x)
    | ok bytes ↦ elim (L.unmarshal_map bytes) [
      | err x ↦ err (event_not_mapped x)
      | ok none ↦ ok []
      | ok (some m) ↦ ok m
    ]
  ]

  -- `if v, ok := m[key]; !ok || v == ""`
  abbrev pub lacks : String → Dict L.Value → Bool
  lacks key m = elim (lookup key m) [ none ↦ true | some v ↦ L.is_empty_text v ]

  -- The entries of the original event, where the result has none
  unfoldable pub preserve : Event → Dict L.Value → Dict L.Value
  preserve e m =
      let m1 = if lacks "id" m then insert "id" (L.text e.id) m else m in
      if lacks "timestamp" m1 then insert "timestamp" (L.text (L.time_text e.timestamp)) m1 else m1

  -- The builder methods on the new event
  unfoldable pub apply_fields : TransformedDto → Event → Event
  apply_fields d e = with_priority d.priority (
      with_partition_key d.partition_key (
        with_correlation d.correlation_id d.causation_id
          (with_metadata d.metadata (with_schema_url d.schema_url e))))

  -- From the decoded result to the new event, with the two readings of the clock of `NewEvent`
  unfoldable pub rebuild : ℤ → ℤ → Event → Option (Dict L.Value) → Outcome TransformError Event
  unfolding preserve apply_fields
  rebuild now created e none = err nil_map_panic
  rebuild now created e (some m) = elim (L.marshal_map (preserve e m)) [
    | err x ↦ err (update_not_marshalled x)
    | ok bytes ↦ elim (L.unmarshal_dto bytes) [
      | err x ↦ err (dto_not_parsed x)
      | ok d ↦
          elim (new_event now created d.id d.source d.event_type d.subject d.payload
            d.data_content_type) [
              | err x ↦ err (invalid_event x)
              | ok new ↦ ok (apply_fields d new)
            ]
    ]
  ]

  -- `buildTransformedEvent`
  unfoldable pub build_transformed_event : ℤ → ℤ → Event → L.Value → Outcome TransformError Event
  unfolding rebuild
  build_transformed_event now created e v = elim (L.marshal_value v) [
    | err x ↦ err (result_not_marshalled x)
    | ok bytes ↦ elim (L.unmarshal_map bytes) [
      | err x ↦ err (result_not_mapped x)
      | ok m ↦ rebuild now created e m
    ]
  ]

  -- The loop of `transformJQ` over the results, and the first of them
  unfoldable pub first_result :
      List (Outcome String L.Value) → Outcome TransformError (Option L.Value)
  first_result [] = ok none
  first_result (err x ∷ rest) = err (execution_failed x)
  first_result (ok v ∷ rest) = elim (first_result rest) [ err x ↦ err x | ok later ↦ ok (some v) ]

  -- A cached program, query or template: found in the cache, or made and put there
  abbrev pub through_cache :
      {A : Type 0}
      → (String → Outcome TransformError A)
      → String
      → Dict A
      → Outcome TransformError A × Dict A
  through_cache make script cache = elim (lookup script cache) [
    | some a ↦ (ok a, cache)
    | none ↦ elim (make script) [ err x ↦ (err x, cache) | ok a ↦ (ok a, insert script a cache) ]
  ]

  abbrev pub parse_query : String → Outcome TransformError L.Query
  parse_query script = elim (L.parse_jq script) [ err x ↦ err (parse_failed x) | ok q ↦ ok q ]

  abbrev pub parse_template_of : String → Outcome TransformError L.Template
  parse_template_of script = elim (L.parse_template script) [
    | err x ↦ err (parse_failed x)
    | ok t ↦ ok t
  ]

  -- `compileCELProgram`
  unfoldable pub compile_cel_program : String → Outcome TransformError L.Program
  compile_cel_program script = elim (L.new_env) [
    | err x ↦ err (parse_failed x)
    | ok env ↦ elim (L.compile env script) [
      | err x ↦ err (parse_failed x)
      | ok ast ↦ elim (L.new_program env ast) [ err x ↦ err (parse_failed x) | ok p ↦ ok p ]
    ]
  ]

  -- `transformJQ` behind the cache
  unfoldable pub apply_query : ℤ → ℤ → Event → L.Query → Outcome TransformError Event
  unfolding event_to_map first_result build_transformed_event
  apply_query now created e q = elim (event_to_map e) [
    | err x ↦ err x
    | ok m ↦ elim (first_result (L.run_jq q m)) [
      | err x ↦ err x
      | ok none ↦ err no_results
      | ok (some v) ↦ build_transformed_event now created e v
    ]
  ]

  -- `transformCEL` behind the cache
  unfoldable pub apply_program : ℤ → ℤ → Event → L.Program → Outcome TransformError Event
  unfolding event_to_map build_transformed_event
  apply_program now created e p = elim (event_to_map e) [
    | err x ↦ err x
    | ok m ↦ elim (L.eval p m) [
      | err x ↦ err (execution_failed x)
      | ok v ↦ build_transformed_event now created e v
    ]
  ]

  -- `transformTemplate` behind the cache
  unfoldable pub apply_template : ℤ → ℤ → Event → L.Template → Outcome TransformError Event
  unfolding rebuild
  apply_template now created e t = elim (L.execute t e) [
    | err x ↦ err (execution_failed x)
    | ok bytes ↦ elim (L.unmarshal_map bytes) [
      | err x ↦ err (result_not_mapped x)
      | ok m ↦ rebuild now created e m
    ]
  ]

  -- What is made with an answer, if it is no error
  abbrev pub on_made :
      {A : Type 0}
      → (A → Outcome TransformError Event)
      → Outcome TransformError A
      → Outcome TransformError Event
  on_made f (err x) = err x
  on_made f (ok a) = f a

  -- `Transform`, of an event and a transformation that may be nil
  unfoldable pub transform :
      ℤ → ℤ → Option Event → Option Transformation → Engine → Outcome TransformError Event × Engine
  unfolding compile_cel_program apply_query apply_program apply_template
  transform now created none t s = (err nil_event, s)
  transform now created (some e) none s = (ok e, s)
  transform now created (some e) (some t) s =
      if str_eq t.kind "none"
      then (ok e, s)
      else (if ltb_ℤ s.max_script_size (pos (len t.script))
          then (err script_too_large, s)
          else (if str_eq t.kind "jq"
              then (let x = through_cache parse_query t.script s.jq_queries in
                  (on_made (apply_query now created e) x.0, record s { jq_queries = x.1 }))
              else (if str_eq t.kind "cel"
                  then (let x = through_cache compile_cel_program t.script s.cel_programs in
                      (on_made (apply_program now created e) x.0, record s { cel_programs = x.1 }))
                  else (if str_eq t.kind "template"
                      then (let x = through_cache parse_template_of t.script s.templates in
                          (
                            on_made (apply_template now created e) x.0,
                            record s { templates = x.1 },
                          ))
                      else (err (unknown_type t.kind), s)))))
