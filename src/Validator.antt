-- ===== src/Validator.antt =====
-- The validator of data against JSON schemas (internal/infrastructure/schema/validator.go). Packages
-- jsonschema and encoding/json are a parameter: what `Compile`, `Unmarshal` and `Validate` return.
-- Each operation is given the clock it reads. It holds the lock while it changes the maps, so it is
-- one step.
pub mod Caching
mod Tests
use high_performance_event_s.Common.{
  ℕ, Bool, true, false, ◌==◌, String, List, [], ◌∷◌, map, Option, none, some, length, is_blank,
  if◌then◌else◌,
}
use high_performance_event_s.Common.Int.{ℤ, ltb_ℤ, ◌-ℤ◌}
use high_performance_event_s.Common.Dict.{Dict, lookup, insert, delete}
use high_performance_event_s.Common.Outcome.{Outcome, ok, err, ◌>>=◌, ◌>>◌, reject_if, wrap}

-- A text is the message of an error.
pub record JsonSchema : Type 1 where
  pub Schema : Type 0
  pub Value : Type 0
  pub compile : List ℕ → Outcome String Schema
  pub parse : List ℕ → Outcome String Value
  pub check : Schema → Value → Outcome String (Unit {0})

pub data ValidatorError : Type 0 where
  empty_id empty_schema empty_data : ValidatorError
  not_compiled : String → ValidatorError
  not_found : ValidatorError
  cache_expired : ValidatorError
  not_parsed : String → ValidatorError
  check_failed : String → ValidatorError

module _ (J : JsonSchema) where
  -- `SchemaValidator`
  pub record SchemaValidator : Type 0 where
    pub schemas : Dict J.Schema
    pub cache : Dict ℤ
    pub cache_ttl : ℤ

  -- `NewSchemaValidator`
  unfoldable pub new_schema_validator : ℤ → SchemaValidator
  new_schema_validator ttl = record { schemas = []; cache = []; cache_ttl = ttl }

  -- `time.Since(cacheTime) > sv.cacheTTL`
  abbrev pub is_expired : ℤ → ℤ → ℤ → Bool
  is_expired ttl now cached = ltb_ℤ ttl (now -ℤ cached)

  -- An entry is deleted from both maps.
  unfoldable pub forget : String → SchemaValidator → SchemaValidator
  forget id v = record v { schemas = delete id v.schemas; cache = delete id v.cache }

  -- `RegisterSchema`
  unfoldable pub register_schema :
      ℤ → String → List ℕ → SchemaValidator → Outcome ValidatorError (Unit {0}) × SchemaValidator
  register_schema now id text v =
      if is_blank id
      then (err empty_id, v)
      else if length text == 0
      then (err empty_schema, v)
      else (elim (J.compile text) [
        | err e ↦ (err (not_compiled e), v)
        | ok s ↦
            (ok tt, record v { schemas = insert id s v.schemas; cache = insert id now v.cache })
      ])

  -- `GetSchema`
  unfoldable pub get_schema :
      ℤ → String → SchemaValidator → Outcome ValidatorError J.Schema × SchemaValidator
  unfolding forget
  get_schema now id v = if is_blank id then (err empty_id, v) else (elim (lookup id v.schemas) [
    | none ↦ (err not_found, v)
    | some s ↦ elim (lookup id v.cache) [
      | none ↦ (ok s, v)
      | some cached ↦
          if is_expired v.cache_ttl now cached then (err cache_expired, forget id v) else (ok s, v)
    ]
  ])

  -- `parseJSON` and the validation of what it returns
  unfoldable pub check_data : J.Schema → List ℕ → Outcome ValidatorError (Unit {0})
  check_data s payload = do
    value ← wrap not_parsed (J.parse payload)
    wrap check_failed (J.check s value)

  -- `Validate`
  unfoldable pub validate :
      ℤ → String → List ℕ → SchemaValidator → Outcome ValidatorError (Unit {0}) × SchemaValidator
  unfolding get_schema check_data
  validate now id payload v =
      if is_blank id
      then (err empty_id, v)
      else if length payload == 0
      then (err empty_data, v)
      else (let (result, v') = get_schema now id v in
          elim result [ err e ↦ (err e, v') | ok s ↦ (check_data s payload, v') ])

  -- `UnregisterSchema`
  unfoldable pub unregister_schema :
      String → SchemaValidator → Outcome ValidatorError (Unit {0}) × SchemaValidator
  unfolding forget
  unregister_schema id v = if is_blank id then (err empty_id, v) else (elim (lookup id v.schemas) [
    | none ↦ (err not_found, v)
    | some s ↦ (ok tt, forget id v)
  ])

  -- `ListSchemas`, in one of the orders of the map
  unfoldable pub list_schemas : SchemaValidator → List String
  list_schemas v = map (λ p. p.0) v.schemas

  -- The loop of `ClearCache` over the entries of the cache.
  unfoldable pub forget_expired : ℤ → Dict ℤ → SchemaValidator → SchemaValidator
  unfolding forget
  forget_expired now [] v = v
  forget_expired now ((id, cached) ∷ entries) v =
      forget_expired now entries (if is_expired v.cache_ttl now cached then forget id v else v)

  -- `ClearCache`
  unfoldable pub clear_cache : ℤ → SchemaValidator → SchemaValidator
  unfolding forget_expired
  clear_cache now v = forget_expired now v.cache v
