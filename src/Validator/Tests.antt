-- ===== src/Validator/Tests.antt =====
-- A validator with schemas that are a limit on the size of the data.
use high_performance_event_s.Common.{◌≡◌, refl, ℕ, List, [], ◌∷◌, length, ltb, if◌then◌else◌}
use high_performance_event_s.Common.Int.{pos, ◌-ℤ◌}
use high_performance_event_s.Common.Dict.{IsMap, lookup, insert, delete}
use high_performance_event_s.Common.Outcome.{ok, err}
use high_performance_event_s.Validator.{
  JsonSchema, SchemaValidator, new_schema_validator, register_schema, get_schema, check_data,
  validate, forget, cache_expired,
}
use high_performance_event_s.Validator.Caching.{Agrees, registering, after_call, after_call-Agrees}

abbrev sizes : JsonSchema
sizes = record {
  Schema = ℕ;
  Value = List ℕ;
  compile = λ text. ok (length text);
  parse = λ text. ok text;
  check = λ n v. if ltb n (length v) then err "too long" else ok tt;
}

abbrev fresh : SchemaValidator sizes
fresh = record { schemas = []; cache = []; cache_ttl = pos 10 }

-- A schema for two bytes, registered at time 5
abbrev filled : SchemaValidator sizes
filled = record { schemas = ("two", 2) ∷ []; cache = ("two", pos 5) ∷ []; cache_ttl = pos 10 }

program : Unit {0}
unfolding new_schema_validator register_schema get_schema check_data validate forget lookup insert
    delete ◌-ℤ◌
program = tt

made : new_schema_validator sizes (pos 10) ≡ fresh
unfolding program
made = refl

registered : (register_schema sizes (pos 5) "two" (1 ∷ 1 ∷ []) fresh).1 ≡ filled
unfolding program
registered = refl

-- After its time to live the schema is gone, and has to be registered again.
expired : (validate sizes (pos 16) "two" (1 ∷ []) filled).0 ≡ err cache_expired
unfolding program
expired = refl

forgotten : (validate sizes (pos 16) "two" (1 ∷ []) filled).1 ≡ fresh
unfolding program
forgotten = refl

empty-Agrees : Agrees sizes fresh
unfolding lookup
empty-Agrees = record { is_map = tt; same_keys = λ id. (λ h. refl, λ h. refl) }

after_call-Agrees_example :
    Agrees sizes (after_call sizes (registering (pos 5) "two" (1 ∷ 1 ∷ [])) fresh)
after_call-Agrees_example =
    after_call-Agrees sizes (registering (pos 5) "two" (1 ∷ 1 ∷ [])) fresh empty-Agrees

one_entry : IsMap filled.cache
unfolding lookup
one_entry = (refl, tt)
