-- ===== src/Schemas/Registration.antt =====
-- What the schema service answers: `Register` on every branch, then `Get` and `Validate`.

use high_performance_event_s.Common.{
  ◌↔◌, ℕ, ◌≡◌, inl, inr, true, String, List, none, some, Option, Option-cases, arith, ap, ◌∙◌,
}
use high_performance_event_s.Common.Int.{ℤ}
use high_performance_event_s.Common.Dict.{lookup, lookup-insert_self}
use high_performance_event_s.Common.Outcome.{Outcome, ok, err, Outcome-cases}
use high_performance_event_s.Domain.Schema.{Schema, SchemaError, new_schema, validate, format_name}
use high_performance_event_s.Schemas.{
  RegisterSchemaRequest, SchemaRepository, SchemaServiceError, Service, format_of_name, to_schema,
  get_by_name_version, save, register, already_exists, invalid_schema, get_schema,
  from_entity_schema, validate_data,
}

pub to_schema-fields :
    (r : RegisterSchemaRequest) (now : ℤ) (id : String) (s : Schema)
    → to_schema r now id ≡ ok s
    → (s.id ≡ id) × (s.name ≡ r.name) × (s.version ≡ r.version)
unfolding to_schema new_schema validate
to_schema-fields r now id s h = ground (arith, h)

all_fields :
    (r : RegisterSchemaRequest) (now : ℤ) (id : String) (s : Schema)
    → to_schema r now id ≡ ok s
    → (s.id ≡ id)
      × (s.name ≡ r.name)
      × (s.version ≡ r.version)
      × (s.format ≡ format_of_name r.format)
      × (s.definition ≡ r.definition)
      × (s.created_at ≡ now)
unfolding to_schema new_schema validate
all_fields r now id s h = ground (arith, h)

-- What `Register` does, on each of its branches: the request is no schema, or its name and version
-- are taken, and the repository stays as it is; or the new schema is saved.
pub data SchemaCourse (r : RegisterSchemaRequest) (now : ℤ) (id : String) (w : Service)
    (result : Outcome SchemaServiceError String) (w' : Service) : Type 0 where
  not_a_schema :
      (e : SchemaError)
      → to_schema r now id ≡ err e
      → result ≡ err (invalid_schema e)
      → w'.stored ≡ w.stored
      → SchemaCourse r now id w result w'
  duplicate :
      (s other : Schema)
      → to_schema r now id ≡ ok s
      → get_by_name_version r.name r.version w.stored ≡ some other
      → result ≡ err (already_exists r.name r.version)
      → w'.stored ≡ w.stored
      → SchemaCourse r now id w result w'
  registered :
      (s : Schema)
      → to_schema r now id ≡ ok s
      → get_by_name_version r.name r.version w.stored ≡ none
      → result ≡ ok id
      → w'.stored ≡ save s w.stored
      → SchemaCourse r now id w result w'

-- Every call of `Register` returns, and what it does is one of three courses: the request is no
-- schema and nothing is saved; its name and version are taken and nothing is saved; or the new schema
-- is saved and its identifier is returned.
pub register-SchemaCourse :
    (r : RegisterSchemaRequest) (now : ℤ) (id : String) (w : Service)
    → SchemaCourse r now id w (register r now id w).0 (register r now id w).1
unfolding register
register-SchemaCourse r now id w = elim (Outcome-cases (to_schema r now id)) [
  | inr (e, bad) ↦ not_a_schema e bad (ground (arith, bad)) (ground (arith, bad))
  | inl (s, good) ↦ elim (Option-cases (get_by_name_version r.name r.version w.stored)) [
    | inr (other, taken) ↦
        duplicate s other good taken (ground (arith, good, taken)) (ground (arith, good, taken))
    | inl free ↦ registered s good free (ground (arith, good, free)) (ground (arith, good, free))
  ]
]

pub found_registered :
    (r : RegisterSchemaRequest) (now : ℤ) (id : String) (s : Schema) (repo : SchemaRepository)
    → to_schema r now id ≡ ok s
    → lookup id (save s repo) ≡ some s
unfolding save
found_registered r now id s repo good =
    ground (arith, to_schema-fields r now id s good, lookup-insert_self s.id s repo)

-- A registered schema is found under the identifier returned, as the request gives it; a format
-- that is not known is that of JSON schemas.
pub register-get_schema :
    (r : RegisterSchemaRequest) (now : ℤ) (id x : String) (w : Service)
    → (register r now id w).0 ≡ ok x
    → (get_schema x (register r now id w).1).0
      ≡ ok (record {
        id = x;
        name = r.name;
        version = r.version;
        format = format_name (format_of_name r.format);
        definition = r.definition;
        created_at = now;
      })
unfolding get_schema from_entity_schema
register-get_schema r now id x w h = elim (register-SchemaCourse r now id w) [
  | not_a_schema e bad out same ↦ ground (arith, out, h)
  | duplicate s other good taken out same ↦ ground (arith, out, h)
  | registered s good free out same ↦ ground (
    arith,
    out,
    h,
    ap (λ y. lookup id y) same ∙ found_registered r now id s w.stored good,
    all_fields r now id s good,
  )
]

-- `Validate` reports data as valid exactly where the schema is stored and the validator has no
-- objection.
pub validate_data-valid_iff :
    (validator : String → List ℕ → Option String) (id : String) (payload : List ℕ) (w : Service)
    → ((validate_data validator id payload w).0.valid ≡ true)
      ↔ (((s : Schema) × (lookup id w.stored ≡ some s)) × (validator id payload ≡ none))
unfolding validate_data
validate_data-valid_iff validator id payload w = elim (Option-cases (lookup id w.stored)) [
  | inl missing ↦ (λ h. ground (arith, missing, h), λ h. ground (arith, missing, h.0.1))
  | inr (s, found) ↦ elim (Option-cases (validator id payload)) [
    | inl fine ↦ (λ h. ((s, found), fine), λ h. ground (arith, found, fine))
    | inr (e, bad) ↦ (λ h. ground (arith, found, bad, h), λ h. ground (arith, found, bad, h.1))
  ]
]
