-- ===== src/Schemas/Names.antt =====
-- No two stored schemas have the same name and version.
use mathlib.Core.Path.{subst}
use high_performance_event_s.Common.{
  is_blank, ◌≡◌, ◌≢◌, false, String, [], ◌∷◌, none, some, arith, ap, sym, ◌∙◌, eq_iff,
}
use high_performance_event_s.Common.Int.{ℤ}
use high_performance_event_s.Common.Dict.{lookup, lookup-insert}
use high_performance_event_s.Common.Outcome.{ok, err}
use high_performance_event_s.Domain.Schema.{Schema, new_schema, validate}
use high_performance_event_s.Schemas.{
  RegisterSchemaRequest, SchemaRepository, Service, format_of_name, to_schema, is_called,
  get_by_name_version, save, register, already_exists,
}
use high_performance_event_s.Schemas.Registration.{
  not_a_schema, duplicate, registered, register-SchemaCourse, to_schema-fields, found_registered,
}

abbrev pub UniqueNames : SchemaRepository → Type 0
UniqueNames repo =
    (i j : String) (a b : Schema)
    → lookup i repo ≡ some a
    → lookup j repo ≡ some b
    → a.name ≡ b.name
    → a.version ≡ b.version
    → i ≡ j

-- What is not found by name and version is not stored under any identifier.
pub get_by_name_version-none :
    (name version : String) (repo : SchemaRepository) (id : String) (s : Schema)
    → get_by_name_version name version repo ≡ none
    → lookup id repo ≡ some s
    → is_called name version s ≡ false
unfolding get_by_name_version lookup
get_by_name_version-none name version [] id s h l = ground (arith, l)
get_by_name_version-none name version ((j, t) ∷ repo) id s h l =
    ground (arith, l, h, get_by_name_version-none name version repo id s)

save-UniqueNames :
    (s : Schema) (repo : SchemaRepository)
    → get_by_name_version s.name s.version repo ≡ none
    → UniqueNames repo
    → UniqueNames (save s repo)
unfolding save
save-UniqueNames s repo new unique i j a b la lb n v = ground (
  arith,
  lookup-insert s.id i s repo,
  lookup-insert s.id j s repo,
  la,
  lb,
  n,
  v,
  eq_iff s.id i,
  eq_iff s.id j,
  get_by_name_version-none s.name s.version repo i a new,
  get_by_name_version-none s.name s.version repo j b new,
  eq_iff a.name s.name,
  eq_iff a.version s.version,
  eq_iff b.name s.name,
  eq_iff b.version s.version,
  unique i j a b,
)

-- A registration keeps the pairs of a name and a version unique, whatever identifier it makes up.
pub register-UniqueNames :
    (r : RegisterSchemaRequest) (now : ℤ) (id : String) (w : Service)
    → UniqueNames w.stored
    → UniqueNames (register r now id w).1.stored
register-UniqueNames r now id w unique = elim (register-SchemaCourse r now id w) [
  | not_a_schema e bad out same ↦ subst (λ x. UniqueNames x) (sym same) unique
  | duplicate s other good taken out same ↦ subst (λ x. UniqueNames x) (sym same) unique
  | registered s good free out same ↦
      let fields = to_schema-fields r now id s good in
      subst (λ x. UniqueNames x) (sym same)
        (save-UniqueNames s w.stored
          (ap (λ n. get_by_name_version n s.version w.stored) fields.1
            ∙ ap (λ v. get_by_name_version r.name v w.stored) fields.2
            ∙ free)
          unique)
]

pub saved_name_taken :
    (r : RegisterSchemaRequest) (now : ℤ) (id : String) (s : Schema) (repo : SchemaRepository)
    → to_schema r now id ≡ ok s
    → get_by_name_version r.name r.version (save s repo) ≢ none
saved_name_taken r now id s repo good free = ground (
  arith,
  to_schema-fields r now id s good,
  get_by_name_version-none r.name r.version (save s repo) id s free
      (found_registered r now id s repo good),
  eq_iff s.name r.name,
  eq_iff s.version r.version,
)

to_schema-other_id :
    (r : RegisterSchemaRequest) (now later : ℤ) (id j : String) (s : Schema)
    → to_schema r now id ≡ ok s
    → is_blank j ≡ false
    → (t : Schema) × (to_schema r later j ≡ ok t)
unfolding to_schema new_schema validate
to_schema-other_id r now later id j s h b = (
  record {
    id = j;
    name = r.name;
    version = r.version;
    format = format_of_name r.format;
    definition = r.definition;
    created_at = later;
  },
  ground (arith, h, b),
)

-- After a successful registration, a further one of the same request is refused as a duplicate, at
-- any time and under any identifier that is not blank.
pub register-twice :
    (r : RegisterSchemaRequest) (now later : ℤ) (id j x : String) (w : Service)
    → (register r now id w).0 ≡ ok x
    → is_blank j ≡ false
    → (register r later j (register r now id w).1).0 ≡ err (already_exists r.name r.version)
register-twice r now later id j x w h b = elim (register-SchemaCourse r now id w) [
  | not_a_schema e bad out same ↦ ground (arith, out, h)
  | duplicate s other good taken out same ↦ ground (arith, out, h)
  | registered s good free out same ↦
      elim (register-SchemaCourse r later j (register r now id w).1) [
        | not_a_schema e bad out2 same2 ↦
            ground (arith, bad, (to_schema-other_id r now later id j s good b).1)
        | duplicate t other good2 taken out2 same2 ↦ out2
        | registered t good2 free2 out2 same2 ↦
            elim (saved_name_taken r now id s w.stored good
              (ap (λ y. get_by_name_version r.name r.version y) (sym same) ∙ free2)) [ ]
      ]
]
