-- ===== src/Validator/Caching.antt =====
-- The two maps of the validator, and what it finds in them.
use mathlib.Core.Path.{subst}
use high_performance_event_s.Common.{
  ◌≡◌, refl, sym, ◌↔◌, ◌⊎◌, inl, inr, Bool, true, false, ℕ, String, List, [], ◌∷◌, none, some, ◌==◌,
  length, is_blank, arith, if◌then◌else◌, eq_iff, Bool-cases, Option-cases,
}
use high_performance_event_s.Common.Int.{ℤ}
use high_performance_event_s.Common.Dict.{
  Dict, lookup, insert, IsMap, insert-IsMap, delete-IsMap, lookup-insert, lookup-delete,
}
use high_performance_event_s.Common.Outcome.{ok, Outcome-cases}
use high_performance_event_s.Validator.{
  JsonSchema, SchemaValidator, is_expired, forget, register_schema, get_schema, check_data,
  validate, unregister_schema, forget_expired, clear_cache,
}

module _ (J : JsonSchema) where
  -- The cache is a map, and what it has an entry for is what has a schema.
  pub record Agrees (v : SchemaValidator J) : Type 0 where
    pub is_map : IsMap v.cache
    pub same_keys : (id : String) → (lookup id v.schemas ≡ none) ↔ (lookup id v.cache ≡ none)

  pub forget-Agrees : (id : String) (v : SchemaValidator J) → Agrees v → Agrees (forget J id v)
  unfolding forget
  forget-Agrees id v a = record {
    is_map = delete-IsMap id v.cache a.is_map;
    same_keys = λ j.
        ground (arith, lookup-delete id j v.schemas, lookup-delete id j v.cache, a.same_keys j);
  }

  added-Agrees :
      (id : String) (s : J.Schema) (now : ℤ) (v : SchemaValidator J)
      → Agrees v
      → Agrees (record v { schemas = insert id s v.schemas; cache = insert id now v.cache })
  added-Agrees id s now v a = record {
    is_map = insert-IsMap id now v.cache a.is_map;
    same_keys = λ j.
        ground
          (arith, lookup-insert id j s v.schemas, lookup-insert id j now v.cache, a.same_keys j);
  }

  -- What an operation that concerns one schema can do to the maps.
  data Change (v v' : SchemaValidator J) : Type 0 where
    kept : v' ≡ v → Change v v'
    forgotten : (id : String) → v' ≡ forget J id v → Change v v'
    added :
        (id : String) (s : J.Schema) (now : ℤ)
        → v' ≡ record v { schemas = insert id s v.schemas; cache = insert id now v.cache }
        → Change v v'

  Change-Agrees : (v v' : SchemaValidator J) → Change v v' → Agrees v → Agrees v'
  Change-Agrees v v' c a = elim c [
    | kept e ↦ subst (λ x. Agrees x) (sym e) a
    | forgotten id e ↦ subst (λ x. Agrees x) (sym e) (forget-Agrees id v a)
    | added id s now e ↦ subst (λ x. Agrees x) (sym e) (added-Agrees id s now v a)
  ]

  register_schema-Change :
      (now : ℤ) (id : String) (text : List ℕ) (v : SchemaValidator J)
      → Change v (register_schema J now id text v).1
  unfolding register_schema
  register_schema-Change now id text v = elim (Bool-cases (is_blank id)) [
    | inl a ↦ kept (ground (arith, a))
    | inr a ↦ elim (Bool-cases (length text == 0)) [
      | inl b ↦ kept (ground (arith, a, b))
      | inr b ↦ elim (Outcome-cases (J.compile text)) [
        | inl (s, c) ↦ added id s now (ground (arith, a, b, c))
        | inr (e, c) ↦ kept (ground (arith, a, b, c))
      ]
    ]
  ]

  get_schema-Change :
      (now : ℤ) (id : String) (v : SchemaValidator J) → Change v (get_schema J now id v).1
  unfolding get_schema
  get_schema-Change now id v = elim (Bool-cases (is_blank id)) [
    | inl a ↦ kept (ground (arith, a))
    | inr a ↦ elim (Option-cases (lookup id v.schemas)) [
      | inl b ↦ kept (ground (arith, a, b))
      | inr (s, b) ↦ elim (Option-cases (lookup id v.cache)) [
        | inl c ↦ kept (ground (arith, a, b, c))
        | inr (cached, c) ↦ elim (Bool-cases (is_expired J v.cache_ttl now cached)) [
          | inl d ↦ forgotten id (ground (arith, a, b, c, d))
          | inr d ↦ kept (ground (arith, a, b, c, d))
        ]
      ]
    ]
  ]

  validate-after :
      (now : ℤ) (id : String) (payload : List ℕ) (v : SchemaValidator J)
      → let v' = (validate J now id payload v).1 in (v' ≡ v) ⊎ (v' ≡ (get_schema J now id v).1)
  unfolding validate
  validate-after now id payload v = elim (Bool-cases (is_blank id)) [
    | inl a ↦ inl (ground (arith, a))
    | inr a ↦ elim (Bool-cases (length payload == 0)) [
      | inl b ↦ inl (ground (arith, a, b))
      | inr b ↦ elim (Outcome-cases (get_schema J now id v).0) [
        | inl (s, c) ↦ inr (ground (arith, a, b, c))
        | inr (e, c) ↦ inr (ground (arith, a, b, c))
      ]
    ]
  ]

  unregister_schema-Change :
      (id : String) (v : SchemaValidator J) → Change v (unregister_schema J id v).1
  unfolding unregister_schema
  unregister_schema-Change id v = elim (Bool-cases (is_blank id)) [
    | inl a ↦ kept (ground (arith, a))
    | inr a ↦ elim (Option-cases (lookup id v.schemas)) [
      | inl b ↦ kept (ground (arith, a, b))
      | inr (s, b) ↦ forgotten id (ground (arith, a, b))
    ]
  ]

  forget_expired-Agrees :
      (now : ℤ) (entries : Dict ℤ) (v : SchemaValidator J)
      → Agrees v
      → Agrees (forget_expired J now entries v)
  unfolding forget_expired
  forget_expired-Agrees now [] v a = a
  forget_expired-Agrees now ((id, cached) ∷ entries) v a =
      elim (is_expired J v.cache_ttl now cached)
        as (λ b. Agrees (forget_expired J now entries (if b then forget J id v else v))) [
          | true ↦ forget_expired-Agrees now entries (forget J id v) (forget-Agrees id v a)
          | false ↦ forget_expired-Agrees now entries v a
        ]

  -- A call of the validator.
  pub data Call : Type 0 where
    registering : ℤ → String → List ℕ → Call
    getting : ℤ → String → Call
    validating : ℤ → String → List ℕ → Call
    unregistering : String → Call
    clearing : ℤ → Call

  abbrev pub after_call : Call → SchemaValidator J → SchemaValidator J
  after_call (registering now id text) v = (register_schema J now id text v).1
  after_call (getting now id) v = (get_schema J now id v).1
  after_call (validating now id payload) v = (validate J now id payload v).1
  after_call (unregistering id) v = (unregister_schema J id v).1
  after_call (clearing now) v = clear_cache J now v

  -- Every call keeps the two maps in agreement: the same identifiers have a schema and an entry in
  -- the cache.
  pub after_call-Agrees : (c : Call) (v : SchemaValidator J) → Agrees v → Agrees (after_call c v)
  unfolding clear_cache
  after_call-Agrees (registering now id text) v a =
      Change-Agrees v _ (register_schema-Change now id text v) a
  after_call-Agrees (getting now id) v a = Change-Agrees v _ (get_schema-Change now id v) a
  after_call-Agrees (validating now id payload) v a = elim (validate-after now id payload v) [
    | inl e ↦ subst (λ x. Agrees x) (sym e) a
    | inr e ↦ subst (λ x. Agrees x) (sym e) (Change-Agrees v _ (get_schema-Change now id v) a)
  ]
  after_call-Agrees (unregistering id) v a = Change-Agrees v _ (unregister_schema-Change id v) a
  after_call-Agrees (clearing now) v a = forget_expired-Agrees now v.cache v a

  -- A schema is expired where the cache has an entry for it that is older than the time to live.
  abbrev pub has_expired : SchemaValidator J → ℤ → String → Bool
  has_expired v now id = elim (lookup id v.cache) [
    | none ↦ false
    | some cached ↦ is_expired J v.cache_ttl now cached
  ]

  -- Validation succeeds exactly where the identifier and the data are not empty, the schema is
  -- registered and not expired, and the data passes it.
  pub validate-ok_iff :
      (now : ℤ) (id : String) (payload : List ℕ) (v : SchemaValidator J)
      → ((validate J now id payload v).0 ≡ ok tt) ↔ (
          (is_blank id ≡ false)
          × ((length payload == 0) ≡ false)
          × (has_expired v now id ≡ false)
          × ((s : J.Schema) × (lookup id v.schemas ≡ some s) × (check_data J s payload ≡ ok tt)))
  unfolding validate get_schema
  validate-ok_iff now id payload v = elim (Option-cases (lookup id v.schemas)) [
    | inl b ↦ (λ h. ground (arith, b, h), λ h. ground (arith, b, h.3.1))
    | inr (s, b) ↦ (
      λ h. (
        ground (arith, h),
        ground (arith, h),
        ground (arith, b, h),
        (s, b, ground (arith, b, h)),
      ),
      λ h. ground (arith, b, h.0, h.1, h.2, h.3.1, h.3.2),
    )
  ]

  forget_expired-lookup :
      (now : ℤ) (entries : Dict ℤ) (v : SchemaValidator J) (id : String)
      → IsMap entries
      → lookup id (forget_expired J now entries v).schemas ≡ (elim (lookup id entries) [
        | none ↦ lookup id v.schemas
        | some cached ↦ if is_expired J v.cache_ttl now cached then none else lookup id v.schemas
      ])
  unfolding forget_expired forget lookup
  forget_expired-lookup now [] v id m = refl
  forget_expired-lookup now ((j, cached) ∷ entries) v id m = ground (
    arith,
    eq_iff j id,
    lookup-delete j id v.schemas,
    m.0,
    forget_expired-lookup now entries v id m.1,
    forget_expired-lookup now entries (forget J j v) id m.1,
  )

  -- Where the cache is a map, clearing it drops exactly the schemas that are expired.
  pub clear_cache-lookup :
      (now : ℤ) (v : SchemaValidator J) (id : String)
      → IsMap v.cache
      → lookup id (clear_cache J now v).schemas
        ≡ (if has_expired v now id then none else lookup id v.schemas)
  unfolding clear_cache
  clear_cache-lookup now v id m = ground (arith, forget_expired-lookup now v.cache v id m)
