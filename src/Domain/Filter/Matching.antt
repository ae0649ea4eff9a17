-- ===== src/Domain/Filter/Matching.antt =====
-- What `Matches` decides: the filter's conditions as a statement, with the metadata filters read as
-- a map.
use high_performance_event_s.Common.{
  ◌≡◌, refl, ◌↔◌, ◌⊎◌, true, false, String, [], ◌∷◌, Option, none, some, arith, eq_iff, Bool-cases,
  Option-cases, inl, inr, is_blank, length, ltb, if◌then◌else◌,
}
use high_performance_event_s.Common.Int.{◌≤ℤ◌}
use high_performance_event_s.Common.Dict.{Dict, lookup, IsMap}
use high_performance_event_s.Common.Outcome.{ok}
use high_performance_event_s.Domain.Event.{Priority, Event}
use high_performance_event_s.Domain.Filter.{
  Regexp, EventFilter, FilterError, compile_pattern, refuses, metadata_match, matches,
}

-- Every entry of `wanted` is an entry of `found`.
abbrev pub Includes : Dict String → Dict String → Type 0
Includes found wanted = (k v : String) → lookup k wanted ≡ some v → lookup k found ≡ some v

metadata_match_sound :
    (filters found : Dict String) (k v : String)
    → metadata_match filters found ≡ true
    → lookup k filters ≡ some v
    → lookup k found ≡ some v
unfolding metadata_match lookup
metadata_match_sound [] found k v h e = cc
metadata_match_sound ((j, w) ∷ filters) found k v h e = elim (Option-cases (lookup j found)) [
  | inl p ↦ ground arith
  | inr (a, p) ↦ ground (arith, eq_iff j k, eq_iff a w, metadata_match_sound filters found k v)
]

-- Of distinct keys, a later one is not the first.
Includes-tail :
    (found filters : Dict String) (j w : String)
    → lookup j filters ≡ none
    → Includes found ((j, w) ∷ filters)
    → Includes found filters
unfolding lookup
Includes-tail found filters j w m h k v e = ground (arith, eq_iff j k, h k v)

metadata_match_complete :
    (filters found : Dict String)
    → IsMap filters
    → Includes found filters
    → metadata_match filters found ≡ true
unfolding metadata_match lookup
metadata_match_complete [] found m h = refl
metadata_match_complete ((j, w) ∷ filters) found m h = ground (
  arith,
  eq_iff j j,
  eq_iff w w,
  h j w,
  metadata_match_complete filters found m.1 (Includes-tail found filters j w m.0 h),
)

-- A pattern of the request: blank, or a regular expression that matches the text.
abbrev pub Admits : (R : Regexp) → String → String → Type 0
Admits R pattern text =
    (pattern ≡ "") ⊎ ((r : R.Regex) × (R.compile pattern ≡ some r) × (R.match_string r text ≡ true))

-- What a filter asks of an event.
pub record Accepts (R : Regexp) (f : EventFilter R) (e : Event) : Type 0 where
  pub source_ok : refuses R f.source_regex e.source ≡ false
  pub type_ok : refuses R f.type_regex e.event_type ≡ false
  pub subject_ok : refuses R f.subject_regex e.subject ≡ false
  pub priority_ok : f.min_priority ≤ℤ e.priority
  pub metadata_ok : Includes e.metadata f.metadata_filters

-- The test for an empty map skips a loop that would do nothing.
metadata_match-skip :
    (filters found : Dict String)
    → (if ltb 0 (length filters) then metadata_match filters found else true)
      ≡ metadata_match filters found
unfolding metadata_match
metadata_match-skip [] found = refl
metadata_match-skip (x ∷ filters) found = ground arith

module _ (R : Regexp) (f : EventFilter R) (e : Event) where
  matches_sound : matches R f e ≡ true → Accepts R f e
  unfolding matches
  matches_sound h = record {
    source_ok = ground arith;
    type_ok = ground arith;
    subject_ok = ground arith;
    priority_ok = ground arith;
    metadata_ok = λ k v.
        metadata_match_sound f.metadata_filters e.metadata k v
          (ground (arith, metadata_match-skip f.metadata_filters e.metadata));
  }

  matches_complete : IsMap f.metadata_filters → Accepts R f e → matches R f e ≡ true
  unfolding matches
  matches_complete m a = ground (
    arith,
    metadata_match-skip f.metadata_filters e.metadata,
    metadata_match_complete f.metadata_filters e.metadata m a.metadata_ok,
    a.source_ok,
    a.type_ok,
    a.subject_ok,
    a.priority_ok,
  )

  -- A filter lets through exactly the events that meet all its conditions.
  pub matches_iff : IsMap f.metadata_filters → (matches R f e ≡ true) ↔ Accepts R f e
  matches_iff m = (matches_sound, matches_complete m)

-- A regular expression kept by the constructor refuses a text exactly where its pattern does not
-- admit it.
pub compile_pattern-Admits :
    (R : Regexp) (x : FilterError) (pattern text : String) {r : Option R.Regex}
    → compile_pattern R x pattern ≡ ok r
    → (refuses R r text ≡ false) ↔ Admits R pattern text
unfolding compile_pattern refuses
compile_pattern-Admits R x pattern text {r} h = elim (Bool-cases (is_blank pattern)) [
  | inl blank ↦ (λ _. inl ((eq_iff pattern "").0 blank), λ _. ground (arith, blank))
  | inr shown ↦ elim (Option-cases (R.compile pattern)) [
    | inl bad ↦ absurd (ground (arith, bad, shown))
    | inr (s, good) ↦ (
      λ k. inr (s, good, ground (arith, shown, good)),
      λ a. ground (arith, eq_iff pattern "", shown, good),
    )
  ]
]

-- The conditions of a request for a filter on an event, as the caller wrote them.
pub record Selects (R : Regexp) (source_pattern type_pattern subject_pattern : String)
    (metadata_filters : Dict String) (min_priority : Priority) (e : Event) : Type 0 where
  pub source_ok : Admits R source_pattern e.source
  pub type_ok : Admits R type_pattern e.event_type
  pub subject_ok : Admits R subject_pattern e.subject
  pub priority_ok : min_priority ≤ℤ e.priority
  pub metadata_ok : Includes e.metadata metadata_filters
