-- ===== src/Domain/Filter.antt =====
-- The event filter (internal/domain/valueobject/filter.go). Regular expressions are Go's package
-- regexp, a parameter: what `Compile` returns, and what `MatchString` says.
pub mod Matching
pub mod Construction
use high_performance_event_s.Common.{
  ℕ, Bool, true, false, ◌&&◌, ◌||◌, not, String, List, [], ◌∷◌, Option, none, some, length, ltb,
  ◌==◌, if◌then◌else◌, is_blank, str_eq,
}
use high_performance_event_s.Common.Int.{ltb_ℤ, eqb_ℤ}
use high_performance_event_s.Common.Dict.{Dict, lookup, insert, delete, merge}
use high_performance_event_s.Common.Outcome.{Outcome, ok, err, ◌>>=◌}
use high_performance_event_s.Domain.Event.{Priority, Event, priority_unspecified}

-- `compile p` is `none` where `regexp.Compile` returns an error.
pub record Regexp : Type 1 where
  pub Regex : Type 0
  pub compile : String → Option Regex
  pub match_string : Regex → String → Bool

-- Which pattern did not compile.
pub data FilterError : Type 0 where
  bad_source bad_type bad_subject : FilterError

-- The loop over the metadata filters.
unfoldable pub metadata_match : Dict String → Dict String → Bool
metadata_match [] event_metadata = true
metadata_match ((key, expected) ∷ filters) event_metadata =
    let rest = metadata_match filters event_metadata in
    elim (lookup key event_metadata) [
      | none ↦ false
      | some actual ↦ if str_eq actual expected then rest else false
    ]

-- The loop of `RemoveMetadataFilter`: the entries of `old` with another key, put into `new`.
unfoldable pub keep_others : String → Dict String → Dict String → Dict String
keep_others key new [] = new
keep_others key new ((k, v) ∷ old) =
    keep_others key (if str_eq k key then new else insert k v new) old

module _ (R : Regexp) where
  pub record EventFilter : Type 0 where
    pub source_pattern : String
    pub type_pattern : String
    pub subject_pattern : String
    pub metadata_filters : Dict String
    pub min_priority : Priority
    pub source_regex : Option R.Regex
    pub type_regex : Option R.Regex
    pub subject_regex : Option R.Regex

  -- `if pattern != "" { regex, err = regexp.Compile(pattern) }`
  unfoldable pub compile_pattern : FilterError → String → Outcome FilterError (Option R.Regex)
  compile_pattern e pattern =
      if is_blank pattern
      then ok none
      else (elim (R.compile pattern) [ none ↦ err e | some r ↦ ok (some r) ])

  -- `NewEventFilter`
  unfoldable pub new_event_filter :
      String → String → String → Dict String → Priority → Outcome FilterError EventFilter
  unfolding compile_pattern
  new_event_filter source_pattern type_pattern subject_pattern metadata_filters min_priority = do
    source_regex ← compile_pattern bad_source source_pattern
    type_regex ← compile_pattern bad_type type_pattern
    subject_regex ← compile_pattern bad_subject subject_pattern
    ok (record {
      source_pattern = source_pattern;
      type_pattern = type_pattern;
      subject_pattern = subject_pattern;
      metadata_filters = merge [] metadata_filters;
      min_priority = min_priority;
      source_regex = source_regex;
      type_regex = type_regex;
      subject_regex = subject_regex;
    })

  -- `regex != nil && !regex.MatchString(text)`
  unfoldable pub refuses : Option R.Regex → String → Bool
  refuses none text = false
  refuses (some r) text = not (R.match_string r text)

  -- `Matches`
  unfoldable pub matches : EventFilter → Event → Bool
  unfolding refuses metadata_match
  matches f e =
      if refuses f.source_regex e.source
      then false
      else if refuses f.type_regex e.event_type
      then false
      else if refuses f.subject_regex e.subject
      then false
      else if ltb_ℤ e.priority f.min_priority
      then false
      else if ltb 0 (length f.metadata_filters)
      then metadata_match f.metadata_filters e.metadata
      else true

  -- `Empty`
  unfoldable pub is_empty : EventFilter → Bool
  is_empty f =
      is_blank f.source_pattern
      && (is_blank f.type_pattern
          && (is_blank f.subject_pattern
              && (length f.metadata_filters == 0 && eqb_ℤ f.min_priority priority_unspecified)))

  -- `AddMetadataFilter`
  unfoldable pub add_metadata_filter : String → String → EventFilter → EventFilter
  add_metadata_filter key value f = record f {
    metadata_filters = insert key value (merge [] f.metadata_filters);
  }

  -- `RemoveMetadataFilter`
  unfoldable pub remove_metadata_filter : String → EventFilter → EventFilter
  unfolding keep_others
  remove_metadata_filter key f =
      if ltb 0 (length f.metadata_filters)
      then record f { metadata_filters = keep_others key [] f.metadata_filters }
      else f
