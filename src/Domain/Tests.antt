-- ===== src/Domain/Tests.antt =====
-- The filter on concrete requests and events.
use high_performance_event_s.Common.{
  ◌≡◌, refl, ◌↔◌, true, String, [], ◌∷◌, none, some, if◌then◌else◌, str_eq,
}
use high_performance_event_s.Common.Int.{pos, negsuc}
use high_performance_event_s.Common.Dict.{Dict, lookup, insert, merge}
use high_performance_event_s.Common.Outcome.{ok, err}
use high_performance_event_s.Domain.Event.{
  Event, priority_high, priority_unspecified, new_event, validate, empty_data,
}
use high_performance_event_s.Domain.Filter.{
  Regexp, EventFilter, new_event_filter, matches, bad_type,
}
use high_performance_event_s.Domain.Filter.Matching.{Selects}
use high_performance_event_s.Domain.Filter.Construction.{new_event_filter-matches}
use high_performance_event_s.Common.{List}
use high_performance_event_s.Domain.Transformation.{
  Transformation, type_none, is_none, validate as validate_transformation,
}
use high_performance_event_s.Domain.Consumer.{Consumer, inactive, new_consumer, is_draining, drain}
use high_performance_event_s.Domain.Consumer.Lifecycle.{
  Step, activating, being_drained, run, run-Lived, Lived,
}

-- Patterns without special characters, and one that does not compile.
abbrev literal : Regexp
literal = record {
  Regex = String;
  compile = λ p. if str_eq p "(" then none else some p;
  match_string = λ r text. str_eq r text;
}

abbrev login : Event
login = record {
  id = "e1";
  source = "auth";
  event_type = "login";
  subject = "alice";
  payload = 123 ∷ 125 ∷ [];
  data_content_type = "application/json";
  schema_url = "";
  timestamp = pos 120_000_000_000;
  metadata = ("region", "eu") ∷ ("tier", "gold") ∷ [];
  correlation_id = "";
  causation_id = "";
  partition_key = "";
  priority = priority_high;
  created_at = pos 120_000_000_000;
}

abbrev region : Dict String
region = ("region", "eu") ∷ []

abbrev by_region : EventFilter literal
by_region = record {
  source_pattern = "auth";
  type_pattern = "";
  subject_pattern = "";
  metadata_filters = region;
  min_priority = pos 2;
  source_regex = some "auth";
  type_regex = none;
  subject_regex = none;
}

built : new_event_filter literal "auth" "" "" region (pos 2) ≡ ok by_region
unfolding new_event_filter insert merge
built = refl

bad_pattern : new_event_filter literal "auth" "(" "" [] (pos 0) ≡ err bad_type
unfolding new_event_filter
bad_pattern = refl

lets_through : matches literal by_region login ≡ true
unfolding matches lookup
lets_through = refl

no_data : new_event (pos 0) (pos 0) "e" "s" "t" "" [] "text/plain" ≡ err empty_data
unfolding new_event validate
no_data = refl

new_event_filter-matches_example :
    (matches literal by_region login ≡ true) ↔ Selects literal "auth" "" "" region (pos 2) login
unfolding lookup
new_event_filter-matches_example =
    new_event_filter-matches literal "auth" "" "" region (pos 2) by_region login (refl, tt) built

abbrev anything : EventFilter literal
anything = record {
  source_pattern = "";
  type_pattern = "";
  subject_pattern = "";
  metadata_filters = [];
  min_priority = priority_unspecified;
  source_regex = none;
  type_regex = none;
  subject_regex = none;
}

abbrev demoted : Event
demoted = record login { priority = negsuc 0 }

abbrev unfiltered : EventFilter literal
unfiltered = record {
  source_pattern = "";
  type_pattern = "";
  subject_pattern = "";
  metadata_filters = [];
  min_priority = priority_unspecified;
  source_regex = none;
  type_regex = none;
  subject_regex = none;
}

abbrev untouched : Transformation
untouched = record { kind = type_none; expression = "" }

abbrev auditor : Consumer literal
auditor = record {
  id = "c1";
  name = "audit";
  group_id = "ops";
  event_filter = unfiltered;
  transformation = untouched;
  status = inactive;
  created_at = pos 1;
  updated_at = pos 1;
}

abbrev steps : List (Step literal)
steps = activating (pos 2) ∷ being_drained (pos 3) ∷ activating (pos 4) ∷ []

made : new_consumer literal (pos 1) "c1" "audit" "ops" unfiltered untouched ≡ ok auditor
unfolding new_consumer validate_transformation is_none
made = refl

drained : is_draining literal (drain literal (pos 2) auditor) ≡ true
unfolding is_draining drain
drained = refl

run-Lived_example : Lived literal unfiltered steps (run literal steps auditor)
run-Lived_example = run-Lived literal (pos 1) "c1" "audit" "ops" unfiltered untouched steps made
