-- ===== src/Domain/Filter/Construction.antt =====
-- Filters as they are built: `NewEventFilter`, `AddMetadataFilter`, `RemoveMetadataFilter`, `Empty`.
use mathlib.Core.Path.{subst}
use high_performance_event_s.Common.{
  ◌≡◌, refl, sym, ◌↔◌, ◌⊎◌, true, String, [], ◌∷◌, Option, none, some, arith, eq_iff, str_eq,
  Bool-cases, Option-cases, inl, inr, is_blank, length, ltb, ◌==◌, if◌then◌else◌,
}
use high_performance_event_s.Common.Int.{pos, leb_ℤ}
use high_performance_event_s.Common.Dict.{
  Dict, lookup, insert, merge, IsMap, or_else, lookup-insert, insert-IsMap, merge-IsMap,
  lookup-merge,
}
use high_performance_event_s.Common.Outcome.{ok, Outcome-cases}
use high_performance_event_s.Domain.Event.{Priority, Event}
use high_performance_event_s.Domain.Filter.{
  Regexp, EventFilter, FilterError, bad_source, bad_type, bad_subject, new_event_filter,
  compile_pattern, matches, is_empty, add_metadata_filter, keep_others, remove_metadata_filter,
}
use high_performance_event_s.Domain.Filter.Matching.{Selects, matches_iff, compile_pattern-Admits}

-- What a successful `NewEventFilter` puts into the filter.
pub record Built (R : Regexp) (s t u : String) (md : Dict String) (p : Priority) (f : EventFilter R)
    : Type 0 where
  pub source_compiled : compile_pattern R bad_source s ≡ ok f.source_regex
  pub type_compiled : compile_pattern R bad_type t ≡ ok f.type_regex
  pub subject_compiled : compile_pattern R bad_subject u ≡ ok f.subject_regex
  pub patterns_kept : (f.source_pattern ≡ s) × (f.type_pattern ≡ t) × (f.subject_pattern ≡ u)
  pub filters_copied : f.metadata_filters ≡ merge [] md
  pub priority_kept : f.min_priority ≡ p

pub new_event_filter-Built :
    (R : Regexp) (s t u : String) (md : Dict String) (p : Priority) {f : EventFilter R}
    → new_event_filter R s t u md p ≡ ok f
    → Built R s t u md p f
unfolding new_event_filter
new_event_filter-Built R s t u md p {f} h = elim (Outcome-cases (compile_pattern R bad_source s)) [
  | inr (x, a) ↦ ground (arith, a)
  | inl (x, a) ↦ elim (Outcome-cases (compile_pattern R bad_type t)) [
    | inr (y, b) ↦ ground (arith, a, b)
    | inl (y, b) ↦ elim (Outcome-cases (compile_pattern R bad_subject u)) [
      | inr (z, c) ↦ ground (arith, a, b, c)
      | inl (z, c) ↦ ground (arith, a, b, c)
    ]
  ]
]

lookup-copy : (k : String) (md : Dict String) → IsMap md → lookup k (merge [] md) ≡ lookup k md
unfolding lookup
lookup-copy k md m = ground (arith, lookup-merge k [] md m)

-- A filter that `NewEventFilter` returns, from a metadata map, lets through exactly the events that
-- meet the request: each pattern is blank or matches, the priority is at least the minimum, and the
-- event's metadata has every requested entry.
pub new_event_filter-matches :
    (R : Regexp) (s t u : String) (md : Dict String) (p : Priority) (f : EventFilter R) (e : Event)
    → IsMap md
    → new_event_filter R s t u md p ≡ ok f
    → (matches R f e ≡ true) ↔ Selects R s t u md p e
new_event_filter-matches R s t u md p f e m h =
    let b = new_event_filter-Built R s t u md p h in
    let fm : IsMap f.metadata_filters =
      subst (λ m. IsMap m) (sym b.filters_copied) (merge-IsMap [] md tt) in
    (
      λ k.
          let a = (matches_iff R f e fm).0 k in
          record {
            source_ok =
                (compile_pattern-Admits R bad_source s e.source b.source_compiled).0 a.source_ok;
            type_ok =
                (compile_pattern-Admits R bad_type t e.event_type b.type_compiled).0 a.type_ok;
            subject_ok =
                (compile_pattern-Admits R bad_subject u e.subject b.subject_compiled).0
                  a.subject_ok;
            priority_ok = ground (arith, b.priority_kept, a.priority_ok);
            metadata_ok =
                λ k v q. a.metadata_ok k v (ground (arith, b.filters_copied, lookup-copy k md m));
          },
      λ q. (matches_iff R f e fm).1 (record {
        source_ok =
            (compile_pattern-Admits R bad_source s e.source b.source_compiled).1 q.source_ok;
        type_ok = (compile_pattern-Admits R bad_type t e.event_type b.type_compiled).1 q.type_ok;
        subject_ok =
            (compile_pattern-Admits R bad_subject u e.subject b.subject_compiled).1 q.subject_ok;
        priority_ok = ground (arith, b.priority_kept, q.priority_ok);
        metadata_ok =
            λ k v w. q.metadata_ok k v (ground (arith, b.filters_copied, lookup-copy k md m));
      }),
    )

-- A pattern that the constructor takes: blank, or a regular expression.
abbrev pub Compiles : (R : Regexp) → String → Type 0
Compiles R pattern = (is_blank pattern ≡ true) ⊎ ((r : R.Regex) × (R.compile pattern ≡ some r))

compile_pattern-Compiles :
    (R : Regexp) (x : FilterError) (pattern : String)
    → Compiles R pattern
    → (r : Option R.Regex) × (compile_pattern R x pattern ≡ ok r)
unfolding compile_pattern
compile_pattern-Compiles R x pattern (inl b) = (none, ground (arith, b))
compile_pattern-Compiles R x pattern (inr (r, c)) = elim (Bool-cases (is_blank pattern)) [
  | inl b ↦ (none, ground (arith, b))
  | inr b ↦ (some r, ground (arith, b, c))
]

Compiles-of_ok :
    (R : Regexp) (x : FilterError) (pattern : String) {r : Option R.Regex}
    → compile_pattern R x pattern ≡ ok r
    → Compiles R pattern
unfolding compile_pattern
Compiles-of_ok R x pattern {r} h = elim (Bool-cases (is_blank pattern)) [
  | inl b ↦ inl b
  | inr b ↦ elim (Option-cases (R.compile pattern)) [
    | inl c ↦ absurd (ground (arith, b, c))
    | inr (s, c) ↦ inr (s, c)
  ]
]

-- `NewEventFilter` succeeds exactly where each of the three patterns is blank or compiles.
pub new_event_filter-ok_iff :
    (R : Regexp) (s t u : String) (md : Dict String) (p : Priority)
    → ((f : EventFilter R) × (new_event_filter R s t u md p ≡ ok f))
      ↔ (Compiles R s × Compiles R t × Compiles R u)
unfolding new_event_filter
new_event_filter-ok_iff R s t u md p = (
  λ (f, h).
      let b = new_event_filter-Built R s t u md p (unfold new_event_filter in h) in
      (
        Compiles-of_ok R bad_source s b.source_compiled,
        Compiles-of_ok R bad_type t b.type_compiled,
        Compiles-of_ok R bad_subject u b.subject_compiled,
      ),
  λ (a, b, c).
      let (x, p1) = compile_pattern-Compiles R bad_source s a in
      let (y, p2) = compile_pattern-Compiles R bad_type t b in
      let (z, p3) = compile_pattern-Compiles R bad_subject u c in
      (
        record {
          source_pattern = s;
          type_pattern = t;
          subject_pattern = u;
          metadata_filters = merge [] md;
          min_priority = p;
          source_regex = x;
          type_regex = y;
          subject_regex = z;
        },
        ground (arith, p1, p2, p3),
      ),
)

no_filters : (m : Dict String) → (length m == 0) ≡ true → m ≡ []
no_filters [] h = refl
no_filters (x ∷ m) h = absurd (ground arith)

blank_pattern :
    (R : Regexp) (x : FilterError) (pattern : String) {r : Option R.Regex}
    → is_blank pattern ≡ true
    → compile_pattern R x pattern ≡ ok r
    → r ≡ none
unfolding compile_pattern
blank_pattern R x pattern b h = ground (arith, b)

-- A filter that is `Empty` lets through exactly the events whose priority is not negative, whatever
-- else they hold.
pub is_empty-matches :
    (R : Regexp) (s t u : String) (md : Dict String) (p : Priority) (f : EventFilter R) (e : Event)
    → new_event_filter R s t u md p ≡ ok f
    → is_empty R f ≡ true
    → matches R f e ≡ leb_ℤ (pos 0) e.priority
unfolding is_empty matches
is_empty-matches R s t u md p f e h z =
    let b = new_event_filter-Built R s t u md p h in
    let blank : (is_blank s ≡ true)
        × (is_blank t ≡ true)
        × (is_blank u ≡ true)
        × ((length f.metadata_filters == 0) ≡ true)
        × (f.min_priority ≡ pos 0) =
      ground (arith, b.patterns_kept.0, b.patterns_kept.1, b.patterns_kept.2) in
    let s_none : f.source_regex ≡ none = blank_pattern R bad_source s blank.0 b.source_compiled in
    let t_none : f.type_regex ≡ none = blank_pattern R bad_type t blank.1 b.type_compiled in
    let u_none : f.subject_regex ≡ none =
      blank_pattern R bad_subject u blank.2 b.subject_compiled in
    let m_none : f.metadata_filters ≡ [] = no_filters f.metadata_filters blank.3 in
    ground (arith, blank.4)

lookup-keep_others :
    (key j : String) (new old : Dict String)
    → IsMap old
    → lookup j (keep_others key new old)
      ≡ (if str_eq key j then lookup j new else or_else (lookup j old) (lookup j new))
unfolding keep_others lookup
lookup-keep_others key j new [] m = ground arith
lookup-keep_others key j new ((i, w) ∷ old) m = ground (
  arith,
  eq_iff i key,
  eq_iff key j,
  eq_iff i j,
  lookup-insert i j w new,
  lookup-keep_others key j new old m.1,
  lookup-keep_others key j (insert i w new) old m.1,
)

keep_others-IsMap :
    (key : String) (new old : Dict String) → IsMap new → IsMap (keep_others key new old)
unfolding keep_others
keep_others-IsMap key new [] h = h
keep_others-IsMap key new ((i, w) ∷ old) h = ground (
  arith,
  insert-IsMap i w new h,
  keep_others-IsMap key new old h,
  keep_others-IsMap key (insert i w new) old (insert-IsMap i w new h),
)

keep_others-skip :
    (key : String) (m : Dict String)
    → (if ltb 0 (length m) then keep_others key [] m else m) ≡ keep_others key [] m
unfolding keep_others
keep_others-skip key [] = refl
keep_others-skip key (x ∷ m) = ground arith

module _ (R : Regexp) (f : EventFilter R) (m : IsMap f.metadata_filters) where
  lookup-remove_metadata_filter :
      (key j : String)
      → lookup j (remove_metadata_filter R key f).metadata_filters
        ≡ (if str_eq key j then none else lookup j f.metadata_filters)
  unfolding remove_metadata_filter lookup
  lookup-remove_metadata_filter key j = ground (
    arith,
    keep_others-skip key f.metadata_filters,
    lookup-keep_others key j [] f.metadata_filters m,
  )

  lookup-add_metadata_filter :
      (key value j : String)
      → lookup j (add_metadata_filter R key value f).metadata_filters
        ≡ (if str_eq key j then some value else lookup j f.metadata_filters)
  unfolding add_metadata_filter
  lookup-add_metadata_filter key value j = ground (
    arith,
    lookup-insert key j value (merge [] f.metadata_filters),
    lookup-copy j f.metadata_filters m,
  )

  remove_metadata_filter-IsMap :
      (key : String) → IsMap (remove_metadata_filter R key f).metadata_filters
  unfolding remove_metadata_filter
  remove_metadata_filter-IsMap key = ground (arith, keep_others-IsMap key [] f.metadata_filters tt)

  add_metadata_filter-IsMap :
      (key value : String) → IsMap (add_metadata_filter R key value f).metadata_filters
  unfolding add_metadata_filter
  add_metadata_filter-IsMap key value =
      insert-IsMap key value (merge [] f.metadata_filters) (merge-IsMap [] f.metadata_filters tt)

  -- A filter with an added entry lets through exactly the events that the filter without the key
  -- lets through and whose metadata has the entry: an older entry under the key is replaced.
  pub add-remove-matches :
      (key value : String) (e : Event)
      → (matches R (add_metadata_filter R key value f) e ≡ true) ↔ (
          (matches R (remove_metadata_filter R key f) e ≡ true)
          × (lookup key e.metadata ≡ some value))
  unfolding remove_metadata_filter add_metadata_filter
  add-remove-matches key value e =
      let removed = lookup-remove_metadata_filter key in
      let added = lookup-add_metadata_filter key value in
      let with_entry =
        matches_iff R (add_metadata_filter R key value f) e (add_metadata_filter-IsMap key value) in
      let without =
        matches_iff R (remove_metadata_filter R key f) e (remove_metadata_filter-IsMap key) in
      (
        λ h.
            let a = with_entry.0 h in
            (
              without.1 (record {
                source_ok = ground (arith, a.source_ok);
                type_ok = ground (arith, a.type_ok);
                subject_ok = ground (arith, a.subject_ok);
                priority_ok = ground (arith, a.priority_ok);
                metadata_ok = λ j v q. a.metadata_ok j v (ground (arith, q, removed j, added j));
              }),
              a.metadata_ok key value (ground (arith, added key, eq_iff key key)),
            ),
        λ (h, g).
            let a = without.0 h in
            with_entry.1 (record {
              source_ok = ground (arith, a.source_ok);
              type_ok = ground (arith, a.type_ok);
              subject_ok = ground (arith, a.subject_ok);
              priority_ok = ground (arith, a.priority_ok);
              metadata_ok = λ j v q.
                  ground (arith, q, g, eq_iff key j, removed j, added j, a.metadata_ok j v);
            }),
      )
