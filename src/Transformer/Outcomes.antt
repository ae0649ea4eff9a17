-- ===== src/Transformer/Outcomes.antt =====
-- What the engine answers over many calls, and what a transformed event holds.

use high_performance_event_s.Common.{
  ◌≡◌, refl, ap, ◌∙◌, inl, inr, List, [], ◌∷◌, map, Option, arith, Option-cases,
}
use high_performance_event_s.Common.Int.{ℤ}
use high_performance_event_s.Common.Outcome.{Outcome}
use high_performance_event_s.Domain.Event.{Event}
use high_performance_event_s.Transformer.{
  Transformation, Libraries, TransformError, Engine, new_transformation_engine, clear_cache,
  transform,
}
use high_performance_event_s.Transformer.Caches.{
  Coherent, empty-Coherent, transform-Coherent, transform-uncached,
}

-- A call of the engine, with the clock that it reads.
pub record Call : Type 0 where
  pub now : ℤ
  pub created : ℤ
  pub event : Option Event
  pub transformation : Option Transformation

module _ (L : Libraries) where
  abbrev pub call_on : Engine L → Call → Outcome TransformError Event × Engine L
  call_on s c = transform L c.now c.created c.event c.transformation s

  -- The answers to calls, one after the other on one engine.
  unfoldable pub answers : List Call → Engine L → List (Outcome TransformError Event)
  answers [] s = []
  answers (c ∷ cs) s = (call_on s c).0 ∷ answers cs (call_on s c).1

  transform-size : (c : Call) (s : Engine L) → clear_cache L (call_on s c).1 ≡ clear_cache L s
  unfolding transform clear_cache
  transform-size c s = elim (Option-cases c.event) [
    | inl a ↦ ground (arith, a)
    | inr (e, a) ↦ elim (Option-cases c.transformation) [
      | inl b ↦ ground (arith, a, b)
      | inr (t, b) ↦ ground (arith, a, b)
    ]
  ]

  answers-fresh :
      (cs : List Call) (s : Engine L)
      → Coherent L s
      → answers cs s ≡ map (λ c. (call_on (clear_cache L s) c).0) cs
  unfolding answers
  answers-fresh [] s h = refl
  answers-fresh (c ∷ cs) s h =
      let next = (call_on s c).1 in
      let rest =
        answers-fresh cs next (transform-Coherent L c.now c.created c.event c.transformation s h) in
      let one = transform-uncached L c.now c.created c.event c.transformation s h in
      ap (λ a. a ∷ answers cs next) one
      ∙ ap (λ l. (call_on (clear_cache L s) c).0 ∷ l) rest
      ∙ ap (λ k. (call_on (clear_cache L s) c).0 ∷ map (λ d. (call_on k d).0) cs)
          (transform-size c s)

  -- Whatever calls a new engine has had, it answers each call as a new engine would: the caches of the
  -- programs, queries and templates do not show, where making one of a script always gives the same.
  pub answers-new_engine :
      (n : ℤ) (cs : List Call)
      → answers cs (new_transformation_engine L n)
        ≡ map (λ c. (call_on (new_transformation_engine L n) c).0) cs
  unfolding new_transformation_engine clear_cache
  answers-new_engine n cs =
      answers-fresh cs (new_transformation_engine L n)
        (empty-Coherent L (new_transformation_engine L n))
