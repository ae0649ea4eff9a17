-- ===== src/Health/Tests.antt =====
-- Two checks, of which one fails.
use high_performance_event_s.Common.{
  ℕ, ◌≡◌, refl, ◌↔◌, ◌⊎◌, [], ◌∷◌, none, some, ◌==◌, if◌then◌else◌,
}
use high_performance_event_s.Common.Int.{pos}
use high_performance_event_s.Common.Dict.{Dict, lookup, insert}
use high_performance_event_s.Common.Outcome.{err}
use high_performance_event_s.Health.{
  Check, HealthError, kafka_health_check, simple_health_check, register_check, name, check, ping,
  status_of, run_checks, values, check_all, health_http_handler,
}
use high_performance_event_s.Health.Verdict.{health_http_handler_iff, AllPass, statuses_from}

-- The broker answers until the second call.
abbrev broker : Check ℕ
broker = kafka_health_check (some (λ w. if w == 0 then none else some "no broker"))

abbrev registered : Dict (Check ℕ)
registered = ("base", simple_health_check "base") ∷ ("kafka", broker) ∷ []

program : Unit {0}
unfolding health_http_handler check_all run_checks name check ping status_of register_check insert
    lookup
program = tt

late : (health_http_handler (λ k. k) (pos 9) registered).0 ≡ 503
unfolding program
late = refl

early : (health_http_handler (λ k. 0) (pos 9) registered).0 ≡ 200
unfolding program
early = refl

taken : (register_check (some broker) registered).0 ≡ err (HealthError.already_registered "kafka")
unfolding program
taken = refl

health_http_handler_iff_example :
    let answer = health_http_handler (λ k. k) (pos 9) registered in
    ((answer.0 ≡ 200) ↔ AllPass (λ k. k) 0 (values registered))
    × ((answer.0 ≡ 200) ⊎ (answer.0 ≡ 503))
    × (answer.1.checks ≡ statuses_from (λ k. k) 0 (values registered))
health_http_handler_iff_example = health_http_handler_iff (λ k. k) (pos 9) registered
