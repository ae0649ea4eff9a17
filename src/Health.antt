-- ===== src/Health.antt =====
-- Health checks (internal/infrastructure/health/health.go): the registered checks and what the
-- `/health` and `/ready` handlers answer. The function of a check is a parameter of it: what it answers
-- at the time of the call, nil or an error. Log lines and the encoding of the answer are left out.
pub mod Verdict
mod Tests
use high_performance_event_s.Common.{
  ℕ, suc, String, List, [], ◌∷◌, ◌++◌, Option, none, some, if◌then◌else◌, is_blank, str_eq,
}
use high_performance_event_s.Common.Int.{ℤ}
use high_performance_event_s.Common.Dict.{Dict, lookup, insert}
use high_performance_event_s.Common.Outcome.{Outcome, ok, err}

-- The built-in checks: `GenericCheck`, `KafkaHealthCheck` and `GRPCHealthCheck` with their functions
-- (nil is `none`), and `SimpleHealthCheck`. `World` is what a function reads.
pub data Check (World : Type 0) : Type 0 where
  generic_check : String → (World → Option String) → Check World
  kafka_health_check : Option (World → Option String) → Check World
  grpc_health_check : Option (World → Option String) → Check World
  simple_health_check : String → Check World

-- `CheckStatus`
pub record CheckStatus : Type 0 where
  pub name : String
  pub status : String
  pub error_text : String

-- `HealthStatus`
pub record HealthStatus : Type 0 where
  pub status : String
  pub checks : List CheckStatus
  pub timestamp : ℤ

pub data HealthError : Type 0 where
  nil_check : HealthError
  empty_name : HealthError
  already_registered : String → HealthError
  check_not_found : String → HealthError

abbrev pub healthy_status : String
healthy_status = "healthy"

abbrev pub unhealthy_status : String
unhealthy_status = "unhealthy"

-- The status of one check under a name, from what the check answers
unfoldable pub status_of : String → Option String → CheckStatus
status_of n none = record { name = n; status = healthy_status; error_text = "" }
status_of n (some e) = record { name = n; status = unhealthy_status; error_text = e }

module _ {World : Type 0} where
  -- `Name`, of each check
  unfoldable pub name : Check World → String
  name (generic_check n f) = n
  name (kafka_health_check f) = "kafka"
  name (grpc_health_check f) = "grpc"
  name (simple_health_check n) = n

  -- The test of a check with a function that may be nil
  unfoldable pub ping : Option (World → Option String) → World → Option String
  ping none w = some "ping function not set"
  ping (some f) w = f w

  -- `Check`, of each check
  unfoldable pub check : Check World → World → Option String
  unfolding ping
  check (generic_check n f) w = f w
  check (kafka_health_check f) w = ping f w
  check (grpc_health_check f) w = ping f w
  check (simple_health_check n) w = none

  -- `RegisterCheck`
  unfoldable pub register_check :
      Option (Check World)
      → Dict (Check World)
      → Outcome HealthError (Unit {0}) × Dict (Check World)
  unfolding name
  register_check none checks = (err nil_check, checks)
  register_check (some c) checks =
      if is_blank (name c) then (err empty_name, checks) else (elim (lookup (name c) checks) [
        | some old ↦ (err (already_registered (name c)), checks)
        | none ↦ (ok tt, insert (name c) c checks)
      ])

  -- The loop of `CheckAll` over the checks, with the overall status so far; `at k` is what the k-th
  -- function to be called reads.
  unfoldable pub run_checks :
      (ℕ → World) → ℕ → String → List CheckStatus → List (Check World) → String × List CheckStatus
  unfolding check name status_of
  run_checks at_call k overall done [] = (overall, done)
  run_checks at_call k overall done (c ∷ cs) =
      let answer = check c (at_call k) in
      run_checks at_call (suc k) (elim answer [ some e ↦ unhealthy_status | none ↦ overall ])
        (done ++ status_of (name c) answer ∷ []) cs

  -- The values of the map, in an order that its iteration can take
  abbrev pub values : Dict (Check World) → List (Check World)
  values [] = []
  values ((n, c) ∷ m) = c ∷ values m

  -- `CheckAll`
  unfoldable pub check_all : (ℕ → World) → ℤ → Dict (Check World) → HealthStatus
  unfolding run_checks
  check_all at_call now checks =
      let (overall, statuses) = run_checks at_call 0 healthy_status [] (values checks) in
      record { status = overall; checks = statuses; timestamp = now }

  -- `GetCheckStatus`
  unfoldable pub get_check_status :
      World → String → Dict (Check World) → Outcome HealthError CheckStatus
  unfolding check status_of
  get_check_status w n checks = elim (lookup n checks) [
    | none ↦ err (check_not_found n)
    | some c ↦ ok (status_of n (check c w))
  ]

  -- `HealthHTTPHandler`: the code of the answer, and what it encodes
  unfoldable pub health_http_handler : (ℕ → World) → ℤ → Dict (Check World) → ℕ × HealthStatus
  health_http_handler at_call now checks =
      let health = check_all at_call now checks in
      (if str_eq health.status healthy_status then 200 else 503, health)

  -- `ReadyHTTPHandler`
  unfoldable pub ready_http_handler : (ℕ → World) → ℤ → Dict (Check World) → ℕ × HealthStatus
  ready_http_handler at_call now checks =
      let health = check_all at_call now checks in
      (if str_eq health.status healthy_status then 200 else 503, health)
