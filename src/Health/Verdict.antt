-- ===== src/Health/Verdict.antt =====
-- What the handlers answer, against the checks that were registered.
use mathlib.Core.List.{append_assoc, append-nil}
use high_performance_event_s.Common.{
  ℕ, suc, ◌≡◌, refl, sym, ap, ◌∙◌, ◌⊎◌, inl, ◌↔◌, String, List, [], ◌∷◌, ◌++◌, Option, none, some,
  arith, is_blank, eq_iff, false,
}
use high_performance_event_s.Common.Int.{ℤ}
use high_performance_event_s.Common.Dict.{Dict, lookup, IsMap, insert-IsMap, lookup-insert}
use high_performance_event_s.Health.{
  Check, CheckStatus, healthy_status, unhealthy_status, name, check, register_check, status_of,
  run_checks, values, check_all, health_http_handler,
}

-- What is listed of a check: healthy without an error, or unhealthy with the error of the check.
abbrev pub listed : String → Option String → CheckStatus
listed n none = record { name = n; status = "healthy"; error_text = "" }
listed n (some e) = record { name = n; status = "unhealthy"; error_text = e }

status_of-listed : (n : String) (answer : Option String) → status_of n answer ≡ listed n answer
unfolding status_of
status_of-listed n none = refl
status_of-listed n (some e) = refl

module _ {World : Type 0} (at_call : ℕ → World) where
  -- The statuses of checks whose functions are called from the k-th call on.
  abbrev pub statuses_from : ℕ → List (Check World) → List CheckStatus
  statuses_from k [] = []
  statuses_from k (c ∷ cs) = listed (name c) (check c (at_call k)) ∷ statuses_from (suc k) cs

  -- Every check passes, each at its call.
  abbrev pub AllPass : ℕ → List (Check World) → Type 0
  AllPass k [] = Unit
  AllPass k (c ∷ cs) = (check c (at_call k) ≡ none) × AllPass (suc k) cs

  run_checks-statuses :
      (k : ℕ) (overall : String) (done : List CheckStatus) (cs : List (Check World))
      → (run_checks at_call k overall done cs).1 ≡ done ++ statuses_from k cs
  unfolding run_checks
  run_checks-statuses k overall done [] = sym (append-nil done)
  run_checks-statuses k overall done (c ∷ cs) =
      let answer = check c (at_call k) in
      run_checks-statuses (suc k) (elim answer [ some e ↦ unhealthy_status | none ↦ overall ])
        (done ++ status_of (name c) answer ∷ []) cs
      ∙ append_assoc done (status_of (name c) answer ∷ []) (statuses_from (suc k) cs)
      ∙ ap (λ s. done ++ s ∷ statuses_from (suc k) cs) (status_of-listed (name c) answer)

  run_checks-unhealthy :
      (k : ℕ) (done : List CheckStatus) (cs : List (Check World))
      → (run_checks at_call k unhealthy_status done cs).0 ≡ unhealthy_status
  unfolding run_checks
  run_checks-unhealthy k done [] = refl
  run_checks-unhealthy k done (c ∷ cs) = ground (
    arith,
    run_checks-unhealthy (suc k) (done ++ status_of (name c) (check c (at_call k)) ∷ []) cs,
  )

  run_checks-healthy :
      (k : ℕ) (done : List CheckStatus) (cs : List (Check World))
      → AllPass k cs
      → (run_checks at_call k healthy_status done cs).0 ≡ healthy_status
  unfolding run_checks
  run_checks-healthy k done [] h = refl
  run_checks-healthy k done (c ∷ cs) h = ground (
    arith,
    h.0,
    run_checks-healthy (suc k) (done ++ status_of (name c) (check c (at_call k)) ∷ []) cs h.1,
  )

  one_of :
      (k : ℕ) (done : List CheckStatus) (cs : List (Check World))
      → let overall = (run_checks at_call k healthy_status done cs).0 in
        (overall ≡ healthy_status) ⊎ (overall ≡ unhealthy_status)
  unfolding run_checks
  one_of k done [] = inl refl
  one_of k done (c ∷ cs) =
      let next = done ++ status_of (name c) (check c (at_call k)) ∷ [] in
      ground (arith, one_of (suc k) next cs, run_checks-unhealthy (suc k) next cs)

  -- A loop that is still healthy at its end has met no failure.
  healthy-AllPass :
      (k : ℕ) (done : List CheckStatus) (cs : List (Check World))
      → (run_checks at_call k healthy_status done cs).0 ≡ healthy_status
      → AllPass k cs
  unfolding run_checks
  healthy-AllPass k done [] h = tt
  healthy-AllPass k done (c ∷ cs) h =
      let next = done ++ status_of (name c) (check c (at_call k)) ∷ [] in
      let distinct = eq_iff unhealthy_status healthy_status in
      let passes : check c (at_call k) ≡ none =
        ground (arith, h, run_checks-unhealthy (suc k) next cs, distinct) in
      (passes, healthy-AllPass (suc k) next cs (ground (arith, h, passes)))

  -- The overall status is one of the two constants.
  pub check_all-status :
      (now : ℤ) (checks : Dict (Check World))
      → ((check_all at_call now checks).status ≡ healthy_status)
        ⊎ ((check_all at_call now checks).status ≡ unhealthy_status)
  unfolding check_all
  check_all-status now checks = one_of 0 [] (values checks)

  -- The `/health` handler answers 200 exactly where every registered check passes, each at its call, and
  -- 503 otherwise; and it lists every registered check once, with the outcome of that call.
  pub health_http_handler_iff :
      (now : ℤ) (checks : Dict (Check World))
      → let answer = health_http_handler at_call now checks in
        ((answer.0 ≡ 200) ↔ AllPass 0 (values checks))
        × ((answer.0 ≡ 200) ⊎ (answer.0 ≡ 503))
        × (answer.1.checks ≡ statuses_from 0 (values checks))
  unfolding health_http_handler check_all
  health_http_handler_iff now checks =
      let cs = values checks in
      let text = eq_iff (run_checks at_call 0 healthy_status [] cs).0 healthy_status in
      (
        (
          λ h. healthy-AllPass 0 [] cs (ground (arith, h, text)),
          λ h. ground (arith, run_checks-healthy 0 [] cs h, text),
        ),
        ground arith,
        run_checks-statuses 0 healthy_status [] cs,
      )

-- Registered checks stand under their names, one each, and no name is empty.
pub record Registered {World : Type 0} (checks : Dict (Check World)) : Type 0 where
  pub distinct : IsMap checks
  pub named :
      (n : String) (c : Check World)
      → lookup n checks ≡ some c
      → (name c ≡ n) × (is_blank n ≡ false)

module _ {World : Type 0} where
  -- A registration keeps every check under its own name, which is not empty; it succeeds exactly where the
  -- check is not nil and its name is neither empty nor taken, and then the check is found under it.
  pub register_check-Registered :
      (c : Option (Check World)) (checks : Dict (Check World))
      → Registered checks
      → Registered (register_check c checks).1
  unfolding register_check
  register_check-Registered none checks r = r
  register_check-Registered (some c) checks r = record {
    distinct = ground (arith, r.distinct, insert-IsMap (name c) c checks);
    named = λ n d h.
        ground (arith, h, r.named n d, lookup-insert (name c) n c checks, eq_iff (name c) n);
  }
