-- ===== src/Health/Examples.antt =====
-- health/health.go, health/readiness.go: runs of the code.
use fibr.Prelude.{◌≡◌, refl, Bool, true, false, if◌then◌else◌, List, [], ◌∷◌, All, ◌↔◌}
use fibr.Health.{
  NamedCheck, passes, fails, check, arrives, readyz, run_checks, collect, pick, result,
  new_readiness_gate, close_gate, open_gate, ready,
}
use fibr.Health.Verdict.{Passes, run_checks_iff}

abbrev checks : List (NamedCheck Bool)
checks =
    check "db" (λ up. passes)
    ∷ check "redis" (λ up. if up then passes else fails "refused")
    ∷ check "mail" (λ up. passes)
    ∷ []

run_checks_iff_example :
    ((run_checks true checks (arrives 2 ∷ arrives 0 ∷ arrives 0 ∷ [])).0 ≡ true)
    ↔ All (Passes true) checks
run_checks_iff_example = run_checks_iff true checks (arrives 2 ∷ arrives 0 ∷ arrives 0 ∷ []) tt

-- A check that fails turns the reply, in whichever place it answers.
refused : (readyz (λ up. checks) false (arrives 0 ∷ arrives 1 ∷ arrives 0 ∷ [])).0 ≡ 503
unfolding readyz run_checks collect pick result
refused = refl

reopened : ready (open_gate (close_gate new_readiness_gate)) ≡ true
reopened = refl
