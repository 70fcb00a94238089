-- ===== src/Boot/Examples.antt =====
-- bootstrap/bootstrap.go, bootstrap/module.go, server/server.go, with health/health.go: runs.
use fibr.Prelude.{
  arith, ℕ, ◌+◌, ◌≡◌, refl, inl, true, false, none, some, List, [], ◌∷◌, ◌++◌, All, if◌then◌else◌,
  ◌==◌, nat_cmp,
}
use fibr.Prelude.Int.{pos}
use fibr.Health.{
  NamedCheck, ReadinessGate, passes, fails, new_readiness_gate, close_gate, gate_check, check,
  readyz, arrives, run_checks, collect, pick, result,
}
use fibr.Health.Verdict.{Passes}
use fibr.Boot.{
  Options, App, Module, checks_of, new, mount, run, ready_reply, snapshot_checks, module_route,
}
use fibr.Boot.Serve.{
  Hook, Config, run as serve, run_hooks, run_graceful, shutdown, listen_error, readyz_draining,
}
use fibr.Boot.Mount.{gathered, ready_reply-mount}

-- The tables of the modules, the gate, and what has been closed.
pub record World : Type 0 where
  pub tables : ℕ
  pub gate : ReadinessGate
  pub closed : List ℕ

abbrev world : World
world = record { tables = 0; gate = new_readiness_gate; closed = [] }

abbrev closes : ℕ → Hook World
closes n w = (record w { closed = n ∷ w.closed }, if n == 2 then some 7 else none)

abbrev shuts_gate : Hook World
shuts_gate w = (record w { gate = close_gate w.gate }, none)

abbrev waits : ℕ → World → World
waits delay w = w

abbrev waits_hook : Hook World
waits_hook w = (w, none)

abbrev options : Options World
options = record {
  request_timeout = 0;
  shutdown_timeout = 0;
  db_close = some (closes 1);
  enable_cors = true;
  rate_limit = pos 10;
  security_headers = true;
  compression = false;
  idempotent = false;
  auto_migrate = true;
  metrics = true;
  tracing = false;
  cleanup = closes 2 ∷ closes 3 ∷ [];
  asynqmon = some "";
  health_checks = [];
  openapi = true;
  spec_url = "";
  docs_url = "";
  i18n = false;
}

abbrev users : Module World
users = record {
  name = "users";
  migrate = some (λ w. (record w { tables = w.tables + 1 }, none));
  register = λ r. (r ++ module_route "users" ∷ [], none);
  health_checker =
      some (check "users" (λ w. if w.tables == 1 then passes else fails "no table") ∷ []);
}

abbrev with_users : App World
with_users = record (new options) {
  router = (new options).router ++ module_route "users" ∷ [];
  checks = checks_of users.health_checker;
}

abbrev migrated : World
migrated = record world { tables = 1 }

ready_reply-mount_example : All (Passes migrated) (gathered (users ∷ []))
unfolding mount new ready_reply readyz run_checks collect pick result snapshot_checks
ready_reply-mount_example =
    ready_reply-mount (users ∷ []) (new options) with_users world migrated migrated (arrives 0 ∷ [])
      refl refl

abbrev ends : Config World
ends = record {
  timeout = 100;
  drain_delay = 5;
  pre_shutdown = closes 9 ∷ shuts_gate ∷ closes 8 ∷ [];
  cleanup = closes 2 ∷ [];
}

abbrev gated : World → List (NamedCheck World)
gated w = gate_check (λ v. v.gate) ∷ []

readyz_draining_example :
    (draining : World) × ((readyz gated draining (arrives 0 ∷ [])).0 ≡ 503)
    × ((serve waits (closes 5) shutdown ends world).0
        ≡ (run_hooks (closes 5 ∷ ends.cleanup) (waits ends.drain_delay draining)).0)
readyz_draining_example =
    readyz_draining (λ w. w.gate) gated waits (closes 5) (closes 9 ∷ []) (closes 8 ∷ []) shuts_gate
      ends world (arrives 0 ∷ []) (omega arith) refl (λ v. refl) ((λ v h. h), tt) (inl refl)

-- The cleanup runs to its end, though its second hook fails.
cleaned :
    run (new options) waits (closes 5) shutdown world
    ≡ (record world { closed = 3 ∷ 2 ∷ 1 ∷ 5 ∷ [] }, 7 ∷ [])
unfolding run new run_graceful serve run_hooks
cleaned = refl

-- When the server cannot listen, nothing is cleaned up.
uncleaned : run (new options) waits (closes 5) (listen_error 4) world ≡ (world, 4 ∷ [])
unfolding run new run_graceful serve
uncleaned = refl
