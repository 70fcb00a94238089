-- ===== src/Boot.antt =====
-- bootstrap/bootstrap.go, bootstrap/module.go, server/server.go: the application, its modules and its
-- end. The world that hooks and migrations change is a parameter.
pub mod Serve
pub mod Layers
pub mod Mount
mod Examples
use fibr.Prelude.{
  ℕ, ◌≡◌, String, Bool, true, false, Option, none, some, List, [], ◌∷◌, ◌++◌, if◌then◌else◌, ◌==◌,
  string_cmp, nat_cmp,
}
use fibr.Prelude.Int.{ℤ, pos, negsuc, ltb_ℤ, pos_part}
use fibr.Health.{NamedCheck, Signal, Details, readyz}
use fibr.Boot.Serve.{Hook, Wake, run_graceful}

-- What `Use` and `Get` put on the router, in its order.
pub data Layer : Type 0 where
  recovers request_logger i18n_locale helmet compress idempotency otel metrics_counter : Layer
  context_timeout : ℕ → Layer
  livez_route readyz_route metrics_route : Layer
  monitoring : String → Layer
  cors : Layer
  limiter : ℕ → Layer
  spec_route docs_route : String → Layer
  module_route : String → Layer

-- Of the options those that decide what is mounted; `asynqmon` is the path where a handler is given.
pub record Options (W : Type 0) : Type 0 where
  pub request_timeout : ℕ
  pub shutdown_timeout : ℕ
  pub db_close : Option (Hook W)
  pub enable_cors : Bool
  pub rate_limit : ℤ
  pub security_headers : Bool
  pub compression : Bool
  pub idempotent : Bool
  pub auto_migrate : Bool
  pub metrics : Bool
  pub tracing : Bool
  pub cleanup : List (Hook W)
  pub asynqmon : Option String
  pub health_checks : List (NamedCheck W)
  pub openapi : Bool
  pub spec_url : String
  pub docs_url : String
  pub i18n : Bool

pub record App (W : Type 0) : Type 0 where
  pub router : List Layer
  pub cleanup : List (Hook W)
  pub shutdown_timeout : ℕ
  pub checks : List (NamedCheck W)
  pub auto_migrate : Bool

-- `if cond { f.Use(layer) }`, one after the other.
abbrev pub mounted : List (Bool × Layer) → List Layer
mounted [] = []
mounted ((cond, layer) ∷ rest) = if cond then layer ∷ mounted rest else mounted rest

abbrev pub or_default : String → String → String
or_default s d = if s == "" then d else s

abbrev pub or_ten_seconds : ℕ → ℕ
or_ten_seconds d = if d == 0 then 10000000000 else d

abbrev pub monitoring_of : Option String → List Layer
monitoring_of none = []
monitoring_of (some path) = monitoring (or_default path "/monitoring") ∷ []

abbrev pub docs_of : Bool → String → String → List Layer
docs_of true spec docs =
    spec_route (or_default spec "/openapi.json") ∷ docs_route (or_default docs "/docs") ∷ []
docs_of false spec docs = []

module _ {W : Type 0} where
  abbrev pub close_of : Option (Hook W) → List (Hook W)
  close_of none = []
  close_of (some close) = close ∷ []

  abbrev pub before_layers : Options W → List (Bool × Layer)
  before_layers o =
      (true, context_timeout (or_ten_seconds o.request_timeout))
      ∷ (o.i18n, i18n_locale)
      ∷ (o.security_headers, helmet)
      ∷ (o.compression, compress)
      ∷ (o.idempotent, idempotency)
      ∷ (o.tracing, otel)
      ∷ (true, request_logger)
      ∷ (o.metrics, metrics_counter)
      ∷ []

  -- The layers before the probes, and after them.
  unfoldable pub before_probes : Options W → List Layer
  before_probes o = recovers ∷ mounted (before_layers o)

  unfoldable pub after_probes : Options W → List Layer
  after_probes o =
      mounted ((o.metrics, metrics_route) ∷ [])
      ++ monitoring_of o.asynqmon
      ++ mounted (
          (o.enable_cors, cors)
          ∷ (ltb_ℤ (pos 0) o.rate_limit, limiter (pos_part o.rate_limit))
          ∷ [])
      ++ docs_of o.openapi o.spec_url o.docs_url

  unfoldable pub new : Options W → App W
  unfolding before_probes after_probes
  new o = record {
    router = before_probes o ++ livez_route ∷ readyz_route ∷ after_probes o;
    cleanup = close_of o.db_close ++ o.cleanup;
    shutdown_timeout = or_ten_seconds o.shutdown_timeout;
    checks = o.health_checks;
    auto_migrate = o.auto_migrate;
  }

  -- The checks are read at each request.
  unfoldable pub snapshot_checks : App W → W → List (NamedCheck W)
  snapshot_checks app w = app.checks

  -- What the readiness route answers.
  unfoldable pub ready_reply : App W → W → List Signal → ℕ × Details
  unfolding snapshot_checks
  ready_reply app w signals = readyz (snapshot_checks app) w signals

  unfoldable pub run : App W → (ℕ → W → W) → Hook W → Wake → W → W × List ℕ
  run app wait stop wake w = run_graceful wait stop wake app.shutdown_timeout app.cleanup w

-- A module with its optional capabilities; `register` mounts its routes.
pub record Module (W : Type 0) : Type 0 where
  pub name : String
  pub migrate : Option (W → W × Option ℕ)
  pub register : List Layer → List Layer × Option ℕ
  pub health_checker : Option (List (NamedCheck W))

pub data Error : Type 0 where
  migrate_failed register_failed : String → ℕ → Error

module _ {W : Type 0} where
  abbrev pub run_migrate : Bool → Option (W → W × Option ℕ) → W → W × Option ℕ
  run_migrate true (some migrate) w = migrate w
  run_migrate true none w = (w, none)
  run_migrate false migrate w = (w, none)

  abbrev pub checks_of : Option (List (NamedCheck W)) → List (NamedCheck W)
  checks_of none = []
  checks_of (some checks) = checks

  unfoldable pub mount : List (Module W) → App W → W → W × App W × Option Error
  mount [] app w = (w, app, none)
  mount (m ∷ mods) app w =
      let (w', migrated) = run_migrate app.auto_migrate m.migrate w in
      let (router, registered) = m.register app.router in
      let app' = record app { router = router } in
      let rest =
        mount mods (record app' { checks = app.checks ++ checks_of m.health_checker }) w' in
      elim migrated [
        | some e ↦ (w', app, some (migrate_failed m.name e))
        | none ↦ elim registered [
          | some e ↦ (w', app', some (register_failed m.name e))
          | none ↦ rest
        ]
      ]
