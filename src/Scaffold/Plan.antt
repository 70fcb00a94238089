-- ===== src/Scaffold/Plan.antt =====
-- cmd/fibr/generate.go, cmd/fibr/module.go: which templates are rendered, and to which files.
use fibr.Prelude.{
  Bool, true, false, ◌&&◌, ◌||◌, Option, none, some, List, [], ◌∷◌, ◌++◌, ◌==◌, nat_cmp, leb,
  if◌then◌else◌, ◌-◌, ℕ, String,
}
use fibr.Prelude.Bytes.{Bytes, codes, bytes_cmp, to_lower}

-- The render context of the project's templates.
pub record ProjectData : Type 0 where
  pub name : Bytes
  pub mod_path : Bytes
  pub db : Bytes
  pub layout : Bytes
  pub sample : Bool
  pub auth : Bool
  pub team : Bool
  pub queue : Bool
  pub mailer : Bool
  pub realtime : Bool
  pub i18n : Bool
  pub jwt_secret : Bytes
  pub helpers_version : Bytes
  pub local_replace : Bytes

-- The render context of a module's templates.
pub record ModuleData : Type 0 where
  pub mod_path : Bytes
  pub layout : Bytes
  pub type_name : Bytes
  pub pkg : Bytes
  pub plural : Bytes

pub data Context : Type 0 where
  project : ProjectData → Context
  feature : ModuleData → Context
  bare : Context

pub record FileSpec : Type 0 where
  pub template : Bytes
  pub dest : Bytes

abbrev pub spec : String → String → FileSpec
spec t d = record { template = codes t; dest = codes d }

abbrev pub by_layout : Bytes → List FileSpec → List FileSpec → List FileSpec
by_layout layout ddd layered =
    if layout == codes "ddd" then ddd else if layout == codes "layered" then layered else []

abbrev common : List FileSpec
common =
    spec "common/gomod.tmpl" "go.mod"
    ∷ spec "common/gitignore.tmpl" ".gitignore"
    ∷ spec "common/env.tmpl" ".env.example"
    ∷ spec "common/env.tmpl" ".env"
    ∷ spec "common/dockerfile.tmpl" "Dockerfile"
    ∷ spec "common/compose.tmpl" "docker-compose.yml"
    ∷ spec "common/makefile.tmpl" "Makefile"
    ∷ spec "common/readme.tmpl" "README.md"
    ∷ spec "common/migrations.tmpl" "internal/migrations/migrations.go"
    ∷ []

unfoldable pub plan : ProjectData → List FileSpec
plan d =
    common
    ++ by_layout d.layout
        (spec "ddd/main.tmpl" "cmd/api/main.go"
          ∷ spec "ddd/config.tmpl" "internal/infrastructure/config/config.go"
          ∷ spec "ddd/database.tmpl" "internal/infrastructure/database/database.go"
          ∷ spec "ddd/router.tmpl" "internal/interface/http/router.go"
          ∷ [])
        (spec "layered/main.tmpl" "cmd/api/main.go"
          ∷ spec "layered/config.tmpl" "internal/config/config.go"
          ∷ spec "layered/router.tmpl" "internal/router/router.go"
          ∷ [])

abbrev auth_ddd : Bool → List FileSpec
auth_ddd team =
    (spec "auth/ddd/account.tmpl" "internal/domain/account/account.go"
      ∷ spec "auth/ddd/repository.tmpl" "internal/domain/account/repository.go"
      ∷ spec "auth/ddd/service.tmpl" "internal/application/account/service.go"
      ∷ spec "auth/ddd/persistence.tmpl"
          "internal/infrastructure/persistence/account_repository_bun.go"
      ∷ [])
    ++ (if team
        then spec "auth/ddd/team.tmpl" "internal/domain/team/team.go"
          ∷ spec "auth/ddd/team_repository.tmpl" "internal/domain/team/repository.go"
          ∷ spec "auth/ddd/team_persistence.tmpl"
              "internal/infrastructure/persistence/team_repository_bun.go"
          ∷ spec "auth/ddd/team_service.tmpl" "internal/application/team/service.go"
          ∷ spec "auth/ddd/handler_team.tmpl" "internal/interface/http/auth_handler.go"
          ∷ spec "auth/ddd/module_team.tmpl" "internal/interface/http/auth_module.go"
          ∷ []
        else spec "auth/ddd/handler.tmpl" "internal/interface/http/auth_handler.go"
          ∷ spec "auth/ddd/module.tmpl" "internal/interface/http/auth_module.go"
          ∷ [])

abbrev auth_layered : Bool → List FileSpec
auth_layered team =
    (spec "auth/layered/model.tmpl" "internal/model/account.go"
      ∷ spec "auth/layered/repository.tmpl" "internal/repository/account_repo.go"
      ∷ spec "auth/layered/service.tmpl" "internal/service/auth_service.go"
      ∷ [])
    ++ (if team
        then spec "auth/layered/team_model.tmpl" "internal/model/team.go"
          ∷ spec "auth/layered/team_repository.tmpl" "internal/repository/team_repo.go"
          ∷ spec "auth/layered/team_service.tmpl" "internal/service/team_service.go"
          ∷ spec "auth/layered/handler_team.tmpl" "internal/handler/auth_handler.go"
          ∷ spec "auth/layered/module_team.tmpl" "internal/handler/auth_module.go"
          ∷ []
        else spec "auth/layered/handler.tmpl" "internal/handler/auth_handler.go"
          ∷ spec "auth/layered/module.tmpl" "internal/handler/auth_module.go"
          ∷ [])

unfoldable pub plan_auth : ProjectData → List FileSpec
plan_auth d = by_layout d.layout (auth_ddd d.team) (auth_layered d.team)

unfoldable pub plan_queue : ProjectData → List FileSpec
plan_queue d =
    by_layout d.layout (spec "queue/jobs.tmpl" "internal/application/jobs/jobs.go" ∷ [])
      (spec "queue/jobs.tmpl" "internal/jobs/jobs.go" ∷ [])

unfoldable pub plan_realtime : ProjectData → List FileSpec
plan_realtime d =
    if d.layout == codes "layered"
    then spec "realtime/layered/handler.tmpl" "internal/handler/realtime_handler.go" ∷ []
    else spec "realtime/ddd/handler.tmpl" "internal/interface/http/realtime_handler.go" ∷ []

unfoldable pub plan_i18n : ProjectData → List FileSpec
plan_i18n d =
    (spec "i18n/locales.tmpl" "internal/locales/locales.go"
      ∷ spec "i18n/en.tmpl" "internal/locales/en.json"
      ∷ spec "i18n/id.tmpl" "internal/locales/id.json"
      ∷ [])
    ++ (if d.layout == codes "layered"
        then spec "i18n/layered/handler.tmpl" "internal/handler/i18n_handler.go" ∷ []
        else spec "i18n/ddd/handler.tmpl" "internal/interface/http/i18n_handler.go" ∷ [])

abbrev is_letter : ℕ → Bool
is_letter c = leb 65 c && leb c 90 || (leb 97 c && leb c 122)

abbrev is_word : Bytes → Bool
is_word [] = true
is_word (c ∷ s) = (is_letter c || (leb 48 c && leb c 57) || c == 95) && is_word s

-- `moduleNameRe`
abbrev pub is_module_name : Bytes → Bool
is_module_name [] = false
is_module_name (c ∷ s) = is_letter c && is_word s

-- `strings.ToUpper` of an ASCII letter or digit
abbrev upper : ℕ → ℕ
upper c = if leb 97 c && leb c 122 then c - 32 else c

abbrev pub capitalize : Bytes → Bytes
capitalize [] = []
capitalize (c ∷ s) = upper c ∷ s

unfoldable pub derive_module_names : Bytes → Option ModuleData
derive_module_names name =
    if is_module_name name
    then some (record {
      mod_path = [];
      layout = [];
      type_name = capitalize name;
      pkg = to_lower name;
      plural = to_lower name ++ codes "s";
    })
    else none

-- A file that a module has: the directory, the package's name and what follows it.
abbrev pub module_file : String → String → Bytes → String → FileSpec
module_file t before pkg behind = record {
  template = codes t;
  dest = codes before ++ (pkg ++ codes behind);
}

unfoldable pub plan_module : ModuleData → List FileSpec
plan_module md =
    let pkg = md.pkg in
    by_layout md.layout
      (record {
        template = codes "module/ddd/domain.tmpl";
        dest = codes "internal/domain/" ++ (pkg ++ (codes "/" ++ (pkg ++ codes ".go")));
      }
        ∷ module_file "module/ddd/repository_iface.tmpl" "internal/domain/" pkg "/repository.go"
        ∷ module_file "module/ddd/service.tmpl" "internal/application/" pkg "/service.go"
        ∷ module_file "module/ddd/persistence.tmpl" "internal/infrastructure/persistence/" pkg
            "_repository_bun.go"
        ∷ module_file "module/ddd/handler.tmpl" "internal/interface/http/" pkg "_handler.go"
        ∷ module_file "module/ddd/module.tmpl" "internal/interface/http/" pkg "_module.go"
        ∷ [])
      (module_file "module/layered/model.tmpl" "internal/model/" pkg ".go"
        ∷ module_file "module/layered/repository.tmpl" "internal/repository/" pkg "_repo.go"
        ∷ module_file "module/layered/service.tmpl" "internal/service/" pkg "_service.go"
        ∷ module_file "module/layered/handler.tmpl" "internal/handler/" pkg "_handler.go"
        ∷ module_file "module/layered/module.tmpl" "internal/handler/" pkg "_module.go"
        ∷ [])
