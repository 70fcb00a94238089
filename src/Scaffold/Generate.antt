-- ===== src/Scaffold/Generate.antt =====
-- cmd/fibr/generate.go: `Generate`. The output of the commands is left out; the lines that `Generate`
-- itself prints are kept as notices.
pub mod Clean
pub mod Distinct
pub mod Complete
use fibr.Prelude.{
  ℕ, Bool, true, false, not, ◌||◌, ◌&&◌, Option, none, some, List, [], ◌∷◌, ◌++◌, if◌then◌else◌,
}
use fibr.Prelude.Bytes.{Bytes, codes}
use fibr.Webhook.Hex.{hex_encode}
use fibr.Scaffold.{Options, with_auth, is_empty}
use fibr.Scaffold.Files.{FileSystem, Toolchain, Listing, absent, unreadable, entries}
use fibr.Scaffold.Plan.{
  Context, project, feature, ProjectData, ModuleData, FileSpec, plan, plan_auth, plan_queue,
  plan_realtime, plan_i18n, plan_module, derive_module_names,
}
use fibr.Scaffold.Render.{
  Fault, Clock, new_clock, next, resume, render_file, render_migration, render_auth_migration,
  render_team_migrations,
}

pub data Failure : Type 0 where
  dir_unreadable dir_not_empty no_random bad_module : Failure
  render_failed : FileSpec → Fault → Failure
  migration_failed team_migrations_failed auth_migration_failed : Fault → Failure

pub data Notice : Type 0 where
  get_failed : Bytes → Notice
  tidy_failed : Notice
  created : Bytes → Bytes → Bytes → Notice

-- `randHex` of what `rand.Read` gives
unfoldable pub rand_hex : Option Bytes → Option Bytes
rand_hex none = none
rand_hex (some b) = some (hex_encode b)

-- `d`, with the secret that an application with accounts gets.
unfoldable pub project_data : Options → Bytes → ProjectData
project_data o secret = record {
  name = o.name;
  mod_path = o.mod_path;
  db = o.db;
  layout = o.layout;
  sample = o.sample;
  auth = o.auth;
  team = o.auth && o.team;
  queue = o.queue;
  mailer = o.mailer;
  realtime = o.realtime;
  i18n = o.i18n;
  jwt_secret = secret;
  helpers_version = o.helpers_version;
  local_replace = o.local;
}

abbrev is_nil : List Bytes → Bool
is_nil [] = true
is_nil (x ∷ xs) = false

-- The directory may be missing or empty.
unfoldable pub dir_non_empty : Listing → Option Bool
dir_non_empty absent = some false
dir_non_empty unreadable = none
dir_non_empty (entries names) = some (not (is_nil names))

module _ (T : Toolchain Context) (F : FileSystem) where
  abbrev pub Step : Type 0
  Step = F.State → F.State × Option Failure

  abbrev pub blame : (Fault → Failure) → F.State × Option Fault → F.State × Option Failure
  blame why (s, none) = (s, none)
  blame why (s, some e) = (s, some (why e))

  -- On an error the directory is removed; an error of the removal is ignored.
  unfoldable pub or_remove : Bytes → F.State × Option Failure → F.State × Option Failure
  or_remove root (s, none) = (s, none)
  or_remove root (s, some e) = ((F.remove_all s root).0, some e)

  unfoldable pub render_all : List FileSpec → Context → Bytes → Step
  render_all [] ctx root s = (s, none)
  render_all (f ∷ fs) ctx root s =
      resume (or_remove root (blame (render_failed f) (render_file T F f ctx root s)))
        (λ s'. render_all fs ctx root s')

  abbrev pub in_module : Options → Option ModuleData → Option ModuleData
  in_module o none = none
  in_module o (some md) = some (record md { mod_path = o.mod_path; layout = o.layout })

  abbrev pub render_feature : Option ModuleData → Bytes → Bytes → Step
  render_feature none root ts s = or_remove root (s, some bad_module)
  render_feature (some md) root ts s =
      resume (render_all (plan_module md) (feature md) root s)
        (λ s'. or_remove root (blame migration_failed (render_migration T F md root ts s')))

  abbrev pub only_if : Bool → Step → Step
  only_if true step s = step s
  only_if false step s = (s, none)

  unfoldable pub render_sample : Options → Clock → Step
  render_sample o clock s =
      render_feature (in_module o (derive_module_names (codes "user"))) o.dir (next T clock).0 s

  unfoldable pub render_auth : Options → ProjectData → Clock → Step
  render_auth o d clock s = resume (render_all (plan_auth d) (project d) o.dir s) (λ s'.
      if o.team
      then or_remove o.dir
          (blame team_migrations_failed (render_team_migrations T F o.dir clock s'))
      else or_remove o.dir
          (blame auth_migration_failed (render_auth_migration T F o.dir (next T clock).0 s')))

  -- The clock as the sample leaves it.
  abbrev pub clock_after : Bool → Clock → Clock
  clock_after true clock = (next T clock).1
  clock_after false clock = clock

  -- All that is rendered.
  unfoldable pub render_project : Options → ProjectData → ℕ → Step
  render_project o d now s =
      let clock = new_clock now in
      resume (render_all (plan d) (project d) o.dir s) (λ s.
        resume (only_if o.sample (render_sample o clock) s) (λ s.
          resume (only_if o.auth (render_auth o d (clock_after o.sample clock)) s) (λ s.
            resume (only_if o.queue (render_all (plan_queue d) (project d) o.dir) s) (λ s.
              resume (only_if o.realtime (render_all (plan_realtime d) (project d) o.dir) s)
                (λ s. only_if o.i18n (render_all (plan_i18n d) (project d) o.dir) s)))))

  -- A command whose failure is only noted.
  abbrev pub try_run : Bytes → List Bytes → Notice → F.State × List Notice → F.State × List Notice
  try_run root args notice (s, out) =
      let (s', fine) = F.run s root args in (s', if fine then out else out ++ notice ∷ [])

  abbrev fetch : Options → F.State × List Notice → F.State × List Notice
  fetch o r =
      if is_empty o.local && not (is_empty o.helpers_version)
      then try_run o.dir
          (codes "go"
            ∷ codes "get"
            ∷ (codes "github.com/rahmadafandi/fibr@" ++ o.helpers_version)
            ∷ [])
          (get_failed o.helpers_version) r
      else r

  unfoldable pub run_commands : Options → F.State × List Notice → F.State × List Notice
  run_commands o r =
      let tidied =
        if o.no_tidy
        then r
        else try_run o.dir (codes "go" ∷ codes "mod" ∷ codes "tidy" ∷ []) tidy_failed (fetch o r) in
      let (s, out) = tidied in
      let s' = if o.no_git then s else (F.run s o.dir (codes "git" ∷ codes "init" ∷ [])).0 in
      (s', out ++ created o.dir o.layout o.db ∷ [])

  abbrev pub conclude :
      Options → F.State × Option Failure → (F.State × List Notice) × Option Failure
  conclude o (s, none) = (run_commands o (s, []), none)
  conclude o (s, some e) = ((s, []), some e)

  abbrev pub with_secret :
      Options → Option Bytes → ℕ → F.State → (F.State × List Notice) × Option Failure
  with_secret o none now s = ((s, []), some no_random)
  with_secret o (some secret) now s = conclude o (render_project o (project_data o secret) now s)

  abbrev pub in_dir :
      Options → Option Bool → Option Bytes → ℕ → F.State → (F.State × List Notice) × Option Failure
  in_dir o none random now s = ((s, []), some dir_unreadable)
  in_dir o (some true) random now s = ((s, []), some dir_not_empty)
  in_dir o (some false) random now s =
      with_secret o (if o.auth then rand_hex random else some []) now s

  -- `random` is what `rand.Read` gives for the secret, and `now` the time in seconds.
  unfoldable pub generate :
      Options → Option Bytes → ℕ → F.State → (F.State × List Notice) × Option Failure
  generate o random now s =
      let o' = with_auth o in in_dir o' (dir_non_empty (F.read_dir s o'.dir)) random now s
