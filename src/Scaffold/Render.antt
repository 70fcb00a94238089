-- ===== src/Scaffold/Render.antt =====
-- cmd/fibr/generate.go: one file of a project, one list of files, and the dated migrations.
pub mod Effects
use fibr.Prelude.{
  ℕ, ◌+◌, Bool, true, false, Option, none, some, List, [], ◌∷◌, ◌++◌, reverse, String,
  if◌then◌else◌, ◌==◌,
}
use fibr.Prelude.Bytes.{Bytes, codes, bytes_cmp, starts_with}
use fibr.Scaffold.Files.{FileSystem, Toolchain}
use fibr.Scaffold.Plan.{Context, bare, feature, FileSpec, ModuleData}

pub data Fault : Type 0 where
  no_template bad_template not_executed not_go no_directory not_written migration_exists : Fault

pub data Result (A : Type 0) : Type 0 where
  ok : A → Result A
  err : Fault → Result A

infixl 5 ◌>>=◌
abbrev pub ◌>>=◌ : {A B : Type 0} → Result A → (A → Result B) → Result B
ok a >>= f = f a
err e >>= f = err e

abbrev pub need : {A : Type 0} → Fault → Option A → Result A
need e none = err e
need e (some a) = ok a

-- `strings.HasSuffix(fsp.dest, ".go")`
abbrev pub is_go : Bytes → Bool
is_go dest = starts_with (codes "og.") (reverse dest)

-- `migrationClock`, with the seconds of its base.
pub record Clock : Type 0 where
  pub base : ℕ
  pub n : ℕ

abbrev pub new_clock : ℕ → Clock
new_clock now = record { base = now; n = 0 }

abbrev pub migration_file : Bytes → Bytes → Bytes → FileSpec
migration_file template ts name = record {
  template = template;
  dest = codes "internal/migrations/" ++ (ts ++ (codes "_" ++ (name ++ codes ".go")));
}

abbrev pub module_migration : Bytes → ModuleData → FileSpec
module_migration ts md =
    migration_file (codes "migration/create_table.tmpl") ts (codes "create_" ++ md.plural)

-- The template and the name of each migration of the team's tables.
abbrev pub team_steps : List (Bytes × Bytes)
team_steps =
    (codes "auth/migration_accounts.tmpl", codes "create_accounts")
    ∷ (codes "auth/migration_teams.tmpl", codes "create_teams")
    ∷ (codes "auth/migration_memberships.tmpl", codes "create_memberships")
    ∷ (codes "auth/migration_roles.tmpl", codes "create_roles")
    ∷ (codes "auth/migration_role_permissions.tmpl", codes "create_role_permissions")
    ∷ (codes "auth/migration_invitations.tmpl", codes "create_invitations")
    ∷ []

-- Go on if there was no error.
abbrev pub resume : {S E : Type 0} → S × Option E → (S → S × Option E) → S × Option E
resume (s, none) k = k s
resume (s, some e) k = (s, some e)

module _ (F : FileSystem) where
  abbrev pub wrote : F.State × Bool → F.State × Option Fault
  wrote (s, true) = (s, none)
  wrote (s, false) = (s, some not_written)

  abbrev pub write_in : Bytes → Bytes → F.State × Bool → F.State × Option Fault
  write_in path text (s, true) = wrote (F.write_file s path text)
  write_in path text (s, false) = (s, some no_directory)

  abbrev pub put_file : Bytes → Result Bytes → F.State → F.State × Option Fault
  put_file path (err e) s = (s, some e)
  put_file path (ok text) s = write_in path text (F.mkdir_all s (F.parent path))

module _ (T : Toolchain Context) where
  unfoldable pub render_text : FileSpec → Context → Result Bytes
  render_text f ctx = do
    raw ← need no_template (T.embedded (codes "templates/" ++ f.template))
    tmpl ← need bad_template (T.parse f.template raw)
    text ← need not_executed (T.execute tmpl ctx)
    if is_go f.dest then need not_go (T.format text) else ok text

  unfoldable pub next : Clock → Bytes × Clock
  next c = (T.stamp (c.base + c.n), record c { n = c.n + 1 })

  module _ (F : FileSystem) where
    unfoldable pub render_file : FileSpec → Context → Bytes → F.State → F.State × Option Fault
    render_file f ctx root s = put_file F (F.join root f.dest) (render_text f ctx) s

    -- A migration is not written over one that is there.
    unfoldable pub render_new : FileSpec → Context → Bytes → F.State → F.State × Option Fault
    render_new f ctx root s =
        if F.stat s (F.join root f.dest)
        then (s, some migration_exists)
        else render_file f ctx root s

    unfoldable pub render_migration : ModuleData → Bytes → Bytes → F.State → F.State × Option Fault
    render_migration md root ts s = render_new (module_migration ts md) (feature md) root s

    unfoldable pub render_auth_migration : Bytes → Bytes → F.State → F.State × Option Fault
    render_auth_migration root ts s =
        render_new
          (migration_file (codes "auth/migration_accounts.tmpl") ts (codes "create_accounts")) bare
          root s

    unfoldable pub render_dated :
        List (Bytes × Bytes) → Bytes → Clock → F.State → F.State × Option Fault
    render_dated [] root clock s = (s, none)
    render_dated ((template, name) ∷ steps) root clock s =
        let (ts, clock') = next clock in
        resume (render_new (migration_file template ts name) bare root s)
          (λ s'. render_dated steps root clock' s')

    unfoldable pub render_team_migrations : Bytes → Clock → F.State → F.State × Option Fault
    render_team_migrations root clock s = render_dated team_steps root clock s
