-- ===== src/Scaffold/AddModule.antt =====
-- cmd/fibr/addmodule.go. Of what `AddModule` prints, the values are kept.
pub mod Tracks
pub mod Undo
use fibr.Prelude.{
  ℕ, Bool, true, false, not, ◌||◌, ◌&&◌, Option, none, some, List, [], ◌∷◌, ◌++◌, if◌then◌else◌,
  ◌==◌, length, drop,
}
use fibr.Prelude.Bytes.{Bytes, codes, bytes_cmp, trim_space, starts_with}
use fibr.Scaffold.{is_empty}
use fibr.Scaffold.Files.{FileSystem, Toolchain}
use fibr.Scaffold.Plan.{Context, feature, ModuleData, FileSpec, plan_module, derive_module_names}
use fibr.Scaffold.Render.{Fault, new_clock, next, render_file, render_migration}

pub record AddModuleOptions : Type 0 where
  pub name : Bytes
  pub dir : Bytes
  pub layout : Bytes

pub data Refusal : Type 0 where
  no_go_mod no_module_directive no_layout bad_layout bad_name : Refusal
  file_exists : FileSpec → Refusal
  render_failed : FileSpec → Fault → Refusal
  migration_failed : Fault → Refusal

-- The import line and the mount call to add.
pub record Hint : Type 0 where
  pub pkg : Bytes
  pub layout : Bytes
  pub import_line : Bytes
  pub mount_line : Bytes

pub data Answer (A : Type 0) : Type 0 where
  found : A → Answer A
  refused : Refusal → Answer A

infixl 5 ◌>>=◌
abbrev pub ◌>>=◌ : {A B : Type 0} → Answer A → (A → Answer B) → Answer B
found a >>= f = f a
refused e >>= f = refused e

abbrev pub need : {A : Type 0} → Refusal → Option A → Answer A
need e none = refused e
need e (some a) = found a

abbrev directive : Bytes
directive = codes "module "

unfoldable pub module_directive : List Bytes → Option Bytes
module_directive [] = none
module_directive (line ∷ lines) =
    let rest = module_directive lines in
    if starts_with directive (trim_space line)
    then some (trim_space (drop (length directive) (trim_space line)))
    else rest

unfoldable pub mount_hint : ModuleData → Bytes × Bytes
mount_hint md =
    if md.layout == codes "ddd"
    then (
      codes "\thttpiface \"" ++ (md.mod_path ++ codes "/internal/interface/http\""),
      codes "app.Mount(httpiface.New" ++ (md.type_name ++ codes "Module(db))"),
    )
    else if md.layout == codes "layered"
    then (
      codes "\t\"" ++ (md.mod_path ++ codes "/internal/handler\""),
      codes "app.Mount(handler.New" ++ (md.type_name ++ codes "Module(db))"),
    )
    else ([], [])

abbrev pub check_layout : Bytes → Answer Bytes
check_layout layout =
    if not (layout == codes "ddd") && not (layout == codes "layered")
    then refused bad_layout
    else found layout

abbrev pub hint_of : ModuleData → Hint
hint_of md = record {
  pkg = md.pkg;
  layout = md.layout;
  import_line = (mount_hint md).0;
  mount_line = (mount_hint md).1;
}

abbrev pub dir_of : AddModuleOptions → Bytes
dir_of o = if is_empty o.dir then codes "." else o.dir

module _ (F : FileSystem) where
  unfoldable pub detect_layout : F.State → Bytes → Answer Bytes
  detect_layout s dir =
      if F.is_dir s (F.join dir (codes "internal/domain"))
      then found (codes "ddd")
      else if F.is_dir s (F.join dir (codes "internal/model"))
      then found (codes "layered")
      else refused no_layout

  unfoldable pub first_existing : Bytes → List FileSpec → F.State → Option FileSpec
  first_existing dir [] s = none
  first_existing dir (f ∷ fs) s =
      let rest = first_existing dir fs s in if F.stat s (F.join dir f.dest) then some f else rest

  -- The errors of `os.Remove` are ignored.
  unfoldable pub undo : List Bytes → F.State → F.State
  undo [] s = s
  undo (p ∷ written) s = undo written (F.remove s p).0

  pub data Written : Type 0 where
    stopped : F.State → Refusal → Written
    wrote : F.State → List Bytes → Written

  abbrev pub go_on : FileSpec → List Bytes → F.State × Option Fault → (F.State → Written) → Written
  go_on f written (s, none) k = k s
  go_on f written (s, some e) k = stopped (undo written s) (render_failed f e)

module _ (T : Toolchain Context) (F : FileSystem) where
  unfoldable pub read_go_module : F.State → Bytes → Answer Bytes
  read_go_module s dir = do
    text ← need no_go_mod (F.look s (F.place (F.join dir (codes "go.mod"))))
    need no_module_directive (module_directive (T.lines text))

  -- What is known before anything is written.
  unfoldable pub resolve_module : AddModuleOptions → Bytes → F.State → Answer ModuleData
  resolve_module o dir s = do
    path ← read_go_module s dir
    given ← (if is_empty o.layout then detect_layout F s dir else found o.layout)
    layout ← check_layout given
    md ← need bad_name (derive_module_names o.name)
    found (record md { mod_path = path; layout = layout })

  unfoldable pub write_files : ModuleData → Bytes → List FileSpec → List Bytes → F.State → Written F
  write_files md dir [] written s = wrote s written
  write_files md dir (f ∷ fs) written s =
      go_on F f written (render_file T F f (feature md) dir s)
        (λ s'. write_files md dir fs (written ++ F.join dir f.dest ∷ []) s')

  abbrev pub migrated : ModuleData → List Bytes → F.State × Option Fault → F.State × Answer Hint
  migrated md written (s, none) = (s, found (hint_of md))
  migrated md written (s, some e) = (undo F written s, refused (migration_failed e))

  abbrev pub add_migration : ModuleData → Bytes → ℕ → Written F → F.State × Answer Hint
  add_migration md dir now (stopped s e) = (s, refused e)
  add_migration md dir now (wrote s written) =
      migrated md written (render_migration T F md dir (next T (new_clock now)).0 s)

  abbrev pub add_unless : ModuleData → Bytes → ℕ → F.State → Option FileSpec → F.State × Answer Hint
  add_unless md dir now s (some f) = (s, refused (file_exists f))
  add_unless md dir now s none = add_migration md dir now (write_files md dir (plan_module md) [] s)

  abbrev pub add_resolved : Bytes → ℕ → F.State → Answer ModuleData → F.State × Answer Hint
  add_resolved dir now s (refused e) = (s, refused e)
  add_resolved dir now s (found md) =
      add_unless md dir now s (first_existing F dir (plan_module md) s)

  unfoldable pub add_module : AddModuleOptions → ℕ → F.State → F.State × Answer Hint
  add_module o now s = add_resolved (dir_of o) now s (resolve_module o (dir_of o) s)
