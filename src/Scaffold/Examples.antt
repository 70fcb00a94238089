-- ===== src/Scaffold/Examples.antt =====
-- cmd/fibr: runs of the code.
use fibr.Prelude.{◌≡◌, refl, true, false, some, none, List, [], ◌∷◌, ◌++◌, ◌⊎◌, inl, inr, ℕ}
use fibr.Prelude.Bytes.{Bytes, codes, bytes_cmp, trim_space, trim_left, trim_right, split}
use fibr.Prelude.Assoc.{lookup, insert, delete}
use fibr.Webhook.Hex.{hex_encode}
use fibr.Scaffold.{Options, validate, name_not_simple}
use fibr.Scaffold.Files.{Toolchain}
use fibr.Scaffold.Memory.{Disk, memory, memory-IsLawful, below, under, clear}
use fibr.Scaffold.Files.{is_clean}
use fibr.Scaffold.Plan.{
  Context, project, spec, module_file, plan, plan_auth, plan_queue, plan_realtime, plan_i18n,
  plan_module, derive_module_names,
}
use fibr.Scaffold.Render.{
  ok, not_written, render_text, render_file, render_new, render_migration, render_team_migrations,
  render_auth_migration, render_dated, next,
}
use fibr.Scaffold.Generate.{
  Failure, generate, dir_non_empty, rand_hex, project_data, render_project, render_all, or_remove,
  render_sample, render_auth,
}
use fibr.Scaffold.Generate.Distinct.{planned}
use fibr.Scaffold.Generate.Clean.{Removed, generate-Clean}
use fibr.Scaffold.Generate.Complete.{render_project-Complete}
use fibr.Scaffold.AddModule
use fibr.Scaffold.AddModule.{
  AddModuleOptions, add_module, resolve_module, read_go_module, detect_layout, module_directive,
  first_existing, write_files, undo,
}
use fibr.Scaffold.AddModule.Undo.{leftover, add_module-Undone, add_module_keeps}

abbrev flags : Options
flags = record {
  name = [];
  mod_path = codes "example.com/shop";
  db = codes "sqlite";
  layout = codes "ddd";
  sample = true;
  auth = false;
  team = true;
  queue = false;
  mailer = false;
  realtime = false;
  i18n = false;
  dir = [];
  no_git = false;
  no_tidy = false;
  helpers_version = [];
  local = [];
}

abbrev typed : List Bytes
typed = codes " shop " ∷ [] ∷ codes "layered" ∷ codes "n" ∷ codes "Yes" ∷ []

abbrev shop : Options
shop = record flags {
  name = codes "shop";
  layout = codes "layered";
  auth = true;
  queue = true;
  dir = codes "shop";
}

-- A name with a separator is refused.
nested_name : (validate (record shop { name = codes "a/b" })).1 ≡ some name_not_simple
unfolding validate
nested_name = refl

-- Templates that hold their own names, and a disk with room for some writes.
abbrev tools : Toolchain Context
tools = record {
  Template = Bytes;
  embedded = λ path. some path;
  parse = λ name raw. some raw;
  execute = λ tmpl ctx. some tmpl;
  format = λ text. some text;
  lines = split 10;
  stamp = λ n. n ∷ [];
}

abbrev blank : ℕ → Disk
blank room = record { files = []; room = room }

abbrev team_shop : Options
team_shop = record shop { realtime = true; i18n = true; no_tidy = true; no_git = true }

-- The fourth file cannot be written.
generate-Clean_example :
    ((generate tools memory team_shop (some (1 ∷ 255 ∷ [])) 100 (blank 3)).0.0 ≡ blank 3)
    ⊎ Removed memory
        (codes "shop")
        (codes "go.mod")
        (generate tools memory team_shop (some (1 ∷ 255 ∷ [])) 100 (blank 3)).0.0
unfolding is_clean generate dir_non_empty rand_hex hex_encode project_data render_project render_all
    plan or_remove render_file render_text lookup insert delete under below clear
generate-Clean_example =
    generate-Clean tools memory memory-IsLawful team_shop (some (1 ∷ 255 ∷ [])) 100 (blank 3)
      (codes "go.mod") refl (Failure.render_failed (spec "common/env.tmpl" ".env") not_written) refl

render_project-Complete_example :
    (text : Bytes) × (render_text tools
        (spec "common/env.tmpl" ".env")
        (project (project_data team_shop []))
      ≡ ok text)
    × (lookup
          (below (codes "shop") (codes ".env"))
          (render_project tools memory team_shop (project_data team_shop []) 100 (blank 50)).0.files
        ≡ some text)
unfolding project_data render_project render_all plan plan_auth plan_queue plan_realtime plan_i18n
    plan_module derive_module_names or_remove render_file render_text lookup insert delete below
    planned next render_new render_migration render_team_migrations render_auth_migration
    render_dated render_sample render_auth
render_project-Complete_example =
    render_project-Complete tools memory memory-IsLawful team_shop [] 100 (blank 50)
      (spec "common/env.tmpl" ".env") (project (project_data team_shop [])) (inr refl) refl
      (inr (inr (inr (inl refl))))

abbrev project_disk : ℕ → Disk
project_disk room = record {
  files =
      (codes "./go.mod", codes "// shop" ++ 10 ∷ codes "module example.com/shop")
      ∷ (codes "./internal/model/user.go", codes "package model")
      ∷ [];
  room = room;
}

abbrev order_item : AddModuleOptions
order_item = record { name = codes "OrderItem"; dir = []; layout = [] }

-- The third file cannot be written, and the first two are removed again.
add_module-Undone_example :
    (lookup
        (codes "./internal/model/orderitem.go")
        (add_module tools memory order_item 100 (project_disk 2)).0.files
      ≡ lookup (codes "./internal/model/orderitem.go") (project_disk 2).files)
    ⊎ ((leftover tools memory memory-IsLawful
            (codes ".")
            100
            (resolve_module tools memory order_item (codes ".") (project_disk 2))
            (AddModule.render_failed
              (module_file "module/layered/service.tmpl" "internal/service/"
                (codes "orderitem")
                "_service.go")
              not_written)
          ≡ some (codes "./internal/model/orderitem.go"))
        × (lookup (codes "./internal/model/orderitem.go") (project_disk 2).files ≡ none))
unfolding add_module resolve_module read_go_module detect_layout module_directive
    derive_module_names plan_module first_existing write_files undo render_file render_text lookup
    insert delete under below trim_space trim_left trim_right split
add_module-Undone_example =
    add_module-Undone tools memory memory-IsLawful (λ t p text there. refl) order_item 100
      (project_disk 2)
      (AddModule.render_failed
        (module_file "module/layered/service.tmpl" "internal/service/" (codes "orderitem")
          "_service.go")
        not_written)
      (codes "./internal/model/orderitem.go") refl

add_module_keeps_example :
    lookup
      (codes "./internal/model/user.go")
      (add_module tools memory order_item 100 (project_disk 9)).0.files
    ≡ some (codes "package model")
unfolding lookup
add_module_keeps_example =
    add_module_keeps tools memory memory-IsLawful order_item 100 (project_disk 9)
      (codes "./internal/model/user.go") (codes "package model") refl
