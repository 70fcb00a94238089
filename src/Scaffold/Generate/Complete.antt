-- ===== src/Scaffold/Generate/Complete.antt =====
-- cmd/fibr/generate.go: what a run without an error leaves.
use fibr.Prelude.{
  ◌≡◌, refl, sym, ap, ◌∙◌, subst, Bool, true, false, Option, none, some, List, [], ◌∷◌, ◌++◌, ◌⊎◌,
  inl, inr, ◌==◌, Bool-cases, arith, ℕ, All, contains, In, In-All, append_nil,
}
use fibr.Prelude.Bytes.{Bytes, codes, bytes_cmp, All-append}
use fibr.Scaffold.{Options}
use fibr.Scaffold.Files.{is_clean, FileSystem, IsLawful, Toolchain}
use fibr.Scaffold.Plan.{
  Context, project, feature, ProjectData, ModuleData, FileSpec, plan, plan_auth, plan_queue,
  plan_realtime, plan_i18n, plan_module, derive_module_names,
}
use fibr.Scaffold.Render.{
  Fault, ok, Clock, resume, render_text, render_file, render_migration, render_auth_migration,
  render_team_migrations, next, new_clock,
}
use fibr.Scaffold.Render.Effects.{
  resume_ok, look-render_file, render_file_text, look-render_migration, look-render_auth_migration,
  look-render_team_migrations,
}
use fibr.Scaffold.Generate.{
  Failure, Step, or_remove, blame, render_all, render_feature, only_if, render_sample, render_auth,
  render_project, project_data, clock_after,
}
use fibr.Scaffold.Generate.Distinct.{
  Job, jobs, dests, distinct, distinct-All, chosen, planned, distinct-append, dests-append,
  distinct-planned,
}

module _ (T : Toolchain Context) (F : FileSystem) (L : IsLawful F) (root : Bytes) where
  or_remove_ok :
      (why : Fault → Failure) (r : F.State × Option Fault)
      → (or_remove T F root (blame T F why r)).1 ≡ none
      → (r.1 ≡ none) × ((or_remove T F root (blame T F why r)).0 ≡ r.0)
  unfolding or_remove
  or_remove_ok why (s, none) h = (refl, refl)
  or_remove_ok why (s, some e) h = absurd (ground arith)

  place_other :
      (d e : Bytes)
      → is_clean d ≡ true
      → is_clean e ≡ true
      → (d == e) ≡ false
      → (F.place (F.join root d) == F.place (F.join root e)) ≡ false
  place_other d e clean_d clean_e h = ground (
    arith,
    L.place_join root d e clean_d clean_e,
    bytes_cmp.eqb_iff d e,
    bytes_cmp.eqb_iff (F.place (F.join root d)) (F.place (F.join root e)),
  )

  -- The file of a job holds what its template renders.
  abbrev pub Holds : F.State → Job → Type 0
  Holds s (f, ctx) =
      (text : Bytes) × (render_text T f ctx ≡ ok text)
      × (F.look s (F.place (F.join root f.dest)) ≡ some text)

  -- Files of other names stay as they are.
  look-render_all :
      (fs : List FileSpec) (ctx : Context) (s : F.State) (d text : Bytes)
      → is_clean d ≡ true
      → distinct (dests (jobs ctx fs)) ≡ true
      → contains (dests (jobs ctx fs)) d ≡ false
      → (render_all T F fs ctx root s).1 ≡ none
      → F.look s (F.place (F.join root d)) ≡ some text
      → F.look (render_all T F fs ctx root s).0 (F.place (F.join root d)) ≡ some text
  unfolding render_all
  look-render_all [] ctx s d text clean all_clean apart done there = there
  look-render_all (f ∷ fs) ctx s d text clean all_clean apart done there =
      let (first, rest, same) = resume_ok _ (λ s'. render_all T F fs ctx root s') done in
      let (fine, moved) =
        or_remove_ok (Failure.render_failed f) (render_file T F f ctx root s) first in
      subst (λ r. F.look r.0 (F.place (F.join root d)) ≡ some text) (sym same)
        (look-render_all fs ctx _ d text clean (ground (arith, all_clean)) (ground arith) rest (
          rw moved (
            look-render_file T F L ctx root f s (F.place (F.join root d))
              (place_other f.dest d (ground (arith, all_clean)) clean (ground arith))
            ∙ there)))

  files_stay :
      (fs : List FileSpec) (ctx : Context) (s : F.State) (js : List Job)
      → distinct (dests (jobs ctx fs)) ≡ true
      → All (λ d. is_clean d ≡ true) (dests js)
      → All (λ d. contains (dests (jobs ctx fs)) d ≡ false) (dests js)
      → (render_all T F fs ctx root s).1 ≡ none
      → All (Holds s) js
      → All (Holds (render_all T F fs ctx root s).0) js
  files_stay fs ctx s [] own clean apart done h = tt
  files_stay fs ctx s ((f, c) ∷ js) own clean apart done h = (
    (h.0.0, h.0.1, look-render_all fs ctx s f.dest h.0.0 clean.0 own apart.0 done h.0.2),
    files_stay fs ctx s js own clean.1 apart.1 done h.1,
  )

  render_all_text :
      (fs : List FileSpec) (ctx : Context) (s : F.State)
      → distinct (dests (jobs ctx fs)) ≡ true
      → (render_all T F fs ctx root s).1 ≡ none
      → All (Holds (render_all T F fs ctx root s).0) (jobs ctx fs)
  unfolding render_all
  render_all_text [] ctx s apart done = tt
  render_all_text (f ∷ fs) ctx s apart done =
      let (first, rest, same) = resume_ok _ (λ s'. render_all T F fs ctx root s') done in
      let (fine, moved) =
        or_remove_ok (Failure.render_failed f) (render_file T F f ctx root s) first in
      let (text, rendered, there) = render_file_text T F L ctx root f s fine in
      subst (λ r. All (Holds r.0) (jobs ctx (f ∷ fs))) (sym same)
        (
          (
            text,
            rendered,
            look-render_all fs ctx _ f.dest text (ground (arith, apart)) (ground (arith, apart))
                (ground (arith, apart)) rest (rw moved there),
          ),
          render_all_text fs ctx _ (ground arith) rest,
        )

  -- What keeps every text keeps the files of the jobs.
  keep_texts :
      (s s' : F.State) (js : List Job)
      → ((q text : Bytes) → F.look s q ≡ some text → F.look s' q ≡ some text)
      → All (Holds s) js
      → All (Holds s') js
  keep_texts s s' [] keep h = tt
  keep_texts s s' ((f, c) ∷ js) keep h =
      ((h.0.0, h.0.1, keep _ h.0.0 h.0.2), keep_texts s s' js keep h.1)

  -- A step that ends without an error adds the files of `new` to those that are there.
  abbrev Adds : List Job → Step T F → Type 0
  Adds new step =
      (js : List Job) (s : F.State)
      → distinct (dests (js ++ new)) ≡ true
      → (step s).1 ≡ none
      → All (Holds s) js
      → All (Holds (step s).0) (js ++ new)

  render_all-Adds :
      (fs : List FileSpec) (ctx : Context) → Adds (jobs ctx fs) (render_all T F fs ctx root)
  render_all-Adds fs ctx js s apart done h =
      let (own, new, shared) =
        distinct-append (dests js) (dests (jobs ctx fs))
          (ap distinct (sym (dests-append js (jobs ctx fs))) ∙ apart) in
      All-append (Holds (render_all T F fs ctx root s).0) js (jobs ctx fs)
        (files_stay fs ctx s js new (distinct-All (dests js) own) shared done h)
        (render_all_text fs ctx s new done)

  only_if-Adds :
      (b : Bool) (new : List Job) (step : Step T F)
      → Adds new step
      → Adds (chosen b new) (only_if T F b step)
  only_if-Adds true new step adds js s apart done h = adds js s apart done h
  only_if-Adds false new step adds js s apart done h = subst (All (Holds s)) (sym (append_nil js)) h

  resume-Adds :
      (new : List Job) (step : Step T F) (k : Step T F) (s : F.State) (js more : List Job)
      → Adds new step
      → distinct (dests (js ++ new)) ≡ true
      → ((s' : F.State) → All (Holds s') (js ++ new) → (k s').1 ≡ none → All (Holds (k s').0) more)
      → All (Holds s) js
      → (resume (step s) k).1 ≡ none
      → All (Holds (resume (step s) k).0) more
  resume-Adds new step k s js more adds apart next_ok h done =
      let (first, rest, same) = resume_ok (step s) k done in
      subst (λ r. All (Holds r.0) more) (sym same) (next_ok _ (adds js s apart first h) rest)

  -- A migration leaves the files that are there.
  after_migration :
      (why : Fault → Failure) (r : F.State × Option Fault) (s : F.State) (js : List Job)
      → ((q text : Bytes) → F.look s q ≡ some text → F.look r.0 q ≡ some text)
      → (or_remove T F root (blame T F why r)).1 ≡ none
      → All (Holds s) js
      → All (Holds (or_remove T F root (blame T F why r)).0) js
  after_migration why r s js keep done h =
      let (fine, moved) = or_remove_ok why r done in
      subst (λ s'. All (Holds s') js) (sym moved) (keep_texts s r.0 js keep h)

  render_feature-Adds :
      (md : ModuleData) (ts : Bytes)
      → Adds (jobs (feature md) (plan_module md)) (render_feature T F (some md) root ts)
  render_feature-Adds md ts js s apart done h =
      resume-Adds _ (render_all T F (plan_module md) (feature md) root) _ s js _
        (render_all-Adds (plan_module md) (feature md)) apart
        (λ s' h' d.
          after_migration _ (render_migration T F md root ts s') s' _
            (λ q text. look-render_migration T F L root s' md ts q text) d h')
        h done

module _ (T : Toolchain Context) (F : FileSystem) (L : IsLawful F) (o : Options) where
  render_auth-Adds :
      (d : ProjectData) (clock : Clock)
      → Adds T F L o.dir (jobs (project d) (plan_auth d)) (render_auth T F o d clock)
  unfolding render_auth
  render_auth-Adds d clock js s apart done h =
      resume-Adds T F L o.dir _ (render_all T F (plan_auth d) (project d) o.dir) _ s js _
        (render_all-Adds T F L o.dir (plan_auth d) (project d)) apart
        (λ s' h' done'. elim (Bool-cases o.team) [
          | inl teams ↦ rw teams (
              after_migration T F L o.dir _ (render_team_migrations T F o.dir clock s') s' _
                (λ q text. look-render_team_migrations T F L o.dir s' clock q text)
                (rw teams at done') h')
          | inr alone ↦ rw alone (
              after_migration T F L o.dir _ (render_auth_migration T F o.dir (next T clock).0 s') s'
                _ (λ q text. look-render_auth_migration T F L o.dir s' (next T clock).0 q text)
                (rw alone at done') h')
        ])
        h done

-- The names of the sample's module.
abbrev pub user_of : Options → ModuleData
user_of o = record {
  mod_path = o.mod_path;
  layout = o.layout;
  type_name = codes "User";
  pkg = codes "user";
  plural = codes "users";
}

module _ (T : Toolchain Context) (F : FileSystem) (L : IsLawful F) (o : Options) where
  render_sample-Adds :
      (clock : Clock)
      → Adds T F L o.dir
          (jobs (feature (user_of o)) (plan_module (user_of o)))
          (render_sample T F o clock)
  unfolding render_sample derive_module_names
  render_sample-Adds clock js s apart done h =
      render_feature-Adds T F L o.dir (user_of o) (next T clock).0 js s apart done h

  front : (js ks : List Job) → distinct (dests (js ++ ks)) ≡ true → distinct (dests js) ≡ true
  front js ks h =
      (distinct-append (dests js) (dests ks) (ap distinct (sym (dests-append js ks)) ∙ h)).0

  render_project-Holds :
      (secret : Bytes) (now : ℕ) (s : F.State)
      → distinct (dests (planned (project_data o secret) (user_of o))) ≡ true
      → (render_project T F o (project_data o secret) now s).1 ≡ none
      → All
          (Holds T F L o.dir (render_project T F o (project_data o secret) now s).0)
          (planned (project_data o secret) (user_of o))
  unfolding render_project planned project_data
  render_project-Holds secret now s apart done =
      let d = project_data o secret in
      let clock = new_clock now in
      let more = resume-Adds T F L o.dir in
      let all = λ (fs : List FileSpec). render_all-Adds T F L o.dir fs (project d) in
      let maybe = only_if-Adds T F L o.dir in
      let a = jobs (project d) (plan d) in
      let b = chosen o.sample (jobs (feature (user_of o)) (plan_module (user_of o))) in
      let c = chosen o.auth (jobs (project d) (plan_auth d)) in
      let e = chosen o.queue (jobs (project d) (plan_queue d)) in
      let g = chosen o.realtime (jobs (project d) (plan_realtime d)) in
      let k = chosen o.i18n (jobs (project d) (plan_i18n d)) in
      let p5 = front (a ++ b ++ c ++ e ++ g) k apart in
      let p4 = front (a ++ b ++ c ++ e) g p5 in
      let p3 = front (a ++ b ++ c) e p4 in
      let p2 = front (a ++ b) c p3 in
      more a _ _ s [] _ (all (plan d)) (front a b p2)
        (λ s. more b _ _ s a _ (maybe o.sample _ _ (render_sample-Adds clock)) p2 (λ s.
          more c _ _ s (a ++ b) _
            (maybe o.auth _ _ (render_auth-Adds T F L o d (clock_after T F o.sample clock))) p3
            (λ s. more e _ _ s (a ++ b ++ c) _ (maybe o.queue _ _ (all (plan_queue d))) p4 (λ s.
              more g _ _ s (a ++ b ++ c ++ e) _ (maybe o.realtime _ _ (all (plan_realtime d))) p5
                (λ s h done.
                  maybe o.i18n (jobs (project d) (plan_i18n d)) _ (all (plan_i18n d))
                    (a ++ b ++ c ++ e ++ g) s apart done h)))))
        tt done

-- If the layout is one of the two and the rendering of a project ends without an error, then every
-- file that the plans name for what was chosen holds the text of its own template: no later file has
-- taken its place, where different clean names in a directory are different files.
pub render_project-Complete :
    (T : Toolchain Context) (F : FileSystem) (L : IsLawful F) (o : Options) (secret : Bytes)
    (now : ℕ) (s : F.State) (f : FileSpec) (ctx : Context)
    → (o.layout ≡ codes "ddd") ⊎ (o.layout ≡ codes "layered")
    → (render_project T F o (project_data o secret) now s).1 ≡ none
    → In (f, ctx) (planned (project_data o secret) (user_of o))
    → (text : Bytes) × (render_text T f ctx ≡ ok text)
      × (F.look
            (render_project T F o (project_data o secret) now s).0
            (F.place (F.join o.dir f.dest))
          ≡ some text)
unfolding project_data
render_project-Complete T F L o secret now s f ctx layout done chosen_file =
    In-All (Holds T F L o.dir _) (f, ctx) (planned (project_data o secret) (user_of o)) chosen_file
      (render_project-Holds T F L o secret now s
        (distinct-planned (project_data o secret) (user_of o) layout refl refl) done)
