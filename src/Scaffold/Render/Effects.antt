-- ===== src/Scaffold/Render/Effects.antt =====
-- cmd/fibr/generate.go: what the rendering of one file, and of migrations, leaves in the file system.
use fibr.Prelude.{
  ◌≡◌, refl, ◌∙◌, subst, Bool, true, false, Option, none, some, List, [], ◌∷◌, ◌==◌, ◌⊎◌, inl, inr,
  Bool-cases, arith,
}
use fibr.Prelude.Bytes.{Bytes, bytes_cmp}
use fibr.Scaffold.Files.{FileSystem, IsLawful, Toolchain}
use fibr.Scaffold.Plan.{Context, FileSpec, ModuleData, bare, feature}
use fibr.Scaffold.Render.{
  resume, not_written, Fault, Result, ok, err, Clock, render_text, render_file, render_new,
  render_dated, write_in, wrote, put_file, next, migration_file, module_migration, render_migration,
  render_auth_migration, render_team_migrations, team_steps,
}

-- What holds before a step and is kept by what follows holds after both.
pub resume_keeps :
    {S E : Type 0} (P : S → Type 0) (r : S × Option E) (k : S → S × Option E)
    → P r.0
    → ((s : S) → P s → P (k s).0)
    → P (resume r k).0
resume_keeps P (s, none) k h keep = keep s h
resume_keeps P (s, some e) k h keep = h

-- Two steps end without an error when both do.
pub resume_ok :
    {S E : Type 0} (r : S × Option E) (k : S → S × Option E)
    → (resume r k).1 ≡ none
    → (r.1 ≡ none) × ((k r.0).1 ≡ none) × (resume r k ≡ k r.0)
resume_ok (s, none) k h = (refl, h, refl)
resume_ok (s, some e) k h = absurd (ground arith)

module _ (F : FileSystem) (L : IsLawful F) where
  wrote_state : (r : F.State × Bool) → (wrote F r).0 ≡ r.0
  wrote_state (s, true) = refl
  wrote_state (s, false) = refl

  look-write_in :
      (path text q : Bytes) (r : F.State × Bool)
      → (F.place path == q) ≡ false
      → F.look (write_in F path text r).0 q ≡ F.look r.0 q
  look-write_in path text q (s, true) h =
      rw (wrote_state (F.write_file s path text)) (L.look_other s path text q h)
  look-write_in path text q (s, false) h = refl

  look-put_file :
      (path : Bytes) (r : Result Bytes) (s : F.State) (q : Bytes)
      → (F.place path == q) ≡ false
      → F.look (put_file F path r s).0 q ≡ F.look s q
  look-put_file path (err e) s q h = refl
  look-put_file path (ok text) s q h =
      look-write_in path text q (F.mkdir_all s (F.parent path)) h
      ∙ L.look-mkdir_all s (F.parent path) q

  wrote_ok : (r : F.State × Bool) → (wrote F r).1 ≡ none → r.1 ≡ true
  wrote_ok (s, true) h = refl
  wrote_ok (s, false) h = absurd (ground arith)

  write_in_text :
      (path text : Bytes) (r : F.State × Bool)
      → (write_in F path text r).1 ≡ none
      → F.look (write_in F path text r).0 (F.place path) ≡ some text
  write_in_text path text (s, true) h =
      rw (wrote_state (F.write_file s path text)) (L.look_written s path text (wrote_ok _ h))
  write_in_text path text (s, false) h = absurd (ground arith)

  wrote_failed : (r : F.State × Bool) (e : Fault) → (wrote F r).1 ≡ some e → e ≡ not_written
  wrote_failed (s, true) e h = absurd (ground arith)
  wrote_failed (s, false) e h = ground arith

  write_in_failed :
      (path text : Bytes) (r : F.State × Bool) (e : Fault)
      → (write_in F path text r).1 ≡ some e
      → ((write_in F path text r).0 ≡ r.0) ⊎ (e ≡ not_written)
  write_in_failed path text (s, false) e h = inl refl
  write_in_failed path text (s, true) e h = inr (wrote_failed (F.write_file s path text) e h)

  put_file_text :
      (path : Bytes) (r : Result Bytes) (s : F.State)
      → (put_file F path r s).1 ≡ none
      → (text : Bytes) × (r ≡ ok text) × (F.look (put_file F path r s).0 (F.place path) ≡ some text)
  put_file_text path (err e) s h = absurd (ground arith)
  put_file_text path (ok text) s h = (text, refl, write_in_text path text _ h)

  -- After an error every file is as it was, or it is the one whose write failed.
  put_file_failed :
      (path : Bytes) (r : Result Bytes) (s : F.State) (e : Fault) (q : Bytes)
      → (put_file F path r s).1 ≡ some e
      → (F.look (put_file F path r s).0 q ≡ F.look s q) ⊎ ((e ≡ not_written) × (F.place path ≡ q))
  put_file_failed path (err x) s e q h = inl refl
  put_file_failed path (ok text) s e q h = elim (Bool-cases (F.place path == q)) [
    | inr other ↦ inl (look-put_file path (ok text) s q other)
    | inl own ↦ elim (write_in_failed path text (F.mkdir_all s (F.parent path)) e h) [
      | inl made ↦ inl (rw made (L.look-mkdir_all s (F.parent path) q))
      | inr cut ↦ inr (cut, (bytes_cmp.eqb_iff (F.place path) q).0 own)
    ]
  ]

module _ (T : Toolchain Context) (F : FileSystem) (L : IsLawful F) (ctx : Context)
    (root : Bytes) where
  -- What is rendered to one path leaves the other files as they are.
  pub look-render_file :
      (f : FileSpec) (s : F.State) (q : Bytes)
      → (F.place (F.join root f.dest) == q) ≡ false
      → F.look (render_file T F f ctx root s).0 q ≡ F.look s q
  unfolding render_file
  look-render_file f s q h = look-put_file F L (F.join root f.dest) (render_text T f ctx) s q h

  -- Rendering that ends without an error leaves the text of the template.
  pub render_file_text :
      (f : FileSpec) (s : F.State)
      → (render_file T F f ctx root s).1 ≡ none
      → (text : Bytes) × (render_text T f ctx ≡ ok text)
        × (F.look (render_file T F f ctx root s).0 (F.place (F.join root f.dest)) ≡ some text)
  unfolding render_file
  render_file_text f s h = put_file_text F L (F.join root f.dest) (render_text T f ctx) s h

  pub render_file_failed :
      (f : FileSpec) (s : F.State) (e : Fault) (q : Bytes)
      → (render_file T F f ctx root s).1 ≡ some e
      → (F.look (render_file T F f ctx root s).0 q ≡ F.look s q)
        ⊎ ((e ≡ not_written) × (F.place (F.join root f.dest) ≡ q))
  unfolding render_file
  render_file_failed f s e q h =
      put_file_failed F L (F.join root f.dest) (render_text T f ctx) s e q h

  -- A migration whose write failed was not there before.
  pub render_new_failed :
      (f : FileSpec) (s : F.State) (e : Fault) (q : Bytes)
      → (render_new T F f ctx root s).1 ≡ some e
      → (F.look (render_new T F f ctx root s).0 q ≡ F.look s q)
        ⊎ ((e ≡ not_written) × (F.place (F.join root f.dest) ≡ q) × (F.look s q ≡ none))
  unfolding render_new
  render_new_failed f s e q h = elim (Bool-cases (F.stat s (F.join root f.dest))) [
    | inl seen ↦ inl (rw seen refl)
    | inr free ↦ elim (render_file_failed f s e q (rw free at h)) [
      | inl same ↦ inl (rw free same)
      | inr cut ↦ inr (cut.0, cut.1, subst (λ p. F.look s p ≡ none) cut.1 (L.look_unseen s _ free))
    ]
  ]

  -- A file that is there when a migration is written stays as it is, in every outcome.
  pub look-render_new :
      (f : FileSpec) (s : F.State) (q text : Bytes)
      → F.look s q ≡ some text
      → F.look (render_new T F f ctx root s).0 q ≡ some text
  unfolding render_new
  look-render_new f s q text h = elim (Bool-cases (F.stat s (F.join root f.dest))) [
    | inl seen ↦ rw seen h
    | inr free ↦ rw free (elim (Bool-cases (F.place (F.join root f.dest) == q)) [
      | inl same ↦ absurd (
          ground (
            arith,
            L.look_unseen s (F.join root f.dest) free,
            bytes_cmp.eqb_iff (F.place (F.join root f.dest)) q,
          ))
      | inr other ↦ look-render_file f s q other ∙ h
    ])
  ]

module _ (T : Toolchain Context) (F : FileSystem) (L : IsLawful F) (root : Bytes) where
  pub look-render_dated :
      (steps : List (Bytes × Bytes)) (clock : Clock) (s : F.State) (q text : Bytes)
      → F.look s q ≡ some text
      → F.look (render_dated T F steps root clock s).0 q ≡ some text
  unfolding render_dated
  look-render_dated [] clock s q text h = h
  look-render_dated ((template, name) ∷ steps) clock s q text h =
      resume_keeps (λ s'. F.look s' q ≡ some text)
        (render_new T F (migration_file template (next T clock).0 name) bare root s)
        (λ s'. render_dated T F steps root (next T clock).1 s')
        (look-render_new T F L bare root _ s q text h)
        (λ s' h'. look-render_dated steps (next T clock).1 s' q text h')

module _ (T : Toolchain Context) (F : FileSystem) (L : IsLawful F) (root : Bytes)
    (s : F.State) where
  pub look-render_migration :
      (md : ModuleData) (ts q text : Bytes)
      → F.look s q ≡ some text
      → F.look (render_migration T F md root ts s).0 q ≡ some text
  unfolding render_migration
  look-render_migration md ts q text h = look-render_new T F L (feature md) root _ s q text h

  pub look-render_auth_migration :
      (ts q text : Bytes)
      → F.look s q ≡ some text
      → F.look (render_auth_migration T F root ts s).0 q ≡ some text
  unfolding render_auth_migration
  look-render_auth_migration ts q text h = look-render_new T F L bare root _ s q text h

  pub look-render_team_migrations :
      (clock : Clock) (q text : Bytes)
      → F.look s q ≡ some text
      → F.look (render_team_migrations T F root clock s).0 q ≡ some text
  unfolding render_team_migrations
  look-render_team_migrations clock q text h =
      look-render_dated T F L root team_steps clock s q text h

  pub render_migration_failed :
      (md : ModuleData) (ts : Bytes) (e : Fault) (q : Bytes)
      → (render_migration T F md root ts s).1 ≡ some e
      → (F.look (render_migration T F md root ts s).0 q ≡ F.look s q)
        ⊎ ((e ≡ not_written)
            × (F.place (F.join root (module_migration ts md).dest) ≡ q)
            × (F.look s q ≡ none))
  unfolding render_migration
  render_migration_failed md ts e q h = render_new_failed T F L (feature md) root _ s e q h
