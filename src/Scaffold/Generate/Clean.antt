-- ===== src/Scaffold/Generate/Clean.antt =====
-- cmd/fibr/generate.go: what an error leaves.
use fibr.Prelude.{
  ◌≡◌, refl, Bool, true, false, Option, none, some, List, [], ◌∷◌, ◌⊎◌, inl, inr, Bool-cases, arith,
  ℕ,
}
use fibr.Prelude.Bytes.{Bytes}
use fibr.Scaffold.{Options, with_auth}
use fibr.Scaffold.Files.{is_clean, FileSystem, IsLawful, Toolchain}
use fibr.Scaffold.Plan.{Context, ProjectData, ModuleData, FileSpec}
use fibr.Scaffold.Render.{Clock, resume}
use fibr.Scaffold.Generate.{
  Failure, Step, or_remove, render_all, render_feature, only_if, render_sample, render_auth,
  render_project, conclude, with_secret, in_dir, generate,
}

-- A file of the directory is gone, or the removal of the directory, which was the last thing done,
-- failed.
abbrev pub Removed : (F : FileSystem) → Bytes → Bytes → F.State → Type 0
Removed F root d s =
    (F.look s (F.place (F.join root d)) ≡ none)
    ⊎ ((t : F.State) × ((F.remove_all t root).1 ≡ false) × (s ≡ (F.remove_all t root).0))

module _ (T : Toolchain Context) (F : FileSystem) (L : IsLawful F) (root d : Bytes)
    (clean : is_clean d ≡ true) where
  -- There was no error, or the directory has lost its files.
  abbrev Cleared : F.State × Option Failure → Type 0
  Cleared r = (r.1 ≡ none) ⊎ Removed F root d r.0

  or_remove-Cleared : (r : F.State × Option Failure) → Cleared (or_remove T F root r)
  unfolding or_remove
  or_remove-Cleared (s, none) = inl refl
  or_remove-Cleared (s, some e) = inr (elim (Bool-cases (F.remove_all s root).1) [
    | inl fine ↦ inl (L.look-remove_all s root d clean fine)
    | inr failed ↦ inr (s, failed, refl)
  ])

  resume-Cleared :
      (r : F.State × Option Failure) (k : Step T F)
      → Cleared r
      → ((s : F.State) → Cleared (k s))
      → Cleared (resume r k)
  resume-Cleared (s, none) k h hk = hk s
  resume-Cleared (s, some e) k h hk = h

  render_all-Cleared :
      (fs : List FileSpec) (ctx : Context) (s : F.State) → Cleared (render_all T F fs ctx root s)
  unfolding render_all
  render_all-Cleared [] ctx s = inl refl
  render_all-Cleared (f ∷ fs) ctx s =
      resume-Cleared _ (λ s'. render_all T F fs ctx root s') (or_remove-Cleared _)
        (λ s'. render_all-Cleared fs ctx s')

  only_if-Cleared :
      (b : Bool) (step : Step T F) (s : F.State)
      → ((s : F.State) → Cleared (step s))
      → Cleared (only_if T F b step s)
  only_if-Cleared true step s h = h s
  only_if-Cleared false step s h = inl refl

  render_feature-Cleared :
      (md : Option ModuleData) (ts : Bytes) (s : F.State)
      → Cleared (render_feature T F md root ts s)
  render_feature-Cleared none ts s = or_remove-Cleared _
  render_feature-Cleared (some md) ts s =
      resume-Cleared _ _ (render_all-Cleared _ _ s) (λ s'. or_remove-Cleared _)

module _ (T : Toolchain Context) (F : FileSystem) (L : IsLawful F) (o : Options) (d : Bytes)
    (clean : is_clean d ≡ true) where
  render_auth-Cleared :
      (p : ProjectData) (clock : Clock) (s : F.State)
      → Cleared T F L o.dir d clean (render_auth T F o p clock s)
  unfolding render_auth
  render_auth-Cleared p clock s =
      resume-Cleared T F L o.dir d clean _ _ (render_all-Cleared T F L o.dir d clean _ _ s) λ s'.
        elim (Bool-cases o.team) [
          | inl teams ↦ rw teams (or_remove-Cleared T F L o.dir d clean _)
          | inr alone ↦ rw alone (or_remove-Cleared T F L o.dir d clean _)
        ]

  render_project-Cleared :
      (p : ProjectData) (now : ℕ) (s : F.State)
      → Cleared T F L o.dir d clean (render_project T F o p now s)
  unfolding render_project render_sample
  render_project-Cleared p now s =
      let all = render_all-Cleared T F L o.dir d clean in
      let both = resume-Cleared T F L o.dir d clean in
      let maybe = only_if-Cleared T F L o.dir d clean in
      both _ _ (all _ _ s) λ s.
        both _ _ (maybe o.sample _ s (render_feature-Cleared T F L o.dir d clean _ _)) λ s.
          both _ _ (maybe o.auth _ s (render_auth-Cleared p _)) λ s.
            both _ _ (maybe o.queue _ s (all _ _))
              λ s. both _ _ (maybe o.realtime _ s (all _ _)) λ s. maybe o.i18n _ s (all _ _)

  conclude-Cleared :
      (r : F.State × Option Failure) (why : Failure)
      → Cleared T F L o.dir d clean r
      → (conclude T F o r).1 ≡ some why
      → Removed F o.dir d (conclude T F o r).0.0
  conclude-Cleared (s, none) why h e = absurd (ground arith)
  conclude-Cleared (s, some x) why (inl h) e = absurd (ground arith)
  conclude-Cleared (s, some x) why (inr h) e = h

  with_secret-Cleared :
      (secret : Option Bytes) (now : ℕ) (s : F.State) (why : Failure)
      → (with_secret T F o secret now s).1 ≡ some why
      → ((with_secret T F o secret now s).0.0 ≡ s)
        ⊎ Removed F o.dir d (with_secret T F o secret now s).0.0
  with_secret-Cleared none now s why e = inl refl
  with_secret-Cleared (some secret) now s why e =
      inr (conclude-Cleared _ why (render_project-Cleared _ now s) e)

  in_dir-Cleared :
      (found : Option Bool) (random : Option Bytes) (now : ℕ) (s : F.State) (why : Failure)
      → (in_dir T F o found random now s).1 ≡ some why
      → ((in_dir T F o found random now s).0.0 ≡ s)
        ⊎ Removed F o.dir d (in_dir T F o found random now s).0.0
  in_dir-Cleared none random now s why e = inl refl
  in_dir-Cleared (some true) random now s why e = inl refl
  in_dir-Cleared (some false) random now s why e = with_secret-Cleared _ now s why e

-- If `Generate` returns an error, then either the file system is as it was, or no file of a clean name
-- is left in the project's directory, whatever was written before the error, or the last thing done was
-- to remove that directory and that failed too.
pub generate-Clean :
    (T : Toolchain Context) (F : FileSystem) (L : IsLawful F) (o : Options) (random : Option Bytes)
    (now : ℕ) (s : F.State) (d : Bytes) (clean : is_clean d ≡ true) (why : Failure)
    → (generate T F o random now s).1 ≡ some why
    → ((generate T F o random now s).0.0 ≡ s)
      ⊎ Removed F (with_auth o).dir d (generate T F o random now s).0.0
unfolding generate
generate-Clean T F L o random now s d clean why e =
    in_dir-Cleared T F L (with_auth o) d clean _ random now s why e
