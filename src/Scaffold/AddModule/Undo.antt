-- ===== src/Scaffold/AddModule/Undo.antt =====
-- cmd/fibr/addmodule.go: what a refused or failed `AddModule` leaves, and what it never touches.
use fibr.Prelude.{
  ℕ, ◌≡◌, refl, sym, ◌∙◌, subst, Option, none, some, List, [], ◌∷◌, ◌++◌, ◌⊎◌, inl, inr, Bool-cases,
  Option-cases, true, arith, contains,
}
use fibr.Prelude.Bytes.{Bytes, bytes_cmp}
use fibr.Scaffold.Files.{FileSystem, IsLawful, Toolchain}
use fibr.Scaffold.Plan.{Context, feature, ModuleData, FileSpec, plan_module}
use fibr.Scaffold.Render.{
  Fault, not_written, module_migration, render_file, render_migration, new_clock, next,
}
use fibr.Scaffold.Render.Effects.{
  look-render_file, look-render_migration, render_file_failed, render_migration_failed,
}
use fibr.Scaffold.AddModule.{
  AddModuleOptions, Refusal, Hint, render_failed, migration_failed, Answer, found, refused, Written,
  stopped, wrote, go_on, first_existing, undo, write_files, migrated, add_migration, add_unless,
  add_resolved, add_module, dir_of, resolve_module,
}
use fibr.Scaffold.AddModule.Tracks.{
  places, Stuck, look-undo_other, look-undo_own, Tracks, contains-places, Absent,
  first_existing-Absent,
}

-- How the writing of the files ends: with all of them, or undone but for a file that was being
-- written when the write failed.
module _ (T : Toolchain Context) (F : FileSystem) (L : IsLawful F) (md : ModuleData)
    (dir : Bytes) where
  -- The file that a failed write may leave.
  abbrev pub half_written : Bytes → Refusal → Option Bytes
  half_written migration (render_failed f not_written) = some (F.place (F.join dir f.dest))
  half_written migration (migration_failed not_written) = some migration
  half_written migration e = none

  -- A file is as it was, or it is new and its write or its removal failed.
  abbrev pub Excused : Bytes → Refusal → Bytes → Type 0
  Excused migration e q = (half_written migration e ≡ some q) ⊎ Stuck F L q

  abbrev Undone : F.State → Bytes → F.State → Refusal → Bytes → Type 0
  Undone start migration s e q =
      (F.look s q ≡ F.look start q) ⊎ (Excused migration e q × (F.look start q ≡ none))

  abbrev Ends : F.State → Bytes → Written F → Type 0
  Ends start migration (stopped s e) = (q : Bytes) → Undone start migration s e q
  Ends start migration (wrote s written) = Tracks F L start written s

  undo_own :
      (start s : F.State) (written : List Bytes) (migration : Bytes) (e : Refusal) (q : Bytes)
      → F.look start q ≡ none
      → contains (places F L written) q ≡ true
      → Undone start migration (undo F written s) e q
  undo_own start s written migration e q fresh own = elim (look-undo_own F L written s q own) [
    | inl gone ↦ inl (gone ∙ sym fresh)
    | inr stuck ↦ inr (inr stuck, fresh)
  ]

  undo-Undone :
      (start s s' : F.State) (written : List Bytes) (migration : Bytes) (e : Refusal) (q : Bytes)
      → Tracks F L start written s
      → (F.look s' q ≡ F.look s q) ⊎ ((half_written migration e ≡ some q) × (F.look start q ≡ none))
      → Undone start migration (undo F written s') e q
  undo-Undone start s s' written migration e q t after =
      elim (Bool-cases (contains (places F L written) q)) [
        | inl own ↦ undo_own start s' written migration e q (t.fresh q own) own
        | inr other ↦ elim after [
          | inl same ↦ inl (look-undo_other F L written s' q other ∙ same ∙ t.same q other)
          | inr cut ↦ inr (inl cut.0, cut.1)
        ]
      ]

  go_on-Ends :
      (start s : F.State) (f : FileSpec) (written : List Bytes) (migration : Bytes)
      (r : F.State × Option Fault) (k : F.State → Written F)
      → Tracks F L start written s
      → ((e : Fault)
          → r.1 ≡ some e
          → (q : Bytes)
          → (F.look r.0 q ≡ F.look s q)
            ⊎ ((half_written migration (render_failed f e) ≡ some q) × (F.look start q ≡ none)))
      → (r.1 ≡ none → Ends start migration (k r.0))
      → Ends start migration (go_on F f written r k)
  go_on-Ends start s f written migration (s', none) k t bad good = good refl
  go_on-Ends start s f written migration (s', some e) k t bad good =
      λ q. undo-Undone start s s' written migration (render_failed f e) q t (bad e refl q)

  -- One more file.
  render-Tracks :
      (start s : F.State) (f : FileSpec) (written : List Bytes)
      → Tracks F L start written s
      → F.look start (F.place (F.join dir f.dest)) ≡ none
      → Tracks F L start
          (written ++ F.join dir f.dest ∷ [])
          (render_file T F f (feature md) dir s).0
  render-Tracks start s f written t absent = record {
    fresh = λ q own. elim (Bool-cases (contains (places F L written) q)) [
      | inl old ↦ t.fresh q old
      | inr new ↦
          subst (λ p. F.look start p ≡ none)
            ((bytes_cmp.eqb_iff (F.place (F.join dir f.dest)) q).0
              (ground (arith, contains-places F L written (F.join dir f.dest) q)))
            absent
    ];
    same = λ q other.
        look-render_file T F L (feature md) dir f s q
          (ground (arith, contains-places F L written (F.join dir f.dest) q))
        ∙ t.same q (ground (arith, contains-places F L written (F.join dir f.dest) q));
  }

  write_files-Ends :
      (start : F.State) (migration : Bytes) (fs : List FileSpec) (written : List Bytes)
      (s : F.State)
      → Absent F L dir start fs
      → Tracks F L start written s
      → Ends start migration (write_files T F md dir fs written s)
  unfolding write_files
  write_files-Ends start migration [] written s absent t = t
  write_files-Ends start migration (f ∷ fs) written s absent t =
      go_on-Ends start s f written migration (render_file T F f (feature md) dir s)
        (λ s'. write_files T F md dir fs (written ++ F.join dir f.dest ∷ []) s') t
        (λ e failed q. elim (render_file_failed T F L (feature md) dir f s e q failed) [
          | inl same ↦ inl same
          | inr cut ↦
              inr (rw (cut.0, cut.1) refl, subst (λ p. F.look start p ≡ none) cut.1 absent.0)
        ])
        (λ fine.
          write_files-Ends start migration fs _ _ absent.1
            (render-Tracks start s f written t absent.0))

  abbrev migration_path : ℕ → Bytes
  migration_path now = F.place (F.join dir (module_migration (next T (new_clock now)).0 md).dest)

  -- The two outcomes of `AddModule` after the checks.
  abbrev Settled : F.State → Bytes → F.State × Answer Hint → Type 0
  Settled start migration (s, refused e) = (q : Bytes) → Undone start migration s e q
  Settled start migration (s, found hint) =
      (q : Bytes) → (F.look start q ≡ none) ⊎ (F.look s q ≡ F.look start q)

  migrated-Settled :
      (start s : F.State) (written : List Bytes) (migration : Bytes) (r : F.State × Option Fault)
      → Tracks F L start written s
      → ((e : Fault)
          → r.1 ≡ some e
          → (q : Bytes)
          → (F.look r.0 q ≡ F.look s q)
            ⊎ ((e ≡ not_written) × (migration ≡ q) × (F.look s q ≡ none)))
      → ((q text : Bytes) → F.look s q ≡ some text → F.look r.0 q ≡ some text)
      → Settled start migration (migrated T F md written r)
  migrated-Settled start s written migration (s', none) t bad good = λ q.
      elim (Option-cases (F.look start q)) [
        | inl absent ↦ inl absent
        | inr there ↦ elim (Bool-cases (contains (places F L written) q)) [
          | inl own ↦ inl (t.fresh q own)
          | inr other ↦ inr (good q there.0 (t.same q other ∙ there.1) ∙ sym there.1)
        ]
      ]
  migrated-Settled start s written migration (s', some e) t bad good = λ q.
      elim (Bool-cases (contains (places F L written) q)) [
        | inl own ↦ undo_own start s' written migration (migration_failed e) q (t.fresh q own) own
        | inr other ↦
            undo-Undone start s s' written migration (migration_failed e) q t (elim (bad e refl q) [
              | inl same ↦ inl same
              | inr cut ↦ inr (rw (cut.0, cut.1) refl, sym (t.same q other) ∙ cut.2)
            ])
      ]

  add_migration-Settled :
      (start : F.State) (now : ℕ) (w : Written F)
      → Ends start (migration_path now) w
      → Settled start (migration_path now) (add_migration T F md dir now w)
  add_migration-Settled start now (stopped s e) h = h
  add_migration-Settled start now (wrote s written) h =
      let ts = (next T (new_clock now)).0 in
      migrated-Settled start s written (migration_path now) (render_migration T F md dir ts s) h
        (λ e failed q. render_migration_failed T F L dir s md ts e q failed)
        (λ q text. look-render_migration T F L dir s md ts q text)

  start-Tracks : (s : F.State) → Tracks F L s [] s
  start-Tracks s = record { fresh = λ q own. absurd (ground arith); same = λ q other. refl }

  add_unless-Settled :
      (now : ℕ) (s : F.State) (existing : Option FileSpec)
      → (existing ≡ none → Absent F L dir s (plan_module md))
      → Settled s (migration_path now) (add_unless T F md dir now s existing)
  add_unless-Settled now s (some f) h = λ q. inl refl
  add_unless-Settled now s none h =
      add_migration-Settled s now _
        (write_files-Ends s (migration_path now) (plan_module md) [] s (h refl) (start-Tracks s))

  Settled-refused :
      (start : F.State) (migration : Bytes) (r : F.State × Answer Hint) (e : Refusal) (q : Bytes)
      → Settled start migration r
      → r.1 ≡ refused e
      → Undone start migration r.0 e q
  Settled-refused start migration (s, found hint) e q settled h = absurd (ground arith)
  Settled-refused start migration (s, refused x) e q settled h =
      let same : x ≡ e = ground arith in subst (λ e. Undone start migration s e q) same (settled q)

  Settled-text :
      (start : F.State) (migration : Bytes) (r : F.State × Answer Hint) (q text : Bytes)
      → Settled start migration r
      → F.look start q ≡ some text
      → F.look r.0 q ≡ some text
  Settled-text start migration (s, found hint) q text settled there = elim (settled q) [
    | inl absent ↦ absurd (ground arith)
    | inr same ↦ same ∙ there
  ]
  Settled-text start migration (s, refused e) q text settled there = elim (settled q) [
    | inl same ↦ same ∙ there
    | inr cut ↦ absurd (ground (arith, cut.1))
  ]

  add-Settled :
      (now : ℕ) (s : F.State)
      → Settled s
          (migration_path now)
          (add_unless T F md dir now s (first_existing F dir (plan_module md) s))
  add-Settled now s = add_unless-Settled now s _ (first_existing-Absent F L dir (plan_module md) s)

module _ (T : Toolchain Context) (F : FileSystem) (L : IsLawful F) where
  -- The file that a failed write may leave, for the module that was resolved.
  abbrev pub leftover : Bytes → ℕ → Answer ModuleData → Refusal → Option Bytes
  leftover dir now (refused x) e = none
  leftover dir now (found md) e = half_written T F L md dir (migration_path T F L md dir now) e

  resolved-Undone :
      (dir : Bytes) (now : ℕ) (s : F.State) (m : Answer ModuleData) (e : Refusal) (q : Bytes)
      → (add_resolved T F dir now s m).1 ≡ refused e
      → (F.look (add_resolved T F dir now s m).0 q ≡ F.look s q)
        ⊎ (((leftover dir now m e ≡ some q) ⊎ Stuck F L q) × (F.look s q ≡ none))
  resolved-Undone dir now s (refused x) e q h = inl refl
  resolved-Undone dir now s (found md) e q h =
      Settled-refused T F L md dir s _ _ e q (add-Settled T F L md dir now s) h

  resolved_keeps :
      (dir : Bytes) (now : ℕ) (s : F.State) (m : Answer ModuleData) (q text : Bytes)
      → F.look s q ≡ some text
      → F.look (add_resolved T F dir now s m).0 q ≡ some text
  resolved_keeps dir now s (refused x) q text h = h
  resolved_keeps dir now s (found md) q text h =
      Settled-text T F L md dir s _ _ q text (add-Settled T F L md dir now s) h

-- If `AddModule` returns an error, and no removal of a file that is there fails, then every file is as
-- it was before, but for one that was new and whose write failed, where no symbolic link stands at a
-- path that it writes.
pub add_module-Undone :
    (T : Toolchain Context) (F : FileSystem) (L : IsLawful F)
    (removes : (t : F.State) (p text : Bytes)
      → F.look t (F.place p) ≡ some text
      → (F.remove t p).1 ≡ true)
    (o : AddModuleOptions) (now : ℕ) (s : F.State) (e : Refusal) (q : Bytes)
    → (add_module T F o now s).1 ≡ refused e
    → (F.look (add_module T F o now s).0 q ≡ F.look s q)
      ⊎ ((leftover T F L (dir_of o) now (resolve_module T F o (dir_of o) s) e ≡ some q)
          × (F.look s q ≡ none))
unfolding add_module
add_module-Undone T F L removes o now s e q h =
    elim (resolved-Undone T F L (dir_of o) now s _ e q h) [
      | inl same ↦ inl same
      | inr (inl cut, absent) ↦ inr (cut, absent)
      | inr (inr (t, p, text, own, there, failed), absent) ↦
          absurd (ground (arith, removes t p text there, failed))
    ]

-- `AddModule` never changes or removes a file that is there, whether it succeeds or fails, and
-- whatever fails on the way, where no symbolic link stands at a path that it writes.
pub add_module_keeps :
    (T : Toolchain Context) (F : FileSystem) (L : IsLawful F) (o : AddModuleOptions) (now : ℕ)
    (s : F.State) (q text : Bytes)
    → F.look s q ≡ some text
    → F.look (add_module T F o now s).0 q ≡ some text
unfolding add_module
add_module_keeps T F L o now s q text h = resolved_keeps T F L (dir_of o) now s _ q text h
