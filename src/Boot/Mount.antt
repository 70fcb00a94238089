-- ===== src/Boot/Mount.antt =====
-- bootstrap/module.go: modules and their readiness checks.
use fibr.Prelude.{
  ℕ, suc, ◌≤◌, ◌≡◌, refl, sym, ap, subst, ◌∙◌, ◌⊎◌, inl, inr, true, Option, none, some, List, [],
  ◌∷◌, ◌++◌, take, length, All, Option-cases, append_assoc, append_nil, arith,
}
use fibr.Health.{NamedCheck, Signal, readyz, run_checks}
use fibr.Health.Verdict.{Passes, run_checks-Passes}
use fibr.Boot.{
  App, Module, Error, migrate_failed, register_failed, mount, run_migrate, checks_of,
  snapshot_checks, ready_reply,
}

module _ {W : Type 0} where
  -- The checks that modules contribute.
  abbrev pub gathered : List (Module W) → List (NamedCheck W)
  gathered [] = []
  gathered (m ∷ mods) = checks_of m.health_checker ++ gathered mods

  -- What the first module of a `Mount` meets.
  data First (m : Module W) (mods : List (Module W)) (app : App W) (w : W)
      (r : W × App W × Option Error) : Type 0 where
    unmigrated :
        (e : ℕ)
        → r ≡ ((run_migrate app.auto_migrate m.migrate w).0, app, some (migrate_failed m.name e))
        → First m mods app w r
    unregistered :
        (e : ℕ)
        → r ≡ (
          (run_migrate app.auto_migrate m.migrate w).0,
          record app { router = (m.register app.router).0 },
          some (register_failed m.name e),
        )
        → First m mods app w r
    next :
        r
          ≡ mount mods
              (record app {
                router = (m.register app.router).0;
                checks = app.checks ++ checks_of m.health_checker;
              })
              (run_migrate app.auto_migrate m.migrate w).0
        → First m mods app w r

  mount-First :
      (m : Module W) (mods : List (Module W)) (app : App W) (w : W)
      → First m mods app w (mount (m ∷ mods) app w)
  unfolding mount
  mount-First m mods app w = elim (Option-cases (run_migrate app.auto_migrate m.migrate w).1) [
    | inr (e, failed) ↦ unmigrated e (ground (arith, failed))
    | inl migrated ↦ elim (Option-cases (m.register app.router).1) [
      | inr (e, failed) ↦ unregistered e (ground (arith, migrated, failed))
      | inl registered ↦ next (ground (arith, migrated, registered))
    ]
  ]

  -- The first `k` modules are in, all of them without an error.
  abbrev Mounted : List (Module W) → App W → W × App W × Option Error → Type 0
  Mounted mods app r =
      (k : ℕ) × (r.1.checks ≡ app.checks ++ gathered (take k mods))
      × (k ≤ length mods)
      × ((k ≡ length mods) ⊎ ((e : Error) × (r.2 ≡ some e)))

  mount-Mounted :
      (mods : List (Module W)) (app : App W) (w : W) → Mounted mods app (mount mods app w)
  mount-Mounted [] app w = unfold mount in (0, sym (append_nil app.checks), omega arith, inl refl)
  mount-Mounted (m ∷ mods) app w = elim (mount-First m mods app w) [
    | unmigrated e r ↦
        subst (Mounted (m ∷ mods) app) (sym r)
          (0, sym (append_nil app.checks), omega arith, inr (migrate_failed m.name e, refl))
    | unregistered e r ↦
        subst (Mounted (m ∷ mods) app) (sym r)
          (0, sym (append_nil app.checks), omega arith, inr (register_failed m.name e, refl))
    | next r ↦ subst (Mounted (m ∷ mods) app) (sym r) (
        let app' = record app {
          router = (m.register app.router).0;
          checks = app.checks ++ checks_of m.health_checker;
        } in
        let (k, checks, fits, all) =
          mount-Mounted mods app' (run_migrate app.auto_migrate m.migrate w).0 in
        (
          suc k,
          checks ∙ append_assoc app.checks (checks_of m.health_checker) (gathered (take k mods)),
          omega (arith, fits),
          elim all [ inl whole ↦ inl (ap suc whole) | inr stopped ↦ inr stopped ],
        ))
  ]

  -- After a `Mount` the app has, behind its own checks, those of the first modules in their order: of
  -- all of them where it returns no error, and otherwise of those before the one that failed.
  mount-checks :
      (mods : List (Module W)) (app app' : App W) (w w' : W) (e : Option Error)
      → mount mods app w ≡ (w', app', e)
      → (k : ℕ) × (app'.checks ≡ app.checks ++ gathered (take k mods))
        × (k ≤ length mods)
        × ((k ≡ length mods) ⊎ ((x : Error) × (e ≡ some x)))
  mount-checks mods app app' w w' e h = subst (Mounted mods app) h (mount-Mounted mods app w)

  All-append_right :
      (P : NamedCheck W → Type 0) (xs ys : List (NamedCheck W)) → All P (xs ++ ys) → All P ys
  All-append_right P [] ys h = h
  All-append_right P (x ∷ xs) ys h = All-append_right P xs ys h.1

  take-length : (mods : List (Module W)) → take (length mods) mods ≡ mods
  take-length [] = refl
  take-length (m ∷ mods) = ap (λ l. m ∷ l) (take-length mods)

  -- When modules have been mounted without an error and the readiness route of the app answers 200,
  -- every check of every one of these modules passes in the world as it is then.
  pub ready_reply-mount :
      (mods : List (Module W)) (app app' : App W) (w w' now : W) (signals : List Signal)
      → mount mods app w ≡ (w', app', none)
      → (ready_reply app' now signals).0 ≡ 200
      → All (Passes now) (gathered mods)
  unfolding ready_reply readyz snapshot_checks
  ready_reply-mount mods app app' w w' now signals h up =
      let (k, checks, fits, all) = mount-checks mods app app' w w' none h in
      let ok : (run_checks now app'.checks signals).0 ≡ true = ground arith in
      let passing : All (Passes now) (app.checks ++ gathered (take k mods)) =
        subst (All (Passes now)) checks (run_checks-Passes now app'.checks signals ok) in
      elim all [
        | inl whole ↦
            let each =
              subst (λ ms. All (Passes now) (app.checks ++ gathered ms))
                (ap (λ n. take n mods) whole ∙ take-length mods) passing in
            All-append_right (Passes now) app.checks (gathered mods) each
        | inr (x, stopped) ↦ absurd (ground arith)
      ]
