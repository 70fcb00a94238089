-- ===== src/Boot/Serve.antt =====
-- server/server.go: serving until a signal, and then the end in its order.
use fibr.Prelude.{
  ℕ, ◌<◌, ◌≡◌, refl, sym, ap, ◌∙◌, true, Option, none, some, List, [], ◌∷◌, ◌++◌, if◌then◌else◌,
  ltb, subst, arith, In, In-All, All, Bool-cases, inl, inr,
}
use fibr.Health.{NamedCheck, ReadinessGate, close_gate, gate_check, readyz, run_checks, Signal}
use fibr.Health.Verdict.{run_checks-Passes, Passes}

-- A hook changes the world and may fail.
abbrev pub Hook : Type 0 → Type 0
Hook W = W → W × Option ℕ

pub record Config (W : Type 0) : Type 0 where
  pub timeout : ℕ
  pub drain_delay : ℕ
  pub pre_shutdown : List (Hook W)
  pub cleanup : List (Hook W)

-- What ends the wait of `run`.
pub data Wake : Type 0 where
  listen_error : ℕ → Wake
  shutdown : Wake

abbrev pub note : Option ℕ → List ℕ → List ℕ
note none errs = errs
note (some e) errs = e ∷ errs

note-append : (e : Option ℕ) (xs ys : List ℕ) → note e (xs ++ ys) ≡ note e xs ++ ys
note-append none xs ys = refl
note-append (some e) xs ys = refl

module _ {W : Type 0} where
  -- A loop over hooks: each runs, and the errors are collected.
  unfoldable pub run_hooks : List (Hook W) → W → W × List ℕ
  run_hooks [] w = (w, [])
  run_hooks (fn ∷ hooks) w =
      let (w1, e) = fn w in let (w2, errs) = run_hooks hooks w1 in (w2, note e errs)

  abbrev pub drain : (ℕ → W → W) → ℕ → W → W
  drain wait delay w = if ltb 0 delay then wait delay w else w

  -- `run`, with the passing of time and `ShutdownWithContext`. The errors are those that it joins.
  unfoldable pub run : (ℕ → W → W) → Hook W → Wake → Config W → W → W × List ℕ
  unfolding run_hooks
  run wait stop (listen_error e) cfg w = (w, e ∷ [])
  run wait stop shutdown cfg w =
      let (w1, errs) = run_hooks cfg.pre_shutdown w in
      let w2 = drain wait cfg.drain_delay w1 in
      let (w3, e) = stop w2 in
      let (w4, errs') = run_hooks cfg.cleanup w3 in (w4, errs ++ note e errs')

  unfoldable pub run_graceful : (ℕ → W → W) → Hook W → Wake → ℕ → List (Hook W) → W → W × List ℕ
  unfolding run
  run_graceful wait stop wake timeout cleanup w =
      run wait stop wake
        (record { timeout = timeout; drain_delay = 0; pre_shutdown = []; cleanup = cleanup }) w

  run_hooks-append :
      (xs ys : List (Hook W)) (w : W)
      → run_hooks (xs ++ ys) w ≡ (
        (run_hooks ys (run_hooks xs w).0).0,
        (run_hooks xs w).1 ++ (run_hooks ys (run_hooks xs w).0).1,
      )
  unfolding run_hooks
  run_hooks-append [] ys w = refl
  run_hooks-append (x ∷ xs) ys w =
      let w1 = (x w).0 in
      let after = (run_hooks xs w1).0 in
      ap (λ r. (r.0, note (x w).1 r.1)) (run_hooks-append xs ys w1)
      ∙ ap (λ l. ((run_hooks ys after).0, l))
          (note-append (x w).1 (run_hooks xs w1).1 (run_hooks ys after).1)

  abbrev drain_hook : (ℕ → W → W) → ℕ → Hook W
  drain_hook wait delay w = (drain wait delay w, none)

  -- After a signal the hooks, the drain, the stop of the server and the cleanup are one sequence, of
  -- which each runs whatever those before it return, and all their errors are returned in order.
  run-run_hooks :
      (wait : ℕ → W → W) (stop : Hook W) (cfg : Config W) (w : W)
      → run wait stop shutdown cfg w
        ≡ run_hooks (cfg.pre_shutdown ++ drain_hook wait cfg.drain_delay ∷ stop ∷ cfg.cleanup) w
  unfolding run run_hooks
  run-run_hooks wait stop cfg w =
      sym
        (run_hooks-append cfg.pre_shutdown (drain_hook wait cfg.drain_delay ∷ stop ∷ cfg.cleanup) w)

-- A gate that a pre-shutdown hook closes.
module _ {W : Type 0} (gate : W → ReadinessGate) where
  abbrev pub KeepsClosed : Hook W → Type 0
  KeepsClosed h = (w : W) → (gate w).closed ≡ true → (gate (h w).0).closed ≡ true

  closed-run_hooks :
      (hooks : List (Hook W)) (w : W)
      → All KeepsClosed hooks
      → (gate w).closed ≡ true
      → (gate (run_hooks hooks w).0).closed ≡ true
  unfolding run_hooks
  closed-run_hooks [] w keeps h = h
  closed-run_hooks (x ∷ xs) w keeps h = closed-run_hooks xs (x w).0 keeps.1 (keeps.0 w h)

  closed_fails : (w : W) → (gate w).closed ≡ true → ¬ Passes w (gate_check gate)
  closed_fails w h passed = ground (arith, h)

  closed_after :
      (first later : List (Hook W)) (close : Hook W) (w : W)
      → ((v : W) → gate (close v).0 ≡ close_gate (gate v))
      → All KeepsClosed later
      → (gate (run_hooks (first ++ close ∷ later) w).0).closed ≡ true
  unfolding run_hooks
  closed_after first later close w closes keeps =
      let v = (run_hooks first w).0 in
      subst (λ r. (gate r.0).closed ≡ true) (sym (run_hooks-append first (close ∷ later) w))
        (closed-run_hooks later (close v).0 keeps (ap (λ g. g.closed) (closes v)))

  -- After a signal, with a pre-shutdown hook that closes a gate and no later hook that opens it, the
  -- drain begins in a state in which the readiness route with the check of that gate among its checks
  -- answers 503, in whatever order the checks answer; only when the drain is over, the server is
  -- stopped and the cleanup hooks run.
  pub readyz_draining :
      (provider : W → List (NamedCheck W)) (wait : ℕ → W → W) (stop : Hook W)
      (first later : List (Hook W)) (close : Hook W) (cfg : Config W) (w : W)
      (signals : List Signal)
      → 0 < cfg.drain_delay
      → cfg.pre_shutdown ≡ first ++ close ∷ later
      → ((v : W) → gate (close v).0 ≡ close_gate (gate v))
      → All KeepsClosed later
      → In (gate_check gate) (provider (run_hooks cfg.pre_shutdown w).0)
      → (draining : W) × ((readyz provider draining signals).0 ≡ 503)
        × ((run wait stop shutdown cfg w).0
            ≡ (run_hooks (stop ∷ cfg.cleanup) (wait cfg.drain_delay draining)).0)
  unfolding readyz run run_hooks
  readyz_draining provider wait stop first later close cfg w signals waits hooks closes keeps
        there =
      let w' = (run_hooks cfg.pre_shutdown w).0 in
      let shut : (gate w').closed ≡ true =
        subst (λ hs. (gate (run_hooks hs w).0).closed ≡ true) (sym hooks)
          (closed_after first later close w closes keeps) in
      let long : ltb 0 cfg.drain_delay ≡ true = ground (arith, waits) in
      (
        w',
        elim (Bool-cases (run_checks w' (provider w') signals).0) [
          | inr down ↦ rw down refl
          | inl up ↦ absurd (
              closed_fails w' shut (
                In-All (Passes w') (gate_check gate) (provider w') there
                  (run_checks-Passes w' (provider w') signals up)))
        ],
        rw long refl,
      )
