-- ===== src/Health/Verdict.antt =====
-- health/health.go: when the service is ready.
use fibr.Prelude.{
  ℕ, zero, suc, ◌≡◌, refl, String, Bool, true, ◌&&◌, List, [], ◌∷◌, All, length, ◌↔◌, arith,
}
use fibr.Prelude.Assoc.{insert}
use fibr.Prelude.{string_cmp}
use fibr.Health.{
  NamedCheck, Signal, arrives, timer, Details, passes, fails, panics, Outcome, result, result_in,
  pick, collect, run_checks,
}

Outcome-passes : (name : String) (o : Outcome) → (result_in name o).ok ≡ true → o ≡ passes
Outcome-passes name passes h = refl
Outcome-passes name (fails e) h = absurd (ground arith)
Outcome-passes name (panics e) h = absurd (ground arith)

-- The first `n` signals are answers.
abbrev pub Answers : ℕ → List Signal → Type 0
Answers zero signals = Unit
Answers (suc n) [] = ⊥
Answers (suc n) (timer ∷ signals) = ⊥
Answers (suc n) (arrives i ∷ signals) = Answers n signals

module _ {W : Type 0} where
  -- The check lets the service be ready.
  abbrev pub Passes : W → NamedCheck W → Type 0
  Passes w chk = chk.fn w ≡ passes

  ok-Passes : (w : W) (chk : NamedCheck W) → (result w chk).ok ≡ true → Passes w chk
  unfolding result
  ok-Passes w chk h = Outcome-passes chk.name (chk.fn w) h

  Passes-ok : (w : W) (chk : NamedCheck W) → Passes w chk → (result w chk).ok ≡ true
  unfolding result
  Passes-ok w chk h = rw h refl

  pub pick-All :
      (P : NamedCheck W → Type 0) (i : ℕ) (x : NamedCheck W) (xs : List (NamedCheck W))
      → P (pick i x xs).0
      → All P (pick i x xs).1
      → P x × All P xs
  unfolding pick
  pick-All P zero x xs h hs = (h, hs)
  pick-All P (suc i) x [] h hs = (h, tt)
  pick-All P (suc i) x (y ∷ ys) h hs = (hs.0, pick-All P i y ys h hs.1)

  pub All-pick :
      (P : NamedCheck W → Type 0) (i : ℕ) (x : NamedCheck W) (xs : List (NamedCheck W))
      → P x
      → All P xs
      → P (pick i x xs).0 × All P (pick i x xs).1
  unfolding pick
  All-pick P zero x xs h hs = (h, hs)
  All-pick P (suc i) x [] h hs = (h, tt)
  All-pick P (suc i) x (y ∷ ys) h hs = let (a, b) = All-pick P i y ys hs.0 hs.1 in (a, (h, b))

  length-pick :
      (i : ℕ) (x : NamedCheck W) (xs : List (NamedCheck W)) → length (pick i x xs).1 ≡ length xs
  unfolding pick
  length-pick zero x xs = refl
  length-pick (suc i) x [] = refl
  length-pick (suc i) x (y ∷ ys) = omega (arith, length-pick i y ys)

  collect_ready :
      (checks : List (NamedCheck W)) (w : W) (signals : List Signal) (waiting : List (NamedCheck W))
      (all_ok : Bool) (detail : Details)
      → (collect checks w signals waiting all_ok detail).0 ≡ true
      → (all_ok ≡ true) × All (Passes w) waiting
  unfolding collect
  collect_ready checks w signals [] all_ok detail h = (h, tt)
  collect_ready checks w [] (x ∷ waiting) all_ok detail h = absurd (ground arith)
  collect_ready checks w (timer ∷ signals) (x ∷ waiting) all_ok detail h = absurd (ground arith)
  collect_ready checks w (arrives i ∷ signals) (x ∷ waiting) all_ok detail h =
      let chk = (pick i x waiting).0 in
      let (both, rest) =
        collect_ready checks w signals (pick i x waiting).1 (all_ok && (result w chk).ok)
          (insert (result w chk).name (result w chk).msg detail) h in
      let (ok, passed) : (all_ok ≡ true) × ((result w chk).ok ≡ true) = ground arith in
      (ok, pick-All (Passes w) i x waiting (ok-Passes w chk passed) rest)

  collect-Passes :
      (checks : List (NamedCheck W)) (w : W) (signals : List Signal) (n : ℕ)
      (waiting : List (NamedCheck W)) (all_ok : Bool) (detail : Details)
      → all_ok ≡ true
      → length waiting ≡ n
      → Answers n signals
      → All (Passes w) waiting
      → (collect checks w signals waiting all_ok detail).0 ≡ true
  unfolding collect
  collect-Passes checks w signals n [] all_ok detail ok count answers all = ok
  collect-Passes checks w [] zero (x ∷ waiting) all_ok detail ok count answers all =
      absurd (omega (arith, count))
  collect-Passes checks w [] (suc n) (x ∷ waiting) all_ok detail ok count answers all =
      absurd answers
  collect-Passes checks w (timer ∷ signals) zero (x ∷ waiting) all_ok detail ok count answers all =
      absurd (omega (arith, count))
  collect-Passes checks w (timer ∷ signals) (suc n) (x ∷ waiting) all_ok detail ok count answers
        all =
      absurd answers
  collect-Passes checks w (arrives i ∷ signals) zero (x ∷ waiting) all_ok detail ok count answers
        all =
      absurd (omega (arith, count))
  collect-Passes checks w (arrives i ∷ signals) (suc n) (x ∷ waiting) all_ok detail ok count answers
        all =
      let (passed, rest) = All-pick (Passes w) i x waiting all.0 all.1 in
      let fine = Passes-ok w (pick i x waiting).0 passed in
      collect-Passes checks w signals n (pick i x waiting).1 _ _ (ground (arith, fine))
        (omega (arith, count, length-pick i x waiting)) answers rest

  -- Checks that are found to be in order have all passed, in whatever order they answered.
  pub run_checks-Passes :
      (w : W) (checks : List (NamedCheck W)) (signals : List Signal)
      → (run_checks w checks signals).0 ≡ true
      → All (Passes w) checks
  unfolding run_checks
  run_checks-Passes w checks signals h = (collect_ready checks w signals checks true [] h).1

  Passes-run_checks :
      (w : W) (checks : List (NamedCheck W)) (signals : List Signal)
      → Answers (length checks) signals
      → All (Passes w) checks
      → (run_checks w checks signals).0 ≡ true
  unfolding run_checks
  Passes-run_checks w checks signals answers all =
      collect-Passes checks w signals (length checks) checks true [] refl refl answers all

  -- Where all checks answer before the timer, they are found to be in order exactly if every one of
  -- them passes, in whatever order they answer.
  pub run_checks_iff :
      (w : W) (checks : List (NamedCheck W)) (signals : List Signal)
      → Answers (length checks) signals
      → ((run_checks w checks signals).0 ≡ true) ↔ All (Passes w) checks
  run_checks_iff w checks signals answers =
      (run_checks-Passes w checks signals, Passes-run_checks w checks signals answers)
