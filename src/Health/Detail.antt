-- ===== src/Health/Detail.antt =====
-- health/health.go: what the reply says of each check.
use fibr.Prelude.{
  ◌≡◌, refl, subst, String, Bool, true, ◌&&◌, Option, none, some, List, [], ◌∷◌, All, ◌==◌,
  string_cmp, eqb_refl, Bool-cases, inl, inr, arith,
}
use fibr.Prelude.Assoc.{lookup, insert, lookup-insert}
use fibr.Health.{
  Outcome, passes, fails, panics, NamedCheck, Signal, arrives, timer, Details, result, result_in,
  pick, collect, run_checks, timeouts, note_timeout,
}
use fibr.Health.Verdict.{pick-All, All-pick}

-- The reply has an entry for the name.
abbrev pub Told : Details → String → Type 0
Told detail name = (msg : String) × (lookup name detail ≡ some msg)

Told-insert :
    (name other msg : String) (detail : Details)
    → Told detail name
    → Told (insert other msg detail) name
Told-insert name other msg detail (m, h) = elim (Bool-cases (other == name)) [
  | inl same ↦ (msg, ground (arith, same, lookup-insert other name msg detail))
  | inr not_same ↦ (m, ground (arith, not_same, h, lookup-insert other name msg detail))
]

Told-inserted : (name msg : String) (detail : Details) → Told (insert name msg detail) name
Told-inserted name msg detail =
    (msg, ground (arith, eqb_refl name, lookup-insert name name msg detail))

Told-note_timeout :
    (name other : String) (seen : Option String) (detail : Details)
    → Told detail name
    → Told (note_timeout seen other detail) name
Told-note_timeout name other none detail h = Told-insert name other "timeout" detail h
Told-note_timeout name other (some m) detail h = h

Told-noted :
    (name : String) (seen : Option String) (detail : Details)
    → lookup name detail ≡ seen
    → Told (note_timeout seen name detail) name
Told-noted name none detail h = Told-inserted name "timeout" detail
Told-noted name (some m) detail h = (m, h)

name-result_in : (name : String) (o : Outcome) → (result_in name o).name ≡ name
name-result_in name passes = refl
name-result_in name (fails e) = refl
name-result_in name (panics e) = refl

module _ {W : Type 0} where
  Told-timeouts :
      (name : String) (checks : List (NamedCheck W)) (detail : Details)
      → Told detail name
      → Told (timeouts checks detail) name
  unfolding timeouts
  Told-timeouts name [] detail h = h
  Told-timeouts name (chk ∷ checks) detail h =
      Told-timeouts name checks _
        (Told-note_timeout name chk.name (lookup chk.name detail) detail h)

  timeouts-All :
      (checks : List (NamedCheck W)) (detail : Details)
      → All (λ chk. Told (timeouts checks detail) chk.name) checks
  unfolding timeouts
  timeouts-All [] detail = tt
  timeouts-All (chk ∷ checks) detail = (
    Told-timeouts chk.name checks _ (Told-noted chk.name (lookup chk.name detail) detail refl),
    timeouts-All checks _,
  )

  -- What was told stays told.
  collect_tells :
      (checks : List (NamedCheck W)) (w : W) (signals : List Signal) (waiting : List (NamedCheck W))
      (all_ok : Bool) (detail : Details) (name : String)
      → Told detail name
      → Told (collect checks w signals waiting all_ok detail).1 name
  unfolding collect
  collect_tells checks w signals [] all_ok detail name h = h
  collect_tells checks w [] (x ∷ waiting) all_ok detail name h = Told-timeouts name checks detail h
  collect_tells checks w (timer ∷ signals) (x ∷ waiting) all_ok detail name h =
      Told-timeouts name checks detail h
  collect_tells checks w (arrives i ∷ signals) (x ∷ waiting) all_ok detail name h =
      let r = result w (pick i x waiting).0 in
      collect_tells checks w signals (pick i x waiting).1 (all_ok && r.ok)
        (insert r.name r.msg detail) name (Told-insert name r.name r.msg detail h)

  name-result : (w : W) (chk : NamedCheck W) → (result w chk).name ≡ chk.name
  unfolding result
  name-result w chk = name-result_in chk.name (chk.fn w)

  abbrev Within : List (NamedCheck W) → List (NamedCheck W) → Type 1
  Within waiting checks = (P : NamedCheck W → Type 0) → All P checks → All P waiting

  collect-Told :
      (checks : List (NamedCheck W)) (w : W) (signals : List Signal) (waiting : List (NamedCheck W))
      (all_ok : Bool) (detail : Details)
      → Within waiting checks
      → All (λ chk. Told (collect checks w signals waiting all_ok detail).1 chk.name) waiting
  unfolding collect
  collect-Told checks w signals [] all_ok detail inside = tt
  collect-Told checks w [] (x ∷ waiting) all_ok detail inside =
      inside (λ chk. Told (timeouts checks detail) chk.name) (timeouts-All checks detail)
  collect-Told checks w (timer ∷ signals) (x ∷ waiting) all_ok detail inside =
      inside (λ chk. Told (timeouts checks detail) chk.name) (timeouts-All checks detail)
  collect-Told checks w (arrives i ∷ signals) (x ∷ waiting) all_ok detail inside =
      let chk = (pick i x waiting).0 in
      let rest = (pick i x waiting).1 in
      let r = result w chk in
      let detail' = insert r.name r.msg detail in
      pick-All _ i x waiting
        (collect_tells checks w signals rest (all_ok && r.ok) detail' chk.name
          (subst (Told detail') (name-result w chk) (Told-inserted r.name r.msg detail)))
        (collect-Told checks w signals rest (all_ok && r.ok) detail'
          (λ P h. let (p, ps) = inside P h in (All-pick P i x waiting p ps).1))

  -- The reply tells something of every check, by its name, also of those that the timer cut off.
  run_checks-Told :
      (w : W) (checks : List (NamedCheck W)) (signals : List Signal)
      → All (λ chk. Told (run_checks w checks signals).1 chk.name) checks
  unfolding run_checks
  run_checks-Told w checks signals = collect-Told checks w signals checks true [] (λ P h. h)
