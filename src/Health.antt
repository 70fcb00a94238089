-- ===== src/Health.antt =====
-- health/health.go, health/readiness.go: readiness from named checks. The world that the checks look
-- at is a parameter, and the order in which their goroutines answer is a list of events.
pub mod Verdict
pub mod Detail
mod Examples
use fibr.Prelude.{
  ℕ, zero, suc, ◌≡◌, String, Bool, true, false, not, ◌&&◌, Option, none, some, List, [], ◌∷◌,
  if◌then◌else◌, string_cmp,
}
use fibr.Prelude.Assoc.{lookup, insert}

-- What the call of a check comes to.
pub data Outcome : Type 0 where
  passes : Outcome
  fails panics : String → Outcome

pub record NamedCheck (W : Type 0) : Type 0 where
  pub name : String
  pub fn : W → Outcome

pub record Result : Type 0 where
  pub name : String
  pub msg : String
  pub ok : Bool

-- What the select of `runChecks` receives: the answer of a goroutine, by its position among those that
-- have not answered, or the timer.
pub data Signal : Type 0 where
  arrives : ℕ → Signal
  timer : Signal

abbrev pub Details : Type 0
Details = List (String × String)

abbrev pub result_in : String → Outcome → Result
result_in name passes = record { name = name; msg = "ok"; ok = true }
result_in name (fails e) = record { name = name; msg = e; ok = false }
result_in name (panics e) = record { name = name; msg = e; ok = false }

abbrev note_timeout : Option String → String → Details → Details
note_timeout none name detail = insert name "timeout" detail
note_timeout (some msg) name detail = detail

module _ {W : Type 0} where
  abbrev pub check : String → (W → Outcome) → NamedCheck W
  check name fn = record { name = name; fn = fn }

  -- One goroutine; the text of a panic stands for "panic: " with the value.
  unfoldable pub result : W → NamedCheck W → Result
  result w chk = result_in chk.name (chk.fn w)

  -- The goroutine that answers, and the ones that are left.
  unfoldable pub pick : ℕ → NamedCheck W → List (NamedCheck W) → NamedCheck W × List (NamedCheck W)
  pick zero x xs = (x, xs)
  pick (suc i) x [] = (x, [])
  pick (suc i) x (y ∷ ys) = let (z, rest) = pick i y ys in (z, x ∷ rest)

  unfoldable pub timeouts : List (NamedCheck W) → Details → Details
  timeouts [] detail = detail
  timeouts (chk ∷ checks) detail =
      timeouts checks (note_timeout (lookup chk.name detail) chk.name detail)

  -- The loop, with the checks that have not answered; when the signals end the timer fires.
  unfoldable pub collect :
      List (NamedCheck W) → W → List Signal → List (NamedCheck W) → Bool → Details → Bool × Details
  unfolding pick timeouts result
  collect checks w signals [] all_ok detail = (all_ok, detail)
  collect checks w [] (x ∷ waiting) all_ok detail = (false, timeouts checks detail)
  collect checks w (timer ∷ signals) (x ∷ waiting) all_ok detail = (false, timeouts checks detail)
  collect checks w (arrives i ∷ signals) (x ∷ waiting) all_ok detail =
      let (chk, rest) = pick i x waiting in
      let r = result w chk in
      collect checks w signals rest (all_ok && r.ok) (insert r.name r.msg detail)

  unfoldable pub run_checks : W → List (NamedCheck W) → List Signal → Bool × Details
  unfolding collect
  run_checks w checks signals = collect checks w signals checks true []

  -- The reply of the readiness endpoint: its status code and the details.
  unfoldable pub readyz : (W → List (NamedCheck W)) → W → List Signal → ℕ × Details
  unfolding run_checks
  readyz provider w signals =
      let (ok, detail) = run_checks w (provider w) signals in ((if ok then 200 else 503), detail)

-- A gate is its field `closed`; `gate` finds it in the world.
pub record ReadinessGate : Type 0 where
  pub closed : Bool

abbrev pub new_readiness_gate : ReadinessGate
new_readiness_gate = record { closed = false }

abbrev pub close_gate : ReadinessGate → ReadinessGate
close_gate g = record g { closed = true }

abbrev pub open_gate : ReadinessGate → ReadinessGate
open_gate g = record g { closed = false }

abbrev pub ready : ReadinessGate → Bool
ready g = not g.closed

abbrev pub gate_check : {W : Type 0} → (W → ReadinessGate) → NamedCheck W
gate_check gate = record {
  name = "readiness";
  fn = λ w. if (gate w).closed then fails "draining" else passes;
}
