-- ===== src/Http/Breaker.antt =====
-- http/breaker.go. The clock's value is an argument, in nanoseconds.
use fibr.Prelude.{
  List, [], ◌∷◌, length, suc, refl, ap, ◌∙◌, ℕ, ◌+◌, ◌≤◌, ◌<◌, ◌≡◌, Bool, true, false, arith, leb,
  if◌then◌else◌,
}
use fibr.Prelude.Int.{ℤ, pos, pos_part, neg_part, ltb_ℤ}

pub data BreakerState : Type 0 where
  breaker_closed breaker_open breaker_half_open : BreakerState

pub record Breaker : Type 0 where
  pub max_failures : ℕ
  pub open_timeout : ℤ
  pub state : BreakerState
  pub failures : ℕ
  pub opened_at : ℕ

-- The bound is an `int`; what is below 1 is raised to 1.
abbrev pub clamp_failures : ℤ → ℕ
clamp_failures n = if ltb_ℤ n (pos 1) then 1 else pos_part n

pub new_breaker : ℤ → ℤ → Breaker
new_breaker max_failures open_timeout = record {
  max_failures = clamp_failures max_failures;
  open_timeout = open_timeout;
  state = breaker_closed;
  failures = 0;
  opened_at = 0;
}

-- `now.Sub(openedAt) >= openTimeout`
abbrev pub timed_out : ℕ → Breaker → Bool
timed_out now b = leb (pos_part b.open_timeout + b.opened_at) (now + neg_part b.open_timeout)

allow_in : BreakerState → ℕ → Breaker → Breaker × Bool
allow_in breaker_open now b =
    if timed_out now b then (record b { state = breaker_half_open }, true) else (b, false)
allow_in breaker_closed now b = (b, true)
allow_in breaker_half_open now b = (b, false)

unfoldable pub allow : ℕ → Breaker → Breaker × Bool
unfolding allow_in
allow now b = allow_in b.state now b

unfoldable pub on_success : Breaker → Breaker
on_success b = record b { failures = 0; state = breaker_closed }

trip : ℕ → Breaker → Breaker
trip now b = record b { state = breaker_open; opened_at = now }

on_failure_in : BreakerState → ℕ → Breaker → Breaker
unfolding trip
on_failure_in breaker_half_open now b = trip now b
on_failure_in _ now b =
    let b' = record b { failures = b.failures + 1 } in
    if leb b'.max_failures b'.failures then trip now b' else b'

unfoldable pub on_failure : ℕ → Breaker → Breaker
unfolding on_failure_in
on_failure now b = on_failure_in b.state now b

-- Between two calls a closed breaker has room for one more failure at least.
pub record Inv (b : Breaker) : Type 0 where
  pub positive : 1 ≤ b.max_failures
  pub room : b.state ≡ breaker_closed → b.failures < b.max_failures

pub new_breaker-Inv : (n timeout : ℤ) → Inv (new_breaker n timeout)
unfolding new_breaker
new_breaker-Inv n timeout = ground arith

-- What happens to a breaker: a request asks to pass, and outcomes come in, in any order.
pub data Event : Type 0 where
  asks succeeds fails : Event

unfoldable pub step : Breaker → ℕ × Event → Breaker
unfolding allow on_success on_failure
step b (now, asks) = (allow now b).0
step b (now, succeeds) = on_success b
step b (now, fails) = on_failure now b

pub step-Inv : (b : Breaker) (e : ℕ × Event) → Inv b → Inv (step b e)
unfolding step
step-Inv b (now, asks) v = ground arith
step-Inv b (now, succeeds) v = ground arith
step-Inv b (now, fails) v = ground arith

-- How many of the requests that ask at these times, with no outcome between them, may pass.
pub passes : Breaker → List ℕ → ℕ
passes b [] = 0
passes b (now ∷ times) =
    let (b', passed) = allow now b in (if passed then 1 else 0) + passes b' times

passes_half_open : (b : Breaker) (times : List ℕ) → b.state ≡ breaker_half_open → passes b times ≡ 0
unfolding passes allow
passes_half_open b [] h = refl
passes_half_open b (now ∷ times) h = ground (arith, passes_half_open b times h)

-- From an open breaker a single probe passes at most, however many requests ask, as long as no outcome
-- of a request, of the probe or of an earlier one, comes between them.
pub passes_open : (b : Breaker) (times : List ℕ) → b.state ≡ breaker_open → passes b times ≤ 1
unfolding passes allow
passes_open b [] h = omega arith
passes_open b (now ∷ times) h = ground (
  arith,
  passes_open b times h,
  passes_half_open (record b { state = breaker_half_open }) times refl,
)

-- Failures at these times, with no success between them.
pub fail_all : List ℕ → Breaker → Breaker
fail_all [] b = b
fail_all (now ∷ times) b = fail_all times (on_failure now b)

on_failure_closed :
    (now : ℕ) (b : Breaker)
    → b.state ≡ breaker_closed
    → b.failures + 1 < b.max_failures
    → on_failure now b ≡ record b { failures = b.failures + 1 }
unfolding on_failure
on_failure_closed now b h room = ground arith

fail_all_closed :
    (times : List ℕ) (b : Breaker)
    → b.state ≡ breaker_closed
    → b.failures + length times < b.max_failures
    → fail_all times b ≡ record b { failures = b.failures + length times }
unfolding fail_all
fail_all_closed [] b h room = ground arith
fail_all_closed (t ∷ times) b h room =
    rw (on_failure_closed t b h (omega arith), fail_all)
      (fail_all_closed times (record b { failures = b.failures + 1 }) h (omega arith)
        ∙ ap (λ n. record b { failures = n }) (omega arith))

-- A closed breaker lets requests pass through `max_failures - 1` failures in a row, and opens at
-- the next one, at the time of that failure.
fail_all_trips :
    (times : List ℕ) (now : ℕ) (b : Breaker)
    → b.state ≡ breaker_closed
    → b.failures + suc (length times) ≡ b.max_failures
    → ((fail_all times b).state ≡ breaker_closed)
      × ((on_failure now (fail_all times b)).state ≡ breaker_open)
      × ((on_failure now (fail_all times b)).opened_at ≡ now)
unfolding on_failure
fail_all_trips times now b h full =
    rw (fail_all_closed times b h (omega arith)) (h, ground arith, ground arith)
