-- ===== src/Http/Examples.antt =====
-- Tests of the client, with a transport that answers from a script.
use fibr.Prelude.{ℕ, suc, ◌≤◌, ◌≡◌, refl, false, Option, none, some, List, [], ◌∷◌, arith}
use fibr.Prelude.Int.{pos, ◌+ℤ◌}
use fibr.Http.Breaker.{
  Breaker, breaker_open, breaker_closed, step, Inv, step-Inv, fails, passes, passes_open,
}
use fibr.Http.Client.{
  Transport, Client, Response, Result, Error, answered, unanswered, result, other,
  request_raw_attempts,
}
use fibr.Http.Client.Retries.{Counted, Failing}

-- The answers still to come, and how many requests were sent.
record World : Type 0 where
  script : List Response
  sent : ℕ

abbrev next : List Response → Response
next [] = answered 503 "down"
next (r ∷ rs) = r

abbrev rest : List Response → List Response
rest [] = []
rest (r ∷ rs) = rs

abbrev scripted : Option Error → Transport World
scripted over = record {
  send = λ r l w. (record { script = rest w.script; sent = suc w.sent }, next w.script);
  ctx_err = λ w. over;
  ctx_deadline = λ w. none;
  sleep = λ d w. (w, none);
  clock = λ w. 100;
  decode = λ s. none;
}

abbrev closed_breaker : Breaker
closed_breaker = record {
  max_failures = 2;
  open_timeout = pos 30;
  state = breaker_closed;
  failures = 0;
  opened_at = 0;
}

abbrev open_breaker : Breaker
open_breaker = record {
  max_failures = 2;
  open_timeout = pos 30;
  state = breaker_open;
  failures = 2;
  opened_at = 90;
}

abbrev client : Option Breaker → Client World
client b = record {
  base_url = "http://a";
  headers = [];
  ctx_headers = [];
  timeout = pos 0;
  retries = pos 2;
  backoff = pos 5;
  breaker = b;
}

abbrev start : List Response → World
start rs = record { script = rs; sent = 0 }

counted : Counted (scripted none) (λ w. w.sent)
counted = record { send_one = λ r l w. refl; sleep_none = λ d w. refl }

flaky : List Response
flaky = answered 500 "oops" ∷ unanswered (other 7) ∷ answered 200 "{}" ∷ []

-- Two failures and a success: three requests are sent.
retries_through :
    request_raw_attempts (scripted none) (client none) "GET" "/x" none "" false (start flaky)
    ≡ (record { script = []; sent = 3 }, result 200 none)
unfolding flaky request_raw_attempts ◌+ℤ◌
retries_through = refl

passes_open_example : passes open_breaker (100 ∷ 130 ∷ 131 ∷ []) ≤ 1
passes_open_example = passes_open open_breaker (100 ∷ 130 ∷ 131 ∷ []) refl

step-Inv_example : Inv (step closed_breaker (3, fails))
step-Inv_example = step-Inv closed_breaker (3, fails) (omega arith)

abbrev fine : World × Result
unfolding request_raw_attempts
fine =
    request_raw_attempts (scripted none) (client none) "GET" "/x" none "" false
      (start (answered 204 "" ∷ []))

-- A server that is down.
abbrev down : Transport ℕ
down = record {
  send = λ r l w. (suc w, answered 503 "down");
  ctx_err = λ w. none;
  ctx_deadline = λ w. some 9;
  sleep = λ d w. (w, none);
  clock = λ w. w;
  decode = λ s. none;
}

down-Counted : Counted down (λ w. w)
down-Counted = record { send_one = λ r l w. refl; sleep_none = λ d w. refl }

down-Failing : Failing down
down-Failing = record {
  alive = λ w. refl;
  awake = λ d w. refl;
  refuses = λ r l w. (503, "down", refl, omega arith);
}

abbrev patient : Client ℕ
patient = record {
  base_url = "http://a";
  headers = [];
  ctx_headers = [];
  timeout = pos 0;
  retries = pos 4;
  backoff = pos 5;
  breaker = none;
}

abbrev one_left : Breaker
one_left = record closed_breaker { failures = 1 }
