-- ===== src/Retry/Examples.antt =====
-- Tests of retry: a function that fails twice and then succeeds.
use fibr.Prelude.{ℕ, suc, ◌≡◌, refl, ltb, if◌then◌else◌, Option, none, some, List, [], ◌∷◌}
use fibr.Prelude.Int.{pos}
use fibr.Retry.{
  Config, Runtime, retry, with_attempts, new_config, apply_options, attempt_loop, sleep,
}

-- The world is the number of calls.
abbrev patient : Runtime ℕ ℕ
patient = record { ctx_err = λ w. none; wait = λ d w. (w, none); backoff = λ i. pos 100 }

abbrev third_time : ℕ → ℕ × Option ℕ
third_time w = (suc w, if ltb w 2 then some 7 else none)

abbrev options : List (Config ℕ → Config ℕ)
options = with_attempts (pos 5) ∷ []

three_calls : retry patient options third_time 0 ≡ (3, none)
unfolding retry attempt_loop new_config apply_options sleep
three_calls = refl
