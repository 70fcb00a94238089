-- ===== src/Retry.antt =====
-- retry/retry.go: running a function again until it succeeds. The function, the context, the timer and
-- the delay before a retry (floating point) are parameters that act on the state of the world.
mod Examples
use fibr.Prelude.{
  ℕ, zero, suc, subst, ◌-◌, ◌+◌, ◌≤◌, ◌≡◌, refl, ap, ◌∙◌, sym, Bool, true, false, not, ◌||◌, Option,
  none, some, List, [], ◌∷◌, arith, if◌then◌else◌, ◌==◌, nat_cmp, ltb, ◌⊎◌, inl, inr, Option-cases,
  Bool-cases,
}
use fibr.Prelude.Int.{ℤ, pos, negsuc, pos_part, ltb_ℤ}

pub record Config (E : Type 0) : Type 0 where
  pub attempts : ℤ
  pub retry_if : E → Bool

abbrev pub with_attempts : {E : Type 0} → ℤ → Config E → Config E
with_attempts n c = record c { attempts = n }

abbrev pub with_retry_if : {E : Type 0} → (E → Bool) → Config E → Config E
with_retry_if p c = record c { retry_if = p }

unfoldable pub apply_options : {E : Type 0} → List (Config E → Config E) → Config E → Config E
apply_options [] c = c
apply_options (opt ∷ opts) c = apply_options opts (opt c)

unfoldable pub new_config : {E : Type 0} → List (Config E → Config E) → Config E
unfolding apply_options
new_config opts =
    let c = apply_options opts (record { attempts = pos 3; retry_if = λ e. true }) in
    if ltb_ℤ c.attempts (pos 1) then record c { attempts = pos 1 } else c

-- What a retry runs in: `ctx.Err`, the timer, which ends with the context's error, and the delay before
-- the retry that follows an attempt.
pub record Runtime (W E : Type 0) : Type 0 where
  pub ctx_err : W → Option E
  pub wait : ℤ → W → W × Option E
  pub backoff : ℕ → ℤ

module _ {W E : Type 0} (rt : Runtime W E) where
  -- `sleep`
  unfoldable pub sleep : ℤ → W → W × Option E
  sleep d w = if ltb_ℤ (pos 0) d then rt.wait d w else (w, none)

  module _ (retry_if : E → Bool) (fn : W → W × Option E) where
    -- The attempts left, and the number of the next one.
    unfoldable pub attempt_loop : ℕ → ℕ → Option E → W → W × Option E
    unfolding sleep
    attempt_loop zero i last w = (w, last)
    attempt_loop (suc n) i last w =
        let (w1, failed) = fn w in
        let (w2, over) = sleep (rt.backoff i) w1 in
        let again = attempt_loop n (suc i) failed w2 in
        elim (rt.ctx_err w) [
          | some e ↦ (w, some e)
          | none ↦ elim failed [
            | none ↦ (w1, none)
            | some e ↦
                if n == 0 || not (retry_if e)
                then (w1, some e)
                else elim over [ some e' ↦ (w2, some e') | none ↦ again ]
          ]
        ]

  -- `Do`
  unfoldable pub retry : List (Config E → Config E) → (W → W × Option E) → W → W × Option E
  unfolding new_config attempt_loop
  retry opts fn w =
      let c = new_config opts in attempt_loop c.retry_if fn (pos_part c.attempts) 0 none w

  -- `DoValue`: the value that the function stored, and none on an error.
  unfoldable pub do_value :
      {T : Type 0}
      → (W → Option T)
      → List (Config E → Config E)
      → (W → W × Option E)
      → W
      → W × Option T × Option E
  unfolding retry
  do_value value opts fn w =
      let (w', e) = retry opts fn w in
      elim e [ none ↦ (w', value w', none) | some x ↦ (w', none, some x) ]

  positive_attempts :
      (opts : List (Config E → Config E)) → (n : ℕ) × (pos_part (new_config opts).attempts ≡ suc n)
  unfolding new_config
  positive_attempts opts = (pos_part (new_config opts).attempts - 1, ground arith)

  loop-succeeds :
      (retry_if : E → Bool) (fn : W → W × Option E) (n i : ℕ) (last : Option E) (w w' : W)
      → attempt_loop retry_if fn (suc n) i last w ≡ (w', none)
      → (v : W) × (fn v ≡ (w', none))
  unfolding attempt_loop
  loop-succeeds retry_if fn zero i last w w' h = (w, ground arith)
  loop-succeeds retry_if fn (suc n) i last w w' h = elim (Option-cases (fn w).1) [
    | inl ok ↦ (w, ground arith)
    | inr (e, bad) ↦
        loop-succeeds retry_if fn n (suc i) (some e) (sleep (rt.backoff i) (fn w).0).0 w'
          (ground arith)
  ]

  -- `Do` returns nil only when a call of the function has just succeeded: the world is as that call
  -- left it.
  retry_succeeds :
      (opts : List (Config E → Config E)) (fn : W → W × Option E) (w w' : W)
      → retry opts fn w ≡ (w', none)
      → (v : W) × (fn v ≡ (w', none))
  unfolding retry
  retry_succeeds opts fn w w' h =
      let (n, e) = positive_attempts opts in
      let c = new_config opts in
      loop-succeeds c.retry_if fn n 0 none w w'
        (subst (λ k. attempt_loop c.retry_if fn k 0 none w ≡ (w', none)) e h)

  -- The number of calls, where each call adds one and waiting adds none.
  loop-calls :
      (retry_if : E → Bool) (fn : W → W × Option E) (calls : W → ℕ)
      → ((v : W) → calls (fn v).0 ≡ suc (calls v))
      → ((d : ℤ) (v : W) → calls (rt.wait d v).0 ≡ calls v)
      → (n i : ℕ) (last : Option E) (w : W)
      → calls (attempt_loop retry_if fn n i last w).0 ≤ calls w + n
  unfolding attempt_loop sleep
  loop-calls retry_if fn calls one idle zero i last w = omega arith
  loop-calls retry_if fn calls one idle (suc n) i last w = ground (
    arith,
    one w,
    idle (rt.backoff i) (fn w).0,
    loop-calls retry_if fn calls one idle n (suc i) (fn w).1 (sleep (rt.backoff i) (fn w).0).0,
  )

  -- `Do` calls the function at most as often as the configured attempts, and at least one is
  -- configured, where a call counts one and waiting none.
  retry_calls :
      (opts : List (Config E → Config E)) (fn : W → W × Option E) (calls : W → ℕ)
      → ((v : W) → calls (fn v).0 ≡ suc (calls v))
      → ((d : ℤ) (v : W) → calls (rt.wait d v).0 ≡ calls v)
      → (w : W)
      → (calls (retry opts fn w).0 ≤ calls w + pos_part (new_config opts).attempts)
        × (1 ≤ pos_part (new_config opts).attempts)
  unfolding retry
  retry_calls opts fn calls one idle w =
      let (n, e) = positive_attempts opts in
      let c = new_config opts in
      (loop-calls c.retry_if fn calls one idle (pos_part c.attempts) 0 none w, omega arith)
