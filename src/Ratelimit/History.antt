-- ===== src/Ratelimit/History.antt =====
-- ratelimit/ratelimit.go: histories of calls for many keys.
use fibr.Prelude.{
  ℕ, ◌+◌, ◌*◌, ◌≤◌, ◌<◌, ◌≡◌, refl, sym, subst, Bool, true, false, Option, none, some, List, [],
  ◌∷◌, ◌++◌, if◌then◌else◌, ◌==◌, arith, inl, inr, Bool-cases,
}
use fibr.Prelude.Int.{ℤ}
use fibr.Prelude.Bytes.{Bytes, bytes_cmp}
use fibr.Prelude.Assoc.{lookup, lookup-insert, lookup-insert_self}
use fibr.Ratelimit.{
  Rule, Bucket, Server, Link, answers, loses_reply, refuses, key_prefix, at_least_one, live, fits,
  refilled, token_bucket, run_script, eval, allow,
}
use fibr.Ratelimit.Bound.{
  Kept, available, available_grows, available-token_bucket, token_bucket-Kept, add_mul,
}

-- A call, `wait` milliseconds after the one before it.
pub record Call : Type 0 where
  pub wait : ℕ
  pub link : Link
  pub key : Bytes
  pub cost : ℤ

abbrev pub waited : List Call → ℕ
waited [] = 0
waited (c ∷ cs) = c.wait + waited cs

abbrev charge : Bool → ℕ → ℕ
charge true cost = cost
charge false cost = 0

abbrev pub runs : Link → Bool
runs answers = true
runs loses_reply = true
runs refuses = false

module _ (scale : ℕ) (rule : Rule) (k : Bytes) where
  -- The tokens that the script grants from the bucket `k` in a call at time `t`.
  abbrev pub grant : ℕ → Call → Server → ℕ
  grant t c s =
      let cost = at_least_one c.cost in
      if runs c.link
      then if (key_prefix ++ c.key) == k
        then charge (fits scale rule t cost (live t (lookup (key_prefix ++ c.key) s))) cost
        else 0
      else 0

  abbrev pub after_call : ℕ → Call → Server → Server
  after_call t c s = (allow scale c.link s c.key rule c.cost t).0

  abbrev pub granted : ℕ → List Call → Server → ℕ
  granted t [] s = 0
  granted t (c ∷ cs) s =
      grant (t + c.wait) c s + granted (t + c.wait) cs (after_call (t + c.wait) c s)

module _ (scale : ℕ) (rule : Rule) (flows : 0 < rule.rate) (k : Bytes) where
  abbrev left : ℕ → Server → ℕ
  left t s = available scale rule flows t (lookup k s)

  abbrev KeptIn : ℕ → Server → Type 0
  KeptIn t s = Kept scale rule flows t (lookup k s)

  Kept-later :
      (t w : ℕ) (found : Option Bucket)
      → Kept scale rule flows t found
      → Kept scale rule flows (t + w) found
  Kept-later t w none h = tt
  Kept-later t w (some b) h = (omega arith, h.1)

  charge_mul : (b : Bool) (cost : ℕ) → charge b cost * scale ≡ (if b then cost * scale else 0)
  charge_mul true cost = refl
  charge_mul false cost = omega arith

  -- The script at the key, and at another one.
  run_script_same :
      (t cost : ℕ) (s : Server)
      → (charge (fits scale rule t cost (live t (lookup k s))) cost * scale
            + left t (run_script scale s k rule t cost)
          ≡ left t s)
        × KeptIn t (run_script scale s k rule t cost)
  run_script_same t cost s =
      let v = live t (lookup k s) in
      rw (lookup-insert_self k (token_bucket scale rule t cost v) s) (
        omega (
          arith,
          charge_mul (fits scale rule t cost v) cost,
          available-token_bucket scale rule flows t cost v,
        ),
        token_bucket-Kept scale rule flows t cost v,
      )

  run_script_own :
      (t cost : ℕ) (key : Bytes) (s : Server)
      → (key == k) ≡ true
      → (charge (fits scale rule t cost (live t (lookup key s))) cost * scale
            + left t (run_script scale s key rule t cost)
          ≡ left t s)
        × KeptIn t (run_script scale s key rule t cost)
  run_script_own t cost key s own =
      subst
        (λ key.
          (charge (fits scale rule t cost (live t (lookup key s))) cost * scale
              + left t (run_script scale s key rule t cost)
            ≡ left t s)
          × KeptIn t (run_script scale s key rule t cost))
        (sym ((bytes_cmp.eqb_iff key k).0 own)) (run_script_same t cost s)

  run_script_other :
      (t cost : ℕ) (key : Bytes) (s : Server)
      → (key == k) ≡ false
      → lookup k (run_script scale s key rule t cost) ≡ lookup k s
  run_script_other t cost key s other =
      ground (arith, lookup-insert key k (token_bucket scale rule t cost (live t (lookup key s))) s)

  abbrev Settled : ℕ → ℕ → Server → Server → Type 0
  Settled t taken s s' = (taken * scale + left t s' ≡ left t s) × KeptIn t s'

  unmoved : (t : ℕ) (s : Server) → KeptIn t s → Settled t 0 s s
  unmoved t s h = (omega arith, h)

  run_script-Settled :
      (key : Bytes) (cost t : ℕ) (s : Server)
      → KeptIn t s
      → Settled t
          (if key == k then charge (fits scale rule t cost (live t (lookup key s))) cost else 0)
          s
          (run_script scale s key rule t cost)
  run_script-Settled key cost t s h = elim (Bool-cases (key == k)) [
    | inl own ↦ rw own (run_script_own t cost key s own)
    | inr other ↦ rw (other, run_script_other t cost key s other) (unmoved t s h)
  ]

  eval-Settled :
      (link : Link) (key : Bytes) (cost t : ℕ) (s : Server)
      → KeptIn t s
      → Settled t
          (if runs link
            then if key == k
              then charge (fits scale rule t cost (live t (lookup key s))) cost
              else 0
            else 0)
          s
          (eval scale link s key rule t cost).0
  eval-Settled answers key cost t s h = run_script-Settled key cost t s h
  eval-Settled loses_reply key cost t s h = run_script-Settled key cost t s h
  eval-Settled refuses key cost t s h = unmoved t s h

  granted-left :
      (t : ℕ) (cs : List Call) (s : Server)
      → KeptIn t s
      → granted scale rule k t cs s * scale ≤ left t s + waited cs * rule.rate
  unfolding allow
  granted-left t [] s h = omega arith
  granted-left t (c ∷ cs) s h =
      let now = t + c.wait in
      let kept = Kept-later t c.wait (lookup k s) h in
      let (taken, kept') =
        eval-Settled c.link (key_prefix ++ c.key) (at_least_one c.cost) now s kept in
      omega (
        arith,
        taken,
        granted-left now cs (after_call scale rule k now c s) kept',
        available_grows scale rule flows t c.wait (lookup k s) h,
        add_mul c.wait (waited cs) rule.rate,
        add_mul (grant scale rule k now c s)
            (granted scale rule k now cs (after_call scale rule k now c s)) scale,
      )

-- If the rate is positive, then whatever keys are used, whatever the requests cost and whichever calls
-- lose their reply or do not reach the server, a server that starts empty grants from the bucket of a
-- key no more tokens than the capacity and what the rate brings in the time that passes.
pub granted_bound :
    (scale : ℕ) (rule : Rule) (key : Bytes) (t : ℕ) (cs : List Call)
    → 0 < rule.rate
    → granted scale rule (key_prefix ++ key) t cs [] * scale
      ≤ rule.capacity * scale + waited cs * rule.rate
unfolding lookup refilled
granted_bound scale rule key t cs flows =
    granted-left scale rule flows (key_prefix ++ key) t cs [] tt
