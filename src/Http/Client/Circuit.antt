-- ===== src/Http/Client/Circuit.antt =====
-- http/http.go: requests through the circuit breaker of a client.
use fibr.Prelude.{
  ℕ, zero, suc, ◌+◌, ◌≤◌, ◌≡◌, inl, inr, String, Bool, true, false, Option, none, some, arith,
  Bool-cases, Option-cases,
}
use fibr.Http.Breaker.{
  Breaker, breaker_open, breaker_closed, timed_out, allow, on_failure, Inv, step-Inv, asks,
  succeeds, fails, step,
}
use fibr.Http.Client.{
  Transport, Client, Request, Result, Error, result, circuit_open, other, breaker_failure,
  record_outcome, request_raw, request_raw_attempts, attempt_loop, attempts_of,
}
use fibr.Http.Client.Retries.{attempts_of_pos}

-- The invariant of the breaker of a client, if it has one.
abbrev pub HasInv : {W : Type 0} → Client W → Type 0
HasInv h = elim h.breaker [ none ↦ Unit | some b ↦ Inv b ]

rejects :
    (now : ℕ) (b : Breaker)
    → b.state ≡ breaker_open
    → timed_out now b ≡ false
    → allow now b ≡ (b, false)
unfolding allow
rejects now b o q = ground arith

passes_closed : (now : ℕ) (b : Breaker) → b.state ≡ breaker_closed → allow now b ≡ (b, true)
unfolding allow
passes_closed now b o = ground arith

opens :
    (now : ℕ) (b : Breaker)
    → b.state ≡ breaker_closed
    → b.max_failures ≤ b.failures + 1
    → on_failure now b
      ≡ record b { state = breaker_open; failures = b.failures + 1; opened_at = now }
unfolding on_failure
opens now b o full = ground arith

module _ {W : Type 0} (t : Transport W) (h : Client W) where
  -- While the breaker is open and its timeout has not passed, a request sends nothing, changes
  -- nothing and reports that the circuit is open.
  request_raw_open :
      (method path : String) (payload : Option String) (content_type : String) (out : Bool) (w : W)
      (b : Breaker)
      → h.breaker ≡ some b
      → b.state ≡ breaker_open
      → timed_out (t.clock w) b ≡ false
      → request_raw t h method path payload content_type out w
        ≡ (h, w, result 0 (some circuit_open))
  unfolding request_raw
  request_raw_open method path payload content_type out w b p o q =
      rw (p, request_raw) (rw (rejects (t.clock w) b o q))

  record_outcome-Inv : (b : Breaker) (res : W × Result) → Inv b → Inv (record_outcome t b res)
  unfolding record_outcome step
  record_outcome-Inv b (w, r) v = elim (Bool-cases (breaker_failure r)) [
    | inl x ↦ rw x (step-Inv b (t.clock w, fails) v)
    | inr x ↦ rw x (step-Inv b (t.clock w, succeeds) v)
  ]

  -- No request breaks the invariant of the breaker: it keeps room for a failure while it is closed.
  request_raw-Inv :
      (method path : String) (payload : Option String) (content_type : String) (out : Bool) (w : W)
      → HasInv h
      → HasInv (request_raw t h method path payload content_type out w).0
  unfolding request_raw step
  request_raw-Inv method path payload content_type out w v = elim (Option-cases h.breaker) [
    | inl p ↦ rw (p, request_raw) (rw p tt)
    | inr (b, p) ↦
        let v' : Inv (allow (t.clock w) b).0 = step-Inv b (t.clock w, asks) (rw p at v) in
        elim (Bool-cases (allow (t.clock w) b).1) [
          | inl x ↦
              rw (p, request_raw)
                (rw x (
                  record_outcome-Inv (allow (t.clock w) b).0
                    (request_raw_attempts t h method path payload content_type out w) v'))
          | inr x ↦ rw (p, request_raw) (rw x v')
        ]
  ]

  attempt_loop_gone :
      (req : Request) (out : Bool) (left : ℕ) (e₀ : Error) (c : ℕ) (w : W) {e : Error}
      → 1 ≤ left
      → t.ctx_err w ≡ some e
      → attempt_loop t h req out left e₀ c w ≡ (w, result 0 (some e))
  unfolding attempt_loop
  attempt_loop_gone req out zero e₀ c w n p = absurd (omega arith)
  attempt_loop_gone req out (suc left) e₀ c w n p = rw (p, attempt_loop)

  -- A request in a context that is over before the first attempt.
  request_raw_attempts_gone :
      (method path : String) (payload : Option String) (content_type : String) (out : Bool) (w : W)
      {e : Error}
      → t.ctx_err w ≡ some e
      → request_raw_attempts t h method path payload content_type out w ≡ (w, result 0 (some e))
  unfolding request_raw_attempts
  request_raw_attempts_gone method path payload content_type out w p =
      attempt_loop_gone _ out (attempts_of h) (other 0) 0 w (attempts_of_pos h) p

  -- A request whose context is over before its first attempt sends nothing, and yet counts as a
  -- failure of the server: at the last failure that a closed breaker allows, it opens it.
  request_raw_gone_opens :
      (method path : String) (payload : Option String) (content_type : String) (out : Bool) (w : W)
      (b : Breaker) (e : Error)
      → h.breaker ≡ some b
      → b.state ≡ breaker_closed
      → b.max_failures ≤ b.failures + 1
      → t.ctx_err w ≡ some e
      → request_raw t h method path payload content_type out w ≡ (
        record h {
          breaker =
              some (record b {
                state = breaker_open;
                failures = b.failures + 1;
                opened_at = t.clock w;
              });
        },
        w,
        result 0 (some e),
      )
  unfolding request_raw record_outcome
  request_raw_gone_opens method path payload content_type out w b e p closed full gone =
      rw (p, request_raw)
        (rw (passes_closed (t.clock w) b closed) (
          rw (request_raw_attempts_gone method path payload content_type out w gone)
            (rw (opens (t.clock w) b closed full))))
