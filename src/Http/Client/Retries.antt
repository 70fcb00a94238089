-- ===== src/Http/Client/Retries.antt =====
-- http/http.go: what the retry loop does, whatever the transport answers.
use fibr.Prelude.{
  ℕ, zero, suc, ◌+◌, ◌-◌, ◌≤◌, ◌<◌, ◌≡◌, ◌≢◌, ◌⊎◌, inl, inr, refl, String, Bool, true, false,
  Option, none, some, arith, Option-cases,
}
use fibr.Prelude.Int.{pos_part}
use fibr.Http.Client.{
  Transport, Client, Request, Response, Result, Error, Verdict, is_some_error, Limit, answered,
  unanswered, result, ends, again, http_error, other, circuit_open, code, error, do_once,
  sleep_with_context, verdict, pause, after_loop, is_success, attempt_loop, attempts_of,
  request_raw_attempts, build_request, add_ctx_headers,
}

pub Verdict-cases :
    (v : Verdict) → ((r : Result) × (v ≡ ends r)) ⊎ ((e : Error) × (c : ℕ) × (v ≡ again e c))
Verdict-cases (ends r) = inl (r, refl)
Verdict-cases (again e c) = inr (e, c, refl)

module _ {W : Type 0} (t : Transport W) (h : Client W) where
  -- The ways in which one round of the loop goes on.
  pub attempt_cases :
      (P : W × Result → Type 0) (req : Request) (out : Bool) (left : ℕ) (e₀ : Error) (c₀ : ℕ)
      (w : W)
      → let w' = (do_once t h req w).0 in
        let r = (do_once t h req w).1 in
        ((e : Error) → t.ctx_err w ≡ some e → P (w, result 0 (some e)))
        → ((res : Result) → t.ctx_err w ≡ none → verdict t out left r ≡ ends res → P (w', res))
        → ((e e' : Error) (c : ℕ)
            → verdict t out left r ≡ again e c
            → (pause t h left w').1 ≡ some e'
            → P ((pause t h left w').0, result 0 (some e')))
        → ((e : Error) (c : ℕ)
            → t.ctx_err w ≡ none
            → verdict t out left r ≡ again e c
            → (pause t h left w').1 ≡ none
            → P (attempt_loop t h req out left e c (pause t h left w').0))
        → P (attempt_loop t h req out (suc left) e₀ c₀ w)
  unfolding attempt_loop
  attempt_cases P req out left e₀ c₀ w gone done stopped next =
      let w' = (do_once t h req w).0 in
      elim (Option-cases (t.ctx_err w)) [
        | inr (e, p) ↦ rw (p, attempt_loop) (gone e p)
        | inl p ↦ elim (Verdict-cases (verdict t out left (do_once t h req w).1)) [
          | inl (res, q) ↦ rw (p, attempt_loop) (rw q (done res p q))
          | inr (e, c, q) ↦ elim (Option-cases (pause t h left w').1) [
            | inl s ↦ rw (p, attempt_loop) (rw q (rw s (next e c p q s)))
            | inr (e', s) ↦ rw (p, attempt_loop) (rw q (rw s (stopped e e' c q s)))
          ]
        ]
      ]

pred_suc : (n : ℕ) → 1 ≤ n → n ≡ suc (n - 1)
pred_suc n h = omega arith

pub attempts_of_pos : {W : Type 0} (h : Client W) → 1 ≤ attempts_of h
attempts_of_pos h = ground arith

-- The requests that a transport has sent, counted: `send` sends one, and a wait none.
pub record Counted {W : Type 0} (t : Transport W) (sent : W → ℕ) : Type 0 where
  pub send_one : (r : Request) (l : Limit) (w : W) → sent (t.send r l w).0 ≡ suc (sent w)
  pub sleep_none : (d : ℕ) (w : W) → sent (t.sleep d w).0 ≡ sent w

-- That n requests were sent in all, and that the last was answered by a 5xx, which is reported.
abbrev pub Exhausted : {W : Type 0} → (W → ℕ) → ℕ → W × Result → Type 0
Exhausted sent n p = (sent p.0 ≡ n) × (500 ≤ code p.1) × (is_some_error (error p.1) ≡ true)

-- A transport whose every answer is a 5xx, in a context that does not end.
pub record Failing {W : Type 0} (t : Transport W) : Type 0 where
  pub alive : (w : W) → t.ctx_err w ≡ none
  pub awake : (d : ℕ) (w : W) → (t.sleep d w).1 ≡ none
  pub refuses :
      (r : Request) (l : Limit) (w : W)
      → (c : ℕ) × (body : String) × ((t.send r l w).1 ≡ answered c body) × (500 ≤ c)

module _ {W : Type 0} (t : Transport W) (sent : W → ℕ) (counted : Counted t sent)
    (h : Client W) where
  do_once_sent : (req : Request) (w : W) → sent (do_once t h req w).0 ≡ suc (sent w)
  unfolding do_once
  do_once_sent req w = counted.send_one req _ w

  pause_sent : (left : ℕ) (w : W) → sent (pause t h left w).0 ≡ sent w
  unfolding sleep_with_context
  pause_sent left w = ground (arith, counted.sleep_none (pos_part h.backoff) w)

  loop_sent :
      (req : Request) (out : Bool) (left : ℕ) (e : Error) (c : ℕ) (w : W)
      → sent (attempt_loop t h req out left e c w).0 ≤ sent w + left
  unfolding attempt_loop
  loop_sent req out zero e c w = omega arith
  loop_sent req out (suc left) e c w =
      let w' = (do_once t h req w).0 in
      attempt_cases t h (λ p. sent p.0 ≤ sent w + suc left) req out left e c w (λ _ _. omega arith)
        (λ _ _ _. omega (arith, do_once_sent req w))
        (λ _ _ _ _ _. omega (arith, do_once_sent req w, pause_sent left w'))
        (λ e' c' _ _ _. omega (
          arith,
          do_once_sent req w,
          pause_sent left w',
          loop_sent req out left e' c' (pause t h left w').0,
        ))

  -- A request is sent at most `retries + 1` times, and once at most where `retries` is not positive.
  request_raw_attempts_sent :
      (method path : String) (payload : Option String) (content_type : String) (out : Bool) (w : W)
      → sent (request_raw_attempts t h method path payload content_type out w).0
        ≤ sent w + attempts_of h
  unfolding request_raw_attempts
  request_raw_attempts_sent method path payload content_type out w =
      loop_sent _ out (attempts_of h) (other 0) 0 w

module _ {W : Type 0} (t : Transport W) (h : Client W) where
  abbrev Sound : W × Result → Type 0
  Sound p = error p.1 ≡ none → (200 ≤ code p.1) × (code p.1 < 300)

  error-after_loop : (e : Error) (c : ℕ) → error (after_loop e c) ≢ none
  error-after_loop (http_error a b) c p = cc
  error-after_loop (other n) c p = cc
  error-after_loop circuit_open c p = cc

  verdict-Sound :
      (out : Bool) (left : ℕ) (r : Response) (res : Result) (w : W)
      → verdict t out left r ≡ ends res
      → Sound (w, res)
  verdict-Sound out left (unanswered e) res w p = ground arith
  verdict-Sound out left (answered c body) res w p = ground arith

  loop-Sound :
      (req : Request) (out : Bool) (left : ℕ) (e : Error) (c : ℕ) (w : W)
      → Sound (attempt_loop t h req out left e c w)
  unfolding attempt_loop
  loop-Sound req out zero e c w = λ p. absurd (error-after_loop e c p)
  loop-Sound req out (suc left) e c w =
      attempt_cases t h Sound req out left e c w (λ _ _ p. cc)
        (λ res _ q. verdict-Sound out left (do_once t h req w).1 res (do_once t h req w).0 q)
        (λ _ _ _ _ _ p. cc) (λ e' c' _ _ _. loop-Sound req out left e' c' _)

  -- A request that reports no error was answered by a 2xx.
  request_raw_attempts_success :
      (method path : String) (payload : Option String) (content_type : String) (out : Bool) (w : W)
      → error (request_raw_attempts t h method path payload content_type out w).1 ≡ none
      → (200 ≤ code (request_raw_attempts t h method path payload content_type out w).1)
        × (code (request_raw_attempts t h method path payload content_type out w).1 < 300)
  unfolding request_raw_attempts
  request_raw_attempts_success method path payload content_type out w =
      loop-Sound _ out (attempts_of h) (other 0) 0 w

  loop_client_error :
      (req : Request) (out : Bool) (left : ℕ) (e : Error) (c₀ c : ℕ) (body : String) (w : W)
      → 1 ≤ left
      → t.ctx_err w ≡ none
      → (do_once t h req w).1 ≡ answered c body
      → is_success c ≡ false
      → c < 500
      → attempt_loop t h req out left e c₀ w
        ≡ ((do_once t h req w).0, result c (some (http_error c body)))
  unfolding attempt_loop
  loop_client_error req out zero e c₀ c body w p alive q no_success small = absurd (omega arith)
  loop_client_error req out (suc left) e c₀ c body w p alive q no_success small =
      rw (alive, attempt_loop) (rw q (ground arith))

  -- An answer that is neither a 2xx nor a 5xx ends the request at once: it is sent once, with the
  -- headers of the client and the context, and its status and body come back as the error.
  pub request_raw_attempts_client_error :
      (method path : String) (payload : Option String) (content_type : String) (out : Bool) (c : ℕ)
      (body : String) (w : W)
      → t.ctx_err w ≡ none
      → (do_once t h
          (build_request h method path payload content_type
            (add_ctx_headers w h.ctx_headers h.headers))
          w).1
        ≡ answered c body
      → is_success c ≡ false
      → c < 500
      → request_raw_attempts t h method path payload content_type out w ≡ (
        (do_once t h
            (build_request h method path payload content_type
              (add_ctx_headers w h.ctx_headers h.headers))
            w).0,
        result c (some (http_error c body)),
      )
  unfolding request_raw_attempts
  request_raw_attempts_client_error method path payload content_type out c body w alive q n small =
      loop_client_error _ out (attempts_of h) (other 0) 0 c body w (attempts_of_pos h) alive q n
        small

module _ {W : Type 0} (t : Transport W) (sent : W → ℕ) (counted : Counted t sent) (h : Client W)
    (failing : Failing t) where
  do_once_refused :
      (req : Request) (w : W)
      → (c : ℕ) × (body : String) × ((do_once t h req w).1 ≡ answered c body) × (500 ≤ c)
  unfolding do_once
  do_once_refused req w = failing.refuses req _ w

  pause_awake : (left : ℕ) (w : W) → (pause t h left w).1 ≡ none
  unfolding sleep_with_context
  pause_awake left w = ground (arith, failing.awake (pos_part h.backoff) w)

  refused_last :
      (req : Request) (out : Bool) (w : W)
      → (c : ℕ) × (e : Error) × (verdict t out 0 (do_once t h req w).1 ≡ ends (result c (some e)))
        × (500 ≤ c)
  refused_last req out w =
      let (c, body, p, big) = do_once_refused req w in
      (c, http_error c body, rw p (ground arith), big)

  refused_again :
      (req : Request) (out : Bool) (left : ℕ) (w : W)
      → (e : Error) × (c : ℕ) × (verdict t out (suc left) (do_once t h req w).1 ≡ again e c)
  refused_again req out left w =
      let (c, body, p, big) = do_once_refused req w in (http_error c body, c, rw p (ground arith))

  loop-Exhausted :
      (req : Request) (out : Bool) (left : ℕ) (e : Error) (c : ℕ) (w : W)
      → Exhausted sent (sent w + suc left) (attempt_loop t h req out (suc left) e c w)
  loop-Exhausted req out zero e c w =
      let (c', e', v, big) = refused_last req out w in
      let one = do_once_sent t sent counted h req w in
      attempt_cases t h (Exhausted sent (sent w + 1)) req out 0 e c w
        (λ x p. absurd (cc (failing.alive w))) (λ res _ q. ground (arith, v, one))
        (λ x y n q p. absurd (cc v)) (λ x n _ q _. absurd (cc v))
  loop-Exhausted req out (suc left) e c w =
      let (e', c', v) = refused_again req out left w in
      let w' = (do_once t h req w).0 in
      attempt_cases t h (Exhausted sent (sent w + suc (suc left))) req out (suc left) e c w
        (λ x p. absurd (cc (failing.alive w))) (λ res _ q. absurd (cc v))
        (λ x y n q p. absurd (cc (pause_awake (suc left) w')))
        (λ x n _ _ _.
          let next = (pause t h (suc left) w').0 in
          let (a, b, d) = loop-Exhausted req out left x n next in
          (
            omega (
              arith,
              a,
              do_once_sent t sent counted h req w,
              pause_sent t sent counted h (suc left) w',
            ),
            b,
            d,
          ))

  -- Where every answer is a 5xx, and neither the context ends nor a wait is cut short, the request
  -- is sent as often as the retries allow, and the last 5xx is reported as an error.
  request_raw_attempts-Exhausted :
      (method path : String) (payload : Option String) (content_type : String) (out : Bool) (w : W)
      → Exhausted sent
          (sent w + attempts_of h)
          (request_raw_attempts t h method path payload content_type out w)
  unfolding request_raw_attempts
  request_raw_attempts-Exhausted method path payload content_type out w =
      rw (pred_suc (attempts_of h) (attempts_of_pos h)) (loop-Exhausted _ out _ (other 0) 0 w)
