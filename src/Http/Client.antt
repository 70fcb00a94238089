-- ===== src/Http/Client.antt =====
-- http/http.go: a request, its retries and the circuit breaker. What fasthttp, the context, the
-- clock and the JSON decoder do is a parameter, `Transport`.
pub mod Retries
pub mod Circuit
use Prim.Native.String.{◌++◌ as append}
use fibr.Prelude.{
  ℕ, zero, suc, String, Bool, true, false, not, ◌&&◌, ◌||◌, Option, none, some, List, [], ◌∷◌, ltb,
  leb, if◌then◌else◌, ◌==◌, string_cmp, nat_cmp,
}
use fibr.Prelude.Int.{ℤ, pos, pos_part, ltb_ℤ, ◌+ℤ◌}
use fibr.Prelude.Assoc.{insert}
use fibr.Http.Breaker.{Breaker, allow, on_success, on_failure}

-- `http_error` is the `*Error` of the package; `other` stands for the errors of its environment.
pub data Error : Type 0 where
  http_error : ℕ → String → Error
  other : ℕ → Error
  circuit_open : Error

pub record Request : Type 0 where
  pub uri : String
  pub method : String
  pub headers : List (String × String)
  pub body : Option String
  pub content_type : Option String

pub data Limit : Type 0 where
  deadline timeout : ℕ → Limit
  unlimited : Limit

-- `fasthttp`'s answer: a status and a body, or an error.
pub data Response : Type 0 where
  answered : ℕ → String → Response
  unanswered : Error → Response

-- The environment of a call, with a state `W` of its own.
pub record Transport (W : Type 0) : Type 0 where
  pub send : Request → Limit → W → W × Response
  pub ctx_err : W → Option Error
  pub ctx_deadline : W → Option ℕ
  pub sleep : ℕ → W → W × Option Error
  pub clock : W → ℕ
  pub decode : String → Option Error

pub record Client (W : Type 0) : Type 0 where
  pub base_url : String
  pub headers : List (String × String)
  pub ctx_headers : List (String × (W → String))
  pub timeout : ℤ
  pub retries : ℤ
  pub backoff : ℤ
  pub breaker : Option Breaker

pub data Result : Type 0 where
  result : ℕ → Option Error → Result

abbrev pub code : Result → ℕ
code (result c e) = c

abbrev pub error : Result → Option Error
error (result c e) = e

-- What follows the loop: `lastErr` and `lastCode`.
abbrev pub after_loop : Error → ℕ → Result
after_loop (http_error c body) last_code = result c (some (http_error c body))
after_loop e last_code = result last_code (some e)

abbrev pub is_success : ℕ → Bool
is_success c = leb 200 c && ltb c 300

-- A status that is no success, on the last attempt or where it is no 5xx, ends the loop.
abbrev pub ends_with : ℕ → ℕ → Bool
ends_with c left = not (leb 500 c && ltb 0 left)

-- What a completed exchange means for the loop: end it, or try again.
pub data Verdict : Type 0 where
  ends : Result → Verdict
  again : Error → ℕ → Verdict

abbrev pub is_some_error : Option Error → Bool
is_some_error none = false
is_some_error (some e) = true

pub breaker_failure : Result → Bool
breaker_failure r = if is_some_error (error r) && code r == 0 then true else leb 500 (code r)

module _ {W : Type 0} where
  pub set_header : String → String → Client W → Client W
  set_header key value h = record h { headers = insert key value h.headers }

  -- The headers of one call: the client's, and those that the context gives.
  pub add_ctx_headers :
      W → List (String × (W → String)) → List (String × String) → List (String × String)
  add_ctx_headers w [] headers = headers
  add_ctx_headers w ((name, fn) ∷ rules) headers =
      add_ctx_headers w rules (if fn w == "" then headers else insert name (fn w) headers)

  pub build_request :
      Client W → String → String → Option String → String → List (String × String) → Request
  build_request h method path payload content_type headers = record {
    uri = append h.base_url path;
    method = method;
    headers = headers;
    body = payload;
    content_type = elim payload [
      | none ↦ none
      | some _ ↦ some (if content_type == "" then "application/json" else content_type)
    ];
  }

  pub limit_of : Transport W → Client W → W → Limit
  limit_of t h w = elim (t.ctx_deadline w) [
    | some dl ↦ deadline dl
    | none ↦ if ltb_ℤ (pos 0) h.timeout then timeout (pos_part h.timeout) else unlimited
  ]

  unfoldable pub do_once : Transport W → Client W → Request → W → W × Response
  unfolding limit_of
  do_once t h req w = t.send req (limit_of t h w) w

  pub sleep_with_context : Transport W → ℤ → W → W × Option Error
  sleep_with_context t d w = if ltb_ℤ (pos 0) d then t.sleep (pos_part d) w else (w, none)

  abbrev pub decoded : Transport W → Bool → ℕ → String → Result
  decoded t out c body =
      if out
      then elim (t.decode body) [ none ↦ result c none | some e ↦ result c (some e) ]
      else result c none

  abbrev pub verdict : Transport W → Bool → ℕ → Response → Verdict
  verdict t out left (unanswered e) = again e 0
  verdict t out left (answered c body) =
      if is_success c
      then ends (decoded t out c body)
      else (if ends_with c left
          then ends (result c (some (http_error c body)))
          else again (http_error c body) c)

  -- The wait before another attempt, if one is left.
  abbrev pub pause : Transport W → Client W → ℕ → W → W × Option Error
  pause t h left w = if ltb 0 left then sleep_with_context t h.backoff w else (w, none)

  -- The loop of `requestRawAttempts`, with the attempts left.
  pub attempt_loop : Transport W → Client W → Request → Bool → ℕ → Error → ℕ → W → W × Result
  unfolding do_once sleep_with_context
  attempt_loop t h req out zero last_err last_code w = (w, after_loop last_err last_code)
  attempt_loop t h req out (suc left) last_err last_code w = elim (t.ctx_err w) [
    | some e ↦ (w, result 0 (some e))
    | none ↦
        let (w', r) = do_once t h req w in
        elim (verdict t out left r) [
          | ends res ↦ (w', res)
          | again e c ↦
              let (w'', stopped) = pause t h left w' in
              elim stopped [
                | some e' ↦ (w'', result 0 (some e'))
                | none ↦ attempt_loop t h req out left e c w''
              ]
        ]
  ]

  abbrev pub attempts_of : Client W → ℕ
  attempts_of h = if ltb_ℤ (h.retries +ℤ pos 1) (pos 1) then 1 else pos_part (h.retries +ℤ pos 1)

  unfoldable pub request_raw_attempts :
      Transport W → Client W → String → String → Option String → String → Bool → W → W × Result
  unfolding attempt_loop build_request add_ctx_headers
  request_raw_attempts t h method path payload content_type out w =
      let headers = add_ctx_headers w h.ctx_headers h.headers in
      attempt_loop t h (build_request h method path payload content_type headers) out
        (attempts_of h) (other 0) 0 w

  -- The client with the state of its breaker after the outcome of a request.
  pub record_outcome : Transport W → Breaker → W × Result → Breaker
  unfolding breaker_failure
  record_outcome t b (w, r) = if breaker_failure r then on_failure (t.clock w) b else on_success b

  pub request_raw :
      Transport W
      → Client W
      → String
      → String
      → Option String
      → String
      → Bool
      → W
      → Client W × W × Result
  unfolding record_outcome
  request_raw t h method path payload content_type out w = elim h.breaker [
    | none ↦
        let (w', r) = request_raw_attempts t h method path payload content_type out w in (h, w', r)
    | some b ↦
        let (b', passed) = allow (t.clock w) b in
        let res = request_raw_attempts t h method path payload content_type out w in
        if passed
        then (record h { breaker = some (record_outcome t b' res) }, res.0, res.1)
        else (record h { breaker = some b' }, w, result 0 (some circuit_open))
  ]
