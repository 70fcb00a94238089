-- ===== src/Apierror.antt =====
-- apierror/apierror.go: typed errors and the reply that they become. Details are texts, and the errors
-- of other packages are opaque but for what they wrap.
mod Examples
use fibr.Prelude.{ℕ, ◌≡◌, refl, ap, ◌∙◌, String, Option, none, some, List, [], ◌∷◌}

mutual
  -- An error of this package, with the cause that it wraps.
  pub data Error : Type 0 where
    typed : ℕ → String → String → Option String → Cause → Error

  pub data Cause : Type 0 where
    no_cause : Cause
    caused_by : AnyError → Cause

  -- `fmt.Errorf` with `%w` is `wrapped`.
  pub data AnyError : Type 0 where
    api : Error → AnyError
    fiber : ℕ → String → AnyError
    wrapped : String → AnyError → AnyError
    opaque : String → AnyError

unfoldable pub new : ℕ → String → String → Error
new status code message = typed status code message none no_cause

unfoldable pub with_code : String → Error → Error
with_code code (typed status old message details err) = typed status code message details err

unfoldable pub with_details : String → Error → Error
with_details d (typed status code message old err) = typed status code message (some d) err

unfoldable pub wrap : AnyError → Error → Error
wrap err (typed status code message details old) = typed status code message details (caused_by err)

unfoldable pub unwrap : Error → Option AnyError
unwrap (typed status code message details no_cause) = none
unwrap (typed status code message details (caused_by err)) = some err

abbrev pub bad_request : String → Error
unfolding new
bad_request message = new 400 "bad_request" message

abbrev pub unauthorized : String → Error
unfolding new
unauthorized message = new 401 "unauthorized" message

abbrev pub forbidden : String → Error
unfolding new
forbidden message = new 403 "forbidden" message

abbrev pub not_found : String → Error
unfolding new
not_found message = new 404 "not_found" message

abbrev pub conflict : String → Error
unfolding new
conflict message = new 409 "conflict" message

abbrev pub unprocessable_entity : String → Error
unfolding new
unprocessable_entity message = new 422 "unprocessable_entity" message

abbrev pub too_many_requests : String → Error
unfolding new
too_many_requests message = new 429 "too_many_requests" message

abbrev pub internal : String → Error
unfolding new
internal message = new 500 "internal_server_error" message

-- `errors.As` for an error of this package: the first one of the chain.
unfoldable pub as_api : AnyError → Option Error
as_api (api e) = some e
as_api (fiber code message) = none
as_api (wrapped text err) = as_api err
as_api (opaque text) = none

-- `errors.As` for an error of Fiber, in a chain without one of this package.
unfoldable pub as_fiber : AnyError → Option (ℕ × String)
as_fiber (api e) = none
as_fiber (fiber code message) = some (code, message)
as_fiber (wrapped text err) = as_fiber err
as_fiber (opaque text) = none

-- The envelope; its code is also the status of the reply, and its own status is always "error".
pub record Response : Type 0 where
  pub code : ℕ
  pub message : String
  pub error : String
  pub details : Option String

abbrev pub rendered : Error → Response
rendered (typed status code message details err) = record {
  code = status;
  message = message;
  error = code;
  details = details;
}

abbrev pub rendered_fiber : Option (ℕ × String) → Response
rendered_fiber (some (code, message)) = record {
  code = code;
  message = message;
  error = "";
  details = none;
}
rendered_fiber none = record {
  code = 500;
  message = "internal server error";
  error = "";
  details = none;
}

abbrev pub handle_found : Option Error → Option (ℕ × String) → Response
handle_found (some e) other = rendered e
handle_found none other = rendered_fiber other

unfoldable pub handler : AnyError → Response
unfolding as_api as_fiber
handler err = handle_found (as_api err) (as_fiber err)

abbrev pub wrap_all : List String → AnyError → AnyError
wrap_all [] err = err
wrap_all (text ∷ texts) err = wrapped text (wrap_all texts err)

wrap_all-handler :
    (texts : List String) (err : AnyError) → handler (wrap_all texts err) ≡ handler err
unfolding handler
wrap_all-handler [] err = refl
wrap_all-handler (text ∷ texts) err = wrap_all-handler texts err

rendered-wrap : (cause : AnyError) (e : Error) → rendered (wrap cause e) ≡ rendered e
unfolding wrap
rendered-wrap cause (typed status code message details old) = refl

-- Neither the texts that are put around an error on its way to the handler nor the cause that is
-- attached to it reach the client: the reply is that of the error alone.
handler-wrap :
    (texts : List String) (cause : AnyError) (e : Error)
    → handler (wrap_all texts (api (wrap cause e))) ≡ handler (api e)
unfolding handler
handler-wrap texts cause e = wrap_all-handler texts (api (wrap cause e)) ∙ rendered-wrap cause e
