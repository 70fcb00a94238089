-- ===== src/Auth/Middleware.antt =====
-- auth/auth.go, auth/middleware.go, auth/team.go: the handlers that check a bearer token. A handler
-- takes the request and the state of the token store, and either replies or calls the next handler.
pub mod Access
use fibr.Prelude.{
  ℕ, ◌+◌, ◌<◌, ◌≡◌, String, Bool, true, false, Option, none, some, List, [], ◌∷◌, ltb, leb,
  if◌then◌else◌, ◌==◌, ◌||◌, ◌&&◌, not, contains, string_cmp, nat_cmp,
}
use fibr.Prelude.Assoc.{lookup, insert}
use fibr.Auth.Claims.{MapClaims, Jwt, text_claim, to_string_slice}
use fibr.Auth.Bearer.{bearer_token}
use fibr.Auth.Store.{Answer, answer, store_error, TokenStore}

pub record Config (S : Type 0) : Type 0 where
  pub context_key : String
  pub store : Option (TokenStore S)

abbrev pub default_claims_key : String
default_claims_key = "auth_claims"

unfoldable pub apply_options : {S : Type 0} → List (Config S → Config S) → Config S → Config S
apply_options [] c = c
apply_options (opt ∷ opts) c = apply_options opts (opt c)

unfoldable pub new_config : {S : Type 0} → List (Config S → Config S) → Config S
unfolding apply_options
new_config opts = apply_options opts (record { context_key = default_claims_key; store = none })

abbrev pub with_context_key : {S : Type 0} → String → Config S → Config S
with_context_key key c = if key == "" then c else record c { context_key = key }

abbrev pub with_blocklist : {S : Type 0} → TokenStore S → Config S → Config S
with_blocklist store c = record c { store = some store }

pub record Request : Type 0 where
  pub authorization : String
  pub locals : List (String × MapClaims)

pub data Reply : Type 0 where
  rejected : String → ℕ → Reply
  next : Request → Reply

abbrev set_local : String → MapClaims → Request → Request
set_local key claims r = record r { locals = insert key claims r.locals }

-- `Claims`
unfoldable pub claims_of : {S : Type 0} → Config S → Request → Option MapClaims
claims_of cfg r = lookup cfg.context_key r.locals

abbrev claim_of : {S : Type 0} → Config S → String → Request → String
claim_of cfg k r = elim (lookup cfg.context_key r.locals) [
  | none ↦ ""
  | some claims ↦ text_claim k claims
]

pub subject : {S : Type 0} → Config S → Request → String
subject cfg r = claim_of cfg "sub" r

pub active_team : {S : Type 0} → Config S → Request → String
active_team cfg r = claim_of cfg "team" r

unfoldable pub team_role : {S : Type 0} → Config S → Request → String
team_role cfg r = claim_of cfg "role" r

unfoldable pub scopes : {S : Type 0} → Config S → Request → List String
unfolding claims_of
scopes cfg r = elim (claims_of cfg r) [
  | none ↦ []
  | some claims ↦ to_string_slice (lookup "scopes" claims)
]

unfoldable pub has_scope : {S : Type 0} → Config S → String → Request → Bool
unfolding scopes
has_scope cfg scope r = contains (scopes cfg r) scope

unfoldable pub require_scope : {S : Type 0} → Config S → String → Request → Reply
unfolding claims_of has_scope
require_scope cfg scope r = elim (claims_of cfg r) [
  | none ↦ rejected "unauthorized" 401
  | some claims ↦ if has_scope cfg scope r then next r else rejected "forbidden" 403
]

pub require_team : {S : Type 0} → Config S → Request → Reply
unfolding claims_of active_team
require_team cfg r = elim (claims_of cfg r) [
  | none ↦ rejected "unauthorized" 401
  | some claims ↦ if active_team cfg r == "" then rejected "no active team" 403 else next r
]

unfoldable pub role_among : List String → String → Request → Reply
role_among [] role r = rejected "forbidden" 403
role_among (x ∷ xs) role r = if x == role then next r else role_among xs role r

-- It reads the claims under the default key.
unfoldable pub require_role : List String → Request → Reply
unfolding claims_of team_role role_among new_config
require_role roles r =
    let default : Config (Unit {0}) = new_config [] in
    elim (claims_of default r) [
      | none ↦ rejected "unauthorized" 401
      | some claims ↦ role_among roles (team_role default r) r
    ]

module _ (jwt : Jwt) (secret : String) (now : ℕ) where
  unfoldable pub parse : Request → Option MapClaims
  unfolding bearer_token
  parse r =
      if bearer_token r.authorization == ""
      then none
      else elim (jwt.parse (bearer_token r.authorization) secret now) [
        | none ↦ none
        | some claims ↦ if text_claim "type" claims == "refresh" then none else some claims
      ]

  unfoldable pub blocklisted :
      {S : Type 0} → Option (TokenStore S) → MapClaims → S → S × Answer Bool
  blocklisted none claims s = (s, answer false)
  blocklisted (some store) claims s =
      if text_claim "jti" claims == ""
      then (s, answer false)
      else store.is_blocked (text_claim "jti" claims) now s

  -- Fail closed: an error of the store is a refusal.
  unfoldable pub require_auth : {S : Type 0} → Config S → Request → S → S × Reply
  unfolding parse blocklisted
  require_auth cfg r s = elim (parse r) [
    | none ↦ (s, rejected "unauthorized" 401)
    | some claims ↦
        let (s', a) = blocklisted cfg.store claims s in
        elim a [
          | answer true ↦ (s', rejected "unauthorized" 401)
          | answer false ↦ (s', next (set_local cfg.context_key claims r))
          | store_error n ↦ (s', rejected "unauthorized" 401)
        ]
  ]

  unfoldable pub optional : {S : Type 0} → Config S → Request → S → S × Reply
  unfolding parse blocklisted
  optional cfg r s = elim (parse r) [
    | none ↦ (s, next r)
    | some claims ↦
        let (s', a) = blocklisted cfg.store claims s in
        elim a [
          | answer true ↦ (s', next r)
          | answer false ↦ (s', next (set_local cfg.context_key claims r))
          | store_error n ↦ (s', next r)
        ]
  ]
