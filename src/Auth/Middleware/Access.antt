-- ===== src/Auth/Middleware/Access.antt =====
-- auth/middleware.go, auth/team.go: which requests reach the handlers behind the middleware.
use fibr.Prelude.{
  ℕ, ◌*◌, ◌<◌, ◌≤◌, All, refl, ◌≡◌, ◌⊎◌, inl, inr, sym, ap, ◌∙◌, String, true, false, not, ◌||◌,
  none, some, List, [], ◌∷◌, arith, contains, ◌==◌, string_cmp, eqb_refl, Bool-cases, Option-cases,
}
use fibr.Prelude.Assoc.{lookup, lookup-insert}
use fibr.Auth.Claims.{number, Jwt, MapClaims, text_claim, to_string_slice, second}
use fibr.Auth.Bearer.{bearer_token}
use fibr.Auth.Store.{TokenStore, Lawful, Answer-cases}
use fibr.Auth.Issuer.{Issuer, World, logout}
use fibr.Auth.Issuer.Revocation.{logout-blocked}
use fibr.Auth.Middleware.{
  Config, Request, Reply, rejected, next, parse, blocklisted, require_auth, optional, require_scope,
  require_role, role_among, claims_of, has_scope, scopes, default_claims_key,
}

-- What the middleware relies on of golang-jwt: a token has one map of claims, and is refused from
-- its expiry on.
pub record Parses (jwt : Jwt) : Type 0 where
  pub same-claims :
      (token secret : String) (t u : ℕ) {c d : MapClaims}
      → jwt.parse token secret t ≡ some c
      → jwt.parse token secret u ≡ some d
      → c ≡ d
  pub before_expiry :
      (token secret : String) (t e : ℕ) {c : MapClaims}
      → jwt.parse token secret t ≡ some c
      → lookup "exp" c ≡ some (number e)
      → t < e * second

module _ (jwt : Jwt) (secret : String) (now : ℕ) where
  parse_cases :
      (r : Request)
      → (parse jwt secret now r ≡ none)
        ⊎ ((c : MapClaims) × (parse jwt secret now r ≡ some c)
            × (jwt.parse (bearer_token r.authorization) secret now ≡ some c)
            × ((text_claim "type" c == "refresh") ≡ false))
  unfolding parse
  parse_cases r = elim (Bool-cases (bearer_token r.authorization == "")) [
    | inl e ↦ inl (ground arith)
    | inr e ↦ elim (Option-cases (jwt.parse (bearer_token r.authorization) secret now)) [
      | inl p ↦ inl (ground arith)
      | inr (c, p) ↦ elim (Bool-cases (text_claim "type" c == "refresh")) [
        | inl t ↦ inl (ground arith)
        | inr t ↦ inr (c, ground arith, p, t)
      ]
    ]
  ]

module _ {S : Type 0} (store : TokenStore S) (law : Lawful store) (jwt : Jwt)
    (secret key : String) where
  -- The configuration with a blocklist.
  abbrev pub with_list : Config S
  with_list = record { context_key = key; store = some store }

  -- The blocklist was asked about the id of a token that is let through, and answered no.
  let_through :
      (now : ℕ) (r r' : Request) (s s' : S) (c : MapClaims)
      → require_auth jwt secret now with_list r s ≡ (s', next r')
      → parse jwt secret now r ≡ some c
      → (text_claim "jti" c == "" || not (law.blocked s now (text_claim "jti" c))) ≡ true
  unfolding require_auth blocklisted
  let_through now r r' s s' c h p =
      let jti = text_claim "jti" c in
      elim (Answer-cases (store.is_blocked jti now s).1) [
        | inl (b, a) ↦ ground (arith, a, law.is_blocked-answer jti now s b a)
        | inr (n, failed) ↦ ground (arith, failed)
      ]

  -- A request that `RequireAuth` with a blocklist lets through has a bearer token that parses under
  -- the secret, is no refresh token and has no revoked id, and the handler finds its claims.
  pub require_auth-next :
      (now : ℕ) (r r' : Request) (s s' : S)
      → require_auth jwt secret now with_list r s ≡ (s', next r')
      → (c : MapClaims) × (jwt.parse (bearer_token r.authorization) secret now ≡ some c)
        × ((text_claim "type" c == "refresh") ≡ false)
        × ((text_claim "jti" c == "" || not (law.blocked s now (text_claim "jti" c))) ≡ true)
        × (claims_of with_list r' ≡ some c)
  unfolding require_auth blocklisted claims_of
  require_auth-next now r r' s s' h = elim (parse_cases jwt secret now r) [
    | inl p ↦ absurd (ground arith)
    | inr (c, p, q, t) ↦ (
      c,
      q,
      t,
      let_through now r r' s s' c h p,
      ground (arith, lookup-insert key key c r.locals, eqb_refl key),
    )
  ]

  require_auth_blocked :
      (now : ℕ) (r : Request) (s : S) (c : MapClaims)
      → parse jwt secret now r ≡ some c
      → (text_claim "jti" c == "") ≡ false
      → law.blocked s now (text_claim "jti" c) ≡ true
      → (require_auth jwt secret now with_list r s).1 ≡ rejected "unauthorized" 401
  unfolding require_auth blocklisted
  require_auth_blocked now r s c p named b =
      let jti = text_claim "jti" c in
      elim (Answer-cases (store.is_blocked jti now s).1) [
        | inl (x, a) ↦ ground (arith, a, law.is_blocked-answer jti now s x a)
        | inr (n, failed) ↦ ground (arith, failed)
      ]

  -- A request leaves the revoked ids of its time and later as they are.
  require_auth-blocked :
      (now t : ℕ) (r : Request) (s : S) (k : String)
      → now ≤ t
      → law.blocked (require_auth jwt secret now with_list r s).0 t k ≡ law.blocked s t k
  unfolding require_auth blocklisted
  require_auth-blocked now t r s k before = elim (parse_cases jwt secret now r) [
    | inl p ↦ ground arith
    | inr (c, p, q, typed) ↦
        let jti = text_claim "jti" c in
        let kept = law.is_blocked-blocked jti now t s k before in
        elim (Answer-cases (store.is_blocked jti now s).1) [
          | inl (b, a) ↦ ground (arith, a, kept)
          | inr (n, failed) ↦ ground (arith, failed, kept)
        ]
  ]

  -- What requests at given times make of the store.
  unfoldable pub after : List (ℕ × Request) → S → S
  after [] s = s
  after ((now, r) ∷ rs) s = after rs (require_auth jwt secret now with_list r s).0

  after-blocked :
      (rs : List (ℕ × Request)) (t : ℕ) (s : S) (k : String)
      → All (λ p. p.0 ≤ t) rs
      → law.blocked (after rs s) t k ≡ law.blocked s t k
  unfolding after
  after-blocked [] t s k before = refl
  after-blocked ((now, r) ∷ rs) t s k before =
      after-blocked rs t (require_auth jwt secret now with_list r s).0 k before.1
      ∙ require_auth-blocked now t r s k before.0

  -- After a `Logout` without an error with an access token of the issuer, whatever refresh token
  -- comes with it, `RequireAuth` on the same secret and store refuses every request with that access
  -- token, at any later time and after any other requests through it up to then.
  pub logged_out :
      (parses : Parses jwt) (i : Issuer) (now later e : ℕ) (refresh_token : String) (c : MapClaims)
      (w : World S) (rs : List (ℕ × Request)) (r : Request)
      → i.secret ≡ secret
      → jwt.parse (bearer_token r.authorization) secret now ≡ some c
      → (bearer_token r.authorization == "") ≡ false
      → (text_claim "jti" c == "") ≡ false
      → lookup "exp" c ≡ some (number e)
      → (logout store jwt i now (bearer_token r.authorization) refresh_token w).1 ≡ none
      → All (λ p. p.0 ≤ later) rs
      → (require_auth jwt secret later with_list r (
          after rs
            (logout store jwt i now (bearer_token r.authorization) refresh_token w).0.store)).1
        ≡ rejected "unauthorized" 401
  unfolding require_auth
  logged_out parses i now later e refresh_token c w rs r same p given named exp fine before =
      elim (parse_cases jwt secret later r) [
        | inl gone ↦ ground (arith)
        | inr (d, q, there, t) ↦
            let token = bearer_token r.authorization in
            let alike = parses.same-claims token secret now later p there in
            let live =
              parses.before_expiry token secret later e (there ∙ sym (ap some alike)) exp in
            let left = (logout store jwt i now token refresh_token w).0.store in
            require_auth_blocked later r (after rs left) c (q ∙ sym (ap some alike)) named (
              after-blocked rs later left (text_claim "jti" c) before
              ∙ logout-blocked store law jwt i now later e token refresh_token c w (rw same p) given
                  named exp (parses.before_expiry token secret now e p exp) live fine)
      ]

module _ {S : Type 0} (jwt : Jwt) (secret : String) (cfg : Config S) (now : ℕ) where
  -- What `Optional` makes of the reply of `RequireAuth`.
  abbrev pub otherwise : Request → Reply → Reply
  otherwise r (rejected message status) = next r
  otherwise r (next r') = next r'

  -- `Optional` lets every request through, with claims where `RequireAuth` would let it through,
  -- and without where it would refuse; both leave the store in the same state.
  optional-require_auth :
      (r : Request) (s : S)
      → let (s', reply) = require_auth jwt secret now cfg r s in
        optional jwt secret now cfg r s ≡ (s', otherwise r reply)
  unfolding optional require_auth
  optional-require_auth r s = ground arith

  require_auth-claims :
      (r r' : Request) (s s' : S)
      → require_auth jwt secret now cfg r s ≡ (s', next r')
      → (c : MapClaims) × (jwt.parse (bearer_token r.authorization) secret now ≡ some c)
        × (claims_of cfg r' ≡ some c)
  unfolding require_auth claims_of
  require_auth-claims r r' s s' h = elim (parse_cases jwt secret now r) [
    | inl p ↦ absurd (ground arith)
    | inr (c, p, q, t) ↦ (
      c,
      q,
      ground (
        arith,
        lookup-insert cfg.context_key cfg.context_key c r.locals,
        eqb_refl cfg.context_key,
      ),
    )
  ]

  -- A request that passes `RequireAuth` and then `RequireScope` has a token whose "scopes" list
  -- the scope.
  require_scope-next :
      (scope : String) (r r' r'' : Request) (s s' : S)
      → require_auth jwt secret now cfg r s ≡ (s', next r')
      → require_scope cfg scope r' ≡ next r''
      → (c : MapClaims) × (jwt.parse (bearer_token r.authorization) secret now ≡ some c)
        × (contains (to_string_slice (lookup "scopes" c)) scope ≡ true)
        × (r'' ≡ r')
  unfolding require_scope has_scope scopes
  require_scope-next scope r r' r'' s s' h g =
      let (c, p, here) = require_auth-claims r r' s s' h in (c, p, ground arith, ground arith)

  role_among-next :
      (roles : List String) (role : String) (r r' : Request)
      → role_among roles role r ≡ next r'
      → (contains roles role ≡ true) × (r' ≡ r)
  unfolding role_among
  role_among-next [] role r r' h = absurd (ground arith)
  role_among-next (x ∷ roles) role r r' h = ground (arith, role_among-next roles role r r')

  -- A request that passes `RequireAuth` and then `RequireRole`, both on the default key, has a
  -- token whose "role" is one of the roles.
  require_role-next :
      (roles : List String) (r r' r'' : Request) (s s' : S)
      → cfg.context_key ≡ default_claims_key
      → require_auth jwt secret now cfg r s ≡ (s', next r')
      → require_role roles r' ≡ next r''
      → (c : MapClaims) × (jwt.parse (bearer_token r.authorization) secret now ≡ some c)
        × (contains roles (text_claim "role" c) ≡ true)
        × (r'' ≡ r')
  unfolding require_role claims_of
  require_role-next roles r r' r'' s s' key h g =
      let (c, p, here) = require_auth-claims r r' s s' h in
      (
        c,
        p,
        ground (arith, role_among-next roles (text_claim "role" c) r' r''),
        ground (arith, role_among-next roles (text_claim "role" c) r' r''),
      )
