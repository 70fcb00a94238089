-- ===== src/Auth/Issuer.antt =====
-- auth/issuer.go: token pairs, their rotation and revocation. The random source is the list of the
-- draws still to come, each with an id or a failure.
pub mod Rotation
pub mod Acceptance
pub mod Revocation
use fibr.Prelude.{
  ℕ, ◌+◌, ◌*◌, ◌/◌, ◌<◌, ◌≡◌, String, Bool, true, false, Option, none, some, List, [], ◌∷◌, ltb,
  if◌then◌else◌, ◌==◌, ◌||◌, not, string_cmp,
}
use fibr.Prelude.Int.{ℤ, pos, pos_part, ltb_ℤ}
use fibr.Prelude.Assoc.{lookup, insert}
use fibr.Auth.Claims.{
  Claim, text, null, MapClaims, Jwt, text_claim, generate_token_with_expiry, remaining_ttl, second,
}
use fibr.Auth.Store.{Answer, answer, store_error, TokenStore}

pub data Error : Type 0 where
  invalid_token token_reuse missing_sub no_entropy not_signed : Error
  from_store : ℕ → Error

pub data Result (A : Type 0) : Type 0 where
  ok : A → Result A
  err : Error → Result A

pub record TokenPair : Type 0 where
  pub access_token : String
  pub refresh_token : String
  pub token_type : String
  pub expires_in : ℕ
  pub refresh_expires_in : ℕ

pub record Issuer : Type 0 where
  pub secret : String
  pub access_ttl : ℕ
  pub refresh_ttl : ℕ

apply_options : List (Issuer → Issuer) → Issuer → Issuer
apply_options [] i = i
apply_options (opt ∷ opts) i = apply_options opts (opt i)

pub new_issuer : String → List (Issuer → Issuer) → Issuer
unfolding apply_options
new_issuer secret opts =
    apply_options opts
      (record { secret = secret; access_ttl = 900 * second; refresh_ttl = 604800 * second })

abbrev pub with_access_ttl : ℤ → Issuer → Issuer
with_access_ttl d i = if ltb_ℤ (pos 0) d then record i { access_ttl = pos_part d } else i

abbrev pub with_refresh_ttl : ℤ → Issuer → Issuer
with_refresh_ttl d i = if ltb_ℤ (pos 0) d then record i { refresh_ttl = pos_part d } else i

-- What an operation of the issuer changes: the store, and the random source.
pub record World (S : Type 0) : Type 0 where
  pub store : S
  pub draws : List (Option String)

abbrev pub M : Type 0 → Type 0 → Type 0
M S A = World S → World S × Result A

infixl 5 ◌>>=◌
abbrev pub ◌>>=◌ : {S A B : Type 0} → M S A → (A → M S B) → M S B
(m >>= f) w = let (w', r) = m w in elim r [ ok a ↦ f a w' | err e ↦ (w', err e) ]

abbrev pub fail : {S A : Type 0} → Error → M S A
fail e w = (w, err e)

abbrev pub pure : {S A : Type 0} → A → M S A
pure a w = (w, ok a)

abbrev draw : {S : Type 0} → List (Option String) → S → World S × Result String
draw [] s = (record { store = s; draws = [] }, err no_entropy)
draw (none ∷ ds) s = (record { store = s; draws = ds }, err no_entropy)
draw (some i ∷ ds) s = (record { store = s; draws = ds }, ok i)

unfoldable pub new_id : {S : Type 0} → M S String
new_id w = draw w.draws w.store

-- A write to the store, with its error.
abbrev pub write : {S : Type 0} → (S → S × Option ℕ) → M S (Unit {0})
write op w =
    let (s, e) = op w.store in
    elim e [
      | none ↦ (record w { store = s }, ok tt)
      | some n ↦ (record w { store = s }, err (from_store n))
    ]

-- A write whose error is ignored.
abbrev pub write_ignored : {S : Type 0} → (S → S × Option ℕ) → M S (Unit {0})
write_ignored op w = (record w { store = (op w.store).0 }, ok tt)

abbrev pub or_fail : {S A : Type 0} → Option A → Error → M S A
or_fail none e w = (w, err e)
or_fail (some a) e w = (w, ok a)

abbrev pub guard : {S : Type 0} → Bool → Error → M S (Unit {0})
guard true e w = (w, ok tt)
guard false e w = (w, err e)

abbrev pub read_family : {S : Type 0} → TokenStore S → String → ℕ → M S (Option String)
read_family store fid now w =
    let (s, a) = store.family fid now w.store in
    elim a [
      | answer o ↦ (record w { store = s }, ok o)
      | store_error n ↦ (record w { store = s }, err (from_store n))
    ]

-- The claims that both tokens of a pair copy from the claims of the login, or of the old token.
abbrev copied : List String
copied = "email" ∷ "scopes" ∷ "team" ∷ "role" ∷ []

unfoldable pub copy_claims : List String → MapClaims → MapClaims → MapClaims
copy_claims [] base claims = claims
copy_claims (k ∷ ks) base claims =
    copy_claims ks base (elim (lookup k base) [ none ↦ claims | some v ↦ insert k v claims ])

-- `base["sub"]`, nil where it is absent.
abbrev sub_of : MapClaims → Claim
sub_of base = elim (lookup "sub" base) [ none ↦ null | some v ↦ v ]

unfoldable pub access_claims : MapClaims → String → MapClaims
unfolding copy_claims
access_claims base jti =
    copy_claims copied base
      (("sub", sub_of base) ∷ ("type", text "access") ∷ ("jti", text jti) ∷ [])

unfoldable pub refresh_claims : MapClaims → String → String → MapClaims
unfolding copy_claims
refresh_claims base fid jti =
    copy_claims copied base
      (("sub", sub_of base) ∷ ("type", text "refresh") ∷ ("fid", text fid) ∷ ("jti", text jti) ∷ [])

module _ {S : Type 0} (store : TokenStore S) (jwt : Jwt) (issuer : Issuer) (now : ℕ) where
  open issuer use {secret, access_ttl, refresh_ttl}

  unfoldable pub mint : MapClaims → String → M S TokenPair
  mint base fid = do
    access_jti ← new_id
    refresh_jti ← new_id
    at ←
        or_fail
          (generate_token_with_expiry jwt (access_claims base access_jti) secret access_ttl now)
          not_signed
    rt ←
        or_fail
          (generate_token_with_expiry jwt (refresh_claims base fid refresh_jti) secret refresh_ttl
            now)
          not_signed
    done ← write (store.set_family fid refresh_jti refresh_ttl now)
    pure (record {
      access_token = at;
      refresh_token = rt;
      token_type = "Bearer";
      expires_in = access_ttl / second;
      refresh_expires_in = refresh_ttl / second;
    })

  unfoldable pub issue : MapClaims → M S TokenPair
  issue claims =
      if text_claim "sub" claims == "" then fail missing_sub else (do fid ← new_id; mint claims fid)

  unfoldable pub parse_valid : String → M S MapClaims
  parse_valid token = or_fail (jwt.parse token secret now) invalid_token

  -- The active token of the family is compared with the one presented.
  unfoldable pub check_active : MapClaims → String → String → Option String → M S (Unit {0})
  check_active claims fid jti none = fail invalid_token
  check_active claims fid jti (some active) =
      if active == jti
      then pure tt
      else (do done ← write_ignored (store.revoke_family fid); fail token_reuse)

  unfoldable pub refresh : String → M S TokenPair
  refresh token = do
    claims ← parse_valid token
    typed ← guard (text_claim "type" claims == "refresh") invalid_token
    let fid = text_claim "fid" claims
    let jti = text_claim "jti" claims
    named ← guard (not (fid == "" || jti == "")) invalid_token
    active ← read_family store fid now
    checked ← check_active claims fid jti active
    pair ← mint claims fid
    let rem = remaining_ttl claims now
    blocked ← (if ltb 0 rem then write_ignored (store.block jti rem now) else pure tt)
    pure pair

  -- The two halves of `Logout`; each returns the error of its write.
  unfoldable pub logout_access : String → World S → World S × Option ℕ
  logout_access token w = if token == "" then (w, none) else elim (jwt.parse token secret now) [
    | none ↦ (w, none)
    | some claims ↦
        let jti = text_claim "jti" claims in
        let rem = remaining_ttl claims now in
        if jti == "" || not (ltb 0 rem)
        then (w, none)
        else (let (s, e) = store.block jti rem now w.store in (record w { store = s }, e))
  ]

  unfoldable pub logout_refresh : String → World S → World S × Option ℕ
  logout_refresh token w = if token == "" then (w, none) else elim (jwt.parse token secret now) [
    | none ↦ (w, none)
    | some claims ↦
        let fid = text_claim "fid" claims in
        if fid == ""
        then (w, none)
        else (let (s, e) = store.revoke_family fid w.store in (record w { store = s }, e))
  ]

  unfoldable pub logout : String → String → World S → World S × Option ℕ
  logout access refresh_token w =
      let (w', first) = logout_access access w in
      let (w'', later) = logout_refresh refresh_token w' in
      (w'', elim first [ none ↦ later | some e ↦ some e ])
