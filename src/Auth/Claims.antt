-- ===== src/Auth/Claims.antt =====
-- jwt/jwt.go and the claims that auth/ reads. golang-jwt, which signs and parses tokens, is a
-- parameter. Times are in nanoseconds; the "exp" claim is in seconds.
use fibr.Prelude.{ℕ, ◌+◌, ◌*◌, ◌/◌, ◌-◌, String, Option, none, some, List, [], ◌∷◌, string_cmp}
use fibr.Prelude.Assoc.{lookup, insert}

-- A claim's value, as the JSON decoder leaves it. An item of a list that is no text is `none`.
pub data Claim : Type 0 where
  text : String → Claim
  number : ℕ → Claim
  items : List (Option String) → Claim
  null : Claim

abbrev pub MapClaims : Type 0
MapClaims = List (String × Claim)

-- `claims[k].(string)`, and "" where that fails.
abbrev pub as_text : Option Claim → String
as_text none = ""
as_text (some (text s)) = s
as_text (some (number n)) = ""
as_text (some (items l)) = ""
as_text (some null) = ""

unfoldable pub text_claim : String → MapClaims → String
text_claim k claims = as_text (lookup k claims)

-- golang-jwt: `SignedString` with HMAC, and `Parse` with the check of the signature and the expiry.
pub record Jwt : Type 0 where
  pub sign : MapClaims → String → Option String
  pub parse : String → String → ℕ → Option MapClaims

abbrev pub second : ℕ
second = 1000000000

-- `GenerateTokenWithExpiry`
unfoldable pub generate_token_with_expiry : Jwt → MapClaims → String → ℕ → ℕ → Option String
generate_token_with_expiry jwt claims secret ttl now =
    jwt.sign (insert "exp" (number ((now + ttl) / second)) claims) secret

-- `time.Until`, and 0 for what is past.
abbrev pub until : Option Claim → ℕ → ℕ
until (some (number unix)) now = unix * second - now
until _ now = 0

unfoldable pub remaining_ttl : MapClaims → ℕ → ℕ
remaining_ttl claims now = until (lookup "exp" claims) now

abbrev pub texts_of : List (Option String) → List String
texts_of [] = []
texts_of (none ∷ l) = texts_of l
texts_of (some s ∷ l) = s ∷ texts_of l

abbrev pub to_string_slice : Option Claim → List String
to_string_slice (some (items l)) = texts_of l
to_string_slice _ = []
