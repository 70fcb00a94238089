-- ===== src/Auth/Examples.antt =====
-- Tests of auth/, over the in-process token store.
use fibr.Prelude.{
  ℕ, ◌⊎◌, ◌*◌, ◌≡◌, refl, String, true, false, not, ◌||◌, Option, none, some, List, [], ◌∷◌, arith,
  ◌==◌, string_cmp,
}
use fibr.Prelude.Assoc.{lookup, insert}
use fibr.Auth.Claims.{
  remaining_ttl, generate_token_with_expiry, text, number, items, MapClaims, Jwt, text_claim,
  second,
}
use fibr.Auth.Bearer.{bearer_token}
use fibr.Auth.Memory.{
  block, family, is_blocked, set_family, MemoryStore, new_memory_store, memory, memory-Lawful,
}
use fibr.Auth.Issuer.{
  parse_valid, check_active, mint, new_id, copy_claims, Issuer, World, ok, err, token_reuse,
  from_store, logout_access, logout_refresh, TokenPair, issue, refresh, logout, access_claims,
  refresh_claims,
}
use fibr.Auth.Issuer.Rotation.{Revokes, refresh_twice}
use fibr.Auth.Issuer.Acceptance.{accepts, accepts-refresh-issue}
use fibr.Auth.Middleware.{
  parse, blocklisted, Config, Request, rejected, next, require_auth, claims_of, default_claims_key,
}
use fibr.Auth.Middleware.Access.{after, require_auth-next, logged_out}
use fibr.Auth.Signed.{signer, signer-Signs, signer-Parses}

abbrev issuer : Issuer
issuer = record { secret = "k"; access_ttl = 10 * second; refresh_ttl = 100 * second }

abbrev user : MapClaims
user = ("sub", text "u") ∷ ("role", text "owner") ∷ []

abbrev am : MapClaims
am = insert "exp" (number 10) (access_claims user "a")

abbrev rm : MapClaims
rm = insert "exp" (number 100) (refresh_claims user "f" "j")

abbrev jwt : Jwt
jwt = signer am rm

-- A signer that signs and accepts everything, for the refresh token.
abbrev loose : Jwt
loose = record { sign = λ c secret. some "t"; parse = λ token secret t. some rm }

abbrev five : List (Option String)
five = some "f" ∷ some "a" ∷ some "j" ∷ some "b" ∷ some "j2" ∷ []

abbrev start : World MemoryStore
start = record { store = new_memory_store; draws = five }

abbrev issued : World MemoryStore
issued = record {
  store = (memory.set_family "f" "j" (100 * second) 0 new_memory_store).0;
  draws = some "b" ∷ some "j2" ∷ [];
}

abbrev pair : TokenPair
pair = record {
  access_token = "a";
  refresh_token = "r";
  token_type = "Bearer";
  expires_in = 10;
  refresh_expires_in = 100;
}

issues : issue memory jwt issuer 0 user start ≡ (issued, ok pair)
unfolding issue mint new_id copy_claims access_claims refresh_claims generate_token_with_expiry
    text_claim lookup insert set_family new_memory_store
issues = refl

accepts-refresh-issue_example : accepts (refresh memory jwt issuer (5 * second) "r" issued).1 ≡ true
accepts-refresh-issue_example =
    accepts-refresh-issue memory memory-Lawful jwt (signer-Signs am rm) issuer 0 (5 * second) user
      "f" "a" "j" "b" "j2" [] start issued pair refl refl refl issues (omega arith)

abbrev rotated : World MemoryStore
rotated = (refresh memory loose issuer 0 "r" issued).0

abbrev second_pair : TokenPair
second_pair = record {
  access_token = "t";
  refresh_token = "t";
  token_type = "Bearer";
  expires_in = 10;
  refresh_expires_in = 100;
}

rotates : refresh memory loose issuer 0 "r" issued ≡ (rotated, ok second_pair)
unfolding refresh parse_valid check_active remaining_ttl mint new_id copy_claims access_claims
    refresh_claims generate_token_with_expiry text_claim lookup insert set_family family block
    new_memory_store
rotates = refl

fresh :
    (a jti : String)
    → issued.draws ≡ some a ∷ some jti ∷ rotated.draws
    → (jti == text_claim "jti" rm) ≡ false
unfolding refresh_claims copy_claims text_claim lookup insert
fresh a jti d = let drawn : jti ≡ "j2" = cc in rw drawn refl

refresh_twice_example :
    (((refresh memory loose issuer second "r" rotated).1 ≡ err token_reuse)
      × Revokes memory memory-Lawful loose issuer
          (2 * second)
          (text_claim "fid" rm)
          (memory.family (text_claim "fid" rm) second rotated.store).0
          (refresh memory loose issuer second "r" rotated).0.store)
    ⊎ ((n : ℕ) × ((refresh memory loose issuer second "r" rotated).1 ≡ err (from_store n)))
refresh_twice_example =
    refresh_twice memory memory-Lawful loose issuer 0 second (2 * second) "r" rm issued rotated
      second_pair refl refl rotates fresh (omega arith)

-- Another token of the family "f" than the active one.
abbrev other : World MemoryStore
other = record {
  store = (memory.set_family "f" "j3" (100 * second) 0 new_memory_store).0;
  draws = [];
}

-- Claims with a scope, and requests with their token.
abbrev reader : MapClaims
reader =
    ("jti", text "a")
    ∷ ("scopes", items (some "read" ∷ none ∷ []))
    ∷ ("role", text "owner")
    ∷ ("exp", number 10)
    ∷ []

abbrev reads : Jwt
reads = signer reader rm

abbrev request : Request
request = record { authorization = "bearer a"; locals = [] }

abbrev passed : Request
passed = record { authorization = "bearer a"; locals = (default_claims_key, reader) ∷ [] }

abbrev plain : Config MemoryStore
plain = record { context_key = default_claims_key; store = some memory }

passes : require_auth reads "k" 0 plain request new_memory_store ≡ (new_memory_store, next passed)
unfolding require_auth parse blocklisted bearer_token text_claim lookup insert is_blocked
    new_memory_store
passes = refl

require_auth-next_example :
    (c : MapClaims) × (reads.parse (bearer_token "bearer a") "k" 0 ≡ some c)
    × ((text_claim "type" c == "refresh") ≡ false)
    × ((text_claim "jti" c == ""
          || not (memory-Lawful.blocked new_memory_store 0 (text_claim "jti" c)))
        ≡ true)
    × (claims_of plain passed ≡ some c)
require_auth-next_example =
    require_auth-next memory memory-Lawful reads "k" default_claims_key 0 request passed
      new_memory_store new_memory_store passes

logged_out_example :
    (require_auth reads "k" second plain request (
      after memory memory-Lawful reads "k" default_claims_key
        ((second, request) ∷ [])
        (logout memory reads issuer 0
          (bearer_token "bearer a")
          ""
          (record { store = new_memory_store; draws = [] })).0.store)).1
    ≡ rejected "unauthorized" 401
unfolding bearer_token text_claim lookup logout logout_access logout_refresh remaining_ttl block
logged_out_example =
    logged_out memory memory-Lawful reads "k" default_claims_key (signer-Parses reader rm) issuer 0
      second 10 "" reader (record { store = new_memory_store; draws = [] }) ((second, request) ∷ [])
      request refl refl refl refl refl refl (omega arith, tt)
