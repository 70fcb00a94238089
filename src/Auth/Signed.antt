-- ===== src/Auth/Signed.antt =====
-- A signer for the tests of auth/: it signs two maps of claims, with tokens of their own.
use fibr.Prelude.{
  inl, inr, Bool-cases, ℕ, ◌*◌, ◌<◌, ◌≡◌, refl, String, Bool, true, false, ◌&&◌, Option, none, some,
  [], ◌∷◌, arith, ltb, if◌then◌else◌, ◌==◌, string_cmp, nat_cmp,
}
use fibr.Prelude.Assoc.{lookup}
use fibr.Auth.Claims.{Claim, text, number, MapClaims, Jwt, second}
use fibr.Auth.Issuer.Acceptance.{Signs}
use fibr.Auth.Middleware.Access.{Parses}

-- Equal texts, and equal numbers; a list of items counts as different from all.
abbrev same_claim : Claim → Claim → Bool
same_claim (text s) (text t) = s == t
same_claim (number m) (number n) = m == n
same_claim a b = false

abbrev same : MapClaims → MapClaims → Bool
same [] [] = true
same ((k, v) ∷ c) ((l, u) ∷ d) = k == l && same_claim v u && same c d
same c d = false

same_claim-≡ : (a b : Claim) → same_claim a b ≡ true → a ≡ b
same_claim-≡ (text s) (text t) h = ground (arith, string_cmp.eqb_iff s t)
same_claim-≡ (number m) (number n) h = ground (arith, nat_cmp.eqb_iff m n)
same_claim-≡ a b h = ground arith

same-≡ : (c d : MapClaims) → same c d ≡ true → c ≡ d
same-≡ [] [] h = refl
same-≡ [] (e ∷ d) h = absurd (ground arith)
same-≡ (e ∷ c) [] h = absurd (ground arith)
same-≡ ((k, v) ∷ c) ((l, u) ∷ d) h =
    ground (arith, string_cmp.eqb_iff k l, same_claim-≡ v u, same-≡ c d)

abbrev lasts : Option Claim → ℕ → Bool
lasts (some (number e)) t = ltb t (e * second)
lasts other t = false

-- The key is "k", and the tokens are "a" and "r".
abbrev pub signer : MapClaims → MapClaims → Jwt
signer am rm = record {
  sign = λ c secret.
      if secret == "k"
      then (if same c am then some "a" else if same c rm then some "r" else none)
      else none;
  parse = λ token secret t.
      if secret == "k"
      then (if token == "a"
          then (if lasts (lookup "exp" am) t then some am else none)
          else if token == "r" && lasts (lookup "exp" rm) t
          then some rm
          else none)
      else none;
}

lasts_cases :
    (c d : MapClaims) (exp t : ℕ)
    → c ≡ d
    → lookup "exp" c ≡ some (number exp)
    → t < exp * second
    → lasts (lookup "exp" d) t ≡ true
lasts_cases c d exp t q h l = ground arith

apart : (token : String) → token ≡ "r" → (token == "a") ≡ false
apart token h = rw h refl

pub signer-Signs : (am rm : MapClaims) → Signs (signer am rm)
signer-Signs am rm = record {
  parse-sign = λ c secret token exp now g h l. elim (Bool-cases (same c am)) [
    | inl s ↦ ground (
      arith,
      string_cmp.eqb_iff token "a",
      same-≡ c am s,
      lasts_cases c am exp now (same-≡ c am s) h l,
    )
    | inr s ↦ elim (Bool-cases (same c rm)) [
      | inl s' ↦ ground (
        arith,
        string_cmp.eqb_iff token "r",
        apart token,
        same-≡ c rm s',
        lasts_cases c rm exp now (same-≡ c rm s') h l,
      )
      | inr s' ↦ absurd (ground arith)
    ]
  ];
}

pub signer-Parses : (am rm : MapClaims) → Parses (signer am rm)
signer-Parses am rm = record {
  same-claims = λ token secret t u {c} {d} p q. ground arith;
  before_expiry = λ token secret t e {c} p h. ground arith;
}
