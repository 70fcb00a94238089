-- ===== src/Auth/Issuer/Acceptance.antt =====
-- auth/issuer.go: the tokens that the issuer hands out are accepted.
use fibr.Prelude.{
  ℕ, ◌+◌, ◌*◌, ◌/◌, ◌<◌, ◌≡◌, inl, inr, refl, ap, ◌∙◌, String, Bool, true, false, ◌||◌, Option,
  none, some, List, [], ◌∷◌, arith, contains, ltb, ◌==◌, string_cmp, eqb_refl, Bool-cases,
  Option-cases,
}
use fibr.Prelude.Assoc.{lookup, insert, lookup-insert}
use fibr.Auth.Claims.{
  text, number, Jwt, MapClaims, text_claim, as_text, generate_token_with_expiry, second,
}
use fibr.Auth.Store.{TokenStore, Lawful, Answer-cases}
use fibr.Auth.Issuer.{
  Issuer, World, Result, TokenPair, ok, err, not_signed, from_store, new_id, mint, issue, refresh,
  parse_valid, check_active, refresh_claims, copy_claims, copied, sub_of,
}
use fibr.Auth.Issuer.Rotation.{mint-ok}

-- What the issuer relies on of golang-jwt: a token that was signed with a secret parses to its
-- claims under that secret until its expiry.
pub record Signs (jwt : Jwt) : Type 0 where
  pub parse-sign :
      (c : MapClaims) (secret token : String) (exp now : ℕ)
      → jwt.sign c secret ≡ some token
      → lookup "exp" c ≡ some (number exp)
      → now < exp * second
      → jwt.parse token secret now ≡ some c

copy_claims-lookup :
    (k : String) (ks : List String) (base c : MapClaims)
    → contains ks k ≡ false
    → lookup k (copy_claims ks base c) ≡ lookup k c
unfolding copy_claims
copy_claims-lookup k [] base c h = refl
copy_claims-lookup k (j ∷ ks) base c h = elim (Option-cases (lookup j base)) [
  | inl p ↦ rw (p, copy_claims) (copy_claims-lookup k ks base c (ground arith))
  | inr (v, p) ↦
      rw (p, copy_claims)
        (copy_claims-lookup k ks base (insert j v c) (ground arith)
          ∙ ground (arith, lookup-insert j k v c))
]

-- What `mint` writes into a refresh token before it copies the claims of the login.
abbrev own_claims : MapClaims → String → String → MapClaims
own_claims base fid jti =
    ("sub", sub_of base) ∷ ("type", text "refresh") ∷ ("fid", text fid) ∷ ("jti", text jti) ∷ []

lookup-refresh_claims :
    (k : String) (base : MapClaims) (fid jti : String) (exp : ℕ)
    → contains copied k ≡ false
    → ("exp" == k) ≡ false
    → lookup k (insert "exp" (number exp) (refresh_claims base fid jti))
      ≡ lookup k (own_claims base fid jti)
unfolding refresh_claims
lookup-refresh_claims k base fid jti exp h ne =
    rw (lookup-insert "exp" k (number exp) (refresh_claims base fid jti))
      (rw ne (copy_claims-lookup k copied base (own_claims base fid jti) h))

-- The claims that make a token the refresh token of its family.
refresh_claims-text :
    (base : MapClaims) (fid jti : String) (exp : ℕ)
    → let c = insert "exp" (number exp) (refresh_claims base fid jti) in
      (text_claim "type" c ≡ "refresh")
      × (text_claim "fid" c ≡ fid)
      × (text_claim "jti" c ≡ jti)
      × (lookup "exp" c ≡ some (number exp))
unfolding text_claim lookup
refresh_claims-text base fid jti exp = (
  ap as_text (lookup-refresh_claims "type" base fid jti exp refl refl),
  ap as_text (lookup-refresh_claims "fid" base fid jti exp refl refl),
  ap as_text (lookup-refresh_claims "jti" base fid jti exp refl refl),
  lookup-insert "exp" "exp" (number exp) (refresh_claims base fid jti),
)

-- A new pair, or a failure to sign one or to reach the store: the token presented was not refused.
abbrev pub accepts : {A : Type 0} → Result A → Bool
accepts (ok a) = true
accepts (err not_signed) = true
accepts (err (from_store n)) = true
accepts (err e) = false

within :
    (now later ttl : ℕ) → later < ((now + ttl) / second) * second → ltb (now + ttl) later ≡ false
within now later ttl soon = ground arith

module _ {S : Type 0} (store : TokenStore S) (law : Lawful store) (jwt : Jwt) (signs : Signs jwt)
    (issuer : Issuer) where
  accepts-mint :
      (now : ℕ) (base : MapClaims) (fid a jti : String) (ds : List (Option String)) (s : S)
      → accepts
          (mint store jwt issuer now base fid
            (record { store = s; draws = some a ∷ some jti ∷ ds })).1
        ≡ true
  unfolding mint new_id
  accepts-mint now base fid a jti ds s = ground arith

  -- `Refresh` does not refuse the active token of a family.
  accepts-refresh :
      (now : ℕ) (token : String) (claims : MapClaims) (a jti : String) (w : World S)
      (ds : List (Option String))
      → w.draws ≡ some a ∷ some jti ∷ ds
      → jwt.parse token issuer.secret now ≡ some claims
      → (text_claim "type" claims == "refresh") ≡ true
      → (text_claim "fid" claims == "" || text_claim "jti" claims == "") ≡ false
      → law.active w.store now (text_claim "fid" claims) ≡ some (text_claim "jti" claims)
      → accepts (refresh store jwt issuer now token w).1 ≡ true
  unfolding refresh parse_valid check_active
  accepts-refresh now token claims a jti w ds drawn p typed named act =
      let fid = text_claim "fid" claims in
      let s' = (store.family fid now w.store).0 in
      let minted = accepts-mint now claims fid a jti ds s' in
      elim (Answer-cases (store.family fid now w.store).1) [
        | inl (o, read) ↦
            let found = law.family-answer fid now w.store o read ∙ act in
            ground (arith, read, found, minted, eqb_refl (text_claim "jti" claims))
        | inr (n, failed) ↦ ground (arith, failed)
      ]

  issue-draws :
      (now : ℕ) (claims : MapClaims) (ds : List (Option String)) (s : S) (w' : World S)
      {pair : TokenPair}
      → issue store jwt issuer now claims (record { store = s; draws = ds }) ≡ (w', ok pair)
      → (fid a jti : String) × (ds ≡ some fid ∷ some a ∷ some jti ∷ w'.draws)
        × (w'.store ≡ (store.set_family fid jti issuer.refresh_ttl now s).0)
        × ((store.set_family fid jti issuer.refresh_ttl now s).1 ≡ none)
        × (generate_token_with_expiry jwt
              (refresh_claims claims fid jti)
              issuer.secret
              issuer.refresh_ttl
              now
            ≡ some pair.refresh_token)
  unfolding issue new_id
  issue-draws now claims [] s w' h = absurd (ground arith)
  issue-draws now claims (none ∷ ds) s w' h = absurd (ground arith)
  issue-draws now claims (some fid ∷ ds) s w' {pair = pair} h =
      elim (Bool-cases (text_claim "sub" claims == "")) [
        | inl x ↦ absurd (ground arith)
        | inr x ↦
            let (a, jti, d, st, done, g) =
              mint-ok store law jwt issuer now claims fid (record { store = s; draws = ds }) w'
                {pair = pair} (ground arith) in
            (fid, a, jti, ap (λ l. some fid ∷ l) d, st, done, g)
      ]

  -- The refresh token of a pair that `Issue` returned is not refused by a `Refresh` before it
  -- expires that is the next operation of the issuer, where the ids drawn for its family and for it
  -- are not empty and the random source gives two more ids: the answer is a new pair, the error that
  -- it cannot be signed, or an error of the store.
  pub accepts-refresh-issue :
      (now later : ℕ) (claims : MapClaims) (fid a jti a' jti' : String) (ds : List (Option String))
      (w w' : World S) (pair : TokenPair)
      → w.draws ≡ some fid ∷ some a ∷ some jti ∷ some a' ∷ some jti' ∷ ds
      → (fid == "") ≡ false
      → (jti == "") ≡ false
      → issue store jwt issuer now claims w ≡ (w', ok pair)
      → later < ((now + issuer.refresh_ttl) / second) * second
      → accepts (refresh store jwt issuer later pair.refresh_token w').1 ≡ true
  unfolding generate_token_with_expiry
  accepts-refresh-issue now later claims fid a jti a' jti' ds w w' pair drawn f_named j_named h
        soon =
      let (f, a1, j, d, st, done, g) = issue-draws now claims w.draws w.store w' {pair = pair} h in
      let c =
        insert "exp" (number ((now + issuer.refresh_ttl) / second)) (refresh_claims claims f j) in
      let (type, family, id, exp) =
        refresh_claims-text claims f j ((now + issuer.refresh_ttl) / second) in
      let parsed =
        signs.parse-sign c issuer.secret pair.refresh_token ((now + issuer.refresh_ttl) / second)
          later g exp soon in
      let here = law.set_family-active f j issuer.refresh_ttl now later w.store f done in
      let same : f ≡ fid = cc in
      let named : j ≡ jti = cc in
      let lasts = within now later issuer.refresh_ttl soon in
      accepts-refresh later pair.refresh_token c a' jti' w' ds (cc) parsed (rw type refl)
        (rw (family, id, same, named, f_named, j_named) refl)
        (rw (family, id, st, here, eqb_refl f, lasts) refl)
