-- ===== src/Auth/Issuer/Rotation.antt =====
-- auth/issuer.go: rotation, the detection of reused tokens, and what a revoked family means.
use fibr.Prelude.{
  ℕ, ◌+◌, ◌≤◌, ◌≡◌, ◌⊎◌, inl, inr, refl, sym, ap, ◌∙◌, String, true, false, ◌||◌, Option, none,
  some, List, [], ◌∷◌, arith, ltb, if◌then◌else◌, ◌==◌, string_cmp, eqb_refl, Option-cases,
}
use fibr.Auth.Claims.{Jwt, MapClaims, text_claim, remaining_ttl, generate_token_with_expiry}
use fibr.Auth.Store.{TokenStore, Lawful, Answer-cases}
use fibr.Auth.Issuer.{
  Issuer, World, Result, Error, TokenPair, ok, err, invalid_token, token_reuse, from_store, new_id,
  mint, refresh, parse_valid, check_active, access_claims, refresh_claims,
}

module _ {S : Type 0} (store : TokenStore S) (law : Lawful store) (jwt : Jwt)
    (issuer : Issuer) where
  mint-draws :
      (now : ℕ) (base : MapClaims) (fid : String) (ds : List (Option String)) (s : S) (w' : World S)
      {pair : TokenPair}
      → mint store jwt issuer now base fid (record { store = s; draws = ds }) ≡ (w', ok pair)
      → (a jti : String) × (ds ≡ some a ∷ some jti ∷ w'.draws)
        × (w'.store ≡ (store.set_family fid jti issuer.refresh_ttl now s).0)
        × ((store.set_family fid jti issuer.refresh_ttl now s).1 ≡ none)
        × (generate_token_with_expiry jwt
              (refresh_claims base fid jti)
              issuer.secret
              issuer.refresh_ttl
              now
            ≡ some pair.refresh_token)
  unfolding mint new_id
  mint-draws now base fid [] s w' h = cc
  mint-draws now base fid (none ∷ ds) s w' h = cc
  mint-draws now base fid (some a ∷ []) s w' h = cc
  mint-draws now base fid (some a ∷ none ∷ ds) s w' h = cc
  mint-draws now base fid (some a ∷ some jti ∷ ds) s w' {pair} h =
      let at =
        generate_token_with_expiry jwt (access_claims base a) issuer.secret issuer.access_ttl now in
      let rt =
        generate_token_with_expiry jwt (refresh_claims base fid jti) issuer.secret
          issuer.refresh_ttl now in
      elim (Option-cases (store.set_family fid jti issuer.refresh_ttl now s).1) [
        | inl done ↦
            (a, jti, ground (arith, done), ground (arith, done), done, ground (arith, done))
        | inr (n, failed) ↦ absurd (ground (arith, failed))
      ]

  -- What a pair that was minted leaves: two draws used, the second the active token of the family.
  pub mint-ok :
      (now : ℕ) (base : MapClaims) (fid : String) (w w' : World S) {pair : TokenPair}
      → mint store jwt issuer now base fid w ≡ (w', ok pair)
      → (a jti : String) × (w.draws ≡ some a ∷ some jti ∷ w'.draws)
        × (w'.store ≡ (store.set_family fid jti issuer.refresh_ttl now w.store).0)
        × ((store.set_family fid jti issuer.refresh_ttl now w.store).1 ≡ none)
        × (generate_token_with_expiry jwt
              (refresh_claims base fid jti)
              issuer.secret
              issuer.refresh_ttl
              now
            ≡ some pair.refresh_token)
  mint-ok now base fid w w' h = mint-draws now base fid w.draws w.store w' h

  -- A token that is not of type "refresh" changes nothing.
  pub refresh_type :
      (now : ℕ) (token : String) (claims : MapClaims) (w : World S)
      → jwt.parse token issuer.secret now ≡ some claims
      → (text_claim "type" claims == "refresh") ≡ false
      → refresh store jwt issuer now token w ≡ (w, err invalid_token)
  unfolding refresh parse_valid
  refresh_type now token claims w p typed = ground arith

  -- From the first state to the second the family lost its active token for good, or the revocation
  -- in the first failed.
  abbrev pub Revokes : ℕ → String → S → S → Type 0
  Revokes t fid s s' =
      (law.active s' t fid ≡ none) ⊎ ((n : ℕ) × ((store.revoke_family fid s).1 ≡ some n))

  -- A token of a family whose active token is another one is refused as reused, and the family is
  -- revoked; or the store cannot be read.
  refresh_reuse :
      (now t : ℕ) (token : String) (claims : MapClaims) (current : String) (w : World S)
      → jwt.parse token issuer.secret now ≡ some claims
      → (text_claim "type" claims == "refresh") ≡ true
      → (text_claim "fid" claims == "" || text_claim "jti" claims == "") ≡ false
      → law.active w.store now (text_claim "fid" claims) ≡ some current
      → (current == text_claim "jti" claims) ≡ false
      → (((refresh store jwt issuer now token w).1 ≡ err token_reuse)
          × Revokes t
              (text_claim "fid" claims)
              (store.family (text_claim "fid" claims) now w.store).0
              (refresh store jwt issuer now token w).0.store)
        ⊎ ((n : ℕ) × ((refresh store jwt issuer now token w).1 ≡ err (from_store n)))
  unfolding refresh parse_valid check_active
  refresh_reuse now t token claims current w p typed named act other =
      let fid = text_claim "fid" claims in
      let s' = (store.family fid now w.store).0 in
      elim (Answer-cases (store.family fid now w.store).1) [
        | inl (o, read) ↦
            let found = law.family-answer fid now w.store o read ∙ act in
            inl (
              ground (arith, read, found),
              elim (Option-cases (store.revoke_family fid s').1) [
                | inl fine ↦
                    let gone = law.revoke_family-active fid t s' fid fine in
                    inl (ground (arith, read, found, gone, eqb_refl fid))
                | inr failed ↦ inr failed
              ],
            )
        | inr (n, failed) ↦ inr (n, ground (arith, failed))
      ]

  pub Outcome-cases :
      {A : Type 0} (r : World S × Result A)
      → ((v : World S) × (a : A) × (r ≡ (v, ok a)))
        ⊎ ((v : World S) × (e : Error) × (r ≡ (v, err e)))
  Outcome-cases (v, ok a) = inl (v, a, refl)
  Outcome-cases (v, err e) = inr (v, e, refl)

  -- The world in which `Refresh` mints, after it has read the family.
  abbrev looked_up : ℕ → String → World S → World S
  looked_up now fid w = record w { store = (store.family fid now w.store).0 }

  -- What `Refresh` does after it has minted leaves the families as they are.
  refresh-minted :
      (now t : ℕ) (token : String) (claims : MapClaims) (w w' v : World S) {pair pr : TokenPair}
      → jwt.parse token issuer.secret now ≡ some claims
      → refresh store jwt issuer now token w ≡ (w', ok pair)
      → mint store jwt issuer now claims
          (text_claim "fid" claims)
          (looked_up now (text_claim "fid" claims) w)
        ≡ (v, ok pr)
      → (w'.draws ≡ v.draws)
        × (law.active w'.store t (text_claim "fid" claims)
            ≡ law.active v.store t (text_claim "fid" claims))
        × (pair ≡ pr)
  unfolding refresh parse_valid check_active
  refresh-minted now t token claims w w' v p h m =
      let fid = text_claim "fid" claims in
      let kept =
        law.block-active (text_claim "jti" claims) (remaining_ttl claims now) now t v.store fid in
      elim (Answer-cases (store.family fid now w.store).1) [
        | inl (o, read) ↦ ground (arith, read, kept)
        | inr (n, failed) ↦ absurd (ground (arith, failed))
      ]

  refresh-unminted :
      (now : ℕ) (token : String) (claims : MapClaims) (w w' v : World S) {pair : TokenPair}
      {e : Error}
      → jwt.parse token issuer.secret now ≡ some claims
      → refresh store jwt issuer now token w ≡ (w', ok pair)
      → mint store jwt issuer now claims
          (text_claim "fid" claims)
          (looked_up now (text_claim "fid" claims) w)
        ≡ (v, err e)
      → ⊥
  unfolding refresh parse_valid check_active
  refresh-unminted now token claims w w' v p h m =
      elim (Answer-cases (store.family (text_claim "fid" claims) now w.store).1) [
        | inl (o, read) ↦ ground (arith, read)
        | inr (n, failed) ↦ ground (arith, failed)
      ]

  refresh-ok :
      (now t : ℕ) (token : String) (claims : MapClaims) (w w' : World S) {pair : TokenPair}
      → jwt.parse token issuer.secret now ≡ some claims
      → refresh store jwt issuer now token w ≡ (w', ok pair)
      → (a jti : String) × (w.draws ≡ some a ∷ some jti ∷ w'.draws)
        × (law.active w'.store t (text_claim "fid" claims)
            ≡ (if ltb (now + issuer.refresh_ttl) t then none else some jti))
  refresh-ok now t token claims w w' {pair} p h =
      let fid = text_claim "fid" claims in
      elim (Outcome-cases (mint store jwt issuer now claims fid (looked_up now fid w))) [
        | inl (v, pr, m) ↦
            let (a, jti, d, st, done, g) = mint-ok now claims fid (looked_up now fid w) v m in
            let (same, act, q) = refresh-minted now t token claims w w' v p h m in
            (
              a,
              jti,
              d ∙ ap (λ ds. some a ∷ some jti ∷ ds) (sym same),
              act
                  ∙ ap (λ s. law.active s t fid) st
                  ∙ law.set_family-active fid jti issuer.refresh_ttl now t
                      (store.family fid now w.store).0 fid done
                  ∙ rw (eqb_refl fid) refl,
            )
        | inr (v, e, m) ↦ absurd (refresh-unminted now token claims w w' v p h m)
      ]

  refresh-checks :
      (now : ℕ) (token : String) (claims : MapClaims) (w w' : World S) {pair : TokenPair}
      → jwt.parse token issuer.secret now ≡ some claims
      → refresh store jwt issuer now token w ≡ (w', ok pair)
      → ((text_claim "type" claims == "refresh") ≡ true)
        × ((text_claim "fid" claims == "" || text_claim "jti" claims == "") ≡ false)
  unfolding refresh parse_valid
  refresh-checks now token claims w w' p h = ground arith

  -- A refresh token is good for one rotation. Once it has been exchanged for a new pair, it is
  -- refused when it is presented again, as the next operation of the issuer, before the refresh TTL is
  -- over and while it still parses to its claims, where the id drawn for the new refresh token differs
  -- from its own: as reused, and then its family has no active token any more or the revocation of the
  -- family failed; or with the error of a store that cannot be read.
  pub refresh_twice :
      (now later t : ℕ) (token : String) (claims : MapClaims) (w w' : World S) (pair : TokenPair)
      → jwt.parse token issuer.secret now ≡ some claims
      → jwt.parse token issuer.secret later ≡ some claims
      → refresh store jwt issuer now token w ≡ (w', ok pair)
      → ((a jti : String)
          → w.draws ≡ some a ∷ some jti ∷ w'.draws
          → (jti == text_claim "jti" claims) ≡ false)
      → later ≤ now + issuer.refresh_ttl
      → (((refresh store jwt issuer later token w').1 ≡ err token_reuse)
          × Revokes t
              (text_claim "fid" claims)
              (store.family (text_claim "fid" claims) later w'.store).0
              (refresh store jwt issuer later token w').0.store)
        ⊎ ((n : ℕ) × ((refresh store jwt issuer later token w').1 ≡ err (from_store n)))
  refresh_twice now later t token claims w w' pair p p' h fresh soon =
      let (a, jti, d, act) = refresh-ok now later token claims w w' p h in
      let (typed, named) = refresh-checks now token claims w w' p h in
      refresh_reuse later t token claims jti w' p' typed named (act ∙ ground arith) (fresh a jti d)
