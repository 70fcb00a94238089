-- ===== src/Auth/Issuer/Revocation.antt =====
-- auth/issuer.go: what a logout leaves.
use fibr.Prelude.{
  ℕ, ◌*◌, ◌-◌, ◌<◌, ◌≡◌, String, true, false, none, some, arith, ◌==◌, string_cmp, eqb_refl,
  Option-cases, inl, inr,
}
use fibr.Prelude.Assoc.{lookup}
use fibr.Auth.Claims.{number, Jwt, MapClaims, text_claim, remaining_ttl, second}
use fibr.Auth.Store.{TokenStore, Lawful}
use fibr.Auth.Issuer.{Issuer, World, logout, logout_access, logout_refresh}

module _ {S : Type 0} (store : TokenStore S) (law : Lawful store) (jwt : Jwt) where
  logout_refresh-blocked :
      (i : Issuer) (now t : ℕ) (token : String) (w : World S) (k : String)
      → law.blocked (logout_refresh store jwt i now token w).0.store t k ≡ law.blocked w.store t k
  unfolding logout_refresh
  logout_refresh-blocked i now t token w k = elim (Option-cases (jwt.parse token i.secret now)) [
    | inl p ↦ ground arith
    | inr (c, p) ↦ ground (arith, law.revoke_family-blocked (text_claim "fid" c) t w.store k)
  ]

  -- A `Logout` without an error revokes the id of the access token until the token expires,
  -- whatever refresh token comes with it.
  pub logout-blocked :
      (i : Issuer) (now t e : ℕ) (access refresh_token : String) (c : MapClaims) (w : World S)
      → jwt.parse access i.secret now ≡ some c
      → (access == "") ≡ false
      → (text_claim "jti" c == "") ≡ false
      → lookup "exp" c ≡ some (number e)
      → now < e * second
      → t < e * second
      → (logout store jwt i now access refresh_token w).1 ≡ none
      → law.blocked (logout store jwt i now access refresh_token w).0.store t (text_claim "jti" c)
        ≡ true
  unfolding logout logout_access remaining_ttl
  logout-blocked i now t e access refresh_token c w p given named exp soon before fine =
      let jti = text_claim "jti" c in
      let rest =
        logout_refresh-blocked i now t refresh_token (logout_access store jwt i now access w).0
          jti in
      elim (Option-cases (store.block jti (e * second - now) now w.store).1) [
        | inl done ↦
            let there = law.block-blocked jti (e * second - now) now t w.store jti done in
            ground (arith, done, there, rest, eqb_refl jti)
        | inr (n, failed) ↦ absurd (ground (arith, failed, fine))
      ]
