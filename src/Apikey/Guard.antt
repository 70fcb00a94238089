-- ===== src/Apikey/Guard.antt =====
-- apikey/middleware.go: who gets through.
use fibr.Prelude.{
  ◌≡◌, refl, String, true, Option, some, contains, Bool-cases, inl, inr, ◌==◌, string_cmp, arith,
}
use fibr.Apikey.{
  Identity, Found, known, unknown, lookup_error, Authenticator, done, Handler, middleware, admit,
  require_scope,
}

-- The handler behind both guards, which shows the locals that it was called with.
abbrev pub last : Handler
last locals = done locals

admit-known :
    (found : Found) (scope : String) (locals got : Option Identity)
    → admit found (require_scope scope last) locals ≡ done got
    → (id : Identity) × (found ≡ known id) × (contains id.scopes scope ≡ true) × (got ≡ some id)
unfolding require_scope
admit-known (lookup_error e) scope locals got h = absurd (ground arith)
admit-known unknown scope locals got h = absurd (ground arith)
admit-known (known id) scope locals got h = elim (Bool-cases (contains id.scopes scope)) [
  | inl allowed ↦ (id, refl, allowed, ground (arith, allowed))
  | inr forbidden ↦ absurd (ground (arith, forbidden))
]

-- A request that gets through both guards has a key whose hash the store knows, and its handler is
-- called with the identity of that very key, which has the scope.
pub require_scope-known :
    (hash : String → String) (a : Authenticator) (get : String → String) (scope : String)
    (locals got : Option Identity)
    → middleware hash a get (require_scope scope last) locals ≡ done got
    → (id : Identity) × (a.store (hash (get a.header)) ≡ known id)
      × (contains id.scopes scope ≡ true)
      × (got ≡ some id)
unfolding middleware
require_scope-known hash a get scope locals got h = elim (Bool-cases (get a.header == "")) [
  | inl bare ↦ absurd (ground (arith, bare))
  | inr keyed ↦ admit-known (a.store (hash (get a.header))) scope locals got (ground (arith, keyed))
]
