-- ===== src/Apikey/Examples.antt =====
-- apikey/apikey.go, apikey/middleware.go: runs of the code.
use fibr.Prelude.{◌≡◌, refl, String, true, none, some, [], ◌∷◌, contains, string_cmp}
use fibr.Prelude.Assoc.{lookup}
use fibr.Apikey.{Identity, Authenticator, known, map_store, new, middleware, require_scope, status}
use fibr.Apikey.Guard.{last, require_scope-known}

abbrev reader : Identity
reader = record { id = "ci"; scopes = "read" ∷ [] }

abbrev keys : Authenticator
keys = record { store = map_store (("k1", reader) ∷ []); header = "X-API-Key" }

abbrev plain : String → String
plain key = key

require_scope-known_example :
    (id : Identity) × (keys.store "k1" ≡ known id)
    × (contains id.scopes "read" ≡ true)
    × (some reader ≡ some id)
unfolding middleware require_scope map_store lookup
require_scope-known_example =
    require_scope-known plain keys (λ h. "k1") "read" none (some reader) refl

unscoped : middleware plain keys (λ h. "k1") (require_scope "write" last) none ≡ status 403
unfolding middleware require_scope map_store lookup
unscoped = refl

keyless :
    middleware plain (new (record { store = keys.store; header = "" })) (λ h. "") last none
    ≡ status 401
unfolding middleware
keyless = refl
