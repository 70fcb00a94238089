-- ===== src/Apikey.antt =====
-- apikey/apikey.go, apikey/middleware.go: requests with an API key. The hash of a key (SHA-256 in
-- hexadecimal) and the random source are parameters.
pub mod Guard
mod Examples
use fibr.Prelude.{
  ℕ, ◌≡◌, String, Bool, true, false, Option, none, some, List, [], ◌∷◌, contains, if◌then◌else◌,
  ◌==◌, string_cmp, map,
}
use fibr.Prelude.Assoc.{lookup}

pub record Identity : Type 0 where
  pub id : String
  pub scopes : List String

pub data Found : Type 0 where
  lookup_error : ℕ → Found
  unknown : Found
  known : Identity → Found

-- The interface: what is found for the hash of a key.
abbrev pub Store : Type 0
Store = String → Found

abbrev pub found_in : Option Identity → Found
found_in none = unknown
found_in (some id) = known id

-- The store over a map; a value that is never changed needs no copy.
unfoldable pub map_store : List (String × Identity) → Store
map_store m key_hash = found_in (lookup key_hash m)

-- The key and its hash, from what the random source gives.
unfoldable pub generate : (String → String) → Option String → Option (String × String)
generate hash none = none
generate hash (some key) = some (key, hash key)

pub record Config : Type 0 where
  pub store : Store
  pub header : String

pub record Authenticator : Type 0 where
  pub store : Store
  pub header : String

unfoldable pub new : Config → Authenticator
new cfg = record {
  store = cfg.store;
  header = if cfg.header == "" then "X-API-Key" else cfg.header;
}

-- A handler on the identity that is in the locals: its status, where it does not call the next one.
pub data Reply : Type 0 where
  status : ℕ → Reply
  done : Option Identity → Reply

abbrev pub Handler : Type 0
Handler = Option Identity → Reply

abbrev pub admit : Found → Handler → Handler
admit (lookup_error e) next locals = status 500
admit unknown next locals = status 401
admit (known id) next locals = next (some id)

unfoldable pub middleware :
    (String → String) → Authenticator → (String → String) → Handler → Handler
middleware hash a get next locals =
    let key = get a.header in
    if key == "" then status 401 else admit (a.store (hash key)) next locals

-- The identity that the middleware left.
abbrev pub from_context : Option Identity → Option Identity
from_context locals = locals

unfoldable pub require_scope : String → Handler → Handler
require_scope scope next none = status 401
require_scope scope next (some id) = if contains id.scopes scope then next (some id) else status 403

unfoldable pub has_scope : String → Option Identity → Bool
has_scope scope none = false
has_scope scope (some id) = contains id.scopes scope
