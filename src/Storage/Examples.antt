-- ===== src/Storage/Examples.antt =====
-- redis/storage.go: runs of the code.
use fibr.Prelude.{◌≡◌, refl, false, none, some, List, [], ◌∷◌, contains, if◌then◌else◌, arith}
use fibr.Prelude.Bytes.{Bytes, codes, bytes_cmp, starts_with}
use fibr.Storage.{Client, value, missing, Storage, new_storage, with_prefix, set, delete, get}
use fibr.Storage.Prefix.{Lawful}

-- A server that keeps the list of its keys.
abbrev without : List Bytes → List Bytes → List Bytes
without ks [] = []
without ks (k ∷ rest) = if contains ks k then without ks rest else k ∷ without ks rest

abbrev matching : Bytes → List Bytes → List Bytes
matching prefix [] = []
matching prefix (k ∷ ks) =
    if starts_with prefix k then k ∷ matching prefix ks else matching prefix ks

abbrev until_star : Bytes → Bytes
until_star [] = []
until_star (c ∷ []) = []
until_star (c ∷ d ∷ s) = c ∷ until_star (d ∷ s)

abbrev client : Client (List Bytes)
client = record {
  get = λ k s. if contains s k then value k else missing;
  set = λ k v exp s. (k ∷ s, none);
  del = λ ks s. (without ks s, none);
  scan = λ pattern s. (matching (until_star pattern) s, none);
  shut = λ s. (s, none);
}

contains-without :
    (ks s : List Bytes) (k : Bytes)
    → contains (without ks s) k ≡ (if contains ks k then false else contains s k)
contains-without ks [] k = ground arith
contains-without ks (x ∷ s) k = ground (arith, contains-without ks s k, bytes_cmp.eqb_iff x k)

client-Lawful : Lawful client
client-Lawful = record { has = λ s k. contains s k; del-has = λ ks s k h. contains-without ks s k }

abbrev storage : Storage
storage = record { prefix = codes "f:" }

abbrev held : List Bytes
held = codes "f:a" ∷ codes "g:b" ∷ []

renamed : new_storage (with_prefix (codes "f:") ∷ []) ≡ storage
unfolding new_storage
renamed = refl

read_back :
    get client storage (codes "c") (set client storage (codes "c") (codes "v") 0 held).0
    ≡ value (some (codes "f:c"))
unfolding get set
read_back = refl

nameless : delete client storage [] held ≡ (held, none)
unfolding delete
nameless = refl
