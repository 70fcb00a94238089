-- ===== src/Cache.antt =====
-- cache/cache.go: the in-process cache with expiry and eviction of the least recently used entry.
-- An element of the recency list is named by the key of the entry that it holds. The clock's value
-- is an argument of each operation, in nanoseconds; the zero `time.Time` is `none`.
pub mod Invariant
pub mod Bounds
pub mod Views
pub mod Sweep
pub mod Load
pub mod Recency
mod Examples
use fibr.Prelude.{
  ℕ, ◌+◌, String, Bool, true, false, not, ◌&&◌, Option, none, some, List, [], ◌∷◌, length, remove,
  get_last?, ltb, if◌then◌else◌, string_cmp,
}
use fibr.Prelude.Int.{ℤ, pos, ltb_ℤ, pos_part}
use fibr.Prelude.Assoc.{lookup, insert, delete}

pub record Config : Type 0 where
  pub max_size : ℤ
  pub default_ttl : ℤ
  pub janitor : ℤ

abbrev pub with_max_size : ℤ → Config → Config
with_max_size n c = record c { max_size = n }

abbrev pub with_default_ttl : ℤ → Config → Config
with_default_ttl d c = record c { default_ttl = d }

pub record Entry (V : Type 0) : Type 0 where
  pub key : String
  pub value : V
  pub expires_at : Option ℕ

pub record Cache (V : Type 0) : Type 0 where
  pub items : List (String × Entry V)
  pub lru : List String  -- front = most recently used
  pub max_size : ℤ
  pub default_ttl : ℤ

pub data Error : Type 0 where
  loader_failed : ℕ → Error

-- What a call that may fail returns.
pub data Loaded (V : Type 0) : Type 0 where
  value : V → Loaded V
  failed : Error → Loaded V

abbrev no_options : Config
no_options = record { max_size = pos 0; default_ttl = pos 0; janitor = pos 0 }

abbrev apply_options : List (Config → Config) → Config → Config
apply_options [] c = c
apply_options (opt ∷ opts) c = apply_options opts (opt c)

abbrev pub move_to_front : String → List String → List String
move_to_front el l = el ∷ remove el l

abbrev pub expiry : ℤ → ℕ → Option ℕ
expiry ttl now = if ltb_ℤ (pos 0) ttl then some (now + pos_part ttl) else none

module _ {V : Type 0} where
  pub new : List (Config → Config) → Cache V
  new opts =
      let cfg = apply_options opts no_options in
      record { items = []; lru = []; max_size = cfg.max_size; default_ttl = cfg.default_ttl }

  unfoldable pub expired : ℕ → Entry V → Bool
  expired now e = elim e.expires_at [ none ↦ false | some t ↦ not (ltb now t) ]

  pub remove_locked : String → Cache V → Cache V
  remove_locked key c = record c { items = delete key c.items; lru = remove key c.lru }

  pub get : String → ℕ → Cache V → Cache V × Option V
  unfolding expired
  get key now c = elim (lookup key c.items) [
    | none ↦ (c, none)
    | some e ↦
        if expired now e
        then (remove_locked e.key c, none)
        else (record c { lru = move_to_front e.key c.lru }, some e.value)
  ]

  pub evict_oldest : Cache V → Cache V
  evict_oldest c = elim (get_last? c.lru) [ none ↦ c | some key ↦ remove_locked key c ]

  abbrev pub over_full : Cache V → Bool
  over_full c = ltb_ℤ (pos 0) c.max_size && ltb_ℤ c.max_size (pos (length c.lru))

  -- The two halves of `setLocked`: a new entry, and an entry that is there already.
  abbrev pub pushed : String → V → ℤ → ℕ → Cache V → Cache V
  pushed key val ttl now c =
      let e : Entry V = record { key = key; value = val; expires_at = expiry ttl now } in
      record c { items = insert key e c.items; lru = key ∷ c.lru }

  abbrev pub replaced : Entry V → String → V → ℤ → ℕ → Cache V → Cache V
  replaced old key val ttl now c = record c {
    items = insert key (record old { value = val; expires_at = expiry ttl now }) c.items;
    lru = move_to_front old.key c.lru;
  }

  pub set_locked : String → V → ℤ → ℕ → Cache V → Cache V
  set_locked key val ttl now c = elim (lookup key c.items) [
    | some old ↦ replaced old key val ttl now c
    | none ↦ let c' = pushed key val ttl now c in if over_full c' then evict_oldest c' else c'
  ]

  pub set_ttl : String → V → ℤ → ℕ → Cache V → Cache V
  unfolding set_locked
  set_ttl key val ttl now c = set_locked key val ttl now c

  pub set : String → V → ℕ → Cache V → Cache V
  unfolding set_ttl
  set key val now c = set_ttl key val c.default_ttl now c

  -- `Delete`
  pub drop : String → Cache V → Cache V
  drop key c = elim (lookup key c.items) [ none ↦ c | some e ↦ remove_locked e.key c ]

  pub len : Cache V → ℕ
  len c = length c.items

  -- The body of the loop of `sweep`, and the loop over the entries of the map, in any order.
  pub sweep_entry : ℕ → Entry V → Cache V → Cache V
  unfolding expired
  sweep_entry now e c = if expired now e then remove_locked e.key c else c

  pub sweep_from : ℕ → List (String × Entry V) → Cache V → Cache V
  sweep_from now [] c = c
  sweep_from now ((k, e) ∷ rest) c = sweep_from now rest (sweep_entry now e c)

  pub sweep : ℕ → Cache V → Cache V
  unfolding sweep_from
  sweep now c = sweep_from now c.items c

-- `golang.org/x/sync/singleflight`: `Do` runs the function, or waits for a call of it under way.
abbrev pub Flight : Type 0 → Type 0
Flight V = (Cache V → Cache V × Loaded V) → Cache V → Cache V × Loaded V

module _ {V : Type 0} where
  -- The function that `GetOrLoad` hands to the flight group, where `outcome` is the loader's.
  pub load_locked : String → ℕ → Loaded V → Cache V → Cache V × Loaded V
  load_locked key now outcome c =
      let (c', hit) = get key now c in
      elim hit [
        | some v ↦ (c', value v)
        | none ↦ elim outcome [ value v ↦ (set key v now c', value v) | failed e ↦ (c', failed e) ]
      ]

  pub get_or_load : Flight V → String → ℕ → Loaded V → Cache V → Cache V × Loaded V
  unfolding load_locked
  get_or_load flight key now outcome c =
      let (c', hit) = get key now c in
      elim hit [ some v ↦ (c', value v) | none ↦ flight (load_locked key now outcome) c' ]
