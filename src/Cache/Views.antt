-- ===== src/Cache/Views.antt =====
-- cache/cache.go: a cache seen as a map from keys to the values that a `Get` would return.
use fibr.Prelude.{
  ℕ, ◌≤◌, ◌≡◌, refl, String, none, some, Option, Bool, if◌then◌else◌, ◌==◌, true, false, inl, inr,
  List, [], ◌∷◌, arith, length, count, get_last?, length-get_last?, ◌<◌, count-get_last?,
  string_cmp, Option-cases,
}
use fibr.Prelude.Int.{ℤ}
use fibr.Prelude.Assoc.{lookup, insert, lookup-insert, lookup-delete, count-keys-none}
use text.Mathlib.TextEquality.{eq_iff}
use fibr.Cache.{
  Cache, Entry, get, set_ttl, drop, remove_locked, evict_oldest, expired, over_full, expiry,
}
use fibr.Cache.Invariant.{Inv, get_cases, set_cases}

abbrev pub is_victim : Option String → String → Bool
is_victim none j = false
is_victim (some b) j = b == j

get_last?-push :
    (k b : String) (l : List String)
    → count k l ≡ 0
    → 0 < length l
    → get_last? (k ∷ l) ≡ some b
    → (b == k) ≡ false
get_last?-push k b [] z n h = absurd (omega arith)
get_last?-push k b (y ∷ l) z n h = ground (arith, eq_iff b k, count-get_last? (y ∷ l) b h)

module _ {V : Type 0} where
  abbrev pub live : ℕ → Option (Entry V) → Option V
  live now none = none
  live now (some e) = if expired now e then none else some e.value

  -- What the cache holds under a key at a time.
  abbrev pub view : ℕ → String → Cache V → Option V
  view now k c = live now (lookup k c.items)

  -- An entry that has expired stays so.
  expired_later :
      (now later : ℕ) (e : Entry V) → now ≤ later → expired now e ≡ true → expired later e ≡ true
  unfolding expired
  expired_later now later e h x = ground arith

  -- `Get` returns the value of an entry that is there and has not expired, and nothing else; and it
  -- does not change what a `Get` of any key would return, then or later.
  pub get-view :
      (k j : String) (now later : ℕ) (c : Cache V)
      → Inv c
      → now ≤ later
      → ((get k now c).1 ≡ view now k c) × (view later j (get k now c).0 ≡ view later j c)
  unfolding remove_locked
  get-view k j now later c v h =
      get_cases (λ r. (r.1 ≡ view now k c) × (view later j r.0 ≡ view later j c)) k now c
        (λ p. rw p (refl, refl))
        (λ e p x. (
          rw p (rw x refl),
          ground (
            arith,
            v.named k e p,
            lookup-delete k j c.items,
            eq_iff k j,
            expired_later now later e,
          ),
        ))
        (λ e p x. (rw p (rw x refl), refl))

  -- The key that `SetTTL` evicts, if any.
  pub victim : String → Cache V → Option String
  victim k c = elim (lookup k c.items) [
    | some _ ↦ none
    | none ↦ if over_full (record c { lru = k ∷ c.lru }) then get_last? (k ∷ c.lru) else none
  ]

  -- The view under `j` at `later`, after `SetTTL` of `k` at `now`.
  pub written : String → String → V → ℤ → ℕ → ℕ → Cache V → Option V
  written k j val ttl now later c =
      if k == j
      then live later (some (record { key = k; value = val; expires_at = expiry ttl now }))
      else (if is_victim (victim k c) j then none else view later j c)

  -- After `SetTTL` of a key, a `Get` of that key finds the new value until it expires; the key that
  -- was evicted, if any, is gone; and every other key is as it was.
  set_ttl-view :
      (k j : String) (val : V) (ttl : ℤ) (now later : ℕ) (c : Cache V)
      → Inv c
      → view later j (set_ttl k val ttl now c) ≡ written k j val ttl now later c
  unfolding victim written evict_oldest remove_locked
  set_ttl-view k j val ttl now later c v =
      set_cases (λ d. view later j d ≡ written k j val ttl now later c) k val ttl now c
        (λ old p. ground (
          arith,
          v.named k old p,
          lookup-insert k j (record old { value = val; expires_at = expiry ttl now }) c.items,
        ))
        (λ p full. elim (Option-cases (get_last? (k ∷ c.lru))) [
          | inl q ↦ absurd (omega (arith, length-get_last? (k ∷ c.lru) q))
          | inr (b, q) ↦
              let e : Entry V = record { key = k; value = val; expires_at = expiry ttl now } in
              ground (
                arith,
                lookup-delete b j (insert k e c.items),
                lookup-insert k j e c.items,
                eq_iff k j,
                eq_iff b j,
                eq_iff b k,
                v.same k,
                count-keys-none k c.items,
                get_last?-push k b c.lru,
              )
        ])
        (λ p room. ground (
          arith,
          lookup-insert k j (record { key = k; value = val; expires_at = expiry ttl now }) c.items,
        ))

  pub drop-view :
      (k j : String) (later : ℕ) (c : Cache V)
      → Inv c
      → view later j (drop k c) ≡ (if k == j then none else view later j c)
  unfolding drop remove_locked
  drop-view k j later c v = elim (Option-cases (lookup k c.items)) [
    | inl p ↦ rw (p, drop) (ground (arith, eq_iff k j))
    | inr (e, p) ↦ rw (p, drop) (ground (arith, v.named k e p, lookup-delete k j c.items))
  ]
