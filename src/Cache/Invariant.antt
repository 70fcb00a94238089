-- ===== src/Cache/Invariant.antt =====
-- cache/cache.go: the map and the recency list of a cache always speak of the same entries.
use fibr.Prelude.{
  ℕ, ◌≤◌, get_last?, ◌≡◌, refl, String, none, some, List, ◌∷◌, [], arith, length, count,
  count-remove, length-remove, string_cmp, Option-cases, inl, inr, true, false, Bool-cases, Option,
}
use fibr.Prelude.Int.{ℤ}
use fibr.Prelude.Assoc.{
  lookup, insert, keys, lookup-insert, lookup-delete, count-keys-insert, count-keys-delete,
  length-delete, length-insert, count-keys-none, count-keys-some,
}
use text.Mathlib.TextEquality.{eq_iff}
use fibr.Cache.{
  Cache, Entry, remove_locked, evict_oldest, set_locked, set_ttl, set, get, drop, move_to_front,
  expired, sweep, sweep_from, sweep_entry, over_full, new, pushed, replaced, Loaded, value, failed,
  Config, load_locked, get_or_load, Flight,
}

module _ {V : Type 0} where
  pub record Inv (c : Cache V) : Type 0 where
    pub same : (k : String) → count k c.lru ≡ count k (keys c.items)
    pub once : (k : String) → count k c.lru ≤ 1
    pub named : (k : String) (e : Entry V) → lookup k c.items ≡ some e → e.key ≡ k
    pub sized : length c.items ≡ length c.lru

  remove_locked-Inv : (k : String) (c : Cache V) → Inv c → Inv (remove_locked k c)
  unfolding remove_locked
  remove_locked-Inv k c v = record {
    same = λ j. ground (arith, v.same j, count-remove k j c.lru, count-keys-delete k j c.items);
    once = λ j. ground (arith, v.once j, count-remove k j c.lru);
    named = λ j e h. ground (arith, v.named j e, lookup-delete k j c.items);
    sized = ground (arith, v.sized, v.same k, length-remove k c.lru, length-delete k c.items);
  }

  touch-Inv :
      (k : String) (c : Cache V) {e : Entry V}
      → lookup k c.items ≡ some e
      → Inv c
      → Inv (record c { lru = move_to_front k c.lru })
  touch-Inv k c {e} h v = record {
    same = λ j. ground (
      arith,
      v.same j,
      v.once k,
      v.same k,
      count-remove k j c.lru,
      count-keys-some k c.items {v = e},
      eq_iff k j,
    );
    once = λ j. ground (arith, v.once j, count-remove k j c.lru);
    named = v.named;
    sized = ground (
      arith,
      v.sized,
      v.same k,
      v.once k,
      length-remove k c.lru,
      count-keys-some k c.items {v = e},
    );
  }

  pub get_cases :
      (P : Cache V × Option V → Type 0) (k : String) (now : ℕ) (c : Cache V)
      → (lookup k c.items ≡ none → P (c, none))
      → ((e : Entry V)
          → lookup k c.items ≡ some e
          → expired now e ≡ true
          → P (remove_locked e.key c, none))
      → ((e : Entry V)
          → lookup k c.items ≡ some e
          → expired now e ≡ false
          → P (record c { lru = move_to_front e.key c.lru }, some e.value))
      → P (get k now c)
  unfolding get
  get_cases P k now c absent stale live = elim (Option-cases (lookup k c.items)) [
    | inl p ↦ rw (p, get) (absent p)
    | inr (e, p) ↦ elim (Bool-cases (expired now e)) [
      | inl x ↦ rw (p, get) (rw x (stale e p x))
      | inr x ↦ rw (p, get) (rw x (live e p x))
    ]
  ]

  pub get-Inv : (k : String) (now : ℕ) (c : Cache V) → Inv c → Inv (get k now c).0
  get-Inv k now c v =
      get_cases (λ r. Inv r.0) k now c (λ _. v) (λ e _ _. remove_locked-Inv e.key c v)
        (λ e p _. rw (v.named k e p) (touch-Inv k c p v))

  pub drop-Inv : (k : String) (c : Cache V) → Inv c → Inv (drop k c)
  unfolding drop
  drop-Inv k c v = elim (Option-cases (lookup k c.items)) [
    | inl p ↦ rw (p, drop) v
    | inr (e, p) ↦ rw (p, drop) (remove_locked-Inv e.key c v)
  ]

  evict_oldest-Inv : (c : Cache V) → Inv c → Inv (evict_oldest c)
  unfolding evict_oldest
  evict_oldest-Inv c v = elim (Option-cases (get_last? c.lru)) [
    | inl p ↦ rw (p, evict_oldest) v
    | inr (k, p) ↦ rw (p, evict_oldest) (remove_locked-Inv k c v)
  ]

  push-Inv :
      (k : String) (e : Entry V) (c : Cache V)
      → lookup k c.items ≡ none
      → e.key ≡ k
      → Inv c
      → Inv (record c { items = insert k e c.items; lru = k ∷ c.lru })
  push-Inv k e c h named v = record {
    same = λ j. ground (
      arith,
      v.same j,
      v.same k,
      count-keys-insert k j e c.items,
      count-keys-none k c.items,
      eq_iff k j,
    );
    once = λ j. ground (arith, v.once j, v.same k, count-keys-none k c.items, eq_iff k j);
    named = λ j d p. ground (arith, v.named j d, lookup-insert k j e c.items, eq_iff k j);
    sized = ground (arith, v.sized, count-keys-none k c.items, length-insert k e c.items);
  }

  replace-Inv :
      (k : String) (e old : Entry V) (c : Cache V)
      → lookup k c.items ≡ some old
      → e.key ≡ k
      → Inv c
      → Inv (record c { items = insert k e c.items; lru = move_to_front k c.lru })
  replace-Inv k e old c h named v = record {
    same = λ j.
        ground
          (arith, v.same j, count-remove k j c.lru, count-keys-insert k j e c.items, eq_iff k j);
    once = λ j. ground (arith, v.once j, count-remove k j c.lru);
    named = λ j d p. ground (arith, v.named j d, lookup-insert k j e c.items, eq_iff k j);
    sized = ground (
      arith,
      v.sized,
      v.same k,
      v.once k,
      length-remove k c.lru,
      length-insert k e c.items,
      count-keys-some k c.items {v = old},
    );
  }

  pub set_cases :
      (P : Cache V → Type 0) (k : String) (val : V) (ttl : ℤ) (now : ℕ) (c : Cache V)
      → ((old : Entry V) → lookup k c.items ≡ some old → P (replaced old k val ttl now c))
      → (lookup k c.items ≡ none
          → over_full (pushed k val ttl now c) ≡ true
          → P (evict_oldest (pushed k val ttl now c)))
      → (lookup k c.items ≡ none
          → over_full (pushed k val ttl now c) ≡ false
          → P (pushed k val ttl now c))
      → P (set_ttl k val ttl now c)
  unfolding set_ttl
  set_cases P k val ttl now c there full room = elim (Option-cases (lookup k c.items)) [
    | inr (old, p) ↦ rw (p, set_ttl, set_locked) (there old p)
    | inl p ↦ elim (Bool-cases (over_full (pushed k val ttl now c))) [
      | inl x ↦ rw (p, set_ttl, set_locked) (rw x (full p x))
      | inr x ↦ rw (p, set_ttl, set_locked) (rw x (room p x))
    ]
  ]

  pub set_ttl-Inv :
      (k : String) (val : V) (ttl : ℤ) (now : ℕ) (c : Cache V)
      → Inv c
      → Inv (set_ttl k val ttl now c)
  set_ttl-Inv k val ttl now c v =
      set_cases Inv k val ttl now c (λ old p. rw (v.named k old p) (replace-Inv k _ old c p refl v))
        (λ p _. evict_oldest-Inv _ (push-Inv k _ c p refl v)) (λ p _. push-Inv k _ c p refl v)

  sweep_entry-Inv : (now : ℕ) (e : Entry V) (c : Cache V) → Inv c → Inv (sweep_entry now e c)
  unfolding sweep_entry
  sweep_entry-Inv now e c v = elim (Bool-cases (expired now e)) [
    | inl x ↦ rw x (remove_locked-Inv e.key c v)
    | inr x ↦ rw x v
  ]

  sweep_from-Inv :
      (now : ℕ) (es : List (String × Entry V)) (c : Cache V) → Inv c → Inv (sweep_from now es c)
  unfolding sweep_from
  sweep_from-Inv now [] c v = v
  sweep_from-Inv now ((k, e) ∷ rest) c v =
      sweep_from-Inv now rest (sweep_entry now e c) (sweep_entry-Inv now e c v)

  pub sweep-Inv : (now : ℕ) (c : Cache V) → Inv c → Inv (sweep now c)
  unfolding sweep
  sweep-Inv now c v = sweep_from-Inv now c.items c v

  pub new-Inv : (opts : List (Config → Config)) → Inv (new {V = V} opts)
  unfolding new lookup
  new-Inv opts = record {
    same = λ k. refl;
    once = λ k. omega arith;
    named = λ k e p. ground arith;
    sized = refl;
  }

  set-Inv : (k : String) (val : V) (now : ℕ) (c : Cache V) → Inv c → Inv (set k val now c)
  unfolding set
  set-Inv k val now c v = set_ttl-Inv k val c.default_ttl now c v

  load_locked-Inv :
      (k : String) (now : ℕ) (outcome : Loaded V) (c : Cache V)
      → Inv c
      → Inv (load_locked k now outcome c).0
  unfolding load_locked
  load_locked-Inv k now (value x) c v = elim (Option-cases (get k now c).1) [
    | inl p ↦ rw (p, load_locked) (set-Inv k x now _ (get-Inv k now c v))
    | inr (y, p) ↦ rw (p, load_locked) (get-Inv k now c v)
  ]
  load_locked-Inv k now (failed e) c v = elim (Option-cases (get k now c).1) [
    | inl p ↦ rw (p, load_locked) (get-Inv k now c v)
    | inr (y, p) ↦ rw (p, load_locked) (get-Inv k now c v)
  ]

  pub get_or_load-Inv :
      (flight : Flight V) (k : String) (now : ℕ) (outcome : Loaded V) (c : Cache V)
      → ((f : Cache V → Cache V × Loaded V) (d : Cache V) → flight f d ≡ f d)
      → Inv c
      → Inv (get_or_load flight k now outcome c).0
  unfolding get_or_load
  get_or_load-Inv flight k now outcome c alone v = elim (Option-cases (get k now c).1) [
    | inl p ↦
        rw (p, get_or_load)
          (rw (alone (load_locked k now outcome) (get k now c).0)
            (load_locked-Inv k now outcome _ (get-Inv k now c v)))
    | inr (y, p) ↦ rw (p, get_or_load) (get-Inv k now c v)
  ]
