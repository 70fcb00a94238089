-- ===== src/Cache/Bounds.antt =====
-- cache/cache.go: histories of calls on one cache, and its size under `WithMaxSize`.
use fibr.Prelude.{
  ℕ, suc, ◌≤◌, ◌≡◌, refl, ◌∙◌, String, inl, inr, List, [], ◌∷◌, arith, length, get_last?,
  length-remove, count-get_last?, length-get_last?, string_cmp, Option-cases,
}
use fibr.Prelude.Int.{ℤ, pos}
use fibr.Prelude.Assoc.{lookup, count-keys-some}
use fibr.Cache.{
  Cache, Config, Entry, new, get, set_ttl, drop, len, sweep, sweep_from, sweep_entry, remove_locked,
  evict_oldest, pushed,
}
use fibr.Cache.Invariant.{
  Inv, get_cases, set_cases, new-Inv, get-Inv, set_ttl-Inv, drop-Inv, sweep-Inv,
}

pub data Call (V : Type 0) : Type 0 where
  gets : String → Call V
  sets : String → V → ℤ → Call V
  drops : String → Call V
  sweeps : Call V

module _ {V : Type 0} where
  unfoldable pub step : Cache V → ℕ × Call V → Cache V
  step c (now, gets k) = (get k now c).0
  step c (now, sets k val ttl) = set_ttl k val ttl now c
  step c (now, drops k) = drop k c
  step c (now, sweeps) = sweep now c

  unfoldable pub run : Cache V → List (ℕ × Call V) → Cache V
  unfolding step
  run c [] = c
  run c (call ∷ calls) = run (step c call) calls

  pub step-Inv : (c : Cache V) (call : ℕ × Call V) → Inv c → Inv (step c call)
  unfolding step
  step-Inv c (now, gets k) v = get-Inv k now c v
  step-Inv c (now, sets k val ttl) v = set_ttl-Inv k val ttl now c v
  step-Inv c (now, drops k) v = drop-Inv k c v
  step-Inv c (now, sweeps) v = sweep-Inv now c v

  run-Inv : (c : Cache V) (calls : List (ℕ × Call V)) → Inv c → Inv (run c calls)
  unfolding run
  run-Inv c [] v = v
  run-Inv c (call ∷ calls) v = run-Inv (step c call) calls (step-Inv c call v)

  -- After any history of calls on a new cache the map and the recency list agree: they hold the
  -- same keys, each once, and every entry stands under its own key.
  pub run-new-Inv :
      (opts : List (Config → Config)) (calls : List (ℕ × Call V)) → Inv (run (new opts) calls)
  run-new-Inv opts calls = run-Inv (new opts) calls (new-Inv opts)

  pub record Bounded (n : ℕ) (c : Cache V) : Type 0 where
    pub limit : c.max_size ≡ pos (suc n)
    pub within : length c.lru ≤ suc n

  remove_locked-Bounded :
      {n : ℕ} (k : String) (c : Cache V) → Bounded n c → Bounded n (remove_locked k c)
  unfolding remove_locked
  remove_locked-Bounded k c b = ground (arith, length-remove k c.lru)

  get-Bounded :
      {n : ℕ} (k : String) (now : ℕ) (c : Cache V) → Inv c → Bounded n c → Bounded n (get k now c).0
  get-Bounded {n} k now c v b =
      get_cases (λ r. Bounded n r.0) k now c (λ _. b) (λ e _ _. remove_locked-Bounded e.key c b)
        λ e p _.
          ground (
            arith,
            v.named k e p,
            v.same k,
            length-remove k c.lru,
            count-keys-some k c.items {v = e},
          )

  evict_oldest-length :
      (c : Cache V) {m : ℕ} → length c.lru ≡ suc m → length (evict_oldest c).lru ≤ m
  unfolding evict_oldest remove_locked
  evict_oldest-length c h = elim (Option-cases (get_last? c.lru)) [
    | inl p ↦ absurd (omega (arith, length-get_last? c.lru p))
    | inr (k, p) ↦
        rw (p, evict_oldest) (omega (arith, length-remove k c.lru, count-get_last? c.lru k p))
  ]

  evict_oldest_max_size : (c : Cache V) → (evict_oldest c).max_size ≡ c.max_size
  unfolding evict_oldest remove_locked
  evict_oldest_max_size c = ground arith

  pub set_ttl-Bounded :
      {n : ℕ} (k : String) (val : V) (ttl : ℤ) (now : ℕ) (c : Cache V)
      → Inv c
      → Bounded n c
      → Bounded n (set_ttl k val ttl now c)
  set_ttl-Bounded {n} k val ttl now c v b =
      set_cases (Bounded n) k val ttl now c
        (λ e p. ground (
          arith,
          v.named k e p,
          v.same k,
          length-remove k c.lru,
          count-keys-some k c.items {v = e},
        ))
        (λ p full.
          let d = pushed k val ttl now c in
          record {
            limit = evict_oldest_max_size d ∙ b.limit;
            within = omega (arith, evict_oldest-length d {m = length c.lru} refl, b.within);
          })
        (λ p room. ground arith)

  drop-Bounded : {n : ℕ} (k : String) (c : Cache V) → Bounded n c → Bounded n (drop k c)
  unfolding drop
  drop-Bounded k c b = elim (Option-cases (lookup k c.items)) [
    | inl p ↦ rw (p, drop) b
    | inr (e, p) ↦ rw (p, drop) (remove_locked-Bounded e.key c b)
  ]

  sweep_entry-Bounded :
      {n : ℕ} (now : ℕ) (e : Entry V) (c : Cache V) → Bounded n c → Bounded n (sweep_entry now e c)
  unfolding sweep_entry remove_locked
  sweep_entry-Bounded now e c b = ground (arith, length-remove e.key c.lru)

  sweep_from-Bounded :
      {n : ℕ} (now : ℕ) (es : List (String × Entry V)) (c : Cache V)
      → Bounded n c
      → Bounded n (sweep_from now es c)
  unfolding sweep_from
  sweep_from-Bounded now [] c b = b
  sweep_from-Bounded now ((k, e) ∷ rest) c b =
      sweep_from-Bounded now rest (sweep_entry now e c) (sweep_entry-Bounded now e c b)

  pub step-Bounded :
      {n : ℕ} (c : Cache V) (call : ℕ × Call V) → Inv c → Bounded n c → Bounded n (step c call)
  unfolding step sweep
  step-Bounded c (now, gets k) v b = get-Bounded k now c v b
  step-Bounded c (now, sets k val ttl) v b = set_ttl-Bounded k val ttl now c v b
  step-Bounded c (now, drops k) v b = drop-Bounded k c b
  step-Bounded c (now, sweeps) v b = sweep_from-Bounded now c.items c b

  run-Bounded :
      {n : ℕ} (c : Cache V) (calls : List (ℕ × Call V))
      → Inv c
      → Bounded n c
      → Bounded n (run c calls)
  unfolding run
  run-Bounded c [] v b = b
  run-Bounded c (call ∷ calls) v b =
      run-Bounded (step c call) calls (step-Inv c call v) (step-Bounded c call v b)

  new-Bounded :
      {n : ℕ} (opts : List (Config → Config))
      → (new {V = V} opts).max_size ≡ pos (suc n)
      → Bounded n (new {V = V} opts)
  unfolding new
  new-Bounded opts h = record { limit = h; within = omega arith }

  -- A new cache whose options set a positive maximum size never holds more entries than that,
  -- whatever calls are made.
  pub len-run :
      (opts : List (Config → Config)) (n : ℕ) (calls : List (ℕ × Call V))
      → (new {V = V} opts).max_size ≡ pos (suc n)
      → len (run (new opts) calls) ≤ suc n
  unfolding len
  len-run opts n calls h = omega (
    arith,
    (run-new-Inv opts calls).sized,
    (run-Bounded (new opts) calls (new-Inv opts) (new-Bounded opts h)).within,
  )
