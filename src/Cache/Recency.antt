-- ===== src/Cache/Recency.antt =====
-- cache/cache.go: eviction spares the entries used last.
use fibr.Prelude.{
  Option, subst, sym, ℕ, suc, ◌+◌, ◌≤◌, ◌<◌, ◌≡◌, refl, String, ◌&&◌, none, some, false, inl, inr,
  List, [], ◌∷◌, arith, All, length, count, get_last?, before, before-remove, before-get_last?,
  ◌==◌, eqb_refl, string_cmp, Option-cases, Bool-cases,
}
use fibr.Prelude.Int.{ℤ}
use fibr.Prelude.Assoc.{count-keys-none, lookup, lookup-delete, lookup-insert}
use text.Mathlib.TextEquality.{eq_iff}
use fibr.Cache.{
  Cache, Entry, get, set_ttl, drop, sweep, sweep_from, sweep_entry, remove_locked, evict_oldest,
  expired, pushed, expiry,
}
use fibr.Cache.Invariant.{Inv, get_cases, set_cases}
use fibr.Cache.Bounds.{Call, gets, sets, drops, sweeps, step, run, Bounded, step-Inv, step-Bounded}
use fibr.Cache.Views.{view}
use fibr.Cache.Sweep.{Listed, Listed-self}

-- A call that neither writes nor deletes the key.
abbrev pub Spares : {V : Type 0} → String → Call V → Type 0
Spares k (gets j) = Unit
Spares k (sets j val ttl) = (j == k) ≡ false
Spares k (drops j) = (j == k) ≡ false
Spares k sweeps = Unit

module _ {V : Type 0} (k : String) (e : Entry V) where
  record Kept (n : ℕ) (c : Cache V) : Type 0 where
    pub found : lookup k c.items ≡ some e
    pub recent : before k c.lru ≤ n

  remove_locked-Kept :
      {n : ℕ} (j : String) (c : Cache V) → (j == k) ≡ false → Kept n c → Kept n (remove_locked j c)
  unfolding remove_locked
  remove_locked-Kept j c h w = ground (arith, lookup-delete j k c.items, before-remove k j c.lru)

  get-Kept :
      {n : ℕ} (j : String) (now : ℕ) (c : Cache V)
      → Inv c
      → expired now e ≡ false
      → Kept n c
      → Kept (suc n) (get j now c).0
  get-Kept {n} j now c v x w =
      get_cases (λ r. Kept (suc n) r.0) j now c (λ p. ground arith)
        (λ d p y.
          remove_locked-Kept d.key c (ground (arith, v.named j d, eq_iff d.key k))
            (record { found = w.found; recent = omega (arith, w.recent) }))
        (λ d p y. ground (arith, before-remove k d.key c.lru))

  evict_oldest-Kept :
      {n : ℕ} (c : Cache V)
      → Kept n c
      → count k c.lru ≤ 1
      → suc n < length c.lru
      → Kept n (evict_oldest c)
  unfolding evict_oldest
  evict_oldest-Kept {n} c w once h = elim (Option-cases (get_last? c.lru)) [
    | inl p ↦ rw (p, evict_oldest) w
    | inr (b, p) ↦ elim (Bool-cases (b == k)) [
      | inl y ↦ absurd (ground (arith, before-get_last? k c.lru, eq_iff b k))
      | inr y ↦ rw (p, evict_oldest) (remove_locked-Kept b c y w)
    ]
  ]

  set_ttl-Kept :
      {n m : ℕ} (j : String) (val : V) (ttl : ℤ) (now : ℕ) (c : Cache V)
      → (j == k) ≡ false
      → Inv c
      → Bounded m c
      → n < m
      → Kept n c
      → Kept (suc n) (set_ttl j val ttl now c)
  set_ttl-Kept {n} {m} j val ttl now c ne v b h w =
      set_cases (Kept (suc n)) j val ttl now c
        (λ old p. ground (
          arith,
          lookup-insert j k (record old { value = val; expires_at = expiry ttl now }) c.items,
          v.named j old,
          before-remove k j c.lru,
        ))
        (λ p full.
          evict_oldest-Kept (pushed j val ttl now c) (push p) (ground (arith, v.once k))
            (ground arith))
        (λ p room. push p)
    where
      push : lookup j c.items ≡ none → Kept (suc n) (pushed j val ttl now c)
      push p = ground (
        arith,
        lookup-insert j k (record { key = j; value = val; expires_at = expiry ttl now }) c.items,
      )

  sweep_entry-Kept :
      {n : ℕ} (now : ℕ) (d : Entry V) (c : Cache V)
      → (expired now d && (d.key == k)) ≡ false
      → Kept n c
      → Kept n (sweep_entry now d c)
  unfolding sweep_entry remove_locked
  sweep_entry-Kept now d c h w =
      ground (arith, lookup-delete d.key k c.items, before-remove k d.key c.lru)

  sweep_from-Kept :
      {n : ℕ} (now : ℕ) (m es : List (String × Entry V)) (c : Cache V)
      → Listed m es
      → lookup k m ≡ some e
      → expired now e ≡ false
      → Kept n c
      → Kept n (sweep_from now es c)
  unfolding sweep_from
  sweep_from-Kept now m [] c f p x w = w
  sweep_from-Kept now m ((j, d) ∷ es) c f p x w =
      sweep_from-Kept now m es (sweep_entry now d c) f.1 p x
        (sweep_entry-Kept now d c (ground (arith, f.0, eq_iff d.key k)) w)

  drop-Kept :
      {n : ℕ} (j : String) (c : Cache V) → (j == k) ≡ false → Inv c → Kept n c → Kept n (drop j c)
  unfolding drop
  drop-Kept j c h v w = elim (Option-cases (lookup j c.items)) [
    | inl p ↦ rw (p, drop) w
    | inr (d, p) ↦
        rw (p, drop) (remove_locked-Kept d.key c (ground (arith, v.named j d, eq_iff d.key k)) w)
  ]

  weaken : {n : ℕ} {c : Cache V} → Kept n c → Kept (suc n) c
  weaken w = record { found = w.found; recent = omega (arith, w.recent) }

  step-Kept :
      {n m : ℕ} (c : Cache V) (call : ℕ × Call V)
      → Inv c
      → Bounded m c
      → n < m
      → Spares k call.1
      → expired call.0 e ≡ false
      → Kept n c
      → Kept (suc n) (step c call)
  unfolding step sweep
  step-Kept c (now, gets j) v b h s x w = get-Kept j now c v x w
  step-Kept c (now, sets j val ttl) v b h s x w = set_ttl-Kept j val ttl now c s v b h w
  step-Kept c (now, drops j) v b h s x w = weaken (drop-Kept j c s v w)
  step-Kept c (now, sweeps) v b h s x w =
      weaken (sweep_from-Kept now c.items c.items c (Listed-self c v) w.found x w)

  run-Kept :
      {m : ℕ} (n : ℕ) (c : Cache V) (calls : List (ℕ × Call V))
      → Inv c
      → Bounded m c
      → n + length calls ≤ m
      → All (λ call. Spares k call.1 × (expired call.0 e ≡ false)) calls
      → Kept n c
      → lookup k (run c calls).items ≡ some e
  unfolding run
  run-Kept n c [] v b h s w = w.found
  run-Kept n c (call ∷ calls) v b h s w =
      run-Kept (suc n) (step c call) calls (step-Inv c call v) (step-Bounded c call v b)
        (omega arith) s.1 (step-Kept c call v b (omega arith) s.0.0 s.0.1 w)

module _ {V : Type 0} where
  -- What `SetTTL` of a key writes.
  abbrev pub fresh : String → V → ℤ → ℕ → Entry V
  fresh k val ttl now = record { key = k; value = val; expires_at = expiry ttl now }

  set_ttl-fresh :
      (k : String) (val : V) (ttl : ℤ) (now : ℕ) (c : Cache V)
      → Inv c
      → Kept k (fresh k val ttl now) 0 (set_ttl k val ttl now c)
  set_ttl-fresh k val ttl now c v =
      set_cases (Kept k (fresh k val ttl now) 0) k val ttl now c
        (λ old p. ground (
          arith,
          v.named k old p,
          lookup-insert k k (fresh k val ttl now) c.items,
          eqb_refl k,
          eq_iff old.key k,
        ))
        (λ p full.
          evict_oldest-Kept k (fresh k val ttl now) (pushed k val ttl now c) push
            (ground (arith, v.same k, count-keys-none k c.items p, eqb_refl k)) (ground arith))
        (λ p room. push)
    where
      push : Kept k (fresh k val ttl now) 0 (pushed k val ttl now c)
      push = ground (arith, lookup-insert k k (fresh k val ttl now) c.items, eqb_refl k)

  abbrev pub key_of : Call V → Option String
  key_of (gets k) = some k
  key_of (sets k val ttl) = some k
  key_of (drops k) = none
  key_of sweeps = none

  remove_locked_gone :
      (k : String) (c : Cache V) (d e : Entry V)
      → d.key ≡ k
      → lookup k (remove_locked d.key c).items ≡ some e
      → ⊥
  unfolding remove_locked
  remove_locked_gone k c d e same found =
      ground (arith, lookup-delete d.key k c.items, same, eqb_refl k, found)

  -- A key that `Get` has found is at the front.
  before-get :
      (k : String) (now : ℕ) (c : Cache V) (e : Entry V)
      → Inv c
      → lookup k (get k now c).0.items ≡ some e
      → before k (get k now c).0.lru ≤ 0
  before-get k now c e v =
      get_cases (λ r. lookup k r.0.items ≡ some e → before k r.0.lru ≤ 0) k now c
        (λ p found. absurd (ground (arith, p, found)))
        (λ d p y found. absurd (remove_locked_gone k c d e (v.named k d p) found))
        (λ d p y found. ground (arith, v.named k d p, eqb_refl k))

  before-step :
      (k : String) (used : Call V) (now : ℕ) (c : Cache V) (e : Entry V)
      → Inv c
      → key_of used ≡ some k
      → lookup k (step c (now, used)).items ≡ some e
      → before k (step c (now, used)).lru ≤ 0
  unfolding step
  before-step k (gets j) now c e v same found =
      let key : j ≡ k = cc in
      subst (λ i. before k (get i now c).0.lru ≤ 0) (sym key)
        (before-get k now c e v (subst (λ i. lookup k (get i now c).0.items ≡ some e) key found))
  before-step k (sets j val ttl) now c e v same found =
      let key : j ≡ k = cc in
      subst (λ i. before k (set_ttl i val ttl now c).lru ≤ 0) (sym key)
        (set_ttl-fresh k val ttl now c v).recent
  before-step k (drops j) now c e v same found = absurd (ground (arith, same))
  before-step k sweeps now c e v same found = absurd (ground (arith, same))

  -- In a cache with room for n + 1 entries, an entry that a call has just set, or has just got, is
  -- still there after any n further calls that neither set nor delete its key, if it has not expired
  -- by the last of them: eviction spares the n + 1 keys used last.
  pub view-run-step :
      (k : String) (used : Call V) (e : Entry V) (now later n : ℕ) (c : Cache V)
      (calls : List (ℕ × Call V))
      → Inv c
      → Bounded n c
      → key_of used ≡ some k
      → lookup k (step c (now, used)).items ≡ some e
      → length calls ≤ n
      → All (λ call. Spares k call.1 × (expired call.0 e ≡ false)) calls
      → expired later e ≡ false
      → view later k (run (step c (now, used)) calls) ≡ some e.value
  view-run-step k used e now later n c calls v b uses found len spares x =
      rw
        (run-Kept k e 0 (step c (now, used)) calls (step-Inv c (now, used) v)
          (step-Bounded c (now, used) v b) (omega arith) spares
          (record { found = found; recent = before-step k used now c e v uses found }))
        (rw x refl)
