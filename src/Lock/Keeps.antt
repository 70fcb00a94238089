-- ===== src/Lock/Keeps.antt =====
-- lock/lock.go: what holds before `Do` holds after it, if each of its parts keeps it.
use fibr.Prelude.{
  ℕ, ◌≡◌, refl, String, Bool, true, false, Option, none, some, inl, inr, ◌⊎◌, sym, subst, ◌==◌,
  string_cmp, Bool-cases, Option-cases,
}
use fibr.Lock.{
  Redis, Attempt, acquired, held, failed as failed_with, Error, Reply, reply, redis_error, Lock,
  with_lock, try_acquire, release, release_script, changed,
}

Reply-cases :
    (r : Reply Bool) → (r ≡ reply true) ⊎ (r ≡ reply false) ⊎ ((n : ℕ) × (r ≡ redis_error n))
Reply-cases (reply true) = inl refl
Reply-cases (reply false) = inr (inl refl)
Reply-cases (redis_error n) = inr (inr (n, refl))

Attempt-cases :
    (a : Attempt)
    → ((lk : Lock) × (a ≡ acquired lk)) ⊎ (a ≡ held) ⊎ ((e : Error) × (a ≡ failed_with e))
Attempt-cases (acquired lk) = inl (lk, refl)
Attempt-cases held = inr (inl refl)
Attempt-cases (failed_with e) = inr (inr (e, refl))

module _ {S : Type 0} (redis : Redis S) (P : S → Type 0)
    (set_nx-keeps : (k v : String) (ttl now : ℕ) (s : S) → P s → P (redis.set_nx k v ttl now s).0)
    (del-keeps : (k : String) (s : S) → P s → P (redis.del k s).0)
    (eval-keeps : (f : S → S × ℕ) (s : S) → P s → P (f s).0 → P (redis.eval f s).0) where
  release_script-keeps :
      (key token : String) (now : ℕ) (s : S) → P s → P (release_script redis key token now s).0
  unfolding release_script
  release_script-keeps key token now s h = elim (Option-cases (redis.get key now s)) [
    | inl gone ↦ rw (gone, release_script) h
    | inr (v, there) ↦
        rw (there, release_script)
          (elim (Bool-cases (v == token)) [
            | inl own ↦ rw own (del-keeps key s h)
            | inr other ↦ rw other h
          ])
  ]

  changed-state : (r : S × Reply ℕ) → (changed redis r).0 ≡ r.0
  changed-state (s, reply n) = refl
  changed-state (s, redis_error n) = refl

  release-keeps : (lk : Lock) (now : ℕ) (s : S) → P s → P (release redis lk now s).0
  unfolding release
  release-keeps lk now s h =
      let script = release_script redis lk.key lk.token now in
      subst P (sym (changed-state (redis.eval script s)))
        (eval-keeps script s h (release_script-keeps lk.key lk.token now s h))

  try_acquire-keeps :
      (drawn : Option String) (key : String) (ttl now : ℕ) (s : S)
      → P s
      → P (try_acquire redis drawn key ttl now s).0
  unfolding try_acquire
  try_acquire-keeps none key ttl now s h = h
  try_acquire-keeps (some token) key ttl now s h =
      let h' = set_nx-keeps key token ttl now s h in
      elim (Reply-cases (redis.set_nx key token ttl now s).1) [
        | inl won ↦ rw (won, try_acquire) h'
        | inr (inl lost) ↦ rw (lost, try_acquire) h'
        | inr (inr (n, failed)) ↦ rw (failed, try_acquire) h'
      ]

  pub with_lock-keeps :
      {A : Type 0} (drawn : Option String) (key : String) (ttl now after : ℕ) (fn : S → S × A)
      (s : S)
      → ((s : S) → P s → P (fn s).0)
      → P s
      → P (with_lock redis drawn key ttl now after fn s).0
  unfolding with_lock
  with_lock-keeps drawn key ttl now after fn s runs h =
      let s' = (try_acquire redis drawn key ttl now s).0 in
      let h' : P s' = try_acquire-keeps drawn key ttl now s h in
      elim (Attempt-cases (try_acquire redis drawn key ttl now s).1) [
        | inl (lk, won) ↦ rw (won, with_lock) (release-keeps lk after (fn s').0 (runs s' h'))
        | inr (inl lost) ↦ rw (lost, with_lock) h'
        | inr (inr (e, stopped)) ↦ rw (stopped, with_lock) h'
      ]
