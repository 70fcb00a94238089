-- ===== src/Lock/Held.antt =====
-- lock/lock.go, lock/handle.go: a lock stays with its owner.
use fibr.Prelude.{
  ℕ, ◌+◌, ◌/◌, ◌≤◌, ◌<◌, ◌≡◌, String, Bool, true, false, ◌&&◌, Option, none, some, List, [], ◌∷◌,
  leb, if◌then◌else◌, ◌==◌, string_cmp, nat_cmp, arith, eqb_refl, inl, inr, ◌⊎◌, ap,
}
use fibr.Lock.{
  Redis, reply, redis_error, release, extend, try_acquire, release_script, extend_script,
}

abbrev free : Option String → Bool
free none = true
free (some v) = false

-- What the server promises, in terms of the token that a key has at a time. A command may fail, and
-- then it is not known whether it was carried out.
pub record Lawful {S : Type 0} (redis : Redis S) : Type 0 where
  pub holder : S → ℕ → String → Option String
  pub get-holder : (k : String) (now : ℕ) (s : S) → redis.get k now s ≡ holder s now k
  pub set_nx-reply :
      (k v : String) (ttl now : ℕ) (s : S) (b : Bool)
      → (redis.set_nx k v ttl now s).1 ≡ reply b
      → b ≡ free (holder s now k)
  pub set_nx-holder :
      (k v : String) (ttl now t : ℕ) (s : S) (j : String)
      → now ≤ t
      → (holder (redis.set_nx k v ttl now s).0 t j ≡ (
          if k == j && free (holder s now k)
          then (if leb (now + ttl) t then none else some v)
          else holder s t j))
        ⊎ (((n : ℕ) × ((redis.set_nx k v ttl now s).1 ≡ redis_error n))
            × (holder (redis.set_nx k v ttl now s).0 t j ≡ holder s t j))
  pub del-holder :
      (k : String) (s : S) (t : ℕ) (j : String)
      → holder (redis.del k s).0 t j ≡ (if k == j then none else holder s t j)
  pub eval-script :
      (f : S → S × ℕ) (s : S)
      → (redis.eval f s ≡ ((f s).0, reply (f s).1))
        ⊎ (((n : ℕ) × ((redis.eval f s).1 ≡ redis_error n))
            × (((redis.eval f s).0 ≡ (f s).0) ⊎ ((redis.eval f s).0 ≡ s)))

-- What others do to the key of a lock.
pub data Step : Type 0 where
  tries : String → ℕ → Step
  releases : String → Step
  extends : String → ℕ → Step

abbrev token_of : Step → String
token_of (tries token ttl) = token
token_of (releases token) = token
token_of (extends token ttl) = token

module _ {S : Type 0} (redis : Redis S) (law : Lawful redis) (key owner : String) where
  abbrev step : ℕ → Step → S → S
  step now (tries token ttl) s = (try_acquire redis (some token) key ttl now s).0
  step now (releases token) s = (release redis (record { key = key; token = token }) now s).0
  step now (extends token ttl) s = (extend redis (record { key = key; token = token }) ttl now s).0

  abbrev pub run : List (ℕ × Step) → S → S
  run [] s = s
  run ((now, e) ∷ es) s = run es (step now e s)

  -- The steps are in the order of time, before the deadline, and not by the owner.
  abbrev pub ByOthers : ℕ → ℕ → List (ℕ × Step) → Type 0
  ByOthers start deadline [] = Unit
  ByOthers start deadline ((now, e) ∷ es) =
      (start ≤ now) × (now < deadline) × ((token_of e == owner) ≡ false) × ByOthers now deadline es

  abbrev pub end_of : ℕ → List (ℕ × Step) → ℕ
  end_of start [] = start
  end_of start ((now, e) ∷ es) = end_of now es

  eval-state : (f : S → S × ℕ) (s : S) → ((redis.eval f s).0 ≡ (f s).0) ⊎ ((redis.eval f s).0 ≡ s)
  eval-state f s = elim (law.eval-script f s) [
    | inl run ↦ inl (ap (λ r. r.0) run)
    | inr failed ↦ failed.1
  ]

  step-holder :
      (now t : ℕ) (e : Step) (s : S)
      → now ≤ t
      → law.holder s now key ≡ some owner
      → law.holder s t key ≡ some owner
      → (token_of e == owner) ≡ false
      → law.holder (step now e s) t key ≡ some owner
  unfolding try_acquire release extend release_script extend_script
  step-holder now t (tries token ttl) s h o p ne =
      elim (law.set_nx-holder key token ttl now t s key h) [
        | inl set ↦ ground (arith, set)
        | inr failed ↦ ground (arith, failed.1)
      ]
  step-holder now t (releases token) s h o p ne =
      let same = string_cmp.eqb_iff token owner in
      let flip = string_cmp.eqb_iff owner token in
      let here = law.get-holder key now s in
      elim (eval-state (release_script redis key token now) s) [
        | inl run ↦ ground (arith, run, here, same, flip)
        | inr left ↦ ground (arith, left)
      ]
  step-holder now t (extends token ttl) s h o p ne =
      let same = string_cmp.eqb_iff token owner in
      let flip = string_cmp.eqb_iff owner token in
      let here = law.get-holder key now s in
      elim (eval-state (extend_script redis key token (ttl / 1000000) now) s) [
        | inl run ↦ ground (arith, run, here, same, flip)
        | inr left ↦ ground (arith, left)
      ]

  -- A key that was free belongs to the one who has set it until it expires.
  pub set_nx-owned :
      (ttl now t : ℕ) (s : S)
      → law.holder s now key ≡ none
      → (redis.set_nx key owner ttl now s).1 ≡ reply true
      → now ≤ t
      → t < now + ttl
      → law.holder (redis.set_nx key owner ttl now s).0 t key ≡ some owner
  set_nx-owned ttl now t s h fine l u = elim (law.set_nx-holder key owner ttl now t s key l) [
    | inl set ↦ ground (arith, set, eqb_refl key)
    | inr failed ↦ absurd (ground (arith, failed.0.1))
  ]

  -- While a lock lasts, nothing that others do takes it from its owner: they may try to acquire it,
  -- and release or extend it with their own tokens, in any order.
  pub holder-run :
      (start deadline t : ℕ) (es : List (ℕ × Step)) (s : S)
      → ((u : ℕ) → start ≤ u → u < deadline → law.holder s u key ≡ some owner)
      → ByOthers start deadline es
      → end_of start es ≤ t
      → t < deadline
      → law.holder (run es s) t key ≡ some owner
  holder-run start deadline t [] s own by h l = own t h l
  holder-run start deadline t ((now, e) ∷ es) s own by h l =
      holder-run now deadline t es (step now e s)
        (λ u a b. step-holder now u e s a (own now by.0 by.1) (own u (omega (arith, by.0)) b) by.2)
        by.3 h l
