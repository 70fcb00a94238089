-- ===== src/Auth/Store.antt =====
-- auth/store.go: the store of revoked token ids and token families.
use fibr.Prelude.{
  ℕ, ◌+◌, ◌≤◌, ◌≡◌, ◌⊎◌, inl, inr, refl, String, Bool, not, Option, none, some, ltb, if◌then◌else◌,
  ◌==◌, string_cmp,
}

pub data Answer {ℓ} (A : Type ℓ) : Type ℓ where
  answer : A → Answer A
  store_error : ℕ → Answer A

-- The operations of `TokenStore`; a write returns its error.
pub record TokenStore (S : Type 0) : Type 0 where
  pub block : String → ℕ → ℕ → S → S × Option ℕ
  pub is_blocked : String → ℕ → S → S × Answer Bool
  pub set_family : String → String → ℕ → ℕ → S → S × Option ℕ
  pub family : String → ℕ → S → S × Answer (Option String)
  pub revoke_family : String → S → S × Option ℕ

-- What a store promises, in terms of what it holds at a time: the active token of each family,
-- and the revoked ids. Every call may fail, and of one that fails only this is promised: a read
-- changes nothing, and a write changes nothing but what it writes. No read forgets or invents a fact
-- about the time of the call or later.
pub record Lawful {S : Type 0} (store : TokenStore S) : Type 0 where
  pub active : S → ℕ → String → Option String
  pub blocked : S → ℕ → String → Bool
  pub block-active :
      (j : String) (ttl now t : ℕ) (s : S) (f : String)
      → active (store.block j ttl now s).0 t f ≡ active s t f
  pub block-blocked :
      (j : String) (ttl now t : ℕ) (s : S) (k : String)
      → (store.block j ttl now s).1 ≡ none
      → blocked (store.block j ttl now s).0 t k
        ≡ (if j == k then not (ltb (now + ttl) t) else blocked s t k)
  pub is_blocked-answer :
      (j : String) (now : ℕ) (s : S) (b : Bool)
      → (store.is_blocked j now s).1 ≡ answer b
      → b ≡ blocked s now j
  pub is_blocked-blocked :
      (j : String) (now t : ℕ) (s : S) (k : String)
      → now ≤ t
      → blocked (store.is_blocked j now s).0 t k ≡ blocked s t k
  pub is_blocked-active :
      (j : String) (now t : ℕ) (s : S) (f : String)
      → active (store.is_blocked j now s).0 t f ≡ active s t f
  pub set_family-active :
      (f j : String) (ttl now t : ℕ) (s : S) (g : String)
      → (store.set_family f j ttl now s).1 ≡ none
      → active (store.set_family f j ttl now s).0 t g
        ≡ (if f == g then (if ltb (now + ttl) t then none else some j) else active s t g)
  pub set_family-blocked :
      (f j : String) (ttl now t : ℕ) (s : S) (k : String)
      → blocked (store.set_family f j ttl now s).0 t k ≡ blocked s t k
  pub family-answer :
      (f : String) (now : ℕ) (s : S) (o : Option String)
      → (store.family f now s).1 ≡ answer o
      → o ≡ active s now f
  pub family-active :
      (f : String) (now t : ℕ) (s : S) (g : String)
      → now ≤ t
      → active (store.family f now s).0 t g ≡ active s t g
  pub family-blocked :
      (f : String) (now t : ℕ) (s : S) (k : String)
      → blocked (store.family f now s).0 t k ≡ blocked s t k
  pub revoke_family-active :
      (f : String) (t : ℕ) (s : S) (g : String)
      → (store.revoke_family f s).1 ≡ none
      → active (store.revoke_family f s).0 t g ≡ (if f == g then none else active s t g)
  pub revoke_family-blocked :
      (f : String) (t : ℕ) (s : S) (k : String)
      → blocked (store.revoke_family f s).0 t k ≡ blocked s t k

pub Answer-cases {ℓ} :
    {A : Type ℓ} (r : Answer A) → ((a : A) × (r ≡ answer a)) ⊎ ((n : ℕ) × (r ≡ store_error n))
Answer-cases (answer a) = inl (a, refl)
Answer-cases (store_error n) = inr (n, refl)
