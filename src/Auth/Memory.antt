-- ===== src/Auth/Memory.antt =====
-- auth/store_memory.go: the in-process token store.
use fibr.Prelude.{
  ℕ, ◌+◌, refl, String, Bool, true, false, not, Option, none, some, List, [], arith, ltb,
  if◌then◌else◌, string_cmp,
}
use fibr.Prelude.Assoc.{lookup, insert, delete, lookup-insert, lookup-delete}
use text.Mathlib.TextEquality.{eq_iff}
use fibr.Auth.Store.{Answer, answer, TokenStore, Lawful}

pub record FamEntry : Type 0 where
  pub jti : String
  pub exp : ℕ

pub record MemoryStore : Type 0 where
  pub blocks : List (String × ℕ)
  pub families : List (String × FamEntry)

unfoldable pub new_memory_store : MemoryStore
new_memory_store = record { blocks = []; families = [] }

unfoldable pub block : String → ℕ → ℕ → MemoryStore → MemoryStore × Option ℕ
block jti ttl now m = (record m { blocks = insert jti (now + ttl) m.blocks }, none)

unfoldable pub is_blocked : String → ℕ → MemoryStore → MemoryStore × Answer Bool
is_blocked jti now m = elim (lookup jti m.blocks) [
  | none ↦ (m, answer false)
  | some exp ↦
      if ltb exp now
      then (record m { blocks = delete jti m.blocks }, answer false)
      else (m, answer true)
]

unfoldable pub set_family : String → String → ℕ → ℕ → MemoryStore → MemoryStore × Option ℕ
set_family fid jti ttl now m =
    (record m { families = insert fid (record { jti = jti; exp = now + ttl }) m.families }, none)

unfoldable pub family : String → ℕ → MemoryStore → MemoryStore × Answer (Option String)
family fid now m = elim (lookup fid m.families) [
  | none ↦ (m, answer none)
  | some e ↦
      if ltb e.exp now
      then (record m { families = delete fid m.families }, answer none)
      else (m, answer (some e.jti))
]

unfoldable pub revoke_family : String → MemoryStore → MemoryStore × Option ℕ
revoke_family fid m = (record m { families = delete fid m.families }, none)

abbrev pub memory : TokenStore MemoryStore
memory = record {
  block = block;
  is_blocked = is_blocked;
  set_family = set_family;
  family = family;
  revoke_family = revoke_family;
}

abbrev live_entry : ℕ → Option FamEntry → Option String
live_entry t none = none
live_entry t (some e) = if ltb e.exp t then none else some e.jti

abbrev live_block : ℕ → Option ℕ → Bool
live_block t none = false
live_block t (some exp) = not (ltb exp t)

-- The in-process store keeps the promises of a token store: its lazy deletions, in `IsBlocked` and
-- in `Family`, are not seen by any call at the time of the deletion or later.
pub memory-Lawful : Lawful memory
unfolding block is_blocked set_family family revoke_family
memory-Lawful = record {
  active = λ m t f. live_entry t (lookup f m.families);
  blocked = λ m t j. live_block t (lookup j m.blocks);
  block-active = λ j ttl now t s f. refl;
  block-blocked = λ j ttl now t s k h. ground (arith, lookup-insert j k (now + ttl) s.blocks);
  is_blocked-answer = λ j now s b h. ground (arith, h);
  is_blocked-blocked = λ j now t s k h. ground (arith, lookup-delete j k s.blocks, eq_iff j k);
  is_blocked-active = λ j now t s f. ground arith;
  set_family-active = λ f j ttl now t s g h.
      ground (arith, lookup-insert f g (record { jti = j; exp = now + ttl }) s.families);
  set_family-blocked = λ f j ttl now t s k. refl;
  family-answer = λ f now s o h. ground (arith, h);
  family-active = λ f now t s g h. ground (arith, lookup-delete f g s.families, eq_iff f g);
  family-blocked = λ f now t s k. ground arith;
  revoke_family-active = λ f t s g h. ground (arith, lookup-delete f g s.families);
  revoke_family-blocked = λ f t s k. refl;
}
