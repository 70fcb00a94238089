-- ===== src/Storage.antt =====
-- redis/storage.go: Fiber's storage on a Redis client, under a prefix. The client is a parameter;
-- contexts are left out. A duration of 0 means no expiry.
pub mod Prefix
mod Examples
use fibr.Prelude.{
  ℕ, zero, suc, ◌+◌, ◌≡◌, Bool, true, false, not, ◌||◌, Option, none, some, List, [], ◌∷◌, ◌++◌,
  length, leb, if◌then◌else◌,
}
use fibr.Prelude.Bytes.{Bytes, codes}

pub data Reply (A : Type 0) : Type 0 where
  value : A → Reply A
  missing : Reply A
  fails : ℕ → Reply A

-- The commands of the client; `scan` gives the keys that match a pattern, one after the other, and the
-- error that ends the iteration.
pub record Client (S : Type 0) : Type 0 where
  pub get : Bytes → S → Reply Bytes
  pub set : Bytes → Bytes → ℕ → S → S × Option ℕ
  pub del : List Bytes → S → S × Option ℕ
  pub scan : Bytes → S → List Bytes × Option ℕ
  pub shut : S → S × Option ℕ

pub record Storage : Type 0 where
  pub prefix : Bytes

pub data StorageOption : Type 0 where
  with_prefix : Bytes → StorageOption

unfoldable pub apply_options : List StorageOption → Storage → Storage
apply_options [] st = st
apply_options (with_prefix p ∷ opts) st = apply_options opts (record st { prefix = p })

unfoldable pub new_storage : List StorageOption → Storage
unfolding apply_options
new_storage opts = apply_options opts (record { prefix = codes "fiber:storage:" })

abbrev pub is_empty : Bytes → Bool
is_empty [] = true
is_empty (c ∷ s) = false

module _ {S : Type 0} (client : Client S) (st : Storage) where
  -- A missing key has no value and no error.
  abbrev pub without_nil : Reply Bytes → Reply (Option Bytes)
  without_nil (value b) = value (some b)
  without_nil missing = value none
  without_nil (fails e) = fails e

  unfoldable pub get : Bytes → S → Reply (Option Bytes)
  get key s = if is_empty key then value none else without_nil (client.get (st.prefix ++ key) s)

  unfoldable pub set : Bytes → Bytes → ℕ → S → S × Option ℕ
  set key val exp s =
      if is_empty key || is_empty val then (s, none) else client.set (st.prefix ++ key) val exp s

  unfoldable pub delete : Bytes → S → S × Option ℕ
  delete key s = if is_empty key then (s, none) else client.del ((st.prefix ++ key) ∷ []) s

  -- What comes after the loop of `Reset`.
  abbrev pub last_batch : List Bytes → Option ℕ → S → S × Option ℕ
  last_batch batch (some e) s = (s, some e)
  last_batch [] none s = (s, none)
  last_batch (k ∷ ks) none s = client.del (k ∷ ks) s

  -- The loop over the keys of the iterator, with the batch so far.
  unfoldable pub reset_from : List Bytes → List Bytes → Option ℕ → S → S × Option ℕ
  reset_from [] batch iter_err s = last_batch batch iter_err s
  reset_from (k ∷ ks) batch iter_err s =
      let full = batch ++ k ∷ [] in
      let deleted = client.del full s in
      let go_on = reset_from ks full iter_err s in
      let go_on_empty = reset_from ks [] iter_err deleted.0 in
      if leb 500 (length full)
      then elim deleted.1 [ some e ↦ (deleted.0, some e) | none ↦ go_on_empty ]
      else go_on

  unfoldable pub reset : S → S × Option ℕ
  unfolding reset_from
  reset s = let (ks, iter_err) = client.scan (st.prefix ++ 42 ∷ []) s in reset_from ks [] iter_err s

  unfoldable pub close : S → S × Option ℕ
  close s = client.shut s
