-- ===== src/Prelude/Assoc.antt =====
-- A Go map as an association list. Its order has no meaning, as that of a Go map.
use Prim.Native.Nat.{◌+◌, ◌≤◌}
use mathlib.Core.Path.{◌≡◌, refl}
use mathlib.Core.Option.{Option, none, some}
use mathlib.Core.List.{List, [], ◌∷◌}
use native.Mathlib.Omega.{arith}
use fibr.Prelude.Tests.{Comparable, ◌==◌, if◌then◌else◌, eqb_refl}
use fibr.Prelude.Lists.{length, count, All}

module _ {ℓ κ} {K : Type ℓ} {V : Type κ} where
  abbrev pub keys : List (K × V) → List K
  keys [] = []
  keys ((k, v) ∷ m) = k ∷ keys m

module _ {ℓ κ} {K : Type ℓ} {V : Type κ} ⦃cmp : Comparable K⦄ where
  -- `v, ok := m[k]`
  unfoldable pub lookup : K → List (K × V) → Option V
  lookup key [] = none
  lookup key ((i, w) ∷ rest) = if i == key then some w else lookup key rest

  -- `delete(m, k)`
  unfoldable pub delete : K → List (K × V) → List (K × V)
  delete key [] = []
  delete key ((i, w) ∷ rest) = if i == key then delete key rest else (i, w) ∷ delete key rest

  -- `m[k] = v`
  unfoldable pub insert : K → V → List (K × V) → List (K × V)
  unfolding delete
  insert k v m = (k, v) ∷ delete k m

module _ {ℓ κ} {K : Type ℓ} {V : Type κ} ⦃cmp : Comparable K⦄ where
  pub lookup-delete :
      (k j : K) (m : List (K × V)) → lookup j (delete k m) ≡ (if k == j then none else lookup j m)
  unfolding lookup delete
  lookup-delete k j [] = ground arith
  lookup-delete k j ((i, w) ∷ m) =
      ground (arith, cmp.eqb_iff k j, cmp.eqb_iff i k, cmp.eqb_iff i j, lookup-delete k j m)

  pub lookup-insert :
      (k j : K) (v : V) (m : List (K × V))
      → lookup j (insert k v m) ≡ (if k == j then some v else lookup j m)
  unfolding lookup insert
  lookup-insert k j v m = ground (arith, lookup-delete k j m)

  pub lookup-delete_self : (k : K) (m : List (K × V)) → lookup k (delete k m) ≡ none
  lookup-delete_self k m = ground (arith, lookup-delete k k m, eqb_refl k)

  pub lookup-insert_self : (k : K) (v : V) (m : List (K × V)) → lookup k (insert k v m) ≡ some v
  lookup-insert_self k v m = ground (arith, lookup-insert k k v m, eqb_refl k)

  pub count-keys-delete :
      (k j : K) (m : List (K × V))
      → count j (keys (delete k m)) ≡ (if k == j then 0 else count j (keys m))
  unfolding delete
  count-keys-delete k j [] = ground arith
  count-keys-delete k j ((i, w) ∷ m) =
      ground (arith, cmp.eqb_iff k j, cmp.eqb_iff i k, cmp.eqb_iff i j, count-keys-delete k j m)

  pub count-keys-insert :
      (k j : K) (v : V) (m : List (K × V))
      → count j (keys (insert k v m)) ≡ (if k == j then 1 else count j (keys m))
  unfolding insert
  count-keys-insert k j v m = ground (arith, count-keys-delete k j m)

  pub length-delete : (k : K) (m : List (K × V)) → length (delete k m) + count k (keys m) ≡ length m
  unfolding delete
  length-delete k [] = omega arith
  length-delete k ((i, w) ∷ m) = ground (arith, length-delete k m)

  pub length-insert :
      (k : K) (v : V) (m : List (K × V)) → length (insert k v m) + count k (keys m) ≡ length m + 1
  unfolding insert
  length-insert k v m = omega (arith, length-delete k m)

  -- A key that is not found is not among the keys.
  pub count-keys-none : (k : K) (m : List (K × V)) → lookup k m ≡ none → count k (keys m) ≡ 0
  unfolding lookup
  count-keys-none k [] h = refl
  count-keys-none k ((i, w) ∷ m) h = ground (arith, count-keys-none k m)

  -- A key that is found is among them.
  pub count-keys-some :
      (k : K) (m : List (K × V)) {v : V} → lookup k m ≡ some v → 1 ≤ count k (keys m)
  unfolding lookup
  count-keys-some k [] h = ground arith
  count-keys-some k ((i, w) ∷ m) {v} h = ground (arith, count-keys-some k m {v = v})

  -- Every entry of `es` is the one that `m` has under its key.
  abbrev pub Found : List (K × V) → List (K × V) → Type κ
  Found m es = All (λ p. lookup p.0 m ≡ some p.1) es

  Found-cons :
      (i : K) (w : V) (m es : List (K × V))
      → count i (keys m) ≡ 0
      → Found m es
      → Found ((i, w) ∷ m) es
  unfolding lookup
  Found-cons i w m [] z f = tt
  Found-cons i w m ((k, v) ∷ es) z f =
      (ground (arith, f.0, cmp.eqb_iff i k, count-keys-some k m {v = v}), Found-cons i w m es z f.1)

  pub Found-self : (m : List (K × V)) → ((k : K) → count k (keys m) ≤ 1) → Found m m
  unfolding lookup
  Found-self [] h = tt
  Found-self ((i, w) ∷ m) h = (
    ground (arith, eqb_refl i),
    Found-cons i w m m (ground (arith, h i, eqb_refl i)) (Found-self m (λ k. ground (arith, h k))),
  )
