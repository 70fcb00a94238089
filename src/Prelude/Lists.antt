-- ===== src/Prelude/Lists.antt =====
-- Lists measured and indexed by native numbers, under the library's names.
use Prim.Native.Nat.{ℕ, zero, suc, ◌+◌, ◌≤◌, min}
use mathlib.Core.Path.{◌≡◌, refl, ap, subst}
use mathlib.Core.Bool.{Bool, false, ◌||◌}
use mathlib.Core.Logic.{◌⊎◌, inl, inr}
use mathlib.Core.Option.{Option, none, some}
use mathlib.Core.List.{List, [], ◌∷◌, ◌++◌}
use native.Mathlib.Omega.{arith}
use fibr.Prelude.Tests.{Comparable, ◌==◌, if◌then◌else◌}

module _ {ℓ} {A : Type ℓ} where
  abbrev pub length : List A → ℕ
  length [] = 0
  length (x ∷ xs) = suc (length xs)

  abbrev pub take : ℕ → List A → List A
  take zero xs = []
  take (suc n) [] = []
  take (suc n) (x ∷ xs) = x ∷ take n xs

  -- A predicate by recursion computes to tuples, which the tactics read and build.
  abbrev pub All {κ} : (A → Type κ) → List A → Type κ
  All P [] = Unit
  All P (x ∷ xs) = P x × All P xs

  abbrev pub drop : ℕ → List A → List A
  drop zero xs = xs
  drop (suc n) [] = []
  drop (suc n) (x ∷ xs) = drop n xs

  abbrev pub get_last? : List A → Option A
  get_last? [] = none
  get_last? (x ∷ []) = some x
  get_last? (x ∷ y ∷ l) = get_last? (y ∷ l)

  pub length-append : (xs ys : List A) → length (xs ++ ys) ≡ length xs + length ys
  length-append [] ys = omega arith
  length-append (x ∷ xs) ys = omega (arith, length-append xs ys)

  pub length-take : (n : ℕ) (xs : List A) → length (take n xs) ≡ min n (length xs)
  length-take zero xs = omega arith
  length-take (suc n) [] = omega arith
  length-take (suc n) (x ∷ xs) = omega (arith, length-take n xs)

module _ {ℓ} {A : Type ℓ} ⦃cmp : Comparable A⦄ where
  -- `slices.Contains`
  abbrev pub contains : List A → A → Bool
  contains [] a = false
  contains (x ∷ xs) a = x == a || contains xs a

  abbrev pub count : A → List A → ℕ
  count a [] = 0
  count a (b ∷ l) = (if b == a then 1 else 0) + count a l

  -- The list with no entry `a`.
  abbrev pub remove : A → List A → List A
  remove a [] = []
  remove a (x ∷ xs) = if x == a then remove a xs else x ∷ remove a xs

module _ {ℓ} {A : Type ℓ} ⦃cmp : Comparable A⦄ where
  pub count-remove :
      (a b : A) (xs : List A) → count b (remove a xs) ≡ (if a == b then 0 else count b xs)
  count-remove a b [] = ground arith
  count-remove a b (x ∷ xs) =
      ground (arith, cmp.eqb_iff a b, cmp.eqb_iff x a, cmp.eqb_iff x b, count-remove a b xs)

  pub length-remove : (a : A) (xs : List A) → length (remove a xs) + count a xs ≡ length xs
  length-remove a [] = omega arith
  length-remove a (x ∷ xs) = ground (arith, length-remove a xs)

  -- Counting backwards from the last element: it occurs, and a list without one is empty.
  pub count-get_last? : (xs : List A) (a : A) → get_last? xs ≡ some a → 1 ≤ count a xs
  count-get_last? [] a h = ground arith
  count-get_last? (x ∷ []) a h = ground (arith, cmp.eqb_iff x a)
  count-get_last? (x ∷ y ∷ l) a h = ground (arith, count-get_last? (y ∷ l) a h)

  pub length-get_last? : (xs : List A) → get_last? xs ≡ none → length xs ≡ 0
  length-get_last? [] h = refl
  length-get_last? (x ∷ []) h = cc
  length-get_last? (x ∷ y ∷ l) h = absurd (omega (arith, length-get_last? (y ∷ l) h))

  -- How many entries stand before the first `a`.
  abbrev pub before : A → List A → ℕ
  before a [] = 0
  before a (x ∷ xs) = if x == a then 0 else suc (before a xs)

  pub before-remove :
      (a b : A) (xs : List A) → (b == a) ≡ false → before a (remove b xs) ≤ before a xs
  before-remove a b [] h = omega arith
  before-remove a b (x ∷ xs) h =
      ground (arith, cmp.eqb_iff x a, cmp.eqb_iff x b, cmp.eqb_iff b a, before-remove a b xs h)

  -- The last entry, where it occurs once, has all the others before it.
  pub before-get_last? :
      (a : A) (xs : List A) → get_last? xs ≡ some a → count a xs ≤ 1 → suc (before a xs) ≡ length xs
  before-get_last? a [] l h = ground arith
  before-get_last? a (x ∷ []) l h = ground (arith, cmp.eqb_iff x a)
  before-get_last? a (x ∷ y ∷ xs) l h =
      ground (arith, count-get_last? (y ∷ xs) a l, before-get_last? a (y ∷ xs) l)

-- The element stands in the list.
abbrev pub In : {A : Type 0} → A → List A → Type 0
In a [] = ⊥
In a (x ∷ xs) = (x ≡ a) ⊎ In a xs

pub In-append_left : {A : Type 0} (a : A) (xs ys : List A) → In a xs → In a (xs ++ ys)
In-append_left a [] ys h = absurd h
In-append_left a (x ∷ xs) ys (inl h) = inl h
In-append_left a (x ∷ xs) ys (inr h) = inr (In-append_left a xs ys h)

pub In-append_last : {A : Type 0} (a : A) (xs : List A) → In a (xs ++ a ∷ [])
In-append_last a [] = inl refl
In-append_last a (x ∷ xs) = inr (In-append_last a xs)

pub take-drop {ℓ} : {A : Type ℓ} (n : ℕ) (xs : List A) → take n xs ++ drop n xs ≡ xs
take-drop zero xs = refl
take-drop (suc n) [] = refl
take-drop (suc n) (x ∷ xs) = ap (λ l. x ∷ l) (take-drop n xs)

pub append_assoc {ℓ} : {A : Type ℓ} (xs ys zs : List A) → (xs ++ ys) ++ zs ≡ xs ++ (ys ++ zs)
append_assoc [] ys zs = refl
append_assoc (x ∷ xs) ys zs = ap (λ l. x ∷ l) (append_assoc xs ys zs)

pub append_nil {ℓ} : {A : Type ℓ} (xs : List A) → xs ++ [] ≡ xs
append_nil [] = refl
append_nil (x ∷ xs) = ap (λ l. x ∷ l) (append_nil xs)

pub In-All {κ} : {A : Type 0} (P : A → Type κ) (a : A) (xs : List A) → In a xs → All P xs → P a
In-All P a [] there h = absurd there
In-All P a (x ∷ xs) (inl same) h = subst P same h.0
In-All P a (x ∷ xs) (inr later) h = In-All P a xs later h.1
