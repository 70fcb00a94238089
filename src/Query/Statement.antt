-- ===== src/Query/Statement.antt =====
-- What the modifiers of parser/ add to a SELECT of the query builder, which is a parameter: the
-- texts and arguments of its WHERE, its ORDER BY, OFFSET and LIMIT.
use Prim.Native.String as Str
use Prim.Native.String.{String}
use native.Mathlib.Nat.{mod-eq_of_lt}
use fibr.Prelude.{
  ◌<◌, ◌≡◌, arith, ℕ, Bool, ◌-◌, ◌%◌, ◌^◌, ltb, if◌then◌else◌, List, [], ◌∷◌, ◌++◌, Option, none,
}
use fibr.Prelude.Int.{ℤ, pos, negsuc}

pub record Statement (V : Type 0) : Type 0 where
  pub wheres : List (String × List V)
  pub orders : List String
  pub offset : Option ℤ
  pub limit : Option ℤ

abbrev pub select : {V : Type 0} → Statement V
select = record { wheres = []; orders = []; offset = none; limit = none }

abbrev pub where_expr : {V : Type 0} → String → List V → Statement V → Statement V
where_expr text args q = record q { wheres = q.wheres ++ (text, args) ∷ [] }

abbrev pub order_expr : {V : Type 0} → String → Statement V → Statement V
order_expr text q = record q { orders = q.orders ++ text ∷ [] }

-- A natural number as the `int` of 64 bits that it wraps to.
pub wrap64 : ℕ → ℤ
wrap64 n = let m = n % 2 ^ 64 in if ltb m (2 ^ 63) then pos m else negsuc (2 ^ 64 - m - 1)

-- `strings.Join`
pub join : List String → String → String
join [] sep = ""
join (s ∷ []) sep = s
join (s ∷ t ∷ l) sep = Str.◌++◌ s (Str.◌++◌ sep (join (t ∷ l) sep))

-- `append(errs, s)` under a test.
abbrev pub append_if : Bool → String → List String → List String
append_if b s errs = if b then errs ++ s ∷ [] else errs

below : (n : ℕ) → n < 2 ^ 63 → n < 2 ^ 64
below n h = omega arith

pub wrap64_small : (n : ℕ) → n < 2 ^ 63 → wrap64 n ≡ pos n
unfolding wrap64
wrap64_small n h = ground (arith, mod-eq_of_lt (below n h))
