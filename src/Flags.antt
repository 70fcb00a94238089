-- ===== src/Flags.antt =====
-- featureflag/: flags with targeting and a rollout by percentage. The hash (FNV-1a of 32 bits) and
-- the JSON of a rule in Redis are parameters.
mod Examples
use Prim.Native.String.{◌++◌}
use fibr.Prelude.{
  ℕ, ◌+◌, ◌%◌, ◌≤◌, ◌≡◌, String, Bool, true, false, not, ◌&&◌, ◌||◌, Option, none, some, List, [],
  ◌∷◌, contains, if◌then◌else◌, ◌==◌, string_cmp, arith,
}
use fibr.Prelude.Int.{ℤ, pos, pos_part, neg_part, ltb_ℤ, ◌≤ℤ◌}
use fibr.Prelude.Assoc.{lookup}

pub record Eval : Type 0 where
  pub user_id : String
  pub groups : List String
  pub attrs : List (String × String)

pub record Rule : Type 0 where
  pub enabled : Bool
  pub percentage : ℤ
  pub users : List String
  pub groups : List String

abbrev pub Provider : Type 0
Provider = String → Eval → Bool

-- `Flags.Enabled`, where the provider may be missing.
pub flags_enabled : Option Provider → String → Eval → Bool
flags_enabled none flag e = false
flags_enabled (some p) flag e = p flag e

-- `m[flag]`, false where it is missing.
pub static : List (String × Bool) → Provider
static m flag e = elim (lookup flag m) [ none ↦ false | some b ↦ b ]

unfoldable pub any_group : List String → List String → Bool
any_group [] allowed = false
any_group (g ∷ gs) allowed = contains allowed g || any_group gs allowed

module _ (sum32 : String → ℕ) where
  unfoldable pub bucket : String → String → ℕ
  bucket flag user = sum32 (flag ++ ":" ++ user) % 100

  unfoldable pub rule_eval : Rule → String → Eval → Bool
  unfolding any_group bucket
  rule_eval r flag e =
      if not (e.user_id == "") && contains r.users e.user_id
      then true
      else if any_group e.groups r.groups
      then true
      else if ltb_ℤ (pos 0) r.percentage
          && not (e.user_id == "")
          && ltb_ℤ (pos (bucket flag e.user_id)) r.percentage
      then true
      else r.enabled

  pub rules : List (String × Rule) → Provider
  unfolding rule_eval
  rules m flag e = elim (lookup flag m) [ none ↦ false | some r ↦ rule_eval r flag e ]

  -- The value under the flag's key, none where Redis has none or fails.
  pub redis_flags : (String → Option String) → (String → Option Rule) → String → Provider
  unfolding rule_eval
  redis_flags get decode prefix flag e = elim (get (prefix ++ flag)) [
    | none ↦ false
    | some val ↦
        if val == "true"
        then true
        else if val == "false"
        then false
        else elim (decode val) [ none ↦ false | some r ↦ rule_eval r flag e ]
  ]

  -- A rollout only grows: a flag that is on for a user at some percentage is on for that user at
  -- every higher one.
  rule_eval_grows :
      (r : Rule) (p : ℤ) (flag : String) (e : Eval)
      → r.percentage ≤ℤ p
      → rule_eval r flag e ≡ true
      → rule_eval (record r { percentage = p }) flag e ≡ true
  unfolding rule_eval
  rule_eval_grows r p flag e h on = ground arith
