-- ===== src/I18n.antt =====
-- i18n/bundle.go: a catalog of messages per locale. Texts are their bytes, and a value is printed
-- (`fmt.Sprint`) when it comes in. A map that is ranged over is a list in the order of that range.
pub mod Category
pub mod Locale
pub mod Chain
pub mod Load
pub mod Lower
pub mod Accept
pub mod Sorted
mod Examples
use fibr.Prelude.{
  ℕ, ◌≡◌, Bool, true, false, not, Option, none, some, List, [], ◌∷◌, ◌++◌, if◌then◌else◌, ◌==◌, ltb,
}
use fibr.Prelude.Int.{ℤ}
use fibr.Prelude.Assoc.{lookup, insert}
use fibr.Prelude.Bytes.{Bytes, codes, bytes_cmp, replace_all}
use fibr.Prelude.Decimal.{format_int}
use fibr.I18n.Category.{plural_category, text_of}

abbrev pub Args : Type 0
Args = List (Bytes × Bytes)

abbrev pub Messages : Type 0
Messages = List (Bytes × Bytes)

pub record Bundle : Type 0 where
  pub messages : List (Bytes × Messages)
  pub fallback : Bytes

pub data BundleOption : Type 0 where
  with_fallback : Bytes → BundleOption

unfoldable pub apply_options : List BundleOption → Bundle → Bundle
apply_options [] b = b
apply_options (with_fallback locale ∷ opts) b = apply_options opts (record b { fallback = locale })

unfoldable pub new : List BundleOption → Bundle
unfolding apply_options
new opts = apply_options opts (record { messages = []; fallback = codes "en" })

-- `b.messages[locale]`, where a nil map reads as an empty one.
abbrev pub or_empty : Option Messages → Messages
or_empty none = []
or_empty (some m) = m

unfoldable pub has : Bundle → Bytes → Bool
has b locale = elim (or_empty (lookup locale b.messages)) [ [] ↦ false | ◌∷◌ m ms ↦ true ]

-- A nested map: of its values those that are not maps are printed.
mutual
  pub data Value : Type 0 where
    text : Bytes → Value
    table : Nested → Value

  pub data Nested : Type 0 where
    empty : Nested
    entry : Bytes → Value → Nested → Nested

abbrev pub is_empty : Bytes → Bool
is_empty [] = true
is_empty (c ∷ s) = false

abbrev pub key_in : Bytes → Bytes → Bytes
key_in prefix k = if not (is_empty prefix) then prefix ++ 46 ∷ k else k

unfoldable mutual
  pub flatten : Bytes → Nested → Messages → Messages
  flatten prefix empty out = out
  flatten prefix (entry k v rest) out = flatten prefix rest (flatten_value (key_in prefix k) v out)

  pub flatten_value : Bytes → Value → Messages → Messages
  flatten_value key (text s) out = insert key s out
  flatten_value key (table child) out = flatten key child out

unfoldable pub load_map : Bytes → Nested → Bundle → Bundle
unfolding flatten
load_map locale nested b = record b {
  messages = insert locale (flatten [] nested (or_empty (lookup locale b.messages))) b.messages;
}

-- `LoadJSON`, over what the decoder makes of the data; false is an error.
unfoldable pub load_json : Bytes → Option Nested → Bundle → Bundle × Bool
unfolding load_map
load_json locale none b = (b, false)
load_json locale (some nested) b = (load_map locale nested b, true)

unfoldable pub find : Bundle → Bytes → Bytes → Option Bytes
find b locale key = lookup key (or_empty (lookup locale b.messages))

unfoldable pub substitute : Bytes → Args → Bytes
substitute s [] = s
substitute s ((k, v) ∷ args) = substitute (replace_all (123 ∷ k ++ 125 ∷ []) v s) args

abbrev pub translated : Bytes → Args → Option Bytes → Option Bytes → Bytes
translated key args (some s) other = substitute s args
translated key args none (some s) = substitute s args
translated key args none none = key

unfoldable pub translate : Bundle → Bytes → Bytes → Args → Bytes
translate b locale key args =
    translated key args (find b locale key)
      (if locale == b.fallback then none else find b b.fallback key)

-- `merged := M{"n": n}` and the arguments over it.
unfoldable pub merge : Args → Args → Args
merge [] into = into
merge ((k, v) ∷ args) into = merge args (insert k v into)

abbrev pub or_translate : Bundle → Bytes → Bytes → Args → Option Bytes → Bytes
or_translate b locale key args (some s) = substitute s args
or_translate b locale key args none = translate b locale (key ++ codes ".other") args

abbrev pub with_count : ℤ → Args → Args
with_count n args = merge args ((codes "n", format_int n) ∷ [])

unfoldable pub plural : Bundle → Bytes → Bytes → ℤ → Args → Bytes
plural b locale key n args =
    or_translate b locale key (with_count n args)
      (find b locale (key ++ 46 ∷ text_of (plural_category locale n)))
