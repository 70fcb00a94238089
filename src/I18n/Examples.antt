-- ===== src/I18n/Examples.antt =====
-- i18n/bundle.go, i18n/plural.go, i18n/middleware.go: runs of the code.
use fibr.Prelude.{ℕ, ◌≡◌, refl, ◌⊎◌, inl, inr, false, none, some, [], ◌∷◌, All, In, ltb, arith}
use fibr.Prelude.Int.{negsuc}
use fibr.Prelude.Assoc.{lookup}
use fibr.Prelude.Bytes.{Bytes, codes, split, cut, trim_space, trim_left, trim_right, to_lower}
use fibr.Prelude.Decimal.{parse_ℕ}
use fibr.I18n.{Bundle, Nested, text, table, empty, entry, load_map, has, find}
use fibr.I18n.Category.{Category, plural_category}
use fibr.I18n.Load.{paths, dotted, load_map-find}
use fibr.I18n.Locale.{
  Weights, Request, MwConfig, Pref, match_accept_language, first_supported, sort_prefs, insert_pref,
  supported, prefs,
}
use fibr.I18n.Sorted.{Ordered}
use fibr.I18n.Lower.{match-Lower}
use fibr.I18n.Accept.{match-Best}

abbrev greetings : Nested
greetings =
    entry (codes "hello") (text (codes "hi"))
      (entry (codes "cart") (table (entry (codes "other") (text (codes "{n} items")) empty)) empty)

abbrev english : Bundle
english = record {
  messages =
      (codes "en", (codes "hello", codes "hi") ∷ (codes "cart.other", codes "{n} items") ∷ []) ∷ [];
  fallback = codes "en";
}

load_map-find_example :
    find
      (load_map (codes "id") greetings english)
      (codes "id")
      (dotted (codes "cart" ∷ codes "other" ∷ []))
    ≡ some (codes "{n} items")
unfolding paths
load_map-find_example =
    load_map-find english (codes "id") greetings (codes "cart" ∷ codes "other" ∷ [])
      (codes "{n} items") (inr (inl refl)) (inl refl, (inr refl, tt))

-- Weights in whole percent.
abbrev percents : Weights ℕ
percents = record { gt = λ a b. ltb b a; one = 100; parse_float = λ s. parse_ℕ s }

percents-Ordered : Ordered percents
percents-Ordered = record { gt_asym = λ a b h. ground arith; gt_trans = λ a b c h g. ground arith }

abbrev two_locales : Bundle
two_locales = record english {
  messages =
      (codes "pt-BR", (codes "a", codes "b") ∷ [])
      ∷ (codes "id", (codes "a", codes "c") ∷ [])
      ∷ english.messages;
}

abbrev header : Bytes
header = codes "pt-BR, en;q=50, id-ID;q=80"

matched : match_accept_language percents two_locales header ≡ codes "id"
unfolding match_accept_language first_supported sort_prefs insert_pref supported prefs has lookup
    split cut trim_space trim_left trim_right parse_ℕ
matched = refl

match-Best_example :
    (p : Pref ℕ) × In p (prefs percents (split 44 header))
    × (supported two_locales p.tag ≡ some (codes "id"))
    × All
        (λ x. (supported two_locales x.tag ≡ none) ⊎ (ltb p.q x.q ≡ false))
        (prefs percents (split 44 header))
match-Best_example =
    match-Best percents percents-Ordered two_locales header (codes "id") matched refl

abbrev asking : Request
asking = record { query = λ k. codes "xx"; cookies = λ k. []; accept_language = header }

abbrev config : MwConfig
config = record { query_key = codes "lang"; cookie_key = codes "lang" }

russian : plural_category (codes "ru-RU") (negsuc 20) ≡ Category.one
unfolding plural_category cut
russian = refl

match-Lower_example :
    to_lower (match_accept_language percents two_locales header)
    ≡ match_accept_language percents two_locales header
match-Lower_example = match-Lower percents two_locales header
