-- ===== src/I18n/Locale.antt =====
-- i18n/middleware.go: the locale of a request. The weights of Accept-Language are floating-point
-- numbers: their type, their order and `strconv.ParseFloat` are parameters.
use fibr.Prelude.{Bool, not, ◌&&◌, Option, none, some, List, [], ◌∷◌, if◌then◌else◌}
use fibr.Prelude.Int.{ℤ}
use fibr.Prelude.Bytes.{Bytes, codes, split, cut, trim_space, after, to_lower}
use fibr.I18n.{Bundle, Args, has, translate, plural, is_empty}

pub record MwConfig : Type 0 where
  pub query_key : Bytes
  pub cookie_key : Bytes

pub data MwOption : Type 0 where
  with_query_key with_cookie_key : Bytes → MwOption

unfoldable pub apply_options : List MwOption → MwConfig → MwConfig
apply_options [] cfg = cfg
apply_options (with_query_key k ∷ opts) cfg = apply_options opts (record cfg { query_key = k })
apply_options (with_cookie_key k ∷ opts) cfg = apply_options opts (record cfg { cookie_key = k })

unfoldable pub new_config : List MwOption → MwConfig
unfolding apply_options
new_config opts =
    apply_options opts (record { query_key = codes "lang"; cookie_key = codes "lang" })

-- What a request brings.
pub record Request : Type 0 where
  pub query : Bytes → Bytes
  pub cookies : Bytes → Bytes
  pub accept_language : Bytes

-- The locals of a request that concern this package.
pub record Locals : Type 0 where
  pub locale : Option Bytes
  pub bundle : Option Bundle

pub record Weights (Q : Type 0) : Type 0 where
  pub gt : Q → Q → Bool
  pub one : Q
  pub parse_float : Bytes → Option Q

pub record Pref (Q : Type 0) : Type 0 where
  pub tag : Bytes
  pub q : Q

abbrev pub base_in : Bundle → Option (Bytes × Bytes) → Option Bytes
base_in b none = none
base_in b (some (base, rest)) = if has b base then some base else none

-- What a tag gives: itself, or its base.
unfoldable pub supported : Bundle → Bytes → Option Bytes
supported b tag = if has b tag then some tag else base_in b (cut 45 tag)

abbrev pub or_later : Option Bytes → Bytes → Bytes
or_later (some l) rest = l
or_later none rest = rest

abbrev pub given : Bundle → Bytes → Bool
given b v = not (is_empty v) && has b v

abbrev pub chosen : Bundle → Bytes → Bytes → Bytes → Bytes
chosen b in_query in_cookie matched =
    if given b in_query
    then in_query
    else if given b in_cookie
    then in_cookie
    else if is_empty matched
    then b.fallback
    else matched

module _ {Q : Type 0} (weights : Weights Q) where
  abbrev pub weight_in : Option Bytes → Q
  weight_in none = weights.one
  weight_in (some s) = elim (weights.parse_float s) [ none ↦ weights.one | some f ↦ f ]

  -- A part with or without parameters behind a semicolon.
  abbrev pub pref_in : Bytes → Option (Bytes × Bytes) → Pref Q
  pref_in part none = record { tag = to_lower part; q = weights.one }
  pref_in part (some (tag, params)) = record {
    tag = to_lower (trim_space tag);
    q = weight_in (after (codes "q=") (59 ∷ params));
  }

  abbrev pub pref_of : Bytes → Pref Q
  pref_of part = pref_in part (cut 59 part)

  unfoldable pub prefs : List Bytes → List (Pref Q)
  prefs [] = []
  prefs (part ∷ parts) =
      let t = trim_space part in if is_empty t then prefs parts else pref_of t ∷ prefs parts

  -- `sort.SliceStable` by falling weights.
  unfoldable pub insert_pref : Pref Q → List (Pref Q) → List (Pref Q)
  insert_pref p [] = p ∷ []
  insert_pref p (x ∷ xs) = if weights.gt x.q p.q then x ∷ insert_pref p xs else p ∷ x ∷ xs

  unfoldable pub sort_prefs : List (Pref Q) → List (Pref Q)
  unfolding insert_pref
  sort_prefs [] = []
  sort_prefs (p ∷ ps) = insert_pref p (sort_prefs ps)

  unfoldable pub first_supported : Bundle → List (Pref Q) → Bytes
  unfolding supported
  first_supported b [] = []
  first_supported b (p ∷ ps) = or_later (supported b p.tag) (first_supported b ps)

  unfoldable pub match_accept_language : Bundle → Bytes → Bytes
  unfolding first_supported sort_prefs prefs
  match_accept_language b header =
      if is_empty header then [] else first_supported b (sort_prefs (prefs (split 44 header)))

  unfoldable pub resolve : Bundle → Request → MwConfig → Bytes
  resolve b c cfg =
      chosen b (c.query cfg.query_key) (c.cookies cfg.cookie_key)
        (match_accept_language b c.accept_language)

  -- What the middleware leaves in the locals for the next handler.
  unfoldable pub middleware : Bundle → List MwOption → Request → Locals → Locals
  unfolding resolve new_config
  middleware b opts c locals = record {
    locale = some (resolve b c (new_config opts));
    bundle = some b;
  }

abbrev pub fallback_in : Option Bundle → Bytes
fallback_in none = []
fallback_in (some b) = b.fallback

abbrev pub locale_in : Option Bytes → Option Bundle → Bytes
locale_in none bundle = fallback_in bundle
locale_in (some v) bundle = if not (is_empty v) then v else fallback_in bundle

unfoldable pub locale_of : Locals → Bytes
locale_of locals = locale_in locals.locale locals.bundle

abbrev pub t_in : Option Bundle → Bytes → Bytes → Args → Bytes
t_in none locale key args = key
t_in (some b) locale key args = translate b locale key args

-- `T`
unfoldable pub translate_for : Locals → Bytes → Args → Bytes
unfolding locale_of
translate_for locals key args = t_in locals.bundle (locale_of locals) key args

abbrev pub n_in : Option Bundle → Bytes → Bytes → ℤ → Args → Bytes
n_in none locale key n args = key
n_in (some b) locale key n args = plural b locale key n args

-- `N`
unfoldable pub plural_for : Locals → Bytes → ℤ → Args → Bytes
unfolding locale_of
plural_for locals key n args = n_in locals.bundle (locale_of locals) key n args
