-- ===== src/I18n/Lower.antt =====
-- i18n/middleware.go: the tags of Accept-Language in lower case.
use fibr.Prelude.{
  ℕ, ◌≡◌, refl, subst, Option, none, some, List, [], ◌∷◌, All, inl, inr, Bool-cases, Option-cases,
  ◌==◌, arith, nat_cmp,
}
use fibr.Prelude.Bytes.{Bytes, split, cut, to_lower, trim_space}
use fibr.I18n.{Bundle, has, is_empty}
use fibr.I18n.Locale.{
  Weights, Pref, pref_in, prefs, sort_prefs, supported, base_in, first_supported,
  match_accept_language,
}
use fibr.I18n.Sorted.{sort_prefs-All}

abbrev pub Lower : Bytes → Type 0
Lower s = to_lower s ≡ s

to_lower-Lower : (s : Bytes) → Lower (to_lower s)
to_lower-Lower [] = refl
to_lower-Lower (c ∷ s) = ground (arith, to_lower-Lower s)

Lower-head : (c : ℕ) (s : Bytes) → Lower (c ∷ s) → Lower s
Lower-head c s h = ground arith

cut-Lower : (sep : ℕ) (s k v : Bytes) → Lower s → cut sep s ≡ some (k, v) → Lower k
unfolding cut
cut-Lower sep [] k v low h = absurd (ground arith)
cut-Lower sep (c ∷ s) k v low h = elim (Bool-cases (c == sep)) [
  | inl hit ↦ let same : [] ≡ k = ground (arith, hit) in subst Lower same refl
  | inr miss ↦ elim (Option-cases (cut sep s)) [
    | inl gone ↦ absurd (ground (arith, miss, gone))
    | inr ((l, w), found) ↦
        let same : c ∷ l ≡ k = ground (arith, miss, found) in
        let rest = cut-Lower sep s l w (Lower-head c s low) found in
        subst Lower same (ground (arith, low, rest))
  ]
]

module _ {Q : Type 0} (weights : Weights Q) where
  pref_in-Lower : (part : Bytes) (o : Option (Bytes × Bytes)) → Lower (pref_in weights part o).tag
  pref_in-Lower part none = to_lower-Lower part
  pref_in-Lower part (some (tag, params)) = to_lower-Lower (trim_space tag)

  prefs-Lower : (parts : List Bytes) → All (λ p. Lower p.tag) (prefs weights parts)
  unfolding prefs
  prefs-Lower [] = tt
  prefs-Lower (part ∷ parts) =
      let t = trim_space part in
      elim (Bool-cases (is_empty t)) [
        | inl blank ↦ rw blank (prefs-Lower parts)
        | inr some_text ↦ rw some_text (pref_in-Lower t (cut 59 t), prefs-Lower parts)
      ]

  base_in-Lower :
      (b : Bundle) (tag l : Bytes) → Lower tag → base_in b (cut 45 tag) ≡ some l → Lower l
  base_in-Lower b tag l low h = elim (Option-cases (cut 45 tag)) [
    | inl whole ↦ absurd (ground (arith, whole))
    | inr ((base, rest), found) ↦ elim (Bool-cases (has b base)) [
      | inl there ↦
          let same : base ≡ l = ground (arith, found, there) in
          subst Lower same (cut-Lower 45 tag base rest low found)
      | inr gone ↦ absurd (ground (arith, found, gone))
    ]
  ]

  supported-Lower : (b : Bundle) (tag l : Bytes) → Lower tag → supported b tag ≡ some l → Lower l
  unfolding supported
  supported-Lower b tag l low h = elim (Bool-cases (has b tag)) [
    | inl there ↦ let same : tag ≡ l = ground (arith, there) in subst Lower same low
    | inr gone ↦ base_in-Lower b tag l low (ground (arith, gone))
  ]

  first_supported-Lower :
      (b : Bundle) (ps : List (Pref Q))
      → All (λ p. Lower p.tag) ps
      → Lower (first_supported weights b ps)
  unfolding first_supported
  first_supported-Lower b [] h = refl
  first_supported-Lower b (p ∷ ps) h = elim (Option-cases (supported b p.tag)) [
    | inl gone ↦ rw gone (first_supported-Lower b ps h.1)
    | inr (l, there) ↦ rw there (supported-Lower b p.tag l h.0 there)
  ]

  -- A locale that is taken from Accept-Language is in lower case: one that was loaded with a capital
  -- is never taken from there.
  pub match-Lower :
      (b : Bundle) (header : Bytes)
      → to_lower (match_accept_language weights b header) ≡ match_accept_language weights b header
  unfolding match_accept_language
  match-Lower b header = elim (Bool-cases (is_empty header)) [
    | inl bare ↦ rw bare refl
    | inr some_header ↦
        let all = prefs weights (split 44 header) in
        rw some_header (
          first_supported-Lower b (sort_prefs weights all)
            (sort_prefs-All weights (λ p. Lower p.tag) all (prefs-Lower (split 44 header))))
  ]
