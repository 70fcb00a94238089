-- ===== src/I18n/Chain.antt =====
-- i18n/bundle.go: messages, with their fallbacks.
use fibr.Prelude.{
  zero, ◌≡◌, refl, ap, none, some, [], ◌∷◌, ◌++◌, inl, inr, ◌⊎◌, eqb_refl, Bool-cases, Option-cases,
  ◌==◌, nat_cmp, arith,
}
use fibr.Prelude.Int.{ℤ}
use fibr.Prelude.Bytes.{Bytes, codes, bytes_cmp, Lacks, replace_from}
use fibr.I18n.{Bundle, Args, find, substitute, translate, plural, with_count}
use fibr.I18n.Category.{Category, plural_category, text_of}

replace_from-Lacks : (ps new s : Bytes) → Lacks 123 s → replace_from zero (123 ∷ ps) new s ≡ s
replace_from-Lacks ps new [] h = refl
replace_from-Lacks ps new (c ∷ s) h = ground (arith, h.0, replace_from-Lacks ps new s h.1)

-- A message without a brace has no placeholders: the arguments change nothing.
substitute-Lacks : (s : Bytes) (args : Args) → Lacks 123 s → substitute s args ≡ s
unfolding substitute
substitute-Lacks s [] h = refl
substitute-Lacks s ((k, v) ∷ args) h =
    rw (replace_from-Lacks (k ++ 125 ∷ []) v s h) (substitute-Lacks s args h)

-- A key that the locale has with the form "other" is never missing in the plural: for every count
-- the reply is a message of that locale, the one of the count's category or that of "other".
plural_found :
    (b : Bundle) (locale key : Bytes) (n : ℤ) (args : Args) (s : Bytes)
    → find b locale (key ++ codes ".other") ≡ some s
    → (c : Category) × (m : Bytes) × (find b locale (key ++ 46 ∷ text_of c) ≡ some m)
      × ((c ≡ plural_category locale n) ⊎ (c ≡ Category.other))
      × (plural b locale key n args ≡ substitute m (with_count n args))
unfolding plural translate
plural_found b locale key n args s h =
    elim (Option-cases (find b locale (key ++ 46 ∷ text_of (plural_category locale n)))) [
      | inr (m, here) ↦ (plural_category locale n, m, here, inl refl, rw here refl)
      | inl gone ↦ (Category.other, s, h, inr refl, rw gone (rw h refl))
    ]

-- A key that a locale lacks is translated as in the fallback locale.
translate_missing :
    (b : Bundle) (locale key : Bytes) (args : Args)
    → find b locale key ≡ none
    → translate b locale key args ≡ translate b b.fallback key args
unfolding translate
translate_missing b locale key args gone = elim (Bool-cases (locale == b.fallback)) [
  | inl same ↦ ap (λ l. translate b l key args) ((bytes_cmp.eqb_iff locale b.fallback).0 same)
  | inr other ↦
      rw (gone, other, eqb_refl b.fallback)
        (elim (Option-cases (find b b.fallback key)) [
          | inl lost ↦ rw lost refl
          | inr (m, there) ↦ rw there refl
        ])
]
