-- ===== src/I18n/Accept.antt =====
-- i18n/middleware.go: which locale a request gets.
use fibr.Prelude.{
  ◌≡◌, refl, ap, ◌∙◌, true, false, Option, none, some, List, [], ◌∷◌, All, In, inl, inr, ◌⊎◌,
  Bool-cases, Option-cases, if◌then◌else◌, arith,
}
use fibr.Prelude.Bytes.{Bytes, split, cut}
use fibr.I18n.{Bundle, has, is_empty}
use fibr.I18n.Locale.{
  Weights, Pref, prefs, sort_prefs, supported, base_in, first_supported, match_accept_language,
  resolve, given, chosen, Request, MwConfig,
}
use fibr.I18n.Sorted.{Ordered, Descending, All-sort_prefs, sort_prefs-All, sort_prefs-Descending}

base_in-has :
    (b : Bundle) (o : Option (Bytes × Bytes)) (l : Bytes) → base_in b o ≡ some l → has b l ≡ true
base_in-has b none l h = absurd (ground arith)
base_in-has b (some (base, rest)) l h = elim (Bool-cases (has b base)) [
  | inl there ↦ ground (arith, there)
  | inr gone ↦ absurd (ground (arith, gone))
]

supported-has : (b : Bundle) (tag l : Bytes) → supported b tag ≡ some l → has b l ≡ true
unfolding supported
supported-has b tag l h = elim (Bool-cases (has b tag)) [
  | inl there ↦ ground (arith, there)
  | inr gone ↦ base_in-has b (cut 45 tag) l (ground (arith, gone))
]

given-has : (b : Bundle) (v : Bytes) → given b v ≡ true → has b v ≡ true
given-has b v h = ground (arith, h)

matched-has :
    (b : Bundle) (matched : Bytes)
    → (matched ≡ []) ⊎ (has b matched ≡ true)
    → (has b (if is_empty matched then b.fallback else matched) ≡ true)
      ⊎ ((if is_empty matched then b.fallback else matched) ≡ b.fallback)
matched-has b [] h = inr refl
matched-has b (c ∷ s) (inl gone) = absurd (ground arith)
matched-has b (c ∷ s) (inr there) = inl there

chosen-has :
    (b : Bundle) (in_query in_cookie matched : Bytes)
    → (matched ≡ []) ⊎ (has b matched ≡ true)
    → (has b (chosen b in_query in_cookie matched) ≡ true)
      ⊎ (chosen b in_query in_cookie matched ≡ b.fallback)
chosen-has b in_query in_cookie matched h = elim (Bool-cases (given b in_query)) [
  | inl asked ↦ rw asked (inl (given-has b in_query asked))
  | inr unasked ↦ rw unasked (elim (Bool-cases (given b in_cookie)) [
    | inl kept ↦ rw kept (inl (given-has b in_cookie kept))
    | inr unkept ↦ rw unkept (matched-has b matched h)
  ])
]

module _ {Q : Type 0} (weights : Weights Q) where
  first_supported-has :
      (b : Bundle) (ps : List (Pref Q))
      → (first_supported weights b ps ≡ []) ⊎ (has b (first_supported weights b ps) ≡ true)
  unfolding first_supported
  first_supported-has b [] = inl refl
  first_supported-has b (p ∷ ps) = elim (Option-cases (supported b p.tag)) [
    | inl none_here ↦ rw none_here (first_supported-has b ps)
    | inr (l, here) ↦ rw here (inr (supported-has b p.tag l here))
  ]

  match-has :
      (b : Bundle) (header : Bytes)
      → (match_accept_language weights b header ≡ [])
        ⊎ (has b (match_accept_language weights b header) ≡ true)
  unfolding match_accept_language
  match-has b header = elim (Bool-cases (is_empty header)) [
    | inl bare ↦ rw bare (inl refl)
    | inr some_header ↦
        rw some_header
          (first_supported-has b (sort_prefs weights (prefs weights (split 44 header))))
  ]

  -- The locale of a request is one that the bundle has messages for, or the fallback.
  resolve-has :
      (b : Bundle) (c : Request) (cfg : MwConfig)
      → (has b (resolve weights b c cfg) ≡ true) ⊎ (resolve weights b c cfg ≡ b.fallback)
  unfolding resolve
  resolve-has b c cfg =
      chosen-has b (c.query cfg.query_key) (c.cookies cfg.cookie_key)
        (match_accept_language weights b c.accept_language) (match-has b c.accept_language)

module _ {Q : Type 0} (weights : Weights Q) (order : Ordered weights) where
  -- The choice among weights in falling order.
  abbrev Best : Bundle → (Pref Q → Type 0) → List (Pref Q) → Bytes → Type 0
  Best b P ps l =
      (p : Pref Q) × P p
      × (supported b p.tag ≡ some l)
      × All (λ x. (supported b x.tag ≡ none) ⊎ (weights.gt x.q p.q ≡ false)) ps

  gt_irrefl : (q : Q) → weights.gt q q ≡ false
  gt_irrefl q = elim (Bool-cases (weights.gt q q)) [
    | inl above ↦ order.gt_asym q q above
    | inr below ↦ below
  ]

  All-inr :
      (b : Bundle) (q : Q) (ps : List (Pref Q))
      → All (λ x. weights.gt x.q q ≡ false) ps
      → All (λ x. (supported b x.tag ≡ none) ⊎ (weights.gt x.q q ≡ false)) ps
  All-inr b q [] h = tt
  All-inr b q (p ∷ ps) h = (inr h.0, All-inr b q ps h.1)

  first_supported-Best :
      (b : Bundle) (P : Pref Q → Type 0) (ps : List (Pref Q))
      → Descending weights ps
      → All P ps
      → (first_supported weights b ps ≡ []) ⊎ Best b P ps (first_supported weights b ps)
  unfolding first_supported
  first_supported-Best b P [] down all = inl refl
  first_supported-Best b P (p ∷ ps) down all = elim (Option-cases (supported b p.tag)) [
    | inr (l, here) ↦ rw here (inr (p, all.0, here, (inr (gt_irrefl p.q), All-inr b p.q ps down.0)))
    | inl none_here ↦ rw none_here (elim (first_supported-Best b P ps down.1 all.1) [
      | inl nothing ↦ inl nothing
      | inr (x, good, found, rest) ↦ inr (x, good, found, (inl refl, rest))
    ])
  ]

  All-In : (xs ps : List (Pref Q)) → ((x : Pref Q) → In x xs → In x ps) → All (λ x. In x ps) xs
  All-In [] ps inside = tt
  All-In (x ∷ xs) ps inside = (inside x (inl refl), All-In xs ps (λ y h. inside y (inr h)))

  -- A locale that is taken from Accept-Language is that of a tag of the header or of its base, and no
  -- tag of the header with a locale in the bundle has a higher weight. No weight is NaN.
  pub match-Best :
      (b : Bundle) (header l : Bytes)
      → match_accept_language weights b header ≡ l
      → is_empty l ≡ false
      → (p : Pref Q) × In p (prefs weights (split 44 header))
        × (supported b p.tag ≡ some l)
        × All
            (λ x. (supported b x.tag ≡ none) ⊎ (weights.gt x.q p.q ≡ false))
            (prefs weights (split 44 header))
  unfolding match_accept_language
  match-Best b header l h full =
      let all = prefs weights (split 44 header) in
      let sorted = sort_prefs weights all in
      let taken : first_supported weights b sorted ≡ l = elim (Bool-cases (is_empty header)) [
        | inl bare ↦ absurd (ground (arith, bare))
        | inr some_header ↦ ground (arith, some_header)
      ] in
      let inside = sort_prefs-All weights (λ x. In x all) all (All-In all all (λ x there. there)) in
      elim (first_supported-Best b (λ x. In x all) sorted (sort_prefs-Descending weights order all)
        inside) [
          | inl nothing ↦ absurd (ground (arith, taken, nothing))
          | inr (p, there, found, best) ↦
              (p, there, found ∙ ap some taken, All-sort_prefs weights _ all best)
        ]
