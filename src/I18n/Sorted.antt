-- ===== src/I18n/Sorted.antt =====
-- i18n/middleware.go: the sort by weights.
use fibr.Prelude.{◌≡◌, refl, subst, true, false, List, [], ◌∷◌, All, inl, inr, Bool-cases}
use fibr.I18n.Locale.{Weights, Pref, insert_pref, sort_prefs}

-- The order of weights, of which none is NaN.
pub record Ordered {Q : Type 0} (weights : Weights Q) : Type 0 where
  pub gt_asym : (a b : Q) → weights.gt a b ≡ true → weights.gt b a ≡ false
  pub gt_trans :
      (a b c : Q) → weights.gt a b ≡ false → weights.gt b c ≡ false → weights.gt a c ≡ false

module _ {Q : Type 0} (weights : Weights Q) where
  insert_pref-All :
      (P : Pref Q → Type 0) (p : Pref Q) (xs : List (Pref Q))
      → P p
      → All P xs
      → All P (insert_pref weights p xs)
  unfolding insert_pref
  insert_pref-All P p [] h hs = (h, tt)
  insert_pref-All P p (x ∷ xs) h hs = elim (Bool-cases (weights.gt x.q p.q)) [
    | inl above ↦ rw above (hs.0, insert_pref-All P p xs h hs.1)
    | inr below ↦ rw below (h, hs)
  ]

  All-insert_pref :
      (P : Pref Q → Type 0) (p : Pref Q) (xs : List (Pref Q))
      → All P (insert_pref weights p xs)
      → P p × All P xs
  unfolding insert_pref
  All-insert_pref P p [] h = h
  All-insert_pref P p (x ∷ xs) h = elim (Bool-cases (weights.gt x.q p.q)) [
    | inl above ↦
        let moved : insert_pref weights p (x ∷ xs) ≡ x ∷ insert_pref weights p xs = rw above refl in
        let (first, rest) = subst (All P) moved h in
        let (new, old) = All-insert_pref P p xs rest in (new, (first, old))
    | inr below ↦
        let moved : insert_pref weights p (x ∷ xs) ≡ p ∷ x ∷ xs = rw below refl in
        subst (All P) moved h
  ]

  pub All-sort_prefs :
      (P : Pref Q → Type 0) (ps : List (Pref Q)) → All P (sort_prefs weights ps) → All P ps
  unfolding sort_prefs
  All-sort_prefs P [] h = h
  All-sort_prefs P (p ∷ ps) h =
      let (first, rest) = All-insert_pref P p (sort_prefs weights ps) h in
      (first, All-sort_prefs P ps rest)

  pub sort_prefs-All :
      (P : Pref Q → Type 0) (ps : List (Pref Q)) → All P ps → All P (sort_prefs weights ps)
  unfolding sort_prefs
  sort_prefs-All P [] h = h
  sort_prefs-All P (p ∷ ps) h =
      insert_pref-All P p (sort_prefs weights ps) h.0 (sort_prefs-All P ps h.1)

  -- No later weight is above an earlier one.
  abbrev pub Descending : List (Pref Q) → Type 0
  Descending [] = Unit
  Descending (p ∷ ps) = All (λ x. weights.gt x.q p.q ≡ false) ps × Descending ps

module _ {Q : Type 0} (weights : Weights Q) (order : Ordered weights) where
  All-below :
      (a b : Pref Q) (xs : List (Pref Q))
      → weights.gt a.q b.q ≡ false
      → All (λ x. weights.gt x.q a.q ≡ false) xs
      → All (λ x. weights.gt x.q b.q ≡ false) xs
  All-below a b [] h hs = tt
  All-below a b (x ∷ xs) h hs = (order.gt_trans x.q a.q b.q hs.0 h, All-below a b xs h hs.1)

  insert_pref-Descending :
      (p : Pref Q) (xs : List (Pref Q))
      → Descending weights xs
      → Descending weights (insert_pref weights p xs)
  unfolding insert_pref
  insert_pref-Descending p [] h = (tt, tt)
  insert_pref-Descending p (x ∷ xs) h = elim (Bool-cases (weights.gt x.q p.q)) [
    | inl above ↦ rw above (
      insert_pref-All weights (λ y. weights.gt y.q x.q ≡ false) p xs (order.gt_asym x.q p.q above)
          h.0,
      insert_pref-Descending p xs h.1,
    )
    | inr below ↦ rw below ((below, All-below x p xs below h.0), h)
  ]

  pub sort_prefs-Descending : (ps : List (Pref Q)) → Descending weights (sort_prefs weights ps)
  unfolding sort_prefs
  sort_prefs-Descending [] = tt
  sort_prefs-Descending (p ∷ ps) =
      insert_pref-Descending p (sort_prefs weights ps) (sort_prefs-Descending ps)
