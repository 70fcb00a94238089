-- ===== src/Pages/Rows.antt =====
-- Lists of rows: what a filter leaves, and where a page splits them.
use fibr.Prelude.{
  ℕ, zero, suc, ◌≤◌, ◌<◌, ◌≡◌, refl, ap, Bool, true, if◌then◌else◌, List, [], ◌∷◌, ◌++◌, some,
  length, take, get_last?, All, arith,
}

module _ {A : Type 0} where
  abbrev pub filter : (A → Bool) → List A → List A
  filter p [] = []
  filter p (x ∷ xs) = if p x then x ∷ filter p xs else filter p xs

  pub append_assoc : (xs ys zs : List A) → (xs ++ ys) ++ zs ≡ xs ++ (ys ++ zs)
  append_assoc [] ys zs = refl
  append_assoc (x ∷ xs) ys zs = ap (λ l. x ∷ l) (append_assoc xs ys zs)

  pub append-nil : (xs : List A) → xs ++ [] ≡ xs
  append-nil [] = refl
  append-nil (x ∷ xs) = ap (λ l. x ∷ l) (append-nil xs)

  -- A list that is longer than the page splits at the last row of the page.
  pub split_at :
      (n : ℕ) (xs : List A)
      → suc n < length xs
      → (p : List A) × (l : A) × (q : List A) × (take (suc n) xs ≡ p ++ l ∷ [])
        × (xs ≡ p ++ l ∷ q)
        × (length q < length xs)
  split_at n [] h = absurd (omega arith)
  split_at zero (x ∷ xs) h = ([], x, xs, refl, refl, omega arith)
  split_at (suc n) (x ∷ xs) h =
      let (p, l, q, t, e, s) = split_at n xs (omega arith) in
      (x ∷ p, l, q, ap (λ r. x ∷ r) t, ap (λ r. x ∷ r) e, omega arith)

  pub get_last?-append : (x : A) (xs : List A) (l : A) → get_last? (x ∷ (xs ++ l ∷ [])) ≡ some l
  get_last?-append x [] l = refl
  get_last?-append x (y ∷ xs) l = get_last?-append y xs l

  pub take-take : (n : ℕ) (xs : List A) → take n (take (suc n) xs) ≡ take n xs
  take-take zero xs = refl
  take-take (suc n) [] = refl
  take-take (suc n) (x ∷ xs) = ap (λ l. x ∷ l) (take-take n xs)

  pub take-length : (n : ℕ) (xs : List A) → length xs ≤ n → take n xs ≡ xs
  take-length zero [] h = refl
  take-length zero (x ∷ xs) h = absurd (omega arith)
  take-length (suc n) [] h = refl
  take-length (suc n) (x ∷ xs) h = ap (λ l. x ∷ l) (take-length n xs (omega arith))

  pub All-append_at :
      (P : A → Type 0) (xs : List A) (x : A) (ys : List A) → All P (xs ++ x ∷ ys) → P x
  All-append_at P [] x ys h = h.0
  All-append_at P (y ∷ xs) x ys h = All-append_at P xs x ys h.1

  pub filter-All : (p : A → Bool) (xs : List A) → All (λ x. p x ≡ true) xs → filter p xs ≡ xs
  filter-All p [] h = refl
  filter-All p (x ∷ xs) h = rw h.0 (ap (λ l. x ∷ l) (filter-All p xs h.1))
