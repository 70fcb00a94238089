-- ===== src/Config/Report.antt =====
-- config/config.go: what a call that succeeds has done, and what one that fails reports.
use fibr.Prelude.{
  Bool-cases, Option-cases, inl, inr, ◌⊎◌, true, false, not, ◌||◌, ◌==◌, ◌≡◌, refl, sym, ap, subst,
  ◌∙◌, none, some, List, [], ◌∷◌, arith,
}
use fibr.Prelude.Bytes.{Bytes, bytes_cmp, codes}
use fibr.Config.{
  is_empty, to_upper, Value, set_field, raw_of, Parsers, Field, Problems, Verdict, skipped,
  is_missing, unparsed, sets, verdict, take_verdict, load_fields, load_config, struct, report_of,
}

report_of-none : (ms us : List Bytes) → report_of ms us ≡ none → (ms ≡ []) × (us ≡ [])
report_of-none [] [] h = (refl, refl)
report_of-none [] (u ∷ us) h = absurd (ground arith)
report_of-none (m ∷ ms) us h = absurd (ground arith)

module _ {D F : Type 0} (parsers : Parsers D F) (getenv : Bytes → Bytes) where
  -- A field before and after a call that found no problem.
  abbrev pub Settled : Verdict D F → Field D F → Field D F → Type 0
  Settled skipped f g = g ≡ f
  Settled (is_missing key) f g = ⊥
  Settled (unparsed key) f g = ⊥
  Settled (sets v) f g = g ≡ record f { value = some v }

  abbrev pub AllSettled : List (Field D F) → List (Field D F) → Type 0
  AllSettled [] [] = Unit
  AllSettled (f ∷ fs) (g ∷ gs) = Settled (verdict parsers getenv f) f g × AllSettled fs gs
  AllSettled fs gs = ⊥

  -- The keys that the loop has to report, by themselves.
  abbrev pub missing_of : Verdict D F → List Bytes → List Bytes
  missing_of (is_missing key) keys = key ∷ keys
  missing_of v keys = keys

  abbrev pub unparsed_of : Verdict D F → List Bytes → List Bytes
  unparsed_of (unparsed key) keys = key ∷ keys
  unparsed_of v keys = keys

  abbrev pub missing_keys : List (Field D F) → List Bytes
  missing_keys [] = []
  missing_keys (f ∷ fs) = missing_of (verdict parsers getenv f) (missing_keys fs)

  abbrev pub unparsed_keys : List (Field D F) → List Bytes
  unparsed_keys [] = []
  unparsed_keys (f ∷ fs) = unparsed_of (verdict parsers getenv f) (unparsed_keys fs)

  take_verdict-keys :
      (v : Verdict D F) (f : Field D F) (r : List (Field D F) × Problems)
      → ((take_verdict parsers getenv v f r).1.missing ≡ missing_of v r.1.missing)
        × ((take_verdict parsers getenv v f r).1.parse_errs ≡ unparsed_of v r.1.parse_errs)
  take_verdict-keys skipped f r = (refl, refl)
  take_verdict-keys (is_missing key) f r = (refl, refl)
  take_verdict-keys (unparsed key) f r = (refl, refl)
  take_verdict-keys (sets v) f r = (refl, refl)

  load_fields-keys :
      (fs : List (Field D F))
      → ((load_fields parsers getenv fs).1.missing ≡ missing_keys fs)
        × ((load_fields parsers getenv fs).1.parse_errs ≡ unparsed_keys fs)
  unfolding load_fields
  load_fields-keys [] = (refl, refl)
  load_fields-keys (f ∷ fs) =
      let v = verdict parsers getenv f in
      let (m, u) = take_verdict-keys v f (load_fields parsers getenv fs) in
      let (ms, us) = load_fields-keys fs in (m ∙ ap (missing_of v) ms, u ∙ ap (unparsed_of v) us)

  -- `LoadConfig` does not stop at the first problem: its error lists every required key without a
  -- value and every key whose value does not parse, and there is none exactly if both lists are empty.
  load_config-keys :
      (fs : List (Field D F))
      → (load_config parsers getenv (struct fs)).1 ≡ report_of (missing_keys fs) (unparsed_keys fs)
  unfolding load_config
  load_config-keys fs = let (ms, us) = load_fields-keys fs in rw (ms, us) refl

  abbrev HeadSettled : Verdict D F → Field D F → List (Field D F) → List (Field D F) → Type 0
  HeadSettled v f fs [] = ⊥
  HeadSettled v f fs (g ∷ gs) = Settled v f g × AllSettled fs gs

  HeadSettled-AllSettled :
      (f : Field D F) (fs gs : List (Field D F))
      → HeadSettled (verdict parsers getenv f) f fs gs
      → AllSettled (f ∷ fs) gs
  HeadSettled-AllSettled f fs [] h = h
  HeadSettled-AllSettled f fs (g ∷ gs) h = h

  take_verdict-HeadSettled :
      (v : Verdict D F) (f : Field D F) (fs : List (Field D F)) (r : List (Field D F) × Problems)
      (ms us : List Bytes)
      → missing_of v ms ≡ []
      → unparsed_of v us ≡ []
      → AllSettled fs r.0
      → HeadSettled v f fs (take_verdict parsers getenv v f r).0
  take_verdict-HeadSettled skipped f fs r ms us m u h = (refl, h)
  take_verdict-HeadSettled (is_missing key) f fs r ms us m u h = absurd (ground arith)
  take_verdict-HeadSettled (unparsed key) f fs r ms us m u h = absurd (ground arith)
  take_verdict-HeadSettled (sets v) f fs r ms us m u h = (refl, h)

  rest_of :
      (v : Verdict D F) (ms us : List Bytes)
      → missing_of v ms ≡ []
      → unparsed_of v us ≡ []
      → (ms ≡ []) × (us ≡ [])
  rest_of skipped ms us m u = (m, u)
  rest_of (is_missing key) ms us m u = absurd (ground arith)
  rest_of (unparsed key) ms us m u = absurd (ground arith)
  rest_of (sets v) ms us m u = (m, u)

  load_fields-AllSettled :
      (fs : List (Field D F))
      → missing_keys fs ≡ []
      → unparsed_keys fs ≡ []
      → AllSettled fs (load_fields parsers getenv fs).0
  unfolding load_fields
  load_fields-AllSettled [] m u = tt
  load_fields-AllSettled (f ∷ fs) m u =
      let v = verdict parsers getenv f in
      let (ms, us) = rest_of v (missing_keys fs) (unparsed_keys fs) m u in
      let rest = load_fields parsers getenv fs in
      HeadSettled-AllSettled f fs (take_verdict parsers getenv v f rest).0 (
        take_verdict-HeadSettled v f fs rest (missing_keys fs) (unparsed_keys fs) m u
          (load_fields-AllSettled fs ms us))

  -- A field before and after: it is not read, or it has no value and need not have one, or it is
  -- set to what its value parses to.
  abbrev pub Loaded : Field D F → Field D F → Type 0
  Loaded f g =
      (((is_empty f.tag || not f.can_set) ≡ true) × (g ≡ f))
      ⊎ ((is_empty (raw_of parsers getenv f) ≡ true)
          × ((f.required == codes "true") ≡ false)
          × (g ≡ f))
      ⊎ ((v : Value D F) × (set_field parsers f.kind (raw_of parsers getenv f) ≡ some v)
          × (g ≡ record f { value = some v }))

  abbrev pub AllLoaded : List (Field D F) → List (Field D F) → Type 0
  AllLoaded [] [] = Unit
  AllLoaded (f ∷ fs) (g ∷ gs) = Loaded f g × AllLoaded fs gs
  AllLoaded fs gs = ⊥

  Settled-Loaded : (f g : Field D F) → Settled (verdict parsers getenv f) f g → Loaded f g
  unfolding verdict
  Settled-Loaded f g h =
      let settled : (v : Verdict D F)
          → verdict parsers getenv f ≡ v
          → Settled (verdict parsers getenv f) f g
          → Settled v f g =
        λ v q t. subst (λ u. Settled u f g) q t in
      elim (Bool-cases (is_empty f.tag || not f.can_set)) [
        | inl unread ↦ inl (unread, (settled skipped (ground (arith, unread)) h))
        | inr read ↦ elim (Bool-cases (is_empty (raw_of parsers getenv f))) [
          | inl bare ↦ elim (Bool-cases (f.required == codes "true")) [
            | inl needed ↦
                absurd
                  (settled (is_missing (to_upper f.tag)) (ground (arith, read, bare, needed)) h)
            | inr spare ↦
                inr (inl (bare, spare, (settled skipped (ground (arith, read, bare, spare)) h)))
          ]
          | inr full ↦ elim (Option-cases (set_field parsers f.kind (raw_of parsers getenv f))) [
            | inl bad ↦
                absurd (settled (unparsed (to_upper f.tag)) (ground (arith, read, full, bad)) h)
            | inr (v, good) ↦
                inr (inr (v, good, (settled (sets v) (ground (arith, read, full, good)) h)))
          ]
        ]
      ]

  AllSettled-AllLoaded : (fs gs : List (Field D F)) → AllSettled fs gs → AllLoaded fs gs
  AllSettled-AllLoaded [] [] h = tt
  AllSettled-AllLoaded [] (g ∷ gs) h = h
  AllSettled-AllLoaded (f ∷ fs) [] h = h
  AllSettled-AllLoaded (f ∷ fs) (g ∷ gs) h =
      (Settled-Loaded f g h.0, AllSettled-AllLoaded fs gs h.1)

  -- After a call without an error the struct has its fields, each of which is as before, where it is
  -- not read or has no value and need not have one, or else set to what its value parses to.
  pub load_config-AllLoaded :
      (fs gs : List (Field D F))
      → load_config parsers getenv (struct fs) ≡ (gs, none)
      → AllLoaded fs gs
  unfolding load_config
  load_config-AllLoaded fs gs h =
      let keys = load_config-keys fs in
      let (ms, us) =
        report_of-none (missing_keys fs) (unparsed_keys fs) (sym keys ∙ ap (λ r. r.1) h) in
      let settled = load_fields-AllSettled fs ms us in
      AllSettled-AllLoaded fs gs (subst (AllSettled fs) (ap (λ r. r.0) h) settled)
