-- ===== src/Config/Slice.antt =====
-- config/config.go: lists of texts.
use fibr.Prelude.{◌≡◌, refl, ap, ◌∙◌, some, List, [], ◌∷◌, ◌++◌, All}
use fibr.Prelude.Bytes.{Bytes, split, Lacks, IsSolid, split-Lacks, split-append, trim_space-IsSolid}
use fibr.Config.{Parsers, set_slice, text_slice, set_field, trimmed}

-- `strings.Join` with a comma.
abbrev pub join : Bytes → List Bytes → Bytes
join p [] = p
join p (q ∷ qs) = p ++ 44 ∷ join q qs

split-join : (p : Bytes) (ps : List Bytes) → All (Lacks 44) (p ∷ ps) → split 44 (join p ps) ≡ p ∷ ps
split-join p [] h = split-Lacks 44 p h.0
split-join p (q ∷ qs) h = split-append 44 p (join q qs) h.0 ∙ ap (λ l. p ∷ l) (split-join q qs h.1)

trimmed-IsSolid : (ps : List Bytes) → All IsSolid ps → trimmed ps ≡ ps
trimmed-IsSolid [] h = refl
trimmed-IsSolid (p ∷ ps) h = rw (trim_space-IsSolid p h.0) (rw (trimmed-IsSolid ps h.1) refl)

-- Texts without commas and spaces that are joined by commas are read back by a field of type []string.
set_field-join :
    {D F : Type 0} (parsers : Parsers D F) (p : Bytes) (ps : List Bytes)
    → All (Lacks 44) (p ∷ ps)
    → All IsSolid (p ∷ ps)
    → set_field parsers text_slice (join p ps) ≡ some (set_slice (p ∷ ps))
unfolding set_field
set_field-join parsers p ps lacks solid =
    ap (λ l. some (set_slice (trimmed l))) (split-join p ps lacks)
    ∙ ap (λ l. some (set_slice l)) (trimmed-IsSolid (p ∷ ps) solid)
