-- ===== src/Scaffold/AddModule/Tracks.antt =====
-- cmd/fibr/addmodule.go: the files that are written so far.
use fibr.Prelude.{
  ◌≡◌, refl, subst, ◌∙◌, ◌⊎◌, true, false, ◌||◌, none, List, [], ◌∷◌, ◌++◌, ◌==◌, inl, inr,
  Bool-cases, Option-cases, some, arith, All, contains,
}
use fibr.Prelude.Bytes.{Bytes, bytes_cmp}
use fibr.Scaffold.Files.{FileSystem, IsLawful}
use fibr.Scaffold.Plan.{FileSpec}
use fibr.Scaffold.AddModule.{first_existing, undo}

module _ (F : FileSystem) (L : IsLawful F) where
  abbrev pub places : List Bytes → List Bytes
  places [] = []
  places (p ∷ ps) = F.place p ∷ places ps

  -- In some state the file was there and could not be removed.
  abbrev pub Stuck : Bytes → Type 0
  Stuck q =
      (s : F.State) × (p text : Bytes) × (F.place p ≡ q)
      × (F.look s (F.place p) ≡ some text)
      × ((F.remove s p).1 ≡ false)

  pub look-undo_other :
      (written : List Bytes) (s : F.State) (q : Bytes)
      → contains (places written) q ≡ false
      → F.look (undo F written s) q ≡ F.look s q
  unfolding undo
  look-undo_other [] s q other = refl
  look-undo_other (p ∷ written) s q other =
      look-undo_other written (F.remove s p).0 q (ground arith) ∙ L.look_apart s p q (ground arith)

  look_removed_or_Stuck :
      (s : F.State) (p q : Bytes) → F.place p ≡ q → (F.look (F.remove s p).0 q ≡ none) ⊎ Stuck q
  look_removed_or_Stuck s p q same = elim (Bool-cases (F.remove s p).1) [
    | inl fine ↦ inl (subst (λ x. F.look (F.remove s p).0 x ≡ none) same (L.look_removed s p fine))
    | inr failed ↦ elim (Option-cases (F.look s (F.place p))) [
      | inr (text, there) ↦ inr (s, p, text, same, there, failed)
      | inl absent ↦
          inl (L.look_not_removed s p q failed ∙ subst (λ x. F.look s x ≡ none) same absent)
    ]
  ]

  pub look-undo_own :
      (written : List Bytes) (s : F.State) (q : Bytes)
      → contains (places written) q ≡ true
      → (F.look (undo F written s) q ≡ none) ⊎ Stuck q
  unfolding undo
  look-undo_own [] s q own = absurd (ground arith)
  look-undo_own (p ∷ written) s q own = elim (Bool-cases (contains (places written) q)) [
    | inl again ↦ look-undo_own written (F.remove s p).0 q again
    | inr last ↦
        elim (look_removed_or_Stuck s p q
          ((bytes_cmp.eqb_iff (F.place p) q).0 (ground (arith, last)))) [
            | inl gone ↦ inl (look-undo_other written (F.remove s p).0 q last ∙ gone)
            | inr stuck ↦ inr stuck
          ]
  ]

  -- The files that are written now were not there at the start, and no other file has changed.
  pub record Tracks (start : F.State) (written : List Bytes) (s : F.State) : Type 0 where
    pub fresh : (q : Bytes) → contains (places written) q ≡ true → F.look start q ≡ none
    pub same : (q : Bytes) → contains (places written) q ≡ false → F.look s q ≡ F.look start q

  pub contains-places :
      (written : List Bytes) (p q : Bytes)
      → contains (places (written ++ p ∷ [])) q ≡ (contains (places written) q || F.place p == q)
  contains-places [] p q = ground arith
  contains-places (w ∷ written) p q = ground (arith, contains-places written p q)

  -- No file of the plan is there.
  abbrev pub Absent : Bytes → F.State → List FileSpec → Type 0
  Absent dir s fs = All (λ f. F.look s (F.place (F.join dir f.dest)) ≡ none) fs

  pub first_existing-Absent :
      (dir : Bytes) (fs : List FileSpec) (s : F.State)
      → first_existing F dir fs s ≡ none
      → Absent dir s fs
  unfolding first_existing
  first_existing-Absent dir [] s h = tt
  first_existing-Absent dir (f ∷ fs) s h = elim (Bool-cases (F.stat s (F.join dir f.dest))) [
    | inl seen ↦ absurd (ground arith)
    | inr free ↦
        (L.look_unseen s (F.join dir f.dest) free, first_existing-Absent dir fs s (ground arith))
  ]
