-- ===== src/Uploader/Checked.antt =====
-- uploader: what a file that was accepted satisfies, and what a failure leaves.
use fibr.Prelude.{
  ◌≡◌, refl, ap, ◌∙◌, Bool, true, false, ◌⊎◌, inl, inr, Option, none, nat_cmp, arith, Bool-cases,
}
use fibr.Prelude.Bytes.{Bytes, bytes_cmp}
use fibr.Uploader.{
  Config, Files, Disk, Failure, ok, err, validate, closed, copied, opened, store_in, upload_local,
}

module _ (F : Files) (D : Disk F) (look : D.State → Bytes → Option Bytes) where
  -- What is relied on of the disk: an `os.Remove` without an error removes the file, and `os.MkdirAll`
  -- and an open that fails leave the files as they are.
  pub record Careful : Type 0 where
    pub removed :
        (s : D.State) (p : Bytes) → (D.remove s p).1 ≡ true → look (D.remove s p).0 p ≡ none
    pub made : (s : D.State) (d p : Bytes) → look (D.mkdir_all s d).0 p ≡ look s p
    pub not_opened :
        (s : D.State) (p : Bytes)
        → (D.open_file s p).1 ≡ false
        → look (D.open_file s p).0 p ≡ look s p

  -- There is no file at the path, or its removal, which was the last thing done, failed.
  abbrev pub Gone : Bytes → D.State → Type 0
  Gone p s =
      (look s p ≡ none) ⊎ ((t : D.State) × ((D.remove t p).1 ≡ false) × (s ≡ (D.remove t p).0))

  module _ (careful : Careful) (p : Bytes) where
    remove-Gone : (s : D.State) → Gone p (D.remove s p).0
    remove-Gone s = elim (Bool-cases (D.remove s p).1) [
      | inl fine ↦ inl (careful.removed s p fine)
      | inr failed ↦ inr (s, failed, refl)
    ]

    closed-failed :
        (r : D.State × Bool) (e : Failure) → (closed F D p r).1 ≡ err e → Gone p (closed F D p r).0
    closed-failed (s, true) e h = absurd (ground arith)
    closed-failed (s, false) e h = remove-Gone s

    copied-failed :
        (r : D.State × Bool) (e : Failure) → (copied F D p r).1 ≡ err e → Gone p (copied F D p r).0
    copied-failed (s, true) e h = closed-failed (D.close s p) e h
    copied-failed (s, false) e h = remove-Gone _

    opened-failed :
        (f : F.File) (r : D.State × Bool) (e : Failure)
        → (opened F D p f r).1 ≡ err e
        → Gone p (opened F D p f r).0 ⊎ ((r.1 ≡ false) × ((opened F D p f r).0 ≡ r.0))
    opened-failed f (s, true) e h = inl (copied-failed (D.copy s p f) e h)
    opened-failed f (s, false) e h = inr (refl, refl)

    store_in-failed :
        (f : F.File) (r : D.State × Bool) (e : Failure)
        → (store_in F D p f r).1 ≡ err e
        → Gone p (store_in F D p f r).0 ⊎ (look (store_in F D p f r).0 p ≡ look r.0 p)
    store_in-failed f (s, false) e h = inr refl
    store_in-failed f (s, true) e h = elim (opened-failed f (D.open_file s p) e h) [
      | inl gone ↦ inl gone
      | inr kept ↦ inr (ap (λ s'. look s' p) kept.1 ∙ careful.not_opened s p kept.0)
    ]

-- If an upload to a local directory fails after the file was found to be in order, then there is no
-- file at its path, or the path is as it was before, or the last thing done was to remove the file and
-- that failed too: otherwise no part of a file stays.
pub upload_local-failed :
    (F : Files) (D : Disk F) (look : D.State → Bytes → Option Bytes) (careful : Careful F D look)
    (c : Config) (dir : Bytes) (f f' : F.File) (filename safe mime : Bytes) (s : D.State)
    (e : Failure)
    → validate F c f filename ≡ ok (safe, mime, f')
    → (upload_local F D c dir f filename s).1 ≡ err e
    → Gone F D look (D.join dir safe) (upload_local F D c dir f filename s).0
      ⊎ (look (upload_local F D c dir f filename s).0 (D.join dir safe) ≡ look s (D.join dir safe))
unfolding upload_local
upload_local-failed F D look careful c dir f f' filename safe mime s e valid h =
    rw valid
      (elim (store_in-failed F D look careful (D.join dir safe) f' (D.mkdir_all s dir) e
        (rw valid at h)) [
          | inl gone ↦ inl gone
          | inr kept ↦ inr (kept ∙ careful.made s dir (D.join dir safe))
        ])
