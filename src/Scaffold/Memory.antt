-- ===== src/Scaffold/Memory.antt =====
-- A file system in memory for the runs of cmd/fibr: a map of paths to texts, in which as many writes
-- succeed as there is room for.
use fibr.Prelude.{
  ℕ, zero, suc, ◌≡◌, refl, Bool, true, false, Option, none, some, List, [], ◌∷◌, ◌++◌,
  if◌then◌else◌, ◌==◌, arith, nat_cmp,
}
use fibr.Prelude.Bytes.{Bytes, bytes_cmp, starts_with}
use fibr.Prelude.Assoc.{lookup, insert, delete, lookup-insert, lookup-delete, keys}
use fibr.Scaffold.Files.{FileSystem, IsLawful, Listing, absent, entries}

abbrev Files : Type 0
Files = List (Bytes × Bytes)

pub record Disk : Type 0 where
  pub files : Files
  pub room : ℕ

unfoldable pub below : Bytes → Bytes → Bytes
below root d = root ++ 47 ∷ d

abbrev is_some : Option Bytes → Bool
is_some none = false
is_some (some text) = true

unfoldable pub under : Bytes → List Bytes → List Bytes
under root [] = []
under root (p ∷ ps) =
    let rest = under root ps in if starts_with (below root []) p then p ∷ rest else rest

abbrev listing : List Bytes → Listing
listing [] = absent
listing (p ∷ ps) = entries (p ∷ ps)

abbrev is_full : List Bytes → Bool
is_full [] = false
is_full (p ∷ ps) = true

unfoldable pub clear : Bytes → Files → Files
clear root [] = []
clear root ((p, text) ∷ files) =
    let rest = clear root files in if starts_with (below root []) p then rest else (p, text) ∷ rest

abbrev write : ℕ → Files → Bytes → Bytes → Disk × Bool
write zero files p text = (record { files = files; room = 0 }, false)
write (suc room) files p text = (record { files = insert p text files; room = room }, true)

abbrev pub memory : FileSystem
memory = record {
  State = Disk;
  join = below;
  parent = λ p. p;
  place = λ p. p;
  look = λ s p. lookup p s.files;
  stat = λ s p. is_some (lookup p s.files);
  is_dir = λ s p. is_full (under p (keys s.files));
  read_dir = λ s p. listing (under p (keys s.files));
  mkdir_all = λ s d. (s, true);
  write_file = λ s p text. write s.room s.files p text;
  remove = λ s p. (record s { files = delete p s.files }, true);
  remove_all = λ s root. (record s { files = clear root s.files }, true);
  run = λ s root args. (s, true);
}

below-eq : (root d e : Bytes) → below root d ≡ below root e → d ≡ e
unfolding below
below-eq [] d e h = cc
below-eq (c ∷ root) d e h = below-eq root d e (cc)

starts_with-below : (root d : Bytes) → starts_with (below root []) (below root d) ≡ true
unfolding below
starts_with-below [] d = refl
starts_with-below (c ∷ root) d = ground (arith, starts_with-below root d, nat_cmp.eqb_iff c c)

lookup-clear : (root d : Bytes) (files : Files) → lookup (below root d) (clear root files) ≡ none
unfolding clear lookup
lookup-clear root d [] = refl
lookup-clear root d ((p, text) ∷ files) =
    ground (
      arith,
      lookup-clear root d files,
      starts_with-below root d,
      bytes_cmp.eqb_iff p (below root d),
    )

is_some-none : (o : Option Bytes) → is_some o ≡ false → o ≡ none
is_some-none none h = refl
is_some-none (some text) h = absurd (ground arith)

write_text :
    (room : ℕ) (files : Files) (p text : Bytes)
    → (write room files p text).1 ≡ true
    → lookup p (write room files p text).0.files ≡ some text
write_text zero files p text h = absurd (ground arith)
write_text (suc room) files p text h =
    ground (arith, lookup-insert p p text files, bytes_cmp.eqb_iff p p)

write_other :
    (room : ℕ) (files : Files) (p text q : Bytes)
    → (p == q) ≡ false
    → lookup q (write room files p text).0.files ≡ lookup q files
write_other zero files p text q h = refl
write_other (suc room) files p text q h = ground (arith, lookup-insert p q text files)

pub memory-IsLawful : IsLawful memory
memory-IsLawful = record {
  place_join = λ root d e clean_d clean_e h. below-eq root d e h;
  look_unseen = λ s p h. is_some-none (lookup p s.files) h;
  look-mkdir_all = λ s d q. refl;
  look_written = λ s p text h. write_text s.room s.files p text h;
  look_other = λ s p text q h. write_other s.room s.files p text q h;
  look_removed = λ s p h. ground (arith, lookup-delete p p s.files, bytes_cmp.eqb_iff p p);
  look_not_removed = λ s p q h. absurd (ground arith);
  look_apart = λ s p q h. ground (arith, lookup-delete p q s.files);
  look-remove_all = λ s root d clean h. lookup-clear root d s.files;
}
