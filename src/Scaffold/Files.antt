-- ===== src/Scaffold/Files.antt =====
-- What cmd/fibr/generate.go and cmd/fibr/addmodule.go use of the operating system (package `os`), of the
-- templates that are embedded, and of the packages `text/template`, `go/format` and `path/filepath`.
use fibr.Prelude.{
  [], ◌∷◌, not, ◌||◌, ◌&&◌, ℕ, ◌≡◌, Bool, true, false, Option, none, some, List, ◌==◌,
}
use fibr.Prelude.Bytes.{codes, split, Bytes, bytes_cmp}

-- What `os.ReadDir` finds.
pub data Listing : Type 0 where
  absent unreadable : Listing
  entries : List Bytes → Listing

pub record FileSystem : Type 1 where
  pub State : Type 0
  -- `filepath.Join` and `filepath.Dir`
  pub join : Bytes → Bytes → Bytes
  pub parent : Bytes → Bytes
  -- the file that a path names, and the text of a file, if it is there and can be read
  pub place : Bytes → Bytes
  pub look : State → Bytes → Option Bytes
  -- `os.Stat` with no error, and the same for a directory
  pub stat : State → Bytes → Bool
  pub is_dir : State → Bytes → Bool
  pub read_dir : State → Bytes → Listing
  -- The operations below tell whether they ended without an error.
  pub mkdir_all : State → Bytes → State × Bool
  pub write_file : State → Bytes → Bytes → State × Bool
  pub remove : State → Bytes → State × Bool
  pub remove_all : State → Bytes → State × Bool
  -- `exec.Command(...).Run()` in a directory
  pub run : State → Bytes → List Bytes → State × Bool

abbrev is_segment : Bytes → Bool
is_segment s = not (s == [] || s == codes "." || s == codes "..")

abbrev all_segments : List Bytes → Bool
all_segments [] = true
all_segments (s ∷ ss) = is_segment s && all_segments ss

-- A relative path as `filepath.Clean` leaves it, that does not lead out of its directory.
unfoldable pub is_clean : Bytes → Bool
unfolding split
is_clean d = all_segments (split 47 d)

-- A file system that tells upper from lower case, where no symbolic link stands at a path that is
-- written or removed. Several paths may name one file.
pub record IsLawful (F : FileSystem) : Type 0 where
  -- Two clean names in one directory are two files.
  pub place_join :
      (root d e : Bytes)
      → is_clean d ≡ true
      → is_clean e ≡ true
      → F.place (F.join root d) ≡ F.place (F.join root e)
      → d ≡ e
  -- A file that is there is found by `os.Stat`.
  pub look_unseen : (s : F.State) (p : Bytes) → F.stat s p ≡ false → F.look s (F.place p) ≡ none
  -- `os.MkdirAll` changes no file.
  pub look-mkdir_all : (s : F.State) (d q : Bytes) → F.look (F.mkdir_all s d).0 q ≡ F.look s q
  -- A write without an error leaves the text, and a write to one file changes no other file.
  pub look_written :
      (s : F.State) (p text : Bytes)
      → (F.write_file s p text).1 ≡ true
      → F.look (F.write_file s p text).0 (F.place p) ≡ some text
  pub look_other :
      (s : F.State) (p text q : Bytes)
      → (F.place p == q) ≡ false
      → F.look (F.write_file s p text).0 q ≡ F.look s q
  -- `os.Remove` removes the file if it ends without an error, changes nothing if it fails, and
  -- changes no other file.
  pub look_removed :
      (s : F.State) (p : Bytes)
      → (F.remove s p).1 ≡ true
      → F.look (F.remove s p).0 (F.place p) ≡ none
  pub look_not_removed :
      (s : F.State) (p q : Bytes)
      → (F.remove s p).1 ≡ false
      → F.look (F.remove s p).0 q ≡ F.look s q
  pub look_apart :
      (s : F.State) (p q : Bytes)
      → (F.place p == q) ≡ false
      → F.look (F.remove s p).0 q ≡ F.look s q
  -- `os.RemoveAll` of a directory that ends without an error leaves no file in it.
  pub look-remove_all :
      (s : F.State) (root d : Bytes)
      → is_clean d ≡ true
      → (F.remove_all s root).1 ≡ true
      → F.look (F.remove_all s root).0 (F.place (F.join root d)) ≡ none

-- `template.Parse`, `Template.Execute` with the render context, `format.Source`, the lines of
-- `bufio.Scanner`, and the texts that `templatesFS` holds.
pub record Toolchain (Context : Type 0) : Type 1 where
  pub Template : Type 0
  pub embedded : Bytes → Option Bytes
  pub parse : Bytes → Bytes → Option Template
  pub execute : Template → Context → Option Bytes
  pub format : Bytes → Option Bytes
  pub lines : Bytes → List Bytes
  -- `Time.Format("20060102150405")` of a number of seconds
  pub stamp : ℕ → Bytes
