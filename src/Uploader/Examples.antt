-- ===== src/Uploader/Examples.antt =====
-- uploader: runs of the code.
use fibr.Prelude.{
  ◌≡◌, refl, true, false, ◌⊎◌, Option, some, List, [], ◌∷◌, ◌++◌, ◌==◌, take, length, arith,
}
use fibr.Prelude.Bytes.{Bytes, codes, bytes_cmp}
use fibr.Prelude.Assoc.{lookup, insert, delete, lookup-delete_self}
use fibr.Uploader.{
  Config, Files, Disk, copy_failed, validate, sanitize_filename, check_size, check_type,
  mime_allowed, upload_local,
}
use fibr.Uploader.Checked.{Careful, Gone, upload_local-failed}

-- A file is its bytes, and every type is the first of them.
abbrev plain : Files
plain = record {
  File = Bytes;
  seek_end = λ f. (f, some (length f));
  rewind = λ f. (f, true);
  read_head = λ f. (f, take 512 f);
  base_name = λ name. name;
  Mime = Bytes;
  detect = λ head. take 1 head;
  is_mime = λ mt a. mt == a;
  mime_name = λ mt. mt;
}

-- A disk on which no copy succeeds.
abbrev full_disk : Disk plain
full_disk = record {
  State = List (Bytes × Bytes);
  join = λ dir name. dir ++ 47 ∷ name;
  mkdir_all = λ s d. (s, true);
  open_file = λ s p. (insert p [] s, true);
  copy = λ s p f. (insert p (take 1 f) s, false);
  close = λ s p. (s, true);
  remove = λ s p. (delete p s, true);
}

abbrev find : List (Bytes × Bytes) → Bytes → Option Bytes
find s p = lookup p s

full_disk-Careful : Careful plain full_disk find
full_disk-Careful = record {
  removed = λ s p h. lookup-delete_self p s;
  made = λ s d p. refl;
  not_opened = λ s p h. absurd (ground arith);
}

abbrev limits : Config
limits = record { max_size = 4; allowed_mime = codes "a" ∷ []; base_url = []; key_prefix = [] }

upload_local-failed_example :
    Gone plain full_disk find
      (codes "up/x.txt")
      (upload_local plain full_disk limits (codes "up") (codes "abc") (codes "x.txt") []).0
    ⊎ (lookup
          (codes "up/x.txt")
          (upload_local plain full_disk limits (codes "up") (codes "abc") (codes "x.txt") []).0
        ≡ lookup (codes "up/x.txt") [])
unfolding upload_local validate sanitize_filename check_size check_type mime_allowed lookup insert
    delete
upload_local-failed_example =
    upload_local-failed plain full_disk find full_disk-Careful limits (codes "up") (codes "abc")
      (codes "abc") (codes "x.txt") (codes "x.txt") (codes "a") [] copy_failed refl refl
