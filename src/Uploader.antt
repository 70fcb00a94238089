-- ===== src/Uploader.antt =====
-- uploader/uploader.go, uploader/local.go and uploader/s3.go. The file that is uploaded, the disk, the
-- bucket and the detection of a type (mimetype) are parameters, with `filepath.Base(filepath.Clean(_))`
-- and `filepath.Join`.
pub mod Checked
mod Examples
use fibr.Prelude.{
  ℕ, Bool, true, false, not, ◌&&◌, ◌||◌, Option, none, some, List, [], ◌∷◌, ◌++◌, if◌then◌else◌,
  ltb, ◌==◌, nat_cmp,
}
use fibr.Prelude.Bytes.{Bytes, codes, bytes_cmp}

pub record Config : Type 0 where
  pub max_size : ℕ
  pub allowed_mime : List Bytes
  pub base_url : Bytes
  pub key_prefix : Bytes

-- `multipart.File`: the size that a seek to the end tells, the way back, and at most 512 bytes.
pub record Files : Type 1 where
  pub File : Type 0
  pub seek_end : File → File × Option ℕ
  pub rewind : File → File × Bool
  pub read_head : File → File × Bytes
  pub base_name : Bytes → Bytes
  pub Mime : Type 0
  pub detect : Bytes → Mime
  pub is_mime : Mime → Bytes → Bool
  pub mime_name : Mime → Bytes

-- What `LocalUploader` does to the disk; each operation tells whether it ended without an error.
pub record Disk (F : Files) : Type 1 where
  pub State : Type 0
  pub join : Bytes → Bytes → Bytes
  pub mkdir_all : State → Bytes → State × Bool
  pub open_file : State → Bytes → State × Bool
  pub copy : State → Bytes → F.File → State × Bool
  pub close : State → Bytes → State × Bool
  pub remove : State → Bytes → State × Bool

pub data Failure : Type 0 where
  invalid_filename seek_failed too_large mime_not_allowed : Failure
  mkdir_failed open_failed copy_failed close_failed put_failed : Failure

pub data Result (A : Type 0) : Type 0 where
  ok : A → Result A
  err : Failure → Result A

infixl 5 ◌>>=◌
abbrev pub ◌>>=◌ : {A B : Type 0} → Result A → (A → Result B) → Result B
ok a >>= f = f a
err e >>= f = err e

abbrev pub guard : {A : Type 0} → Bool → Failure → A → Result A
guard true e a = ok a
guard false e a = err e

abbrev is_empty : Bytes → Bool
is_empty [] = true
is_empty (c ∷ s) = false

abbrev is_nil : List Bytes → Bool
is_nil [] = true
is_nil (a ∷ xs) = false

module _ (F : Files) where
  unfoldable pub sanitize_filename : Bytes → Result Bytes
  sanitize_filename name =
      let clean = F.base_name name in
      if clean == codes "." || clean == codes ".." || is_empty clean || clean == codes "/"
      then err invalid_filename
      else ok clean

  unfoldable pub mime_allowed : F.Mime → List Bytes → Bool
  mime_allowed mt [] = false
  mime_allowed mt (a ∷ allowed) = F.is_mime mt a || mime_allowed mt allowed

  abbrev pub sized : F.File × Option ℕ → Result (F.File × ℕ)
  sized (f, none) = err seek_failed
  sized (f, some n) = ok (f, n)

  abbrev pub rewound : F.File → Result F.File
  rewound f = let (f', fine) = F.rewind f in guard fine seek_failed f'

  unfoldable pub check_size : Config → F.File → Result F.File
  check_size c f = if c.max_size == 0 then ok f else (do
    (f1, size) ← sized (F.seek_end f)
    f2 ← rewound f1
    guard (not (ltb c.max_size size)) too_large f2)

  abbrev pub allowed_type : Config → F.Mime → Bool
  allowed_type c mt = is_nil c.allowed_mime || mime_allowed mt c.allowed_mime

  unfoldable pub check_type : Config → F.File → Result (F.File × Bytes)
  check_type c f =
      let (f1, head) = F.read_head f in
      (do
        f2 ← rewound f1
        guard (allowed_type c (F.detect head)) mime_not_allowed (f2, F.mime_name (F.detect head)))

  -- The sanitized name, the type that was detected, and the file at its start.
  unfoldable pub validate : Config → F.File → Bytes → Result (Bytes × Bytes × F.File)
  validate c f filename = do
    safe ← sanitize_filename filename
    f1 ← check_size c f
    (f2, mime) ← check_type c f1
    ok (safe, mime, f2)

  module _ (D : Disk F) where
    -- The error of `os.Remove` is ignored.
    abbrev pub closed : Bytes → D.State × Bool → D.State × Result Bytes
    closed path (s, true) = (s, ok path)
    closed path (s, false) = ((D.remove s path).0, err close_failed)

    abbrev pub copied : Bytes → D.State × Bool → D.State × Result Bytes
    copied path (s, true) = closed path (D.close s path)
    copied path (s, false) = ((D.remove (D.close s path).0 path).0, err copy_failed)

    abbrev pub opened : Bytes → F.File → D.State × Bool → D.State × Result Bytes
    opened path f (s, true) = copied path (D.copy s path f)
    opened path f (s, false) = (s, err open_failed)

    abbrev pub store_in : Bytes → F.File → D.State × Bool → D.State × Result Bytes
    store_in path f (s, true) = opened path f (D.open_file s path)
    store_in path f (s, false) = (s, err mkdir_failed)

    abbrev pub store_valid :
        Bytes → Result (Bytes × Bytes × F.File) → D.State → D.State × Result Bytes
    store_valid dir (err e) s = (s, err e)
    store_valid dir (ok (safe, mime, f)) s = store_in (D.join dir safe) f (D.mkdir_all s dir)

    -- `LocalUploader.Upload`
    unfoldable pub upload_local : Config → Bytes → F.File → Bytes → D.State → D.State × Result Bytes
    upload_local c dir f filename s = store_valid dir (validate c f filename) s

  -- `S3Uploader.Upload`, where `put` takes the key, the size, the type and the file.
  module _ {Bucket : Type 0} (put : Bucket → Bytes → ℕ → Bytes → F.File → Bucket × Bool) where
    abbrev pub answer_key : Config → Bytes → Bucket × Bool → Bucket × Result Bytes
    answer_key c key (b, true) = (b, ok (if is_empty c.base_url then key else c.base_url ++ key))
    answer_key c key (b, false) = (b, err put_failed)

    abbrev pub put_sized :
        Config → Bytes → Bytes → Result (F.File × ℕ) → Bucket → Bucket × Result Bytes
    put_sized c safe mime (err e) b = (b, err e)
    put_sized c safe mime (ok (f, size)) b =
        let key = c.key_prefix ++ safe in answer_key c key (put b key size mime f)

    abbrev pub measure : F.File → Result (F.File × ℕ)
    measure f = do (f1, size) ← sized (F.seek_end f); f2 ← rewound f1; ok (f2, size)

    abbrev pub put_valid : Config → Result (Bytes × Bytes × F.File) → Bucket → Bucket × Result Bytes
    put_valid c (err e) b = (b, err e)
    put_valid c (ok (safe, mime, f)) b = put_sized c safe mime (measure f) b

    unfoldable pub upload_s3 : Config → F.File → Bytes → Bucket → Bucket × Result Bytes
    upload_s3 c f filename b = put_valid c (validate c f filename) b
