-- ===== src/Config.antt =====
-- config/config.go: environment variables read into the fields of a struct. The environment and the
-- parsers of durations and floating-point numbers are parameters.
pub mod Report
pub mod Slice
mod Examples
use fibr.Prelude.{
  ℕ, suc, ◌+◌, ◌-◌, ◌^◌, ◌≡◌, Bool, true, false, not, ◌||◌, ◌&&◌, Option, none, some, List, [], ◌∷◌,
  map, contains, if◌then◌else◌, ◌==◌, ltb, leb, nat_cmp,
}
use fibr.Prelude.Int.{ℤ, pos, negsuc}
use fibr.Prelude.Bytes.{Bytes, codes, bytes_cmp, split, trim_space}
use fibr.Prelude.Decimal.{parse_ℕ, parse_int64}

-- The kinds of field: a width of 0 is that of the platform, and `slice_of` and `unsupported` stand for
-- the types without a parser.
pub data Kind : Type 0 where
  duration text boolean text_slice slice_of unsupported : Kind
  int uint float : ℕ → Kind

pub data Value (D F : Type 0) : Type 0 where
  set_duration : D → Value D F
  set_string : Bytes → Value D F
  set_bool : Bool → Value D F
  set_int : ℤ → Value D F
  set_uint : ℕ → Value D F
  set_float : F → Value D F
  set_slice : List Bytes → Value D F

pub record Parsers (D F : Type 0) : Type 0 where
  pub parse_duration : Bytes → Option D
  pub parse_float : Bytes → ℕ → Option F

-- A field with its tags and what it holds; `value` is none for its zero value.
pub record Field (D F : Type 0) : Type 0 where
  pub kind : Kind
  pub tag : Bytes
  pub default : Option Bytes
  pub required : Bytes
  pub can_set : Bool
  pub value : Option (Value D F)

-- `strings.ToUpper` of an ASCII text.
abbrev pub to_upper : Bytes → Bytes
to_upper [] = []
to_upper (c ∷ s) = (if leb 97 c && leb c 122 then c - 32 else c) ∷ to_upper s

abbrev pub is_empty : Bytes → Bool
is_empty [] = true
is_empty (c ∷ s) = false

-- `strconv.ParseBool`
abbrev pub parse_bool : Bytes → Option Bool
parse_bool s =
    if contains
      (codes "1" ∷ codes "t" ∷ codes "T" ∷ codes "TRUE" ∷ codes "true" ∷ codes "True" ∷ []) s
    then some true
    else if contains
        (codes "0" ∷ codes "f" ∷ codes "F" ∷ codes "FALSE" ∷ codes "false" ∷ codes "False" ∷ []) s
    then some false
    else none

-- The width of an integer type; the platform's is 64.
abbrev pub width : ℕ → ℕ
width bits = if bits == 0 then 64 else bits

abbrev pub int_fits : ℕ → ℤ → Bool
int_fits bits (pos n) = ltb n (2 ^ (width bits - 1))
int_fits bits (negsuc n) = ltb n (2 ^ (width bits - 1))

abbrev pub int_in : ℕ → Option ℤ → Option ℤ
int_in bits none = none
int_in bits (some z) = if int_fits bits z then some z else none

abbrev pub uint_in : ℕ → Option ℕ → Option ℕ
uint_in bits none = none
uint_in bits (some n) = if ltb n (2 ^ width bits) then some n else none

abbrev pub trimmed : List Bytes → List Bytes
trimmed [] = []
trimmed (p ∷ ps) = trim_space p ∷ trimmed ps

module _ {D F : Type 0} (parsers : Parsers D F) where
  abbrev pub boxed : {A : Type 0} → (A → Value D F) → Option A → Option (Value D F)
  boxed wrap none = none
  boxed wrap (some a) = some (wrap a)

  -- The value that the field is set to; none is an error. A slice of a named string type, at which the
  -- source panics, has no kind here.
  unfoldable pub set_field : Kind → Bytes → Option (Value D F)
  set_field duration raw = boxed set_duration (parsers.parse_duration raw)
  set_field text raw = some (set_string raw)
  set_field boolean raw = boxed set_bool (parse_bool raw)
  set_field text_slice raw = some (set_slice (trimmed (split 44 raw)))
  set_field slice_of raw = none
  set_field unsupported raw = none
  set_field (int bits) raw = boxed set_int (int_in bits (parse_int64 raw))
  set_field (uint bits) raw = boxed set_uint (uint_in bits (parse_ℕ raw))
  set_field (float bits) raw = boxed set_float (parsers.parse_float raw bits)

-- What a loop over the fields has found.
pub record Problems : Type 0 where
  pub missing : List Bytes
  pub parse_errs : List Bytes

-- What the loop does at a field.
pub data Verdict (D F : Type 0) : Type 0 where
  skipped : Verdict D F
  is_missing unparsed : Bytes → Verdict D F
  sets : Value D F → Verdict D F

abbrev pub or_default : Bytes → Option Bytes → Bytes
or_default [] (some def) = def
or_default [] none = []
or_default (c ∷ s) default = c ∷ s

module _ {D F : Type 0} (parsers : Parsers D F) (getenv : Bytes → Bytes) where
  abbrev pub raw_of : Field D F → Bytes
  raw_of f = or_default (getenv (to_upper f.tag)) f.default

  abbrev pub parsed : Bytes → Option (Value D F) → Verdict D F
  parsed key none = unparsed key
  parsed key (some v) = sets v

  unfoldable pub verdict : Field D F → Verdict D F
  verdict f =
      if is_empty f.tag || not f.can_set
      then skipped
      else if is_empty (raw_of f)
      then (if f.required == codes "true" then is_missing (to_upper f.tag) else skipped)
      else parsed (to_upper f.tag) (set_field parsers f.kind (raw_of f))

  abbrev pub take_verdict :
      Verdict D F → Field D F → List (Field D F) × Problems → List (Field D F) × Problems
  take_verdict skipped f (fs, p) = (f ∷ fs, p)
  take_verdict (is_missing key) f (fs, p) = (f ∷ fs, record p { missing = key ∷ p.missing })
  take_verdict (unparsed key) f (fs, p) = (f ∷ fs, record p { parse_errs = key ∷ p.parse_errs })
  take_verdict (sets v) f (fs, p) = (record f { value = some v } ∷ fs, p)

  -- The loop over the fields.
  unfoldable pub load_fields : List (Field D F) → List (Field D F) × Problems
  unfolding verdict
  load_fields [] = ([], record { missing = []; parse_errs = [] })
  load_fields (f ∷ fs) = take_verdict (verdict f) f (load_fields fs)

-- What comes before the loop: the working directory, the file, and what `out` points to.
pub data Out (D F : Type 0) : Type 0 where
  getwd_fails env_file_fails not_pointer not_struct : Out D F
  struct : List (Field D F) → Out D F

pub data Error : Type 0 where
  no_directory bad_env_file bad_pointer bad_struct : Error
  problems : Problems → Error

abbrev pub report_of : List Bytes → List Bytes → Option Error
report_of [] [] = none
report_of missing parse_errs =
    some (problems (record { missing = missing; parse_errs = parse_errs }))

module _ {D F : Type 0} (parsers : Parsers D F) (getenv : Bytes → Bytes) where
  -- The fields after the call, where there are any, and the error.
  unfoldable pub load_config : Out D F → List (Field D F) × Option Error
  load_config getwd_fails = ([], some no_directory)
  load_config env_file_fails = ([], some bad_env_file)
  load_config not_pointer = ([], some bad_pointer)
  load_config not_struct = ([], some bad_struct)
  load_config (struct fields) =
      let (fields', p) = load_fields parsers getenv fields in
      (fields', report_of p.missing p.parse_errs)
