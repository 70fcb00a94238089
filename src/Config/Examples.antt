-- ===== src/Config/Examples.antt =====
-- config/config.go: runs of the code.
use fibr.Prelude.{ℕ, ◌≡◌, refl, true, none, some, [], ◌∷◌, if◌then◌else◌, ◌==◌}
use fibr.Prelude.Int.{pos}
use fibr.Prelude.Bytes.{Bytes, codes, bytes_cmp}
use fibr.Prelude.Decimal.{parse_ℕ, parse_int64}
use fibr.Config.{
  Parsers, Field, Kind, text, int, set_int, set_field, load_config, load_fields, verdict, report_of,
}
use fibr.Config.Report.{AllLoaded, missing_keys, unparsed_keys, load_config-AllLoaded}

-- Durations in whole seconds and no floating-point numbers.
abbrev parsers : Parsers ℕ ℕ
parsers = record { parse_duration = λ s. parse_ℕ s; parse_float = λ s bits. none }

abbrev env : Bytes → Bytes
env key = if key == codes "PORT" then codes "8080" else []

abbrev field : Kind → Bytes → Bytes → Field ℕ ℕ
field kind tag required = record {
  kind = kind;
  tag = tag;
  default = none;
  required = required;
  can_set = true;
  value = none;
}

abbrev port : Field ℕ ℕ
port = field (int 16) (codes "port") (codes "true")

abbrev secret : Field ℕ ℕ
secret = field text (codes "secret") (codes "true")

abbrev small_port : Field ℕ ℕ
small_port = field (int 8) (codes "port") []

-- Both problems are reported.
both :
    report_of
      (missing_keys parsers env (secret ∷ small_port ∷ port ∷ []))
      (unparsed_keys parsers env (secret ∷ small_port ∷ port ∷ []))
    ≡ report_of (codes "SECRET" ∷ []) (codes "PORT" ∷ [])
unfolding verdict set_field parse_int64 parse_ℕ
both = refl

abbrev set_port : Field ℕ ℕ
set_port = record port { value = some (set_int (pos 8080)) }

load_config-AllLoaded_example : AllLoaded parsers env (port ∷ []) (set_port ∷ [])
unfolding load_config load_fields verdict set_field parse_int64 parse_ℕ
load_config-AllLoaded_example = load_config-AllLoaded parsers env (port ∷ []) (set_port ∷ []) refl
