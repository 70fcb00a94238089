-- ===== src/Webhook/Examples.antt =====
-- webhook/webhook.go: runs of the code.
use fibr.Prelude.{
  ℕ, ◌+◌, ◌*◌, ◌%◌, ◌^◌, ◌≡◌, refl, Bool, true, false, not, ◌&&◌, ◌||◌, none, some, [], ◌∷◌, ◌++◌,
  leb, arith,
}
use fibr.Prelude.Int.{ℤ, pos, ◌-ℤ◌, ◌*ℤ◌}
use fibr.Prelude.Bytes.{Bytes, codes}
use fibr.Prelude.Decimal.{format_int, format_ℕ}
use fibr.Webhook.{
  Hmac, mac, sign, verify, read_header, is_late, instant, saturate, magnitude, middleware,
  MiddlewareConfig, default_tolerance,
}
use fibr.Webhook.Header.{verify-sign}
use fibr.Webhook.Verdict.{is_late-leb}

abbrev checksum : Bytes → ℕ
checksum [] = 7
checksum (b ∷ s) = (b + 3 * checksum s) % 256

abbrev toy_hmac : Hmac
toy_hmac secret message = checksum (secret ++ message) ∷ checksum message ∷ []

abbrev body : Bytes
body = codes "{}"

abbrev key : Bytes
key = codes "whsec"

abbrev signed_at : ℤ
signed_at = pos 1700000000

abbrev soon : ℤ
soon = pos 1700000060000000000

verify-sign_example :
    verify toy_hmac body (sign toy_hmac body key signed_at) key default_tolerance soon ≡ none
unfolding mac is_late instant saturate magnitude ◌-ℤ◌ ◌*ℤ◌ format_int format_ℕ
verify-sign_example =
    verify-sign toy_hmac body key default_tolerance soon signed_at (omega arith)
      (omega arith, (omega arith, tt)) refl refl

accepted : verify toy_hmac body (sign toy_hmac body key signed_at) key default_tolerance soon ≡ none
unfolding mac is_late instant saturate magnitude ◌-ℤ◌ ◌*ℤ◌ format_int format_ℕ
accepted =
    verify-sign toy_hmac body key default_tolerance soon signed_at (omega arith)
      (omega arith, (omega arith, tt)) refl refl

is_late-leb_example :
    is_late default_tolerance (pos 400000000000) (pos 50)
    ≡ not (
        leb 400000000000 (50 * 1000000000 + 300000000000)
        && (leb (50 * 1000000000) (400000000000 + 300000000000)
            || leb (400000000000 + 2 ^ 63) (50 * 1000000000)))
is_late-leb_example =
    is_late-leb 300000000000 400000000000 50 (omega arith) (omega arith) (omega arith)

-- A time three centuries ahead passes.
far_ahead : is_late default_tolerance (pos 0) (pos 9300000000) ≡ false
unfolding is_late instant saturate magnitude ◌-ℤ◌ ◌*ℤ◌
far_ahead = refl

abbrev guard : MiddlewareConfig
guard = record { secret = key; header = []; tolerance = pos 0 }

-- A request with no header is turned away.
bare_request : middleware toy_hmac guard body (λ name. []) soon ≡ false
unfolding middleware verify read_header fibr.Prelude.Bytes.split fibr.Prelude.Bytes.cut
    fibr.Prelude.Bytes.trim_space
bare_request = refl
