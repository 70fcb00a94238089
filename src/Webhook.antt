-- ===== src/Webhook.antt =====
-- webhook/webhook.go, webhook/middleware.go: signed payloads. Texts are their bytes, and the HMAC is
-- a parameter. Durations are in nanoseconds, and the time is that of `time.Now`.
pub mod Hex
pub mod Header
pub mod Verdict
mod Examples
use fibr.Prelude.{
  ℕ, suc, ◌+◌, ◌-◌, ◌*◌, ◌^◌, ◌≡◌, Bool, true, false, not, ◌||◌, ◌&&◌, Option, none, some, List, [],
  ◌∷◌, ◌++◌, ltb, if◌then◌else◌, ◌==◌, nat_cmp,
}
use fibr.Prelude.Int.{ℤ, pos, negsuc, ltb_ℤ, ◌-ℤ◌, ◌*ℤ◌}
use fibr.Prelude.Bytes.{Bytes, codes, split, cut, trim_space}
use fibr.Prelude.Decimal.{format_int, parse_int64}
use fibr.Webhook.Hex.{hex_encode, hex_decode, same_bytes}

pub data Error : Type 0 where
  malformed_header expired invalid_signature : Error

-- `hmac.New(sha256.New, secret)` with its sum over a message.
abbrev pub Hmac : Type 0
Hmac = Bytes → Bytes → Bytes

unfoldable pub mac : Hmac → Bytes → Bytes → ℤ → Bytes
mac hmac payload secret unix = hmac secret (format_int unix ++ 46 ∷ payload)

unfoldable pub sign : Hmac → Bytes → Bytes → ℤ → Bytes
sign hmac payload secret unix =
    codes "t=" ++ (format_int unix ++ (codes ",v1=" ++ hex_encode (mac hmac payload secret unix)))

-- The two values of a header, as the loop over its parts has them so far.
pub record Found : Type 0 where
  pub ts_str : Bytes
  pub sig : Bytes

abbrev assign : Bytes → Bytes → Found → Found
assign k v f =
    if same_bytes k (codes "t")
    then record f { ts_str = v }
    else if same_bytes k (codes "v1")
    then record f { sig = v }
    else f

abbrev take_part : Bytes → Found → Found
take_part part f = elim (cut 61 (trim_space part)) [ none ↦ f | some (k, v) ↦ assign k v f ]

pub read_parts : List Bytes → Found → Found
read_parts [] f = f
read_parts (part ∷ parts) f = read_parts parts (take_part part f)

pub read_header : Bytes → Found
unfolding read_parts
read_header header = read_parts (split 44 header) (record { ts_str = []; sig = [] })

-- `time.Unix(unix, 0)` in seconds since the epoch: its inner count of seconds wraps at 64 bits.
pub instant : ℤ → ℤ
instant unix = if ltb_ℤ (pos (2 ^ 63 - 62135596801)) unix then unix -ℤ pos (2 ^ 64) else unix

-- A difference of times as a `Duration`, which stops at the ends of its range.
pub saturate : ℤ → ℤ
saturate (pos n) = pos (if ltb n (2 ^ 63) then n else 2 ^ 63 - 1)
saturate (negsuc n) = negsuc (if ltb n (2 ^ 63) then n else 2 ^ 63 - 1)

-- `if delta < 0 { delta = -delta }`: the least `Duration` is its own opposite.
pub magnitude : ℤ → ℤ
magnitude (pos n) = pos n
magnitude (negsuc n) = if n == 2 ^ 63 - 1 then negsuc n else pos (suc n)

pub is_late : ℤ → ℤ → ℤ → Bool
unfolding instant saturate magnitude
is_late tolerance now unix =
    ltb_ℤ (pos 0) tolerance
    && ltb_ℤ tolerance (magnitude (saturate (now -ℤ instant unix *ℤ pos 1000000000)))

abbrev is_empty : Bytes → Bool
is_empty [] = true
is_empty (c ∷ s) = false

abbrev check_sig : Hmac → Bytes → Bytes → ℤ → Option Bytes → Option Error
check_sig hmac payload secret unix none = some invalid_signature
check_sig hmac payload secret unix (some got) =
    if same_bytes (mac hmac payload secret unix) got then none else some invalid_signature

abbrev check_time : Hmac → Bytes → Bytes → ℤ → ℤ → Bytes → Option ℤ → Option Error
check_time hmac payload secret tolerance now sig none = some malformed_header
check_time hmac payload secret tolerance now sig (some unix) =
    if is_late tolerance now unix
    then some expired
    else check_sig hmac payload secret unix (hex_decode sig)

abbrev verify_found : Hmac → Bytes → Bytes → ℤ → ℤ → Found → Option Error
verify_found hmac payload secret tolerance now f =
    if is_empty f.ts_str || is_empty f.sig
    then some malformed_header
    else check_time hmac payload secret tolerance now f.sig (parse_int64 f.ts_str)

-- The error, none where the header is accepted.
unfoldable pub verify : Hmac → Bytes → Bytes → Bytes → ℤ → ℤ → Option Error
verify hmac payload header secret tolerance now =
    verify_found hmac payload secret tolerance now (read_header header)

pub record MiddlewareConfig : Type 0 where
  pub secret : Bytes
  pub header : Bytes
  pub tolerance : ℤ

-- The request is its body and its headers.
abbrev pub default_header : Bytes
default_header = codes "Webhook-Signature"

abbrev pub default_tolerance : ℤ
default_tolerance = pos 300000000000

-- Whether the next handler runs; else the reply is 401 with the code "invalid_signature".
unfoldable pub middleware : Hmac → MiddlewareConfig → Bytes → (Bytes → Bytes) → ℤ → Bool
middleware hmac cfg body get now =
    let name = if is_empty cfg.header then default_header else cfg.header in
    let tolerance =
      if ltb_ℤ cfg.tolerance (pos 0) || ltb_ℤ (pos 0) cfg.tolerance
      then cfg.tolerance
      else default_tolerance in
    elim (verify hmac body (get name) cfg.secret tolerance now) [ none ↦ true | some e ↦ false ]
