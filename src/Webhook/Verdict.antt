-- ===== src/Webhook/Verdict.antt =====
-- webhook/webhook.go: what an accepted header shows.
use fibr.Prelude.{
  ℕ, ◌+◌, ◌-◌, ◌*◌, ◌^◌, ◌≤◌, ◌<◌, ◌≡◌, refl, true, false, not, ◌||◌, ◌&&◌, Option, none, some, leb,
  nat_cmp, arith, inl, inr, Bool-cases,
}
use fibr.Prelude.Int.{ℤ, pos, ◌-ℤ◌, ◌*ℤ◌}
use fibr.Prelude.Bytes.{Bytes}
use fibr.Prelude.Decimal.{parse_int64}
use fibr.Webhook.Hex.{hex_decode, same_bytes, same_bytes-≡}
use fibr.Webhook.{
  Hmac, mac, verify, read_header, is_late, is_empty, check_sig, check_time, instant, saturate,
  magnitude,
}

check_sig_ok :
    (hmac : Hmac) (payload secret : Bytes) (unix : ℤ) (got : Option Bytes)
    → check_sig hmac payload secret unix got ≡ none
    → got ≡ some (mac hmac payload secret unix)
check_sig_ok hmac payload secret unix none h = absurd (ground arith)
check_sig_ok hmac payload secret unix (some got) h =
    let same : same_bytes (mac hmac payload secret unix) got ≡ true = ground arith in
    ground (arith, same_bytes-≡ (mac hmac payload secret unix) got same)

check_time_ok :
    (hmac : Hmac) (payload secret : Bytes) (tolerance now : ℤ) (sig : Bytes) (read : Option ℤ)
    → check_time hmac payload secret tolerance now sig read ≡ none
    → (unix : ℤ) × (read ≡ some unix)
      × (is_late tolerance now unix ≡ false)
      × (hex_decode sig ≡ some (mac hmac payload secret unix))
check_time_ok hmac payload secret tolerance now sig none h = absurd (ground arith)
check_time_ok hmac payload secret tolerance now sig (some unix) h =
    elim (Bool-cases (is_late tolerance now unix)) [
      | inl late ↦ absurd (ground (arith, late))
      | inr fresh ↦ (
        unix,
        refl,
        fresh,
        check_sig_ok hmac payload secret unix (hex_decode sig) (ground (arith, fresh)),
      )
    ]

-- A header that Verify accepts carries a time that is not outside the tolerance, and the code of
-- that very time and payload under the secret.
verify_ok :
    (hmac : Hmac) (payload header secret : Bytes) (tolerance now : ℤ)
    → verify hmac payload header secret tolerance now ≡ none
    → (unix : ℤ) × (parse_int64 (read_header header).ts_str ≡ some unix)
      × (is_late tolerance now unix ≡ false)
      × (hex_decode (read_header header).sig ≡ some (mac hmac payload secret unix))
unfolding verify
verify_ok hmac payload header secret tolerance now h =
    elim (Bool-cases (is_empty (read_header header).ts_str || is_empty (read_header header).sig)) [
      | inl bare ↦ absurd (ground (arith, bare))
      | inr full ↦
          check_time_ok hmac payload secret tolerance now (read_header header).sig
            (parse_int64 (read_header header).ts_str) (ground (arith, full))
    ]

-- A time is not late exactly where it is within the tolerance of now or so far ahead that the
-- difference is outside a `Duration`. Times are from the epoch on, the time is at most 2^63 −
-- 62135596801 seconds (`time.Unix` wraps round beyond), and the tolerance is positive and less than
-- the greatest `Duration`.
pub is_late-leb :
    (tolerance now unix : ℕ)
    → 0 < tolerance
    → tolerance < 2 ^ 63 - 1
    → unix ≤ 2 ^ 63 - 62135596801
    → is_late (pos tolerance) (pos now) (pos unix)
      ≡ not (
          leb now (unix * 1000000000 + tolerance)
          && (leb (unix * 1000000000) (now + tolerance) || leb (now + 2 ^ 63) (unix * 1000000000)))
unfolding is_late instant saturate magnitude ◌-ℤ◌ ◌*ℤ◌
is_late-leb tolerance now unix some_time bounded fits = ground arith
