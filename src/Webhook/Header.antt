-- ===== src/Webhook/Header.antt =====
-- webhook/webhook.go: a header that `Sign` wrote is read back.
use fibr.Prelude.{
  suc, ◌≤◌, ◌<◌, ◌≡◌, refl, ap, ◌∙◌, false, none, some, [], ◌∷◌, ◌++◌, All, nat_cmp, arith,
}
use fibr.Prelude.Int.{ℤ, pos, negsuc}
use fibr.Prelude.Bytes.{
  Bytes, codes, Lacks, IsSolid, split-append, split-Lacks, cut-append, trim_space-IsSolid,
  All-append,
}
use fibr.Prelude.Decimal.{
  format_int, format_ℕ, parse_int64, Int64, IsNumeral, format_ℕ-IsNumeral, parse_int64-format_int,
}
use fibr.Webhook.Hex.{
  hex_encode, hex_encode-All, hex_decode-hex_encode, same_bytes, same_bytes_refl,
}
use fibr.Webhook.{
  Hmac, mac, sign, verify, verify_found, Found, read_parts, read_header, is_late, is_empty,
  take_part, assign,
}

-- Bytes above the space, the comma and what stands before them.
abbrev Visible : Bytes → Type 0
Visible s = All (λ c. 45 ≤ c) s

Visible-IsSolid : (s : Bytes) → Visible s → IsSolid s
Visible-IsSolid [] h = tt
Visible-IsSolid (c ∷ s) h = (ground (arith, h.0), Visible-IsSolid s h.1)

Visible-Lacks : (s : Bytes) → Visible s → Lacks 44 s
Visible-Lacks [] h = tt
Visible-Lacks (c ∷ s) h = (ground (arith, h.0), Visible-Lacks s h.1)

IsNumeral-Visible : (s : Bytes) → IsNumeral s → Visible s
IsNumeral-Visible [] h = tt
IsNumeral-Visible (c ∷ s) h = (ground (arith, h.0), IsNumeral-Visible s h.1)

format_int-Visible : (z : ℤ) → Visible (format_int z)
unfolding format_int
format_int-Visible (pos n) = IsNumeral-Visible (format_ℕ n) (format_ℕ-IsNumeral n)
format_int-Visible (negsuc n) =
    (omega arith, IsNumeral-Visible (format_ℕ (suc n)) (format_ℕ-IsNumeral (suc n)))

-- The part `k=v`, read from a header.
part_lem :
    (k v : Bytes) (f : Found)
    → Visible k
    → Visible v
    → Lacks 61 k
    → take_part (k ++ 61 ∷ v) f ≡ assign k v f
part_lem k v f hk hv lk =
    let solid = Visible-IsSolid (k ++ 61 ∷ v) (All-append _ k (61 ∷ v) hk (omega arith, hv)) in
    rw (trim_space-IsSolid (k ++ 61 ∷ v) solid, take_part) (rw (cut-append 61 k v lk) refl)

abbrev unread : Found
unread = record { ts_str = []; sig = [] }

read_header-parts :
    (p q : Bytes)
    → Lacks 44 p
    → Lacks 44 q
    → read_header (p ++ 44 ∷ q) ≡ take_part q (take_part p unread)
unfolding read_header read_parts
read_header-parts p q hp hq = rw (split-append 44 p q hp) (rw (split-Lacks 44 q hq) refl)

read_header-sign :
    (ts sig : Bytes)
    → Visible ts
    → Visible sig
    → read_header (codes "t=" ++ (ts ++ (codes ",v1=" ++ sig))) ≡ record { ts_str = ts; sig = sig }
unfolding same_bytes
read_header-sign ts sig ht hs =
    read_header-parts (codes "t=" ++ ts) (codes "v1=" ++ sig)
      (Visible-Lacks (codes "t=" ++ ts) (omega arith, (omega arith, ht)))
      (Visible-Lacks (codes "v1=" ++ sig) (omega arith, (omega arith, (omega arith, hs))))
    ∙ ap (take_part (codes "v1=" ++ sig))
        (part_lem (codes "t") ts unread (omega arith, tt) ht (refl, tt))
    ∙ part_lem (codes "v1") sig (record { ts_str = ts; sig = [] }) (omega arith, (omega arith, tt))
        hs (refl, (refl, tt))

is_empty-parse_int64 : (s : Bytes) {z : ℤ} → parse_int64 s ≡ some z → is_empty s ≡ false
unfolding parse_int64
is_empty-parse_int64 [] h = ground arith
is_empty-parse_int64 (c ∷ s) h = refl

is_empty-hex_encode : (bs : Bytes) → is_empty (hex_encode bs) ≡ is_empty bs
unfolding hex_encode
is_empty-hex_encode [] = refl
is_empty-hex_encode (b ∷ bs) = refl

-- The header that Sign writes for a payload and a time is accepted by Verify with the same secret,
-- if the time is an `int64`, the code is a text of bytes that is not empty, and the time is not
-- outside the tolerance.
pub verify-sign :
    (hmac : Hmac) (payload secret : Bytes) (tolerance now unix : ℤ)
    → Int64 unix
    → All (λ b. b < 256) (mac hmac payload secret unix)
    → is_empty (mac hmac payload secret unix) ≡ false
    → is_late tolerance now unix ≡ false
    → verify hmac payload (sign hmac payload secret unix) secret tolerance now ≡ none
unfolding verify sign
verify-sign hmac payload secret tolerance now unix fits bytes some_byte fresh =
    let digest = mac hmac payload secret unix in
    let read = parse_int64-format_int unix fits in
    ap (verify_found hmac payload secret tolerance now) (
      read_header-sign (format_int unix) (hex_encode digest) (format_int-Visible unix)
        (hex_encode-All digest bytes))
    ∙ rw (is_empty-parse_int64 (format_int unix) read, is_empty-hex_encode digest, some_byte)
        (rw read
          (rw (fresh, hex_decode-hex_encode digest bytes) (rw (same_bytes_refl digest) refl)))
