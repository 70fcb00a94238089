-- ===== src/Webhook/Hex.antt =====
-- encoding/hex, and the comparison of two digests.
use fibr.Prelude.{
  ℕ, ◌+◌, ◌-◌, ◌*◌, ◌/◌, ◌%◌, ◌≤◌, ◌<◌, ◌≡◌, refl, ap, Bool, true, false, ◌&&◌, Option, none, some,
  [], ◌∷◌, All, ltb, leb, if◌then◌else◌, ◌==◌, nat_cmp, arith,
}
use fibr.Prelude.Bytes.{Bytes}

abbrev hex_digit : ℕ → ℕ
hex_digit n = if ltb n 10 then 48 + n else 87 + n

unfoldable pub hex_encode : Bytes → Bytes
hex_encode [] = []
hex_encode (b ∷ bs) = hex_digit (b / 16) ∷ hex_digit (b % 16) ∷ hex_encode bs

hex_value : ℕ → Option ℕ
hex_value c =
    if leb 48 c && leb c 57
    then some (c - 48)
    else if leb 97 c && leb c 102
    then some (c - 87)
    else if leb 65 c && leb c 70
    then some (c - 55)
    else none

abbrev pair_up : Option ℕ → Option ℕ → Option Bytes → Option Bytes
pair_up (some h) (some l) (some bs) = some ((h * 16 + l) ∷ bs)
pair_up h l bs = none

unfoldable pub hex_decode : Bytes → Option Bytes
unfolding hex_value
hex_decode [] = some []
hex_decode (c ∷ []) = none
hex_decode (c ∷ d ∷ s) = pair_up (hex_value c) (hex_value d) (hex_decode s)

-- `hmac.Equal`
unfoldable pub same_bytes : Bytes → Bytes → Bool
same_bytes [] [] = true
same_bytes (b ∷ s) (c ∷ t) = b == c && same_bytes s t
same_bytes s t = false

hex_value-hex_digit : (n : ℕ) → n < 16 → hex_value (hex_digit n) ≡ some n
unfolding hex_value
hex_value-hex_digit n h = ground arith

-- A digest is read back from its print.
pub hex_decode-hex_encode :
    (bs : Bytes) → All (λ b. b < 256) bs → hex_decode (hex_encode bs) ≡ some bs
unfolding hex_decode hex_encode
hex_decode-hex_encode [] h = refl
hex_decode-hex_encode (b ∷ bs) h =
    rw
      (
        hex_value-hex_digit (b / 16) (omega (arith, h.0)),
        hex_value-hex_digit (b % 16) (omega arith),
        hex_decode-hex_encode bs h.1,
      )
      (ap (λ x. some (x ∷ bs)) (omega arith))

-- The print of a digest has only digits and letters.
pub hex_encode-All : (bs : Bytes) → All (λ b. b < 256) bs → All (λ c. 45 ≤ c) (hex_encode bs)
unfolding hex_encode
hex_encode-All [] h = tt
hex_encode-All (b ∷ bs) h = (ground arith, (ground arith, hex_encode-All bs h.1))

pub same_bytes_refl : (s : Bytes) → same_bytes s s ≡ true
unfolding same_bytes
same_bytes_refl [] = refl
same_bytes_refl (b ∷ s) = ground (arith, same_bytes_refl s)

pub same_bytes-≡ : (s t : Bytes) → same_bytes s t ≡ true → s ≡ t
unfolding same_bytes
same_bytes-≡ [] [] h = refl
same_bytes-≡ [] (c ∷ t) h = absurd (ground arith)
same_bytes-≡ (b ∷ s) [] h = absurd (ground arith)
same_bytes-≡ (b ∷ s) (c ∷ t) h = ground (arith, same_bytes-≡ s t)
