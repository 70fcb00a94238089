-- ===== src/Prelude/Decimal.antt =====
-- Numbers in decimal: `strconv.FormatInt` and `strconv.ParseInt` with base ten and 64 bits.
use Prim.Native.Nat.{ℕ, zero, suc, ◌+◌, ◌-◌, ◌*◌, ◌/◌, ◌%◌, ◌^◌, ◌<◌}
use mathlib.Core.Path.{◌≡◌, refl, ◌∙◌}
use mathlib.Core.Logic.{inl, inr}
use mathlib.Core.Bool.{Bool, true, ◌&&◌}
use mathlib.Core.Option.{Option, none, some}
use mathlib.Core.List.{[], ◌∷◌, ◌++◌}
use native.Mathlib.Omega.{arith}
use fibr.Prelude.Tests.{◌==◌, nat_cmp, if◌then◌else◌, ltb, leb, Bool-cases}
use fibr.Prelude.Lists.{All}
use fibr.Prelude.Int.{ℤ, pos, negsuc}
use fibr.Prelude.Bytes.{Bytes, All-append}

-- The digits of a number, on fuel that its size gives.
digits : ℕ → ℕ → Bytes
digits zero n = []
digits (suc f) n =
    let front = digits f (n / 10) in if ltb n 10 then (48 + n) ∷ [] else front ++ (48 + n % 10) ∷ []

unfoldable pub format_ℕ : ℕ → Bytes
unfolding digits
format_ℕ n = digits (suc n) n

unfoldable pub format_int : ℤ → Bytes
unfolding format_ℕ
format_int (pos n) = format_ℕ n
format_int (negsuc n) = 45 ∷ format_ℕ (suc n)

abbrev is_digit : ℕ → Bool
is_digit c = leb 48 c && leb c 57

scan : Bytes → ℕ → Option ℕ
scan [] n = some n
scan (c ∷ s) n = if is_digit c then scan s (n * 10 + (c - 48)) else none

unfoldable pub parse_ℕ : Bytes → Option ℕ
unfolding scan
parse_ℕ [] = none
parse_ℕ (c ∷ s) = scan (c ∷ s) 0

-- The range of an `int64`, on either side of zero.
abbrev negated : Option ℕ → Option ℤ
negated none = none
negated (some zero) = some (pos 0)
negated (some (suc n)) = if ltb n (2 ^ 63) then some (negsuc n) else none

abbrev bounded : Option ℕ → Option ℤ
bounded none = none
bounded (some n) = if ltb n (2 ^ 63) then some (pos n) else none

unfoldable pub parse_int64 : Bytes → Option ℤ
unfolding parse_ℕ
parse_int64 [] = none
parse_int64 (c ∷ s) =
    if c == 45
    then negated (parse_ℕ s)
    else if c == 43
    then bounded (parse_ℕ s)
    else bounded (parse_ℕ (c ∷ s))

scan-append_digit :
    (s : Bytes) (c a : ℕ) {n : ℕ} → scan s a ≡ some n → scan (s ++ c ∷ []) a ≡ scan (c ∷ []) n
unfolding scan
scan-append_digit [] c a h = ground arith
scan-append_digit (d ∷ s) c a {n} h =
    ground (arith, scan-append_digit s c (a * 10 + (d - 48)) {n = n})

scan-digits : (f n : ℕ) → n < f → scan (digits f n) 0 ≡ some n
unfolding digits scan
scan-digits zero n h = absurd (omega arith)
scan-digits (suc f) n h = elim (Bool-cases (ltb n 10)) [
  | inl small ↦ rw small (ground arith)
  | inr large ↦ rw large (
      scan-append_digit (digits f (n / 10)) (48 + n % 10) 0 (scan-digits f (n / 10) (ground arith))
      ∙ ground arith)
]

-- A text of digits, and not empty.
abbrev pub IsNumeral : Bytes → Type 0
IsNumeral s = All (λ b. is_digit b ≡ true) s

digits-IsNumeral : (f n : ℕ) → IsNumeral (digits f n)
unfolding digits
digits-IsNumeral zero n = tt
digits-IsNumeral (suc f) n = elim (Bool-cases (ltb n 10)) [
  | inl small ↦ rw small (ground arith)
  | inr large ↦
      rw large (All-append _ (digits f (n / 10)) _ (digits-IsNumeral f (n / 10)) (ground arith))
]

pub format_ℕ-IsNumeral : (n : ℕ) → IsNumeral (format_ℕ n)
unfolding format_ℕ
format_ℕ-IsNumeral n = digits-IsNumeral (suc n) n

parse_ℕ-scan : (s : Bytes) {n : ℕ} → scan s 0 ≡ some n → 0 < n → parse_ℕ s ≡ some n
unfolding parse_ℕ scan
parse_ℕ-scan [] h p = ground arith
parse_ℕ-scan (c ∷ s) h p = h

pub parse_ℕ-format : (n : ℕ) → parse_ℕ (format_ℕ n) ≡ some n
unfolding parse_ℕ scan format_ℕ digits
parse_ℕ-format zero = refl
parse_ℕ-format (suc n) =
    parse_ℕ-scan (digits (suc (suc n)) (suc n)) (scan-digits (suc (suc n)) (suc n) (omega arith))
      (omega arith)

-- The integers of 64 bits.
abbrev pub Int64 : ℤ → Type 0
Int64 (pos n) = n < 2 ^ 63
Int64 (negsuc n) = n < 2 ^ 63

parse_int64-IsNumeral :
    (s : Bytes) (n : ℕ)
    → IsNumeral s
    → n < 2 ^ 63
    → parse_ℕ s ≡ some n
    → parse_int64 s ≡ some (pos n)
unfolding parse_int64 parse_ℕ
parse_int64-IsNumeral [] n d fits h = ground arith
parse_int64-IsNumeral (c ∷ s) n d fits h = rw h (ground (arith, d.0))

-- An `int64` is read back from its decimal print.
pub parse_int64-format_int : (z : ℤ) → Int64 z → parse_int64 (format_int z) ≡ some z
unfolding format_int
parse_int64-format_int (pos n) fits =
    parse_int64-IsNumeral (format_ℕ n) n (format_ℕ-IsNumeral n) fits (parse_ℕ-format n)
parse_int64-format_int (negsuc n) fits =
    unfold parse_int64 in rw (parse_ℕ-format (suc n)) (ground arith)
