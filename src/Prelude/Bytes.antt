-- ===== src/Prelude/Bytes.antt =====
-- Texts as their bytes: what Go's `strings` does to split, trim and search them.
use Prim.Native.Nat.{ℕ, zero, suc, ◌+◌, ◌-◌}
use Prim.Native.Char.{code}
use Prim.Native.String.{String}
use mathlib.Core.Path.{◌≡◌, refl}
use mathlib.Core.Logic.{◌↔◌}
use mathlib.Core.Bool.{Bool, true, false, ◌&&◌, ◌||◌}
use mathlib.Core.Option.{Option, none, some}
use mathlib.Core.List.{List, [], ◌∷◌, ◌++◌}
use native.Mathlib.Omega.{arith}
use fibr.Prelude.Tests.{Comparable, ◌==◌, nat_cmp, if◌then◌else◌, leb}
use fibr.Prelude.Lists.{All, drop, length}

abbrev pub Bytes : Type 0
Bytes = List ℕ

-- The code points of a text: its bytes, if it is ASCII.
abbrev pub codes : String → Bytes
codes String.[] = []
codes (String.◌∷◌ c s) = code c ∷ codes s

-- The byte does not stand in the text.
abbrev pub Lacks : ℕ → Bytes → Type 0
Lacks c s = All (λ b. (b == c) ≡ false) s

abbrev prepend : ℕ → List Bytes → List Bytes
prepend c [] = (c ∷ []) ∷ []
prepend c (p ∷ ps) = (c ∷ p) ∷ ps

-- `strings.Split` by a separator of one byte.
unfoldable pub split : ℕ → Bytes → List Bytes
split sep [] = [] ∷ []
split sep (c ∷ s) = if c == sep then [] ∷ split sep s else prepend c (split sep s)

abbrev pub before_cut : ℕ → Option (Bytes × Bytes) → Option (Bytes × Bytes)
before_cut c none = none
before_cut c (some (k, v)) = some (c ∷ k, v)

-- `strings.Cut` at a separator of one byte.
unfoldable pub cut : ℕ → Bytes → Option (Bytes × Bytes)
cut sep [] = none
cut sep (c ∷ s) = if c == sep then some ([], s) else before_cut c (cut sep s)

-- The ASCII space of `unicode.IsSpace`.
abbrev pub is_space : ℕ → Bool
is_space c = leb 9 c && leb c 13 || c == 32

unfoldable pub trim_left : Bytes → Bytes
trim_left [] = []
trim_left (c ∷ s) = if is_space c then trim_left s else c ∷ s

abbrev keep_last : ℕ → Bytes → Bytes
keep_last c [] = if is_space c then [] else c ∷ []
keep_last c (d ∷ s) = c ∷ d ∷ s

unfoldable pub trim_right : Bytes → Bytes
trim_right [] = []
trim_right (c ∷ s) = keep_last c (trim_right s)

-- `strings.TrimSpace` of an ASCII text.
unfoldable pub trim_space : Bytes → Bytes
unfolding trim_left trim_right
trim_space s = trim_right (trim_left s)

pub split-Lacks : (sep : ℕ) (p : Bytes) → Lacks sep p → split sep p ≡ p ∷ []
unfolding split
split-Lacks sep [] h = refl
split-Lacks sep (c ∷ p) h = rw h.0 (rw (split-Lacks sep p h.1) refl)

pub split-append :
    (sep : ℕ) (p rest : Bytes) → Lacks sep p → split sep (p ++ sep ∷ rest) ≡ p ∷ split sep rest
unfolding split
split-append sep [] rest h = ground arith
split-append sep (c ∷ p) rest h = rw h.0 (rw (split-append sep p rest h.1) refl)

pub cut-append : (sep : ℕ) (k v : Bytes) → Lacks sep k → cut sep (k ++ sep ∷ v) ≡ some (k, v)
unfolding cut
cut-append sep [] v h = ground arith
cut-append sep (c ∷ k) v h = rw h.0 (rw (cut-append sep k v h.1) refl)

-- A text without space is its own trim.
abbrev pub IsSolid : Bytes → Type 0
IsSolid s = All (λ b. is_space b ≡ false) s

trim_right-IsSolid : (s : Bytes) → IsSolid s → trim_right s ≡ s
unfolding trim_right
trim_right-IsSolid [] h = refl
trim_right-IsSolid (c ∷ []) h = ground arith
trim_right-IsSolid (c ∷ d ∷ s) h = rw (trim_right-IsSolid (d ∷ s) h.1) refl

pub trim_space-IsSolid : (s : Bytes) → IsSolid s → trim_space s ≡ s
unfolding trim_space trim_left
trim_space-IsSolid [] h = refl
trim_space-IsSolid (c ∷ s) h = rw h.0 (trim_right-IsSolid (c ∷ s) h)

pub All-append {ℓ κ} :
    {A : Type ℓ} (P : A → Type κ) (xs ys : List A) → All P xs → All P ys → All P (xs ++ ys)
All-append P [] ys h g = g
All-append P (x ∷ xs) ys h g = (h.0, All-append P xs ys h.1 g)

abbrev pub eqb_bytes : Bytes → Bytes → Bool
eqb_bytes [] [] = true
eqb_bytes (b ∷ s) (c ∷ t) = b == c && eqb_bytes s t
eqb_bytes s t = false

pub eqb_bytes_iff : (s t : Bytes) → (eqb_bytes s t ≡ true) ↔ (s ≡ t)
eqb_bytes_iff [] [] = ((λ h. refl), (λ h. refl))
eqb_bytes_iff [] (c ∷ t) = ((λ h. absurd (ground arith)), (λ h. absurd (ground arith)))
eqb_bytes_iff (b ∷ s) [] = ((λ h. absurd (ground arith)), (λ h. absurd (ground arith)))
eqb_bytes_iff (b ∷ s) (c ∷ t) = ground (arith, eqb_bytes_iff s t)

-- Equality of texts.
instance abbrev pub bytes_cmp : Comparable Bytes
bytes_cmp = record { eqb = eqb_bytes; eqb_iff = eqb_bytes_iff }

-- `strings.ToLower` of an ASCII text.
abbrev pub to_lower : Bytes → Bytes
to_lower [] = []
to_lower (c ∷ s) = (if leb 65 c && leb c 90 then c + 32 else c) ∷ to_lower s

abbrev pub starts_with : Bytes → Bytes → Bool
starts_with [] s = true
starts_with (p ∷ ps) [] = false
starts_with (p ∷ ps) (c ∷ s) = p == c && starts_with ps s

-- The text behind the first place of a pattern, as `strings.Index` finds it.
abbrev pub after : Bytes → Bytes → Option Bytes
after pattern [] = none
after pattern (c ∷ s) =
    if starts_with pattern (c ∷ s) then some (drop (length pattern) (c ∷ s)) else after pattern s

-- `strings.ReplaceAll` for a pattern that is not empty; `skip` bytes belong to a match.
abbrev pub replace_from : ℕ → Bytes → Bytes → Bytes → Bytes
replace_from skip pattern new [] = []
replace_from (suc skip) pattern new (c ∷ s) = replace_from skip pattern new s
replace_from zero pattern new (c ∷ s) =
    if starts_with pattern (c ∷ s)
    then new ++ replace_from (length pattern - 1) pattern new s
    else c ∷ replace_from zero pattern new s

abbrev pub replace_all : Bytes → Bytes → Bytes → Bytes
replace_all pattern new s = replace_from 0 pattern new s
