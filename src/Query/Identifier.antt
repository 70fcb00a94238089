-- ===== src/Query/Identifier.antt =====
-- parser/parser.go: the texts that may stand in an ORDER BY. A text is read as its characters.
use Prim.Native.Char.{code}
use Prim.Native.String.{String, [], ◌∷◌, ◌++◌}
use Prim.Native.String.append
use mathlib.Core.Path.{◌≡◌, refl, ap, ◌∙◌}
use fibr.Prelude.{
  ℕ, ◌+◌, Bool, true, false, leb, if◌then◌else◌, ◌==◌, ◌&&◌, ◌||◌, string_cmp, nat_cmp, arith,
}

abbrev between : ℕ → ℕ → ℕ → Bool
between lo hi n = leb lo n && leb n hi

-- a letter, a digit, `_` or `.`
abbrev identifier_char : ℕ → Bool
identifier_char n = between 97 122 n || between 65 90 n || between 48 57 n || n == 95 || n == 46

abbrev all_identifier : String → Bool
all_identifier [] = true
all_identifier (c ∷ s) = identifier_char (code c) && all_identifier s

unfoldable pub is_simple_identifier : String → Bool
is_simple_identifier s = if s == "" then false else all_identifier s

-- The codes of `strings.ToLower`, where the result is compared with ASCII texts: no character outside
-- ASCII has a lower case letter of "asc" or "desc".
abbrev lower : ℕ → ℕ
lower n = if between 65 90 n then n + 32 else n

abbrev same_lower : String → String → Bool
same_lower [] [] = true
same_lower (c ∷ s) (d ∷ t) = lower (code c) == code d && same_lower s t
same_lower s t = false

-- `strings.ToLower(order)` is this text.
abbrev pub lowers_to : String → String → Bool
lowers_to s t = same_lower s t

-- A text of identifier characters and spaces.
pub plain : String → Bool
plain [] = true
plain (c ∷ s) = (identifier_char (code c) || code c == 32) && plain s

plain-all_identifier : (s : String) → all_identifier s ≡ true → plain s ≡ true
unfolding plain
plain-all_identifier [] h = refl
plain-all_identifier (c ∷ s) h = ground (arith, plain-all_identifier s)

pub plain-is_simple_identifier : (s : String) → is_simple_identifier s ≡ true → plain s ≡ true
unfolding is_simple_identifier
plain-is_simple_identifier s h = plain-all_identifier s (ground arith)

pub plain-append : (s t : String) → plain s ≡ true → plain t ≡ true → plain (s ++ t) ≡ true
unfolding plain
plain-append [] t h g = ap plain (append.nil t) ∙ g
plain-append (c ∷ s) t h g = ap plain (append.cons c s t) ∙ ground (arith, plain-append s t)

pub plain_asc :
    (plain " asc" ≡ true) × (plain " desc" ≡ true) × (plain " ASC" ≡ true) × (plain " DESC" ≡ true)
unfolding plain
plain_asc = (refl, refl, refl, refl)
