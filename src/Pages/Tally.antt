-- ===== src/Pages/Tally.antt =====
-- A codec for the tests: each number in strokes, with a comma behind it, and a dot at the end.
use Prim.Native.Char.{Char, code}
use Prim.Native.String.{String, [], ◌∷◌}
use Prim.Native.String.compare
use text.Mathlib.Text.{is_eq}
use mathlib.Core.List as L
use fibr.Prelude.{
  ℕ, zero, suc, ◌+◌, ◌≡◌, refl, ap, ◌∙◌, false, Option, none, some, if◌then◌else◌, ◌==◌, nat_cmp,
  string_cmp, arith,
}
use fibr.Query.Keyset.{Codec}

unfoldable pub strokes : ℕ → String → String
strokes zero s = s
strokes (suc n) s = "x" ∷ strokes n s

abbrev pub write : L.List ℕ → String
write L.[] = "."
write (L.◌∷◌ n ns) = strokes n ("," ∷ write ns)

abbrev pub prepend : ℕ → Option (L.List ℕ) → Option (L.List ℕ)
prepend n none = none
prepend n (some ns) = some (L.◌∷◌ n ns)

unfoldable pub read : ℕ → String → Option (L.List ℕ)
read k [] = none
read k (c ∷ s) =
    let more = read (suc k) s in
    let next = read 0 s in
    if code c == 120 then more else if code c == 44 then prepend k next else some L.[]

abbrev pub tally : Codec ℕ
tally = record { encode_cursor = write; decode_cursor = read 0 }

read-strokes : (n k : ℕ) (s : String) → read k (strokes n s) ≡ read (n + k) s
unfolding read strokes
read-strokes zero k s = ap (λ m. read m s) (omega arith)
read-strokes (suc n) k s = read-strokes n (suc k) s ∙ ap (λ m. read m s) (omega arith)

read-write : (ns : L.List ℕ) → read 0 (write ns) ≡ some ns
unfolding read strokes
read-write L.[] = refl
read-write (L.◌∷◌ n ns) =
    read-strokes n 0 ("," ∷ write ns)
    ∙ rw (read-write ns) (ap (λ m. some (L.◌∷◌ m ns)) (omega arith))

cons-empty : (c : Char) (s : String) → (c ∷ s == "") ≡ false
cons-empty c s = ap is_eq (compare.cons-nil c s)

nonempty : (ns : L.List ℕ) → (write ns == "") ≡ false
unfolding strokes
nonempty L.[] = refl
nonempty (L.◌∷◌ zero ns) = cons-empty "," (write ns)
nonempty (L.◌∷◌ (suc n) ns) = cons-empty "x" (strokes n ("," ∷ write ns))

pub tally_decodes : (ns : L.List ℕ) → (read 0 (write ns) ≡ some ns) × ((write ns == "") ≡ false)
tally_decodes ns = (read-write ns, nonempty ns)
