-- ===== src/Auth/Bearer.antt =====
-- auth/middleware.go: the token of an Authorization header. Positions count bytes, as in Go.
use Prim.Native.Char.{code}
use Prim.Native.String.{String, [], ◌∷◌, len, slice}
use text.Mathlib.Text.{get?}
use fibr.Prelude.{
  ℕ, ◌+◌, Bool, true, false, some, none, ltb, leb, if◌then◌else◌, ◌==◌, ◌&&◌, nat_cmp,
}

-- `strings.EqualFold` where the second text is ASCII without k and s, whose only other cases are
-- the ASCII ones.
abbrev lower_code : ℕ → ℕ
lower_code n = if leb 65 n && ltb n 91 then n + 32 else n

abbrev equal_fold : String → String → Bool
equal_fold [] [] = true
equal_fold [] (d ∷ t) = false
equal_fold (c ∷ s) [] = false
equal_fold (c ∷ s) (d ∷ t) = lower_code (code c) == lower_code (code d) && equal_fold s t

-- The token after "Bearer ", and "" without one.
unfoldable pub bearer_token : String → String
bearer_token h =
    if ltb 7 (len h)
    then elim (get? h 0 7) [
      | none ↦ ""
      | some prefix ↦ if equal_fold prefix "Bearer " then slice h 7 (len h) else ""
    ]
    else ""
