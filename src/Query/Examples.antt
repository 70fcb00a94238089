-- ===== src/Query/Examples.antt =====
-- Tests of the query modifiers.
use Prim.Native.String.{String}
use fibr.Prelude.{ℕ, ◌≡◌, true, false, List, [], ◌∷◌, nat_beq, ltb, ◌==◌, string_cmp, if◌then◌else◌}
use fibr.Prelude.Int.{pos, negsuc}
use fibr.Query.Offset.{PaginationQuery}
use fibr.Query.Keyset.{KeysetColumn, groups}
use fibr.Query.Keyset.Seek.{some_hold, comes_after, some_hold-groups}

abbrev asked : PaginationQuery
asked = record { page = negsuc 0; limit = pos 20; search = "x"; sort = "a.name"; order = "desc" }

abbrev valid : PaginationQuery
valid = record asked { page = pos 2 }

abbrev options : List String
options = "id" ∷ "a.name" ∷ []

abbrev columns : List KeysetColumn
columns = (record { name = "age"; desc = true }) ∷ (record { name = "id"; desc = false }) ∷ []

abbrev row : String → ℕ
row n = if n == "age" then 30 else 7

some_hold-groups_example :
    some_hold nat_beq ltb row (groups columns (30 ∷ 5 ∷ []) false)
    ≡ comes_after nat_beq ltb row columns (30 ∷ 5 ∷ []) false
some_hold-groups_example = some_hold-groups nat_beq ltb row columns (30 ∷ 5 ∷ []) false
