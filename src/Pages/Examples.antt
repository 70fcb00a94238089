-- ===== src/Pages/Examples.antt =====
-- Tests of the pages.
use fibr.Prelude.{ℕ, suc, ◌≡◌, refl, false, List, [], ◌∷◌, nat_beq, ltb, length}
use fibr.Prelude.Int.{pos}
use fibr.Query.Identifier.{is_simple_identifier}
use fibr.Query.Offset.{PaginationQuery}
use fibr.Query.Keyset.{KeysetColumn}
use fibr.Pages.Walk.{walk, walk_every_row}
use fibr.Pages.Tally.{tally, tally_decodes}

abbrev rows : List ℕ
rows = 1 ∷ 2 ∷ []

abbrev third : PaginationQuery
third = record { page = pos 3; limit = pos 0; search = ""; sort = ""; order = "" }

abbrev by_id : List KeysetColumn
by_id = (record { name = "id"; desc = false }) ∷ []

abbrev table : List ℕ
table = 2 ∷ 3 ∷ 5 ∷ 7 ∷ 11 ∷ []

walk_every_row_example :
    walk tally
      (λ (n : ℕ). n ∷ [])
      nat_beq
      ltb
      (λ n name. n)
      by_id
      (pos 2)
      (suc (length table))
      ""
      table
    ≡ table
unfolding is_simple_identifier
walk_every_row_example =
    walk_every_row tally (λ (n : ℕ). n ∷ []) nat_beq ltb (λ n name. n) by_id (pos 2) table refl
      tally_decodes (refl, (refl, (refl, (refl, (refl, tt)))))
      (
        (refl, (refl, (refl, (refl, tt)))),
        (refl, (refl, (refl, (refl, tt)))),
        refl,
        (
          (refl, (refl, (refl, tt))),
          (refl, (refl, (refl, tt))),
          refl,
          (
            (refl, (refl, tt)),
            (refl, (refl, tt)),
            refl,
            ((refl, tt), (refl, tt), refl, (tt, tt, refl, tt)),
          ),
        ),
      )
