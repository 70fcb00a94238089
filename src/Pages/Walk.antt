-- ===== src/Pages/Walk.antt =====
-- parser/keyset.go with pagination/cursor.go: a client that follows the cursors of the pages. The
-- database, which lists the rows of a table in the order of the columns, is read through the
-- meaning of the seek predicate.
use fibr.Prelude.{
  ℕ, zero, suc, ◌<◌, ◌≡◌, refl, subst, ◌-◌, sym, ap, ◌∙◌, String, Bool, true, false, if◌then◌else◌,
  ◌==◌, string_cmp, nat_cmp, eqb_refl, ltb, List, [], ◌∷◌, ◌++◌, Option, none, some, length, take,
  length-take, All, arith, Bool-cases, inl, inr,
}
use fibr.Prelude.Int.{ℤ, pos, pos_part, ltb_ℤ}
use fibr.Query.Keyset.{
  KeysetQuery, KeysetColumn, Codec, groups, seek_values, keyset_columns_valid, limit_of,
}
use fibr.Query.Keyset.Seek.{some_hold, comes_after, some_hold-groups}
use fibr.Pages.Rows.{
  filter, append_assoc, append-nil, split_at, get_last?-append, take-take, take-length,
  All-append_at, filter-All,
}
use fibr.Pages.Cursor.{CursorPage, page_of, with_cursors, new_cursor_page}

module _ {R V : Type 0} (codec : Codec V) (extract : R → List V) (eqb less_than : V → V → Bool)
    (value : R → String → V) (cols : List KeysetColumn) (limit : ℤ) where
  -- The row `y` comes after the row `x` in the order of the columns.
  abbrev pub later : R → R → Bool
  later x y = comes_after eqb less_than (value y) cols (extract x) false

  -- The rows stand in the order of the columns, which is strict on them.
  abbrev pub Ordered : List R → Type 0
  Ordered [] = Unit
  Ordered (x ∷ xs) =
      All (λ y. later x y ≡ true) xs
      × All (λ y. later y x ≡ false) xs
      × (later x x ≡ false)
      × Ordered xs

  abbrev sought : Option (List V) → Bool → List R → List R
  sought none before table = table
  sought (some vals) before table =
      filter (λ r. some_hold eqb less_than (value r) (groups cols vals before)) table

  -- The rows that the database gives for the keyset query.
  pub answer : KeysetQuery → List R → List R
  answer kq table = take (suc (limit_of kq)) (
      if keyset_columns_valid cols
      then sought (seek_values codec kq cols) kq.before table
      else table)

  abbrev query : String → KeysetQuery
  query cursor = record { limit = limit; cursor = cursor; before = false }

  pub page : String → List R → CursorPage R
  page cursor table = new_cursor_page codec extract (answer (query cursor) table) (query cursor)

  -- The rows of the pages from a cursor on, following the next cursor while there is one.
  pub walk : ℕ → String → List R → List R
  unfolding page
  walk zero cursor table = []
  walk (suc n) cursor table =
      let p = page cursor table in
      let rest = walk n p.next_cursor table in p.items ++ (if p.next_cursor == "" then [] else rest)

  filter-Ordered :
      (xs : List R) (x : R) (ys : List R)
      → Ordered (xs ++ x ∷ ys)
      → filter (later x) (xs ++ x ∷ ys) ≡ ys
  filter-Ordered [] x ys h = rw h.2 (filter-All (later x) ys h.0)
  filter-Ordered (y ∷ xs) x ys h =
      rw (All-append_at (λ z. later z y ≡ false) xs x ys h.1) (filter-Ordered xs x ys h.3)

  sought-later :
      (x : R) (table : List R) → sought (some (extract x)) false table ≡ filter (later x) table
  sought-later x [] = refl
  sought-later x (y ∷ table) =
      rw (some_hold-groups eqb less_than (value y) cols (extract x) false)
        (ap (λ l. if later x y then y ∷ l else l) (sought-later x table))

  -- What the codec is relied on for: a cursor decodes to its values, and is not empty.
  abbrev pub Decodes : Type 0
  Decodes =
      (vs : List V)
      → (codec.decode_cursor (codec.encode_cursor vs) ≡ some vs)
        × ((codec.encode_cursor vs == "") ≡ false)

  seek_values-encode :
      (x : R)
      → Decodes
      → length (extract x) ≡ length cols
      → seek_values codec (query (codec.encode_cursor (extract x))) cols ≡ some (extract x)
  unfolding seek_values
  seek_values-encode x d h =
      let (back, full) = d (extract x) in
      rw full (rw back (rw h (rw (eqb_refl (length cols)) refl)))

  page_of-append :
      (cursor : String) (xs : List R) (l : R)
      → ((page_of codec extract (query cursor) true (xs ++ l ∷ [])).items ≡ xs ++ l ∷ [])
        × ((page_of codec extract (query cursor) true (xs ++ l ∷ [])).next_cursor
            ≡ codec.encode_cursor (extract l))
  unfolding page_of with_cursors
  page_of-append cursor [] l = (refl, refl)
  page_of-append cursor (x ∷ xs) l = (refl, rw (get_last?-append x xs l) refl)

  page_of-last :
      (cursor : String) (xs : List R)
      → ((page_of codec extract (query cursor) false xs).items ≡ xs)
        × ((page_of codec extract (query cursor) false xs).next_cursor ≡ "")
  unfolding page_of with_cursors
  page_of-last cursor [] = (refl, refl)
  page_of-last cursor (x ∷ xs) = (refl, refl)

  -- The page at a cursor, by the rows that the cursor leaves.
  page-rows :
      (cursor : String) (table rest : List R)
      → keyset_columns_valid cols ≡ true
      → sought (seek_values codec (query cursor) cols) false table ≡ rest
      → page cursor table
        ≡ new_cursor_page codec extract (take (suc (limit_of (query cursor))) rest) (query cursor)
  unfolding page answer
  page-rows cursor table rest valid h = rw (valid, h) refl

  page-long :
      (n : ℕ) (cursor : String) (rest : List R)
      → limit_of (query cursor) ≡ n
      → ltb n (length rest) ≡ true
      → new_cursor_page codec extract (take (suc (limit_of (query cursor))) rest) (query cursor)
        ≡ page_of codec extract (query cursor) true (take n rest)
  unfolding new_cursor_page
  page-long n cursor rest e h =
      let many : ltb n (length (take (suc n) rest)) ≡ true =
        ground (arith, length-take (suc n) rest) in
      rw (e, many, take-take n rest) refl

  page-short :
      (n : ℕ) (cursor : String) (rest : List R)
      → limit_of (query cursor) ≡ n
      → ltb n (length rest) ≡ false
      → new_cursor_page codec extract (take (suc (limit_of (query cursor))) rest) (query cursor)
        ≡ page_of codec extract (query cursor) false rest
  unfolding new_cursor_page
  page-short n cursor rest e h = rw (e, take-length (suc n) rest (ground arith), h) refl

  limit-positive : (cursor : String) → (n : ℕ) × (limit_of (query cursor) ≡ suc n)
  limit-positive cursor = elim (Bool-cases (ltb_ℤ (pos 0) limit)) [
    | inl b ↦ (pos_part limit - 1, ground arith)
    | inr b ↦ (9, rw b refl)
  ]

  -- From a cursor that leaves `rest`, the walk gives `rest`.
  walk-rest :
      (fuel : ℕ) (cursor : String) (table pre rest : List R)
      → keyset_columns_valid cols ≡ true
      → Decodes
      → All (λ r. length (extract r) ≡ length cols) table
      → Ordered table
      → table ≡ pre ++ rest
      → sought (seek_values codec (query cursor) cols) false table ≡ rest
      → length rest < fuel
      → walk fuel cursor table ≡ rest
  unfolding walk
  walk-rest zero cursor table pre rest valid d wide ord e h f = absurd (omega arith)
  walk-rest (suc fuel) cursor table pre rest valid d wide ord e h f =
      let (n, ln) = limit-positive cursor in
      let rows = page-rows cursor table rest valid h in
      elim (Bool-cases (ltb (suc n) (length rest))) [
        | inr short ↦
            let (items, end) = page_of-last cursor rest in
            rw (rows, page-short (suc n) cursor rest ln short, items, end) (append-nil rest)
        | inl long ↦
            let (p, l, q, t, split, fewer) = split_at n rest (ground arith) in
            let (items, more) = page_of-append cursor p l in
            let whole : table ≡ (pre ++ p) ++ l ∷ q =
              e ∙ ap (λ r. pre ++ r) split ∙ sym (append_assoc pre p (l ∷ q)) in
            let width =
              All-append_at (λ r. length (extract r) ≡ length cols) (pre ++ p) l q
                (subst (λ x. All (λ r. length (extract r) ≡ length cols) x) whole wide) in
            let left : sought (seek_values codec (query (codec.encode_cursor (extract l))) cols)
                  false table
                ≡ q =
              rw (seek_values-encode l d width) (
                sought-later l table
                ∙ rw whole (filter-Ordered (pre ++ p) l q (subst Ordered whole ord))) in
            let next =
              walk-rest fuel (codec.encode_cursor (extract l)) table ((pre ++ p) ++ l ∷ []) q valid
                d wide ord (whole ∙ sym (append_assoc (pre ++ p) (l ∷ []) q)) left (omega arith) in
            rw
              (rows, page-long (suc n) cursor rest ln long, t, items, more, (d (extract l)).1, next)
              (append_assoc p (l ∷ []) q ∙ sym split)
      ]

  -- A client that starts without a cursor and follows the next cursors gets every row of the table
  -- once and in order, within one page request more than the table has rows. The table is in the
  -- strict order of the columns, each row has a value for each column, the columns have simple
  -- names, and a cursor is not empty and decodes to its values.
  pub walk_every_row :
      (table : List R)
      → keyset_columns_valid cols ≡ true
      → Decodes
      → All (λ r. length (extract r) ≡ length cols) table
      → Ordered table
      → walk (suc (length table)) "" table ≡ table
  unfolding seek_values
  walk_every_row table valid d wide ord =
      walk-rest (suc (length table)) "" table [] table valid d wide ord refl refl (omega arith)
