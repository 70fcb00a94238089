-- ===== src/Pages/Cursor.antt =====
-- pagination/cursor.go: the page of a keyset query, with the cursors of its neighbours.
use fibr.Prelude.{
  String, Bool, if◌then◌else◌, ◌==◌, string_cmp, ltb, List, [], ◌∷◌, none, some, length, take,
  reverse, get_last?,
}
use fibr.Query.Keyset.{KeysetQuery, Codec, limit_of}

pub record CursorPage (T : Type 0) : Type 0 where
  pub items : List T
  pub next_cursor : String
  pub prev_cursor : String

module _ {T V : Type 0} (codec : Codec V) (extract : T → List V) where
  -- The cursors of a page that is not empty, from its first and last row.
  unfoldable pub with_cursors : KeysetQuery → Bool → List T → T → T → CursorPage T
  with_cursors kq has_extra kept first last =
      if kq.before
      then record {
        items = kept;
        next_cursor = codec.encode_cursor (extract last);
        prev_cursor = if has_extra then codec.encode_cursor (extract first) else "";
      }
      else record {
        items = kept;
        next_cursor = if has_extra then codec.encode_cursor (extract last) else "";
        prev_cursor = if kq.cursor == "" then "" else codec.encode_cursor (extract first);
      }

  unfoldable pub page_of : KeysetQuery → Bool → List T → CursorPage T
  page_of kq has_extra [] = record { items = []; next_cursor = ""; prev_cursor = "" }
  page_of kq has_extra (x ∷ xs) =
      with_cursors kq has_extra (x ∷ xs) x (elim (get_last? (x ∷ xs)) [ none ↦ x | some l ↦ l ])

  unfoldable pub new_cursor_page : List T → KeysetQuery → CursorPage T
  new_cursor_page rows kq =
      let has_extra = ltb (limit_of kq) (length rows) in
      let kept = if has_extra then take (limit_of kq) rows else rows in
      page_of kq has_extra (if kq.before then reverse kept else kept)
