-- ===== src/Query/Keyset.antt =====
-- parser/keyset.go: pages by the values of the ordering columns. The encoding of a cursor (base64 of
-- JSON) is a parameter.
pub mod Seek
use Prim.Native.String.{String, ◌++◌}
use fibr.Prelude.{
  ℕ, ◌+◌, Bool, true, false, not, ◌&&◌, ◌||◌, if◌then◌else◌, ◌==◌, string_cmp, nat_cmp, List, [],
  ◌∷◌, Option, none, some, length,
}
use fibr.Prelude.Int.{ℤ, pos, pos_part, ltb_ℤ}
use fibr.Query.Identifier.{is_simple_identifier}
use fibr.Query.Statement.{Statement, where_expr, order_expr, wrap64, join}

pub record KeysetColumn : Type 0 where
  pub name : String
  pub desc : Bool

pub record KeysetQuery : Type 0 where
  pub limit : ℤ
  pub cursor : String
  pub before : Bool

-- What base64 and JSON give: a text of the column values, and back.
pub record Codec (V : Type 0) : Type 0 where
  pub encode_cursor : List V → String
  pub decode_cursor : String → Option (List V)

pub data Op : Type 0 where
  equals less greater : Op

-- One part of a seek predicate, `name op ?` with its argument.
pub record Part (V : Type 0) : Type 0 where
  pub name : String
  pub op : Op
  pub arg : V

-- `cols[i].Desc != before`
abbrev pub descending : KeysetColumn → Bool → Bool
descending c before = if c.desc then not before else before

abbrev text_op : Op → String
text_op equals = " = ?"
text_op less = " < ?"
text_op greater = " > ?"

abbrev pub snoc : {A : Type 0} → List A → A → List A
snoc [] a = a ∷ []
snoc (x ∷ xs) a = x ∷ snoc xs a

module _ {V : Type 0} where
  abbrev texts : List (Part V) → List String
  texts [] = []
  texts (p ∷ ps) = (p.name ++ text_op p.op) ∷ texts ps

  abbrev arguments : List (Part V) → List V → List V
  arguments [] rest = rest
  arguments (p ∷ ps) rest = p.arg ∷ arguments ps rest

  abbrev group_texts : List (List (Part V)) → List String
  group_texts [] = []
  group_texts (g ∷ gs) = ("(" ++ join (texts g) " AND " ++ ")") ∷ group_texts gs

  abbrev group_arguments : List (List (Part V)) → List V
  group_arguments [] = []
  group_arguments (g ∷ gs) = arguments g (group_arguments gs)

  -- The inner loop: the columns before the i-th are equal, and the i-th comes after.
  abbrev pub parts_of : List KeysetColumn → List V → KeysetColumn → V → Bool → List (Part V)
  parts_of (e ∷ es) (u ∷ us) c v before =
      (record { name = e.name; op = equals; arg = u }) ∷ parts_of es us c v before
  parts_of es us c v before =
      (record { name = c.name; op = if descending c before then less else greater; arg = v }) ∷ []

  -- The outer loop, from the columns that it has passed.
  pub groups_from :
      List KeysetColumn → List V → List KeysetColumn → List V → Bool → List (List (Part V))
  groups_from es us (c ∷ cs) (v ∷ vs) before =
      parts_of es us c v before ∷ groups_from (snoc es c) (snoc us v) cs vs before
  groups_from es us cs vs before = []

  pub groups : List KeysetColumn → List V → Bool → List (List (Part V))
  groups cols vals before = groups_from [] [] cols vals before

  pub build_seek : List KeysetColumn → List V → Bool → String × List V
  build_seek cols vals before =
      let gs = groups cols vals before in
      ("(" ++ join (group_texts gs) " OR " ++ ")", group_arguments gs)

abbrev pub keyset_columns_valid : List KeysetColumn → Bool
keyset_columns_valid [] = true
keyset_columns_valid (c ∷ cs) = is_simple_identifier c.name && keyset_columns_valid cs

abbrev pub default_keyset_limit : ℕ
default_keyset_limit = 10

-- The rows that a page asks for, without the extra one.
abbrev pub limit_of : KeysetQuery → ℕ
limit_of kq = if ltb_ℤ (pos 0) kq.limit then pos_part kq.limit else default_keyset_limit

abbrev order_columns : {V : Type 0} → List KeysetColumn → Bool → Statement V → Statement V
order_columns [] before q = q
order_columns (c ∷ cs) before q =
    order_columns cs before
      (order_expr (c.name ++ (if descending c before then " DESC" else " ASC")) q)

-- The values of the cursor, where it gives one for each column.
unfoldable pub seek_values :
    {V : Type 0} → Codec V → KeysetQuery → List KeysetColumn → Option (List V)
seek_values codec kq cols = if kq.cursor == "" then none else elim (codec.decode_cursor kq.cursor) [
  | none ↦ none
  | some vals ↦ if length vals == length cols then some vals else none
]

seek_by : {V : Type 0} → Option (List V) → List KeysetColumn → Bool → Statement V → Statement V
seek_by none cols before q = q
seek_by (some vals) cols before q =
    let (pred, args) = build_seek cols vals before in where_expr pred args q

pub keyset : {V : Type 0} → Codec V → KeysetQuery → List KeysetColumn → Statement V → Statement V
unfolding seek_by
keyset codec kq [] q = record q { limit = some (wrap64 (limit_of kq + 1)) }
keyset codec kq (c ∷ cs) q =
    let page = some (wrap64 (limit_of kq + 1)) in
    if not (keyset_columns_valid (c ∷ cs))
    then record q { limit = page }
    else (let sought = seek_by (seek_values codec kq (c ∷ cs)) (c ∷ cs) kq.before q in
        record (order_columns (c ∷ cs) kq.before sought) { limit = page })
